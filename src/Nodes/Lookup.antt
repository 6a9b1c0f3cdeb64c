-- ===== src/Nodes/Lookup.antt =====
-- What the queries of util/k8s.go find: the search by address and the filter of edge proxies.
use proxima_scheduler.Prelude.{
  String, true, ◌&&◌, ◌≡◌, ◌≢◌, ◌↔◌, inl, inr, refl, sym, ap, subst, List, [], ◌∷◌, ◌++◌, ◌==◌,
  string_eq, In, arith, Bool-cases,
}
use proxima_scheduler.Kube.{Address, Node, internal_ip}
use proxima_scheduler.Effect.{ok}
use proxima_scheduler.Nodes.{
  is_internal, has_internal_ip, find_node, is_edge_proxy, filter_edge_proxies,
}

pub string_beq_iff : (a b : String) → ((a == b) ≡ true) ↔ (a ≡ b)
string_beq_iff a b = string_eq.equals_iff a b

-- The node has the address among its internal ones.
abbrev pub HasAddress : String → Node → Type 0
HasAddress ip n = (a : Address) × In a n.addresses × (a.type ≡ internal_ip) × (a.address ≡ ip)

has_internal_ip_sound :
    (ip : String) (addrs : List Address)
    → has_internal_ip ip addrs ≡ true
    → (a : Address) × In a addrs × (a.type ≡ internal_ip) × (a.address ≡ ip)
unfolding has_internal_ip
has_internal_ip_sound ip [] h = cc
has_internal_ip_sound ip (a ∷ addrs) h = elim (Bool-cases (is_internal a.type && a.address == ip)) [
  | inl yes_here ↦ (a, inl refl, ground arith, ground (arith, string_beq_iff a.address ip))
  | inr not_here ↦
      let (b, m, t, e) = has_internal_ip_sound ip addrs (rw not_here at h) in (b, inr m, t, e)
]

has_internal_ip_complete :
    (ip : String) (addrs : List Address) (a : Address)
    → In a addrs
    → a.type ≡ internal_ip
    → a.address ≡ ip
    → has_internal_ip ip addrs ≡ true
unfolding has_internal_ip
has_internal_ip_complete ip [] a m t e = absurd m
has_internal_ip_complete ip (b ∷ addrs) a m t e =
    ground (arith, string_beq_iff b.address ip, has_internal_ip_complete ip addrs a)

HasAddress-found :
    (ip : String) (n : Node) → HasAddress ip n → has_internal_ip ip n.addresses ≡ true
HasAddress-found ip n (a, m, t, e) = has_internal_ip_complete ip n.addresses a m t e

-- The search by address finds the first node of the list that has the address.
pub find_node-first :
    (ip : String) (ns : List Node) (n : Node)
    → find_node ip ns ≡ ok n
    → (before after : List Node) × (ns ≡ before ++ n ∷ after)
      × HasAddress ip n
      × ((m : Node) → In m before → ¬ HasAddress ip m)
unfolding find_node
find_node-first ip [] n e = cc
find_node-first ip (m ∷ ns) n e = elim (Bool-cases (has_internal_ip ip m.addresses)) [
  | inl here ↦
      let same : m ≡ n = ground arith in
      (
        [],
        ns,
        rw same,
        subst (HasAddress ip) same (has_internal_ip_sound ip m.addresses here),
        λ k none_before. absurd none_before,
      )
  | inr there ↦
      let (before, after, split, has, first) = find_node-first ip ns n (rw there at e) in
      (
        m ∷ before,
        after,
        ap (◌∷◌ m) split,
        has,
        λ k k_in k_has. elim k_in [
          | inl p ↦ cc (there, HasAddress-found ip m (subst (HasAddress ip) (sym p) k_has))
          | inr r ↦ first k r k_has
        ],
      )
]

-- An address is an edge proxy's exactly when it is listed.
is_edge_proxy_iff :
    (address : String) (eps : List String) → (is_edge_proxy address eps ≡ true) ↔ In address eps
unfolding is_edge_proxy
is_edge_proxy_iff address [] = ground arith
is_edge_proxy_iff address (ep ∷ eps) =
    ground (arith, string_beq_iff ep address, is_edge_proxy_iff address eps)

-- The filter keeps exactly the listed proxies other than this node.
filter_edge_proxies_iff :
    (current : String) (eps : List String) (ep : String)
    → In ep (filter_edge_proxies current eps) ↔ (In ep eps × (ep ≢ current))
unfolding filter_edge_proxies
filter_edge_proxies_iff current [] ep = ground arith
filter_edge_proxies_iff current (e ∷ eps) ep =
    ground (arith, string_beq_iff e current, filter_edge_proxies_iff current eps ep)
