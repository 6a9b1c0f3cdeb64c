-- ===== src/Pinger/Addresses.antt =====
-- updateAddresses: the addresses, the latencies and the aggregated latencies that it leaves.
use proxima_scheduler.Prelude.{
  String, Bool, false, not, ◌&&◌, ◌||◌, ◌≡◌, refl, sym, subst, ◌∙◌, none, some, List, [], ◌∷◌, ◌==◌,
  string_eq, if◌then◌else◌, arith,
}
use proxima_scheduler.Prelude.Int.{ℤ, pos}
use proxima_scheduler.Kube.{Node}
use proxima_scheduler.Map.{
  Map, keys, has-nil, has-insert, has-delete, lookup-insert, lookup-delete, IsUnique,
  insert-IsUnique, delete-IsUnique,
}
use proxima_scheduler.Map
use proxima_scheduler.Pinger.{
  Pinger, AggregatedLatencyKey, key_eq, add_address, remove_address, node_address, note_node,
  note_nodes, forget, prune, prune_all, update_from,
}

-- A node is tracked at its address, unless it has none or is the one that the pinger runs on.
abbrev pub is_tracked : String → String → Node → Bool
is_tracked node_ip a node = node_address node.addresses == a && not (a == "") && not (a == node_ip)

unfoldable pub any_tracked : String → String → List Node → Bool
any_tracked node_ip a [] = false
any_tracked node_ip a (node ∷ nodes) = is_tracked node_ip a node || any_tracked node_ip a nodes

unfoldable pub member : String → List String → Bool
member a [] = false
member a (x ∷ xs) = x == a || member a xs

pub has-keys : {V : Type 0} (a : String) (m : Map String V) → Map.has a m ≡ member a (keys m)
unfolding Map.has member Map.lookup
has-keys a [] = refl
has-keys a ((k, v) ∷ m) = ground (arith, has-keys a m)

-- What one node, or some nodes, make of the state of the first loop.
abbrev pub IsNoted : String → Bool → Pinger × Map String Unit → Pinger × Map String Unit → Type 0
IsNoted a tracked before after =
    (Map.has a after.1 ≡ (tracked || Map.has a before.1))
    × (Map.has a after.0.addr ≡ (tracked || Map.has a before.0.addr))
    × (Map.lookup a after.0.latencies ≡ (
        if tracked && not (Map.has a before.0.addr)
        then some (pos 0)
        else Map.lookup a before.0.latencies))
    × (after.0.node_ip ≡ before.0.node_ip)
    × (after.0.edge_proxies ≡ before.0.edge_proxies)
    × (after.0.aggregated_latencies ≡ before.0.aggregated_latencies)

note_node-IsNoted :
    (a : String) (node : Node) (s : Pinger × Map String Unit)
    → IsNoted a (is_tracked s.0.node_ip a node) s (note_node node s)
unfolding note_node add_address
note_node-IsNoted a node (p, current) = ground (
  arith,
  has-insert (node_address node.addresses) a tt current,
  has-insert (node_address node.addresses) a tt p.addr,
  lookup-insert (node_address node.addresses) a (pos 0) p.latencies,
  string_eq.equals_iff (node_address node.addresses) a,
  string_eq.equals_iff (node_address node.addresses) "",
  string_eq.equals_iff a "",
  string_eq.equals_iff a p.node_ip,
  string_eq.equals_iff (node_address node.addresses) p.node_ip,
)

IsNoted-trans :
    (a : String) (t u : Bool) (x y z : Pinger × Map String Unit)
    → IsNoted a t x y
    → IsNoted a u y z
    → IsNoted a (t || u) x z
IsNoted-trans a t u x y z (e₁, e₂, e₃, e₄, e₅, e₆) (f₁, f₂, f₃, f₄, f₅, f₆) =
    (ground arith, ground arith, ground arith, f₄ ∙ e₄, f₅ ∙ e₅, f₆ ∙ e₆)

pub note_nodes-IsNoted :
    (a : String) (nodes : List Node) (s : Pinger × Map String Unit)
    → IsNoted a (any_tracked s.0.node_ip a nodes) s (note_nodes nodes s)
unfolding note_nodes any_tracked
note_nodes-IsNoted a [] s = (refl, refl, refl, refl, refl, refl)
note_nodes-IsNoted a (node ∷ nodes) s =
    IsNoted-trans a (is_tracked s.0.node_ip a node) (any_tracked s.0.node_ip a nodes) s
      (note_node node s) (note_nodes nodes (note_node node s)) (note_node-IsNoted a node s)
      (subst
        (λ ip.
          IsNoted a (any_tracked ip a nodes) (note_node node s)
            (note_nodes nodes (note_node node s)))
        (note_node-IsNoted a node s).3 (note_nodes-IsNoted a nodes (note_node node s)))

forget-lookup :
    (eps : List String) (address s d : String) (m : Map AggregatedLatencyKey ℤ)
    → Map.lookup (record { source = s; destination = d }) (forget eps address m) ≡ (
        if member s eps && address == d
        then none
        else Map.lookup (record { source = s; destination = d }) m)
unfolding forget member
forget-lookup [] address s d m = refl
forget-lookup (ep ∷ eps) address s d m = ground (
  arith,
  forget-lookup eps address s d (Map.delete (record { source = ep; destination = address }) m),
  lookup-delete (record { source = ep; destination = address })
      (record { source = s; destination = d }) m,
)

-- What the second loop makes of the state, at the addresses that it visits.
abbrev IsPruned : String → String → Bool → Bool → Pinger → Pinger → Type 0
IsPruned a s visited current before after =
    (Map.has a after.addr ≡ (Map.has a before.addr && (current || not visited)))
    × (Map.lookup a after.latencies
        ≡ (if visited && not current then none else Map.lookup a before.latencies))
    × (Map.lookup (record { source = s; destination = a }) after.aggregated_latencies ≡ (
        if member s before.edge_proxies && visited
        then none
        else Map.lookup (record { source = s; destination = a }) before.aggregated_latencies))
    × (after.edge_proxies ≡ before.edge_proxies)
    × (after.node_ip ≡ before.node_ip)

prune-IsPruned :
    (a s address : String) (current : Map String Unit) (p : Pinger)
    → IsPruned a s (address == a) (Map.has a current) p (prune current address p)
unfolding prune remove_address
prune-IsPruned a s address current p = ground (
  arith,
  has-delete address a p.addr,
  lookup-delete address a p.latencies,
  forget-lookup p.edge_proxies address s a p.aggregated_latencies,
  string_eq.equals_iff address a,
)

IsPruned-trans :
    (a s : String) (t u current : Bool) (x y z : Pinger)
    → IsPruned a s t current x y
    → IsPruned a s u current y z
    → IsPruned a s (t || u) current x z
IsPruned-trans a s t u current x y z (e₁, e₂, e₃, e₄, e₅) (f₁, f₂, f₃, f₄, f₅) =
    (ground arith, ground arith, rw e₄ at f₃ ∙ ground arith, f₄ ∙ e₄, f₅ ∙ e₅)

prune_all-IsPruned :
    (a s : String) (current : Map String Unit) (visited : List String) (p : Pinger)
    → IsPruned a s (member a visited) (Map.has a current) p (prune_all current visited p)
unfolding prune_all member
prune_all-IsPruned a s current [] p = (ground arith, refl, ground arith, refl, refl)
prune_all-IsPruned a s current (address ∷ rest) p =
    IsPruned-trans a s (address == a) (member a rest) (Map.has a current) p
      (prune current address p) (prune_all current rest (prune current address p))
      (prune-IsPruned a s address current p)
      (prune_all-IsPruned a s current rest (prune current address p))

-- What an update leaves at an address.
abbrev pub IsUpdated : String → String → Bool → Pinger → Pinger → Type 0
IsUpdated a s tracked p q =
    (Map.has a q.addr ≡ tracked)
    × (Map.lookup a q.latencies ≡ (
        if tracked
        then (if Map.has a p.addr then Map.lookup a p.latencies else some (pos 0))
        else (if Map.has a p.addr then none else Map.lookup a p.latencies)))
    × (Map.lookup (record { source = s; destination = a }) q.aggregated_latencies ≡ (
        if member s p.edge_proxies && (tracked || Map.has a p.addr)
        then none
        else Map.lookup (record { source = s; destination = a }) p.aggregated_latencies))
    × (q.edge_proxies ≡ p.edge_proxies)

noted-IsUpdated :
    (a s : String) (tracked : Bool) (p q : Pinger) (after : Pinger × Map String Unit)
    → IsNoted a tracked (p, []) after
    → IsPruned a s (Map.has a after.0.addr) (Map.has a after.1) after.0 q
    → IsUpdated a s tracked p q
noted-IsUpdated a s tracked p q after (e₁, e₂, e₃, e₄, e₅, e₆) (f₁, f₂, f₃, f₄, f₅) =
    let none_yet : Map.has a [] ≡ false = has-nil Unit a in
    (ground arith, ground arith, rw (e₅, e₆) at f₃ ∙ ground arith, f₄ ∙ e₅)

-- After an update from the nodes that were discovered, the pinger's addresses are the first internal
-- addresses of those nodes, other than that of its own node. An address that it had keeps its latency,
-- a new one has the latency 0, and one that is gone has none; the latencies of others are what they
-- were. The aggregated latencies from a known edge proxy to an address that it had or has are gone, and
-- the others are what they were. The known edge proxies stay.
pub update_from_lem :
    (nodes : List Node) (p : Pinger) (a s : String)
    → IsUpdated a s (any_tracked p.node_ip a nodes) p (update_from nodes p)
unfolding update_from
update_from_lem nodes p a s =
    let after = note_nodes nodes (p, []) in
    noted-IsUpdated a s (any_tracked p.node_ip a nodes) p (update_from nodes p) after
      (note_nodes-IsNoted a nodes (p, []))
      (subst
        (λ v.
          IsPruned a s v (Map.has a after.1) after.0
            (prune_all after.1 (keys after.0.addr) after.0))
        (sym (has-keys a after.0.addr))
        (prune_all-IsPruned a s after.1 (keys after.0.addr) after.0))
