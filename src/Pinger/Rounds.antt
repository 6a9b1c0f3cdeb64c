-- ===== src/Pinger/Rounds.antt =====
-- PingAll and AggregateLatencies, and the states that a pinger reaches.
use proxima_scheduler.Prelude.{
  String, Bool, true, false, ◌||◌, ◌≡◌, refl, sym, ap, subst, Option, none, some, List, [], ◌∷◌,
  ◌==◌, string_eq, if◌then◌else◌, arith,
}
use proxima_scheduler.Prelude.Int.{ℤ, ◌+ℤ◌, wrap64}
use proxima_scheduler.Effect.{Result, ok, err}
use proxima_scheduler.Map.{
  Map, keys, has-insert, has-delete, lookup-insert, lookup-delete, IsUnique, insert-IsUnique,
  delete-IsUnique, has-lookup,
}
use proxima_scheduler.Map
use proxima_scheduler.Nodes.{is_edge_proxy}
use proxima_scheduler.Pinger.{
  Pinger, AggregatedLatencyKey, key_eq, add_latencies, aggregate_one, aggregate_from,
  aggregate_latencies, saved_sums,
}
use proxima_scheduler.Pinger.Addresses.{member}

-- The latency between an edge proxy and a node: over this pinger's node, where both parts are known,
-- and not between edge proxies.
abbrev pub over_this_node : Result ℤ → Bool → Option ℤ → Option ℤ → Option ℤ
over_this_node (err e) edge latency old = old
over_this_node (ok to_current) true latency old = old
over_this_node (ok to_current) false none old = old
over_this_node (ok to_current) false (some latency) old = some (wrap64 (to_current +ℤ latency))

abbrev pub key_of : String → String → AggregatedLatencyKey
key_of s d = record { source = s; destination = d }

add_latencies_lem :
    (edges : List String) (ep : String) (c : ℤ) (m : Map String ℤ)
    (sums : Map AggregatedLatencyKey ℤ) (s d : String)
    → IsUnique m
    → Map.lookup (key_of s d) (add_latencies edges ep c m sums) ≡ (
        if ep == s
        then over_this_node
            (ok c)
            (is_edge_proxy d edges)
            (Map.lookup d m)
            (Map.lookup (key_of s d) sums)
        else Map.lookup (key_of s d) sums)
unfolding add_latencies Map.lookup IsUnique
add_latencies_lem edges ep c [] sums s d u = ground arith
add_latencies_lem edges ep c ((a, l) ∷ m) sums s d (fresh, u) = ground (
  arith,
  add_latencies_lem edges ep c m
      (if is_edge_proxy a edges then sums else Map.insert (key_of ep a) (wrap64 (c +ℤ l)) sums) s d
      u,
  lookup-insert (key_of ep a) (key_of s d) (wrap64 (c +ℤ l)) sums,
  string_eq.equals_iff a d,
  has-lookup a m fresh,
)

-- What the outer loop makes of the pinger; it changes nothing else.
abbrev IsAggregated :
    (String → String → Result ℤ) → String → String → Bool → Pinger → Pinger → Type 0
IsAggregated latency_of s d asked p q =
    (Map.lookup (key_of s d) q.aggregated_latencies ≡ (
      if asked
      then over_this_node (latency_of s p.external_node_ip) (is_edge_proxy d p.edge_proxies)
          (Map.lookup d p.latencies) (Map.lookup (key_of s d) p.aggregated_latencies)
      else Map.lookup (key_of s d) p.aggregated_latencies))
    × (q ≡ record p { aggregated_latencies = q.aggregated_latencies })

one-IsAggregated :
    (latency_of : String → String → Result ℤ) (r : Result ℤ) (ep s d : String) (p : Pinger)
    → latency_of ep p.external_node_ip ≡ r
    → IsUnique p.latencies
    → IsAggregated latency_of s d (ep == s) p (aggregate_one ep r p)
unfolding aggregate_one
one-IsAggregated latency_of (err e) ep s d p known u =
    (ground (arith, known, string_eq.equals_iff ep s), refl)
one-IsAggregated latency_of (ok c) ep s d p known u = (
  ground (
    arith,
    known,
    string_eq.equals_iff ep s,
    add_latencies_lem p.edge_proxies ep c p.latencies p.aggregated_latencies s d u,
  ),
  refl,
)

over_this_node_again :
    (r : Result ℤ) (edge : Bool) (latency old : Option ℤ)
    → over_this_node r edge latency (over_this_node r edge latency old)
      ≡ over_this_node r edge latency old
over_this_node_again (err e) edge latency old = refl
over_this_node_again (ok c) true latency old = refl
over_this_node_again (ok c) false none old = refl
over_this_node_again (ok c) false (some l) old = refl

IsAggregated-trans :
    (latency_of : String → String → Result ℤ) (s d : String) (t u : Bool) (x y z : Pinger)
    → IsAggregated latency_of s d t x y
    → IsAggregated latency_of s d u y z
    → IsAggregated latency_of s d (t || u) x z
IsAggregated-trans latency_of s d t u x y z (e, same) later =
    let (f, same') = subst (λ w. IsAggregated latency_of s d u w z) same later in
    (
      ground (
        arith,
        e,
        f,
        over_this_node_again (latency_of s x.external_node_ip) (is_edge_proxy d x.edge_proxies)
            (Map.lookup d x.latencies) (Map.lookup (key_of s d) x.aggregated_latencies),
      ),
      same',
    )

pub aggregate_from_lem :
    (latency_of : String → String → Result ℤ) (eps : List String) (p : Pinger) (s d : String)
    → IsUnique p.latencies
    → IsAggregated latency_of s d (member s eps) p (aggregate_from latency_of eps p)
unfolding aggregate_from member
aggregate_from_lem latency_of [] p s d u = (refl, refl)
aggregate_from_lem latency_of (ep ∷ eps) p s d u =
    let q = aggregate_one ep (latency_of ep p.external_node_ip) p in
    let first = one-IsAggregated latency_of (latency_of ep p.external_node_ip) ep s d p refl u in
    IsAggregated-trans latency_of s d (ep == s) (member s eps) p q (aggregate_from latency_of eps q)
      first
      (aggregate_from_lem latency_of eps q s d
        (subst IsUnique (sym (ap (λ x. x.latencies) first.1)) u))

-- After AggregateLatencies by a pinger with one latency for an address, the latency from each known
-- edge proxy to an address is what the database answered for it and this pinger's node, plus the
-- latency of the address here, with the wrap-around of 64 bits, where both are known and the address
-- is no edge proxy itself. All others are what they were, and the database is asked to save all of
-- them, if there are any.
pub aggregate_latencies_lem :
    (latency_of : String → String → Result ℤ) (p : Pinger) (s d : String)
    → IsUnique p.latencies
    → let (q, saved) = aggregate_latencies latency_of p in
      (saved ≡ saved_sums q.aggregated_latencies)
      × (Map.lookup (key_of s d) q.aggregated_latencies ≡ (
          if member s p.edge_proxies
          then over_this_node
              (latency_of s p.external_node_ip)
              (is_edge_proxy d p.edge_proxies)
              (Map.lookup d p.latencies)
              (Map.lookup (key_of s d) p.aggregated_latencies)
          else Map.lookup (key_of s d) p.aggregated_latencies))
unfolding aggregate_latencies
aggregate_latencies_lem latency_of p s d u =
    (refl, (aggregate_from_lem latency_of p.edge_proxies p s d u).0)
