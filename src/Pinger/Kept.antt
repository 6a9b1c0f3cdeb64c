-- ===== src/Pinger/Kept.antt =====
-- What updates, pings and aggregations keep: one aggregated latency for two addresses, and the
-- address that the pinger is known by.
use proxima_scheduler.Prelude.{
  String, ◌≡◌, refl, sym, subst, ◌∙◌, inl, inr, Bool-cases, List, [], ◌∷◌, string_eq, arith,
}
use proxima_scheduler.Prelude.Int.{ℤ, ◌+ℤ◌, wrap64}
use proxima_scheduler.Kube.{Node}
use proxima_scheduler.Map.{Map, keys, IsUnique, insert-IsUnique, delete-IsUnique}
use proxima_scheduler.Map
use proxima_scheduler.Effect.{Result, ok, err}
use proxima_scheduler.Nodes.{is_edge_proxy}
use proxima_scheduler.Pinger.{
  Pinger, AggregatedLatencyKey, key_eq, note_node, note_nodes, forget, prune, prune_all,
  update_from, add_latencies, aggregate_one, aggregate_from, aggregate_latencies, add_address,
  remove_address,
}
use proxima_scheduler.Pinger.Addresses.{note_nodes-IsNoted}
use proxima_scheduler.Pinger.Pings.{ping_all_lem}
use proxima_scheduler.Pinger.Rounds.{key_of}
use proxima_scheduler.Pinger.States.{
  Reached, started, updated, pinged_all, aggregated, Reached-IsConsistent,
}

forget-IsUnique :
    (eps : List String) (address : String) (m : Map AggregatedLatencyKey ℤ)
    → IsUnique m
    → IsUnique (forget eps address m)
unfolding forget
forget-IsUnique [] address m u = u
forget-IsUnique (ep ∷ eps) address m u =
    forget-IsUnique eps address (Map.delete (key_of ep address) m)
      (delete-IsUnique (key_of ep address) m u)

prune-IsUnique :
    (current : Map String Unit) (a : String) (p : Pinger)
    → IsUnique p.aggregated_latencies
    → IsUnique (prune current a p).aggregated_latencies
unfolding prune remove_address
prune-IsUnique current a p u = elim (Bool-cases (Map.has a current)) [
  | inl kept ↦ rw kept (forget-IsUnique p.edge_proxies a p.aggregated_latencies u)
  | inr gone ↦ rw gone (forget-IsUnique p.edge_proxies a p.aggregated_latencies u)
]

prune_all-IsUnique :
    (current : Map String Unit) (visited : List String) (p : Pinger)
    → IsUnique p.aggregated_latencies
    → IsUnique (prune_all current visited p).aggregated_latencies
unfolding prune_all
prune_all-IsUnique current [] p u = u
prune_all-IsUnique current (a ∷ rest) p u =
    prune_all-IsUnique current rest (prune current a p) (prune-IsUnique current a p u)

update_from-IsUnique :
    (nodes : List Node) (p : Pinger)
    → IsUnique p.aggregated_latencies
    → IsUnique (update_from nodes p).aggregated_latencies
unfolding update_from
update_from-IsUnique nodes p u =
    let after = note_nodes nodes (p, []) in
    prune_all-IsUnique after.1 (keys after.0.addr) after.0
      (subst IsUnique (sym (note_nodes-IsNoted "" nodes (p, [])).5) u)

add_latencies-IsUnique :
    (edges : List String) (ep : String) (c : ℤ) (m : Map String ℤ)
    (sums : Map AggregatedLatencyKey ℤ)
    → IsUnique sums
    → IsUnique (add_latencies edges ep c m sums)
unfolding add_latencies
add_latencies-IsUnique edges ep c [] sums u = u
add_latencies-IsUnique edges ep c ((a, l) ∷ m) sums u = elim (Bool-cases (is_edge_proxy a edges)) [
  | inl edge ↦ rw edge (add_latencies-IsUnique edges ep c m sums u)
  | inr node ↦ rw node (
      add_latencies-IsUnique edges ep c m (Map.insert (key_of ep a) (wrap64 (c +ℤ l)) sums)
        (insert-IsUnique (key_of ep a) (wrap64 (c +ℤ l)) sums u))
]

aggregate_one-IsUnique :
    (ep : String) (r : Result ℤ) (p : Pinger)
    → IsUnique p.aggregated_latencies
    → IsUnique (aggregate_one ep r p).aggregated_latencies
unfolding aggregate_one
aggregate_one-IsUnique ep (err e) p u = u
aggregate_one-IsUnique ep (ok c) p u =
    add_latencies-IsUnique p.edge_proxies ep c p.latencies p.aggregated_latencies u

aggregate_from-IsUnique :
    (latency_of : String → String → Result ℤ) (eps : List String) (p : Pinger)
    → IsUnique p.aggregated_latencies
    → IsUnique (aggregate_from latency_of eps p).aggregated_latencies
unfolding aggregate_from
aggregate_from-IsUnique latency_of [] p u = u
aggregate_from-IsUnique latency_of (ep ∷ eps) p u =
    let r = latency_of ep p.external_node_ip in
    aggregate_from-IsUnique latency_of eps (aggregate_one ep r p) (aggregate_one-IsUnique ep r p u)

pub Reached-IsUnique : (p : Pinger) → Reached p → IsUnique p.aggregated_latencies
unfolding aggregate_latencies IsUnique
Reached-IsUnique _ (started interval clientset enabled node_ip kind_ip found) = tt
Reached-IsUnique _ (updated nodes p r) = update_from-IsUnique nodes p (Reached-IsUnique p r)
Reached-IsUnique _ (pinged_all ping p r) =
    let (same, unique, value) = ping_all_lem ping p (Reached-IsConsistent p r).unique in
    subst (λ (q : Pinger). IsUnique q.aggregated_latencies) (sym same) (Reached-IsUnique p r)
Reached-IsUnique _ (aggregated latency_of p r) =
    aggregate_from-IsUnique latency_of p.edge_proxies p (Reached-IsUnique p r)

note_node-external :
    (node : Node) (s : Pinger × Map String Unit)
    → (note_node node s).0.external_node_ip ≡ s.0.external_node_ip
unfolding note_node add_address
note_node-external node (p, current) = ground arith

note_nodes-external :
    (nodes : List Node) (s : Pinger × Map String Unit)
    → (note_nodes nodes s).0.external_node_ip ≡ s.0.external_node_ip
unfolding note_nodes
note_nodes-external [] s = refl
note_nodes-external (node ∷ nodes) s =
    note_nodes-external nodes (note_node node s) ∙ note_node-external node s

prune-external :
    (current : Map String Unit) (a : String) (p : Pinger)
    → (prune current a p).external_node_ip ≡ p.external_node_ip
unfolding prune remove_address
prune-external current a p = ground arith

prune_all-external :
    (current : Map String Unit) (visited : List String) (p : Pinger)
    → (prune_all current visited p).external_node_ip ≡ p.external_node_ip
unfolding prune_all
prune_all-external current [] p = refl
prune_all-external current (a ∷ rest) p =
    prune_all-external current rest (prune current a p) ∙ prune-external current a p

pub update_from-external :
    (nodes : List Node) (p : Pinger) → (update_from nodes p).external_node_ip ≡ p.external_node_ip
unfolding update_from
update_from-external nodes p =
    let after = note_nodes nodes (p, []) in
    prune_all-external after.1 (keys after.0.addr) after.0 ∙ note_nodes-external nodes (p, [])
