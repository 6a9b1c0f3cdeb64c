-- ===== src/Pinger/Unique.antt =====
-- updateAddresses leaves one latency for an address.
use proxima_scheduler.Prelude.{String, List, [], ◌∷◌, ◌==◌, string_eq, Bool-cases, inl, inr}
use proxima_scheduler.Prelude.Int.{pos}
use proxima_scheduler.Kube.{Node}
use proxima_scheduler.Map.{
  Map, keys, has-nil, has-insert, has-delete, lookup-insert, lookup-delete, IsUnique,
  insert-IsUnique, delete-IsUnique,
}
use proxima_scheduler.Map
use proxima_scheduler.Pinger.{
  Pinger, key_eq, add_address, remove_address, node_address, note_node, note_nodes, prune,
  prune_all, update_from,
}

note_node-IsUnique :
    (node : Node) (s : Pinger × Map String Unit)
    → IsUnique s.0.latencies
    → IsUnique (note_node node s).0.latencies
unfolding note_node add_address
note_node-IsUnique node (p, current) u = elim (Bool-cases (node_address node.addresses == "")) [
  | inl e ↦ rw (note_node, e) u
  | inr e ↦ elim (Bool-cases (node_address node.addresses == p.node_ip)) [
    | inl f ↦ rw (note_node, e, f) u
    | inr f ↦ elim (Bool-cases (Map.has (node_address node.addresses) p.addr)) [
      | inl g ↦ rw (note_node, e, f, g) u
      | inr g ↦
          rw (note_node, e, f, g)
            (insert-IsUnique (node_address node.addresses) (pos 0) p.latencies u)
    ]
  ]
]

note_nodes-IsUnique :
    (nodes : List Node) (s : Pinger × Map String Unit)
    → IsUnique s.0.latencies
    → IsUnique (note_nodes nodes s).0.latencies
unfolding note_nodes
note_nodes-IsUnique [] s u = u
note_nodes-IsUnique (node ∷ nodes) s u =
    note_nodes-IsUnique nodes (note_node node s) (note_node-IsUnique node s u)

prune_all-IsUnique :
    (current : Map String Unit) (visited : List String) (p : Pinger)
    → IsUnique p.latencies
    → IsUnique (prune_all current visited p).latencies
unfolding prune_all prune remove_address
prune_all-IsUnique current [] p u = u
prune_all-IsUnique current (a ∷ rest) p u =
    prune_all-IsUnique current rest (prune current a p) (elim (Bool-cases (Map.has a current)) [
      | inl kept ↦ rw kept u
      | inr gone ↦ rw gone (delete-IsUnique a p.latencies u)
    ])

pub update_from-IsUnique :
    (nodes : List Node) (p : Pinger)
    → IsUnique p.latencies
    → IsUnique (update_from nodes p).latencies
unfolding update_from
update_from-IsUnique nodes p u =
    let after = note_nodes nodes (p, []) in
    prune_all-IsUnique after.1 (keys after.0.addr) after.0 (note_nodes-IsUnique nodes (p, []) u)
