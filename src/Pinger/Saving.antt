-- ===== src/Pinger/Saving.antt =====
-- What a round of the pinger saves, and what the database answers of it afterwards.
use mathlib.Core.List.{append-nil}
use proxima_scheduler.Prelude.{
  Bool-cases, true, String, false, ◌&&◌, ◌||◌, ◌≡◌, refl, sym, ap, subst, ◌∙◌, Option, none, some,
  List, [], ◌∷◌, ◌++◌, ◌⊎◌, ◌≢◌, inl, inr, string_eq, if◌then◌else◌, arith,
}
use proxima_scheduler.Prelude.Int.{ℤ, pos}
use proxima_scheduler.Kube.{Node}
use proxima_scheduler.Map.{Map, keys, IsUnique, insert-IsUnique, delete-IsUnique}
use proxima_scheduler.Map
use proxima_scheduler.Float.{Float}
use proxima_scheduler.Effect.{ok}
use proxima_scheduler.Nodes.{is_edge_proxy}
use proxima_scheduler.Pinger.{
  Pinger, Ping, key_eq, update_from, ping_all, ping_each, AggregatedLatencyKey, save_latencies,
  aggregate_latencies, take_nodes, saved_sums,
}
use proxima_scheduler.Pinger.Addresses.{member, any_tracked, update_from_lem}
use proxima_scheduler.Pinger.Pings.{pinged, ping_all_lem}
use proxima_scheduler.Pinger.Rounds.{key_of, over_this_node, aggregate_from_lem}
use proxima_scheduler.Pinger.States.{Reached, updated, Reached-IsConsistent, is_edge_proxy-member}
use proxima_scheduler.Pinger.Kept.{Reached-IsUnique, update_from-external}
use proxima_scheduler.Pinger.Running.{
  Answers, Save, ping_times, sums, pings_saved, sums_saved, round, round-Reached,
}
use proxima_scheduler.Database.{Answer, Point, save_ping_time, save_aggregated_latencies}
use proxima_scheduler.Database.Queries.{Query, get_average_ping_time_by_edges}
use proxima_scheduler.Database.Answers.{IsAnswering, IsElsewhere}
use proxima_scheduler.Database.Saved.{
  pings_filter, in_ms, get_average_ping_time_by_edges-save_aggregated_latencies,
}

-- The latency of a node after it was discovered and pinged.
abbrev pub heard : Pinger → String → Ping → Option ℤ
heard p d answer =
    pinged answer (if Map.has d p.addr then Map.lookup d p.latencies else some (pos 0))

-- The latency that a round finds from an edge proxy to an address: from the edge proxy to this node
-- by the database's answer, and on to a node that was discovered by the ping.
abbrev pub found_latency : Answers → List Node → Pinger → String → String → Option ℤ
found_latency answers nodes p s d =
    if member s p.edge_proxies && any_tracked p.node_ip d nodes
    then over_this_node (answers.latency_of s p.external_node_ip) (is_edge_proxy d p.edge_proxies)
        (heard p d (answers.ping d)) none
    else none

abbrev IsFound : Answers → List Node → Pinger → Pinger → Type 0
IsFound answers nodes p q =
    (s d : String)
    → Map.lookup (key_of s d) q.aggregated_latencies ≡ found_latency answers nodes p s d

-- The points that are written for what is asked to be saved.
abbrev pub points_of : {F : Type 0} ⦃fl : Float F⦄ → List Save → List (Point F)
points_of [] = []
points_of (ping_times latencies edge ∷ saves) = save_ping_time latencies edge ++ points_of saves
points_of (sums m ∷ saves) = save_aggregated_latencies m ++ points_of saves

module _ (answers : Answers) (nodes : List Node) (p : Pinger) where
  abbrev with_latencies : Map String ℤ → Pinger
  with_latencies m = record (update_from nodes p) { latencies = m }

  with_latencies-IsFound :
      (m : Map String ℤ) (s d : String)
      → Reached p
      → IsUnique m
      → (let q = update_from nodes p in
          Map.lookup d m ≡ (
            if Map.has d q.addr || member d q.edge_proxies
            then pinged (answers.ping d) (Map.lookup d q.latencies)
            else Map.lookup d q.latencies))
      → Map.lookup
          (key_of s d)
          (aggregate_latencies answers.latency_of (with_latencies m)).0.aggregated_latencies
        ≡ found_latency answers nodes p s d
  unfolding Map.has aggregate_latencies
  with_latencies-IsFound m s d reached u value =
      let c = Reached-IsConsistent p reached in
      let q = update_from nodes p in
      ground (
        arith,
        value,
        (aggregate_from_lem answers.latency_of q.edge_proxies (with_latencies m) s d u).0,
        update_from_lem nodes p d s,
        c.summed s d,
        c.known d,
        update_from-external nodes p,
        is_edge_proxy-member d p.edge_proxies,
      )

  round-IsFound :
      Reached p → answers.discovered ≡ ok nodes → IsFound answers nodes p (round answers p).0
  unfolding round take_nodes
  round-IsFound reached found s d =
      let q = update_from nodes p in
      let (same, unique, value) =
        ping_all_lem answers.ping q (Reached-IsConsistent q (updated nodes p reached)).unique in
      rw found (
        subst
          (λ (r : Pinger).
            Map.lookup (key_of s d)
              (aggregate_latencies answers.latency_of r).0.aggregated_latencies
            ≡ found_latency answers nodes p s d)
          (sym same)
          (with_latencies-IsFound (ping_all answers.ping q).0.latencies s d reached unique
            (value d)))

  ping_all-saves :
      (q : Pinger)
      → let (r, saved) = ping_all answers.ping q in
        (saved ≡ none) ⊎ ((pings : Map String ℤ) × (saved ≡ some (pings, r.external_node_ip)))
  unfolding ping_all save_latencies
  ping_all-saves q =
      let r = ping_each answers.ping (keys q.addr ++ q.edge_proxies) q in
      saving r r.latencies refl (Bool-cases r.db_enabled)
    where
      saving :
          (r : Pinger) (m : Map String ℤ)
          → r.latencies ≡ m
          → (r.db_enabled ≡ true) ⊎ (r.db_enabled ≡ false)
          → ((if r.db_enabled then save_latencies r else none) ≡ none)
            ⊎ ((pings : Map String ℤ) × ((if r.db_enabled then save_latencies r else none)
                  ≡ some (pings, r.external_node_ip)))
      saving r m e (inr off) = inl (rw off refl)
      saving r [] e (inl on) = inl (rw (on, e) refl)
      saving r (entry ∷ rest) e (inl on) = inr (entry ∷ rest, rw (on, e) refl)

  ping_all-external :
      (q : Pinger) → Reached q → (ping_all answers.ping q).0.external_node_ip ≡ q.external_node_ip
  ping_all-external q reached =
      ap (λ (r : Pinger). r.external_node_ip)
        (ping_all_lem answers.ping q (Reached-IsConsistent q reached).unique).0

  -- What is written for the sums that are saved.
  sums_points :
      {F : Type 0} ⦃fl : Float F⦄ (m : Map AggregatedLatencyKey ℤ)
      → points_of {F = F} (sums_saved (saved_sums m)) ≡ save_aggregated_latencies m
  unfolding sums_saved saved_sums save_aggregated_latencies
  sums_points [] = refl
  sums_points (entry ∷ m) = append-nil _

  -- What a round writes: the pings from this node, if it saves them, and its aggregated latencies.
  round_points :
      {F : Type 0} ⦃fl : Float F⦄
      → Reached p
      → answers.discovered ≡ ok nodes
      → (pings : Map String ℤ) × (points_of {F = F} (round answers p).1
          ≡ save_ping_time pings p.external_node_ip
            ++ save_aggregated_latencies (round answers p).0.aggregated_latencies)
  unfolding round take_nodes aggregate_latencies pings_saved save_ping_time
  round_points reached found =
      let q = update_from nodes p in
      let same = ping_all-external q (updated nodes p reached) ∙ update_from-external nodes p in
      let r = (ping_all answers.ping q).0 in
      let kept = (aggregate_latencies answers.latency_of r).0.aggregated_latencies in
      elim (ping_all-saves q) [
        | inl unsaved ↦ rw (found, unsaved) ([], sums_points _)
        | inr (pings, saved) ↦
            rw (found, saved)
              (
                pings,
                ap (λ edge. save_ping_time pings edge ++ points_of (sums_saved (saved_sums kept)))
                      same
                    ∙ ap (◌++◌ (save_ping_time pings p.external_node_ip)) (sums_points kept),
              )
      ]

  pub round_read :
      {F : Type 0} ⦃fl : Float F⦄ (bucket : String) (run : Query → Answer F)
      (others : List (Point F))
      → Reached p
      → answers.discovered ≡ ok nodes
      → IsElsewhere "ping_times" others
      → IsAnswering run
          (others ++ points_of (round answers p).1)
          pings_filter
          ("node" ∷ "edge_proxy" ∷ [])
      → (m : Map String (Map String F)) × (get_average_ping_time_by_edges bucket run ≡ ok m)
        × ((s d : String)
            → s ≢ p.external_node_ip
            → Map.lookup d (Map.get_or [] s m) ≡ in_ms (found_latency answers nodes p s d))
  round_read bucket run others reached found elsewhere answering =
      let q = (round answers p).0 in
      let (pings, e) = round_points reached found in
      let (m, reads, value) =
        get_average_ping_time_by_edges-save_aggregated_latencies bucket run others pings
          p.external_node_ip q.aggregated_latencies
          (Reached-IsUnique q (round-Reached answers p reached)) elsewhere
          (subst
            (λ points. IsAnswering run (others ++ points) pings_filter ("node" ∷ "edge_proxy" ∷ []))
            e answering) in
      (m, reads, λ s d apart. value s d apart ∙ ap in_ms (round-IsFound reached found s d))
