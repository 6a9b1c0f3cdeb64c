-- ===== src/Pinger/States.antt =====
-- The states that a pinger reaches from its start by updates, pings and aggregations in any order.
use proxima_scheduler.Prelude.{
  String, Bool, true, ◌&&◌, ◌||◌, ◌≡◌, refl, sym, subst, Option, none, List, [], ◌∷◌, string_eq,
  if◌then◌else◌, arith,
}
use proxima_scheduler.Prelude.Int.{ℤ}
use proxima_scheduler.Kube.{Clientset, Node}
use proxima_scheduler.Effect.{Result}
use proxima_scheduler.Map.{Map, keys, has-nil, has-insert, lookup-insert, IsUnique, insert-IsUnique}
use proxima_scheduler.Map
use proxima_scheduler.Nodes.{is_edge_proxy}
use proxima_scheduler.Pinger.{
  Pinger, key_eq, pinger_with, Ping, ping_all, aggregate_latencies, update_from,
}
use proxima_scheduler.Pinger.Addresses.{member, update_from_lem}
use proxima_scheduler.Pinger.Unique.{update_from-IsUnique}
use proxima_scheduler.Pinger.Pings.{pinged, ping_all_lem}
use proxima_scheduler.Pinger.Rounds.{aggregate_from_lem}

pub record IsConsistent (p : Pinger) : Type 0 where
  pub unique : IsUnique p.latencies
  -- each latency is that of a node or of an edge proxy, and each node has one
  pub known :
      (a : String)
      → Map.has a p.latencies ≡ true
      → (Map.has a p.addr || member a p.edge_proxies) ≡ true
  pub timed : (a : String) → Map.has a p.addr ≡ true → Map.has a p.latencies ≡ true
  -- each aggregated latency is from an edge proxy to a node
  pub summed :
      (s d : String)
      → Map.has (record { source = s; destination = d }) p.aggregated_latencies ≡ true
      → (member s p.edge_proxies && Map.has d p.addr) ≡ true

pub is_edge_proxy-member :
    (a : String) (edges : List String) → is_edge_proxy a edges ≡ member a edges
unfolding is_edge_proxy member
is_edge_proxy-member a [] = refl
is_edge_proxy-member a (e ∷ edges) = ground (arith, is_edge_proxy-member a edges)

start-IsConsistent :
    (interval : ℤ) (clientset : Option Clientset) (enabled : Bool) (node_ip kind_ip : String)
    (found : String × List String)
    → IsConsistent (pinger_with interval clientset enabled node_ip kind_ip found)
unfolding IsUnique Map.has Map.lookup
start-IsConsistent interval clientset enabled node_ip kind_ip found = record {
  unique = tt;
  known = λ a e. cc;
  timed = λ a e. cc;
  summed = λ s d e. cc;
}

update-IsConsistent :
    (nodes : List Node) (p : Pinger) → IsConsistent p → IsConsistent (update_from nodes p)
unfolding Map.has
update-IsConsistent nodes p c = record {
  unique = update_from-IsUnique nodes p c.unique;
  known = λ a e. ground (arith, e, update_from_lem nodes p a a, c.known a, c.timed a);
  timed = λ a e. ground (arith, e, update_from_lem nodes p a a, c.known a, c.timed a);
  summed = λ s d e. ground (arith, e, update_from_lem nodes p d s, c.summed s d);
}

pings-IsConsistent :
    (ping : String → Ping) (p : Pinger) → IsConsistent p → IsConsistent (ping_all ping p).0
unfolding Map.has
pings-IsConsistent ping p c =
    let (same, unique, value) = ping_all_lem ping p c.unique in
    subst IsConsistent (sym same) (record {
      unique = unique;
      known = λ a e. ground (arith, e, value a, c.known a);
      timed = λ a e. kept a (value a) (c.timed a e);
      summed = c.summed;
    })
  where
    kept :
        (a : String)
        → Map.lookup a (ping_all ping p).0.latencies ≡ (
            if Map.has a p.addr || member a p.edge_proxies
            then pinged (ping a) (Map.lookup a p.latencies)
            else Map.lookup a p.latencies)
        → Map.has a p.latencies ≡ true
        → Map.has a (ping_all ping p).0.latencies ≡ true
    kept a e f = ground (arith, e, f)

aggregates-IsConsistent :
    (latency_of : String → String → Result ℤ) (p : Pinger)
    → IsConsistent p
    → IsConsistent (aggregate_latencies latency_of p).0
unfolding Map.has aggregate_latencies
aggregates-IsConsistent latency_of p c =
    subst IsConsistent (sym (aggregate_from_lem latency_of p.edge_proxies p "" "" c.unique).1)
      (record {
        unique = c.unique;
        known = c.known;
        timed = c.timed;
        summed = λ s d e. ground (
          arith,
          e,
          aggregate_from_lem latency_of p.edge_proxies p s d c.unique,
          c.summed s d,
          c.known d,
          is_edge_proxy-member d p.edge_proxies,
        );
      })

pub data Reached : Pinger → Type 0 where
  started :
      (interval : ℤ) (clientset : Option Clientset) (enabled : Bool) (node_ip kind_ip : String)
      (found : String × List String)
      → Reached (pinger_with interval clientset enabled node_ip kind_ip found)
  updated : (nodes : List Node) (p : Pinger) → Reached p → Reached (update_from nodes p)
  pinged_all : (ping : String → Ping) (p : Pinger) → Reached p → Reached (ping_all ping p).0
  aggregated :
      (latency_of : String → String → Result ℤ) (p : Pinger)
      → Reached p
      → Reached (aggregate_latencies latency_of p).0

-- In every state that the pinger reaches, by updates, pings and aggregations in any order and with any
-- answers, each address has at most one latency, every latency is that of a known node or edge proxy,
-- every known node has one, and every aggregated latency is from an edge proxy to a known node.
pub Reached-IsConsistent : (p : Pinger) → Reached p → IsConsistent p
Reached-IsConsistent _ (started interval clientset enabled node_ip kind_ip found) =
    start-IsConsistent interval clientset enabled node_ip kind_ip found
Reached-IsConsistent _ (updated nodes p r) = update-IsConsistent nodes p (Reached-IsConsistent p r)
Reached-IsConsistent _ (pinged_all ping p r) = pings-IsConsistent ping p (Reached-IsConsistent p r)
Reached-IsConsistent _ (aggregated latency_of p r) =
    aggregates-IsConsistent latency_of p (Reached-IsConsistent p r)

-- In a state that the pinger reaches, an update forgets all aggregated latencies, so what the next
-- aggregation saves is made of answers that came after it.
update_from_forgets :
    (nodes : List Node) (p : Pinger) (s d : String)
    → Reached p
    → Map.lookup (record { source = s; destination = d }) (update_from nodes p).aggregated_latencies
      ≡ none
unfolding Map.has
update_from_forgets nodes p s d r =
    let c = Reached-IsConsistent p r in ground (arith, update_from_lem nodes p d s, c.summed s d)
