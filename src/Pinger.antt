-- ===== src/Pinger.antt =====
-- proxima-scheduler/pinger/pinger.go: the addresses that a pinger knows, their latencies, and what it
-- saves of them. The pings and the database answer as the arguments say.
pub mod Addresses
pub mod Rounds
pub mod Unique
pub mod Pings
pub mod States
pub mod Running
pub mod Kept
pub mod Saving
use mathlib.Core.Path.{ap₂}
use proxima_scheduler.Prelude.{
  ℕ, String, Bool, true, false, not, ◌&&◌, ◌≡◌, refl, subst, ◌↔◌, beq_refl, Option, none, some,
  List, [], ◌∷◌, ◌++◌, ◌==◌, string_eq, if◌then◌else◌, Comparable, arith,
}
use proxima_scheduler.Prelude.Int.{ℤ, pos, ◌+ℤ◌, wrap64}
use proxima_scheduler.Kube.{Clientset, Address, Node}
use proxima_scheduler.Map.{Map, keys}
use proxima_scheduler.Map
use proxima_scheduler.Effect.{Env, M, Result, ok, err, ◌>>=◌, return}
use proxima_scheduler.Nodes.{is_internal, discover_nodes, is_edge_proxy, obtain_edge_proxies}

pub record AggregatedLatencyKey : Type 0 where
  pub source : String
  pub destination : String

abbrev pub key_equals : AggregatedLatencyKey → AggregatedLatencyKey → Bool
key_equals x y = x.source == y.source && x.destination == y.destination

pub key_equals_iff : (x y : AggregatedLatencyKey) → (key_equals x y ≡ true) ↔ (x ≡ y)
key_equals_iff x y = (
  λ e.
      let s : x.source ≡ y.source = (string_eq.equals_iff x.source y.source).0 (ground arith) in
      let d : x.destination ≡ y.destination =
        (string_eq.equals_iff x.destination y.destination).0 (ground arith) in
      ap₂ (λ a b. record { source = a; destination = b }) s d,
  λ e. subst (λ z. key_equals x z ≡ true) e (simp (beq_refl x.source, beq_refl x.destination)),
)

instance abbrev pub key_eq : Comparable AggregatedLatencyKey
key_eq = record { equals = key_equals; equals_iff = key_equals_iff }

pub record Pinger : Type 0 where
  pub addr : Map String Unit
  pub latencies : Map String ℤ
  pub aggregated_latencies : Map AggregatedLatencyKey ℤ
  pub interval : ℤ
  pub db_enabled : Bool
  pub clientset : Option Clientset
  pub node_ip : String
  pub external_node_ip : String
  pub edge_proxies : List String
  pub kind_network_ip : String

abbrev pub pinger_with :
    ℤ → Option Clientset → Bool → String → String → String × List String → Pinger
pinger_with interval clientset db_enabled node_ip kind_network_ip (external, edges) = record {
  addr = [];
  latencies = [];
  aggregated_latencies = [];
  interval = interval;
  db_enabled = db_enabled;
  clientset = clientset;
  node_ip = node_ip;
  external_node_ip = external;
  edge_proxies = edges;
  kind_network_ip = kind_network_ip;
}

unfoldable pub add_address : String → Pinger → Pinger
add_address address p = record p {
  addr = Map.insert address tt p.addr;
  latencies = Map.insert address (pos 0) p.latencies;
}

unfoldable pub remove_address : String → Pinger → Pinger
remove_address address p = record p {
  addr = Map.delete address p.addr;
  latencies = Map.delete address p.latencies;
}

-- The first internal address of a node, empty where it has none.
unfoldable pub node_address : List Address → String
node_address [] = ""
node_address (a ∷ addrs) = if is_internal a.type then a.address else node_address addrs

-- One node of the first loop of updateAddresses, with the addresses that are current so far.
unfoldable pub note_node : Node → Pinger × Map String Unit → Pinger × Map String Unit
note_node node (p, current) =
    let address = node_address node.addresses in
    if address == "" then (p, current) else if address == p.node_ip then (p, current) else (
      (if Map.has address p.addr then p else add_address address p),
      Map.insert address tt current,
    )

unfoldable pub note_nodes : List Node → Pinger × Map String Unit → Pinger × Map String Unit
note_nodes [] state = state
note_nodes (node ∷ nodes) state = note_nodes nodes (note_node node state)

unfoldable pub forget :
    List String → String → Map AggregatedLatencyKey ℤ → Map AggregatedLatencyKey ℤ
forget [] address m = m
forget (ep ∷ eps) address m =
    forget eps address (Map.delete (record { source = ep; destination = address }) m)

-- One address of the second loop.
unfoldable pub prune : Map String Unit → String → Pinger → Pinger
prune current address p =
    let q = if Map.has address current then p else remove_address address p in
    record q { aggregated_latencies = forget q.edge_proxies address q.aggregated_latencies }

unfoldable pub prune_all : Map String Unit → List String → Pinger → Pinger
prune_all current [] p = p
prune_all current (address ∷ rest) p = prune_all current rest (prune current address p)

-- updateAddresses on the nodes that were discovered. Only the address that is visited is deleted, so
-- the loop visits each address that was there when it began.
unfoldable pub update_from : List Node → Pinger → Pinger
update_from nodes p =
    let (q, current) = note_nodes nodes (p, []) in prune_all current (keys q.addr) q

-- updateAddresses with what DiscoverNodes answered.
unfoldable pub take_nodes : Result (List Node) → Pinger → Pinger
take_nodes (err e) p = p
take_nodes (ok nodes) p = update_from nodes p

module _ {F : Type 0} (env : Env F) where
  unfoldable pub new_pinger :
      ℤ → Option Clientset → Bool → String → List String → String → M (Result Pinger)
  new_pinger interval clientset db_enabled node_ip edge_proxies kind_network_ip = do
    r ← obtain_edge_proxies env edge_proxies clientset node_ip kind_network_ip
    elim r [
      | err e ↦ return (err e)
      | ok found ↦
          return (ok (pinger_with interval clientset db_enabled node_ip kind_network_ip found))
    ]

  unfoldable pub update_addresses : Pinger → M Pinger
  update_addresses p = do r ← discover_nodes env p.clientset false; return (take_nodes r p)

-- What pinging an address once comes to: its pinger cannot be made or fails to run, no packet comes
-- back, or one does, after a time.
pub data Ping : Type 0 where
  failed unanswered : Ping
  answered : ℤ → Ping

unfoldable pub note_ping : String → Ping → Pinger → Pinger
note_ping address failed p = p
note_ping address unanswered p = p
note_ping address (answered rtt) p = record p { latencies = Map.insert address rtt p.latencies }

unfoldable pub ping_each : (String → Ping) → List String → Pinger → Pinger
ping_each ping [] p = p
ping_each ping (address ∷ rest) p = ping_each ping rest (note_ping address (ping address) p)

-- What SaveLatenciesToDB asks the database to save: the latencies, and the edge that measured them.
unfoldable pub save_latencies : Pinger → Option (Map String ℤ × String)
save_latencies p = if not p.db_enabled then none else elim p.latencies [
  | [] ↦ none
  | (address, latency) ∷ rest ↦ some ((address, latency) ∷ rest, p.external_node_ip)
]

unfoldable pub ping_all : (String → Ping) → Pinger → Pinger × Option (Map String ℤ × String)
ping_all ping p =
    let q = ping_each ping (keys p.addr ++ p.edge_proxies) p in
    (q, (if q.db_enabled then save_latencies q else none))

-- The inner loop of AggregateLatencies, over the latencies.
unfoldable pub add_latencies :
    List String
    → String
    → ℤ
    → Map String ℤ
    → Map AggregatedLatencyKey ℤ
    → Map AggregatedLatencyKey ℤ
add_latencies edges ep to_current [] m = m
add_latencies edges ep to_current ((address, latency) ∷ rest) m =
    add_latencies edges ep to_current rest (
      if is_edge_proxy address edges
      then m
      else Map.insert (record { source = ep; destination = address })
          (wrap64 (to_current +ℤ latency)) m)

-- One edge proxy of the outer loop, with the database's answer to GetLatency.
unfoldable pub aggregate_one : String → Result ℤ → Pinger → Pinger
aggregate_one ep (err e) p = p
aggregate_one ep (ok to_current) p = record p {
  aggregated_latencies =
      add_latencies p.edge_proxies ep to_current p.latencies p.aggregated_latencies;
}

unfoldable pub aggregate_from : (String → String → Result ℤ) → List String → Pinger → Pinger
aggregate_from latency_of [] p = p
aggregate_from latency_of (ep ∷ eps) p =
    aggregate_from latency_of eps (aggregate_one ep (latency_of ep p.external_node_ip) p)

-- What SaveAggregatedLatenciesToDB asks the database to save.
unfoldable pub saved_sums : Map AggregatedLatencyKey ℤ → Option (Map AggregatedLatencyKey ℤ)
saved_sums [] = none
saved_sums (sum ∷ sums) = some (sum ∷ sums)

unfoldable pub aggregate_latencies :
    (String → String → Result ℤ) → Pinger → Pinger × Option (Map AggregatedLatencyKey ℤ)
aggregate_latencies latency_of p =
    let q = aggregate_from latency_of p.edge_proxies p in (q, saved_sums q.aggregated_latencies)
