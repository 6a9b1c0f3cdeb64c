-- ===== src/Scheduler/Capacity.antt =====
-- proxima-scheduler/scheduler/node_selector.go: whether a node can hold a pod, and the two simple
-- selectors.
use mathlib.Core.Path.{ap₂}
use proxima_scheduler.Prelude.{
  ℕ, ◌+◌, ◌≤◌, ◌≡◌, ◌↔◌, ◌∙◌, string_eq, String, Bool, true, false, ◌&&◌, Option, none, some, List,
  [], ◌∷◌, arith, leb, if◌then◌else◌,
}
use proxima_scheduler.Kube.{Clientset, Address, Node, Pod, Container, Requests, everything}
use proxima_scheduler.Map.{Map}
use proxima_scheduler.Map
use proxima_scheduler.Float.{Float}
use proxima_scheduler.Effect.{
  Env, M, History, Result, ok, err, no_ping_times, no_suitable_node, done, nodes_listed, ◌>>=◌,
  return, fault, list_nodes, get_average_ping_time,
}
use proxima_scheduler.Nodes.{find_node, discover_nodes, get_node_by_internal_ip}

abbrev pub or_zero : Option ℕ → ℕ
or_zero none = 0
or_zero (some q) = q

-- What a container requests of a resource; nothing if its map of requests is nil.
unfoldable pub requested : (Requests → Option ℕ) → Container → ℕ
requested field c = elim c.requests [ none ↦ 0 | some r ↦ or_zero (field r) ]

-- The loop over the containers, with the two totals.
unfoldable pub add_requests : List Container → ℕ → ℕ → ℕ × ℕ
unfolding requested
add_requests [] cpu memory = (cpu, memory)
add_requests (c ∷ cs) cpu memory =
    add_requests cs (cpu + requested (λ r. r.cpu) c) (memory + requested (λ r. r.memory) c)

unfoldable pub node_holds : Node → Pod → Bool
unfolding add_requests
node_holds node pod =
    let (cpu, memory) = add_requests pod.containers 0 0 in
    leb cpu node.cpu && leb memory node.memory

-- The first address of a node. `Addresses[0]` panics where there is none.
abbrev pub first_address : List Address → Option String
first_address [] = none
first_address (a ∷ rest) = some a.address

module _ {F : Type 0} (env : Env F) where
  unfoldable pub has_enough_capacity : Option Clientset → String → Pod → M Bool
  unfolding node_holds
  has_enough_capacity clientset ip pod = do
    r ← get_node_by_internal_ip env clientset ip
    elim r [ err e ↦ return false | ok node ↦ return (node_holds node pod) ]

  unfoldable pub select_node_based_on_capacity :
      Option Clientset → List Node → Pod → M (Option String)
  select_node_based_on_capacity clientset [] pod = return none
  select_node_based_on_capacity clientset (n ∷ ns) pod =
      let rest = select_node_based_on_capacity clientset ns pod in
      elim (first_address n.addresses) [
        | none ↦ fault
        | some ip ↦ do
          enough ← has_enough_capacity clientset ip pod
          if enough then return (some n.name) else rest
      ]

module _ {F : Type 0} ⦃fl : Float F⦄ (env : Env F) where
  -- The loop of selectNodeBasedOnLatency, with the node selected so far and its latency.
  unfoldable pub select_by_latency :
      Option Clientset → Map String F → Pod → List Node → Option String → F → M (Option String)
  select_by_latency clientset latencies pod [] selected lowest = return selected
  select_by_latency clientset latencies pod (n ∷ ns) selected lowest =
      elim (first_address n.addresses) [
        | none ↦ fault
        | some ip ↦ elim (Map.lookup ip latencies) [
          | none ↦ select_by_latency clientset latencies pod ns selected lowest
          | some latency ↦ do
            enough ← has_enough_capacity env clientset ip pod
            let better = enough && fl.lt latency lowest
            select_by_latency clientset latencies pod ns (if better then some n.name else selected)
                (if better then latency else lowest)
        ]
      ]

  unfoldable pub select_node_based_on_latency :
      Option Clientset → List Node → Pod → M (Result String)
  unfolding select_by_latency
  select_node_based_on_latency clientset nodes pod = do
    r ← get_average_ping_time env
    elim r [
      | err e ↦ return (err no_ping_times)
      | ok latencies ↦ do
        selected ← select_by_latency clientset latencies pod nodes none fl.max_float
        elim selected [ none ↦ return (err no_suitable_node) | some name ↦ return (ok name) ]
    ]

-- What `has_enough_capacity` answers, from the nodes that the cluster lists.
abbrev pub fits_node : Pod → Result Node → Bool
fits_node pod (err e) = false
fits_node pod (ok node) = node_holds node pod

abbrev pub fits : String → Pod → Result (List Node) → Bool
fits ip pod (err e) = false
fits ip pod (ok nodes) = fits_node pod (find_node ip nodes)

pub has_enough_capacity_lem :
    {F : Type 0} (env : Env F) (c : Clientset) (ip : String) (pod : Pod) (h : History)
    → has_enough_capacity env (some c) ip pod h
      ≡ done (fits ip pod (env.nodes h c everything)) (nodes_listed c everything ∷ h)
unfolding has_enough_capacity get_node_by_internal_ip discover_nodes list_nodes
has_enough_capacity_lem env c ip pod h = ground arith

-- The total of a field over the containers.
abbrev pub total : (Requests → Option ℕ) → List Container → ℕ
total field [] = 0
total field (c ∷ cs) = requested field c + total field cs

abbrev cpu_of : Requests → Option ℕ
cpu_of r = r.cpu

abbrev memory_of : Requests → Option ℕ
memory_of r = r.memory

add_requests_lem :
    (cs : List Container) (cpu memory : ℕ)
    → add_requests cs cpu memory ≡ (cpu + total cpu_of cs, memory + total memory_of cs)
unfolding add_requests
add_requests_lem [] cpu memory = ground arith
add_requests_lem (c ∷ cs) cpu memory =
    add_requests_lem cs (cpu + requested cpu_of c) (memory + requested memory_of c)
    ∙ ap₂ (λ a b. (a, b)) (omega arith) (omega arith)

-- A node holds a pod exactly when it has the processor time and the memory that the pod's containers
-- request together.
pub node_holds_iff :
    (node : Node) (pod : Pod)
    → (node_holds node pod ≡ true) ↔ (
        (total (λ r. r.cpu) pod.containers ≤ node.cpu)
        × (total (λ r. r.memory) pod.containers ≤ node.memory))
unfolding node_holds
node_holds_iff node pod = rw (add_requests_lem pod.containers 0 0) (ground arith)
