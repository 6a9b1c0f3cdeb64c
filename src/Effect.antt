-- ===== src/Effect.antt =====
-- The program's dealings with what it does not implement: Kubernetes' API servers, the database,
-- the clock, the random source and the hash of a time. `Env` answers each call from the calls made
-- before it, so an arbitrary `Env` answers the same question differently at different times. A
-- computation `M A` extends the history of calls and may end in a panic.
pub mod Posts
pub mod Ends
use proxima_scheduler.Prelude.{
  String, Bool, ◌≡◌, refl, ◌⊎◌, inl, inr, Option, none, some, List, [], ◌∷◌,
}
use proxima_scheduler.Prelude.Int.{ℤ}
use proxima_scheduler.Map.{Map}
use proxima_scheduler.Kube.{Clientset, Node, Pod, Selector, Service}

-- Go's `error` values, by the place that makes them.
pub data Error : Type 0 where
  api_error database_error : Error
  discover_failed node_not_found no_internal_ip no_external_ip : Error
  invalid_limit no_suitable_node no_near_optimal_node : Error
  scores_failed no_ping_times : Error
  not_node_port no_node_port no_edge_node service_failed : Error
  no_pods no_targets no_candidates : Error
  no_edge_proxies parse_failed no_score_found no_latency_found : Error
  home_not_found config_failed client_failed : Error
  certificate_unreadable certificate_refused : Error

pub data Result {ℓ} (A : Type ℓ) : Type ℓ where
  ok : A → Result A
  err : Error → Result A

pub Result-cases {ℓ} :
    {A : Type ℓ} (r : Result A) → ((e : Error) × (r ≡ err e)) ⊎ ((a : A) × (r ≡ ok a))
Result-cases (ok a) = inr (a, refl)
Result-cases (err e) = inl (e, refl)

-- A call, newest first in a history. Those that change a cluster carry their answer: whether the
-- API server accepted them.
pub data Call : Type 0 where
  nodes_listed : Clientset → Selector → Call
  node_read : Clientset → String → Call
  pods_listed : Clientset → String → Selector → Call
  service_read : Clientset → String → String → Call
  pod_created : Clientset → String → Pod → Bool → Call
  pod_deleted : Clientset → String → String → Bool → Call
  pod_bound : Clientset → String → String → String → String → Bool → Call
  database_read clock_read random_read digest_read : Call

abbrev pub History : Type 0
History = List Call

pub record Env (F : Type 0) : Type 0 where
  pub nodes : History → Clientset → Selector → Result (List Node)
  pub node : History → Clientset → String → Result Node
  pub pods : History → Clientset → String → Selector → Result (List Pod)
  pub service : History → Clientset → String → String → Result Service
  pub accepts_create : History → Clientset → String → Pod → Bool
  pub accepts_delete : History → Clientset → String → String → Bool
  pub accepts_bind : History → Clientset → String → String → String → String → Bool
  -- `Database`
  pub node_score : History → String → Result F
  pub latencies_for_edge : History → String → Result (Map String F)
  pub average_ping_time : History → Result (Map String F)
  -- `time.Now`, `rand.Float64`, and the SHA-1 of a name and the time in hexadecimal
  pub now : History → ℤ
  pub random : History → F
  pub digest : History → String → String

pub data Outcome {ℓ} (A : Type ℓ) : Type ℓ where
  done : A → History → Outcome A
  panic : History → Outcome A

abbrev pub M {ℓ} : Type ℓ → Type ℓ
M A = History → Outcome A

abbrev pub and_then {ℓ κ} :
    {A : Type ℓ} {B : Type κ} → Outcome A → (A → History → Outcome B) → Outcome B
and_then (done a h) f = f a h
and_then (panic h) f = panic h

infixl 5 ◌>>=◌
abbrev pub ◌>>=◌ {ℓ κ} : {A : Type ℓ} {B : Type κ} → M A → (A → M B) → M B
◌>>=◌ m f h = and_then (m h) f

abbrev pub return {ℓ} : {A : Type ℓ} → A → M A
return a h = done a h

-- A nil pointer dereference, or an index out of range.
abbrev pub fault {ℓ} : {A : Type ℓ} → M A
fault h = panic h

-- A loop over a slice or a map, in its order, with the variables that it changes.
unfoldable pub loop {ℓ κ} : {A : Type ℓ} {S : Type κ} → (A → S → M S) → List A → S → M S
loop body [] s = return s
loop body (x ∷ xs) s = λ h. and_then (body x s h) (loop body xs)

module _ {F : Type 0} (env : Env F) where
  -- A method of a nil clientset panics.
  unfoldable pub list_nodes : Option Clientset → Selector → M (Result (List Node))
  list_nodes none sel h = panic h
  list_nodes (some c) sel h = done (env.nodes h c sel) (nodes_listed c sel ∷ h)

  unfoldable pub get_node : Option Clientset → String → M (Result Node)
  get_node none name h = panic h
  get_node (some c) name h = done (env.node h c name) (node_read c name ∷ h)

  unfoldable pub list_pods : Option Clientset → String → Selector → M (Result (List Pod))
  list_pods none ns sel h = panic h
  list_pods (some c) ns sel h = done (env.pods h c ns sel) (pods_listed c ns sel ∷ h)

  unfoldable pub get_service : Option Clientset → String → String → M (Result Service)
  get_service none ns name h = panic h
  get_service (some c) ns name h = done (env.service h c ns name) (service_read c ns name ∷ h)

  -- The calls that change a cluster answer whether they were accepted.
  unfoldable pub create_pod : Option Clientset → String → Pod → M Bool
  create_pod none ns pod h = panic h
  create_pod (some c) ns pod h =
      let b = env.accepts_create h c ns pod in done b (pod_created c ns pod b ∷ h)

  unfoldable pub delete_pod : Option Clientset → String → String → M Bool
  delete_pod none ns name h = panic h
  delete_pod (some c) ns name h =
      let b = env.accepts_delete h c ns name in done b (pod_deleted c ns name b ∷ h)

  unfoldable pub bind_pod : Option Clientset → String → String → String → String → M Bool
  bind_pod none ns name uid target h = panic h
  bind_pod (some c) ns name uid target h =
      let b = env.accepts_bind h c ns name uid target in
      done b (pod_bound c ns name uid target b ∷ h)

  unfoldable pub get_node_score : String → M (Result F)
  get_node_score ip h = done (env.node_score h ip) (database_read ∷ h)

  unfoldable pub get_average_latencies_for_edge : String → M (Result (Map String F))
  get_average_latencies_for_edge edge h = done (env.latencies_for_edge h edge) (database_read ∷ h)

  unfoldable pub get_average_ping_time : M (Result (Map String F))
  get_average_ping_time h = done (env.average_ping_time h) (database_read ∷ h)

  unfoldable pub now : M ℤ
  now h = done (env.now h) (clock_read ∷ h)

  unfoldable pub random : M F
  random h = done (env.random h) (random_read ∷ h)

  unfoldable pub digest : String → M String
  digest name h = done (env.digest h name) (digest_read ∷ h)
