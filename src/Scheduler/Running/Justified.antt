-- ===== src/Scheduler/Running/Justified.antt =====
-- The reasons that the scheduler has to ask for the deletion of a pod.
use proxima_scheduler.Prelude.{
  ℕ, String, Bool, true, false, ◌≡◌, inl, inr, sym, ap, ◌∙◌, subst, some, List, [], ◌∷◌, ◌++◌, ◌==◌,
  string_eq, In, All,
}
use proxima_scheduler.Prelude.Int.{pos_part}
use proxima_scheduler.Strconv.{parse_int}
use proxima_scheduler.Kube.{Clientset, Pod}
use proxima_scheduler.Map.{Map}
use proxima_scheduler.Map
use proxima_scheduler.Float.{Float}
use proxima_scheduler.Effect.{Env, History, Call, pod_created, pod_deleted, pod_bound}
use proxima_scheduler.Effect.Posts.{writes}
use proxima_scheduler.Scheduler.{Scheduler}
use proxima_scheduler.Scheduler.Hashing.{strip_hash, IsHexadecimal}
use proxima_scheduler.Scheduler.Placing.{renamed, local_client}
use proxima_scheduler.Scheduler.Placing.Schedule.{IsMoved, IsPlaced}
use proxima_scheduler.Scheduler.Rescheduling.Moves.{Moves, stay, refuse, move}
use proxima_scheduler.Scheduler.Enforcing.Deleting.{IsDeletion}
use proxima_scheduler.Scheduler.Enforcing.Scanned.{IsAllowed}
use proxima_scheduler.Scheduler.Intake.{atoi, replicas_key}
use proxima_scheduler.Scheduler.Intake.Registered.{AllIndexed, IsCreated}

module _ {F : Type 0} (env : Env F) (s : Scheduler) where
  -- The calls that change a cluster, newest first. A pod's deletion is asked for right after a copy
  -- of it under a new name of the same stem was accepted in a known cluster, or as one of the
  -- scheduler's that is stuck, or at the end of the registration of its application.
  pub data Justified : History → Type 0 where
    nothing : Justified []
    created :
        (h : History) (c : Clientset) (namespace : String) (pod : Pod) (accepted : Bool)
        → Justified h
        → Justified (pod_created c namespace pod accepted ∷ h)
    bound :
        (h : History) (c : Clientset) (namespace name uid node : String) (accepted : Bool)
        → Justified h
        → Justified (pod_bound c namespace name uid node accepted ∷ h)
    moved :
        (h : History) (cluster new_name on_node : String) (c current : Clientset) (pod copy : Pod)
        (accepted : Bool)
        → Map.lookup cluster s.clientsets ≡ some c
        → copy ≡ renamed pod new_name on_node
        → strip_hash new_name ≡ strip_hash pod.name
        → Justified h
        → Justified (
            pod_deleted current pod.namespace pod.name accepted
            ∷ pod_created c pod.namespace copy true
            ∷ h)
    cleared :
        (h : History) (call : Call) → IsDeletion env s call → Justified h → Justified (call ∷ h)
    replicated :
        (h before : History) (local : Clientset) (pod : Pod) (text : String) (accepted : Bool)
        → local_client s ≡ some local
        → (pod.scheduler_name == s.scheduler_name) ≡ true
        → Map.lookup replicas_key pod.annotations ≡ some text
        → IsCreated local pod 0 (pos_part (atoi (parse_int text))) h before
        → Justified h
        → Justified (pod_deleted local pod.namespace pod.name accepted ∷ before)

  -- A later state: it knows the same clusters, under the same name.
  abbrev pub IsLater : Scheduler → Type 0
  IsLater t = (t.clientsets ≡ s.clientsets) × (t.scheduler_name ≡ s.scheduler_name)

  abbrev pub IsRunning : Scheduler → History → Type 0
  IsRunning t k = IsLater t × Justified (writes k)

  pub Moves-Justified :
      (t : Scheduler) (before after : History)
      → IsLater t
      → Moves t before after
      → Justified before
      → Justified after
  Moves-Justified t before _ later (stay _) j = j
  Moves-Justified t before _ later (refuse _ after pod copy cluster from c current moves r) j =
      created after c pod.namespace copy false (Moves-Justified t before after later moves j)
  Moves-Justified t before _ later (move _ after pod copy cluster from c current deleted moves r m)
        j =
      moved after cluster r.new_name r.on_node c current pod copy deleted
        (ap (Map.lookup cluster) (sym later.0) ∙ r.known) r.same r.stem
        (Moves-Justified t before after later moves j)

  IsDeletion-later :
      (t : Scheduler) (call : Call) → IsLater t → IsDeletion env t call → IsDeletion env s call
  IsDeletion-later t call (same, named) d = record {
    cluster = d.cluster;
    clientset = d.clientset;
    one_of = subst (In (d.cluster, d.clientset)) same d.one_of;
    app = d.app;
    namespace = d.namespace;
    asked = d.asked;
    listed = d.listed;
    answered = d.answered;
    pod = d.pod;
    pod_listed = d.pod_listed;
    at = d.at;
    stuck = (d.stuck.0, subst (λ n. (d.pod.scheduler_name == n) ≡ true) named d.stuck.1, d.stuck.2);
    call_is = d.call_is;
  }

  created-Justified :
      (local : Clientset) (pod : Pod) (first : ℕ) (calls : List Call) (h : History)
      → AllIndexed local pod first calls
      → Justified h
      → Justified (calls ++ h)
  created-Justified local pod first [] h all j = j
  created-Justified local pod first (call ∷ calls) h ((name, b, stem, e), all) j =
      subst (λ x. Justified (x ∷ calls ++ h)) (sym e)
        (created (calls ++ h) local pod.namespace _ b
          (created-Justified local pod first calls h all j))

  pub allowed-Justified :
      (t : Scheduler) (local : Clientset) (has_local : local_client t ≡ some local)
      (hex : IsHexadecimal env) (calls : List Call) (h : History)
      → IsLater t
      → All (IsAllowed env t local has_local hex) calls
      → Justified h
      → Justified (calls ++ h)
  allowed-Justified t local has_local hex [] h later all j = j
  allowed-Justified t local has_local hex (call ∷ calls) h later (allowed, all) j =
      let rest = allowed-Justified t local has_local hex calls h later all j in
      elim allowed [
        | inl deletion ↦ cleared (calls ++ h) call (IsDeletion-later t call later deletion) rest
        | inr (app, d, m, (name, b, stem, e)) ↦
            subst (λ x. Justified (x ∷ calls ++ h)) (sym e)
              (created (calls ++ h) local d.namespace _ b rest)
      ]

  pub moved-Justified :
      ⦃fl : Float F⦄ (t : Scheduler) (pod : Pod) (local : Clientset) (cluster : String) (copy : Pod)
      (before : History) (k : History)
      → IsLater t
      → IsMoved env t pod local cluster copy before k
      → Justified before
      → Justified (writes k)
  moved-Justified t pod local cluster copy before k later (c, deleted, i, on, e) j =
      subst Justified (sym e) (
        moved before cluster i.new_name i.on_node c local pod copy deleted
          (ap (Map.lookup cluster) (sym later.0) ∙ i.known) i.same i.stem j)

  -- What placing a pod leaves.
  pub IsPlaced-IsRunning :
      ⦃fl : Float F⦄ (t t' : Scheduler) (pod : Pod) (local : Clientset) (before k : History)
      → IsLater t
      → IsPlaced env t pod local before t' k
      → Justified before
      → IsRunning t' k
  IsPlaced-IsRunning t t' pod local before k later placed j = elim placed [
    | inl (e, w) ↦ (subst IsLater (sym e) later, subst Justified (sym w) j)
    | inr (inl (e, (node, b, on, w))) ↦ (
      subst IsLater (sym e) later,
      subst Justified (sym w) (bound before local pod.namespace pod.name pod.uid node b j),
    )
    | inr (inr (inl (e, (cluster, c, copy, i, on, w)))) ↦ (
      subst IsLater (sym e) later,
      subst Justified (sym w) (created before c pod.namespace copy false j),
    )
    | inr (inr (inr (cluster, copy, d, found, i, e))) ↦
        (subst IsLater (sym e) later, moved-Justified t pod local cluster copy before k later i j)
  ]
