-- ===== src/Scheduler/Enforcing/Noted.antt =====
-- What EnforceDesired makes of one pod that a cluster lists.
use proxima_scheduler.Prelude.{
  String, true, false, ◌≡◌, ◌⊎◌, inl, inr, refl, List, ◌∷◌, ◌==◌, string_eq, Bool-cases, arith,
  beq_refl,
}
use proxima_scheduler.Prelude.Int.{ltb_ℤ, sub_time}
use proxima_scheduler.Kube.{Clientset, Pod, Phase, running, pending, succeeded, failed, unknown}
use proxima_scheduler.Effect.{Env, History, delete_pod, now}
use proxima_scheduler.Effect.Posts.{Returns}
use proxima_scheduler.Scheduler.{Scheduler}
use proxima_scheduler.Scheduler.Enforcing.{
  contains, pending_limit, enforce_pending, enforce_phase, enforce_pod,
}

module _ {F : Type 0} (env : Env F) (s : Scheduler) where
  -- A pod of the scheduler's that is not being deleted and runs.
  abbrev pub IsUp : Pod → Type 0
  IsUp pod =
      (pod.deleting ≡ false)
      × ((pod.scheduler_name == s.scheduler_name) ≡ true)
      × (pod.phase ≡ running)

  -- Such a pod, or one that has been pending for a minute at most.
  abbrev pub IsHealthy : Pod → Type 0
  IsHealthy pod =
      (pod.deleting ≡ false)
      × ((pod.scheduler_name == s.scheduler_name) ≡ true)
      × ((pod.phase ≡ running)
          ⊎ ((pod.phase ≡ pending)
              × ((at : History) × (ltb_ℤ pending_limit (sub_time (env.now at) pod.creation)
                    ≡ false))))

  -- The pod's name is put to those found, or it does not run.
  abbrev pub Noted : Pod → List String → List String → Type 0
  Noted pod found f = ((f ≡ found) × (IsUp pod → ⊥)) ⊎ ((f ≡ pod.name ∷ found) × IsHealthy pod)

  enforce_phase-Noted :
      (c : Clientset) (pod : Pod) (phase : Phase) (found : List String) (h : History)
      → pod.deleting ≡ false
      → (pod.scheduler_name == s.scheduler_name) ≡ true
      → pod.phase ≡ phase
      → Returns (enforce_phase env c pod phase found h) (λ f k. Noted pod found f)
  unfolding enforce_phase enforce_pending now delete_pod
  enforce_phase-Noted c pod running found h kept ours is = inr (refl, (kept, ours, inl is))
  enforce_phase-Noted c pod succeeded found h kept ours is = inl (refl, λ up. cc)
  enforce_phase-Noted c pod unknown found h kept ours is = inl (refl, λ up. cc)
  enforce_phase-Noted c pod failed found h kept ours is = inl (refl, λ up. cc)
  enforce_phase-Noted c pod pending found h kept ours is =
      elim (Bool-cases (ltb_ℤ pending_limit (sub_time (env.now h) pod.creation))) [
        | inl late ↦ rw late (inl (refl, λ up. cc))
        | inr early ↦ rw early (inr (refl, (kept, ours, inr (is, (h, early)))))
      ]

  enforce_pod_cases :
      (c : Clientset) (pod : Pod) (found : List String) (h : History)
      (P : List String → History → Type 0)
      → ((IsUp pod → ⊥) → P found h)
      → (pod.deleting ≡ false
          → (pod.scheduler_name == s.scheduler_name) ≡ true
          → Returns (enforce_phase env c pod pod.phase found h) P)
      → Returns (enforce_pod env s c pod found h) P
  unfolding enforce_pod enforce_phase enforce_pending
  enforce_pod_cases c pod found h P skipped phase = elim (Bool-cases pod.deleting) [
    | inl going ↦ rw going (skipped (λ up. cc))
    | inr kept ↦ elim (Bool-cases (pod.scheduler_name == s.scheduler_name)) [
      | inl ours ↦ rw (kept, ours) (phase kept ours)
      | inr other ↦ rw (kept, other) (skipped (λ up. cc))
    ]
  ]

  pub enforce_pod-Noted :
      (c : Clientset) (pod : Pod) (found : List String) (h : History)
      → Returns (enforce_pod env s c pod found h) (λ f k. Noted pod found f)
  enforce_pod-Noted c pod found h =
      enforce_pod_cases c pod found h (λ f k. Noted pod found f) (λ down. inl (refl, down))
        (λ kept ours. enforce_phase-Noted c pod pod.phase found h kept ours refl)

  pub Noted-grows :
      (pod : Pod) (found f : List String) (name : String)
      → Noted pod found f
      → contains name found ≡ true
      → contains name f ≡ true
  unfolding contains
  Noted-grows pod found f name (inl (same, down)) there = cc
  Noted-grows pod found f name (inr (added, up)) there = rw added (ground arith)

  pub Noted-up :
      (pod : Pod) (found f : List String)
      → Noted pod found f
      → IsUp pod
      → contains pod.name f ≡ true
  unfolding contains
  Noted-up pod found f (inl (same, down)) up = absurd (down up)
  Noted-up pod found f (inr (added, healthy)) up = rw (added, beq_refl pod.name) refl
