-- ===== src/Scheduler/Intake/Registered.antt =====
-- The registration of an application: the replicas that are created, and the end of its pod.
use proxima_scheduler.Prelude.{
  ℕ, zero, suc, ◌+◌, ◌≡◌, refl, sym, ap, subst, ◌∙◌, String, Bool, some, List, [], ◌∷◌, ◌++◌, arith,
  length, length-append,
}
use proxima_scheduler.Prelude.Int.{ℤ, pos_part}
use proxima_scheduler.Kube.{Clientset, Pod}
use proxima_scheduler.Effect.{Env, History, Call, create_pod, delete_pod, pod_created, pod_deleted}
use proxima_scheduler.Effect.Posts.{Returns, Returns_mono, Returns-and_then, writes, append_assoc}
use proxima_scheduler.Scheduler.{Scheduler}
use proxima_scheduler.Scheduler.Hashing.{
  strip_hash, with_new_hashed_name, IsHexadecimal, strip_hash-with_new_hashed_name,
}
use proxima_scheduler.Scheduler.Placing.{local_client}
use proxima_scheduler.Scheduler.Enforcing.{replica}
use proxima_scheduler.Scheduler.Intake.{indexed_name, registered, create_replicas, register}

module _ (local : Clientset) (pod : Pod) where
  -- The creation of the replica of the pod with an index.
  abbrev pub IsIndexed : ℕ → Call → Type 0
  IsIndexed i call =
      (name : String) × (accepted : Bool) × (strip_hash name ≡ strip_hash (indexed_name pod i))
      × (call ≡ pod_created local pod.namespace (replica pod name) accepted)

  -- The creations, newest first, with the indices from the first one on.
  abbrev pub AllIndexed : ℕ → List Call → Type 0
  AllIndexed first [] = Unit {0}
  AllIndexed first (call ∷ calls) = IsIndexed (first + length calls) call × AllIndexed first calls

  abbrev pub IsCreated : ℕ → ℕ → History → History → Type 0
  IsCreated first n before after =
      (calls : List Call) × (after ≡ calls ++ before) × AllIndexed first calls × (length calls ≡ n)

  oldest-AllIndexed :
      (first : ℕ) (call : Call) (calls : List Call)
      → AllIndexed (first + 1) calls
      → IsIndexed first call
      → AllIndexed first (calls ++ call ∷ [])
  oldest-AllIndexed first call [] all is = (subst (λ i. IsIndexed i call) (omega arith) is, tt)
  oldest-AllIndexed first call (c ∷ cs) (this, all) is = (
    subst (λ i. IsIndexed i c) (omega (arith, length-append cs (call ∷ []))) this,
    oldest-AllIndexed first call cs all is,
  )

  module _ {F : Type 0} (env : Env F) (hex : IsHexadecimal env) where
    create_replicas-IsCreated :
        (s : Scheduler) (first n : ℕ) (h : History)
        → local_client s ≡ some local
        → Returns
            (create_replicas env s pod first n h)
            (λ u k. IsCreated first n (writes h) (writes k))
    unfolding create_replicas create_pod writes
    create_replicas-IsCreated s first zero h has_local = ([], refl, tt, refl)
    create_replicas-IsCreated s first (suc n) h has_local =
        Returns-and_then (with_new_hashed_name env (indexed_name pod first) h) _
          (λ name k.
            (writes k ≡ writes h) × (strip_hash name ≡ strip_hash (indexed_name pod first)))
          (λ u k. IsCreated first (suc n) (writes h) (writes k))
          (strip_hash-with_new_hashed_name env (indexed_name pod first) h hex)
          (λ name k (quiet, stem).
            let b = env.accepts_create k local pod.namespace (replica pod name) in
            let call = pod_created local pod.namespace (replica pod name) b in
            rw has_local (
              Returns_mono (create_replicas env s pod (first + 1) n (call ∷ k))
                (λ u j. IsCreated (first + 1) n (call ∷ writes k) (writes j)) _
                (create_replicas-IsCreated s (first + 1) n (call ∷ k) has_local)
                (λ u j (calls, e, all, size). (
                  calls ++ call ∷ [],
                  e
                      ∙ ap (λ w. calls ++ call ∷ w) quiet
                      ∙ sym (append_assoc calls (call ∷ []) (writes h)),
                  oldest-AllIndexed first call calls all (name, b, stem, refl),
                  length-append calls (call ∷ []) ∙ omega (arith, size),
                ))))

    -- The registration of an application never panics, and ends with the application desired, with no
    -- tracked pods. It asks the local cluster for as many replicas of the pod as are wanted, none for
    -- a number below 1, with the indices from 0 on, in this order, in their names' stems, and then, whether or not
    -- they were accepted, for the deletion of the pod. The local cluster is known, and digests are
    -- hexadecimal.
    pub register-IsCreated :
        (s : Scheduler) (replicas : ℤ) (h : History)
        → local_client s ≡ some local
        → Returns (register env s pod replicas h) (λ s' k.
          (s' ≡ registered s pod replicas)
          × ((before : History) × (deleted : Bool) × (writes k
                ≡ pod_deleted local pod.namespace pod.name deleted ∷ before)
              × IsCreated 0 (pos_part replicas) (writes h) before))
    unfolding register delete_pod writes
    register-IsCreated s replicas h has_local =
        Returns-and_then
          (create_replicas env (registered s pod replicas) pod 0 (pos_part replicas) h) _
          (λ u k. IsCreated 0 (pos_part replicas) (writes h) (writes k)) _
          (create_replicas-IsCreated (registered s pod replicas) 0 (pos_part replicas) h has_local)
          (λ u k created. rw has_local (refl, (writes k, _, refl, created)))
