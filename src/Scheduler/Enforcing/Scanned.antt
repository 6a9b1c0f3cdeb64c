-- ===== src/Scheduler/Enforcing/Scanned.antt =====
-- EnforceDesired as a whole: what it asks of the clusters, and what it leaves tracked.
use proxima_scheduler.Prelude.{String, ◌≡◌, ◌⊎◌, inl, inr, refl, some, List, [], ◌∷◌, string_eq, In}
use proxima_scheduler.Kube.{Clientset}
use proxima_scheduler.Map.{Map}
use proxima_scheduler.Effect.{Env, History, Call, loop}
use proxima_scheduler.Effect.Posts.{
  Returns, Returns_mono, Returns_both, Returns-and_then, writes, Adds, Adds-again, Adds-weaken,
}
use proxima_scheduler.Scheduler.{Scheduler, DesiredApp}
use proxima_scheduler.Scheduler.Hashing.{IsHexadecimal}
use proxima_scheduler.Scheduler.Placing.{local_client}
use proxima_scheduler.Scheduler.Enforcing.{
  enforce_cluster, enforce_names, enforce_app, enforce_apps, enforce_desired,
}
use proxima_scheduler.Scheduler.Enforcing.Found.{IsSeen, finds-IsSeen}
use proxima_scheduler.Scheduler.Enforcing.Deleting.{IsDeletion, scan-Adds}
use proxima_scheduler.Scheduler.Enforcing.Replaced.{IsReplica, IsEnforced, enforce_names-IsEnforced}

module _ {F : Type 0} (env : Env F) (s : Scheduler) where
  module _ (local : Clientset) (has_local : local_client s ≡ some local)
      (hex : IsHexadecimal env) where
    -- What is asked of a cluster: such a deletion, or the creation of a desired application's replica.
    abbrev pub IsAllowed : Call → Type 0
    IsAllowed call =
        IsDeletion env s call
        ⊎ ((app : String) × (d : DesiredApp) × In (app, d) s.desired_apps
            × IsReplica s local d.namespace d.template call)

    -- An application before and after, by the names of its pods that were found.
    abbrev IsFrom : String → DesiredApp → DesiredApp → Type 0
    IsFrom app d d' =
        (found : List String) × IsSeen env s app d.namespace found
        × IsEnforced env s local has_local hex found d d'

    -- The same applications before and after, in the same order.
    abbrev pub AllFrom : Map String DesiredApp → Map String DesiredApp → Type 0
    AllFrom [] [] = Unit {0}
    AllFrom [] (e ∷ after) = ⊥
    AllFrom (e ∷ before) [] = ⊥
    AllFrom ((app, d) ∷ before) ((app', d') ∷ after) =
        (app' ≡ app) × IsFrom app d d' × AllFrom before after

    enforce_app-IsFrom :
        (app : String) (d : DesiredApp) (h : History)
        → In (app, d) s.desired_apps
        → Returns
            (enforce_app env s app d h)
            (λ d' k. IsFrom app d d' × Adds IsAllowed (writes h) (writes k))
    unfolding enforce_app
    enforce_app-IsFrom app d h m =
        Returns-and_then (loop (enforce_cluster env s app d.namespace) s.clientsets [] h)
          (λ found. enforce_names env s found d)
          (λ f k. Adds (IsDeletion env s) (writes h) (writes k) × IsSeen env s app d.namespace f) _
          (Returns_both (loop (enforce_cluster env s app d.namespace) s.clientsets [] h) _ _
            (scan-Adds env s app d.namespace h) (finds-IsSeen env s app d.namespace h))
          (λ found k (adds, seen).
            Returns_mono (enforce_names env s found d k) _ _
              (enforce_names-IsEnforced env s local has_local hex found d k)
              (λ d' j (enforced, (calls, e, replicas, size)). (
                (found, seen, enforced),
                Adds-again IsAllowed (writes h) (writes k) (writes j)
                    (Adds-weaken (IsDeletion env s) IsAllowed (writes h) (writes k) (λ x p. inl p)
                      adds)
                    (Adds-weaken (IsReplica s local d.namespace d.template) IsAllowed (writes k)
                      (writes j) (λ x p. inr (app, d, m, p)) (calls, e, replicas)),
              )))

    enforce_apps-IsFrom :
        (apps : Map String DesiredApp) (h : History)
        → ((app : String) (d : DesiredApp) → In (app, d) apps → In (app, d) s.desired_apps)
        → Returns
            (enforce_apps env s apps h)
            (λ apps' k. AllFrom apps apps' × Adds IsAllowed (writes h) (writes k))
    unfolding enforce_apps
    enforce_apps-IsFrom [] h sub = (tt, ([], refl, tt))
    enforce_apps-IsFrom ((app, d) ∷ apps) h sub =
        Returns-and_then (enforce_app env s app d h) _
          (λ d' k. IsFrom app d d' × Adds IsAllowed (writes h) (writes k)) _
          (enforce_app-IsFrom app d h (sub app d (inl refl)))
          (λ d' k (from, adds).
            Returns-and_then (enforce_apps env s apps k) _
              (λ apps' j. AllFrom apps apps' × Adds IsAllowed (writes k) (writes j)) _
              (enforce_apps-IsFrom apps k (λ a e n. sub a e (inr n)))
              (λ apps' j (others, more). (
                (refl, from, others),
                Adds-again IsAllowed (writes h) (writes k) (writes j) adds more,
              )))

    -- EnforceDesired never panics. All that it asks of clusters is to delete pods of the scheduler's
    -- that a cluster listed for an application, not deleted yet, and failed or, by the clock just
    -- before, pending for more than a minute, and to create replicas of desired applications in the
    -- local cluster. The same applications are desired afterwards, and each one tracks exactly the
    -- names that were found of those that it tracked. Found are only names of the scheduler's pods
    -- that a cluster listed for the application, not deleted yet, and running or, by the clock,
    -- pending for a minute at most, and, of each cluster that answers, the names of all that run. The
    -- local cluster is known, and digests are hexadecimal.
    pub enforce_desired-IsFrom :
        (h : History)
        → Returns
            (enforce_desired env s h)
            (λ s' k. AllFrom s.desired_apps s'.desired_apps × Adds IsAllowed (writes h) (writes k))
    unfolding enforce_desired
    enforce_desired-IsFrom h =
        Returns-and_then (enforce_apps env s s.desired_apps h) _
          (λ apps k. AllFrom s.desired_apps apps × Adds IsAllowed (writes h) (writes k)) _
          (enforce_apps-IsFrom s.desired_apps h (λ app d n. n)) (λ apps k v. v)
