-- ===== src/Scheduler/Enforcing/Settled.antt =====
-- EnforceDesired where all that is tracked runs: it has nothing to replace.
use proxima_scheduler.Prelude.{String, true, ◌≡◌, inl, inr, refl, sym, ap, subst, List, [], ◌∷◌, In}
use proxima_scheduler.Kube.{Clientset, Pod, label_is}
use proxima_scheduler.Map.{Map}
use proxima_scheduler.Effect.{Env, History, ok, loop}
use proxima_scheduler.Effect.Posts.{
  Returns, Returns_mono, Returns_both, Returns-and_then, loop-Returns, writes, Adds, Adds-again,
}
use proxima_scheduler.Scheduler.{Scheduler, DesiredApp, DesiredPod}
use proxima_scheduler.Scheduler.Enforcing.{
  contains, enforce_name, enforce_names, enforce_cluster, enforce_app, enforce_apps,
  enforce_desired,
}
use proxima_scheduler.Scheduler.Enforcing.Noted.{IsUp}
use proxima_scheduler.Scheduler.Enforcing.Found.{Covered, IsSeen, finds-IsSeen}
use proxima_scheduler.Scheduler.Enforcing.Deleting.{IsDeletion, scan-Adds}

module _ {F : Type 0} (env : Env F) (s : Scheduler) where
  -- The pod that is tracked by the name runs in a cluster that always lists it.
  pub record IsRunning (app namespace name : String) : Type 0 where
    pub cluster : String
    pub clientset : Clientset
    pub one_of : In (cluster, clientset) s.clientsets
    pub pod : Pod
    pub named : pod.name ≡ name
    pub up : IsUp env s pod
    pub listing :
        (h : History)
        → (listed : List Pod) × (env.pods h clientset namespace (label_is "app" app) ≡ ok listed)
          × In pod listed

  abbrev pub IsSettled : String → DesiredApp → Type 0
  IsSettled app d =
      (name : String) (entry : DesiredPod)
      → In (name, entry) d.pods_by_name
      → IsRunning app d.namespace name

  IsRunning-contains :
      (app namespace name : String) (found : List String) (r : IsRunning app namespace name)
      → Covered env s app namespace r.clientset found
      → contains name found ≡ true
  IsRunning-contains app namespace name found r (asked, inl (e, refused)) =
      let (listed, answered, n) = r.listing asked in cc
  IsRunning-contains app namespace name found r (asked, inr (listed, answered, all)) =
      let (others, again, n) = r.listing asked in
      let same : others ≡ listed = cc in
      subst (λ x. contains x found ≡ true) r.named (all r.pod (subst (In r.pod) same n) r.up)

  IsSettled-contains :
      (app : String) (d : DesiredApp) (found : List String)
      → IsSettled app d
      → IsSeen env s app d.namespace found
      → (name : String) (entry : DesiredPod) → In (name, entry) d.pods_by_name
      → contains name found ≡ true
  IsSettled-contains app d found settled (all, covered) name entry n =
      let r = settled name entry n in
      IsRunning-contains app d.namespace name found r (covered r.cluster r.clientset r.one_of)

  enforce_names_found :
      (found : List String) (d : DesiredApp) (h : History)
      → ((name : String) (entry : DesiredPod)
          → In (name, entry) d.pods_by_name
          → contains name found ≡ true)
      → Returns (enforce_names env s found d h) (λ d' k. (d' ≡ d) × (k ≡ h))
  unfolding enforce_names enforce_name
  enforce_names_found found d h all =
      loop-Returns (enforce_name env s found) (λ d' k. (d' ≡ d) × (k ≡ h)) d.pods_by_name
        (λ (name, entry) n d' k i. rw (all name entry n) i) d h (refl, refl)

  enforce_app_fixed :
      (app : String) (d : DesiredApp) (h : History)
      → IsSettled app d
      → Returns
          (enforce_app env s app d h)
          (λ d' k. (d' ≡ d) × Adds (IsDeletion env s) (writes h) (writes k))
  unfolding enforce_app
  enforce_app_fixed app d h settled =
      let scan = loop (enforce_cluster env s app d.namespace) s.clientsets [] h in
      Returns-and_then scan (λ found. enforce_names env s found d) _ _
        (Returns_both scan _ _ (scan-Adds env s app d.namespace h)
          (finds-IsSeen env s app d.namespace h))
        (λ found k (adds, seen).
          Returns_mono (enforce_names env s found d k) _ _
            (enforce_names_found found d k (IsSettled-contains app d found settled seen))
            (λ d' j (same, quiet).
              (same, subst (λ x. Adds (IsDeletion env s) (writes h) (writes x)) (sym quiet) adds)))

  enforce_apps_fixed :
      (apps : Map String DesiredApp) (h : History)
      → ((app : String) (d : DesiredApp) → In (app, d) apps → IsSettled app d)
      → Returns
          (enforce_apps env s apps h)
          (λ apps' k. (apps' ≡ apps) × Adds (IsDeletion env s) (writes h) (writes k))
  unfolding enforce_apps
  enforce_apps_fixed [] h settled = (refl, ([], refl, tt))
  enforce_apps_fixed ((app, d) ∷ apps) h settled =
      Returns-and_then (enforce_app env s app d h) _
        (λ d' k. (d' ≡ d) × Adds (IsDeletion env s) (writes h) (writes k)) _
        (enforce_app_fixed app d h (settled app d (inl refl)))
        (λ d' k (same, adds).
          Returns-and_then (enforce_apps env s apps k) _
            (λ apps' j. (apps' ≡ apps) × Adds (IsDeletion env s) (writes k) (writes j)) _
            (enforce_apps_fixed apps k (λ a e n. settled a e (inr n)))
            (λ apps' j (others, more). (
              rw (same, others) refl,
              Adds-again (IsDeletion env s) (writes h) (writes k) (writes j) adds more,
            )))

  -- Where each tracked name of each desired application is that of a pod of the scheduler's that runs
  -- in a known cluster, not deleted yet, and that this cluster always lists for the application,
  -- EnforceDesired leaves the scheduler as it is and creates no replica, whatever the other clusters
  -- list or refuse: all that it asks of clusters is the deletion of pods that have failed or are
  -- stuck.
  pub enforce_desired_fixed :
      (h : History)
      → ((app : String) (d : DesiredApp) → In (app, d) s.desired_apps → IsSettled app d)
      → Returns
          (enforce_desired env s h)
          (λ s' k. (s' ≡ s) × Adds (IsDeletion env s) (writes h) (writes k))
  unfolding enforce_desired
  enforce_desired_fixed h settled =
      Returns-and_then (enforce_apps env s s.desired_apps h) _
        (λ apps k. (apps ≡ s.desired_apps) × Adds (IsDeletion env s) (writes h) (writes k)) _
        (enforce_apps_fixed s.desired_apps h settled)
        (λ apps k (same, adds). (ap (λ a. record s { desired_apps = a }) same, adds))
