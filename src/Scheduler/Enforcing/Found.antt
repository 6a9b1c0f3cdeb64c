-- ===== src/Scheduler/Enforcing/Found.antt =====
-- The names that EnforceDesired finds for an application: those of the pods that clusters list.
use proxima_scheduler.Prelude.{
  String, true, ◌≡◌, ◌⊎◌, inl, inr, refl, sym, subst, List, [], ◌∷◌, string_eq, In, All,
}
use proxima_scheduler.Kube.{Clientset, Pod, label_is}
use proxima_scheduler.Effect.{
  Env, History, Result-cases, Error, err, ok, loop, list_pods, pods_listed,
}
use proxima_scheduler.Effect.Posts.{
  Returns, Returns_mono, Returns_both, Returns_all, loop-Returns, loop_reaches,
}
use proxima_scheduler.Scheduler.{Scheduler}
use proxima_scheduler.Scheduler.Enforcing.{contains, enforce_pod, enforce_cluster}
use proxima_scheduler.Scheduler.Enforcing.Noted.{
  IsUp, IsHealthy, Noted, enforce_pod-Noted, Noted-grows, Noted-up,
}

module _ {F : Type 0} (env : Env F) (s : Scheduler) where
  module _ (app namespace : String) where
    -- A cluster has listed a healthy pod of the name for the application.
    pub record Sighting (name : String) : Type 0 where
      pub cluster : String
      pub clientset : Clientset
      pub one_of : In (cluster, clientset) s.clientsets
      pub asked : History
      pub listed : List Pod
      pub answered : env.pods asked clientset namespace (label_is "app" app) ≡ ok listed
      pub pod : Pod
      pub pod_listed : In pod listed
      pub healthy : IsHealthy env s pod
      pub named : pod.name ≡ name

    -- The cluster refused to list its pods, or the names of all that run are found.
    abbrev pub Covered : Clientset → List String → Type 0
    Covered c found =
        (asked : History) × (((e : Error) × (env.pods asked c namespace (label_is "app" app)
              ≡ err e))
          ⊎ ((listed : List Pod) × (env.pods asked c namespace (label_is "app" app) ≡ ok listed)
              × ((pod : Pod) → In pod listed → IsUp env s pod → contains pod.name found ≡ true)))

    -- What is found: names of healthy pods only, and in each cluster that answers all that run.
    abbrev pub IsSeen : List String → Type 0
    IsSeen found =
        All Sighting found
        × ((cluster : String) (c : Clientset) → In (cluster, c) s.clientsets → Covered c found)

    module _ (cluster : String) (c : Clientset) (m : In (cluster, c) s.clientsets) (asked : History)
        (listed : List Pod)
        (answered : env.pods asked c namespace (label_is "app" app) ≡ ok listed) where
      Noted-Sighting :
          (pod : Pod) (found f : List String)
          → In pod listed
          → All Sighting found
          → Noted env s pod found f
          → All Sighting f
      Noted-Sighting pod found f n all (inl (same, down)) = subst (All Sighting) (sym same) all
      Noted-Sighting pod found f n all (inr (added, up)) = subst (All Sighting) (sym added) (
        record {
          cluster = cluster;
          clientset = c;
          one_of = m;
          asked = asked;
          listed = listed;
          answered = answered;
          pod = pod;
          pod_listed = n;
          healthy = up;
          named = refl;
        },
        all,
      )

      pods-Sighting :
          (found : List String) (h : History)
          → All Sighting found
          → Returns (loop (enforce_pod env s c) listed found h) (λ f k. All Sighting f)
      pods-Sighting found h all =
          loop-Returns (enforce_pod env s c) (λ f k. All Sighting f) listed
            (λ pod n f k i.
              Returns_mono (enforce_pod env s c pod f k) _ _ (enforce_pod-Noted env s c pod f k)
                (λ g j noted. Noted-Sighting pod f g n i noted))
            found h all

    pods_return :
        (c : Clientset) (listed : List Pod) (found : List String) (h : History)
        → Returns (loop (enforce_pod env s c) listed found h) (λ f k. Unit {0})
    pods_return c listed found h =
        loop-Returns (enforce_pod env s c) (λ f k. Unit {0}) listed
          (λ p q f k i.
            Returns_mono (enforce_pod env s c p f k) _ _ (enforce_pod-Noted env s c p f k)
              (λ g j noted. tt))
          found h tt

    pods-up :
        (c : Clientset) (listed : List Pod) (pod : Pod) (found : List String) (h : History)
        → In pod listed
        → IsUp env s pod
        → Returns (loop (enforce_pod env s c) listed found h) (λ f k. contains pod.name f ≡ true)
    pods-up c listed pod found h n up =
        loop_reaches (enforce_pod env s c) (λ f k. Unit {0}) (λ f k. contains pod.name f ≡ true)
          listed pod n
          (λ p q f k i.
            Returns_mono (enforce_pod env s c p f k) _ _ (enforce_pod-Noted env s c p f k)
              (λ g j noted. tt))
          (λ f k i.
            Returns_mono (enforce_pod env s c pod f k) _ _ (enforce_pod-Noted env s c pod f k)
              (λ g j noted. Noted-up env s pod f g noted up))
          (λ p q f k i there.
            Returns_mono (enforce_pod env s c p f k) _ _ (enforce_pod-Noted env s c p f k)
              (λ g j noted. Noted-grows env s p f g pod.name noted there))
          found h tt

    -- No name that is found is lost.
    pods_grow :
        (c : Clientset) (listed : List Pod) (name : String) (found : List String) (h : History)
        → contains name found ≡ true
        → Returns (loop (enforce_pod env s c) listed found h) (λ f k. contains name f ≡ true)
    pods_grow c listed name found h there =
        loop-Returns (enforce_pod env s c) (λ f k. contains name f ≡ true) listed
          (λ p q f k i.
            Returns_mono (enforce_pod env s c p f k) _ _ (enforce_pod-Noted env s c p f k)
              (λ g j noted. Noted-grows env s p f g name noted i))
          found h there

    enforce_cluster-Sighting :
        (cluster : String) (c : Clientset) (found : List String) (h : History)
        → In (cluster, c) s.clientsets
        → All Sighting found
        → Returns (enforce_cluster env s app namespace (cluster, c) found h) (λ f k. All Sighting f)
    unfolding enforce_cluster list_pods
    enforce_cluster-Sighting cluster c found h m all =
        elim (Result-cases (env.pods h c namespace (label_is "app" app))) [
          | inl (e, refused) ↦ rw refused all
          | inr (listed, answered) ↦ rw answered (
              pods-Sighting cluster c m h listed answered found
                (pods_listed c namespace (label_is "app" app) ∷ h) all)
        ]

    enforce_cluster_grows :
        (cluster : String) (c : Clientset) (name : String) (found : List String) (h : History)
        → contains name found ≡ true
        → Returns
            (enforce_cluster env s app namespace (cluster, c) found h)
            (λ f k. contains name f ≡ true)
    unfolding enforce_cluster list_pods
    enforce_cluster_grows cluster c name found h there =
        elim (Result-cases (env.pods h c namespace (label_is "app" app))) [
          | inl (e, refused) ↦ rw refused there
          | inr (listed, answered) ↦ rw answered (
              pods_grow c listed name found (pods_listed c namespace (label_is "app" app) ∷ h)
                there)
        ]

    enforce_cluster-Covered :
        (cluster : String) (c : Clientset) (found : List String) (h : History)
        → Returns (enforce_cluster env s app namespace (cluster, c) found h) (λ f k. Covered c f)
    unfolding enforce_cluster list_pods
    enforce_cluster-Covered cluster c found h =
        elim (Result-cases (env.pods h c namespace (label_is "app" app))) [
          | inl (e, refused) ↦ rw refused (h, inl (e, refused))
          | inr (listed, answered) ↦
              let after =
                loop (enforce_pod env s c) listed found
                  (pods_listed c namespace (label_is "app" app) ∷ h) in
              rw answered (
                Returns_mono after _ _
                  (Returns_all after (λ (pod : Pod) f k. contains pod.name f ≡ true)
                    (λ pod. In pod listed × IsUp env s pod) (pods_return c listed found _)
                    (λ pod (n, up). pods-up c listed pod found _ n up))
                  (λ f k all. (h, inr (listed, answered, λ pod n up. all pod (n, up)))))
        ]

    Covered-grows :
        (c : Clientset) (found f : List String)
        → ((name : String) → contains name found ≡ true → contains name f ≡ true)
        → Covered c found
        → Covered c f
    Covered-grows c found f grows (asked, inl refused) = (asked, inl refused)
    Covered-grows c found f grows (asked, inr (listed, answered, all)) =
        (asked, inr (listed, answered, λ pod n up. grows pod.name (all pod n up)))

    enforce_cluster_return :
        (e : String × Clientset) (found : List String) (h : History)
        → Returns (enforce_cluster env s app namespace e found h) (λ f k. Unit {0})
    enforce_cluster_return (cluster, c) found h =
        Returns_mono (enforce_cluster env s app namespace (cluster, c) found h) _ _
          (enforce_cluster-Covered cluster c found h) (λ f k covered. tt)

    enforce_cluster_keeps :
        (e : String × Clientset) (c : Clientset) (found : List String) (h : History)
        → Covered c found
        → Returns (enforce_cluster env s app namespace e found h) (λ f k. Covered c f)
    enforce_cluster_keeps (cluster, d) c found h covered =
        let after = enforce_cluster env s app namespace (cluster, d) found h in
        Returns_mono after _ _
          (Returns_all after (λ name f k. contains name f ≡ true)
            (λ name. contains name found ≡ true) (enforce_cluster_return (cluster, d) found h)
            (λ name there. enforce_cluster_grows cluster d name found h there))
          (λ f k grows. Covered-grows c found f grows covered)

    finds-Covered :
        (cluster : String) (c : Clientset) (h : History)
        → In (cluster, c) s.clientsets
        → Returns
            (loop (enforce_cluster env s app namespace) s.clientsets [] h)
            (λ f k. Covered c f)
    finds-Covered cluster c h m =
        loop_reaches (enforce_cluster env s app namespace) (λ f k. Unit {0}) (λ f k. Covered c f)
          s.clientsets (cluster, c) m (λ e n f k i. enforce_cluster_return e f k)
          (λ f k i. enforce_cluster-Covered cluster c f k)
          (λ e n f k i covered. enforce_cluster_keeps e c f k covered) [] h tt

    -- The names that are found over all clusters.
    pub finds-IsSeen :
        (h : History)
        → Returns (loop (enforce_cluster env s app namespace) s.clientsets [] h) (λ f k. IsSeen f)
    finds-IsSeen h =
        let after = loop (enforce_cluster env s app namespace) s.clientsets [] h in
        let sighted =
          loop-Returns (enforce_cluster env s app namespace) (λ f k. All Sighting f) s.clientsets
            (λ (cluster, c) n f k i. enforce_cluster-Sighting cluster c f k n i) [] h tt in
        Returns_mono after _ _
          (Returns_both after (λ f k. All Sighting f)
            (λ f k. (e : String × Clientset) → In e s.clientsets → Covered e.1 f) sighted
            (Returns_all after (λ (e : String × Clientset) f k. Covered e.1 f)
              (λ e. In e s.clientsets) (Returns_mono after _ _ sighted (λ f k all. tt))
              (λ (cluster, c) n. finds-Covered cluster c h n)))
          (λ f k (all, covered). (all, λ cluster c n. covered (cluster, c) n))
