-- ===== src/Scheduler/Starting.antt =====
-- NewScheduler. How a kubeconfig becomes a client is an argument.
use proxima_scheduler.Prelude.{
  String, ◌≡◌, sym, ap, ◌∙◌, some, List, [], ◌==◌, string_eq, if◌then◌else◌, arith, inl, inr,
}
use proxima_scheduler.Kube.{Clientset}
use proxima_scheduler.Map.{Map, lookup-insert, has-lookup, IsUnique}
use proxima_scheduler.Map
use proxima_scheduler.Effect.{Result, ok, err, Result-cases}
use proxima_scheduler.Clients.{load_clusters, loaded, load_clusters_lem}
use proxima_scheduler.Scheduler.{Scheduler}

unfoldable pub new_scheduler :
    (String → Result Clientset)
    → String
    → List String
    → List String
    → Clientset
    → Map String String
    → Result Scheduler
new_scheduler load name namespaces edges in_cluster kubeconfigs =
    elim (load_clusters load kubeconfigs []) [
      | err e ↦ err e
      | ok clusters ↦ ok (record {
        clientsets = Map.insert "local" in_cluster clusters;
        scheduler_name = name;
        included_namespaces = namespaces;
        edge_proxies = edges;
        desired_apps = [];
      })
    ]

-- The scheduler starts with the local cluster, which the one that it runs in always is, with the
-- clusters of the kubeconfigs, one for a name, at their clients, and without desired applications; or
-- it does not start.
pub new_scheduler_lem :
    (load : String → Result Clientset) (name : String) (namespaces edges : List String)
    (in_cluster : Clientset) (kubeconfigs : Map String String) (s : Scheduler) (n : String)
    → IsUnique kubeconfigs
    → new_scheduler load name namespaces edges in_cluster kubeconfigs ≡ ok s
    → (Map.lookup n s.clientsets
        ≡ (if "local" == n then some in_cluster else loaded load (Map.lookup n kubeconfigs)))
      × (s.desired_apps ≡ [])
unfolding new_scheduler Map.has Map.lookup
new_scheduler_lem load name namespaces edges in_cluster kubeconfigs s n u e =
    elim (Result-cases (load_clusters load kubeconfigs [])) [
      | inl (x, failed) ↦ cc (rw (new_scheduler, failed) at e)
      | inr (clusters, given) ↦
          let made : Scheduler = record {
            clientsets = Map.insert "local" in_cluster clusters;
            scheduler_name = name;
            included_namespaces = namespaces;
            edge_proxies = edges;
            desired_apps = [];
          } in
          let same : ok made ≡ ok s = rw (new_scheduler, given) at e in
          let made_s : made ≡ s = cc in
          (
            ap (λ (t : Scheduler). Map.lookup n t.clientsets) (sym made_s)
                ∙ ground (
                  arith,
                  lookup-insert "local" n in_cluster clusters,
                  load_clusters_lem load kubeconfigs [] clusters n u given,
                ),
            sym (ap (λ (t : Scheduler). t.desired_apps) made_s),
          )
    ]
