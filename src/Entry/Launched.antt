-- ===== src/Entry/Launched.antt =====
-- The programs from their start on: what they know, and what they do in any run.
use proxima_scheduler.Prelude.{
  String, Bool, ◌≡◌, refl, sym, ap, ◌∙◌, subst, inl, inr, Option, none, some, List, [], ◌∷◌, ◌==◌,
  string_eq, if◌then◌else◌,
}
use proxima_scheduler.Prelude.Int.{ℤ, pos}
use proxima_scheduler.Kube.{Clientset, Node}
use proxima_scheduler.Map.{Map, IsUnique}
use proxima_scheduler.Map
use proxima_scheduler.Float.{Float}
use proxima_scheduler.Effect.{
  Env, History, Result, Result-cases, Outcome, ok, err, done, panic, and_then, return,
}
use proxima_scheduler.Effect.Posts.{Returns, writes}
use proxima_scheduler.Effect.Ends.{Ends}
use proxima_scheduler.Clients.{load_kubeconfigs, loaded, last_file, load_kubeconfigs_lem}
use proxima_scheduler.Scheduler.{Scheduler}
use proxima_scheduler.Scheduler.Hashing.{IsHexadecimal}
use proxima_scheduler.Scheduler.Starting.{new_scheduler, new_scheduler_lem}
use proxima_scheduler.Scheduler.Running
use proxima_scheduler.Scheduler.Running.Justified.{Justified}
use proxima_scheduler.Scheduler.Running.Runs.{run-Justified}
use proxima_scheduler.ScoresWorker.{ScoresWorker, new_scores_worker}
use proxima_scheduler.Metrics.{MetricsWorker, new_metrics_worker}
use proxima_scheduler.EdgeProxy.Requests.{Request}
use proxima_scheduler.EdgeProxy.{EdgeProxy, new_edge_proxy}
use proxima_scheduler.EdgeProxy.States.{Reached, started}
use proxima_scheduler.EdgeProxy.Running as EdgeRunning
use proxima_scheduler.Nodes.{obtain_edge_proxies}
use proxima_scheduler.Pinger.{Pinger, pinger_with, new_pinger}
use proxima_scheduler.Pinger.States as PingerStates
use proxima_scheduler.Pinger.Running as PingerRunning
use proxima_scheduler.Entry.{
  System, Launch, fatal, launched, or_nil, config, in_cluster, kubeconfigs, load, scheduler_main,
  edge_proxy_main, launch, pinger_main,
}

-- The entries of a directory, none where it cannot be read.
abbrev pub files_of : Result (List (String × Bool)) → List (String × Bool)
files_of (err e) = []
files_of (ok files) = files

-- The scheduler's loop over a nil map and over that of an empty directory are the same.
or_nil_lem :
    (join_path : List String → String) (dir : String) (r : Result (List (String × Bool)))
    (n : String)
    → let m = or_nil (load_kubeconfigs join_path dir r) in
      IsUnique m
      × (Map.lookup n m ≡ last_file (λ name. join_path (dir ∷ name ∷ [])) n (files_of r) none)
unfolding load_kubeconfigs IsUnique Map.lookup last_file
or_nil_lem join_path dir (err e) n = (tt, refl)
or_nil_lem join_path dir (ok files) n =
    let (m, e, u, value) = load_kubeconfigs_lem join_path dir files in
    subst
      (λ (r : Result (Map String String)).
        IsUnique (or_nil r)
        × (Map.lookup n (or_nil r) ≡ last_file (λ name. join_path (dir ∷ name ∷ [])) n files none))
      (sym e) (u, value n)

module _ {C : Type 0} (sys : System C) where
  -- The kubeconfig of a cluster, by the files of the directory.
  abbrev pub kubeconfig_of : String → Option String
  kubeconfig_of n =
      let dir = (config sys).kube_configs_path in
      last_file (λ name. sys.join_path (dir ∷ name ∷ [])) n (files_of (sys.read_dir dir)) none

  scheduler_main_cases :
      {F : Type 0} (s : Scheduler) (w : ScoresWorker F)
      → scheduler_main sys ≡ launched (s, w)
      → (c : Clientset) × (in_cluster sys ≡ ok c)
        × (new_scheduler
              (load sys)
              (config sys).scheduler_name
              (config sys).included_namespaces
              (config sys).edge_proxies
              c
              (or_nil (kubeconfigs sys))
            ≡ ok s)
  unfolding scheduler_main
  scheduler_main_cases {F} s w e = elim (Result-cases (in_cluster sys)) [
    | inl (x, outside) ↦ cc (rw (scheduler_main, outside) at e)
    | inr (c, inside) ↦
        let r =
          new_scheduler (load sys) (config sys).scheduler_name (config sys).included_namespaces
            (config sys).edge_proxies c (or_nil (kubeconfigs sys)) in
        elim (Result-cases r) [
          | inl (x, failed) ↦ cc (rw (scheduler_main, inside, failed) at e)
          | inr (t, made) ↦
              let w' : ScoresWorker F =
                new_scores_worker (config sys).scoring_interval (config sys).edge_proxies in
              let same : ◌≡◌ {A = Launch (Scheduler × ScoresWorker F)} (launched (t, w'))
                  (launched (s, w)) =
                rw (scheduler_main, inside, made) at e in
              let t_s : t ≡ s = cc in (c, inside, made ∙ ap ok t_s)
        ]
  ]

  -- The scheduler that cmd/scheduler starts is the one of the cluster that it runs in. It knows that
  -- cluster as the local one, and for each file of the directory of kubeconfigs, the last of a name,
  -- a cluster of the file's name without its extension, at the client that the file gives; and no
  -- others. A directory that cannot be read counts as an empty one.
  pub scheduler_main_lem :
      {F : Type 0} (s : Scheduler) (w : ScoresWorker F) (n : String)
      → scheduler_main sys ≡ launched (s, w)
      → (c : Clientset) × (in_cluster sys ≡ ok c)
        × (Map.lookup n s.clientsets
            ≡ (if "local" == n then some c else loaded (load sys) (kubeconfig_of n)))
        × (s.desired_apps ≡ [])
  scheduler_main_lem s w n e =
      let (c, inside, made) = scheduler_main_cases s w e in
      let dir = (config sys).kube_configs_path in
      let (unique, value) = or_nil_lem sys.join_path dir (sys.read_dir dir) n in
      let (clusters, fresh) = new_scheduler_lem (load sys) _ _ _ c _ s n unique made in
      (
        c,
        inside,
        clusters ∙ ap (λ p. if "local" == n then some c else loaded (load sys) p) value,
        fresh,
      )

  -- From the start of cmd/scheduler, over any sequence of new pods and ticks, each deletion that it
  -- asks for is justified; where the program launches, it needs no other cluster.
  scheduler_main-Justified :
      {F : Type 0} ⦃fl : Float F⦄ (env : Env F) (hex : IsHexadecimal env) (s : Scheduler)
      (w : ScoresWorker F) (events : List Running.Event)
      → scheduler_main sys ≡ launched (s, w)
      → Ends
          (Running.run env events s [])
          (λ t k.
            (t.clientsets ≡ s.clientsets)
            × (t.scheduler_name ≡ s.scheduler_name)
            × Justified env s (writes k))
          (λ k. Justified env s (writes k))
  scheduler_main-Justified env hex s w events e =
      let (c, inside, known, fresh) = scheduler_main_lem s w "local" e in
      run-Justified env s c known hex events

  module _ {F : Type 0} (env : Env F) where
    abbrev edge_launch :
        Result (EdgeProxy F) → History → Outcome (Launch (MetricsWorker × EdgeProxy F))
    edge_launch r = elim r [
      | err e ↦ return fatal
      | ok ep ↦ return (
          launched (
            new_metrics_worker 100 (config sys).node_ip (config sys).kind_network_ip
                (pos 60_000_000_000),
            ep,
          ))
    ]

    edge_launch_lem :
        (o : Outcome (Result (EdgeProxy F))) (mw : MetricsWorker) (ep : EdgeProxy F) (k : History)
        → and_then o edge_launch ≡ done (launched (mw, ep)) k
        → o ≡ done (ok ep) k
    edge_launch_lem (done (ok p) h) mw ep k e = cc
    edge_launch_lem (done (err x) h) mw ep k e = cc
    edge_launch_lem (panic h) mw ep k e = cc

    edge_proxy_main-Reached :
        ⦃fl : Float F⦄ (mw : MetricsWorker) (ep : EdgeProxy F) (h k : History)
        → edge_proxy_main sys env h ≡ done (launched (mw, ep)) k
        → Reached env ep
    unfolding edge_proxy_main
    edge_proxy_main-Reached mw ep h k e = elim (Result-cases (in_cluster sys)) [
      | inl (x, outside) ↦ cc (rw (edge_proxy_main, outside) at e)
      | inr (c, inside) ↦ elim (Result-cases (kubeconfigs sys)) [
        | inl (x, unreadable) ↦ cc (rw (edge_proxy_main, inside, unreadable) at e)
        | inr (files, found) ↦
            let cfg = config sys in
            let o =
              new_edge_proxy env (load sys) cfg.consul_url c files (pos 0) cfg.node_ip
                cfg.kind_network_ip h in
            started (load sys) cfg.consul_url c files (pos 0) cfg.node_ip cfg.kind_network_ip h k ep
              (edge_launch_lem o mw ep k (rw (edge_proxy_main, inside, found) at e))
      ]
    ]

    -- What cmd/edgeproxy starts serves requests without a panic and without changing a cluster. Over
    -- any sequence of ticks, requests, invalidations and failures of requests, with any answers to
    -- its calls, it stays in the states that it reaches. A request that comes then gets one reply,
    -- the right one for the proxy as it then is: 400, 403 or 500 for its cause, where 500 is for a
    -- service that it holds no candidates for, and otherwise a candidate of the requested service.
    pub edge_proxy_main-IsServing :
        ⦃fl : Float F⦄ (mw : MetricsWorker) (ep : EdgeProxy F) (before : List EdgeRunning.Event)
        (r : Request) (h k : History)
        → edge_proxy_main sys env h ≡ done (launched (mw, ep)) k
        → Returns (EdgeRunning.run env before ep k) (λ s j.
          (writes j ≡ writes k)
          × Reached env s.proxy
          × Returns
              (EdgeRunning.handle env (EdgeRunning.asked r) s j)
              (EdgeRunning.IsAnswer env s r j))
    edge_proxy_main-IsServing mw ep before r h k e =
        EdgeRunning.run-IsServing env before r ep k (edge_proxy_main-Reached mw ep h k e)

    launch_lem :
        {A : Type 0} (o : Outcome (Result A)) (a : A) (k : History)
        → and_then o (λ r. return (launch r)) ≡ done (launched a) k
        → o ≡ done (ok a) k
    unfolding launch
    launch_lem (done (ok b) h) a k e = cc
    launch_lem (done (err x) h) a k e = cc
    launch_lem (panic h) a k e = cc

    pinger_made :
        (interval : ℤ) (c : Clientset) (enabled : Bool) (node_ip kind_ip : String) (p : Pinger)
        (o : Outcome (Result (String × List String))) (k : History)
        → and_then o (λ r. elim r [
          | err e ↦ return (err e)
          | ok found ↦ return (ok (pinger_with interval (some c) enabled node_ip kind_ip found))
        ])
          ≡ done (ok p) k
        → PingerStates.Reached p
    pinger_made interval c enabled node_ip kind_ip p (done (ok found) h) k e =
        let made : pinger_with interval (some c) enabled node_ip kind_ip found ≡ p = cc in
        subst PingerStates.Reached made
          (PingerStates.started interval (some c) enabled node_ip kind_ip found)
    pinger_made interval c enabled node_ip kind_ip p (done (err x) h) k e = cc
    pinger_made interval c enabled node_ip kind_ip p (panic h) k e = cc

    pinger_main-Reached :
        (p : Pinger) (h k : History)
        → pinger_main sys env h ≡ done (launched p) k
        → PingerStates.Reached p
    unfolding pinger_main new_pinger
    pinger_main-Reached p h k e = elim (Result-cases (in_cluster sys)) [
      | inl (x, outside) ↦ cc (rw (pinger_main, outside) at e)
      | inr (c, inside) ↦
          let cfg = config sys in
          let o =
            new_pinger env cfg.ping_interval (some c) cfg.database_enabled cfg.node_ip
              cfg.edge_proxies cfg.kind_network_ip h in
          pinger_made cfg.ping_interval c cfg.database_enabled cfg.node_ip cfg.kind_network_ip p
            (obtain_edge_proxies env cfg.edge_proxies (some c) cfg.node_ip cfg.kind_network_ip h) k
            (launch_lem o p k (rw (pinger_main, inside) at e))
    ]

    -- Whatever cmd/pinger starts from, and over any events, each latency of its pinger is that of a
    -- known node or edge proxy, and each aggregated latency is from an edge proxy to a known node.
    pinger_main-IsConsistent :
        (p : Pinger) (h k : History) (discovered : Result (List Node))
        (events : List PingerRunning.Event) (r : PingerRunning.Run)
        → pinger_main sys env h ≡ done (launched p) k
        → PingerRunning.run discovered events p ≡ PingerRunning.ran r
        → PingerStates.IsConsistent r.pinger
    pinger_main-IsConsistent p h k discovered events r e q =
        PingerStates.Reached-IsConsistent r.pinger
          (PingerRunning.run-Reached discovered events p r (pinger_main-Reached p h k e) q)
