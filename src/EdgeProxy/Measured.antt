-- ===== src/EdgeProxy/Measured.antt =====
-- A request that two proxies handle, that of the client's cluster and that of the pod's: what the
-- second one makes of it, and which one of them measures it.
use proxima_scheduler.Prelude.{String, true, false, ◌≡◌, refl, ap, ◌∙◌, some, ◌∷◌, string_eq}
use proxima_scheduler.Prelude.Int.{ℤ, sub_time}
use proxima_scheduler.Map.{Map, get_or-insert}
use proxima_scheduler.Map
use proxima_scheduler.Float.{Float}
use proxima_scheduler.Effect.{Env, History, done, now, clock_read}
use proxima_scheduler.Metrics.{MetricsWorker, MetricsData, send_latency_data}
use proxima_scheduler.EdgeProxy.{ForwardTarget}
use proxima_scheduler.EdgeProxy.Paths.{slash, service_of, director_path-forward_path}
use proxima_scheduler.EdgeProxy.Requests.{
  Request, Context, Outgoing, forwarded_key, prepared, context_for, modify_response, director,
}

-- The request that arrives where the director sent it.
abbrev pub received : Outgoing → Request
received o = record { path = o.path; headers = o.headers }

-- What the metrics worker is handed for an answer that came at `at`.
abbrev pub measured : Context → ℤ → ℤ → MetricsData
measured ctx at stamp = record {
  service_name = ctx.service_name;
  pod_url = ctx.target_url;
  node_ip = ctx.node_ip;
  latency = sub_time at ctx.start_time;
  timestamp = stamp;
}

module _ {F : Type 0} ⦃fl : Float F⦄ (env : Env F) where
  marked :
      (headers : Map String String)
      → Map.get_or "" forwarded_key (Map.insert forwarded_key "true" headers) ≡ "true"
  marked headers = rw (get_or-insert "" forwarded_key forwarded_key "true" headers) refl

  -- A request whose path starts with a slash and names a service, and whose target is in another
  -- cluster, arrives at that cluster's proxy with the
  -- path that the client sent, so for the same service. The answer is measured by the first proxy,
  -- from the start of the request, for the service and the node of the target, and not by the second
  -- one, if it serves the request by a pod of its own cluster.
  pub modify_response-prepared :
      (headers : Map String String) (rest service : String) (far near : ForwardTarget)
      (start later : ℤ) (mw mw' : MetricsWorker) (h k : History)
      → service_of (String.◌∷◌ slash rest) ≡ some service
      → far.use_proxy ≡ true
      → near.use_proxy ≡ false
      → let client : Request = record { path = String.◌∷◌ slash rest; headers = headers } in
        let sent : Request = prepared client service far.use_proxy in
        let first : Context = context_for far start service in
        let arrived : Request = received (director sent first) in
        (arrived.path ≡ client.path)
        × (service_of arrived.path ≡ some service)
        × (modify_response env sent first mw h
            ≡ done
                (send_latency_data (measured first (env.now h) (env.now (clock_read ∷ h))) mw)
                (clock_read ∷ clock_read ∷ h))
        × (modify_response env
              (prepared arrived service near.use_proxy)
              (context_for near later service)
              mw'
              k
            ≡ done mw' k)
  unfolding modify_response director prepared now
  modify_response-prepared headers rest service far near start later mw mw' h k named away here =
      rw (away, here)
        (
          director_path-forward_path rest service named,
          ap service_of (director_path-forward_path rest service named) ∙ named,
          rw (marked headers) refl,
          rw (marked headers) refl,
        )
