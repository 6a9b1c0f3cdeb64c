-- ===== src/EdgeProxy/Requests.antt =====
-- What the edge proxy does with a request: the choice of a pod, the request that it sends on, the
-- measurement of the answer, and its own answers where it cannot.
use proxima_scheduler.Prelude.{
  ℕ, String, Bool, true, false, not, ◌&&◌, Option, none, some, ◌==◌, string_eq, if◌then◌else◌,
}
use proxima_scheduler.Prelude.Int.{ℤ, sub_time}
use proxima_scheduler.Map.{Map}
use proxima_scheduler.Map
use proxima_scheduler.Float.{Float}
use proxima_scheduler.Effect.{Env, M, Result, ok, err, ◌>>=◌, return, now}
use proxima_scheduler.Metrics.{MetricsWorker, send_latency_data}
use proxima_scheduler.EdgeProxy.{EdgeProxy, ForwardTarget, is_service_allowed, invalidate_cache}
use proxima_scheduler.EdgeProxy.Choosing.{get_best_pod}
use proxima_scheduler.EdgeProxy.Paths.{service_of, forward_path, director_path}

-- `http.Request`, with the fields that the code reads and writes.
pub record Request : Type 0 where
  pub path : String
  pub headers : Map String String

-- The values of the request's context.
pub record Context : Type 0 where
  pub target_url : String
  pub node_ip : String
  pub start_time : ℤ
  pub service_name : String
  pub is_first_proxy : Bool

pub data Reply : Type 0 where
  http_error : ℕ → String → Reply
  serve : Request → Context → Reply

-- What the director sends.
pub record Outgoing : Type 0 where
  pub scheme : String
  pub host : String
  pub path : String
  pub headers : Map String String

abbrev pub forwarded_key : String
forwarded_key = "X-Proxima-Forwarded"

-- The request as it is served, by another proxy or by a pod of this cluster.
unfoldable pub prepared : Request → String → Bool → Request
prepared r service true = record {
  path = forward_path service r.path;
  headers = Map.insert forwarded_key "true" r.headers;
}
prepared r service false = r

abbrev pub context_for : ForwardTarget → ℤ → String → Context
context_for target start service = record {
  target_url = target.forward_host;
  node_ip = target.pod.node_ip;
  start_time = start;
  service_name = service;
  is_first_proxy = target.use_proxy;
}

module _ {F : Type 0} ⦃fl : Float F⦄ (env : Env F) where
  unfoldable pub serve_target : Request → String → Result ForwardTarget → M Reply
  serve_target r service (err e) = return (http_error 500 "Failed obtaining the best pod.")
  serve_target r service (ok target) = do
    start ← now env
    return (serve (prepared r service target.use_proxy) (context_for target start service))

  unfoldable pub serve_service : EdgeProxy F → Request → Option String → M Reply
  serve_service ep r none = return (http_error 400 "Invalid request path")
  serve_service ep r (some service) =
      if not (is_service_allowed service)
      then return (http_error 403 "Service not allowed")
      else (do best ← get_best_pod env ep service; serve_target r service best)

  unfoldable pub preprocess_request : EdgeProxy F → Request → M Reply
  preprocess_request ep r = serve_service ep r (service_of r.path)

  -- ModifyResponse: the latency of the answer is handed to the metrics worker, but not by a proxy
  -- that another one forwarded the request to.
  unfoldable pub modify_response : Request → Context → MetricsWorker → M MetricsWorker
  modify_response r ctx mw =
      if Map.get_or "" forwarded_key r.headers == "true" && not ctx.is_first_proxy
      then return mw
      else (do
        received ← now env
        stamp ← now env
        return (
            send_latency_data
              (record {
                service_name = ctx.service_name;
                pod_url = ctx.target_url;
                node_ip = ctx.node_ip;
                latency = sub_time received ctx.start_time;
                timestamp = stamp;
              })
              mw))

unfoldable pub director : Request → Context → Outgoing
director r ctx = record {
  scheme = "http";
  host = ctx.target_url;
  path = director_path r.path;
  headers = r.headers;
}

-- The errors of a transport that the handler tells apart.
pub data ProxyError : Type 0 where
  canceled deadline_exceeded other_error : ProxyError

-- The status and the message, and whether the service's candidates are refreshed.
unfoldable pub handle_error : ProxyError → String → Reply × Bool
handle_error canceled service = (http_error 499 "Client canceled request", false)
handle_error deadline_exceeded service = (http_error 504 "Upstream timeout", not (service == ""))
handle_error other_error service = (http_error 502 "Bad Gateway", not (service == ""))

-- The handler of `/invalidate/`, for the text after that prefix.
unfoldable pub handle_invalidate : {F : Type 0} → EdgeProxy F → String → ℕ × EdgeProxy F
handle_invalidate ep service =
    if service == "" then (400, ep) else (200, invalidate_cache ep service)
