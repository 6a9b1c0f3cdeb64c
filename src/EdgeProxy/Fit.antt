-- ===== src/EdgeProxy/Fit.antt =====
-- getPodsForService: which pods can serve.
use proxima_scheduler.Prelude.{
  ℕ, String, ◌≡◌, ◌≢◌, refl, sym, ap, some, List, [], ◌∷◌, string_eq, beq_ne, arith, Option-cases,
  inl, inr,
}
use proxima_scheduler.Kube.{Pod, Container, running}
use proxima_scheduler.EdgeProxy.{K8sPodInstance}
use proxima_scheduler.EdgeProxy.Refreshing.{first_of, first_port, serving}

-- A pod that runs, with its address, its node and its node's address, and with a first container that
-- has a port; and the instance that it makes.
pub record IsFit (cluster : String) (pod : Pod) (i : K8sPodInstance) : Type 0 where
  pub is_running : pod.phase ≡ running
  pub has_address : pod.pod_ip ≢ ""
  pub on_node : pod.node_name ≢ ""
  pub node_known : pod.host_ip ≢ ""
  pub first : Container
  pub others : List Container
  pub containers : pod.containers ≡ first ∷ others
  pub port : ℕ
  pub more : List ℕ
  pub ports : first.ports ≡ port ∷ more
  pub instance_is : i ≡ record {
    pod_ip = pod.pod_ip;
    node_ip = pod.host_ip;
    node = pod.node_name;
    pod_name = pod.name;
    port = port;
    cluster = cluster;
  }

first_of-some :
    (ports : List ℕ) (p : ℕ) → first_of ports ≡ some p → (more : List ℕ) × (ports ≡ p ∷ more)
first_of-some [] p e = cc
first_of-some (q ∷ more) p e = (more, cc)

first_port-some :
    (containers : List Container) (p : ℕ)
    → first_port containers ≡ some p
    → (c : Container) × (others : List Container) × (more : List ℕ) × (containers ≡ c ∷ others)
      × (c.ports ≡ p ∷ more)
unfolding first_port
first_port-some [] p e = cc
first_port-some (c ∷ others) p e =
    let (more, ports) = first_of-some c.ports p e in (c, others, more, refl, ports)

pub serving-IsFit :
    (cluster : String) (pod : Pod) (i : K8sPodInstance)
    → serving cluster pod ≡ some i
    → IsFit cluster pod i
unfolding serving
serving-IsFit cluster pod i e = elim (Option-cases (first_port pod.containers)) [
  | inl missing ↦ absurd (ground (arith, e, missing))
  | inr (p, found) ↦
      let (c, others, more, containers, ports) = first_port-some pod.containers p found in
      record {
        is_running = ground (arith, e);
        has_address = (beq_ne pod.pod_ip "").0 (ground (arith, e));
        on_node = (beq_ne pod.node_name "").0 (ground (arith, e));
        node_known = (beq_ne pod.host_ip "").0 (ground (arith, e));
        first = c;
        others = others;
        containers = containers;
        port = p;
        more = more;
        ports = ports;
        instance_is = ground (arith, e, found);
      }
]

pub IsFit-serving :
    (cluster : String) (pod : Pod) (i : K8sPodInstance)
    → IsFit cluster pod i
    → serving cluster pod ≡ some i
unfolding serving first_port
IsFit-serving cluster pod i fit =
    simp
      (
        fit.is_running,
        (beq_ne pod.pod_ip "").1 fit.has_address,
        (beq_ne pod.node_name "").1 fit.on_node,
        (beq_ne pod.host_ip "").1 fit.node_known,
        fit.containers,
        fit.ports,
      )
      (ap some (sym fit.instance_is))
