-- ===== src/Nodes.antt =====
-- proxima-scheduler/util/k8s.go: the queries about nodes, edge proxies and services.
pub mod Lookup
use proxima_scheduler.Prelude.{
  ℕ, String, Bool, true, false, not, ◌&&◌, Option, none, some, List, [], ◌∷◌, ◌++◌, ◌==◌, string_eq,
  nat_eq, if◌then◌else◌,
}
use proxima_scheduler.Kube.{
  Clientset, Address, AddressType, internal_ip, external_ip, other_address, Node, Pod, Service,
  ServiceType, node_port, other_service, Selector, everything, label_is, label_is_not,
}
use proxima_scheduler.Effect.{
  Env, M, Result, ok, err, Error, discover_failed, api_error, node_not_found, no_internal_ip,
  no_external_ip, service_failed, not_node_port, no_node_port, no_edge_node, ◌>>=◌, return, loop,
  list_nodes, get_node, list_pods, get_service,
}
use proxima_scheduler.Map.{Map}
use proxima_scheduler.Map

abbrev pub is_internal : AddressType → Bool
is_internal internal_ip = true
is_internal external_ip = false
is_internal other_address = false

abbrev pub is_external : AddressType → Bool
is_external external_ip = true
is_external internal_ip = false
is_external other_address = false

-- GetNodeInternalIP, on the addresses: the first internal one.
unfoldable pub internal_address : List Address → Result String
internal_address [] = err no_internal_ip
internal_address (a ∷ addrs) = if is_internal a.type then ok a.address else internal_address addrs

unfoldable pub get_node_internal_ip : Node → Result String
unfolding internal_address
get_node_internal_ip node = internal_address node.addresses

-- The inner loop of GetNodeByInternalIP and of GetNodeExternalIP.
unfoldable pub has_internal_ip : String → List Address → Bool
has_internal_ip ip [] = false
has_internal_ip ip (a ∷ addrs) =
    if is_internal a.type && a.address == ip then true else has_internal_ip ip addrs

-- The loop of GetNodeByInternalIP.
unfoldable pub find_node : String → List Node → Result Node
unfolding has_internal_ip
find_node ip [] = err node_not_found
find_node ip (n ∷ ns) = if has_internal_ip ip n.addresses then ok n else find_node ip ns

unfoldable pub external_address : List Address → Result String
external_address [] = err no_external_ip
external_address (a ∷ addrs) = if is_external a.type then ok a.address else external_address addrs

-- The loop of GetNodeExternalIP.
unfoldable pub find_external : String → List Node → Result String
unfolding has_internal_ip external_address
find_external ip [] = err node_not_found
find_external ip (n ∷ ns) =
    if has_internal_ip ip n.addresses then external_address n.addresses else find_external ip ns

unfoldable pub is_edge_proxy : String → List String → Bool
is_edge_proxy address [] = false
is_edge_proxy address (ep ∷ eps) = if ep == address then true else is_edge_proxy address eps

-- The loop of ObtainEdgeProxies.
unfoldable pub filter_edge_proxies : String → List String → List String
filter_edge_proxies current [] = []
filter_edge_proxies current (ep ∷ eps) =
    let rest = filter_edge_proxies current eps in if ep == current then rest else ep ∷ rest

unfoldable pub with_port : List Address → List String
with_port [] = []
with_port (a ∷ addrs) =
    let rest = with_port addrs in
    if is_internal a.type then Prim.Native.String.◌++◌ a.address ":80" ∷ rest else rest

unfoldable pub extract_node_addresses : List Node → List String
unfolding with_port
extract_node_addresses [] = []
extract_node_addresses (n ∷ ns) = with_port n.addresses ++ extract_node_addresses ns

unfoldable pub first_node_port : List ℕ → ℕ
first_node_port [] = 0
first_node_port (p ∷ ps) = if p == 0 then first_node_port ps else p

module _ {F : Type 0} (env : Env F) where
  unfoldable pub discover_nodes : Option Clientset → Bool → M (Result (List Node))
  discover_nodes clientset filter_out_edge_proxies = do
    r ←
        list_nodes env clientset
          (if filter_out_edge_proxies then label_is_not "edge" "true" else everything)
    elim r [ err e ↦ return (err discover_failed) | ok nodes ↦ return (ok nodes) ]

  unfoldable pub get_node_by_internal_ip : Option Clientset → String → M (Result Node)
  get_node_by_internal_ip clientset ip = do
    r ← discover_nodes clientset false
    elim r [ err e ↦ return (err discover_failed) | ok nodes ↦ return (find_node ip nodes) ]

  unfoldable pub get_node_external_ip : Option Clientset → String → M (Result String)
  get_node_external_ip clientset ip = do
    r ← discover_nodes clientset false
    elim r [ err e ↦ return (err discover_failed) | ok nodes ↦ return (find_external ip nodes) ]

  -- The address of this node, and the edge proxies other than it.
  unfoldable pub obtain_edge_proxies :
      List String → Option Clientset → String → String → M (Result (String × List String))
  obtain_edge_proxies unfiltered clientset node_ip kind_network_ip =
      if kind_network_ip == ""
      then (do
        r ← get_node_external_ip clientset node_ip
        elim r [
          | err e ↦ return (err e)
          | ok current ↦ return (ok (current, filter_edge_proxies current unfiltered))
        ])
      else return (ok (kind_network_ip, filter_edge_proxies kind_network_ip unfiltered))

  -- The body of the loop of DiscoverEdgeNodesByDaemonset.
  unfoldable pub discover_edge_step :
      Option Clientset → Pod → Map String String → M (Map String String)
  discover_edge_step clientset pod edges = if Map.has pod.node_name edges then return edges else (do
    r ← get_node env clientset pod.node_name
    elim r [
      | err e ↦ return edges
      | ok node ↦ elim (internal_address node.addresses) [
        | err e ↦ return edges
        | ok ip ↦ return (Map.insert pod.node_name ip edges)
      ]
    ])

  unfoldable pub discover_edge_nodes_by_daemonset :
      Option Clientset → String → String → M (Result (Map String String))
  discover_edge_nodes_by_daemonset clientset namespace daemonset = do
    r ← list_pods env clientset namespace (label_is "app" daemonset)
    elim r [
      | err e ↦ return (err api_error)
      | ok pods ↦ do edges ← loop (discover_edge_step clientset) pods []; return (ok edges)
    ]

  unfoldable pub find_edge_proxy_node_port_address :
      Option Clientset → String → String → M (Result String)
  find_edge_proxy_node_port_address clientset namespace service_name = do
    r ← get_service env clientset namespace service_name
    elim r [
      | err e ↦ return (err service_failed)
      | ok service ↦ elim service.type [
        | other_service ↦ return (err not_node_port)
        | node_port ↦
            if first_node_port service.node_ports == 0 then return (err no_node_port) else (do
              listed ← list_nodes env clientset (label_is "edge" "true")
              elim listed [
                | err e ↦ return (err api_error)
                | ok nodes ↦ elim nodes [
                  | [] ↦ return (err no_edge_node)
                  | n ∷ ns ↦ return (ok n.name)
                ]
              ])
      ]
    ]
