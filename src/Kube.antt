-- ===== src/Kube.antt =====
-- The Kubernetes objects that the program reads and writes (`v1.Pod`, `v1.Node`, `v1.Service`),
-- with the fields that the code mentions. A resource quantity is a whole number of the smallest
-- unit, a time a number of nanoseconds.
use proxima_scheduler.Prelude.{ℕ, String, Bool, Option, List}
use proxima_scheduler.Prelude.Int.{ℤ}
use proxima_scheduler.Map.{Map}

-- A non-nil `*kubernetes.Clientset`: the cluster that it talks to.
pub data Clientset : Type 0 where
  client : ℕ → Clientset

pub data AddressType : Type 0 where
  internal_ip external_ip other_address : AddressType

pub record Address : Type 0 where
  pub type : AddressType
  pub address : String

pub data ConditionType : Type 0 where
  ready other_condition : ConditionType

pub data ConditionStatus : Type 0 where
  condition_true condition_false condition_unknown : ConditionStatus

pub record Condition : Type 0 where
  pub type : ConditionType
  pub status : ConditionStatus

pub data TaintEffect : Type 0 where
  no_schedule prefer_no_schedule no_execute : TaintEffect

pub record Node : Type 0 where
  pub name : String
  pub addresses : List Address
  pub conditions : List Condition
  pub taints : List TaintEffect
  -- `Status.Allocatable`
  pub cpu : ℕ
  pub memory : ℕ

pub record Requests : Type 0 where
  pub cpu : Option ℕ
  pub memory : Option ℕ

pub record Container : Type 0 where
  -- `none` is the nil map.
  pub requests : Option Requests
  pub ports : List ℕ

pub data Phase : Type 0 where
  pending running succeeded failed unknown : Phase

pub record Pod : Type 0 where
  pub name : String
  pub namespace : String
  pub uid : String
  pub resource_version : String
  pub node_name : String
  pub scheduler_name : String
  pub labels : Map String String
  pub annotations : Map String String
  pub containers : List Container
  -- `DeletionTimestamp != nil`
  pub deleting : Bool
  pub phase : Phase
  pub creation : ℤ
  pub pod_ip : String
  pub host_ip : String

-- The label selectors that the code formats.
pub data Selector : Type 0 where
  everything : Selector
  has_label : String → Selector
  label_is : String → String → Selector
  label_is_not : String → String → Selector

pub data ServiceType : Type 0 where
  node_port other_service : ServiceType

pub record Service : Type 0 where
  pub type : ServiceType
  -- `NodePort` of each port
  pub node_ports : List ℕ
