-- ===== src/Scheduler.antt =====
-- proxima-scheduler/scheduler/scheduler.go: the scheduler's state, and what it asks of a node.
pub mod Starting
pub mod Capacity
pub mod Selection
pub mod Placing
pub mod Rescheduling
pub mod Hashing
pub mod Enforcing
pub mod Intake
pub mod Running
use proxima_scheduler.Prelude.{ℕ, String, Bool, true, false, List, [], ◌∷◌, if◌then◌else◌}
use proxima_scheduler.Prelude.Int.{ℤ}
use proxima_scheduler.Kube.{
  Clientset, Node, Pod, Condition, ConditionType, ready, other_condition, ConditionStatus,
  condition_true, condition_false, condition_unknown, TaintEffect, no_schedule, prefer_no_schedule,
  no_execute,
}
use proxima_scheduler.Map.{Map}

pub record DesiredPod : Type 0 where
  pub name : String
  pub cluster : String
  pub node_name : String

pub record DesiredApp : Type 0 where
  pub app : String
  pub namespace : String
  pub replicas : ℤ
  pub annotations : Map String String
  pub labels : Map String String
  pub template : Pod
  pub pods_by_name : Map String DesiredPod

-- `StopCh` is the channel that ends the loops, and `DB` is part of the environment.
pub record Scheduler : Type 0 where
  pub clientsets : Map String Clientset
  pub scheduler_name : String
  pub included_namespaces : List String
  pub edge_proxies : List String
  pub desired_apps : Map String DesiredApp

pub record NodeCandidate (F : Type 0) : Type 0 where
  pub ip : String
  pub cluster : String
  pub score : F

abbrev is_ready : ConditionType → Bool
is_ready ready = true
is_ready other_condition = false

abbrev is_true : ConditionStatus → Bool
is_true condition_true = true
is_true condition_false = false
is_true condition_unknown = false

-- The first Ready condition decides.
unfoldable pub ready_status : List Condition → Bool
ready_status [] = false
ready_status (c ∷ cs) = if is_ready c.type then is_true c.status else ready_status cs

unfoldable pub is_node_ready : Node → Bool
unfolding ready_status
is_node_ready node = ready_status node.conditions

abbrev forbids : TaintEffect → Bool
forbids no_schedule = true
forbids prefer_no_schedule = false
forbids no_execute = false

unfoldable pub untainted : List TaintEffect → Bool
untainted [] = true
untainted (t ∷ ts) = if forbids t then false else untainted ts

unfoldable pub is_schedulable : Node → Bool
unfolding untainted
is_schedulable node = untainted node.taints
