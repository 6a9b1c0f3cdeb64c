-- ===== src/Tests/Nodes.antt =====
-- The queries on nodes, at the nodes of the world of two clusters.
use proxima_scheduler.Prelude.{◌≡◌, ◌↔◌, true, string_eq, ◌≤◌}
use proxima_scheduler.Scheduler.Capacity.{node_holds, total, node_holds_iff}
use proxima_scheduler.Tests.World.{node_at, plain_pod}

node_holds_iff_example : (node_holds (node_at "near" "10.0.0.1") plain_pod ≡ true) ↔ (
    (total (λ r. r.cpu) plain_pod.containers ≤ 4000)
    × (total (λ r. r.memory) plain_pod.containers ≤ 8000))
node_holds_iff_example = node_holds_iff (node_at "near" "10.0.0.1") plain_pod
