-- ===== src/Tests.antt =====
-- Applications of the theorems to concrete clusters.
mod World
mod Placing
mod Nodes
mod Enforcing
mod Metrics
mod EdgeProxy
mod Pinger
mod Scores
mod Others
mod Running
mod Entry
