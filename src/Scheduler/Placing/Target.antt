-- ===== src/Scheduler/Placing/Target.antt =====
-- The node that schedulePod and reschedulePod place a pod on: the one with the address that was chosen.
use proxima_scheduler.Prelude.{
  String, ◌≡◌, inl, inr, refl, some, List, ◌∷◌, In, In-append_right, string_eq,
}
use proxima_scheduler.Kube.{Clientset, Node, Pod, everything}
use proxima_scheduler.Float.{Float}
use proxima_scheduler.Effect.{Env, History, Result, Result-cases, ok, err, list_nodes}
use proxima_scheduler.Effect.Posts.{Returns, writes}
use proxima_scheduler.Nodes.{find_node, discover_nodes, get_node_by_internal_ip}
use proxima_scheduler.Nodes.Lookup.{HasAddress, find_node-first}
use proxima_scheduler.Scheduler.{Scheduler}
use proxima_scheduler.Scheduler.Selection.{Scores}
use proxima_scheduler.Scheduler.Selection.Chosen.{Chosen}

module _ {F : Type 0} (env : Env F) (c : Clientset) (ip : String) where
  -- The cluster listed the node, which has the address.
  pub record IsAt (node : Node) : Type 0 where
    pub asked : History
    pub nodes : List Node
    pub answered : env.nodes asked c everything ≡ ok nodes
    pub member : In node nodes
    pub addressed : HasAddress ip node

  -- What is found by the address.
  abbrev pub IsFound : Result Node → Type 0
  IsFound (err e) = Unit {0}
  IsFound (ok node) = IsAt node

  find_node-IsFound :
      (h : History) (nodes : List Node)
      → env.nodes h c everything ≡ ok nodes
      → (r : Result Node) → find_node ip nodes ≡ r
      → IsFound r
  find_node-IsFound h nodes answered (err e) found = tt
  find_node-IsFound h nodes answered (ok node) found =
      let (before, after, split, has, first) = find_node-first ip nodes node found in
      record {
        asked = h;
        nodes = nodes;
        answered = answered;
        member = rw split (In-append_right node before (node ∷ after) (inl refl));
        addressed = has;
      }

  pub get_node_by_internal_ip-IsFound :
      (h : History)
      → Returns
          (get_node_by_internal_ip env (some c) ip h)
          (λ r k. (writes k ≡ writes h) × IsFound r)
  unfolding get_node_by_internal_ip discover_nodes list_nodes writes
  get_node_by_internal_ip-IsFound h = elim (Result-cases (env.nodes h c everything)) [
    | inl (e, refused) ↦ rw refused (refl, tt)
    | inr (nodes, answered) ↦ rw answered (refl, find_node-IsFound h nodes answered _ refl)
  ]

module _ {F : Type 0} ⦃fl : Float F⦄ (env : Env F) (s : Scheduler) (pod : Pod) where
  -- The name is that of a node that the cluster listed, with the address that was chosen for the pod
  -- by some scores.
  abbrev pub IsNodeFor : String → Clientset → String → Type 0
  IsNodeFor cluster c name =
      (scores : Scores F) × (ip : String) × (node : Node) × Chosen env s pod scores
        (ok (ip, cluster))
      × IsAt env c ip node
      × (node.name ≡ name)
