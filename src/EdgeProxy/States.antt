-- ===== src/EdgeProxy/States.antt =====
-- The states that an edge proxy reaches from its start by refreshes and invalidations.
use mathlib.Core.Option.{some-injective}
use proxima_scheduler.Prelude.{
  String, ◌≡◌, ◌≢◌, inl, inr, sym, subst, none, some, [], Bool-cases, ◌==◌, string_eq, arith,
}
use proxima_scheduler.Prelude.Int.{ℤ}
use proxima_scheduler.Kube.{Clientset}
use proxima_scheduler.Map.{Map, lookup-insert}
use proxima_scheduler.Map
use proxima_scheduler.Float.{Float}
use proxima_scheduler.Effect.{Env, History, Result, ok, done}
use proxima_scheduler.Effect.Posts.{Returns, writes}
use proxima_scheduler.EdgeProxy.{
  EdgeProxy, CachedForwardCandidates, edge_proxy_with, new_edge_proxy, invalidate_cache,
}
use proxima_scheduler.EdgeProxy.Refreshing.{fresh_candidates, refresh_candidates}
use proxima_scheduler.EdgeProxy.Weighed.{AllOffered}
use proxima_scheduler.EdgeProxy.Refreshed.{IsRefreshed, refresh_candidates-IsRefreshed}

module _ {F : Type 0} ⦃fl : Float F⦄ (env : Env F) where
  pub data Reached : EdgeProxy F → Type 0 where
    started :
        (load : String → Result Clientset) (consul : String) (local : Clientset)
        (kubeconfigs : Map String String) (duration : ℤ) (node_ip kind_ip : String) (h k : History)
        (ep : EdgeProxy F)
        → new_edge_proxy env load consul local kubeconfigs duration node_ip kind_ip h
          ≡ done (ok ep) k
        → Reached ep
    refreshed_at :
        (ep p : EdgeProxy F) (service : String) (h k : History)
        → Reached ep
        → refresh_candidates env ep service h ≡ done p k
        → Reached p
    invalidated :
        (ep : EdgeProxy F) (service : String) → Reached ep → Reached (invalidate_cache ep service)

  -- Whatever the proxy holds for a service can be forwarded to.
  abbrev pub IsSound : EdgeProxy F → Type 0
  IsSound ep =
      (service : String) (c : CachedForwardCandidates F)
      → Map.lookup service ep.store ≡ some c
      → (c.candidates ≢ []) × AllOffered env ep service c.candidates

  start-store :
      (load : String → Result Clientset) (consul : String) (local : Clientset)
      (kubeconfigs : Map String String) (duration : ℤ) (node_ip kind_ip : String) (h k : History)
      (ep : EdgeProxy F)
      → new_edge_proxy env load consul local kubeconfigs duration node_ip kind_ip h ≡ done (ok ep) k
      → ep.store ≡ []
  unfolding new_edge_proxy edge_proxy_with
  start-store load consul local kubeconfigs duration node_ip kind_ip h k ep e = ground arith

  refresh_keeps :
      (ep p : EdgeProxy F) (service : String)
      → IsSound ep
      → IsRefreshed env ep service p
      → IsSound p
  refresh_keeps ep p service sound (inl (ts, filled, offered, e)) =
      subst IsSound (sym e) (λ s c known. elim (Bool-cases (service == s)) [
        | inl same ↦
            let q : fresh_candidates env ts ≡ c =
              some-injective _ _
                (rw (lookup-insert service s (fresh_candidates env ts) ep.store, same) at known) in
            subst (Holds s) q (
              subst (λ n. Holds n (fresh_candidates env ts))
                ((string_eq.equals_iff service s).0 same) (filled, offered))
        | inr other ↦
            sound s c
              (rw (lookup-insert service s (fresh_candidates env ts) ep.store, other) at known)
      ])
    where
      Holds : String → CachedForwardCandidates F → Type 0
      Holds s c = (c.candidates ≢ []) × AllOffered env ep s c.candidates
  refresh_keeps ep p service sound (inr (c, e)) = subst IsSound (sym e) sound

  -- In every state that the proxy reaches from its start, by refreshes and invalidations in any
  -- order, the candidates that it holds for a service are not empty, and each is a pod of that
  -- service that one of its clusters listed, at the address that it is reached at, with the inverse
  -- of a latency that the database gave as its weight.
  pub Reached-IsSound : (ep : EdgeProxy F) → Reached ep → IsSound ep
  unfolding invalidate_cache Map.lookup
  Reached-IsSound ep (started load consul local kubeconfigs duration node_ip kind_ip h k _ e) =
      λ s c known.
        let never : none ≡ some c =
          rw (start-store load consul local kubeconfigs duration node_ip kind_ip h k ep e) at
            known in
        cc
  Reached-IsSound p (refreshed_at ep _ service h k r e) =
      refresh_keeps ep p service (Reached-IsSound ep r) (
        (subst (λ o. Returns o (λ q j. (writes j ≡ writes h) × IsRefreshed env ep service q)) e
          (refresh_candidates-IsRefreshed env ep service h)).1)
  Reached-IsSound _ (invalidated ep service r) = Reached-IsSound ep r
