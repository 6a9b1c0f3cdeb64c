-- ===== src/Scheduler/Enforcing/Replaced.antt =====
-- The replacement of tracked pods that are gone: which names stay tracked, and what is created.
use proxima_scheduler.Prelude.{
  ℕ, ◌+◌, String, Bool, ◌≡◌, inl, inr, refl, sym, ap, ◌∙◌, subst, some, none, List, [], ◌∷◌, ◌++◌,
  string_eq, if◌then◌else◌, arith, length, length-append, All, Bool-cases, Option-cases,
}
use proxima_scheduler.Kube.{Clientset, Pod}
use proxima_scheduler.Map.{Map, lookup-delete, lookup-In}
use proxima_scheduler.Map
use proxima_scheduler.Effect.{Env, History, Call, loop, create_pod, pod_created}
use proxima_scheduler.Effect.Posts.{
  Returns, Returns_mono, Returns-and_then, writes, append_assoc, All-append,
}
use proxima_scheduler.Scheduler.{Scheduler, DesiredApp, DesiredPod}
use proxima_scheduler.Scheduler.Hashing.{
  strip_hash, with_new_hashed_name, IsHexadecimal, strip_hash-with_new_hashed_name,
}
use proxima_scheduler.Scheduler.Placing.{local_client}
use proxima_scheduler.Scheduler.Enforcing.{
  contains, replica, spawn_replica, enforce_name, enforce_names,
}

-- The tracked pods after the loop over some entries, without its calls.
unfoldable pub drop_missing :
    List String → Map String DesiredPod → Map String DesiredPod → Map String DesiredPod
drop_missing found [] pods = pods
drop_missing found ((name, entry) ∷ rest) pods =
    drop_missing found rest (if contains name found then pods else Map.delete name pods)

-- How many of the entries were not found.
unfoldable pub missing : List String → Map String DesiredPod → ℕ
missing found [] = 0
missing found ((name, entry) ∷ rest) = (if contains name found then 0 else 1) + missing found rest

lookup-drop_missing :
    (found : List String) (entries pods : Map String DesiredPod) (name : String)
    → Map.lookup name (drop_missing found entries pods) ≡ (
        if contains name found
        then Map.lookup name pods
        else if Map.has name entries
        then none
        else Map.lookup name pods)
unfolding drop_missing Map.has Map.lookup
lookup-drop_missing found [] pods name = ground arith
lookup-drop_missing found ((n, e) ∷ rest) pods name =
    lookup-drop_missing found rest (if contains n found then pods else Map.delete n pods) name
    ∙ ground (arith, string_eq.equals_iff n name, lookup-delete n name pods)

has_lem :
    (name : String) (pods : Map String DesiredPod)
    → (if Map.has name pods then none else Map.lookup name pods) ≡ none
unfolding Map.has
has_lem name pods = elim (Option-cases (Map.lookup name pods)) [
  | inl gone ↦ rw (Map.has, gone) refl
  | inr (e, there) ↦ rw (Map.has, there) refl
]

module _ (s : Scheduler) (local : Clientset) (namespace : String) (template : Pod) where
  -- The creation of a replica: the template, generated, under a name of the same stem.
  abbrev pub IsReplica : Call → Type 0
  IsReplica call =
      (name : String) × (accepted : Bool) × (strip_hash name ≡ strip_hash template.name)
      × (call ≡ pod_created local namespace (replica template name) accepted)

  -- So many replicas were asked for, and nothing else.
  abbrev pub IsSpawned : ℕ → History → History → Type 0
  IsSpawned n before after =
      (calls : List Call) × (after ≡ calls ++ before) × All IsReplica calls × (length calls ≡ n)

  IsSpawned-again :
      (n m : ℕ) (a b c : History) → IsSpawned n a b → IsSpawned m b c → IsSpawned (n + m) a c
  IsSpawned-again n m a b c (xs, e, all_xs, size_xs) (ys, f, all_ys, size_ys) = (
    ys ++ xs,
    f ∙ ap (◌++◌ ys) e ∙ sym (append_assoc ys xs a),
    All-append IsReplica ys xs all_ys all_xs,
    length-append ys xs ∙ omega (arith, size_xs, size_ys),
  )

module _ {F : Type 0} (env : Env F) (s : Scheduler) (local : Clientset)
    (has_local : local_client s ≡ some local) (hex : IsHexadecimal env) where
  spawn_replica-IsSpawned :
      (desired : DesiredApp) (h : History)
      → Returns
          (spawn_replica env s desired h)
          (λ u k. IsSpawned s local desired.namespace desired.template 1 (writes h) (writes k))
  unfolding spawn_replica create_pod writes
  spawn_replica-IsSpawned desired h =
      Returns-and_then (with_new_hashed_name env desired.template.name h) _
        (λ name k. (writes k ≡ writes h) × (strip_hash name ≡ strip_hash desired.template.name))
        (λ u k. IsSpawned s local desired.namespace desired.template 1 (writes h) (writes k))
        (strip_hash-with_new_hashed_name env desired.template.name h hex)
        (λ name k (quiet, stem).
          let call =
            pod_created local desired.namespace (replica desired.template name)
              (env.accepts_create k local desired.namespace (replica desired.template name)) in
          rw has_local (call ∷ [], ap (◌∷◌ call) quiet, ((name, _, stem, refl), tt), refl))

  enforce_name-IsSpawned :
      (found : List String) (name : String) (entry : DesiredPod) (desired : DesiredApp)
      (h : History)
      → Returns (enforce_name env s found (name, entry) desired h) (λ d k.
        (d ≡ record desired {
          pods_by_name =
              if contains name found
              then desired.pods_by_name
              else Map.delete name desired.pods_by_name;
        })
        × IsSpawned s local desired.namespace desired.template
            (if contains name found then 0 else 1)
            (writes h)
            (writes k))
  unfolding enforce_name
  enforce_name-IsSpawned found name entry desired h = elim (Bool-cases (contains name found)) [
    | inl there ↦ rw there (refl, ([], refl, tt, refl))
    | inr gone ↦
        let left = record desired { pods_by_name = Map.delete name desired.pods_by_name } in
        rw gone (
          Returns-and_then (spawn_replica env s left h) _
            (λ u k. IsSpawned s local left.namespace left.template 1 (writes h) (writes k)) _
            (spawn_replica-IsSpawned left h) (λ u k spawned. (refl, spawned)))
  ]

  -- The application with its pods replaced, after so many creations.
  abbrev IsAfter : DesiredApp → Map String DesiredPod → ℕ → History → DesiredApp → History → Type 0
  IsAfter desired pods n before d k =
      (d ≡ record desired { pods_by_name = pods })
      × IsSpawned s local desired.namespace desired.template n before (writes k)

  abbrev one_less : List String → String → DesiredApp → DesiredApp
  one_less found name desired = record desired {
    pods_by_name =
        if contains name found then desired.pods_by_name else Map.delete name desired.pods_by_name;
  }

  enforce_names_lem :
      (found : List String) (entries : Map String DesiredPod) (desired : DesiredApp) (h : History)
      → Returns (loop (enforce_name env s found) entries desired h) (
          IsAfter desired
            (drop_missing found entries desired.pods_by_name)
            (missing found entries)
            (writes h))
  unfolding loop drop_missing missing
  enforce_names_lem found [] desired h = (refl, ([], refl, tt, refl))
  enforce_names_lem found ((name, entry) ∷ rest) desired h =
      let next = one_less found name desired in
      let End =
        IsAfter desired (drop_missing found rest next.pods_by_name)
          ((if contains name found then 0 else 1) + missing found rest) (writes h) in
      Returns-and_then (enforce_name env s found (name, entry) desired h)
        (loop (enforce_name env s found) rest) _ End
        (enforce_name-IsSpawned found name entry desired h)
        (λ d k (same, spawned).
          subst (λ e. Returns (loop (enforce_name env s found) rest e k) End) (sym same)
            (Returns_mono (loop (enforce_name env s found) rest next k)
              (IsAfter next (drop_missing found rest next.pods_by_name) (missing found rest)
                (writes k))
              End (enforce_names_lem found rest next k)
              (λ e j (same', later). (
                same',
                IsSpawned-again s local desired.namespace desired.template
                    (if contains name found then 0 else 1) (missing found rest) (writes h)
                    (writes k) (writes j) spawned later,
              ))))

  -- The names that stay tracked are those that were found.
  abbrev pub IsEnforced : List String → DesiredApp → DesiredApp → Type 0
  IsEnforced found desired d =
      (d ≡ record desired { pods_by_name = d.pods_by_name })
      × ((name : String)
          → Map.lookup name d.pods_by_name
            ≡ (if contains name found then Map.lookup name desired.pods_by_name else none))

  -- After the replacement of an application's pods, it tracks exactly the names that were tracked and
  -- found, with their entries, and nothing else of it has changed. For each tracked name that was not
  -- found, one creation of a replica is asked for in the local cluster, and nothing else is asked of
  -- a cluster. The replicas are the template, marked as generated, under names with its stem. The
  -- local cluster is known, and digests are hexadecimal. No replica is tracked.
  pub enforce_names-IsEnforced :
      (found : List String) (desired : DesiredApp) (h : History)
      → Returns (enforce_names env s found desired h) (λ d k.
        IsEnforced found desired d
        × IsSpawned s local desired.namespace desired.template
            (missing found desired.pods_by_name)
            (writes h)
            (writes k))
  unfolding enforce_names
  enforce_names-IsEnforced found desired h =
      Returns_mono (enforce_names env s found desired h) _ _
        (enforce_names_lem found desired.pods_by_name desired h)
        (λ d k (same, spawned). (
          (
            same ∙ ap (λ q. record desired { pods_by_name = q.pods_by_name }) (sym same),
            λ name.
                ap (λ q. Map.lookup name q.pods_by_name) same
                ∙ lookup-drop_missing found desired.pods_by_name desired.pods_by_name name
                ∙ rw (has_lem name desired.pods_by_name) refl,
          ),
          spawned,
        ))
