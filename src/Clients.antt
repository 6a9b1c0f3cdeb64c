-- ===== src/Clients.antt =====
-- The API clients of proxima-scheduler/util/k8s.go: of the cluster that the program runs in, and of
-- the clusters whose kubeconfigs lie in a directory. How client-go reads a configuration and makes a
-- client of it, and what the file system holds, are arguments. Also the HTTP client of
-- proxima-scheduler/util/util.go.
use Prim.Native.Char.{Char}
use proxima_scheduler.Prelude.{
  String, Bool, not, ◌&&◌, ◌||◌, ◌≡◌, refl, sym, ap, ◌∙◌, Option, none, some, List, [], ◌∷◌, ◌==◌,
  string_eq, if◌then◌else◌, arith, inl, inr, Bool-cases,
}
use proxima_scheduler.Kube.{Clientset}
use proxima_scheduler.Map.{Map, lookup-insert, has-lookup, IsUnique, insert-IsUnique}
use proxima_scheduler.Map
use proxima_scheduler.Strings.{split, join}
use proxima_scheduler.Effect.{
  Result, ok, err, Result-cases, Error, home_not_found, config_failed, client_failed,
  certificate_unreadable, certificate_refused,
}

-- What client-go offers, for its configurations `C`.
pub record ClientGo (C : Type 0) : Type 0 where
  pub in_cluster_config : Result C
  pub build_config_from_flags : String → Result C
  pub new_for_config : C → Result Clientset

-- `fmt.Errorf` around another error
unfoldable pub wrapped : {A : Type 0} → Error → Result A → Result A
wrapped e (err cause) = err e
wrapped e (ok a) = ok a

module _ {C : Type 0} (go : ClientGo C) where
  unfoldable pub client_from : Result C → Result Clientset
  client_from (err e) = err config_failed
  client_from (ok config) = wrapped client_failed (go.new_for_config config)

  unfoldable pub get_clientset_for_cluster : String → Result Clientset
  unfolding client_from wrapped
  get_clientset_for_cluster path = client_from (go.build_config_from_flags path)

  -- Outside of a cluster the kubeconfig in the home directory is read; `join_path` is filepath.Join.
  unfoldable pub client_from_home : (List String → String) → String → Result Clientset
  client_from_home join_path home =
      if home == ""
      then err home_not_found
      else client_from (go.build_config_from_flags (join_path (home ∷ ".kube" ∷ "config" ∷ [])))

  unfoldable pub get_in_cluster_clientset : (List String → String) → String → Result Clientset
  get_in_cluster_clientset join_path home = elim go.in_cluster_config [
    | ok config ↦ wrapped client_failed (go.new_for_config config)
    | err e ↦ client_from_home join_path home
  ]

-- The loop over the kubeconfigs, which ends at the first one that gives no client.
unfoldable pub load_clusters :
    (String → Result Clientset)
    → Map String String
    → Map String Clientset
    → Result (Map String Clientset)
load_clusters load [] clusters = ok clusters
load_clusters load ((name, path) ∷ rest) clusters = elim (load path) [
  | err e ↦ err e
  | ok c ↦ load_clusters load rest (Map.insert name c clusters)
]

abbrev pub dot : Char
dot = "."

unfoldable pub without_last : List String → List String
without_last [] = []
without_last (part ∷ []) = []
without_last (part ∷ next ∷ rest) = part ∷ without_last (next ∷ rest)

unfoldable pub stem_of : List String → String
stem_of [] = ""
stem_of (part ∷ []) = part
stem_of (part ∷ next ∷ rest) = join dot (without_last (part ∷ next ∷ rest))

-- The name without its extension, `strings.TrimSuffix(name, filepath.Ext(name))`.
unfoldable pub file_stem : String → String
unfolding stem_of
file_stem name = stem_of (split dot name)

-- An entry of a directory is a name, and whether it is a directory.
unfoldable pub add_kubeconfigs :
    (String → String) → List (String × Bool) → Map String String → Map String String
add_kubeconfigs path_of [] found = found
add_kubeconfigs path_of ((name, is_dir) ∷ rest) found =
    add_kubeconfigs path_of rest (
      if is_dir || name == "..data"
      then found
      else Map.insert (file_stem name) (path_of name) found)

unfoldable pub load_kubeconfigs :
    (List String → String) → String → Result (List (String × Bool)) → Result (Map String String)
load_kubeconfigs join_path dir (err e) = err e
load_kubeconfigs join_path dir (ok files) =
    ok (add_kubeconfigs (λ name. join_path (dir ∷ name ∷ [])) files [])

-- NewHTTPCLient: `append_certs` is a pool of the certificates of a PEM text, if it has some.
unfoldable pub new_http_client :
    {Pool : Type 0} → (String → Result String) → (String → Option Pool) → String → Result Pool
new_http_client read_file append_certs path = elim (read_file path) [
  | err e ↦ err certificate_unreadable
  | ok pem ↦ elim (append_certs pem) [ none ↦ err certificate_refused | some pool ↦ ok pool ]
]

abbrev client_of : Result Clientset → Option Clientset
client_of (err e) = none
client_of (ok c) = some c

-- The client of a cluster, from its kubeconfig.
abbrev pub loaded : (String → Result Clientset) → Option String → Option Clientset
loaded load none = none
loaded load (some path) = client_of (load path)

pub load_clusters_lem :
    (load : String → Result Clientset) (kubeconfigs : Map String String)
    (before after : Map String Clientset) (n : String)
    → IsUnique kubeconfigs
    → load_clusters load kubeconfigs before ≡ ok after
    → Map.lookup n after ≡ (
        if Map.has n kubeconfigs
        then loaded load (Map.lookup n kubeconfigs)
        else Map.lookup n before)
unfolding load_clusters IsUnique Map.has Map.lookup
load_clusters_lem load [] before after n u e =
    let same : before ≡ after = cc in ap (Map.lookup n) (sym same)
load_clusters_lem load ((name, path) ∷ rest) before after n (fresh, u) e =
    elim (Result-cases (load path)) [
      | inl (x, failed) ↦ cc (rw (load_clusters, failed) at e)
      | inr (c, given) ↦ ground (
        arith,
        given,
        load_clusters_lem load rest (Map.insert name c before) after n u
            (rw (load_clusters, given) at e),
        lookup-insert name n c before,
        has-lookup name rest fresh,
        string_eq.equals_iff name n,
      )
    ]

add_kubeconfigs-IsUnique :
    (path_of : String → String) (files : List (String × Bool)) (m : Map String String)
    → IsUnique m
    → IsUnique (add_kubeconfigs path_of files m)
unfolding add_kubeconfigs
add_kubeconfigs-IsUnique path_of [] m u = u
add_kubeconfigs-IsUnique path_of ((name, is_dir) ∷ rest) m u =
    elim (Bool-cases (is_dir || name == "..data")) [
      | inl skipped ↦ rw skipped (add_kubeconfigs-IsUnique path_of rest m u)
      | inr taken ↦ rw taken (
          add_kubeconfigs-IsUnique path_of rest (Map.insert (file_stem name) (path_of name) m)
            (insert-IsUnique (file_stem name) (path_of name) m u))
    ]

-- The path of the last file with the name, but for its extension.
unfoldable pub last_file :
    (String → String) → String → List (String × Bool) → Option String → Option String
last_file path_of n [] found = found
last_file path_of n ((name, is_dir) ∷ rest) found = last_file path_of n rest (
    if not is_dir && not (name == "..data") && file_stem name == n
    then some (path_of name)
    else found)

add_kubeconfigs_lem :
    (path_of : String → String) (files : List (String × Bool)) (m : Map String String) (n : String)
    → Map.lookup n (add_kubeconfigs path_of files m) ≡ last_file path_of n files (Map.lookup n m)
unfolding add_kubeconfigs last_file
add_kubeconfigs_lem path_of [] m n = refl
add_kubeconfigs_lem path_of ((name, is_dir) ∷ rest) m n =
    let next =
      if is_dir || name == "..data" then m else Map.insert (file_stem name) (path_of name) m in
    add_kubeconfigs_lem path_of rest next n
    ∙ ap (last_file path_of n rest)
        (ground (arith, lookup-insert (file_stem name) n (path_of name) m))

-- The clusters of a directory: one for a name, that of the last file with it.
pub load_kubeconfigs_lem :
    (join_path : List String → String) (dir : String) (files : List (String × Bool))
    → (m : Map String String) × (load_kubeconfigs join_path dir (ok files) ≡ ok m)
      × IsUnique m
      × ((n : String)
          → Map.lookup n m ≡ last_file (λ name. join_path (dir ∷ name ∷ [])) n files none)
unfolding load_kubeconfigs IsUnique Map.lookup
load_kubeconfigs_lem join_path dir files =
    let path_of = λ (name : String). join_path (dir ∷ name ∷ []) in
    (
      add_kubeconfigs path_of files [],
      refl,
      add_kubeconfigs-IsUnique path_of files [] tt,
      λ n. add_kubeconfigs_lem path_of files [] n,
    )
