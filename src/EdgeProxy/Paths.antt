-- ===== src/EdgeProxy/Paths.antt =====
-- The paths of requests on their way from a client to a pod, over one proxy or over two.
use Prim.Native.Char.{Char}
use text.Mathlib.TextLemmas.{nil-append, cons-append}
use mathlib.Core.Option.{some-injective}
use proxima_scheduler.Prelude.{
  ◌≡◌, refl, ap, ◌∙◌, subst, String, Option, none, some, List, [], ◌∷◌, ◌==◌, string_eq,
  if◌then◌else◌, Bool-cases, inl, inr,
}
use proxima_scheduler.Strings.{
  ◌<>◌, split, join, IsFree, split-IsFree, join-split, split-append, split_cases,
}

abbrev pub slash : Char
slash = "/"

-- The service of a request: `parts[1]`, where it is not empty.
unfoldable pub service_in : List String → Option String
service_in [] = none
service_in (first ∷ []) = none
service_in (first ∷ service ∷ rest) = if service == "" then none else some service

unfoldable pub service_of : String → Option String
unfolding service_in
service_of path = service_in (split slash path)

-- The path that the director leaves, `"/" + strings.Join(parts[2:], "/")`.
unfoldable pub path_in : List String → String
path_in [] = "/"
path_in (first ∷ []) = "/"
path_in (first ∷ service ∷ rest) = String.◌∷◌ slash (join slash rest)

unfoldable pub director_path : String → String
unfolding path_in
director_path path = path_in (split slash path)

-- The path for the proxy of another cluster.
unfoldable pub forward_path : String → String → String
forward_path service path = "/" <> service <> path

split-slash : (s : String) → split slash (String.◌∷◌ slash s) ≡ String.[] ∷ split slash s
unfolding split
split-slash s = refl

slash_append : (s : String) → "/" <> s ≡ String.◌∷◌ slash s
slash_append s = cons-append slash String.[] s ∙ ap (String.◌∷◌ slash) (nil-append s)

-- A path under a service that contains no slash reaches the pod without the service.
director_path-service :
    (service rest : String)
    → IsFree slash service
    → director_path ("/" <> service <> String.◌∷◌ slash rest) ≡ String.◌∷◌ slash rest
unfolding director_path
director_path-service service rest free =
    rw
      (
        slash_append (service <> String.◌∷◌ slash rest),
        split-slash,
        split-append slash service rest free refl,
      )
      (ap (String.◌∷◌ slash) (join-split slash rest))

service_of-IsFree :
    (rest service : String)
    → service_of (String.◌∷◌ slash rest) ≡ some service
    → IsFree slash service
unfolding service_of service_in
service_of-IsFree rest service e =
    let (part, parts, shape) = split_cases slash rest in
    let free : IsFree slash part = (rw shape at (split-IsFree slash rest)).0 in
    let chosen : service_in (String.[] ∷ part ∷ parts) ≡ some service =
      rw (split-slash, shape) at e in
    elim (Bool-cases (part == "")) [
      | inl empty ↦ cc (rw empty at chosen)
      | inr named ↦ subst (IsFree slash) (some-injective _ _ (rw named at chosen)) free
    ]

-- The proxy of another cluster undoes what the first proxy did to the path: what it sees of a request
-- to a service is the path that the client sent.
pub director_path-forward_path :
    (rest service : String)
    → service_of (String.◌∷◌ slash rest) ≡ some service
    → director_path (forward_path service (String.◌∷◌ slash rest)) ≡ String.◌∷◌ slash rest
unfolding forward_path
director_path-forward_path rest service e =
    director_path-service service rest (service_of-IsFree rest service e)
