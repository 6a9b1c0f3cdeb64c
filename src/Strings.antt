-- ===== src/Strings.antt =====
-- `strings.Split` and `strings.Join` of Go's standard library, as the edge proxy
-- calls them on paths and the configuration on lists. A separator is one character.
use Prim.Native.Char.{Char, code}
use Prim.Native.String
use text.Mathlib.TextEquality.{Char-path}
use text.Mathlib.TextLemmas.{nil-append, cons-append, append-nil}
use proxima_scheduler.Prelude.{
  ◌≡◌, refl, sym, ap, ◌∙◌, String, true, false, List, [], ◌∷◌, nat_beq, nat_beq_iff, if◌then◌else◌,
  All, Bool-cases, inl, inr,
}

infixr 65 ◌<>◌
abbrev pub ◌<>◌ : String → String → String
s <> t = String.◌++◌ s t

-- A character before the first of the parts.
unfoldable pub prepend : Char → List String → List String
prepend c [] = String.◌∷◌ c String.[] ∷ []
prepend c (part ∷ parts) = String.◌∷◌ c part ∷ parts

unfoldable pub split : Char → String → List String
unfolding prepend
split sep String.[] = String.[] ∷ []
split sep (String.◌∷◌ c s) =
    let rest = split sep s in
    if nat_beq (code c) (code sep) then String.[] ∷ rest else prepend c rest

-- The parts that follow the first one, each after a separator.
unfoldable pub join_rest : Char → List String → String
join_rest sep [] = String.[]
join_rest sep (part ∷ parts) = String.◌∷◌ sep (part <> join_rest sep parts)

unfoldable pub join : Char → List String → String
unfolding join_rest
join sep [] = String.[]
join sep (part ∷ parts) = part <> join_rest sep parts

-- The text does not contain the character.
abbrev pub IsFree : Char → String → Type 0
IsFree sep String.[] = Unit
IsFree sep (String.◌∷◌ c s) = (nat_beq (code c) (code sep) ≡ false) × IsFree sep s

-- A text is split into at least one part.
pub split_cases :
    (sep : Char) (s : String)
    → (part : String) × (parts : List String) × (split sep s ≡ part ∷ parts)
unfolding split
split_cases sep String.[] = (String.[], [], refl)
split_cases sep (String.◌∷◌ c s) = elim (Bool-cases (nat_beq (code c) (code sep))) [
  | inl at_sep ↦ (String.[], split sep s, rw at_sep)
  | inr inside ↦
      let (part, parts, e) = split_cases sep s in (String.◌∷◌ c part, parts, rw (inside, e) refl)
]

-- No part contains the separator.
pub split-IsFree : (sep : Char) (s : String) → All (IsFree sep) (split sep s)
unfolding split
split-IsFree sep String.[] = (tt, tt)
split-IsFree sep (String.◌∷◌ c s) = elim (Bool-cases (nat_beq (code c) (code sep))) [
  | inl at_sep ↦ rw at_sep (tt, split-IsFree sep s)
  | inr inside ↦
      let (part, parts, e) = split_cases sep s in
      let (free, rest) = rw e at (split-IsFree sep s) in rw (inside, e) ((inside, free), rest)
]

join_rest-split :
    (sep : Char) (s : String)
    → join_rest sep (split sep s) ≡ String.◌∷◌ sep (join sep (split sep s))
unfolding join join_rest
join_rest-split sep s = let (part, parts, e) = split_cases sep s in rw e refl

join-prepend :
    (sep c : Char) (parts : List String)
    → join sep (prepend c parts) ≡ String.◌∷◌ c (join sep parts)
unfolding prepend join
join-prepend sep c [] = append-nil _
join-prepend sep c (part ∷ parts) = cons-append c part (join_rest sep parts)

-- Joining the parts of a text gives back the text.
pub join-split : (sep : Char) (s : String) → join sep (split sep s) ≡ s
unfolding split join
join-split sep String.[] = nil-append _
join-split sep (String.◌∷◌ c s) = elim (Bool-cases (nat_beq (code c) (code sep))) [
  | inl at_sep ↦ rw at_sep (
      nil-append (join_rest sep (split sep s))
      ∙ join_rest-split sep s
      ∙ ap (String.◌∷◌ sep) (join-split sep s)
      ∙ ap (λ d. String.◌∷◌ d s)
          (sym (Char-path c sep ((nat_beq_iff (code c) (code sep)).0 at_sep))))
  | inr inside ↦ rw inside (join-prepend sep c (split sep s) ∙ ap (String.◌∷◌ c) (join-split sep s))
]

-- A text before a separator is the first part.
pub split-append :
    (sep : Char) (s t : String)
    → IsFree sep s
    → nat_beq (code sep) (code sep) ≡ true
    → split sep (s <> String.◌∷◌ sep t) ≡ s ∷ split sep t
unfolding split
split-append sep String.[] t free same = rw (nil-append (String.◌∷◌ sep t), same, split) refl
split-append sep (String.◌∷◌ c s) t free same =
    rw (cons-append c s (String.◌∷◌ sep t), split, free.0, split-append sep s t free.1 same) refl

-- A text without the separator is its only part.
split-free : (sep : Char) (s : String) → IsFree sep s → split sep s ≡ s ∷ []
unfolding split
split-free sep String.[] free = refl
split-free sep (String.◌∷◌ c s) free = rw (free.0, split-free sep s free.1) refl

-- Splitting what was joined from parts without the separator gives back the parts.
pub split-join :
    (sep : Char) (part : String) (parts : List String)
    → nat_beq (code sep) (code sep) ≡ true
    → IsFree sep part
    → All (IsFree sep) parts
    → split sep (join sep (part ∷ parts)) ≡ part ∷ parts
unfolding join join_rest
split-join sep part [] same free all = ap (split sep) (append-nil part) ∙ split-free sep part free
split-join sep part (next ∷ parts) same free all =
    split-append sep part (next <> join_rest sep parts) free same
    ∙ ap (◌∷◌ part) (split-join sep next parts same all.0 all.1)
