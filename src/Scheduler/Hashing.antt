-- ===== src/Scheduler/Hashing.antt =====
-- proxima-scheduler/scheduler/scheduler.go: withNewHashedName, which replaces the suffix of eight
-- hexadecimal digits in a pod's name.
use Prim.Native.Char.{Char, code}
use Prim.Native.String
use text.Mathlib.TextLemmas.{nil-append, cons-append}
use proxima_scheduler.Prelude.{
  ℕ, zero, suc, ◌<◌, ◌≡◌, refl, ap, ◌∙◌, String, Bool, true, false, ◌&&◌, ◌||◌, List, [], ◌∷◌, leb,
  nat_beq, if◌then◌else◌, arith, length,
}
use proxima_scheduler.Strconv.{codes}
use proxima_scheduler.Effect.{Env, M, History, digest, ◌>>=◌, return}
use proxima_scheduler.Effect.Posts.{Returns, writes}

unfoldable pub is_hex : ℕ → Bool
is_hex c = (leb b'0' c && leb c b'9') || (leb b'a' c && leb c b'f')

-- Exactly that many hexadecimal digits.
unfoldable pub hex_run : ℕ → List ℕ → Bool
unfolding is_hex
hex_run zero [] = true
hex_run zero (c ∷ cs) = false
hex_run (suc n) [] = false
hex_run (suc n) (c ∷ cs) = is_hex c && hex_run n cs

-- A match of `-[a-f0-9]{8}$` at the start of a text.
unfoldable pub is_suffix : List ℕ → Bool
unfolding hex_run
is_suffix [] = false
is_suffix (c ∷ cs) = nat_beq c b'-' && hex_run 8 cs

-- `hashSuffix.ReplaceAllString(podName, "")`
unfoldable pub strip_hash : String → String
unfolding is_suffix
strip_hash String.[] = String.[]
strip_hash (String.◌∷◌ c s) =
    let rest = strip_hash s in
    if is_suffix (codes (String.◌∷◌ c s)) then String.[] else String.◌∷◌ c rest

-- The first characters of a text, or all of a shorter one.
unfoldable pub prefix : ℕ → String → String
prefix zero s = String.[]
prefix (suc n) String.[] = String.[]
prefix (suc n) (String.◌∷◌ c s) = String.◌∷◌ c (prefix n s)

abbrev pub join_hash : String → String → String
join_hash base hash = String.◌++◌ base (String.◌++◌ "-" hash)

module _ {F : Type 0} (env : Env F) where
  -- `hex.EncodeToString(sum)[:8]`, of the SHA-1 of the name and the time
  unfoldable pub calculate_new_hash : String → M String
  calculate_new_hash name = do sum ← digest env name; return (prefix 8 sum)

  unfoldable pub with_new_hashed_name : String → M String
  with_new_hashed_name name = do
    hash ← calculate_new_hash (strip_hash name)
    return (join_hash (strip_hash name) hash)

length-hex_run : (n : ℕ) (cs : List ℕ) → hex_run n cs ≡ true → length cs ≡ n
unfolding hex_run
length-hex_run zero [] h = refl
length-hex_run zero (c ∷ cs) h = cc
length-hex_run (suc n) [] h = cc
length-hex_run (suc n) (c ∷ cs) h = ground (arith, length-hex_run n cs)

is_suffix_long : (cs : List ℕ) → 9 < length cs → is_suffix cs ≡ false
unfolding is_suffix
is_suffix_long [] h = refl
is_suffix_long (c ∷ cs) h = ground (arith, length-hex_run 8 cs)

abbrev dash : Char
dash = "-"

join-cons :
    (c : Char) (base hash : String)
    → join_hash (String.◌∷◌ c base) hash ≡ String.◌∷◌ c (join_hash base hash)
join-cons c base hash = cons-append c base _

join-nil : (hash : String) → join_hash String.[] hash ≡ String.◌∷◌ dash hash
join-nil hash =
    nil-append _ ∙ cons-append dash String.[] hash ∙ ap (String.◌∷◌ dash) (nil-append hash)

-- A match of the suffix does not fit before the end.
length-join : (base hash : String) → length (codes hash) < length (codes (join_hash base hash))
length-join String.[] hash = rw (join-nil hash) (omega arith)
length-join (String.◌∷◌ c base) hash =
    rw (join-cons c base hash) (omega (arith, length-join base hash))

strip_hash-cons :
    (c : Char) (s : String)
    → is_suffix (code c ∷ codes s) ≡ false
    → strip_hash (String.◌∷◌ c s) ≡ String.◌∷◌ c (strip_hash s)
unfolding strip_hash
strip_hash-cons c s h = rw h

-- The suffix that a new name gets is the one that the next new name drops: stripping a name with
-- eight hexadecimal digits after a dash gives back what stands before the dash.
pub strip_hash-join :
    (base hash : String) → hex_run 8 (codes hash) ≡ true → strip_hash (join_hash base hash) ≡ base
unfolding strip_hash
strip_hash-join String.[] hash h = rw (join-nil hash) (ground arith)
strip_hash-join (String.◌∷◌ c base) hash h = rw (join-cons c base hash) (
    strip_hash-cons c (join_hash base hash) (
      is_suffix_long (code c ∷ codes (join_hash base hash))
        (omega (arith, length-join base hash, length-hex_run 8 (codes hash) h)))
    ∙ ap (String.◌∷◌ c) (strip_hash-join base hash h))

-- A digest in hexadecimal has at least eight digits.
abbrev pub IsHexadecimal : {F : Type 0} → Env F → Type 0
IsHexadecimal env =
    (h : History) (name : String) → hex_run 8 (codes (prefix 8 (env.digest h name))) ≡ true

-- If digests are hexadecimal, a new name keeps what its pod's name is without its suffix, however
-- often the pod was renamed before, and making it changes no cluster.
pub strip_hash-with_new_hashed_name :
    {F : Type 0} (env : Env F) (name : String) (h : History)
    → IsHexadecimal env
    → Returns
        (with_new_hashed_name env name h)
        (λ new k. (writes k ≡ writes h) × (strip_hash new ≡ strip_hash name))
unfolding with_new_hashed_name calculate_new_hash digest writes
strip_hash-with_new_hashed_name env name h hex =
    (refl, strip_hash-join (strip_hash name) _ (hex h (strip_hash name)))
