-- ===== src/Strconv.antt =====
-- `strconv.ParseInt(s, 10, 64)` and `strconv.Atoi`, of Go's standard library, as the scheduler calls
-- them on annotations (scheduler/scheduler.go), on the characters of the text.
use Prim.Native.Char.{code}
use Prim.Native.String.{String}
use proxima_scheduler.Prelude.{
  ℕ, zero, suc, ◌+◌, ◌-◌, ◌*◌, ◌^◌, ◌≡◌, refl, ◌&&◌, List, [], ◌∷◌, ltb, leb, nat_beq,
  if◌then◌else◌,
}
use proxima_scheduler.Prelude.Int.{ℤ, pos, negsuc}

-- What `ParseInt` returns: a value with no error, `ErrSyntax` beside 0, or `ErrRange` beside the
-- nearest value of the type.
pub data Parsed : Type 0 where
  value : ℤ → Parsed
  syntax_error : Parsed
  range_error : ℤ → Parsed

pub data Magnitude : Type 0 where
  number : ℕ → Magnitude
  syntax : Magnitude
  range : Magnitude

abbrev pub codes : String → List ℕ
codes (String.◌∷◌ first rest) = code first ∷ codes rest
codes String.[] = []

-- The loop of `ParseUint`: the first character that is no digit, or the first overflow, ends it.
unfoldable pub parse_digits : List ℕ → ℕ → Magnitude
parse_digits [] n = number n
parse_digits (c ∷ cs) n =
    let rest = parse_digits cs (n * 10 + (c - b'0')) in
    if leb b'0' c && leb c b'9'
    then (if ltb (n * 10 + (c - b'0')) (2 ^ 64) then rest else range)
    else syntax

unfoldable pub parse_uint : List ℕ → Magnitude
unfolding parse_digits
parse_uint [] = syntax
parse_uint (c ∷ cs) = parse_digits (c ∷ cs) 0

-- -n
abbrev pub negate : ℕ → ℤ
negate zero = pos 0
negate (suc n) = negsuc n

unfoldable pub positive : Magnitude → Parsed
positive (number n) = if ltb n (2 ^ 63) then value (pos n) else range_error (pos (2 ^ 63 - 1))
positive syntax = syntax_error
positive range = range_error (pos (2 ^ 63 - 1))

unfoldable pub negative : Magnitude → Parsed
negative (number n) = if leb n (2 ^ 63) then value (negate n) else range_error (negsuc (2 ^ 63 - 1))
negative syntax = syntax_error
negative range = range_error (negsuc (2 ^ 63 - 1))

unfoldable pub parse_codes : List ℕ → Parsed
unfolding parse_uint positive negative
parse_codes [] = syntax_error
parse_codes (c ∷ cs) =
    if nat_beq c b'-'
    then negative (parse_uint cs)
    else (if nat_beq c b'+' then positive (parse_uint cs) else positive (parse_uint (c ∷ cs)))

unfoldable pub parse_int : String → Parsed
unfolding parse_codes
parse_int s = parse_codes (codes s)

parses : parse_int "-250" ≡ value (negsuc 249)
unfolding parse_int
parses = refl
