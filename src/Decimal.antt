-- ===== src/Decimal.antt =====
-- `%d` of a number that is not negative (`fmt.Sprintf`, of Go's standard library), as the scheduler
-- numbers replicas and the edge proxy writes ports.
use Prim.Native.String
use proxima_scheduler.Prelude.{
  ℕ, zero, suc, ◌/◌, ◌%◌, ◌<◌, ◌≡◌, refl, String, ◌==◌, nat_eq, if◌then◌else◌, ltb, arith,
  Bool-cases, inl, inr,
}

abbrev digit : ℕ → String
digit n =
    if n == 0
    then "0"
    else if n == 1
    then "1"
    else if n == 2
    then "2"
    else if n == 3
    then "3"
    else if n == 4
    then "4"
    else if n == 5
    then "5"
    else if n == 6
    then "6"
    else if n == 7
    then "7"
    else if n == 8
    then "8"
    else "9"

-- On fuel: the last digit after those of the tenth part.
unfoldable pub decimal_on : ℕ → ℕ → String
decimal_on zero n = ""
decimal_on (suc fuel) n =
    let rest = decimal_on fuel (n / 10) in
    if ltb n 10 then digit n else String.◌++◌ rest (digit (n % 10))

unfoldable pub decimal : ℕ → String
decimal n = decimal_on (suc n) n

-- More fuel than the number changes nothing, so that its successor is enough.
pub decimal_on_fuel : (fuel n : ℕ) → n < fuel → decimal_on fuel n ≡ decimal_on (suc fuel) n
unfolding decimal_on
decimal_on_fuel zero n h = ground arith
decimal_on_fuel (suc fuel) n h = elim (Bool-cases (ltb n 10)) [
  | inl small ↦ rw small refl
  | inr large ↦
      let less : n / 10 < fuel = ground arith in rw (large, decimal_on_fuel fuel (n / 10) less) refl
]
