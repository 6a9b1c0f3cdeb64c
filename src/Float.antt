-- ===== src/Float.antt =====
-- `float64` as the program uses it: an abstract type with the operators, conversions and literals
-- that occur in the code, and the laws of IEEE arithmetic that the proofs rely on. `Micro` is a
-- fixed-point type that meets them.
use proxima_scheduler.Prelude.{ℕ, ◌+◌, ◌*◌, ◌/◌, ◌^◌, ◌≡◌, Bool, true, false, arith, leb, nat_beq}
use proxima_scheduler.Prelude.Int.{ℤ, pos, negsuc, pos_part, neg_part, ◌+ℤ◌, ◌-ℤ◌, ltb_ℤ, ◌*ℤ◌}

pub record Float (F : Type 0) : Type 0 where
  -- `<`, `<=` and `==`; `a > b` is `lt b a`.
  pub lt : F → F → Bool
  pub le : F → F → Bool
  pub eq : F → F → Bool
  pub add : F → F → F
  pub sub : F → F → F
  pub mul : F → F → F
  pub div : F → F → F
  pub exp : F → F
  pub neg : F → F
  -- `float64(n)`, and the conversion to `int64` or `time.Duration`.
  pub of_int : ℤ → F
  pub to_int : F → ℤ
  -- The literal m * 10^-k: `literal 12 1` is 1.2.
  pub literal : ℕ → ℕ → F
  -- math.MaxFloat64
  pub max_float : F

-- Laws that hold with NaN and infinities among the values too.
pub record IsOrdered (F : Type 0) ⦃fl : Float F⦄ : Type 0 where
  pub lt_irrefl : (x : F) → fl.lt x x ≡ false
  pub lt_trans : (x y z : F) → fl.lt x y ≡ true → fl.lt y z ≡ true → fl.lt x z ≡ true

-- Millionths, as integers.
pub record Micro : Type 0 where
  pub units : ℤ

abbrev pub micro : ℤ → Micro
micro n = record { units = n }

-- The quotient of integers, rounded towards zero; 0 for a divisor 0.
abbrev pub quot_ℤ : ℤ → ℤ → ℤ
quot_ℤ (pos a) (pos b) = pos (a / b)
quot_ℤ (pos a) (negsuc b) = pos 0 -ℤ pos (a / (b + 1))
quot_ℤ (negsuc a) (pos b) = pos 0 -ℤ pos ((a + 1) / b)
quot_ℤ (negsuc a) (negsuc b) = pos ((a + 1) / (b + 1))

abbrev pub eqb_ℤ : ℤ → ℤ → Bool
eqb_ℤ a b = nat_beq (pos_part a + neg_part b) (pos_part b + neg_part a)

abbrev pub leb_ℤ : ℤ → ℤ → Bool
leb_ℤ a b = leb (pos_part a + neg_part b) (pos_part b + neg_part a)

-- A rising, positive stand-in for the exponential function.
abbrev pub exp_units : ℤ → ℤ
exp_units (pos a) = pos (10 ^ 6 + a)
exp_units (negsuc a) = pos (10 ^ 12 / (10 ^ 6 + a + 1))

instance abbrev pub micro_float : Float Micro
unfolding ◌+ℤ◌ ◌-ℤ◌ ◌*ℤ◌
micro_float = record {
  lt = λ a b. ltb_ℤ a.units b.units;
  le = λ a b. leb_ℤ a.units b.units;
  eq = λ a b. eqb_ℤ a.units b.units;
  add = λ a b. micro (a.units +ℤ b.units);
  sub = λ a b. micro (a.units -ℤ b.units);
  mul = λ a b. micro (quot_ℤ (a.units *ℤ b.units) (pos (10 ^ 6)));
  div = λ a b. micro (quot_ℤ (a.units *ℤ pos (10 ^ 6)) b.units);
  exp = λ a. micro (exp_units a.units);
  neg = λ a. micro (pos 0 -ℤ a.units);
  of_int = λ n. micro (n *ℤ pos (10 ^ 6));
  to_int = λ a. quot_ℤ a.units (pos (10 ^ 6));
  literal = λ m k. micro (pos (m * 10 ^ 6 / 10 ^ k));
  max_float = micro (pos (10 ^ 30));
}

pub Micro-IsOrdered : IsOrdered Micro
unfolding micro_float ◌+ℤ◌ ◌-ℤ◌ ◌*ℤ◌
Micro-IsOrdered = record { lt_irrefl = λ x. ground arith; lt_trans = λ x y z p q. ground arith }

pub micro_positive :
    (n : ℕ) → micro_float.le (micro (pos (n + 1))) (micro_float.literal 0 0) ≡ false
unfolding micro_float ◌+ℤ◌ ◌-ℤ◌ ◌*ℤ◌
micro_positive n = ground arith
