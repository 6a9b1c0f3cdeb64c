-- ===== src/Effect/Ends.antt =====
-- Postconditions of computations that may end in a panic, with rules for their composition and loops.
use proxima_scheduler.Prelude.{List, [], ◌∷◌}
use proxima_scheduler.Effect.{Outcome, done, panic, M, History, and_then, loop}
use proxima_scheduler.Effect.Posts.{Returns}

-- A postcondition of the end of a computation, also where it panics.
abbrev pub Ends {ℓ} :
    {A : Type ℓ} → Outcome A → (A → History → Type 0) → (History → Type 0) → Type 0
Ends (done a h) P Q = P a h
Ends (panic h) P Q = Q h

pub Ends-and_then {ℓ κ} :
    {A : Type ℓ} {B : Type κ} (o : Outcome A) (f : A → History → Outcome B)
    (P : A → History → Type 0) (Q : B → History → Type 0) (R : History → Type 0)
    → Returns o P
    → ((a : A) (h : History) → P a h → Ends (f a h) Q R)
    → Ends (and_then o f) Q R
Ends-and_then (done a h) f P Q R p k = k a h p
Ends-and_then (panic h) f P Q R p k = absurd p

pub Ends_mono {ℓ} :
    {A : Type ℓ} (o : Outcome A) (P : A → History → Type 0) (R : History → Type 0)
    {P' : A → History → Type 0} {R' : History → Type 0}
    → Ends o P R
    → ((a : A) (h : History) → P a h → P' a h)
    → ((h : History) → R h → R' h)
    → Ends o P' R'
Ends_mono (done a h) P R e f g = f a h e
Ends_mono (panic h) P R e f g = g h e

pub Ends-Returns {ℓ} :
    {A : Type ℓ} (o : Outcome A) (P : A → History → Type 0) (R : History → Type 0)
    → Returns o P
    → Ends o P R
Ends-Returns (done a h) P R p = p
Ends-Returns (panic h) P R p = absurd p

pub Ends-then :
    {A B : Type 0} (o : Outcome A) (f : A → History → Outcome B) (P : A → History → Type 0)
    (Q : B → History → Type 0) (R : History → Type 0)
    → Ends o P R
    → ((a : A) (h : History) → P a h → Ends (f a h) Q R)
    → Ends (and_then o f) Q R
Ends-then (done a h) f P Q R e k = k a h e
Ends-then (panic h) f P Q R e k = e

-- What each round keeps, whether or not it panics, the loop keeps.
pub loop-Ends :
    {A S : Type 0} (body : A → S → M S) (I : S → History → Type 0) (R : History → Type 0)
    (xs : List A)
    → ((x : A) (s : S) (h : History) → I s h → Ends (body x s h) I R)
    → (s : S) (h : History) → I s h
    → Ends (loop body xs s h) I R
unfolding loop
loop-Ends body I R [] keep s h i = i
loop-Ends body I R (x ∷ xs) keep s h i =
    Ends-then (body x s h) (loop body xs) I I R (keep x s h i) (loop-Ends body I R xs keep)
