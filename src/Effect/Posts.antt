-- ===== src/Effect/Posts.antt =====
-- Postconditions of computations, with rules for their composition and for loops, and what the
-- program asks a cluster to change.
use proxima_scheduler.Prelude.{
  List, [], ◌∷◌, ◌++◌, ◌≡◌, refl, sym, ap, subst, ◌∙◌, In, All, inl, inr,
}
use proxima_scheduler.Effect.{
  Outcome, done, panic, M, History, Call, nodes_listed, node_read, pods_listed, service_read,
  pod_created, pod_deleted, pod_bound, database_read, clock_read, random_read, digest_read,
  and_then, loop,
}

-- The computation ends, without a panic, in a state of which `P` holds.
abbrev pub Returns {ℓ} : {A : Type ℓ} → Outcome A → (A → History → Type 0) → Type 0
Returns (done a h) P = P a h
Returns (panic h) P = ⊥

module _ {ℓ κ} {A : Type ℓ} {B : Type κ} where
  pub Returns-and_then :
      (o : Outcome A) (f : A → History → Outcome B) (P : A → History → Type 0)
      (Q : B → History → Type 0)
      → Returns o P
      → ((a : A) (h : History) → P a h → Returns (f a h) Q)
      → Returns (and_then o f) Q
  Returns-and_then (done a h) f P Q p k = k a h p
  Returns-and_then (panic h) f P Q p k = absurd p

module _ {ℓ} {A : Type ℓ} where
  pub Returns_mono :
      (o : Outcome A) (P Q : A → History → Type 0)
      → Returns o P
      → ((a : A) (h : History) → P a h → Q a h)
      → Returns o Q
  Returns_mono (done a h) P Q p k = k a h p
  Returns_mono (panic h) P Q p k = absurd p

  pub Returns_both :
      (o : Outcome A) (P Q : A → History → Type 0)
      → Returns o P
      → Returns o Q
      → Returns o (λ a h. P a h × Q a h)
  Returns_both (done a h) P Q p q = (p, q)
  Returns_both (panic h) P Q p q = p

  pub Returns_all :
      {I : Type 0} (o : Outcome A) (P : I → A → History → Type 0) (Q : I → Type 0)
      → Returns o (λ a h. Unit {0})
      → ((i : I) → Q i → Returns o (P i))
      → Returns o (λ a h. (i : I) → Q i → P i a h)
  Returns_all (done a h) P Q t p = p
  Returns_all (panic h) P Q t p = t

-- What each round keeps, the loop keeps.
pub loop-Returns {κ} :
    {A : Type 0} {S : Type κ} (body : A → S → M S) (I : S → History → Type 0) (xs : List A)
    → ((x : A) → In x xs → (s : S) (h : History) → I s h → Returns (body x s h) I)
    → (s : S) (h : History) → I s h
    → Returns (loop body xs s h) I
unfolding loop
loop-Returns body I [] keep s h i = i
loop-Returns body I (x ∷ xs) keep s h i =
    Returns-and_then (body x s h) (loop body xs) I I (keep x (inl refl) s h i)
      (loop-Returns body I xs (λ y m. keep y (inr m)))

-- What the round at `x` brings about, and no round destroys, holds after the loop.
pub loop_reaches {κ} :
    {A : Type 0} {S : Type κ} (body : A → S → M S) (I P : S → History → Type 0) (xs : List A)
    (x : A)
    → In x xs
    → ((y : A) → In y xs → (s : S) (h : History) → I s h → Returns (body y s h) I)
    → ((s : S) (h : History) → I s h → Returns (body x s h) P)
    → ((y : A) → In y xs → (s : S) (h : History) → I s h → P s h → Returns (body y s h) P)
    → (s : S) (h : History) → I s h
    → Returns (loop body xs s h) P
unfolding loop
loop_reaches body I P [] x m keep hit stay s h i = absurd m
loop_reaches {A} {S} body I P (z ∷ xs) x m keep hit stay s h i = elim m [
  | inl e ↦
      let hit_z : Returns (body z s h) P =
        subst (λ y. Returns (body y s h) P) (sym e) (hit s h i) in
      Returns-and_then (body z s h) (loop body xs) Both P
        (Returns_both (body z s h) I P (keep z (inl refl) s h i) hit_z)
        (λ s' h' b.
          Returns_mono (loop body xs s' h') Both P
            (loop-Returns body Both xs
              (λ y n t k c.
                Returns_both (body y t k) I P (keep y (inr n) t k c.0) (stay y (inr n) t k c.0 c.1))
              s' h' b)
            (λ t k c. c.1))
  | inr n ↦
      Returns-and_then (body z s h) (loop body xs) I P (keep z (inl refl) s h i)
        (loop_reaches body I P xs x n (λ y q. keep y (inr q)) hit (λ y q. stay y (inr q)))
]
  where
    Both : S → History → Type 0
    Both t k = I t k × P t k

-- The calls that ask a cluster for a change, newest first.
unfoldable pub writes : History → History
writes [] = []
writes (pod_created c ns pod b ∷ h) = pod_created c ns pod b ∷ writes h
writes (pod_deleted c ns name b ∷ h) = pod_deleted c ns name b ∷ writes h
writes (pod_bound c ns name uid node b ∷ h) = pod_bound c ns name uid node b ∷ writes h
writes (nodes_listed c sel ∷ h) = writes h
writes (node_read c name ∷ h) = writes h
writes (pods_listed c ns sel ∷ h) = writes h
writes (service_read c ns name ∷ h) = writes h
writes (database_read ∷ h) = writes h
writes (clock_read ∷ h) = writes h
writes (random_read ∷ h) = writes h
writes (digest_read ∷ h) = writes h

-- It changes no cluster, whatever it answers.
abbrev pub Quiet {ℓ} : {A : Type ℓ} → History → A → History → Type 0
Quiet h₀ a h = writes h ≡ writes h₀

pub and_then-Quiet {ℓ κ} :
    {A : Type ℓ} {B : Type κ} (o : Outcome A) (f : A → History → Outcome B) (h₀ : History)
    → Returns o (Quiet h₀)
    → ((a : A) (h : History) → Returns (f a h) (Quiet h))
    → Returns (and_then o f) (Quiet h₀)
and_then-Quiet o f h₀ q k =
    Returns-and_then o f (Quiet h₀) (Quiet h₀) q
      (λ a h e. Returns_mono (f a h) (Quiet h) (Quiet h₀) (k a h) (λ b h' e'. e' ∙ e))

pub loop-Quiet {κ} :
    {A : Type 0} {S : Type κ} (body : A → S → M S) (xs : List A)
    → ((x : A) → In x xs → (s : S) (h : History) → Returns (body x s h) (Quiet h))
    → (s : S) (h : History) → Returns (loop body xs s h) (Quiet h)
loop-Quiet body xs quiet s h =
    loop-Returns body (Quiet h) xs
      (λ x m t k e.
        Returns_mono (body x t k) (Quiet k) (Quiet h) (quiet x m t k) (λ b h' e'. e' ∙ e))
      s h refl

pub append_assoc : (xs ys zs : List Call) → (xs ++ ys) ++ zs ≡ xs ++ (ys ++ zs)
append_assoc [] ys zs = refl
append_assoc (x ∷ xs) ys zs = ap (◌∷◌ x) (append_assoc xs ys zs)

pub All-append : (P : Call → Type 0) (xs ys : List Call) → All P xs → All P ys → All P (xs ++ ys)
All-append P [] ys p q = q
All-append P (x ∷ xs) ys p q = (p.0, All-append P xs ys p.1 q)

-- Some calls were made, each of which is one of those.
abbrev pub Adds : (Call → Type 0) → History → History → Type 0
Adds P before after = (calls : List Call) × (after ≡ calls ++ before) × All P calls

pub Adds-again : (P : Call → Type 0) (a b c : History) → Adds P a b → Adds P b c → Adds P a c
Adds-again P a b c (xs, e, p) (ys, f, q) =
    (ys ++ xs, f ∙ ap (◌++◌ ys) e ∙ sym (append_assoc ys xs a), All-append P ys xs q p)

pub All-weaken :
    (P Q : Call → Type 0) (xs : List Call) → ((x : Call) → P x → Q x) → All P xs → All Q xs
All-weaken P Q [] f p = tt
All-weaken P Q (x ∷ xs) f p = (f x p.0, All-weaken P Q xs f p.1)

pub Adds-weaken :
    (P Q : Call → Type 0) (a b : History) → ((x : Call) → P x → Q x) → Adds P a b → Adds Q a b
Adds-weaken P Q a b f (xs, e, p) = (xs, e, All-weaken P Q xs f p)
