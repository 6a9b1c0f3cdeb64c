-- ===== src/Metrics/Window.antt =====
-- What the ring of a pod stands for: the requests of this minute and of the four before it.
use proxima_scheduler.Prelude.{
  ℕ, zero, suc, ◌+◌, ◌-◌, ◌/◌, ◌%◌, ◌≤◌, ◌<◌, ◌≡◌, refl, sym, ◌∙◌, ap, subst, true, false, Option,
  some, List, arith, ltb, nat_beq, if◌then◌else◌, get_elem?, get_elem?-set, length, Bool-cases,
  Option-cases, inl, inr,
}
use proxima_scheduler.Prelude.Int.{ℤ, pos, negsuc, ltb_ℤ, ◌+ℤ◌, ◌-ℤ◌, wrap64, sub_time}
use proxima_scheduler.Metrics.{
  ProxyPodMetrics, five_zeros, fresh, next_bucket, shift, rounds, minutes, catch_up, add_at,
  count_request,
}
use proxima_scheduler.Metrics.Ring.{IsRing, catch_up-IsRing, emptied, ahead, shift-emptied}

-- The requests of a minute and the sum of their latencies.
pub record Minute : Type 0 where
  pub requests : ℤ
  pub latency : ℤ

-- A window: the minute that many minutes ago.
abbrev pub Window : Type 0
Window = ℕ → Minute

abbrev pub elapse : ℕ → Window → Window
elapse k w age = record {
  requests = (if ltb age k then pos 0 else (w (age - k)).requests);
  latency = (if ltb age k then pos 0 else (w (age - k)).latency);
}

abbrev pub note : ℤ → Window → Window
note latency w age = record {
  requests = (if nat_beq age 0 then wrap64 ((w age).requests +ℤ pos 1) else (w age).requests);
  latency = (if nat_beq age 0 then wrap64 ((w age).latency +ℤ latency) else (w age).latency);
}

-- The bucket of a minute.
abbrev pub slot : ProxyPodMetrics → ℕ → ℕ
slot m age = (m.current_index + 5 - age) % 5

-- The ring holds the window.
abbrev pub IsHeld : ProxyPodMetrics → Window → Type 0
IsHeld m w =
    (age : ℕ)
    → age < 5
    → (get_elem? m.rpm_buckets (slot m age) ≡ some (w age).requests)
      × (get_elem? m.latency_buckets (slot m age) ≡ some (w age).latency)

-- The bucket of an age after a shift is emptied just if the age is one that the shift brought.
slot_emptied :
    (i k age : ℕ)
    → i < 5
    → k ≤ 5
    → age < 5
    → ltb (ahead i (((i + k) % 5 + 5 - age) % 5)) k ≡ ltb age k
slot_emptied i k age small bound within = ground arith

slot_kept :
    (i k age : ℕ)
    → i < 5
    → k ≤ age
    → age < 5
    → ((i + k) % 5 + 5 - age) % 5 ≡ (i + 5 - (age - k)) % 5
slot_kept i k age small kept within = omega arith

-- One ring after a shift.
shifted :
    (i k age : ℕ) (before : List ℤ) (after : Option ℤ) (old : ℤ)
    → i < 5
    → k ≤ 5
    → age < 5
    → after
      ≡ emptied i k (((i + k) % 5 + 5 - age) % 5) (get_elem? before (((i + k) % 5 + 5 - age) % 5))
    → (k ≤ age → get_elem? before ((i + 5 - (age - k)) % 5) ≡ some old)
    → after ≡ some (if ltb age k then pos 0 else old)
shifted i k age before after old small bound within e held = elim (Bool-cases (ltb age k)) [
  | inl new ↦ e ∙ rw (slot_emptied i k age small bound within, new) refl
  | inr kept ↦
      e
      ∙ rw (slot_emptied i k age small bound within, kept)
          (ap (get_elem? before) (slot_kept i k age small (ground arith) within)
            ∙ held (ground arith))
]

shift-IsHeld :
    (k : ℕ) (m : ProxyPodMetrics) (w : Window)
    → IsRing m
    → k ≤ 5
    → IsHeld m w
    → IsHeld (shift k m) (elapse k w)
shift-IsHeld k m w ring bound held age within =
    let (index, rpm, latency) =
      shift-emptied k m (((m.current_index + k) % 5 + 5 - age) % 5) ring bound (omega arith) in
    rw index (
      shifted m.current_index k age m.rpm_buckets _ (w (age - k)).requests ring.2 bound within rpm
          (λ kept. (held (age - k) (omega arith)).0),
      shifted m.current_index k age m.latency_buckets _ (w (age - k)).latency ring.2 bound within
          latency (λ kept. (held (age - k) (omega arith)).1),
    )

-- One ring after an addition to its current bucket.
added :
    (i age : ℕ) (n old : ℤ) (buckets : List ℤ)
    → i < 5
    → length buckets ≡ 5
    → age < 5
    → get_elem? buckets ((i + 5 - age) % 5) ≡ some old
    → get_elem? (add_at i n buckets) ((i + 5 - age) % 5)
      ≡ some (if nat_beq age 0 then wrap64 (old +ℤ n) else old)
unfolding add_at
added i age n old buckets small five within held = elim (Bool-cases (nat_beq age 0)) [
  | inl now ↦
      let here : (i + 5 - age) % 5 ≡ i = ground arith in
      let found : get_elem? buckets i ≡ some old = rw here at held in
      rw
        (
          here,
          add_at,
          found,
          get_elem?-set buckets i i (wrap64 (old +ℤ n)) (omega arith),
          now,
          nat_beq_refl i,
        )
        refl
  | inr before ↦ elim (Option-cases (get_elem? buckets i)) [
    | inl missing ↦ rw (add_at, missing, before) held
    | inr (v, found) ↦
        let there : nat_beq i ((i + 5 - age) % 5) ≡ false = ground arith in
        rw
          (
            add_at,
            found,
            get_elem?-set buckets i ((i + 5 - age) % 5) (wrap64 (v +ℤ n)) (omega arith),
            there,
            before,
          )
          held
  ]
]
  where
    nat_beq_refl : (k : ℕ) → nat_beq k k ≡ true
    nat_beq_refl k = ground arith

count_request-IsHeld :
    (latency : ℤ) (m : ProxyPodMetrics) (w : Window)
    → IsRing m
    → IsHeld m w
    → IsHeld (count_request latency m) (note latency w)
unfolding count_request
count_request-IsHeld latency m w ring held age within = (
  added m.current_index age (pos 1) (w age).requests m.rpm_buckets ring.2 ring.0 within
      (held age within).0,
  added m.current_index age latency (w age).latency m.latency_buckets ring.2 ring.1 within
      (held age within).1,
)

rounds_bound : (elapsed : ℤ) → rounds elapsed ≤ 5
unfolding rounds
rounds_bound (pos n) = ground arith
rounds_bound (negsuc n) = omega arith

-- Where no minute has passed, there are no rounds.
no_rounds : (elapsed : ℤ) → ltb_ℤ (pos 0) elapsed ≡ false → rounds elapsed ≡ 0
unfolding rounds
no_rounds (pos n) early = ground arith
no_rounds (negsuc n) early = refl

catch_up-IsHeld :
    (now : ℤ) (m : ProxyPodMetrics) (w : Window)
    → IsRing m
    → IsHeld m w
    → IsHeld (catch_up now m) (elapse (rounds (minutes (sub_time now m.last_bucket))) w)
unfolding catch_up shift
catch_up-IsHeld now m w ring held =
    let elapsed = minutes (sub_time now m.last_bucket) in
    elim (Bool-cases (ltb_ℤ (pos 0) elapsed)) [
      | inl late ↦ rw late (shift-IsHeld (rounds elapsed) m w ring (rounds_bound elapsed) held)
      | inr early ↦ rw (early, no_rounds elapsed early) (shift-IsHeld 0 m w ring (omega arith) held)
    ]

zero_at : (j : ℕ) → j < 5 → get_elem? five_zeros j ≡ some (pos 0)
zero_at zero within = refl
zero_at (suc zero) within = refl
zero_at (suc (suc zero)) within = refl
zero_at (suc (suc (suc zero))) within = refl
zero_at (suc (suc (suc (suc zero)))) within = refl
zero_at (suc (suc (suc (suc (suc j))))) within = ground arith

-- The abstract view of a pod's metrics: a window, and the time that its first minute is counted from.
pub record View : Type 0 where
  pub window : Window
  pub since : ℤ

-- The metrics implement the view.
abbrev pub Implements : ProxyPodMetrics → View → Type 0
Implements m v = IsHeld m v.window × (m.last_bucket ≡ v.since)

-- The full minutes of a duration in nanoseconds, none of a negative one and at most five.
abbrev pub full_minutes : ℤ → ℕ
full_minutes (pos n) = if ltb (n / 60_000_000_000) 5 then n / 60_000_000_000 else 5
full_minutes (negsuc n) = 0

-- The view after a request: where a minute has passed, the window is moved on and the time set anew.
abbrev pub requested : ℤ → ℤ → View → View
requested latency now v = record {
  window = note latency (elapse (full_minutes (sub_time now v.since)) v.window);
  since = if ltb 0 (full_minutes (sub_time now v.since)) then now else v.since;
}

none_before : (q : ℕ) → (rounds (pos 0 -ℤ pos q) ≡ 0) × (ltb_ℤ (pos 0) (pos 0 -ℤ pos q) ≡ false)
unfolding rounds ◌-ℤ◌ ◌+ℤ◌
none_before zero = (refl, refl)
none_before (suc q) = (ground arith, ground arith)

rounds-minutes : (d : ℤ) → rounds (minutes d) ≡ full_minutes d
unfolding rounds minutes
rounds-minutes (pos n) = refl
rounds-minutes (negsuc n) = (none_before ((n + 1) / 60_000_000_000)).0

late_lem : (d : ℤ) → ltb_ℤ (pos 0) (minutes d) ≡ ltb 0 (full_minutes d)
unfolding minutes
late_lem (pos n) = ground arith
late_lem (negsuc n) = (none_before ((n + 1) / 60_000_000_000)).1

catch_up-last_bucket :
    (now : ℤ) (m : ProxyPodMetrics)
    → (catch_up now m).last_bucket
      ≡ (if ltb 0 (full_minutes (sub_time now m.last_bucket)) then now else m.last_bucket)
unfolding catch_up
catch_up-last_bucket now m =
    let late = late_lem (sub_time now m.last_bucket) in
    elim (Bool-cases (ltb_ℤ (pos 0) (minutes (sub_time now m.last_bucket)))) [
      | inl passed ↦ rw (passed, catch_up) (rw (sym late ∙ passed) refl)
      | inr early ↦ rw (early, catch_up) (rw (sym late ∙ early) refl)
    ]

-- The abstract view of a pod's metrics is a window of five minutes and the time from which its first
-- minute is counted. New metrics implement the empty window, from the time that they are made with.
-- A request makes metrics of five buckets that implement a view implement the one that the full
-- minutes since its time, at most five of them, have moved on, with the request in its first minute,
-- and with the time of the request where a minute has passed; and a flush the one that one more
-- minute has moved on, from the same time: the index and the order of the buckets do not matter.
pub count_request_window :
    (updated bucket now latency : ℤ) (m : ProxyPodMetrics) (v : View)
    → IsRing m
    → Implements m v
    → Implements
        (fresh updated bucket)
        (record { window = λ age. record { requests = pos 0; latency = pos 0 }; since = bucket })
      × Implements (count_request latency (catch_up now m)) (requested latency now v)
      × Implements (next_bucket m) (record { window = elapse 1 v.window; since = v.since })
unfolding fresh shift count_request next_bucket
count_request_window updated bucket now latency m v ring (held, since) = (
  (
    (λ age within.
        (zero_at ((0 + 5 - age) % 5) (omega arith), zero_at ((0 + 5 - age) % 5) (omega arith))),
    refl,
  ),
  (
    count_request-IsHeld latency (catch_up now m) _ (catch_up-IsRing now m ring) (
        subst (λ t. IsHeld (catch_up now m) (elapse (full_minutes (sub_time now t)) v.window)) since
          (subst (λ k. IsHeld (catch_up now m) (elapse k v.window))
            (rounds-minutes (sub_time now m.last_bucket))
            (catch_up-IsHeld now m v.window ring held))),
    subst
        (λ t.
          (catch_up now m).last_bucket ≡ (if ltb 0 (full_minutes (sub_time now t)) then now else t))
        since (catch_up-last_bucket now m),
  ),
  (shift-IsHeld 1 m v.window ring (omega arith) held, since),
)
