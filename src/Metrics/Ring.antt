-- ===== src/Metrics/Ring.antt =====
-- The ring of five buckets: its shape, and which buckets a shift empties.
use proxima_scheduler.Prelude.{
  ℕ, zero, suc, ◌+◌, ◌-◌, ◌%◌, ◌≤◌, ◌<◌, ◌≡◌, refl, ◌∙◌, Option, some, List, arith, ltb,
  if◌then◌else◌, length, set, get_elem?, length-set, get_elem?-set, Bool-cases, Option-cases, inl,
  inr,
}
use proxima_scheduler.Prelude.Int.{ℤ, pos, ltb_ℤ, ◌+ℤ◌, wrap64, sub_time}
use proxima_scheduler.Metrics.{
  ProxyPodMetrics, fresh, next_bucket, shift, rounds, minutes, catch_up, add_at, count_request,
}

-- Both rings have five buckets, and the index is one of them.
abbrev pub IsRing : ProxyPodMetrics → Type 0
IsRing m = (length m.rpm_buckets ≡ 5) × (length m.latency_buckets ≡ 5) × (m.current_index < 5)

pub fresh-IsRing : (updated bucket : ℤ) → IsRing (fresh updated bucket)
unfolding fresh
fresh-IsRing updated bucket = (refl, refl, omega arith)

pub next_bucket-IsRing : (m : ProxyPodMetrics) → IsRing m → IsRing (next_bucket m)
unfolding next_bucket
next_bucket-IsRing m (r, l, i) = (
  length-set m.rpm_buckets ((m.current_index + 1) % 5) (pos 0) ∙ r,
  length-set m.latency_buckets ((m.current_index + 1) % 5) (pos 0) ∙ l,
  omega arith,
)

pub shift-IsRing : (k : ℕ) (m : ProxyPodMetrics) → IsRing m → IsRing (shift k m)
unfolding shift
shift-IsRing zero m ring = ring
shift-IsRing (suc k) m ring = shift-IsRing k (next_bucket m) (next_bucket-IsRing m ring)

pub catch_up-IsRing : (now : ℤ) (m : ProxyPodMetrics) → IsRing m → IsRing (catch_up now m)
unfolding catch_up
catch_up-IsRing now m ring =
    elim (Bool-cases (ltb_ℤ (pos 0) (minutes (sub_time now m.last_bucket)))) [
      | inl late ↦ rw late (shift-IsRing (rounds (minutes (sub_time now m.last_bucket))) m ring)
      | inr early ↦ rw early ring
    ]

length-add_at : (i : ℕ) (n : ℤ) (buckets : List ℤ) → length (add_at i n buckets) ≡ length buckets
unfolding add_at
length-add_at i n buckets = elim (Option-cases (get_elem? buckets i)) [
  | inl missing ↦ rw (missing, add_at) refl
  | inr (old, found) ↦ rw (found, add_at) (length-set buckets i (wrap64 (old +ℤ n)))
]

pub count_request-IsRing :
    (latency : ℤ) (m : ProxyPodMetrics) → IsRing m → IsRing (count_request latency m)
unfolding count_request
count_request-IsRing latency m (r, l, i) = (
  length-add_at m.current_index (pos 1) m.rpm_buckets ∙ r,
  length-add_at m.current_index latency m.latency_buckets ∙ l,
  i,
)

-- The distance of a bucket from the one after the index.
abbrev pub ahead : ℕ → ℕ → ℕ
ahead i j = (j + 4 - i) % 5

-- What a bucket holds after some rounds, from what it held before.
abbrev pub emptied : ℕ → ℕ → ℕ → Option ℤ → Option ℤ
emptied i k j before = if ltb (ahead i j) k then some (pos 0) else before

emptied-set :
    (i k j : ℕ) (buckets : List ℤ)
    → i < 5
    → length buckets ≡ 5
    → suc k ≤ 5
    → j < 5
    → emptied ((i + 1) % 5) k j (get_elem? (set buckets ((i + 1) % 5) (pos 0)) j)
      ≡ emptied i (suc k) j (get_elem? buckets j)
emptied-set i k j buckets small five bound within =
    rw (get_elem?-set buckets ((i + 1) % 5) j (pos 0) (omega arith)) (ground arith)

-- A shift by at most five rounds moves the index by as many places around the ring, empties exactly
-- as many buckets after the current one, in both rings, and keeps the others.
pub shift-emptied :
    (k : ℕ) (m : ProxyPodMetrics) (j : ℕ)
    → IsRing m
    → k ≤ 5
    → j < 5
    → ((shift k m).current_index ≡ (m.current_index + k) % 5)
      × (get_elem? (shift k m).rpm_buckets j
          ≡ emptied m.current_index k j (get_elem? m.rpm_buckets j))
      × (get_elem? (shift k m).latency_buckets j
          ≡ emptied m.current_index k j (get_elem? m.latency_buckets j))
unfolding shift next_bucket
shift-emptied zero m j ring bound within = (omega arith, ground arith, ground arith)
shift-emptied (suc k) m j ring bound within =
    let (i, r, l) =
      shift-emptied k (next_bucket m) j (next_bucket-IsRing m ring) (omega arith) within in
    (
      i ∙ omega arith,
      r ∙ emptied-set m.current_index k j m.rpm_buckets ring.2 ring.0 bound within,
      l ∙ emptied-set m.current_index k j m.latency_buckets ring.2 ring.1 bound within,
    )
