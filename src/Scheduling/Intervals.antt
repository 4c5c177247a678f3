-- ===== src/Scheduling/Intervals.antt =====
-- The occurrences of an interval schedule.
use native.Mathlib.Nat.{mul-suc, mul-le-mul_left, mul_assoc, mul_comm}
use native.Mathlib.Omega.{div_any, mod_fact}
use task_control.Errors.{ok}
use task_control.Prelude.{
  ℕ, zero, suc, ◌+◌, ◌-◌, ◌*◌, ◌/◌, ◌≤◌, ◌<◌, ltb, ◌≡◌, refl, ap, sym, ◌∙◌, inl, inr, List, [], ◌∷◌,
  arith, Bool-cases,
}
use task_control.Scheduling.Schedules.{
  FloatQuotient, IntervalSchedule, validate_interval, interval_step, next_interval_after,
  interval_occurrences, preview_from, preview_occurrences, max_preview_occurrences,
}
use task_control.Values.{Timestamp, is_zero, microseconds_per_second}

step-pos : (s : IntervalSchedule) → validate_interval s ≡ ok s → 0 < interval_step s
unfolding validate_interval is_zero
step-pos s h = ground arith

-- the n-th occurrence
abbrev pub occurrence : IntervalSchedule → ℕ → Timestamp
occurrence s n = s.anchor + interval_step s * n

-- The multiple of a step that is just past a distance.
past : (e step : ℕ) → 0 < step → (e < step * (e / step + 1)) × (step * (e / step) ≤ e)
past e zero h = elim h [ ]
past e (suc k) h =
    let whole = div_any e (suc k) in
    let left = mod_fact e k in
    let more = mul-suc (suc k) (e / suc k) in
    (omega (arith, whole, left, more), omega (arith, whole))

beyond : (e step j : ℕ) → 0 < step → e < step * j → e / step < j
beyond e step j h further = elim (Bool-cases (ltb (e / step) j)) [
  | inl lt ↦ ground (arith, lt)
  | inr not_lt ↦
      let le : j ≤ e / step = ground (arith, not_lt) in
      let low = mul-le-mul_left step le in absurd (omega (arith, low, (past e step h).1, further))
]

swapped : (a b n : ℕ) → a * b * n ≡ a * n * b
swapped a b n = mul_assoc a b n ∙ ap (λ x. a * x) (mul_comm b n) ∙ sym (mul_assoc a n b)

-- A span of whole seconds.
abbrev pub IsWhole : ℕ → Type 0
IsWhole e = (k : ℕ) × (e ≡ k * microseconds_per_second)

-- What `float` does with whole numbers of seconds, of which every span of `datetime` has fewer than
-- 2^53: it holds them exactly, and so is the floor of their quotient.
abbrev pub IsExactOnSeconds : FloatQuotient → Type 0
IsExactOnSeconds quotient = (e d : ℕ) → IsWhole e → IsWhole d → 0 < d → quotient e d ≡ e / d

interval_step-IsWhole : (s : IntervalSchedule) → IsWhole (interval_step s)
interval_step-IsWhole s = (s.every.seconds, refl)

occurrence-IsWhole : (s : IntervalSchedule) (n : ℕ) → IsWhole (occurrence s n - s.anchor)
occurrence-IsWhole s n =
    let gap : occurrence s n - s.anchor ≡ interval_step s * n = omega arith in
    (s.every.seconds * n, gap ∙ swapped s.every.seconds microseconds_per_second n)

module _ (quotient : FloatQuotient) (exact : IsExactOnSeconds quotient) (s : IntervalSchedule)
    (h : validate_interval s ≡ ok s) where
  -- Where an instant is before the anchor or a whole number of seconds behind it, the next occurrence is
  -- strictly after the instant, it is one of the occurrences, and no occurrence after the instant
  -- comes before it.
  pub next_interval_exact :
      (moment : Timestamp)
      → IsWhole (moment - s.anchor)
      → (moment < next_interval_after quotient s moment)
        × ((n : ℕ) × (next_interval_after quotient s moment ≡ occurrence s n))
        × ((n : ℕ)
            → moment < occurrence s n
            → next_interval_after quotient s moment ≤ occurrence s n)
  unfolding next_interval_after
  next_interval_exact moment whole = elim (Bool-cases (ltb moment s.anchor)) [
    | inl early ↦ rw early (ground (arith, early), (0, ground arith), λ n later. omega arith)
    | inr late ↦
        let pos = step-pos s h in
        let started : s.anchor ≤ moment = ground (arith, late) in
        let e = moment - s.anchor in
        let (further, _) = past e (interval_step s) pos in
        rw (late, exact e (interval_step s) whole (interval_step-IsWhole s) pos)
          (
            omega (arith, started, further),
            (e / interval_step s + 1, refl),
            λ n later.
                let gone : e < interval_step s * n = omega (arith, started, later) in
                let low : e / interval_step s + 1 ≤ n =
                  omega (arith, beyond e (interval_step s) n pos gone) in
                omega (arith, mul-le-mul_left (interval_step s) low),
          )
  ]

  interval_step-next :
      (n : ℕ) → next_interval_after quotient s (occurrence s n) ≡ occurrence s (suc n)
  interval_step-next n =
      let pos = step-pos s h in
      let (after, (k, e), least) = next_interval_exact (occurrence s n) (occurrence-IsWhole s n) in
      let more = mul-suc (interval_step s) n in
      let not_after = least (suc n) (omega (arith, more, pos)) in
      elim (Bool-cases (ltb n k)) [
        | inl lt ↦
            let low : suc n ≤ k = ground (arith, lt) in
            omega (arith, not_after, e, mul-le-mul_left (interval_step s) low)
        | inr not_lt ↦
            let low : k ≤ n = ground (arith, not_lt) in
            absurd (omega (arith, after, e, mul-le-mul_left (interval_step s) low))
      ]

-- The occurrences from the n-th on.
unfoldable pub series : IntervalSchedule → ℕ → ℕ → List Timestamp
series s n zero = []
series s n (suc count) = occurrence s n ∷ series s (suc n) count

module _ (quotient : FloatQuotient) (exact : IsExactOnSeconds quotient) (s : IntervalSchedule)
    (h : validate_interval s ≡ ok s) where
  preview_from-series :
      (count n : ℕ) (cursor : Timestamp)
      → next_interval_after quotient s cursor ≡ occurrence s n
      → preview_from (interval_occurrences quotient s) count cursor ≡ series s n count
  unfolding preview_from series
  preview_from-series zero n cursor e = refl
  preview_from-series (suc count) n cursor e = rw e (
      ap (λ xs. occurrence s n ∷ xs)
        (preview_from-series count (suc n) (occurrence s n)
          (interval_step-next quotient exact s h n)))

  -- A preview of an interval schedule of a valid size, from an instant before the anchor or a whole number
  -- of seconds behind it, is exactly the occurrences that follow the instant, one step apart and as
  -- many as were asked for, from the first that is after the instant on. It is assumed that `float`
  -- divides whole numbers of seconds exactly; for other instants it need not, and then an
  -- occurrence can be left out.
  pub preview-series :
      (after : Timestamp) (count : ℕ)
      → IsWhole (after - s.anchor)
      → 1 ≤ count
      → count ≤ max_preview_occurrences
      → (n : ℕ) × (preview_occurrences (interval_occurrences quotient s) after count
          ≡ ok (series s n count))
        × (after < occurrence s n)
        × ((m : ℕ) → after < occurrence s m → occurrence s n ≤ occurrence s m)
  unfolding preview_occurrences
  preview-series after count whole low high =
      let (later, (n, e), least) = next_interval_exact quotient exact s h after whole in
      let listed = preview_from-series count n after e in
      (
        n,
        ground (arith, low, high, listed),
        omega (arith, later, e),
        λ m past_it. omega (arith, least m past_it, e),
      )
