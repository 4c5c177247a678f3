-- ===== src/Execution/Delays.antt =====
-- Bounds on the retry delay (`RetryPolicy.delay_before` of
-- src/taskcontrol/domain/execution/results.py).
use task_control.Errors.{ok}
use task_control.Execution.Retries.{
  BackoffStrategy, fixed, linear, exponential, RetryPolicy, backoff_seconds, delay_before,
}
use native.Mathlib.Nat.{pow-le-pow_right}
use task_control.Prelude.{if◌then◌else◌, ◌==◌, ℕ, ◌-◌, ◌≤◌, min, ◌≡◌, arith}
use task_control.Values.{Duration, zero_duration, make_duration, IsValidDuration}

backoff_mono :
    (s : BackoffStrategy) (base m n : ℕ)
    → m ≤ n
    → backoff_seconds s base m ≤ backoff_seconds s base n
unfolding backoff_seconds
backoff_mono fixed base m n h = omega arith
backoff_mono linear base m n h = grind arith
backoff_mono exponential base m n h = grind (arith, pow-le-pow_right {n = 2} (omega arith) h)

waited : RetryPolicy → ℕ → Duration
waited p n = if n == 1 then zero_duration else record {
  seconds = min (backoff_seconds p.backoff p.base_delay.seconds (n - 2)) p.max_delay.seconds;
}

delay_before-eq :
    (p : RetryPolicy) (n : ℕ)
    → IsValidDuration p.max_delay
    → 1 ≤ n
    → delay_before p n ≡ ok (waited p n)
unfolding delay_before make_duration waited
delay_before-eq p n v l = ground arith

-- Under a policy whose longest delay is itself a duration, every attempt from the first on has a
-- delay: the first none at all, each later one at most the policy's longest, and no attempt waits
-- longer than the attempts behind it.
pub delay_before_bounded :
    (p : RetryPolicy) (m n : ℕ)
    → IsValidDuration p.max_delay
    → 1 ≤ m
    → m ≤ n
    → (d : Duration) × (e : Duration) × (delay_before p m ≡ ok d)
      × (delay_before p n ≡ ok e)
      × (d.seconds ≤ e.seconds)
      × (e.seconds ≤ p.max_delay.seconds)
      × (m ≡ 1 → d.seconds ≡ 0)
unfolding waited
delay_before_bounded p m n v l h = (
  waited p m,
  waited p n,
  delay_before-eq p m v l,
  delay_before-eq p n v (omega arith),
  ground (arith, backoff_mono p.backoff p.base_delay.seconds (m - 2) (n - 2)),
  ground arith,
  ground arith,
)
