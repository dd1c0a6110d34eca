-- ===== src/Backoff/Waits.antt =====
-- How long a failing endpoint is left alone.
use apgo.Prelude.{
  ℕ, zero, suc, ◌+◌, ◌-◌, ◌*◌, ◌^◌, ◌≤◌, min, Bool, not, ◌&&◌, ltb, leb, ◌==◌, if◌then◌else◌,
  get_or, length, ◌≡◌, refl, arith,
}
use apgo.Prelude.Maps.{Key, Assoc, Unique, lookup-insert, lookup-retain}
use apgo.Backoff.{
  second, BackoffState, entry_or_new, fail_entry, record_failure, should_skip, prune_backoff,
  horizon, steps,
}
use native.Mathlib.Nat.{pow-le-pow_right}

-- 5 s, doubled for each failure before, up to 60 s; a quarter of an hour for an endpoint that has
-- failed five times and never once answered.
unfoldable pub retry_wait : Bool → ℕ → ℕ
retry_wait ever_ok before =
    if not ever_ok && leb 4 before then 900 * second else min (5 * 2 ^ before) 60 * second

pow_past_four : (k : ℕ) → 4 ≤ k → 16 ≤ 2 ^ k
pow_past_four k h = pow-le-pow_right {n = 2} (omega arith) {i = 4} {j = k} h

step_wait :
    (k : ℕ)
    → get_or steps (if leb (length steps) k then length steps - 1 else k) 0 ≡ min (5 * 2 ^ k) 60
step_wait zero = refl
step_wait (suc zero) = refl
step_wait (suc (suc zero)) = refl
step_wait (suc (suc (suc zero))) = refl
step_wait (suc (suc (suc (suc zero)))) = refl
step_wait (suc (suc (suc (suc (suc k))))) =
    ground (arith, pow_past_four (suc (suc (suc (suc (suc k))))))

pub fail_entry_until :
    (now : ℕ) (b : BackoffState) → (fail_entry now b).until ≡ now + retry_wait b.ever_ok b.failures
unfolding fail_entry retry_wait
fail_entry_until now b =
    let same : b.failures + 1 - 1 ≡ b.failures = omega arith in
    rw (same, step_wait b.failures) (ground arith)

-- After a failure the endpoint is skipped exactly until its wait is over; no other endpoint's
-- verdict changes.
pub should_skip-record_failure :
    (now later : ℕ) (key other : Key) (t : Assoc BackoffState)
    → should_skip later other (record_failure now key t) ≡ (
        if key == other
        then ltb later (now + retry_wait (entry_or_new key t).ever_ok (entry_or_new key t).failures)
        else should_skip later other t)
unfolding should_skip record_failure
should_skip-record_failure now later key other t = ground (
  arith,
  lookup-insert key other (fail_entry now (entry_or_new key t)) t,
  fail_entry_until now (entry_or_new key t),
)

-- Pruning a table that holds no endpoint twice changes no endpoint's verdict from then on.
pub should_skip-prune_backoff :
    (now later : ℕ) (key : Key) (t : Assoc BackoffState)
    → Unique t
    → now ≤ later
    → should_skip later key (prune_backoff now t) ≡ should_skip later key t
unfolding should_skip prune_backoff
should_skip-prune_backoff now later key t u h =
    ground (arith, lookup-retain (λ k b. leb now (b.until + horizon b)) key t u)

-- A failure forgets neither whether the endpoint ever answered nor how often it failed.
pub fail_entry-ever_ok : (now : ℕ) (b : BackoffState) → (fail_entry now b).ever_ok ≡ b.ever_ok
unfolding fail_entry
fail_entry-ever_ok now b = refl
