-- ===== src/Backoff/History.antt =====
-- The back-off of one endpoint over a whole history of dial results.
use apgo.Prelude.{
  ℕ, ◌+◌, ◌≤◌, true, false, List, [], ◌∷◌, Option, some, ◌==◌, All, Bool-cases, ◌≡◌, refl, ap, ◌∙◌,
  arith, inl, inr,
}
use apgo.Prelude.Maps.{Key, Assoc, lookup, lookup-insert, lookup-update_all}
use apgo.Backoff.{
  minute, BackoffState, entry_or_new, fail_entry, record_failure, record_success, reset_backoff,
  should_skip,
}
use apgo.Backoff.Waits.{retry_wait, fail_entry_until, fail_entry-ever_ok}

pub data Event : Type 0 where
  failed succeeded : Key → Event
  reset_all : Event

pub step : Assoc BackoffState → ℕ × Event → Assoc BackoffState
step t (now, failed k) = record_failure now k t
step t (now, succeeded k) = record_success now k t
step t (now, reset_all) = reset_backoff now t

pub run : Assoc BackoffState → List (ℕ × Event) → Assoc BackoffState
run t [] = t
run t (e ∷ es) = run (step t e) es

-- An endpoint that has answered once, and is due within a minute of `now`.
abbrev KnownGood : ℕ → Option BackoffState → Type 0
KnownGood now o = (b : BackoffState) × (o ≡ some b) × (b.ever_ok ≡ true) × (b.until ≤ now + minute)

good_wait : (n : ℕ) → retry_wait true n ≤ minute
unfolding retry_wait
good_wait n = omega arith

failed-KnownGood :
    (limit now : ℕ) (k key : Key) (t : Assoc BackoffState)
    → now ≤ limit
    → KnownGood limit (lookup key t)
    → KnownGood limit (lookup key (record_failure now k t))
unfolding record_failure
failed-KnownGood limit now k key t h (b, e, ok, due) = elim (Bool-cases (k == key)) [
  | inl this ↦ (
    fail_entry now b,
    ground (arith, lookup-insert k key (fail_entry now (entry_or_new k t)) t),
    fail_entry-ever_ok now b ∙ ok,
    omega
        (arith, fail_entry_until now b, ap (λ o. retry_wait o b.failures) ok, good_wait b.failures),
  )
  | inr other ↦
      (b, ground (arith, lookup-insert k key (fail_entry now (entry_or_new k t)) t), ok, due)
]

step-KnownGood :
    (limit : ℕ) (key : Key) (t : Assoc BackoffState) (e : ℕ × Event)
    → e.0 ≤ limit
    → KnownGood limit (lookup key t)
    → KnownGood limit (lookup key (step t e))
unfolding step record_success reset_backoff
step-KnownGood limit key t (now, failed k) h g = failed-KnownGood limit now k key t h g
step-KnownGood limit key t (now, succeeded k) h (b, e, ok, due) =
    let done = record (entry_or_new k t) { failures = 0; until = now; ever_ok = true } in
    elim (Bool-cases (k == key)) [
      | inl this ↦ (done, ground (arith, lookup-insert k key done t), refl, omega arith)
      | inr other ↦ (b, ground (arith, lookup-insert k key done t), ok, due)
    ]
step-KnownGood limit key t (now, reset_all) h (b, e, ok, due) = (
  record b { failures = 0; until = now },
  ground (arith, lookup-update_all (λ k b. record b { failures = 0; until = now }) key t),
  ok,
  omega arith,
)

run-KnownGood :
    (limit : ℕ) (key : Key) (t : Assoc BackoffState) (es : List (ℕ × Event))
    → All (λ e. e.0 ≤ limit) es
    → KnownGood limit (lookup key t)
    → KnownGood limit (lookup key (run t es))
unfolding run
run-KnownGood limit key t [] h g = g
run-KnownGood limit key t (e ∷ es) h g =
    run-KnownGood limit key (step t e) es h.1 (step-KnownGood limit key t e h.0 g)

-- Once an endpoint has answered, no later history of failures, successes and resets up to the
-- time `limit` keeps it skipped for more than a minute after `limit`.
pub answered_then_due :
    (limit now later : ℕ) (key : Key) (t : Assoc BackoffState) (es : List (ℕ × Event))
    → now ≤ limit
    → All (λ e. e.0 ≤ limit) es
    → limit + minute ≤ later
    → should_skip later key (run (record_success now key t) es) ≡ false
unfolding should_skip
answered_then_due limit now later key t es h all due =
    let done = record (entry_or_new key t) { failures = 0; until = now; ever_ok = true } in
    let (b, e, ok, soon) = run-KnownGood limit key (record_success now key t) es all (
      done,
      unfold record_success in ground (arith, lookup-insert key key done t),
      refl,
      omega arith,
    ) in
    rw (e, should_skip) (ground arith)
