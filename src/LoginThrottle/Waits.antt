-- ===== src/LoginThrottle/Waits.antt =====
-- How long a source must wait after failed logins.
use apgo.Prelude.{
  ℕ, zero, suc, ◌+◌, ◌-◌, ◌*◌, ◌%◌, ◌^◌, ◌≤◌, ◌<◌, min, not, ltb, leb, ◌==◌, if◌then◌else◌,
  Bool-cases, ◌≡◌, refl, sym, ap, arith, ◌∙◌, inl, inr, subst, leb→le, ◌⊎◌,
}
use apgo.Prelude.Maps.{Key, Assoc, Unique, lookup-insert, lookup-retain}
use apgo.LoginThrottle.{
  login_free_attempts, login_backoff_base, login_backoff_max, LoginAttempt, login_backoff,
  attempt_or_new, login_allowed, keeps_attempt, prune_login, fail_attempt, login_failed,
}
use native.Mathlib.Nat.{pow-le-pow_right, pow-suc, one-le-pow}

small_shift : (n : ℕ) → n ≤ 28 → 2 ^ n ≤ 2 ^ 28
small_shift n h = pow-le-pow_right {n = 2} (omega arith) {i = n} {j = 28} h

big_shift : (m : ℕ) → 2 ^ (29 + m) ≡ 536870912 * 2 ^ m
big_shift zero = refl
big_shift (suc m) =
    let e : 29 + suc m ≡ suc (29 + m) = omega arith in
    ap (λ (k : ℕ). 2 ^ k) e ∙ omega (arith, pow-suc 2 (29 + m), pow-suc 2 m, big_shift m)

-- What is left of a wrapped multiple of 2 ^ 39 is 0 or longer than the ceiling.
wrapped : (c : ℕ) → let v = 549755813888 * c % 2 ^ 64 in (v ≡ 0) ⊎ (login_backoff_max < v)
wrapped c = omega arith

capped :
    (n v : ℕ)
    → login_backoff_base * 2 ^ n % 2 ^ 64 ≡ v
    → (v ≡ 0) ⊎ (login_backoff_max < v)
    → login_backoff n ≡ login_backoff_max
unfolding login_backoff
capped n v e (inl h) = rw (e, h, login_backoff) refl
capped n v e (inr h) = rw (e, login_backoff) (ground arith)

uncapped :
    (n v : ℕ)
    → login_backoff_base * 2 ^ n % 2 ^ 64 ≡ v
    → 0 < v
    → v < 2 ^ 63
    → login_backoff n ≡ min v login_backoff_max
unfolding login_backoff
uncapped n v e h k = rw (e, login_backoff) (ground arith)

login_backoff_small :
    (n : ℕ) → n ≤ 28 → login_backoff n ≡ min (login_backoff_base * 2 ^ n) login_backoff_max
login_backoff_small n h =
    let small = small_shift n h in
    let positive = one-le-pow n 2 in
    uncapped n (login_backoff_base * 2 ^ n) (omega arith) (omega arith) (omega arith)

login_backoff_big :
    (m : ℕ) → login_backoff (29 + m) ≡ min (login_backoff_base * 2 ^ (29 + m)) login_backoff_max
login_backoff_big m =
    let product : login_backoff_base * 2 ^ (29 + m) ≡ 549755813888 * (1953125 * 2 ^ m) =
      omega (arith, big_shift m) in
    let large : login_backoff_max ≤ login_backoff_base * 2 ^ (29 + m) =
      omega (arith, product, one-le-pow m 2) in
    capped (29 + m) (549755813888 * (1953125 * 2 ^ m) % 2 ^ 64) (ap (λ (v : ℕ). v % 2 ^ 64) product)
      (wrapped (1953125 * 2 ^ m))
    ∙ omega (arith, large)

-- The shift never wraps to a short wait: the back-off is the base doubled `n` times, up to the
-- ceiling, for every `n`.
pub login_backoff_lem :
    (n : ℕ) → login_backoff n ≡ min (login_backoff_base * 2 ^ n) login_backoff_max
login_backoff_lem n = elim (Bool-cases (leb n 28)) [
  | inl small ↦ login_backoff_small n (leb→le n 28 small)
  | inr big ↦
      let split : n ≡ 29 + (n - 29) = ground arith in
      subst (λ k. login_backoff k ≡ min (login_backoff_base * 2 ^ k) login_backoff_max) (sym split)
        (login_backoff_big (n - 29))
]

-- The penalty after a failure that follows `before` others: none for the first five, then two
-- seconds, doubled for each further failure, up to five minutes.
unfoldable pub penalty : ℕ → ℕ
penalty before =
    if ltb before login_free_attempts
    then 0
    else min (login_backoff_base * 2 ^ (before - login_free_attempts)) login_backoff_max

-- After a failed login the source is refused exactly until the penalty for its failures is over,
-- or, with free attempts left, until the time it was told before; its earlier failures count unless
-- pruning forgot them. No other source's verdict changes.
pub login_allowed-login_failed :
    (now later : ℕ) (ip other : Key) (t : Assoc LoginAttempt)
    → Unique t
    → now ≤ later
    → (login_allowed later other (login_failed now ip t)).0 ≡ (
        if ip == other
        then not (
            ltb later (
              if ltb (attempt_or_new ip (prune_login now t)).fails login_free_attempts
              then (attempt_or_new ip (prune_login now t)).next_ok
              else now + penalty (attempt_or_new ip (prune_login now t)).fails))
        else (login_allowed later other t).0)
unfolding login_allowed login_failed fail_attempt penalty prune_login
login_allowed-login_failed now later ip other t u h = ground (
  arith,
  lookup-insert ip other (fail_attempt now (attempt_or_new ip (prune_login now t)))
      (prune_login now t),
  lookup-retain (λ k a. keeps_attempt now a) other t u,
  login_backoff_lem ((attempt_or_new ip (prune_login now t)).fails - login_free_attempts),
)
