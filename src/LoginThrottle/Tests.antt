-- ===== src/LoginThrottle/Tests.antt =====
-- Runs of the login throttle.
use apgo.Prelude.{◌+◌, not, [], ◌∷◌, some, ltb, ◌==◌, if◌then◌else◌, ◌≡◌, refl, arith}
use apgo.Prelude.Maps.{Assoc, lookup, insert, retain}
use apgo.LoginThrottle.{
  LoginAttempt, login_backoff, login_free_attempts, attempt_or_new, login_allowed, prune_login,
  fail_attempt, login_failed,
}
use apgo.LoginThrottle.Waits.{penalty, login_allowed-login_failed}

-- A source that failed seven times.
abbrev guessing : Assoc LoginAttempt
guessing = (8, record { fails = 7; next_ok = 40; last_seen = 30 }) ∷ []

eighth_failure :
    lookup 8 (login_failed 100 8 guessing)
    ≡ some (record { fails = 8; next_ok = 100 + 8_000_000_000; last_seen = 100 })
unfolding login_failed fail_attempt login_backoff prune_login lookup insert retain
eighth_failure = refl

login_allowed-login_failed_example : (login_allowed 200 8 (login_failed 100 8 guessing)).0 ≡ (
    if 8 == 8
    then not (
        ltb 200 (
          if ltb (attempt_or_new 8 (prune_login 100 guessing)).fails login_free_attempts
          then (attempt_or_new 8 (prune_login 100 guessing)).next_ok
          else 100 + penalty (attempt_or_new 8 (prune_login 100 guessing)).fails))
    else (login_allowed 200 8 guessing).0)
login_allowed-login_failed_example =
    login_allowed-login_failed 100 200 8 8 guessing (unfold lookup in (refl, tt)) (omega arith)
