-- ===== src/LoginThrottle.antt =====
-- admin/loginthrottle.go: the back-off of the dashboard login for each source address.
-- Times are nanoseconds; `now` is an argument of each call, and a source without a record has
-- no entry. The file that keeps the records over a restart is left out.
pub mod Waits
mod Tests
use apgo.Prelude.{
  ℕ, ◌+◌, ◌-◌, ◌*◌, ◌%◌, ◌^◌, Bool, true, false, not, ◌&&◌, ◌||◌, List, Option, none, some, ltb,
  leb, ◌==◌, if◌then◌else◌,
}
use apgo.Prelude.Maps.{Key, Assoc, lookup, insert, without, retain}

abbrev pub login_free_attempts : ℕ
login_free_attempts = 5

abbrev pub login_backoff_base : ℕ
login_backoff_base = 2_000_000_000

abbrev pub login_backoff_max : ℕ
login_backoff_max = 300_000_000_000

abbrev pub login_record_ttl : ℕ
login_record_ttl = 1_800_000_000_000

pub record LoginAttempt : Type 0 where
  pub fails : ℕ
  pub next_ok : ℕ
  pub last_seen : ℕ

-- `loginBackoffBase << uint(n)` as the bits of an int64, and the two tests that follow it: the
-- value is not positive when it is 0 or has its sign bit.
unfoldable pub login_backoff : ℕ → ℕ
login_backoff n =
    let backoff = login_backoff_base * 2 ^ n % 2 ^ 64 in
    if backoff == 0 || leb (2 ^ 63) backoff || ltb login_backoff_max backoff
    then login_backoff_max
    else backoff

abbrev pub attempt_or_new : Key → Assoc LoginAttempt → LoginAttempt
attempt_or_new ip t = elim (lookup ip t) [
  | none ↦ record { fails = 0; next_ok = 0; last_seen = 0 }
  | some a ↦ a
]

-- `loginAllowed`: whether the source may try, and how long it must wait.
unfoldable pub login_allowed : ℕ → Key → Assoc LoginAttempt → Bool × ℕ
login_allowed now ip t = elim (lookup ip t) [
  | none ↦ (true, 0)
  | some a ↦ if ltb now a.next_ok then (false, a.next_ok - now) else (true, 0)
]

-- Whether `pruneLoginLocked` keeps a record: the negation of `lastSeen.Before(cutoff) &&
-- Now().After(nextOK)`.
abbrev pub keeps_attempt : ℕ → LoginAttempt → Bool
keeps_attempt now a = not (ltb (a.last_seen + login_record_ttl) now && ltb a.next_ok now)

unfoldable pub prune_login : ℕ → Assoc LoginAttempt → Assoc LoginAttempt
prune_login now t = retain (λ ip a. keeps_attempt now a) t

-- The record after one more failure.
unfoldable pub fail_attempt : ℕ → LoginAttempt → LoginAttempt
fail_attempt now a =
    let fails = a.fails + 1 in
    if ltb login_free_attempts fails
    then record {
      fails = fails;
      next_ok = now + login_backoff (fails - login_free_attempts - 1);
      last_seen = now;
    }
    else record a { fails = fails; last_seen = now }

unfoldable pub login_failed : ℕ → Key → Assoc LoginAttempt → Assoc LoginAttempt
login_failed now ip t =
    let pruned = prune_login now t in insert ip (fail_attempt now (attempt_or_new ip pruned)) pruned

unfoldable pub login_succeeded : Key → Assoc LoginAttempt → Assoc LoginAttempt
login_succeeded ip t = without ip t
