-- ===== src/Backoff/Tests.antt =====
-- Runs of the retry back-off.
use apgo.Prelude.{◌+◌, ◌*◌, false, [], ◌∷◌, some, ◌≡◌, refl}
use apgo.Prelude.Maps.{Assoc, lookup, insert}
use apgo.Backoff.{second, BackoffState, fail_entry, record_failure}

-- One endpoint that failed four times.
abbrev flaky : Assoc BackoffState
flaky = (8, record { failures = 4; until = 40; ever_ok = false }) ∷ []

fifth_failure :
    lookup 8 (record_failure 100 8 flaky)
    ≡ some (record { failures = 5; until = 100 + 900 * second; ever_ok = false })
unfolding record_failure fail_entry lookup insert
fifth_failure = refl
