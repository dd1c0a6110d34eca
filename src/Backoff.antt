-- ===== src/Backoff.antt =====
-- client/sessions.go: the retry back-off of the session table (RecordFailure, RecordSuccess,
-- ResetBackoff, ShouldSkip) and the loop of evictStale that prunes its entries.
-- Times are nanoseconds of one clock, `now` an argument of each call.
-- `failures` is a Go int: it would wrap only after 2 ^ 63 failures of one endpoint.
pub mod Waits
pub mod History
mod Tests
use apgo.Prelude.{
  ℕ, suc, ◌+◌, ◌-◌, ◌*◌, Bool, true, false, not, ◌&&◌, List, [], ◌∷◌, Option, none, some, ltb, leb,
  if◌then◌else◌, get_or, length,
}
use apgo.Prelude.Maps.{Key, Assoc, lookup, insert, update_all, retain}

abbrev pub second : ℕ
second = 1_000_000_000

abbrev pub minute : ℕ
minute = 60 * second

pub record BackoffState : Type 0 where
  pub failures : ℕ
  pub until : ℕ
  pub ever_ok : Bool

abbrev pub zero_state : BackoffState
zero_state = record { failures = 0; until = 0; ever_ok = false }

abbrev pub stale_endpoint_failures : ℕ
stale_endpoint_failures = 5

abbrev pub stale_endpoint_backoff : ℕ
stale_endpoint_backoff = 15 * minute

abbrev pub steps : List ℕ
steps = 5 ∷ 10 ∷ 20 ∷ 40 ∷ 60 ∷ []

-- `b := t.peerBackoff[key]; if b == nil { b = &backoffState{} }`
abbrev pub entry_or_new : Key → Assoc BackoffState → BackoffState
entry_or_new key t = elim (lookup key t) [ none ↦ zero_state | some b ↦ b ]

-- The entry after one more failure.
unfoldable pub fail_entry : ℕ → BackoffState → BackoffState
fail_entry now b =
    let failures = b.failures + 1 in
    let idx = if leb (length steps) (failures - 1) then length steps - 1 else failures - 1 in
    let step_wait = get_or steps idx 0 * second in
    let wait =
      if not b.ever_ok && leb stale_endpoint_failures failures
      then stale_endpoint_backoff
      else step_wait in
    record b { failures = failures; until = now + wait }

unfoldable pub record_failure : ℕ → Key → Assoc BackoffState → Assoc BackoffState
record_failure now key t = insert key (fail_entry now (entry_or_new key t)) t

unfoldable pub record_success : ℕ → Key → Assoc BackoffState → Assoc BackoffState
record_success now key t =
    insert key (record (entry_or_new key t) { failures = 0; until = now; ever_ok = true }) t

unfoldable pub reset_backoff : ℕ → Assoc BackoffState → Assoc BackoffState
reset_backoff now t = update_all (λ k b. record b { failures = 0; until = now }) t

unfoldable pub should_skip : ℕ → Key → Assoc BackoffState → Bool
should_skip now key t = elim (lookup key t) [ none ↦ false | some b ↦ ltb now b.until ]

-- How long evictStale remembers an entry behind its `until`.
abbrev pub horizon : BackoffState → ℕ
horizon b = if b.ever_ok then 60 * minute else 10 * minute

unfoldable pub prune_backoff : ℕ → Assoc BackoffState → Assoc BackoffState
prune_backoff now t = retain (λ k b. leb now (b.until + horizon b)) t
