-- ===== src/SessionTable/Flood.antt =====
-- client/sessions.go: the lemmas on a session under the failed decrypts of NoteDecryptFailure and
-- the sweeps of evictStale.
use mathlib.Core.Option.{some-injective}
use apgo.Prelude.{
  ℕ, ◌+◌, ◌≤◌, ◌<◌, true, false, List, [], ◌∷◌, Option, none, some, ltb, ◌==◌, ==_iff, ◌||◌,
  if◌then◌else◌, Bool-cases, ◌≡◌, refl, sym, ap, ◌∙◌, inl, inr, arith,
}
use apgo.Prelude.Maps.{
  Key, Assoc, Unique, lookup, insert, without, lookup-insert, lookup-without, lookup-retain,
  insert-Unique, without-Unique, retain-Unique,
}
use apgo.SessionTable.Steps.{
  Event, failed, decrypted, handshake, swept, step, run, take_down-by_addr, set_session-by_addr,
  evict_stale-by_addr, note_missing, note_half_open, note_established,
}
use apgo.SessionTable.{
  AddrTests, Session, Node, session_stale_timeout, desync_quiet_period, is_stale, evict_stale,
  touch_last_seen, count_failure, note_decrypt_failure,
}

quiet-le-stale : (keepalive : ℕ) → desync_quiet_period keepalive ≤ session_stale_timeout keepalive
unfolding desync_quiet_period session_stale_timeout
quiet-le-stale keepalive = ground arith

-- When the endpoint was last heard from, after an event.
abbrev pub heard_after : Key → ℕ × Event → ℕ → ℕ
heard_after a (now, failed b) heard = heard
heard_after a (now, decrypted b) heard = if b == a then now else heard
heard_after a (now, handshake b s) heard = if b == a then now else heard
heard_after a (now, swept) heard = heard

-- A handshake gives an established session.
abbrev pub Completes : ℕ × Event → Type 0
Completes (now, failed b) = Unit {0}
Completes (now, decrypted b) = Unit {0}
Completes (now, handshake b s) = s.established ≡ true
Completes (now, swept) = Unit {0}

-- Every event comes less than the quiet period after the endpoint was last heard from.
abbrev pub KeptAlive : ℕ → Key → ℕ → List (ℕ × Event) → Type 0
KeptAlive keepalive a heard [] = Unit {0}
KeptAlive keepalive a heard (e ∷ es) =
    (e.0 < heard + desync_quiet_period keepalive)
    × Completes e
    × KeptAlive keepalive a (heard_after a e heard) es

-- The endpoint has an established session, and was heard from at `heard` or later.
pub record IsAlive (a : Key) (heard : ℕ) (m : Assoc Session) : Type 0 where
  pub unique : Unique m
  pub session : Session
  pub there : lookup a m ≡ some session
  pub established : session.established ≡ true
  pub seen : heard ≤ session.last_seen

-- A session that is written leaves the endpoint alive.
insert-IsAlive :
    (a b : Key) (heard heard2 : ℕ) (s : Session) (m : Assoc Session)
    → IsAlive a heard m
    → ((b == a) ≡ true → (s.established ≡ true) × (heard2 ≤ s.last_seen))
    → ((b == a) ≡ false → heard2 ≤ heard)
    → IsAlive a heard2 (insert b s m)
insert-IsAlive a b heard heard2 s m v here there = elim (Bool-cases (b == a)) [
  | inl same ↦ record {
    unique = insert-Unique b s m v.unique;
    session = s;
    there = lookup-insert b a s m ∙ rw same refl;
    established = (here same).0;
    seen = (here same).1;
  }
  | inr far ↦ record {
    unique = insert-Unique b s m v.unique;
    session = v.session;
    there = lookup-insert b a s m ∙ rw far v.there;
    established = v.established;
    seen = omega (arith, v.seen, there far);
  }
]

-- A session that is deleted at another endpoint does, too.
without-IsAlive :
    (a b : Key) (heard : ℕ) (m : Assoc Session)
    → IsAlive a heard m
    → (b == a) ≡ false
    → IsAlive a heard (without b m)
without-IsAlive a b heard m v far = record {
  unique = without-Unique b m v.unique;
  session = v.session;
  there = lookup-without b a m ∙ rw far v.there;
  established = v.established;
  seen = v.seen;
}

-- A failure within the quiet period is only counted.
count_failure-IsAlive :
    (keepalive now : ℕ) (a b : Key) (heard : ℕ) (s : Session) (n : Node)
    → now < heard + desync_quiet_period keepalive
    → IsAlive a heard n.by_addr
    → s.established ≡ true
    → ((b == a) ≡ true → heard ≤ s.last_seen)
    → IsAlive a heard (count_failure keepalive now b s n).by_addr
unfolding count_failure
count_failure-IsAlive keepalive now a b heard s n soon v done seen =
    elim (Bool-cases
      (ltb (s.decrypt_fails + 1) 10 || ltb now (s.last_seen + desync_quiet_period keepalive))) [
        | inl waits ↦
            rw (count_failure, waits)
              (insert-IsAlive a b heard heard (record s { decrypt_fails = s.decrypt_fails + 1 })
                n.by_addr v (λ same. (done, seen same)) (λ far. omega arith))
        | inr late ↦ elim (Bool-cases (b == a)) [
          | inl same ↦ absurd (ground (arith, late, soon, seen same))
          | inr far ↦
              rw
                (
                  count_failure,
                  late,
                  take_down-by_addr b s.peer_static (record n { by_addr = without b n.by_addr }),
                )
                (without-IsAlive a b heard n.by_addr v far)
        ]
      ]

failed-IsAlive :
    (keepalive now : ℕ) (a b : Key) (heard : ℕ) (n : Node)
    → now < heard + desync_quiet_period keepalive
    → IsAlive a heard n.by_addr
    → IsAlive a heard (note_decrypt_failure keepalive now b n).by_addr
failed-IsAlive keepalive now a b heard n soon v = at (lookup b n.by_addr) refl
  where
    held : (s : Session) → lookup b n.by_addr ≡ some s → (b == a) ≡ true → s ≡ v.session
    held s e same =
        let k : b ≡ a = (==_iff b a).0 same in
        some-injective _ _ (sym e ∙ ap (λ j. lookup j n.by_addr) k ∙ v.there)

    at :
        (o : Option Session)
        → lookup b n.by_addr ≡ o
        → IsAlive a heard (note_decrypt_failure keepalive now b n).by_addr
    at none e = rw (note_missing keepalive now b n e) v
    at (some s) e = elim (Bool-cases s.established) [
      | inr half ↦ rw (note_half_open keepalive now b n s e half) v
      | inl done ↦ rw (note_established keepalive now b n s e done) (
          count_failure-IsAlive keepalive now a b heard s n soon v done
            (λ same. rw (held s e same) v.seen))
    ]

decrypted-IsAlive :
    (now : ℕ) (a b : Key) (heard : ℕ) (n : Node)
    → IsAlive a heard n.by_addr
    → IsAlive a (if b == a then now else heard) (touch_last_seen now b n).by_addr
unfolding touch_last_seen
decrypted-IsAlive now a b heard n v = at (lookup b n.by_addr) refl
  where
    at :
        (o : Option Session)
        → lookup b n.by_addr ≡ o
        → IsAlive a (if b == a then now else heard) (touch_last_seen now b n).by_addr
    at none e = elim (Bool-cases (b == a)) [
      | inl same ↦ absurd (ground (arith, e, v.there, (==_iff b a).0 same))
      | inr far ↦ rw (touch_last_seen, e, far) v
    ]
    at (some s) e =
        rw (touch_last_seen, e)
          (insert-IsAlive a b heard (if b == a then now else heard)
            (record s { last_seen = now; decrypt_fails = 0 }) n.by_addr v
            (λ same. (ground (arith, e, same, v.there, v.established), rw same (omega arith)))
            (λ far. rw far (omega arith)))

-- A sweep within the stale timeout keeps the session.
swept-IsAlive :
    (keepalive now : ℕ) (a : Key) (heard : ℕ) (n : Node)
    → now < heard + desync_quiet_period keepalive
    → IsAlive a heard n.by_addr
    → IsAlive a heard (evict_stale keepalive now n).by_addr
unfolding is_stale
swept-IsAlive keepalive now a heard n soon v = rw (evict_stale-by_addr keepalive now n) (record {
  unique = retain-Unique _ n.by_addr v.unique;
  session = v.session;
  there =
      lookup-retain _ a n.by_addr v.unique
      ∙ rw v.there (ground (arith, v.established, v.seen, quiet-le-stale keepalive, soon));
  established = v.established;
  seen = v.seen;
})

step-IsAlive :
    (c : AddrTests) (keepalive : ℕ) (a : Key) (heard : ℕ) (e : ℕ × Event) (n : Node)
    → e.0 < heard + desync_quiet_period keepalive
    → Completes e
    → IsAlive a heard n.by_addr
    → IsAlive a (heard_after a e heard) (step c keepalive n e).by_addr
unfolding step
step-IsAlive c keepalive a heard (now, failed b) n soon done v =
    failed-IsAlive keepalive now a b heard n soon v
step-IsAlive c keepalive a heard (now, decrypted b) n soon done v =
    decrypted-IsAlive now a b heard n v
step-IsAlive c keepalive a heard (now, handshake b s) n soon done v =
    rw (set_session-by_addr c keepalive now b s n) (
      insert-IsAlive a b heard (if b == a then now else heard) (record s { last_seen = now })
        n.by_addr v (λ same. (done, rw same (omega arith))) (λ far. rw far (omega arith)))
step-IsAlive c keepalive a heard (now, swept) n soon done v =
    swept-IsAlive keepalive now a heard n soon v

-- An endpoint that is heard from within each quiet period keeps its established session: no flood
-- of undecryptable packets, from whatever endpoints, no handshake and no sweep in between takes it
-- down. Every handshake that completes gives an established session.
pub flood-IsAlive :
    (c : AddrTests) (keepalive : ℕ) (a : Key) (heard : ℕ) (es : List (ℕ × Event)) (n : Node)
    → IsAlive a heard n.by_addr
    → KeptAlive keepalive a heard es
    → (s : Session) × (lookup a (run c keepalive n es).by_addr ≡ some s) × (s.established ≡ true)
unfolding run
flood-IsAlive c keepalive a heard [] n v k = (v.session, v.there, v.established)
flood-IsAlive c keepalive a heard (e ∷ es) n v (soon, done, k) =
    flood-IsAlive c keepalive a (heard_after a e heard) es (step c keepalive n e)
      (step-IsAlive c keepalive a heard e n soon done v) k
