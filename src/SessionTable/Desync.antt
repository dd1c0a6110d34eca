-- ===== src/SessionTable/Desync.antt =====
-- client/sessions.go: the lemmas on a session that nothing decrypts for any more
-- (NoteDecryptFailure).
use apgo.Prelude.{
  ℕ, suc, ◌+◌, ◌≤◌, Bool, true, false, not, ◌||◌, List, [], ◌∷◌, Option, none, some, ltb, ◌==◌,
  subst, ==_refl, ==_iff, if◌then◌else◌, Bool-cases, ◌≡◌, refl, sym, ◌∙◌, inl, inr, arith,
}
use apgo.Prelude.Maps.{Key, lookup, without, lookup-insert, lookup-without, Unique, lookup-retain}
use apgo.SessionTable.Steps.{
  Event, failed, decrypted, handshake, swept, step, run, take_down-by_addr, set_session-by_addr,
  evict_stale-by_addr, note_missing, note_established, step-Unique, note_decrypt_failure-lookup,
  touch_last_seen-lookup,
}
use apgo.SessionTable.{
  AddrTests, Session, Node, desync_quiet_period, is_stale, count_failure, note_decrypt_failure,
}

-- Nothing decrypts for the endpoint, and no handshake is made with it.
abbrev pub IsSilent : Key → ℕ × Event → Type 0
IsSilent a (now, failed b) = Unit {0}
IsSilent a (now, decrypted b) = (b == a) ≡ false
IsSilent a (now, handshake b s) = (b == a) ≡ false
IsSilent a (now, swept) = Unit {0}

abbrev pub AllSilent : Key → List (ℕ × Event) → Type 0
AllSilent a [] = Unit {0}
AllSilent a (e ∷ es) = IsSilent a e × AllSilent a es

-- How many failed decrypts the endpoint has after the events, from a count at the start.
abbrev pub is_failure : Key → Event → Bool
is_failure a (failed b) = b == a
is_failure a (decrypted b) = false
is_failure a (handshake b s) = false
is_failure a swept = false

abbrev pub failures : Key → ℕ → List (ℕ × Event) → ℕ
failures a count [] = count
failures a count ((now, e) ∷ es) = failures a (if is_failure a e then suc count else count) es

-- The session of the endpoint is gone, or was heard from at `heard` at the latest and has failed
-- `fails` times since.
abbrev IsSinking : ℕ → ℕ → Option Session → Type 0
IsSinking heard fails none = Unit {0}
IsSinking heard fails (some s) =
    (s.established ≡ true) × (s.last_seen ≤ heard) × (fails ≤ s.decrypt_fails)

module _ (keepalive : ℕ) (a : Key) (heard fails : ℕ) where
  counted-IsSinking :
      (now : ℕ) (s : Session) (n : Node)
      → IsSinking heard fails (some s)
      → IsSinking heard (suc fails) (lookup a (count_failure keepalive now a s n).by_addr)
  unfolding count_failure
  counted-IsSinking now s n (done, seen, count) =
      elim (Bool-cases
        (ltb (s.decrypt_fails + 1) 10 || ltb now (s.last_seen + desync_quiet_period keepalive))) [
          | inl waits ↦
              rw
                (
                  count_failure,
                  waits,
                  lookup-insert a a (record s { decrypt_fails = s.decrypt_fails + 1 }) n.by_addr,
                  ==_refl a,
                )
                (done, seen, omega arith)
          | inr late ↦
              rw
                (
                  count_failure,
                  late,
                  take_down-by_addr a s.peer_static (record n { by_addr = without a n.by_addr }),
                  lookup-without a a n.by_addr,
                  ==_refl a,
                )
                tt
        ]

-- Silent events only sink the session further.
step-IsSinking :
    (c : AddrTests) (keepalive : ℕ) (a : Key) (heard fails : ℕ) (e : ℕ × Event) (n : Node)
    → Unique n.by_addr
    → IsSilent a e
    → IsSinking heard fails (lookup a n.by_addr)
    → IsSinking heard
        (if is_failure a e.1 then suc fails else fails)
        (lookup a (step c keepalive n e).by_addr)
unfolding step
step-IsSinking c keepalive a heard fails (now, failed b) n u q k = elim (Bool-cases (b == a)) [
  | inr far ↦ rw (far, note_decrypt_failure-lookup keepalive now a b n far) k
  | inl same ↦
      subst
        (λ j.
          IsSinking heard (if j == a then suc fails else fails)
            (lookup a (note_decrypt_failure keepalive now j n).by_addr))
        (sym ((==_iff b a).0 same)) (rw (==_refl a) (at (lookup a n.by_addr) refl))
]
  where
    at :
        (o : Option Session)
        → lookup a n.by_addr ≡ o
        → IsSinking heard (suc fails) (lookup a (note_decrypt_failure keepalive now a n).by_addr)
    at none m = rw (note_missing keepalive now a n m, m) tt
    at (some s) m =
        let h : IsSinking heard fails (some s) = subst (IsSinking heard fails) m k in
        rw (note_established keepalive now a n s m h.0)
          (counted-IsSinking keepalive a heard fails now s n h)
step-IsSinking c keepalive a heard fails (now, decrypted b) n u q k =
    rw (touch_last_seen-lookup now a b n q) k
step-IsSinking c keepalive a heard fails (now, handshake b s) n u q k =
    rw
      (
        set_session-by_addr c keepalive now b s n,
        lookup-insert b a (record s { last_seen = now }) n.by_addr,
        q,
      )
      k
step-IsSinking c keepalive a heard fails (now, swept) n u q k =
    rw
      (
        evict_stale-by_addr keepalive now n,
        lookup-retain (λ addr s. not (is_stale keepalive now s)) a n.by_addr u,
      )
      (at (lookup a n.by_addr) k)
  where
    at :
        (o : Option Session)
        → IsSinking heard fails o
        → IsSinking heard fails (elim o [
          | none ↦ none
          | some s ↦ if not (is_stale keepalive now s) then some s else none
        ])
    at none h = tt
    at (some s) h = elim (Bool-cases (is_stale keepalive now s)) [
      | inl old ↦ rw old tt
      | inr young ↦ rw young h
    ]

run-IsSinking :
    (c : AddrTests) (keepalive : ℕ) (a : Key) (heard fails : ℕ) (es : List (ℕ × Event)) (n : Node)
    → Unique n.by_addr
    → AllSilent a es
    → IsSinking heard fails (lookup a n.by_addr)
    → IsSinking heard (failures a fails es) (lookup a (run c keepalive n es).by_addr)
unfolding run
run-IsSinking c keepalive a heard fails [] n u q k = k
run-IsSinking c keepalive a heard fails ((now, e) ∷ es) n u (q, qs) k =
    run-IsSinking c keepalive a heard (if is_failure a e then suc fails else fails) es
      (step c keepalive n (now, e)) (step-Unique c keepalive n (now, e) u) qs
      (step-IsSinking c keepalive a heard fails (now, e) n u q k)

-- A session that nothing decrypts for is taken down: after nine failed decrypts the next one that
-- comes a quiet period after the endpoint was last heard from leaves no session there, whatever
-- happens at other endpoints and however the sweeps fall. No handshake is made with the endpoint
-- in between.
pub desync_taken_down :
    (c : AddrTests) (keepalive now : ℕ) (a : Key) (s : Session) (es : List (ℕ × Event)) (n : Node)
    → Unique n.by_addr
    → lookup a n.by_addr ≡ some s
    → s.established ≡ true
    → AllSilent a es
    → 9 ≤ failures a 0 es
    → s.last_seen + desync_quiet_period keepalive ≤ now
    → lookup a (note_decrypt_failure keepalive now a (run c keepalive n es)).by_addr ≡ none
unfolding count_failure
desync_taken_down c keepalive now a s es n u there done quiet nine late =
    at (lookup a t.by_addr) refl
  where
    t : Node
    t = run c keepalive n es

    sinking : IsSinking s.last_seen (failures a 0 es) (lookup a t.by_addr)
    sinking =
        run-IsSinking c keepalive a s.last_seen 0 es n u quiet
          (subst (IsSinking s.last_seen 0) (sym there) (done, omega arith, omega arith))

    at :
        (o : Option Session)
        → lookup a t.by_addr ≡ o
        → lookup a (note_decrypt_failure keepalive now a t).by_addr ≡ none
    at none e = rw (note_missing keepalive now a t e) e
    at (some r) e =
        let h : IsSinking s.last_seen (failures a 0 es) (some r) =
          subst (IsSinking s.last_seen (failures a 0 es)) e sinking in
        let full : (ltb (r.decrypt_fails + 1) 10
              || ltb now (r.last_seen + desync_quiet_period keepalive))
            ≡ false =
          ground (arith, h.1, h.2) in
        rw
          (
            note_established keepalive now a t r e h.0,
            count_failure,
            full,
            take_down-by_addr a r.peer_static (record t { by_addr = without a t.by_addr }),
          )
          (lookup-without a a t.by_addr ∙ rw (==_refl a) refl)
