-- ===== src/SessionTable/Steps.antt =====
-- client/sessions.go: the events that change the table, and the sessions that they leave.
use apgo.Prelude.{
  ℕ, ◌+◌, true, false, not, List, [], ◌∷◌, none, some, ltb, ◌==◌, ◌||◌, Bool-cases, Option-cases,
  ◌≡◌, refl, ◌∙◌, inl, inr, arith,
}
use apgo.Prelude.Maps.{
  Key, Unique, lookup, insert, without, retain, lookup-insert, lookup-without, insert-Unique,
  without-Unique, retain-Unique,
}
use apgo.SessionTable.{
  AddrTests, Session, Node, desync_quiet_period, drop_peer_crypto_if_no_route, is_stale, notify,
  take_down, take_all_down, lost_sessions, evict_stale, touch_last_seen, count_failure,
  note_decrypt_failure, set_session,
}

-- What happens to the table while packets arrive.
pub data Event : Type 0 where
  failed : Key → Event
  decrypted : Key → Event
  handshake : Key → Session → Event
  swept : Event

module _ (c : AddrTests) (keepalive : ℕ) where
  unfoldable pub step : Node → ℕ × Event → Node
  step n (now, failed a) = note_decrypt_failure keepalive now a n
  step n (now, decrypted a) = touch_last_seen now a n
  step n (now, handshake a s) = set_session c keepalive now a s n
  step n (now, swept) = evict_stale keepalive now n

  unfoldable pub run : Node → List (ℕ × Event) → Node
  run n [] = n
  run n (e ∷ es) = run (step n e) es

-- Taking a session down leaves the table of sessions to its caller.
drop_peer_crypto-by_addr :
    (k : Key) (n : Node) → (drop_peer_crypto_if_no_route k n).by_addr ≡ n.by_addr
unfolding drop_peer_crypto_if_no_route
drop_peer_crypto-by_addr k n = ground arith

notify-by_addr : (a : Key) (n : Node) → (notify a n).by_addr ≡ n.by_addr
unfolding notify
notify-by_addr a n = ground arith

pub take_down-by_addr : (a k : Key) (n : Node) → (take_down a k n).by_addr ≡ n.by_addr
unfolding take_down
take_down-by_addr a k n = notify-by_addr a _ ∙ drop_peer_crypto-by_addr k _

pub take_all_down-by_addr :
    (l : List (Key × Key)) (n : Node) → (take_all_down l n).by_addr ≡ n.by_addr
unfolding take_all_down
take_all_down-by_addr [] n = refl
take_all_down-by_addr ((a, k) ∷ l) n =
    take_all_down-by_addr l (take_down a k n) ∙ take_down-by_addr a k n

pub set_session-by_addr :
    (c : AddrTests) (keepalive now : ℕ) (a : Key) (s : Session) (n : Node)
    → (set_session c keepalive now a s n).by_addr
      ≡ insert a (record s { last_seen = now }) n.by_addr
unfolding set_session
set_session-by_addr c keepalive now a s n = ground arith

pub evict_stale-by_addr :
    (keepalive now : ℕ) (n : Node)
    → (evict_stale keepalive now n).by_addr
      ≡ retain (λ addr s. not (is_stale keepalive now s)) n.by_addr
unfolding evict_stale
evict_stale-by_addr keepalive now n =
    take_all_down-by_addr (lost_sessions keepalive now n.by_addr) _

module _ (keepalive now : ℕ) (a : Key) (n : Node) where
  pub note_missing : lookup a n.by_addr ≡ none → note_decrypt_failure keepalive now a n ≡ n
  unfolding note_decrypt_failure
  note_missing e = rw (e, note_decrypt_failure) refl

  pub note_half_open :
      (s : Session)
      → lookup a n.by_addr ≡ some s
      → s.established ≡ false
      → note_decrypt_failure keepalive now a n ≡ n
  unfolding note_decrypt_failure
  note_half_open s e h = rw (e, note_decrypt_failure) (simp h)

  pub note_established :
      (s : Session)
      → lookup a n.by_addr ≡ some s
      → s.established ≡ true
      → note_decrypt_failure keepalive now a n ≡ count_failure keepalive now a s n
  unfolding note_decrypt_failure
  note_established s e h = rw (e, note_decrypt_failure) (simp h)

count_failure-Unique :
    (keepalive now : ℕ) (a : Key) (s : Session) (n : Node)
    → Unique n.by_addr
    → Unique (count_failure keepalive now a s n).by_addr
unfolding count_failure
count_failure-Unique keepalive now a s n u =
    elim (Bool-cases
      (ltb (s.decrypt_fails + 1) 10 || ltb now (s.last_seen + desync_quiet_period keepalive))) [
        | inl waits ↦ rw (count_failure, waits) (insert-Unique a _ n.by_addr u)
        | inr late ↦
            rw
              (
                count_failure,
                late,
                take_down-by_addr a s.peer_static (record n { by_addr = without a n.by_addr }),
              )
              (without-Unique a n.by_addr u)
      ]

note_decrypt_failure-Unique :
    (keepalive now : ℕ) (a : Key) (n : Node)
    → Unique n.by_addr
    → Unique (note_decrypt_failure keepalive now a n).by_addr
note_decrypt_failure-Unique keepalive now a n u = elim (Option-cases (lookup a n.by_addr)) [
  | inl e ↦ rw (note_missing keepalive now a n e) u
  | inr (s, e) ↦ elim (Bool-cases s.established) [
    | inl done ↦
        rw (note_established keepalive now a n s e done)
          (count_failure-Unique keepalive now a s n u)
    | inr half ↦ rw (note_half_open keepalive now a n s e half) u
  ]
]

touch_last_seen-Unique :
    (now : ℕ) (a : Key) (n : Node) → Unique n.by_addr → Unique (touch_last_seen now a n).by_addr
unfolding touch_last_seen
touch_last_seen-Unique now a n u = elim (Option-cases (lookup a n.by_addr)) [
  | inl e ↦ rw (e, touch_last_seen) u
  | inr (s, e) ↦ rw (e, touch_last_seen) (insert-Unique a _ n.by_addr u)
]

-- No event gives an endpoint two sessions.
pub step-Unique :
    (c : AddrTests) (keepalive : ℕ) (n : Node) (e : ℕ × Event)
    → Unique n.by_addr
    → Unique (step c keepalive n e).by_addr
unfolding step
step-Unique c keepalive n (now, failed a) u = note_decrypt_failure-Unique keepalive now a n u
step-Unique c keepalive n (now, decrypted a) u = touch_last_seen-Unique now a n u
step-Unique c keepalive n (now, handshake a s) u =
    rw (set_session-by_addr c keepalive now a s n) (insert-Unique a _ n.by_addr u)
step-Unique c keepalive n (now, swept) u =
    rw (evict_stale-by_addr keepalive now n) (retain-Unique _ n.by_addr u)

-- What happens at another endpoint leaves the session at this one.
count_failure-lookup :
    (keepalive now : ℕ) (a b : Key) (s : Session) (n : Node)
    → (b == a) ≡ false
    → lookup a (count_failure keepalive now b s n).by_addr ≡ lookup a n.by_addr
unfolding count_failure
count_failure-lookup keepalive now a b s n far =
    elim (Bool-cases
      (ltb (s.decrypt_fails + 1) 10 || ltb now (s.last_seen + desync_quiet_period keepalive))) [
        | inl waits ↦ rw (count_failure, waits) (lookup-insert b a _ n.by_addr ∙ rw far refl)
        | inr late ↦
            rw
              (
                count_failure,
                late,
                take_down-by_addr b s.peer_static (record n { by_addr = without b n.by_addr }),
              )
              (lookup-without b a n.by_addr ∙ rw far refl)
      ]

pub note_decrypt_failure-lookup :
    (keepalive now : ℕ) (a b : Key) (n : Node)
    → (b == a) ≡ false
    → lookup a (note_decrypt_failure keepalive now b n).by_addr ≡ lookup a n.by_addr
note_decrypt_failure-lookup keepalive now a b n far = elim (Option-cases (lookup b n.by_addr)) [
  | inl e ↦ rw (note_missing keepalive now b n e) refl
  | inr (s, e) ↦ elim (Bool-cases s.established) [
    | inl done ↦
        rw (note_established keepalive now b n s e done)
          (count_failure-lookup keepalive now a b s n far)
    | inr half ↦ rw (note_half_open keepalive now b n s e half) refl
  ]
]

pub touch_last_seen-lookup :
    (now : ℕ) (a b : Key) (n : Node)
    → (b == a) ≡ false
    → lookup a (touch_last_seen now b n).by_addr ≡ lookup a n.by_addr
unfolding touch_last_seen
touch_last_seen-lookup now a b n far = elim (Option-cases (lookup b n.by_addr)) [
  | inl e ↦ rw (e, touch_last_seen) refl
  | inr (s, e) ↦ rw (e, touch_last_seen) (lookup-insert b a _ n.by_addr ∙ rw far refl)
]
