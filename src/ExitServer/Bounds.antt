-- ===== src/ExitServer/Bounds.antt =====
-- client/pubexit_server.go: the accounts of a public exit under every sequence of datagrams and
-- janitor rounds.
use apgo.Prelude.{
  ℕ, ◌+◌, ◌≤◌, ◌<◌, Bool, not, ◌||◌, List, [], ◌∷◌, Option, none, some, ltb, leb, ◌==◌, ==_refl,
  length, take, drop, if-both, get_or, Bool-cases, Option-cases, ◌≡◌, refl, subst, ◌∙◌, inl, inr,
  arith,
}
use apgo.Prelude.Maps.{Key, lookup, is_some, lookup-insert}
use apgo.Prelude.Text.{Text}
use apgo.PubExit.{
  px_seal, px_open, px_session_id, px_data, PxChannel, PxOpened, px_opened, px_refused, px_short,
  px_auth, px_replayed,
}
use apgo.ExitServer.Pool.{alloc_locked_free}
use apgo.ExitServer.Accounts.{
  IsExitServer, add_pending-IsExitServer, cancel_pending-IsExitServer, put_session-IsExitServer,
  promote-IsExitServer, remove_session-IsExitServer, janitor_round-IsExitServer,
}
use apgo.ExitServer.{
  Endpoint, Pending, ExitSession, ExitServer, Out, source_count, alloc_locked, draw_session_id,
  new_session_id, cancel_pending, promote, put_session, janitor_round, px_handshake_ttl,
}
use apgo.ExitServer.Handlers.{
  px_hello, px_finish, px_hello_size, px_version, sub_type, Crypto, ExitCall, admit_hello,
  read_hello, is_full, on_hello, reply, new_session, seat, assign_body, finish_pending,
  finish_again, finish_session, on_finish, handle_handshake, forward_packet, handle_kind,
  handle_opened, handle_data, handle_packet, word16,
}

draw_session_id-new :
    (draws : List (Option ℕ)) (sid : Key) (s : ExitServer)
    → draw_session_id draws s ≡ some sid
    → lookup sid s.pending ≡ none
unfolding draw_session_id
draw_session_id-new [] sid s h = absurd (ground arith)
draw_session_id-new (none ∷ draws) sid s h = absurd (ground arith)
draw_session_id-new (some id ∷ draws) sid s h = elim (Bool-cases (id == 0)) [
  | inl nil ↦ draw_session_id-new draws sid s (ground (arith, h, nil))
  | inr real ↦ elim (Bool-cases (is_some (lookup id s.pending) || is_some (lookup id s.sessions))) [
    | inl used ↦ draw_session_id-new draws sid s (ground (arith, h, real, used))
    | inr free ↦
        let e : id ≡ sid = ground (arith, h, real, free) in
        subst (λ k. lookup k s.pending ≡ none) e (ground (arith, free))
  ]
]

module _ (x : Crypto) (c : ExitCall) where
  admit_hello-IsExitServer :
      (msg2 : Text) (s : ExitServer)
      → IsExitServer s
      → source_count c.raddr.ip s.per_source < s.max_per_src
      → IsExitServer (admit_hello c msg2 (new_session_id c.draws s) s).0
  unfolding admit_hello new_session_id
  admit_hello-IsExitServer msg2 s v room = at (new_session_id c.draws s) refl
    where
      at : (o : Option ℕ) → new_session_id c.draws s ≡ o → IsExitServer (admit_hello c msg2 o s).0
      at none e = v
      at (some sid) e =
          add_pending-IsExitServer sid (record { addr = c.raddr; created = c.now }) s v
            (draw_session_id-new (take 8 c.draws) sid s e) room

  -- What a handler leaves.
  abbrev Leaves : ExitServer × List Out → Type 0
  Leaves r = IsExitServer r.0

  read_hello-IsExitServer :
      (s : ExitServer)
      → IsExitServer s
      → source_count c.raddr.ip s.per_source < s.max_per_src
      → Leaves (read_hello x c s)
  unfolding read_hello
  read_hello-IsExitServer s v room =
      if-both Leaves ((word16 3 c.dgram == 0) || ltb (length c.dgram) (5 + word16 3 c.dgram))
        (λ short. v) (λ whole. at (x.answers_hello (take (word16 3 c.dgram) (drop 5 c.dgram))))
    where
      at :
          (o : Option Text)
          → Leaves (elim o [
            | none ↦ (s, [])
            | some msg2 ↦ admit_hello c msg2 (new_session_id c.draws s) s
          ])
      at none = v
      at (some msg2) = admit_hello-IsExitServer msg2 s v room

  on_hello-IsExitServer : (s : ExitServer) → IsExitServer s → Leaves (on_hello x c s)
  unfolding on_hello
  on_hello-IsExitServer s v =
      if-both Leaves (not (length c.dgram == px_hello_size)) (λ _. v)
        (λ _.
          if-both Leaves (not (get_or c.dgram 2 0 == px_version)) (λ _. v)
            (λ _.
              if-both Leaves (not c.hello_allowed) (λ _. v)
                (λ _.
                  if-both Leaves c.quota_exceeded (λ _. v)
                    (λ _.
                      if-both Leaves (is_full s) (λ _. v)
                        (λ _.
                          if-both Leaves (leb s.max_per_src (source_count c.raddr.ip s.per_source))
                            (λ _. v)
                            (λ room. read_hello-IsExitServer s v (ground (arith, room))))))))

  -- A reply moves only the counter of the session's channel.
  reply-IsExitServer :
      (sid : Key) (kind : ℕ) (body : Text) (old ss : ExitSession) (s : ExitServer)
      → IsExitServer s
      → lookup sid s.sessions ≡ some old
      → ss.src ≡ old.src
      → ss.pool_ip ≡ old.pool_ip
      → (to : Endpoint) → Leaves (reply x sid kind body to ss s)
  unfolding reply
  reply-IsExitServer sid kind body old ss s v there same_src same_ip to =
      put_session-IsExitServer sid old (record ss { ch = (px_seal (x.seal sid) kind body ss.ch).0 })
        s v there same_src same_ip

  seat-IsExitServer :
      (sid : Key) (p : Pending) (s : ExitServer)
      → IsExitServer s
      → lookup sid s.pending ≡ some p
      → lookup sid s.sessions ≡ none
      → length s.sessions < s.max_clients
      → Leaves (seat x c sid p (alloc_locked c.start s) s)
  unfolding seat promote alloc_locked
  seat-IsExitServer sid p s v waiting new room = at (alloc_locked c.start s) refl
    where
      at : (o : Option ℕ) → alloc_locked c.start s ≡ o → Leaves (seat x c sid p o s)
      at none e = cancel_pending-IsExitServer sid s v
      at (some ip) e =
          let ss : ExitSession = new_session c sid p ip in
          let big : 3 ≤ s.pool_size = ground (arith, e) in
          let (free, host) = alloc_locked_free c.start ip s big e in
          reply-IsExitServer sid 4 (assign_body ss) ss ss (promote sid ss s)
            (promote-IsExitServer sid p ss s v waiting new refl free host room)
            (lookup-insert sid sid ss s.sessions ∙ rw (==_refl sid) refl) refl refl c.raddr

  finish_session-IsExitServer :
      (sid : Key) (msg3 : Text) (s : ExitServer)
      → IsExitServer s
      → Leaves (finish_session x c sid msg3 s)
  unfolding finish_session finish_pending finish_again
  finish_session-IsExitServer sid msg3 s v = at (lookup sid s.sessions) refl
    where
      released : Leaves (cancel_pending sid s, [])
      released = cancel_pending-IsExitServer sid s v

      waiting :
          (o : Option Pending)
          → lookup sid s.pending ≡ o
          → lookup sid s.sessions ≡ none
          → Leaves (elim o [ none ↦ (s, []) | some p ↦ finish_pending x c sid msg3 p s ])
      waiting none e new = v
      waiting (some p) e new =
          if-both Leaves (not (p.addr.at == c.raddr.at) || ltb (p.created + px_handshake_ttl) c.now)
            (λ _. released)
            (λ _.
              if-both Leaves (not (x.finishes sid msg3)) (λ _. released)
                (λ _.
                  if-both Leaves (leb s.max_clients (length s.sessions)) (λ _. released)
                    (λ room. seat-IsExitServer sid p s v e new (ground (arith, room)))))

      at :
          (o : Option ExitSession)
          → lookup sid s.sessions ≡ o
          → Leaves (elim o [
            | some ss ↦ finish_again x c sid ss s
            | none ↦ elim (lookup sid s.pending) [
              | none ↦ (s, [])
              | some p ↦ finish_pending x c sid msg3 p s
            ]
          ])
      at none e = waiting (lookup sid s.pending) refl e
      at (some ss) e =
          if-both Leaves (ss.addr.at == c.raddr.at)
            (λ _. reply-IsExitServer sid 4 (assign_body ss) ss ss s v e refl refl ss.addr) (λ _. v)

  on_finish-IsExitServer : (s : ExitServer) → IsExitServer s → Leaves (on_finish x c s)
  unfolding on_finish
  on_finish-IsExitServer s v =
      if-both Leaves
        (ltb (length c.dgram) 8
          || ((word16 6 c.dgram == 0) || ltb (length c.dgram) (8 + word16 6 c.dgram)))
        (λ _. v) (λ _. finish_session-IsExitServer _ _ s v)

  handle_handshake-IsExitServer :
      (s : ExitServer) → IsExitServer s → Leaves (handle_handshake x c s)
  unfolding handle_handshake
  handle_handshake-IsExitServer s v =
      if-both Leaves (not s.enabled) (λ _. v)
        (λ _.
          if-both Leaves (sub_type c.dgram == px_hello) (λ _. on_hello-IsExitServer s v)
            (λ _.
              if-both Leaves (sub_type c.dgram == px_finish) (λ _. on_finish-IsExitServer s v)
                (λ _. v)))

  handle_kind-IsExitServer :
      (sid : Key) (kind : ℕ) (body : Text) (ss : ExitSession) (s : ExitServer)
      → IsExitServer s
      → lookup sid s.sessions ≡ some ss
      → Leaves (handle_kind x c sid kind body ss s)
  unfolding handle_kind forward_packet
  handle_kind-IsExitServer sid kind body ss s v there =
      if-both Leaves (kind == 1)
        (λ _.
          if-both Leaves s.enabled (λ _. put_session-IsExitServer sid ss _ s v there refl refl)
            (λ _. v))
        (λ _.
          if-both Leaves (kind == 2)
            (λ _.
              if-both Leaves (leb (length body) 64)
                (λ _. reply-IsExitServer sid 3 body ss ss s v there refl refl c.raddr) (λ _. v))
            (λ _. if-both Leaves (kind == 5) (λ _. remove_session-IsExitServer sid s v) (λ _. v)))

  handle_opened-IsExitServer :
      (sid : Key) (ss : ExitSession) (ch : PxChannel) (r : PxOpened) (s : ExitServer)
      → IsExitServer s
      → lookup sid s.sessions ≡ some ss
      → IsExitServer (handle_opened x c sid ss ch r s).0
  unfolding handle_opened put_session
  handle_opened-IsExitServer sid ss ch (px_refused px_replayed) s v there = v
  handle_opened-IsExitServer sid ss ch (px_refused px_short) s v there = v
  handle_opened-IsExitServer sid ss ch (px_refused px_auth) s v there = v
  handle_opened-IsExitServer sid ss ch (px_opened kind body) s v there =
      let heard : ExitSession = record ss { ch = ch; addr = c.raddr; last_seen = c.now } in
      handle_kind-IsExitServer sid kind body heard (put_session sid heard s)
        (put_session-IsExitServer sid ss heard s v there refl refl)
        (lookup-insert sid sid heard s.sessions ∙ rw (==_refl sid) refl)

  handle_data-IsExitServer :
      (sid : Key) (s : ExitServer) → IsExitServer s → IsExitServer (handle_data x c sid s).0
  unfolding handle_data
  handle_data-IsExitServer sid s v = elim (Option-cases (lookup sid s.sessions)) [
    | inl missing ↦ rw (missing, handle_data) v
    | inr (ss, there) ↦
        rw (there, handle_data)
          (handle_opened-IsExitServer sid ss _ (px_open (x.unseal sid) c.dgram ss.ch).1 s v there)
  ]

  handle_packet-IsExitServer : (s : ExitServer) → IsExitServer s → Leaves (handle_packet x c s)
  unfolding handle_packet
  handle_packet-IsExitServer s v =
      if-both Leaves (ltb (length c.dgram) 2) (λ _. v)
        (λ _.
          if-both Leaves ((sub_type c.dgram == px_hello) || (sub_type c.dgram == px_finish))
            (λ _. handle_handshake-IsExitServer s v)
            (λ _.
              if-both Leaves (sub_type c.dgram == px_data) (λ _. at (px_session_id c.dgram))
                (λ _. v)))
    where
      at :
          (o : Option ℕ)
          → Leaves (elim o [
            | none ↦ (s, [])
            | some sid ↦ ((handle_data x c sid s).0, (handle_data x c sid s).1)
          ])
      at none = v
      at (some sid) = handle_data-IsExitServer sid s v

-- What happens to a public exit: a datagram, or a round of the janitor.
pub data ExitEvent : Type 0 where
  arrives : ExitCall → ExitEvent
  cleans : (now : ℕ) (stops over : Bool) → ExitEvent

pub exit_step : Crypto → ExitServer → ExitEvent → ExitServer
exit_step x s (arrives c) = (handle_packet x c s).0
exit_step x s (cleans now stops over) = janitor_round now stops over s

pub run_exit : Crypto → ExitServer → List ExitEvent → ExitServer
run_exit x s [] = s
run_exit x s (e ∷ es) = run_exit x (exit_step x s e) es

-- Whatever datagrams arrive, from whatever sources, and however the janitor's rounds fall, the
-- accounts of a public exit stay exact: each source is charged for its handshakes and sessions and
-- never above its limit, the sessions never exceed theirs, and no two sessions share a pool address.
pub run_exit-IsExitServer :
    (x : Crypto) (s : ExitServer) (es : List ExitEvent)
    → IsExitServer s
    → IsExitServer (run_exit x s es)
unfolding run_exit exit_step
run_exit-IsExitServer x s [] v = v
run_exit-IsExitServer x s (arrives c ∷ es) v =
    run_exit-IsExitServer x (handle_packet x c s).0 es (handle_packet-IsExitServer x c s v)
run_exit-IsExitServer x s (cleans now stops over ∷ es) v =
    run_exit-IsExitServer x (janitor_round now stops over s) es
      (janitor_round-IsExitServer now stops over s v)
