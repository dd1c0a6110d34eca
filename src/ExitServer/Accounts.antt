-- ===== src/ExitServer/Accounts.antt =====
-- client/pubexit_server.go: what holds of the tables of a public exit, and the lemmas on the changes
-- that its handlers are made of.
use mathlib.Core.Option.{some-injective, none-ne-some}
use apgo.Prelude.{
  ℕ, Bool, not, ◌+◌, ◌≤◌, ◌<◌, true, false, List, [], ◌∷◌, none, some, ◌==◌, ==_refl, ==_iff, ==_ne,
  if◌then◌else◌, length, Bool-cases, Option-cases, ◌≡◌, refl, sym, ap, ◌∙◌, inl, inr, arith,
}
use apgo.Prelude.Maps.{
  Key, Unique, lookup, lookup-insert, lookup-without, insert-Unique, without-Unique, length-insert,
  length-without-le,
}
use apgo.ExitServer.Counts.{
  count_by, count_by-insert_new, count_by-insert_same, count_by-without, source_count-insert,
  source_count-dec_source,
}
use apgo.ExitServer.Pool.{IsPoolHost}
use apgo.ExitServer.{
  Pending, ExitSession, ExitServer, source_count, add_pending, cancel_pending, promote, put_session,
  remove_session, cancel_all, remove_all, close_all, keys_of, expired_pending, expired_sessions,
  set_enabled_off, after_sweep, janitor_round,
}

abbrev pub pending_src : Pending → Key
pending_src p = p.addr.ip

abbrev pub session_src : ExitSession → Key
session_src ss = ss.src

-- The accounts are exact: each source is charged for its pending handshakes and its sessions.
-- Each session holds a pool address that leads back to it.
pub record IsExitServer (s : ExitServer) : Type 0 where
  pub pending_unique : Unique s.pending
  pub sessions_unique : Unique s.sessions
  pub counted :
      (src : Key)
      → source_count src s.per_source
        ≡ count_by pending_src src s.pending + count_by session_src src s.sessions
  pub capped : (src : Key) → source_count src s.per_source ≤ s.max_per_src
  pub pooled :
      (sid : Key) (ss : ExitSession)
      → lookup sid s.sessions ≡ some ss
      → (lookup ss.pool_ip s.by_pool ≡ some sid) × IsPoolHost s.pool_base s.pool_size ss.pool_ip
  pub few : length s.sessions ≤ s.max_clients

pub add_pending-IsExitServer :
    (sid : Key) (p : Pending) (s : ExitServer)
    → IsExitServer s
    → lookup sid s.pending ≡ none
    → source_count p.addr.ip s.per_source < s.max_per_src
    → IsExitServer (add_pending sid p s)
unfolding add_pending
add_pending-IsExitServer sid p s v new room = record {
  pending_unique = insert-Unique sid p s.pending v.pending_unique;
  sessions_unique = v.sessions_unique;
  counted = λ src. elim (Bool-cases (p.addr.ip == src)) [
    | inl same ↦
        let e : p.addr.ip ≡ src = (==_iff p.addr.ip src).0 same in
        ground (
          arith,
          source_count-insert src p.addr.ip (source_count p.addr.ip s.per_source + 1) s.per_source,
          count_by-insert_new pending_src src sid p s.pending new,
          v.counted src,
          ap (λ k. source_count k s.per_source) e,
          same,
        )
    | inr far ↦ ground (
      arith,
      source_count-insert src p.addr.ip (source_count p.addr.ip s.per_source + 1) s.per_source,
      count_by-insert_new pending_src src sid p s.pending new,
      v.counted src,
      far,
    )
  ];
  capped = λ src. ground (
    arith,
    source_count-insert src p.addr.ip (source_count p.addr.ip s.per_source + 1) s.per_source,
    v.capped src,
    room,
  );
  pooled = v.pooled;
  few = v.few;
}

-- Without a pending handshake, and with one charge less for its source.
pub cancel_pending-IsExitServer :
    (sid : Key) (s : ExitServer) → IsExitServer s → IsExitServer (cancel_pending sid s)
unfolding cancel_pending
cancel_pending-IsExitServer sid s v = elim (Option-cases (lookup sid s.pending)) [
  | inl missing ↦ rw (missing, cancel_pending) v
  | inr (p, there) ↦
      rw (there, cancel_pending)
        (record {
          pending_unique = without-Unique sid s.pending v.pending_unique;
          sessions_unique = v.sessions_unique;
          counted = λ src. ground (
            arith,
            source_count-dec_source src p.addr.ip s.per_source,
            count_by-without pending_src src sid p s.pending v.pending_unique there,
            v.counted src,
          );
          capped = λ src.
              ground (arith, source_count-dec_source src p.addr.ip s.per_source, v.capped src);
          pooled = v.pooled;
          few = v.few;
        })
]

-- A session that is written back keeps its source and its pool address.
pub put_session-IsExitServer :
    (sid : Key) (old ss : ExitSession) (s : ExitServer)
    → IsExitServer s
    → lookup sid s.sessions ≡ some old
    → ss.src ≡ old.src
    → ss.pool_ip ≡ old.pool_ip
    → IsExitServer (put_session sid ss s)
unfolding put_session
put_session-IsExitServer sid old ss s v there same_src same_ip = record {
  pending_unique = v.pending_unique;
  sessions_unique = insert-Unique sid ss s.sessions v.sessions_unique;
  counted = λ src.
      v.counted src
      ∙ rw (count_by-insert_same session_src src sid ss old s.sessions there (sym same_src)) refl;
  capped = v.capped;
  pooled = λ k r e. elim (Bool-cases (sid == k)) [
    | inl same ↦
        let at : sid ≡ k = (==_iff sid k).0 same in
        let this : ss ≡ r =
          some-injective _ _ (sym (lookup-insert sid k ss s.sessions ∙ rw same refl) ∙ e) in
        let held = v.pooled sid old there in
        rw (ap (λ (z : ExitSession). z.pool_ip) (sym this) ∙ same_ip, sym at) held
    | inr far ↦ v.pooled k r (sym (lookup-insert sid k ss s.sessions ∙ rw far refl) ∙ e)
  ];
  few = ground (arith, v.few, length-insert sid ss s.sessions, there);
}

-- A session that is removed gives its address and its charge back.
pub remove_session-IsExitServer :
    (sid : Key) (s : ExitServer) → IsExitServer s → IsExitServer (remove_session sid s)
unfolding remove_session
remove_session-IsExitServer sid s v = elim (Option-cases (lookup sid s.sessions)) [
  | inl missing ↦ rw (missing, remove_session) v
  | inr (ss, there) ↦
      rw (there, remove_session)
        (record {
          pending_unique = v.pending_unique;
          sessions_unique = without-Unique sid s.sessions v.sessions_unique;
          counted = λ src. ground (
            arith,
            source_count-dec_source src ss.src s.per_source,
            count_by-without session_src src sid ss s.sessions v.sessions_unique there,
            v.counted src,
          );
          capped =
              λ src. ground (arith, source_count-dec_source src ss.src s.per_source, v.capped src);
          pooled = λ k r e. elim (Bool-cases (sid == k)) [
            | inl same ↦
                absurd (none-ne-some _ (sym (lookup-without sid k s.sessions ∙ rw same refl) ∙ e))
            | inr far ↦
                let held = v.pooled k r (sym (lookup-without sid k s.sessions ∙ rw far refl) ∙ e) in
                let mine = v.pooled sid ss there in
                (
                  lookup-without ss.pool_ip r.pool_ip s.by_pool
                      ∙ elim (Bool-cases (ss.pool_ip == r.pool_ip)) [
                        | inl one ↦
                            let ip : ss.pool_ip ≡ r.pool_ip = (==_iff ss.pool_ip r.pool_ip).0 one in
                            absurd (
                              ==_ne sid k far (
                                some-injective _ _
                                  (sym mine.0 ∙ ap (λ i. lookup i s.by_pool) ip ∙ held.0)))
                        | inr two ↦ rw two held.0
                      ],
                  held.1,
                )
          ];
          few = omega (arith, v.few, length-without-le sid s.sessions);
        })
]

-- A handshake that completes hands its charge on to the session.
pub promote-IsExitServer :
    (sid : Key) (p : Pending) (ss : ExitSession) (s : ExitServer)
    → IsExitServer s
    → lookup sid s.pending ≡ some p
    → lookup sid s.sessions ≡ none
    → ss.src ≡ p.addr.ip
    → lookup ss.pool_ip s.by_pool ≡ none
    → IsPoolHost s.pool_base s.pool_size ss.pool_ip
    → length s.sessions < s.max_clients
    → IsExitServer (promote sid ss s)
unfolding promote
promote-IsExitServer sid p ss s v waiting new same_src free host room = record {
  pending_unique = without-Unique sid s.pending v.pending_unique;
  sessions_unique = insert-Unique sid ss s.sessions v.sessions_unique;
  counted = λ src. ground (
    arith,
    count_by-without pending_src src sid p s.pending v.pending_unique waiting,
    count_by-insert_new session_src src sid ss s.sessions new,
    v.counted src,
    same_src,
  );
  capped = v.capped;
  pooled = λ k r e. elim (Bool-cases (sid == k)) [
    | inl same ↦
        let at : sid ≡ k = (==_iff sid k).0 same in
        let this : ss ≡ r =
          some-injective _ _ (sym (lookup-insert sid k ss s.sessions ∙ rw same refl) ∙ e) in
        let ip : r.pool_ip ≡ ss.pool_ip = ap (λ (z : ExitSession). z.pool_ip) (sym this) in
        (
          rw ip (
              lookup-insert ss.pool_ip ss.pool_ip sid s.by_pool
              ∙ rw (==_refl ss.pool_ip) (ap some at)),
          rw ip host,
        )
    | inr far ↦
        let held = v.pooled k r (sym (lookup-insert sid k ss s.sessions ∙ rw far refl) ∙ e) in
        (
          lookup-insert ss.pool_ip r.pool_ip sid s.by_pool
              ∙ elim (Bool-cases (ss.pool_ip == r.pool_ip)) [
                | inl one ↦
                    let ip : ss.pool_ip ≡ r.pool_ip = (==_iff ss.pool_ip r.pool_ip).0 one in
                    absurd (none-ne-some _ (sym free ∙ ap (λ i. lookup i s.by_pool) ip ∙ held.0))
                | inr two ↦ rw two held.0
              ],
          held.1,
        )
  ];
  few = ground (arith, room, length-insert sid ss s.sessions, new);
}

cancel_all-IsExitServer :
    (l : List Key) (s : ExitServer) → IsExitServer s → IsExitServer (cancel_all l s)
unfolding cancel_all
cancel_all-IsExitServer [] s v = v
cancel_all-IsExitServer (sid ∷ l) s v =
    cancel_all-IsExitServer l (cancel_pending sid s) (cancel_pending-IsExitServer sid s v)

remove_all-IsExitServer :
    (l : List Key) (s : ExitServer) → IsExitServer s → IsExitServer (remove_all l s)
unfolding remove_all
remove_all-IsExitServer [] s v = v
remove_all-IsExitServer (sid ∷ l) s v =
    remove_all-IsExitServer l (remove_session sid s) (remove_session-IsExitServer sid s v)

close_all-IsExitServer : (s : ExitServer) → IsExitServer s → IsExitServer (close_all s)
unfolding close_all
close_all-IsExitServer s v =
    remove_all-IsExitServer (keys_of s.sessions) (cancel_all (keys_of s.pending) s)
      (cancel_all-IsExitServer (keys_of s.pending) s v)

off-IsExitServer : (s : ExitServer) → IsExitServer s → IsExitServer (record s { enabled = false })
off-IsExitServer s v = record {
  pending_unique = v.pending_unique;
  sessions_unique = v.sessions_unique;
  counted = v.counted;
  capped = v.capped;
  pooled = v.pooled;
  few = v.few;
}

set_enabled_off-IsExitServer : (s : ExitServer) → IsExitServer s → IsExitServer (set_enabled_off s)
unfolding set_enabled_off
set_enabled_off-IsExitServer s v = at s.enabled
  where
    at : (b : Bool) → IsExitServer (if b then close_all (record s { enabled = false }) else s)
    at true = close_all-IsExitServer (record s { enabled = false }) (off-IsExitServer s v)
    at false = v

after_sweep-IsExitServer :
    (stops over : Bool) (s : ExitServer) → IsExitServer s → IsExitServer (after_sweep stops over s)
unfolding after_sweep
after_sweep-IsExitServer stops over s v = at s.enabled stops over
  where
    at :
        (b c d : Bool)
        → IsExitServer
            (if not b then s else if c then set_enabled_off s else if d then close_all s else s)
    at false c d = v
    at true true d = set_enabled_off-IsExitServer s v
    at true false true = close_all-IsExitServer s v
    at true false false = v

pub janitor_round-IsExitServer :
    (now : ℕ) (stops over : Bool) (s : ExitServer)
    → IsExitServer s
    → IsExitServer (janitor_round now stops over s)
unfolding janitor_round
janitor_round-IsExitServer now stops over s v = after_sweep-IsExitServer stops over _ (
    remove_all-IsExitServer (expired_sessions now s.sessions) _
      (cancel_all-IsExitServer (expired_pending now s.pending) s v))
