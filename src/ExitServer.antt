-- ===== src/ExitServer.antt =====
-- client/pubexit_server.go: the sessions of a public exit. The channel and the packets are those of
-- PubExit; the policy on packets is in ExitServer/Forward.
-- Each handler is one step, since the packets of a node are read by one loop. `byPool` names a
-- session by its identifier where the source holds a pointer to it. Noise, ML-KEM and the ciphers are
-- parameters (`Crypto`); the rate limiters count in floating point, and their answers are part of a
-- call, as are the random draws. Statistics, logs, the address translation and Configure are left
-- out.
pub mod Counts
pub mod Accounts
pub mod Pool
pub mod Forward
pub mod Handlers
pub mod Bounds
mod Tests
use apgo.Prelude.{
  ℕ, zero, suc, ◌+◌, ◌-◌, ◌*◌, ◌%◌, Bool, true, false, not, ◌&&◌, ◌||◌, List, [], ◌∷◌, ◌++◌, Option,
  none, some, ltb, leb, ◌==◌, if◌then◌else◌, length, take, drop, get_or,
}
use apgo.Prelude.Maps.{Key, Assoc, lookup, insert, without, is_some}
use apgo.Prelude.Text.{Text, be_value, put_be}
use apgo.Backoff.{second, minute}
use apgo.PubExit.{PxChannel, new_channel, px_seal, pkt_pub_exit}

-- The source's IP text, and the whole address.
pub record Endpoint : Type 0 where
  pub ip : Key
  pub at : Key

pub record Pending : Type 0 where
  pub addr : Endpoint
  pub created : ℕ

pub record ExitSession : Type 0 where
  pub ch : PxChannel
  pub addr : Endpoint
  pub src : Key
  pub pool_ip : ℕ
  pub created : ℕ
  pub last_seen : ℕ
  pub flows : Assoc ℕ

pub record ExitServer : Type 0 where
  pub enabled : Bool
  pub pending : Assoc Pending
  pub sessions : Assoc ExitSession
  pub by_pool : Assoc Key
  pub per_source : Assoc ℕ
  pub pool_base : ℕ
  pub pool_size : ℕ
  pub max_clients : ℕ
  pub max_per_src : ℕ
  pub blocked : List ℕ

-- What a handler sends: a datagram, or a packet to the host's network.
pub data Out : Type 0 where
  datagram : Endpoint → Text → Out
  to_tun : Text → Out

abbrev pub px_max_pending : ℕ
px_max_pending = 256

abbrev pub px_handshake_ttl : ℕ
px_handshake_ttl = 10 * second

abbrev pub px_lease : ℕ
px_lease = 360 * minute

abbrev pub px_idle : ℕ
px_idle = 3 * minute

abbrev pub px_mtu : ℕ
px_mtu = 1280

-- `s.perSource[src]`, 0 for a missing key.
abbrev pub or_zero : Option ℕ → ℕ
or_zero none = 0
or_zero (some n) = n

abbrev pub source_count : Key → Assoc ℕ → ℕ
source_count src m = or_zero (lookup src m)

unfoldable pub dec_source : Key → Assoc ℕ → Assoc ℕ
dec_source src m =
    if leb (source_count src m) 1 then without src m else insert src (source_count src m - 1) m

-- The loop of `allocLocked` over the hosts from a random one on: `i` of `rounds` are done.
unfoldable pub pool_host : (base size start i : ℕ) → ℕ
pool_host base size start i = base + (2 + (start + i) % (size - 1))

unfoldable pub alloc_from : (base size start i rounds : ℕ) → Assoc Key → Option ℕ
alloc_from base size start i zero used = none
alloc_from base size start i (suc rounds) used =
    let rest = alloc_from base size start (i + 1) rounds used in
    let ip = pool_host base size start i in if is_some (lookup ip used) then rest else some ip

unfoldable pub alloc_locked : ℕ → ExitServer → Option ℕ
alloc_locked draw s =
    if ltb s.pool_size 3
    then none
    else alloc_from s.pool_base s.pool_size (draw % (s.pool_size - 1)) 0 (s.pool_size - 1) s.by_pool

-- `newSessionID`: at most eight draws, of which one may fail.
unfoldable pub draw_session_id : List (Option ℕ) → ExitServer → Option ℕ
draw_session_id [] s = none
draw_session_id (none ∷ draws) s = none
draw_session_id (some id ∷ draws) s =
    let next = draw_session_id draws s in
    if id == 0
    then next
    else if is_some (lookup id s.pending) || is_some (lookup id s.sessions)
    then next
    else some id

unfoldable pub new_session_id : List (Option ℕ) → ExitServer → Option ℕ
new_session_id draws s = draw_session_id (take 8 draws) s

-- `s.pending[sid] = …; s.perSource[src]++`
unfoldable pub add_pending : Key → Pending → ExitServer → ExitServer
add_pending sid p s = record s {
  pending = insert sid p s.pending;
  per_source = insert p.addr.ip (source_count p.addr.ip s.per_source + 1) s.per_source;
}

-- `delete(s.pending, sid)`, and `decSource` of its source.
unfoldable pub cancel_pending : Key → ExitServer → ExitServer
cancel_pending sid s = elim (lookup sid s.pending) [
  | none ↦ s
  | some p ↦ record s {
    pending = without sid s.pending;
    per_source = dec_source p.addr.ip s.per_source;
  }
]

-- `delete(s.pending, sid)`, and the session in its place.
unfoldable pub promote : Key → ExitSession → ExitServer → ExitServer
promote sid ss s = record s {
  pending = without sid s.pending;
  sessions = insert sid ss s.sessions;
  by_pool = insert ss.pool_ip sid s.by_pool;
}

unfoldable pub put_session : Key → ExitSession → ExitServer → ExitServer
put_session sid ss s = record s { sessions = insert sid ss s.sessions }

-- `remove`, less the message.
unfoldable pub remove_session : Key → ExitServer → ExitServer
remove_session sid s = elim (lookup sid s.sessions) [
  | none ↦ s
  | some ss ↦ record s {
    sessions = without sid s.sessions;
    by_pool = without ss.pool_ip s.by_pool;
    per_source = dec_source ss.src s.per_source;
  }
]

unfoldable pub cancel_all : List Key → ExitServer → ExitServer
cancel_all [] s = s
cancel_all (sid ∷ l) s = cancel_all l (cancel_pending sid s)

unfoldable pub remove_all : List Key → ExitServer → ExitServer
remove_all [] s = s
remove_all (sid ∷ l) s = remove_all l (remove_session sid s)

abbrev pub keys_of {ℓ} : {V : Type ℓ} → Assoc V → List Key
keys_of [] = []
keys_of ((k, v) ∷ m) = k ∷ keys_of m

unfoldable pub close_all : ExitServer → ExitServer
close_all s = remove_all (keys_of s.sessions) (cancel_all (keys_of s.pending) s)

-- The two loops of a round of `janitor`.
unfoldable pub expired_pending : ℕ → Assoc Pending → List Key
expired_pending now [] = []
expired_pending now ((sid, p) ∷ m) =
    let rest = expired_pending now m in
    if ltb (p.created + px_handshake_ttl) now then sid ∷ rest else rest

unfoldable pub expired_sessions : ℕ → Assoc ExitSession → List Key
expired_sessions now [] = []
expired_sessions now ((sid, ss) ∷ m) =
    let rest = expired_sessions now m in
    if ltb (ss.last_seen + px_idle) now || ltb (ss.created + (px_lease + 10 * minute)) now
    then sid ∷ rest
    else rest

-- What follows them: `stops`, the prerequisites are gone; `over`, the quota is used up.
unfoldable pub set_enabled_off : ExitServer → ExitServer
set_enabled_off s = if s.enabled then close_all (record s { enabled = false }) else s

unfoldable pub after_sweep : (stops over : Bool) → ExitServer → ExitServer
after_sweep stops over s =
    if not s.enabled
    then s
    else if stops
    then set_enabled_off s
    else if over
    then close_all s
    else s

unfoldable pub janitor_round : ℕ → (stops over : Bool) → ExitServer → ExitServer
janitor_round now stops over s =
    after_sweep stops over
      (remove_all (expired_sessions now s.sessions) (cancel_all (expired_pending now s.pending) s))
