-- ===== src/SessionTable.antt =====
-- client/sessions.go: the table of sessions, with the routes and the post-quantum state that its
-- operations take down (SessionTable, and from client/main.go the intervals it works with).
-- An endpoint and a static key are map keys, 0 for a nil endpoint and for the zero key. The nonces
-- and the window of a session are in Replay; the handshake that completes one is not modelled.
-- Each operation is one step, with the clock an argument; logs are left out. A callback is recorded
-- by the endpoints it is called with.
pub mod Steps
pub mod Flood
pub mod Desync
pub mod Sweep
pub mod Primary
mod Tests
use apgo.Prelude.{
  ℕ, suc, ◌+◌, ◌*◌, ◌/◌, Bool, true, false, not, ◌&&◌, ◌||◌, List, [], ◌∷◌, Option, none, some, ltb,
  leb, ◌==◌, if◌then◌else◌, length,
}
use apgo.Prelude.Maps.{Key, Assoc, lookup, insert, without, retain}
use apgo.Backoff.{second, minute, BackoffState, prune_backoff}
use apgo.IpLearning.{Sessions, Learned, forget_addr, remap_addr}

abbrev pub session_idle_timeout : ℕ
session_idle_timeout = 5 * minute

-- The number of seconds between keepalives that a configuration asks for.
unfoldable pub keepalive_seconds : ℕ → ℕ
keepalive_seconds asked =
    let or_default = if asked == 0 then 10 else asked in
    let at_least = if ltb or_default 5 then 5 else or_default in
    if ltb 120 at_least then 120 else at_least

-- `gKeepaliveInterval` and `sessionStaleTimeout`
unfoldable pub keepalive_interval : ℕ → ℕ
keepalive_interval seconds = seconds * second

unfoldable pub session_stale_timeout : ℕ → ℕ
session_stale_timeout keepalive = 3 * keepalive + 15 * second

unfoldable pub route_live_timeout : ℕ → ℕ
route_live_timeout keepalive = 2 * keepalive + 2 * second

unfoldable pub desync_quiet_period : ℕ → ℕ
desync_quiet_period keepalive =
    let slack = keepalive / 2 in keepalive + (if ltb slack (3 * second) then 3 * second else slack)

-- What the table asks of an endpoint: `isAttachedLANAddr`; IsPrivate, IsLinkLocalUnicast or
-- IsLoopback of its IP; `isGlobalIPv6` of its IP.
pub record AddrTests : Type 0 where
  pub is_attached : Key → Bool
  pub is_private_ip : Key → Bool
  pub is_global_ipv6 : Key → Bool

unfoldable pub route_class : AddrTests → Key → ℕ
route_class c addr =
    if addr == 0
    then 0
    else if c.is_attached addr
    then 3
    else if c.is_private_ip addr
    then 2
    else if c.is_global_ipv6 addr
    then 1
    else 0

unfoldable pub is_private_udp_addr : AddrTests → Key → Bool
is_private_udp_addr c addr =
    if addr == 0 then false else if c.is_attached addr then true else c.is_private_ip addr

-- `keyed`: both cipher states are there.
pub record Session : Type 0 where
  pub addr : Key
  pub keyed : Bool
  pub established : Bool
  pub last_seen : ℕ
  pub decrypt_fails : ℕ
  pub peer_static : Key

-- The table and what it takes down: the back-off, the learned routes, and for each static key the
-- ML-KEM state (`pqPeers`, of which only the keys count here) and the status flag (`peerPQ`).
pub record Node : Type 0 where
  pub by_addr : Assoc Session
  pub backoff : Assoc BackoffState
  pub learned : Learned
  pub pq_peers : Assoc Bool
  pub peer_pq : Assoc Bool
  pub has_callback : Bool
  pub lost : List Key

unfoldable pub get_by_addr : Key → Node → Option Session
get_by_addr addr n = if addr == 0 then none else lookup addr n.by_addr

-- `Established` of a session that is there.
unfoldable pub is_established : Session → Bool
is_established s = s.established && s.keyed

unfoldable pub route_is_live : ℕ → ℕ → Key → Node → Bool
route_is_live keepalive now addr n = elim (get_by_addr addr n) [
  | none ↦ false
  | some s ↦ is_established s && leb now (s.last_seen + route_live_timeout keepalive)
]

-- The loop of `dropPeerCryptoIfNoRoute`.
unfoldable pub has_route : Key → Assoc Session → Bool
has_route k [] = false
has_route k ((addr, s) ∷ m) = (s.established && (s.peer_static == k)) || has_route k m

unfoldable pub drop_peer_crypto_if_no_route : Key → Node → Node
drop_peer_crypto_if_no_route k n =
    if k == 0
    then n
    else if has_route k n.by_addr
    then n
    else record n { pq_peers = without k n.pq_peers; peer_pq = without k n.peer_pq }

-- The test of the sweep: now.Sub(s.lastSeen) > limit.
unfoldable pub is_stale : ℕ → ℕ → Session → Bool
is_stale keepalive now s =
    let limit = if s.established then session_stale_timeout keepalive else session_idle_timeout in
    ltb (s.last_seen + limit) now

-- `lost` and `lostKeys`, in one list.
unfoldable pub lost_sessions : ℕ → ℕ → Assoc Session → List (Key × Key)
lost_sessions keepalive now [] = []
lost_sessions keepalive now ((addr, s) ∷ m) =
    let rest = lost_sessions keepalive now m in
    if is_stale keepalive now s && (s.established && not (s.addr == 0))
    then (s.addr, s.peer_static) ∷ rest
    else rest

-- `if cb != nil { go cb(addr) }`
unfoldable pub notify : Key → Node → Node
notify addr n = if n.has_callback then record n { lost = addr ∷ n.lost } else n

-- What follows the loss of the session of a key at an endpoint.
unfoldable pub take_down : Key → Key → Node → Node
take_down addr k n =
    notify addr (drop_peer_crypto_if_no_route k (record n { learned = forget_addr addr n.learned }))

unfoldable pub take_all_down : List (Key × Key) → Node → Node
take_all_down [] n = n
take_all_down ((addr, k) ∷ l) n = take_all_down l (take_down addr k n)

unfoldable pub evict_stale : ℕ → ℕ → Node → Node
evict_stale keepalive now n = take_all_down (lost_sessions keepalive now n.by_addr) (record n {
  backoff = prune_backoff now n.backoff;
  by_addr = retain (λ addr s. not (is_stale keepalive now s)) n.by_addr;
})

abbrev pub key_at : Option Session → Key
key_at none = 0
key_at (some s) = s.peer_static

unfoldable pub evict : Key → Node → Node
evict addr n =
    drop_peer_crypto_if_no_route (key_at (lookup addr n.by_addr))
      (record n { by_addr = without addr n.by_addr })

unfoldable pub touch_last_seen : ℕ → Key → Node → Node
touch_last_seen now addr n = elim (lookup addr n.by_addr) [
  | none ↦ n
  | some s ↦ record n {
    by_addr = insert addr (record s { last_seen = now; decrypt_fails = 0 }) n.by_addr;
  }
]

-- A failed decrypt on the established session of an endpoint.
unfoldable pub count_failure : ℕ → ℕ → Key → Session → Node → Node
count_failure keepalive now addr s n =
    let fails = s.decrypt_fails + 1 in
    if ltb fails 10 || ltb now (s.last_seen + desync_quiet_period keepalive)
    then record n { by_addr = insert addr (record s { decrypt_fails = fails }) n.by_addr }
    else take_down addr s.peer_static (record n { by_addr = without addr n.by_addr })

unfoldable pub note_decrypt_failure : ℕ → ℕ → Key → Node → Node
note_decrypt_failure keepalive now addr n = elim (lookup addr n.by_addr) [
  | none ↦ n
  | some s ↦ if s.established then count_failure keepalive now addr s n else n
]

-- The condition of the loop of `set`: another established session of the key.
unfoldable pub is_other_route : Key → Key → Key → Session → Bool
is_other_route key peer k old = not (k == key) && old.established && (old.peer_static == peer)

unfoldable pub other_routes : Key → Key → Assoc Session → List Key
other_routes key peer [] = []
other_routes key peer ((k, old) ∷ m) =
    let rest = other_routes key peer m in
    if is_other_route key peer k old && not (old.addr == 0) then old.addr ∷ rest else rest

-- A live route over the LAN among them, which stays primary for a session that is not on the LAN.
unfoldable pub has_live_lan_route : AddrTests → ℕ → ℕ → Key → Key → Assoc Session → Bool
has_live_lan_route c keepalive now key peer [] = false
has_live_lan_route c keepalive now key peer ((k, old) ∷ m) =
    (is_other_route key peer k old
      && is_private_udp_addr c old.addr
      && leb now (old.last_seen + route_live_timeout keepalive))
    || has_live_lan_route c keepalive now key peer m

unfoldable pub takes_over : AddrTests → ℕ → ℕ → Key → Key → Assoc Session → Bool
takes_over c keepalive now key peer m =
    is_private_udp_addr c key || not (has_live_lan_route c keepalive now key peer m)

unfoldable pub remap_all : ℕ → List Key → Key → Learned → Learned
remap_all now [] addr t = t
remap_all now (old ∷ l) addr t = remap_all now l addr (remap_addr now old addr t)

-- `set`, for an endpoint that is not nil.
unfoldable pub set_session : AddrTests → ℕ → ℕ → Key → Session → Node → Node
set_session c keepalive now addr s n =
    let m = insert addr (record s { last_seen = now }) n.by_addr in
    let stored = record n { by_addr = m } in
    if s.peer_static == 0
    then stored
    else if takes_over c keepalive now addr s.peer_static m
    then record stored {
      learned = remap_all now (other_routes addr s.peer_static m) addr n.learned;
    }
    else stored

-- The keys that EstablishedPeerCount collects, and the sessions without a key that it counts.
unfoldable pub is_in : Key → List Key → Bool
is_in k [] = false
is_in k (j ∷ l) = (j == k) || is_in k l

unfoldable pub peer_keys : Assoc Session → List Key
peer_keys [] = []
peer_keys ((addr, s) ∷ m) =
    let rest = peer_keys m in
    if s.established && not (s.peer_static == 0) && not (is_in s.peer_static rest)
    then s.peer_static ∷ rest
    else rest

unfoldable pub keyless : Assoc Session → ℕ
keyless [] = 0
keyless ((addr, s) ∷ m) =
    let rest = keyless m in if s.established && (s.peer_static == 0) then suc rest else rest

unfoldable pub established_peer_count : Node → ℕ
established_peer_count n = length (peer_keys n.by_addr) + keyless n.by_addr

unfoldable pub established_addrs : Assoc Session → List Key
established_addrs [] = []
established_addrs ((addr, s) ∷ m) =
    let rest = established_addrs m in if s.established then s.addr ∷ rest else rest

-- `NudgeRediscovery`: the time of the last one, and whether the callback is called.
abbrev pub rediscovery_min_gap : ℕ
rediscovery_min_gap = 20 * second

abbrev pub is_too_soon : ℕ → Option ℕ → Bool
is_too_soon now none = false
is_too_soon now (some last) = ltb now (last + rediscovery_min_gap)

unfoldable pub nudge_rediscovery : Bool → ℕ → Option ℕ → Option ℕ × Bool
nudge_rediscovery has_callback now last =
    if not has_callback || is_too_soon now last then (last, false) else (some now, true)

-- What IpLearning asks of the table.
unfoldable pub table_sessions : AddrTests → (Key → Key) → ℕ → ℕ → Node → Sessions
table_sessions c overlay_ip keepalive now n = record {
  established = λ addr. elim (get_by_addr addr n) [
    | none ↦ none
    | some s ↦ if is_established s then some s.peer_static else none
  ];
  is_live = λ addr. route_is_live keepalive now addr n;
  route_class = route_class c;
  overlay_ip = overlay_ip;
}
