-- ===== src/ExitServer/Handlers.antt =====
-- client/pubexit_server.go: the handlers of a public exit's datagrams (handleHandshake, onHello,
-- onFinish, handleData, and the server's half of handlePubExitPacket).
use apgo.Prelude.{
  ℕ, ◌+◌, ◌/◌, Bool, true, false, not, ◌&&◌, ◌||◌, List, [], ◌∷◌, ◌++◌, Option, none, some, ltb,
  leb, ◌==◌, if◌then◌else◌, length, take, drop, get_or,
}
use apgo.Prelude.Maps.{Key, lookup}
use apgo.Prelude.Text.{Text, be_value, put_be}
use apgo.Backoff.{second}
use apgo.PubExit.{
  PxChannel, PxOpened, px_opened, px_refused, px_short, px_auth, px_replayed, new_channel, px_seal,
  px_open, px_session_id, pkt_pub_exit, px_data,
}
use apgo.ExitServer.Forward.{Policy, from_client}
use apgo.ExitServer.{
  Endpoint, Pending, ExitSession, ExitServer, Out, datagram, to_tun, px_max_pending,
  px_handshake_ttl, px_lease, px_mtu, source_count, alloc_locked, new_session_id, add_pending,
  cancel_pending, promote, put_session, remove_session,
}

abbrev pub px_hello : ℕ
px_hello = 1

abbrev pub px_finish : ℕ
px_finish = 3

abbrev pub px_version : ℕ
px_version = 1

abbrev pub px_hello_size : ℕ
px_hello_size = 1400

-- Noise, ML-KEM and the ciphers: the second message for a first one; whether a third one completes
-- the handshake of a session; the ciphers of a session's two directions.
pub record Crypto : Type 0 where
  pub answers_hello : Text → Option Text
  pub finishes : Key → Text → Bool
  pub seal : Key → ℕ → Text → Text → Text
  pub unseal : Key → ℕ → Text → Text → Option Text
  pub policy : Policy

-- A datagram, and what the clock, the limiters and the random source answer while it is handled.
pub record ExitCall : Type 0 where
  pub now : ℕ
  pub raddr : Endpoint
  pub dgram : Text
  pub hello_allowed : Bool
  pub quota_exceeded : Bool
  pub draws : List (Option ℕ)
  pub start : ℕ
  pub flow_allows : Bool
  pub up_allows : Bool

abbrev pub sub_type : Text → ℕ
sub_type dgram = get_or dgram 1 0

abbrev pub word16 : ℕ → Text → ℕ
word16 i dgram = be_value (take 2 (drop i dgram)) 0

-- The reasons of a refusal.
abbrev pub deny_disabled : ℕ
deny_disabled = 1

abbrev pub deny_full : ℕ
deny_full = 2

abbrev pub deny_quota : ℕ
deny_quota = 3

abbrev pub deny_rate : ℕ
deny_rate = 4

abbrev pub deny_version : ℕ
deny_version = 5

abbrev pub deny : Endpoint → ℕ → List Out
deny raddr reason = datagram raddr (pkt_pub_exit ∷ 5 ∷ reason ∷ []) ∷ []

-- The reply to a hello, never as long as the hello.
unfoldable pub hello_reply : Endpoint → ℕ → Text → List Out
hello_reply raddr sid msg2 =
    let out : Text = pkt_pub_exit ∷ 2 ∷ (put_be 4 sid ++ (put_be 2 (length msg2) ++ msg2)) in
    if leb px_hello_size (length out) then [] else datagram raddr out ∷ []

unfoldable pub admit_hello : ExitCall → Text → Option ℕ → ExitServer → ExitServer × List Out
admit_hello c msg2 none s = (s, [])
admit_hello c msg2 (some sid) s =
    (add_pending sid (record { addr = c.raddr; created = c.now }) s, hello_reply c.raddr sid msg2)

unfoldable pub read_hello : Crypto → ExitCall → ExitServer → ExitServer × List Out
read_hello x c s =
    let n = word16 3 c.dgram in
    if (n == 0) || ltb (length c.dgram) (5 + n)
    then (s, [])
    else (elim (x.answers_hello (take n (drop 5 c.dgram))) [
      | none ↦ (s, [])
      | some msg2 ↦ admit_hello c msg2 (new_session_id c.draws s) s
    ])

abbrev pub is_full : ExitServer → Bool
is_full s = leb s.max_clients (length s.sessions) || leb px_max_pending (length s.pending)

unfoldable pub on_hello : Crypto → ExitCall → ExitServer → ExitServer × List Out
on_hello x c s =
    if not (length c.dgram == px_hello_size)
    then (s, [])
    else if not (get_or c.dgram 2 0 == px_version)
    then (s, deny c.raddr deny_version)
    else if not c.hello_allowed
    then (s, [])
    else if c.quota_exceeded
    then (s, deny c.raddr deny_quota)
    else if is_full s
    then (s, deny c.raddr deny_full)
    else if leb s.max_per_src (source_count c.raddr.ip s.per_source)
    then (s, deny c.raddr deny_rate)
    else read_hello x c s

-- The address and what goes with it, in the kind of message that assigns them.
unfoldable pub assign_body : ExitSession → Text
assign_body ss = put_be 4 ss.pool_ip ++ (put_be 2 px_mtu ++ put_be 4 (px_lease / second))

-- A sealed message to the session's address.
unfoldable pub reply :
    Crypto → Key → (kind : ℕ) → Text → Endpoint → ExitSession → ExitServer → ExitServer × List Out
reply x sid kind body to ss s =
    let (ch, sealed) = px_seal (x.seal sid) kind body ss.ch in
    (put_session sid (record ss { ch = ch }) s, datagram to sealed ∷ [])

abbrev pub new_session : ExitCall → Key → Pending → ℕ → ExitSession
new_session c sid p ip = record {
  ch = new_channel sid;
  addr = c.raddr;
  src = p.addr.ip;
  pool_ip = ip;
  created = c.now;
  last_seen = c.now;
  flows = [];
}

-- The end of onFinish: with an address the session starts, without one its source is released.
unfoldable pub seat :
    Crypto → ExitCall → Key → Pending → Option ℕ → ExitServer → ExitServer × List Out
seat x c sid p none s = (cancel_pending sid s, deny c.raddr deny_full)
seat x c sid p (some ip) s =
    let ss = new_session c sid p ip in reply x sid 4 (assign_body ss) c.raddr ss (promote sid ss s)

unfoldable pub finish_pending :
    Crypto → ExitCall → Key → Text → Pending → ExitServer → ExitServer × List Out
finish_pending x c sid msg3 p s =
    if not (p.addr.at == c.raddr.at) || ltb (p.created + px_handshake_ttl) c.now
    then (cancel_pending sid s, [])
    else if not (x.finishes sid msg3)
    then (cancel_pending sid s, [])
    else if leb s.max_clients (length s.sessions)
    then (cancel_pending sid s, deny c.raddr deny_full)
    else seat x c sid p (alloc_locked c.start s) s

-- A finish that is sent again has its assignment sent again, to the session's own address only.
unfoldable pub finish_again :
    Crypto → ExitCall → Key → ExitSession → ExitServer → ExitServer × List Out
finish_again x c sid ss s =
    if ss.addr.at == c.raddr.at then reply x sid 4 (assign_body ss) ss.addr ss s else (s, [])

unfoldable pub finish_session : Crypto → ExitCall → Key → Text → ExitServer → ExitServer × List Out
finish_session x c sid msg3 s = elim (lookup sid s.sessions) [
  | some ss ↦ finish_again x c sid ss s
  | none ↦ elim (lookup sid s.pending) [ none ↦ (s, []) | some p ↦ finish_pending x c sid msg3 p s ]
]

unfoldable pub on_finish : Crypto → ExitCall → ExitServer → ExitServer × List Out
on_finish x c s =
    let n = word16 6 c.dgram in
    if ltb (length c.dgram) 8 || ((n == 0) || ltb (length c.dgram) (8 + n))
    then (s, [])
    else finish_session x c (be_value (take 4 (drop 2 c.dgram)) 0) (take n (drop 8 c.dgram)) s

unfoldable pub handle_handshake : Crypto → ExitCall → ExitServer → ExitServer × List Out
handle_handshake x c s =
    if not s.enabled
    then (
      s,
      if (sub_type c.dgram == px_hello) && (length c.dgram == px_hello_size)
          then deny c.raddr deny_disabled
          else [],
    )
    else if sub_type c.dgram == px_hello
    then on_hello x c s
    else if sub_type c.dgram == px_finish
    then on_finish x c s
    else (s, [])

abbrev pub tun_out : Option Text → List Out
tun_out none = []
tun_out (some pkt) = to_tun pkt ∷ []

-- `s.fromClient(ss, body)`, at a session that is in the table.
unfoldable pub forward_packet :
    Crypto → ExitCall → Key → Text → ExitSession → ExitServer → ExitServer × List Out
forward_packet x c sid body ss s =
    if s.enabled
    then (let (flows, out) = from_client x.policy c.now c.flow_allows c.up_allows body ss in
        (put_session sid (record ss { flows = flows }) s, tun_out out))
    else (s, [])

-- What the kinds of a message that authenticated do.
unfoldable pub handle_kind :
    Crypto → ExitCall → Key → ℕ → Text → ExitSession → ExitServer → ExitServer × List Out
handle_kind x c sid kind body ss s =
    if kind == 1
    then forward_packet x c sid body ss s
    else if kind == 2
    then (if leb (length body) 64 then reply x sid 3 body c.raddr ss s else (s, []))
    else if kind == 5
    then (remove_session sid s, [])
    else (s, [])

unfoldable pub handle_opened :
    Crypto
    → ExitCall
    → Key
    → ExitSession
    → PxChannel
    → PxOpened
    → ExitServer
    → ExitServer × List Out × Bool
handle_opened x c sid ss ch (px_refused px_replayed) s = (s, [], true)
handle_opened x c sid ss ch (px_refused px_short) s = (s, [], false)
handle_opened x c sid ss ch (px_refused px_auth) s = (s, [], false)
handle_opened x c sid ss ch (px_opened kind body) s =
    let heard = record ss { ch = ch; addr = c.raddr; last_seen = c.now } in
    let (t, outs) = handle_kind x c sid kind body heard (put_session sid heard s) in (t, outs, true)

-- `handleData`: the verdict is whether the datagram was one of this exit's.
unfoldable pub handle_data : Crypto → ExitCall → Key → ExitServer → ExitServer × List Out × Bool
handle_data x c sid s = elim (lookup sid s.sessions) [
  | none ↦ (s, [], false)
  | some ss ↦ let (ch, r) = px_open (x.unseal sid) c.dgram ss.ch in handle_opened x c sid ss ch r s
]

-- The server's half of handlePubExitPacket.
unfoldable pub handle_packet : Crypto → ExitCall → ExitServer → ExitServer × List Out
handle_packet x c s =
    if ltb (length c.dgram) 2
    then (s, [])
    else if (sub_type c.dgram == px_hello) || (sub_type c.dgram == px_finish)
    then handle_handshake x c s
    else if sub_type c.dgram == px_data
    then (elim (px_session_id c.dgram) [
      | none ↦ (s, [])
      | some sid ↦ let r = handle_data x c sid s in (r.0, r.1)
    ])
    else (s, [])
