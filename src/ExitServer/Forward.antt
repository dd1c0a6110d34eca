-- ===== src/ExitServer/Forward.antt =====
-- client/pubexit_server.go: what a public exit lets through to the internet (pxAllowedDestination,
-- flowAllowed, fromClient). The overlay's range and the host's own addresses are parameters, with
-- the answers of the rate limiters.
use apgo.Prelude.{
  ℕ, ◌+◌, ◌*◌, ◌≤◌, Bool, true, false, not, ◌&&◌, ◌||◌, List, [], ◌∷◌, ◌++◌, Option, none, some,
  ltb, leb, ◌==◌, if◌then◌else◌, length, Bool-cases, Option-cases, ◌≡◌, ◌⊎◌, inl, inr, arith,
}
use apgo.Prelude.Maps.{Key, Assoc, lookup, insert, retain, is_some, length-insert, length-retain-le}
use apgo.Prelude.Text.{Text, be_value, put_be, length-put_be}
use apgo.Backoff.{minute}
use apgo.PubExit.Packet.{PxIpv4, px_parse, px_is_public_ipv4}
use apgo.PubExit.Rewrite.{px_rewrite}
use apgo.PubExit.Source.{HasAddrs, px_rewrite-HasAddrs}
use apgo.ExitServer.{ExitSession}

abbrev pub px_max_flows : ℕ
px_max_flows = 4096

abbrev pub px_flow_idle : ℕ
px_flow_idle = 2 * minute

-- What the policy asks of the host: its overlay's range, its own addresses, the blocked ports.
pub record Policy : Type 0 where
  pub is_overlay : Text → Bool
  pub is_self : Text → Bool
  pub blocked : List ℕ

unfoldable pub is_blocked : ℕ → List ℕ → Bool
is_blocked port [] = false
is_blocked port (p ∷ l) = (p == port) || is_blocked port l

unfoldable pub is_allowed_proto : PxIpv4 → Bool
is_allowed_proto p =
    if (p.proto == 6) || (p.proto == 17)
    then true
    else if p.proto == 1
    then not (p.first_frg && not (p.icmp_type == 8))
    else false

unfoldable pub px_allowed_destination : Policy → PxIpv4 → Bool
px_allowed_destination c p =
    if not (p.ihl == 20)
    then false
    else if not (px_is_public_ipv4 p.dst)
    then false
    else if c.is_overlay p.dst
    then false
    else if c.is_self p.dst
    then false
    else if not (is_allowed_proto p)
    then false
    else if p.has_port && is_blocked p.dport c.blocked
    then false
    else true

-- A pxFlowKey as a map key.
abbrev pub flow_key : PxIpv4 → Key
flow_key p = be_value (p.proto ∷ (p.dst ++ put_be 2 p.dport)) 0

-- The flows that are not idle, when there is no room for one more.
unfoldable pub make_flow_room : ℕ → Assoc ℕ → Assoc ℕ
make_flow_room now flows =
    if leb px_max_flows (length flows)
    then retain (λ k t. not (ltb (t + px_flow_idle) now)) flows
    else flows

-- `flowAllowed`: the flows, and the verdict; `allows` is what the limiter of new flows answers.
unfoldable pub flow_allowed : (now : ℕ) (allows : Bool) → PxIpv4 → Assoc ℕ → Assoc ℕ × Bool
flow_allowed now allows p flows =
    let room = make_flow_room now flows in
    if not p.has_port && not (p.proto == 1)
    then (flows, true)
    else if is_some (lookup (flow_key p) flows)
    then (insert (flow_key p) now flows, true)
    else if leb px_max_flows (length room)
    then (room, false)
    else if not allows
    then (room, false)
    else (insert (flow_key p) now room, true)

-- The test of fromClient on the flow: only a first fragment is charged.
unfoldable pub charged : (now : ℕ) (allows : Bool) → PxIpv4 → Assoc ℕ → Assoc ℕ × Bool
charged now allows p flows = if p.first_frg then flow_allowed now allows p flows else (flows, true)

-- `rewritten` is the packet with the session's address as its source.
unfoldable pub forward :
    (up_allows : Bool) (rewritten : Option Text) → Assoc ℕ × Bool → Assoc ℕ × Option Text
forward up_allows rewritten (flows, ok) =
    if not ok then (flows, none) else if not up_allows then (flows, none) else (flows, rewritten)

unfoldable pub from_parsed :
    Policy
    → (now : ℕ) (allows up_allows : Bool) → Text
    → ExitSession
    → PxIpv4
    → Assoc ℕ × Option Text
from_parsed c now allows up_allows pkt ss p =
    if not (px_allowed_destination c p)
    then (ss.flows, none)
    else forward up_allows (px_rewrite pkt true (put_be 4 ss.pool_ip))
        (charged now allows p ss.flows)

-- `fromClient`: the flows, and the packet that is written to the host's network.
unfoldable pub from_client :
    Policy → (now : ℕ) (allows up_allows : Bool) → Text → ExitSession → Assoc ℕ × Option Text
from_client c now allows up_allows pkt ss = elim (px_parse pkt) [
  | none ↦ (ss.flows, none)
  | some p ↦ from_parsed c now allows up_allows pkt ss p
]

-- A packet that the policy lets through.
pub record MayLeave (c : Policy) (p : PxIpv4) : Type 0 where
  pub no_options : p.ihl ≡ 20
  pub is_public : px_is_public_ipv4 p.dst ≡ true
  pub not_overlay : c.is_overlay p.dst ≡ false
  pub not_self : c.is_self p.dst ≡ false
  pub proto : (p.proto ≡ 6) ⊎ ((p.proto ≡ 17) ⊎ (p.proto ≡ 1))
  pub echo : p.proto ≡ 1 → p.first_frg ≡ true → p.icmp_type ≡ 8
  pub port : p.has_port ≡ true → is_blocked p.dport c.blocked ≡ false

px_allowed_destination-MayLeave :
    (c : Policy) (p : PxIpv4) → px_allowed_destination c p ≡ true → MayLeave c p
unfolding px_allowed_destination is_allowed_proto
px_allowed_destination-MayLeave c p h = record {
  no_options = ground (arith, h);
  is_public = ground (arith, h);
  not_overlay = ground (arith, h);
  not_self = ground (arith, h);
  proto = elim (Bool-cases (p.proto == 6)) [
    | inl tcp ↦ inl (ground (arith, tcp))
    | inr rest ↦ elim (Bool-cases (p.proto == 17)) [
      | inl udp ↦ inr (inl (ground (arith, udp)))
      | inr other ↦ inr (inr (ground (arith, h, rest, other)))
    ]
  ];
  echo = λ i f. ground (arith, h, i, f);
  port = λ f. ground (arith, h, f);
}

-- Only packets for the public internet leave a public exit, and under its client's own address: a
-- packet that is written to the host's network was parsed, has no IP options, goes where it went to
-- a public address outside the overlay and not to this host, by TCP, UDP or an ICMP echo request (a
-- later fragment names no ICMP type), to no blocked port, and has the session's pool address as its
-- source, whatever source the client wrote.
pub from_client-MayLeave :
    (c : Policy) (now : ℕ) (allows up_allows : Bool) (pkt out : Text) (ss : ExitSession)
    → (from_client c now allows up_allows pkt ss).1 ≡ some out
    → (p : PxIpv4) × (px_parse pkt ≡ some p)
      × MayLeave c p
      × HasAddrs (put_be 4 ss.pool_ip) p.dst out
unfolding from_client from_parsed forward
from_client-MayLeave c now allows up_allows pkt out ss h = elim (Option-cases (px_parse pkt)) [
  | inl broken ↦ absurd (ground (arith, h, broken))
  | inr (p, parsed) ↦
      let verdict : px_allowed_destination c p ≡ true = ground (arith, h, parsed) in
      let made : px_rewrite pkt true (put_be 4 ss.pool_ip) ≡ some out =
        ground (arith, h, parsed, verdict) in
      (
        p,
        parsed,
        px_allowed_destination-MayLeave c p verdict,
        px_rewrite-HasAddrs p (put_be 4 ss.pool_ip) pkt out (length-put_be 4 ss.pool_ip) parsed
            made,
      )
]

make_flow_room-le : (now : ℕ) (flows : Assoc ℕ) → length (make_flow_room now flows) ≤ length flows
unfolding make_flow_room
make_flow_room-le now flows =
    ground (arith, length-retain-le (λ k t. not (ltb (t + px_flow_idle) now)) flows)

-- A session never has more than its number of flows.
pub flow_allowed-le :
    (now : ℕ) (allows : Bool) (p : PxIpv4) (flows : Assoc ℕ)
    → length flows ≤ px_max_flows
    → length (flow_allowed now allows p flows).0 ≤ px_max_flows
unfolding flow_allowed
flow_allowed-le now allows p flows few = ground (
  arith,
  make_flow_room-le now flows,
  length-insert (flow_key p) now flows,
  length-insert (flow_key p) now (make_flow_room now flows),
)
