-- ===== src/ExitServer/Tests.antt =====
-- Runs of a public exit.
use apgo.Prelude.{ℕ, true, false, List, [], ◌∷◌, some, replicate, ◌≡◌, refl, arith}
use apgo.Prelude.Maps.{lookup}
use apgo.Prelude.Text.{Text, put_be, be_value, text_eq}
use apgo.PubExit.{new_channel}
use apgo.PubExit.Packet.{
  PxIpv4, px_parse, px_framed, px_base, px_transport, px_ihl, px_is_public_ipv4, in_none, contains,
}
use apgo.PubExit.Checksum.{px_checksum, px_sum, fold, fold_from, put_at, px_adjust, adjusted}
use apgo.PubExit.Rewrite.{px_rewrite, rewrite_parsed, checksum_at, rewrite_transport, rewrite_udp}
use apgo.PubExit.Source.{HasAddrs}
use apgo.ExitServer.{ExitSession, ExitServer}
use apgo.ExitServer.Counts.{count_by}
use apgo.ExitServer.Accounts.{IsExitServer}
use apgo.ExitServer.Forward.{
  Policy, MayLeave, px_allowed_destination, is_allowed_proto, is_blocked, flow_allowed,
  make_flow_room, charged, forward, from_parsed, from_client, from_client-MayLeave,
}
use apgo.ExitServer.Handlers.{Crypto, ExitCall}
use apgo.ExitServer.Bounds.{ExitEvent, arrives, cleans, run_exit, run_exit-IsExitServer}

abbrev policy : Policy
policy = record { is_overlay = λ a. false; is_self = λ a. false; blocked = 25 ∷ [] }

-- A client at pool address 198.18.0.2.
abbrev client : ExitSession
client = record {
  ch = new_channel 9;
  addr = record { ip = 1; at = 11 };
  src = 1;
  pool_ip = 3_323_068_418;
  created = 0;
  last_seen = 0;
  flows = [];
}

abbrev exit : ExitServer
exit = record {
  enabled = true;
  pending = [];
  sessions = [];
  by_pool = [];
  per_source = [];
  pool_base = 3_323_068_416;
  pool_size = 65_534;
  max_clients = 16;
  max_per_src = 2;
  blocked = 25 ∷ [];
}

-- A datagram to port 53 of 8.8.8.8 that names 10.0.0.1 as its source.
abbrev spoofed : Text
spoofed =
    69 ∷ 0 ∷ 0 ∷ 28 ∷ 0 ∷ 0 ∷ 0 ∷ 0 ∷ 64 ∷ 17 ∷ 0 ∷ 0 ∷ 10 ∷ 0 ∷ 0 ∷ 1 ∷ 8 ∷ 8 ∷ 8 ∷ 8 ∷ 4 ∷ 210 ∷ 0
    ∷ 53 ∷ 0 ∷ 8 ∷ 0 ∷ 0 ∷ []

abbrev sent : Text
sent =
    69 ∷ 0 ∷ 0 ∷ 28 ∷ 0 ∷ 0 ∷ 0 ∷ 0 ∷ 64 ∷ 17 ∷ 164 ∷ 173 ∷ 198 ∷ 18 ∷ 0 ∷ 2 ∷ 8 ∷ 8 ∷ 8 ∷ 8 ∷ 4
    ∷ 210 ∷ 0 ∷ 53 ∷ 0 ∷ 8 ∷ 0 ∷ 0 ∷ []

from_client-MayLeave_example :
    (p : PxIpv4) × (px_parse spoofed ≡ some p)
    × MayLeave policy p
    × HasAddrs (put_be 4 3_323_068_418) p.dst sent
unfolding from_client from_parsed forward charged flow_allowed make_flow_room px_allowed_destination
    is_allowed_proto is_blocked px_parse px_framed px_base px_transport px_ihl px_is_public_ipv4
    in_none contains px_rewrite rewrite_parsed checksum_at rewrite_transport rewrite_udp px_checksum
    px_sum fold fold_from put_at px_adjust adjusted put_be be_value text_eq lookup
from_client-MayLeave_example = from_client-MayLeave policy 5 true true spoofed sent client refl

-- Any first message is answered, and any third one completes.
abbrev crypto : Crypto
crypto = record {
  answers_hello = λ m. some (1 ∷ 2 ∷ []);
  finishes = λ sid m. true;
  seal = λ sid n hdr pt. pt;
  unseal = λ sid n hdr ct. some ct;
  policy = policy;
}

abbrev call : ℕ → Text → ExitCall
call now dgram = record {
  now = now;
  raddr = record { ip = 1; at = 11 };
  dgram = dgram;
  hello_allowed = true;
  quota_exceeded = false;
  draws = some 9 ∷ [];
  start = 7;
  flow_allows = true;
  up_allows = true;
}

-- A hello, its finish, and a round of the janitor.
abbrev events : List ExitEvent
events =
    arrives (call 1 (32 ∷ 1 ∷ 1 ∷ 0 ∷ 1 ∷ replicate 1395 0))
    ∷ arrives (call 2 (32 ∷ 3 ∷ 0 ∷ 0 ∷ 0 ∷ 9 ∷ 0 ∷ 1 ∷ 0 ∷ []))
    ∷ cleans 3 false false
    ∷ []

exit-IsExitServer : IsExitServer exit
unfolding lookup count_by
exit-IsExitServer = record {
  pending_unique = tt;
  sessions_unique = tt;
  counted = λ src. refl;
  capped = λ src. omega arith;
  pooled = λ sid ss h. absurd (ground arith);
  few = omega arith;
}

run_exit-IsExitServer_example : IsExitServer (run_exit crypto exit events)
run_exit-IsExitServer_example = run_exit-IsExitServer crypto exit events exit-IsExitServer
