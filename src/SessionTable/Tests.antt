-- ===== src/SessionTable/Tests.antt =====
-- Runs of the session table.
use apgo.Prelude.{ℕ, true, false, List, [], ◌∷◌, none, some, ◌==◌, ◌≡◌, refl, arith}
use apgo.Prelude.Maps.{Key, lookup, insert}
use apgo.IpLearning.{lookup_route, learn, choose, against, same_device, learn_over, decided}
use apgo.SessionTable.{
  AddrTests, Session, Node, desync_quiet_period, note_decrypt_failure, set_session,
  established_peer_count, table_sessions, is_established, route_is_live, get_by_addr, route_class,
  peer_keys, keyless, is_in,
}
use apgo.SessionTable.Steps.{Event, failed, decrypted, swept, run}
use apgo.SessionTable.Flood.{IsAlive, flood-IsAlive}
use apgo.SessionTable.Desync.{desync_taken_down}
use apgo.SessionTable.Primary.{MovesRoutes, lookup_route-set_session}

-- Endpoint 2 is on the LAN.
abbrev lan_tests : AddrTests
lan_tests = record {
  is_attached = λ a. a == 2;
  is_private_ip = λ a. false;
  is_global_ipv6 = λ a. a == 3;
}

abbrev keepalive : ℕ
keepalive = 10_000_000_000

abbrev session_of : Key → ℕ → Key → Session
session_of addr seen peer = record {
  addr = addr;
  keyed = true;
  established = true;
  last_seen = seen;
  decrypt_fails = 0;
  peer_static = peer;
}

-- The peer 7 at the endpoints 1 and 2, the peer 8 at endpoint 3.
abbrev table : Node
table = record {
  by_addr =
      (1, session_of 1 100_000_000_000 7)
      ∷ (2, session_of 2 160_000_000_000 7)
      ∷ (3, session_of 3 100_000_000_000 8)
      ∷ [];
  backoff = [];
  learned =
      (20, record { addr = 1; seen = 5 })
      ∷ (21, record { addr = 2; seen = 5 })
      ∷ (22, record { addr = 3; seen = 5 })
      ∷ [];
  pq_peers = (7, true) ∷ (8, true) ∷ [];
  peer_pq = (7, true) ∷ [];
  has_callback = true;
  lost = [];
}

two_peers : established_peer_count table ≡ 2
unfolding established_peer_count peer_keys keyless is_in
two_peers = refl

-- The endpoint 2 is ahead of endpoint 1 for the peer that both belong to.
lan_wins :
    lookup_route 20 (
      learn
        (λ a. false)
        (some (table_sessions lan_tests (λ k. 20) keepalive 161_000_000_000 table))
        9
        20
        2
        table.learned)
    ≡ some 2
unfolding lookup_route lookup learn learn_over choose against same_device decided table_sessions
    is_established route_is_live get_by_addr route_class insert
lan_wins = refl

table-IsAlive : IsAlive 2 160_000_000_000 table.by_addr
unfolding lookup
table-IsAlive = record {
  unique = (refl, (refl, (refl, tt)));
  session = session_of 2 160_000_000_000 7;
  there = refl;
  established = refl;
  seen = omega arith;
}

-- Garbage under the name of endpoint 2, a keepalive from it, more garbage, and a sweep.
abbrev flood : List (ℕ × Event)
flood =
    (162_000_000_000, failed 2)
    ∷ (163_000_000_000, failed 2)
    ∷ (170_000_000_000, decrypted 2)
    ∷ (180_000_000_000, failed 2)
    ∷ (181_000_000_000, swept)
    ∷ []

flood-IsAlive_example :
    (s : Session) × (lookup 2 (run lan_tests keepalive table flood).by_addr ≡ some s)
    × (s.established ≡ true)
unfolding desync_quiet_period
flood-IsAlive_example =
    flood-IsAlive lan_tests keepalive 2 160_000_000_000 flood table table-IsAlive (omega arith)

abbrev ten_failures : List (ℕ × Event)
ten_failures =
    (161, failed 1)
    ∷ (162, failed 1)
    ∷ (163, failed 1)
    ∷ (164, failed 1)
    ∷ (165, failed 1)
    ∷ (166, failed 1)
    ∷ (167, failed 3)
    ∷ (168, failed 1)
    ∷ (169, failed 1)
    ∷ (170, failed 1)
    ∷ []

desync_taken_down_example :
    lookup 1
      (note_decrypt_failure keepalive 150_000_000_000 1
        (run lan_tests keepalive table ten_failures)).by_addr
    ≡ none
unfolding lookup desync_quiet_period
desync_taken_down_example =
    desync_taken_down lan_tests keepalive 150_000_000_000 1 (session_of 1 100_000_000_000 7)
      ten_failures table (refl, (refl, (refl, tt))) refl refl (omega arith) (omega arith)
      (omega arith)

lookup_route-set_session_example :
    MovesRoutes lan_tests keepalive 161_000_000_000 4 7
      (insert 4 (record (session_of 4 0 7) { last_seen = 161_000_000_000 }) table.by_addr)
      (lookup_route 20 table.learned)
      (lookup_route 20
        (set_session lan_tests keepalive 161_000_000_000 4 (session_of 4 0 7) table).learned)
lookup_route-set_session_example =
    lookup_route-set_session lan_tests keepalive 161_000_000_000 4 20 (session_of 4 0 7) table refl
      refl
