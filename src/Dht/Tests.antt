-- ===== src/Dht/Tests.antt =====
-- Packets to a DHT node, and tokens, at concrete inputs.
use apgo.Prelude.{
  ℕ, ◌==◌, if◌then◌else◌, some, ◌*◌, true, List, [], ◌∷◌, ◌++◌, ◌⊎◌, replicate, take, ◌≡◌, refl,
  arith,
}
use apgo.Prelude.Maps.{Key}
use apgo.Prelude.Text.{Text, codes, text_eq}
use apgo.RoutingTable.{new_table}
use apgo.RoutingTable.Buckets.{new_table-AllFit}
use apgo.Dht.{
  minute, Endpoint, Tokens, to16, token_for, rotate_tokens, issue_token, valid_token, parse_nodes,
  store_peer, stored_peers,
}
use apgo.Dht.Wire.{ipv4_nodes, parse_nodes-closest_compact}
use apgo.Dht.TokenLife.{rotations, valid_token-issue_token}
use apgo.Bencode.{Fields, bdecode}
use apgo.RoutingTable.{Node, dht_k}
use apgo.Dht.Closest.{closest, sort_by_distance, insert_by_distance, xor_less, all_nodes}
use apgo.Dht.Query.{
  DhtState, Arrival, handle_packet, id_field, text_or_empty, bdict_str, announced_port,
  closest_compact,
}
use apgo.Dht.Announce.{arguments, handle_packet-peers}
use apgo.Dht.Node.{IsDhtState, handle_all, handle_all-IsDhtState, last_time}

-- A keyed hash that mixes nothing in but the first byte of the secret.
abbrev toy_mac : Text → Text → Text
toy_mac secret ip = take 1 secret ++ ip

abbrev home : Endpoint
home = record { ip = 9 ∷ 9 ∷ 9 ∷ 9 ∷ []; port = 6881 }

abbrev other_port : Endpoint
other_port = record home { port = 7000 }

abbrev secrets : Tokens
secrets = record { cur = replicate 16 1; prev = replicate 16 0; rotated = 0 }

-- Two calls, of which the first rotates the secrets.
abbrev later_calls : List (ℕ × Text)
later_calls = (6 * minute, replicate 16 2) ∷ (7 * minute, replicate 16 3) ∷ []

valid_token-issue_token_example :
    valid_token toy_mac other_port
      (issue_token toy_mac (3 * minute) (replicate 16 9) home secrets).1
      (rotations later_calls (issue_token toy_mac (3 * minute) (replicate 16 9) home secrets).0)
    ≡ true
valid_token-issue_token_example =
    valid_token-issue_token toy_mac home other_port refl (3 * minute) (7 * minute) (replicate 16 9)
      secrets later_calls (omega arith) (omega arith, (omega arith, omega arith)) (omega arith)
      (unfold issue_token token_for rotate_tokens text_eq to16 in refl)

abbrev node_state : DhtState
node_state = record {
  self_id = replicate 20 7;
  table = new_table (replicate 20 7);
  tokens = secrets;
  peers = [];
  transactions = record { tx = []; tx_seq = 0; tx_count = 0 };
}

abbrev read_at : Key → Endpoint
read_at k = home

abbrev arrival : ℕ → Arrival
arrival now = record { now = now; source = 5; drawn = replicate 16 4 }

abbrev ping : Text
ping = codes "d1:ad2:id20:aaaaaaaaaaaaaaaaaaaae1:q4:ping1:t2:xy1:y1:qe"

abbrev announce : Text
announce =
    codes
      "d1:ad2:id20:aaaaaaaaaaaaaaaaaaaa9:info_hash20:bbbbbbbbbbbbbbbbbbbb4:porti7000e5:token1:xe1:q13:announce_peer1:t2:xy1:y1:qe"

handle_packet-peers_example :
    ((handle_packet toy_mac read_at (arrival 10) announce node_state).0.peers ≡ node_state.peers)
    ⊎ ((ih : Text) × ((handle_packet toy_mac read_at (arrival 10) announce node_state).0.peers
          ≡ (stored_peers 10 ih node_state.peers).0))
    ⊎ ((a : Fields) × (ih : Text) × (arguments (bdecode announce) ≡ some a)
        × (id_field a (codes "info_hash") ≡ some ih)
        × (valid_token toy_mac home (text_or_empty (bdict_str a (codes "token"))) secrets ≡ true)
        × ((handle_packet toy_mac read_at (arrival 10) announce node_state).0.peers
            ≡ store_peer 10 ih (record home { port = announced_port a 6881 }) node_state.peers))
handle_packet-peers_example = handle_packet-peers toy_mac read_at (arrival 10) announce node_state

-- A node on IPv4, and the same address mapped into IPv6; a node on IPv6 is left out.
abbrev three_at : Key → Endpoint
three_at k =
    if k == 0
    then home
    else if k == 1
    then record { ip = replicate 10 0 ++ (255 ∷ 255 ∷ 8 ∷ 8 ∷ 8 ∷ 8 ∷ []); port = 53 }
    else record { ip = replicate 16 3; port = 1 }

abbrev node_of : ℕ → Key → Node
node_of b addr = record { id = replicate 20 b; addr = addr; last_seen = 5; failures = 0 }

abbrev three_nodes : DhtState
three_nodes = record node_state {
  table = record {
    self = replicate 20 7;
    buckets = (node_of 1 0 ∷ node_of 2 1 ∷ node_of 3 2 ∷ []) ∷ [];
  };
}

parse_nodes-closest_compact_example :
    parse_nodes (closest_compact three_at (replicate 20 1) three_nodes)
    ≡ ipv4_nodes three_at (closest (replicate 20 1) dht_k three_nodes.table)
unfolding closest sort_by_distance insert_by_distance xor_less all_nodes
parse_nodes-closest_compact_example =
    parse_nodes-closest_compact three_at (replicate 20 1) three_nodes
      ((refl, omega arith), ((refl, omega arith), ((refl, omega arith), tt)))

nothing_stored : IsDhtState 0 node_state
nothing_stored = record { fits = new_table-AllFit (replicate 20 7); stores = (omega arith, tt) }

abbrev two_packets : List (Arrival × Text)
two_packets = (arrival 10, ping) ∷ (arrival 20, codes "garbage") ∷ []

handle_all-IsDhtState_example :
    IsDhtState (last_time 0 two_packets) (handle_all toy_mac read_at two_packets node_state)
handle_all-IsDhtState_example =
    handle_all-IsDhtState toy_mac read_at two_packets 0 node_state (omega arith, (omega arith, tt))
      nothing_stored
