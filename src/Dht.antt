-- ===== src/Dht.antt =====
-- client/dht.go: the state of a DHT node beside its routing table, the compact forms of nodes and
-- peers, the announce tokens, the peer store and the transactions. What a packet does to them is in
-- Dht/Query. A *net.UDPAddr is an `Endpoint`: an IP of four or sixteen bytes, and a port.
-- The truncated HMAC of a token is a parameter; times are nanoseconds.
pub mod Routable
pub mod Closest
pub mod Query
pub mod Wire
pub mod PeerStore
pub mod TokenLife
pub mod Announce
pub mod Node
mod Tests
use apgo.Prelude.{
  ℕ, zero, suc, ◌+◌, ◌-◌, ◌*◌, ◌^◌, ◌%◌, Bool, true, false, not, ◌&&◌, ◌||◌, List, [], ◌∷◌, ◌++◌,
  Option, none, some, ltb, leb, ◌==◌, if◌then◌else◌, length, take, drop, replicate, get_or,
}
use apgo.Prelude.Maps.{Key, Assoc, is_some, lookup, insert, without}
use apgo.Prelude.Text.{Text, text_eq, text_key, be_value, put_be, print_nat}
use apgo.Bencode.{Value, Items, Fields, str, int, list, dict, nil, cons}

abbrev pub dht_max_peers_per_key : ℕ
dht_max_peers_per_key = 128

abbrev pub dht_max_stored_keys : ℕ
dht_max_stored_keys = 2048

abbrev pub dht_max_inflight : ℕ
dht_max_inflight = 512

abbrev pub minute : ℕ
minute = 60_000_000_000

pub record Endpoint : Type 0 where
  pub ip : Text
  pub port : ℕ

-- The sixteen-byte form of an IPv4 address starts with these twelve bytes.
abbrev pub mapped_prefix : Text
mapped_prefix = replicate 10 0 ++ (255 ∷ 255 ∷ [])

-- net.IP.To4
unfoldable pub to4 : Text → Option Text
to4 ip =
    if length ip == 4
    then some ip
    else if length ip == 16 && text_eq (take 12 ip) mapped_prefix
    then some (drop 12 ip)
    else none

-- net.IP.To16, `none` being nil.
unfoldable pub to16 : Text → Option Text
to16 ip =
    if length ip == 4 then some (mapped_prefix ++ ip) else if length ip == 16 then some ip else none

unfoldable pub compact_node : Text → Endpoint → Option Text
compact_node id addr = elim (to4 addr.ip) [
  | none ↦ none
  | some v4 ↦ some (id ++ (v4 ++ put_be 2 (addr.port % 2 ^ 16)))
]

-- The empty text for an address that is not IPv4.
unfoldable pub compact_peer : Endpoint → Text
compact_peer addr = elim (to4 addr.ip) [ none ↦ [] | some v4 ↦ v4 ++ put_be 2 (addr.port % 2 ^ 16) ]

-- The loop of `dhtParseNodes`; a round takes 26 bytes, so as many rounds as bytes are enough.
unfoldable pub nodes_from : ℕ → Text → List (Text × Endpoint)
nodes_from zero b = []
nodes_from (suc fuel) b =
    let rest = nodes_from fuel (drop 26 b) in
    if ltb (length b) 26
    then []
    else (take 20 b, record { ip = take 4 (drop 20 b); port = be_value (take 2 (drop 24 b)) 0 })
      ∷ rest

unfoldable pub parse_nodes : Text → List (Text × Endpoint)
parse_nodes s = nodes_from (length s) s

-- net.IP.String of four bytes, and the port behind a colon.
unfoldable pub host_port : Text → ℕ → Text
host_port v4 port =
    print_nat (get_or v4 0 0)
    ++ (b'.' ∷ print_nat (get_or v4 1 0))
    ++ (b'.' ∷ print_nat (get_or v4 2 0))
    ++ (b'.' ∷ print_nat (get_or v4 3 0))
    ++ (b':' ∷ print_nat port)

unfoldable pub parse_value : Value → Option Text
parse_value (str s) =
    let port = be_value (drop 4 s) 0 in
    if not (length s == 6)
    then none
    else if port == 0
    then none
    else some (host_port (take 4 s) port)
parse_value _ = none

abbrev pub with_value : Option Text → List Text → List Text
with_value none out = out
with_value (some p) out = p ∷ out

unfoldable pub parse_values : Items → List Text
parse_values nil = []
parse_values (cons v l) = with_value (parse_value v) (parse_values l)

-- The secrets of announce tokens.
pub record Tokens : Type 0 where
  pub cur : Text
  pub prev : Text
  pub rotated : ℕ

-- `drawn` is what the random source would give.
unfoldable pub rotate_tokens : ℕ → Text → Tokens → Tokens
rotate_tokens now drawn k =
    if ltb now (k.rotated + 5 * minute)
    then k
    else record { cur = drawn; prev = k.cur; rotated = now }

abbrev pub ip16 : Endpoint → Text
ip16 addr = elim (to16 addr.ip) [ none ↦ [] | some ip ↦ ip ]

module _ (mac : Text → Text → Text) where
  unfoldable pub token_for : Endpoint → Text → Text
  token_for addr secret = take 8 (mac secret (ip16 addr))

  unfoldable pub issue_token : ℕ → Text → Endpoint → Tokens → Tokens × Text
  issue_token now drawn addr k = let t = rotate_tokens now drawn k in (t, token_for addr t.cur)

  unfoldable pub valid_token : Endpoint → Text → Tokens → Bool
  valid_token addr tok k =
      not (text_eq tok [])
      && (text_eq tok (token_for addr k.cur) || text_eq tok (token_for addr k.prev))

-- One record of the peer store.
pub record StoredPeer : Type 0 where
  pub compact : Text
  pub seen : ℕ

abbrev pub Peers : Type 0
Peers = Assoc (Assoc StoredPeer)

-- The loop that deletes the first key that it meets.
unfoldable pub evict_one : Peers → Peers
evict_one [] = []
evict_one (e ∷ m) = m

-- The loop for the oldest record before `ot`.
unfoldable pub oldest_from : Option Key → ℕ → Assoc StoredPeer → Option Key
oldest_from oldest ot [] = oldest
oldest_from oldest ot ((k, p) ∷ m) =
    if ltb p.seen ot then oldest_from (some k) p.seen m else oldest_from oldest ot m

unfoldable pub make_peer_room : ℕ → Assoc StoredPeer → Assoc StoredPeer
make_peer_room now m =
    if leb dht_max_peers_per_key (length m)
    then elim (oldest_from none now m) [ none ↦ m | some oldest ↦ without oldest m ]
    else m

unfoldable pub put_peer : ℕ → Text → Assoc StoredPeer → Assoc StoredPeer
put_peer now c m = insert (text_key c) (record { compact = c; seen = now }) (make_peer_room now m)

unfoldable pub store_peer : ℕ → Text → Endpoint → Peers → Peers
store_peer now key addr peers =
    let c = compact_peer addr in
    if text_eq c [] then peers else elim (lookup (text_key key) peers) [
      | some m ↦ insert (text_key key) (put_peer now c m) peers
      | none ↦
          let room = if leb dht_max_stored_keys (length peers) then evict_one peers else peers in
          insert (text_key key) (put_peer now c []) room
    ]

-- The loop of `storedPeers`: what stays, and up to `left` answers.
unfoldable pub serve : ℕ → ℕ → Assoc StoredPeer → Assoc StoredPeer × List Text
serve now left [] = ([], [])
serve now zero m = (m, [])
serve now (suc left) ((k, p) ∷ m) =
    let gone = serve now (suc left) m in
    let shown = serve now left m in
    if ltb (p.seen + 30 * minute) now then gone else ((k, p) ∷ shown.0, p.compact ∷ shown.1)

unfoldable pub stored_peers : ℕ → Text → Peers → Peers × List Text
stored_peers now key peers = elim (lookup (text_key key) peers) [
  | none ↦ (peers, [])
  | some m ↦ let r = serve now 32 m in (insert (text_key key) r.0 peers, r.1)
]

-- The transactions; the channel of an entry is its key.
pub record Transactions : Type 0 where
  pub tx : Assoc Text
  pub tx_seq : ℕ
  pub tx_count : ℕ

unfoldable pub next_tx : Transactions → Option (Transactions × Text)
next_tx t =
    let seq = (t.tx_seq + 1) % 2 ^ 32 in
    let id = put_be 2 (seq % 2 ^ 16) in
    if leb dht_max_inflight t.tx_count
    then none
    else some
        (record { tx = insert (text_key id) id t.tx; tx_seq = seq; tx_count = t.tx_count + 1 }, id)

unfoldable pub release_tx : Text → Transactions → Transactions
release_tx id t =
    if is_some (lookup (text_key id) t.tx)
    then record t { tx = without (text_key id) t.tx; tx_count = t.tx_count - 1 }
    else t
