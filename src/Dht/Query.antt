-- ===== src/Dht/Query.antt =====
-- client/dht.go: dhtHandlePacket and handleQuery. A *net.UDPAddr that the routing table keeps is a
-- key, and `at` reads the endpoint that it points to. Counters of the dashboard are left out.
use apgo.Prelude.{
  ℕ, not, ◌&&◌, List, [], ◌∷◌, ◌++◌, Option, none, some, ltb, ◌==◌, if◌then◌else◌, length, ◌>>=◌,
}
use apgo.Prelude.Maps.{Key, lookup, is_some}
use apgo.Prelude.Text.{Text, text_eq, text_key, codes, ℤ, pos, negsuc}
use apgo.Bencode.{
  Value, Items, Fields, str, int, list, dict, nil, cons, end, field, Parsed, ok, bdecode, put_field,
}
use apgo.RoutingTable.{Node, Table, dht_k, add}
use apgo.Dht.{
  Endpoint, Tokens, Peers, Transactions, compact_node, issue_token, valid_token, store_peer,
  stored_peers,
}
use apgo.Dht.Routable.{dht_routable_addr}
use apgo.Dht.Closest.{closest}

pub record DhtState : Type 0 where
  pub self_id : Text
  pub table : Table
  pub tokens : Tokens
  pub peers : Peers
  pub transactions : Transactions

-- `d[key]`
unfoldable pub field_of : Text → Fields → Option Value
field_of k end = none
field_of k (field j v fs) = if text_eq j k then some v else field_of k fs

abbrev pub as_str : Value → Option Text
as_str (str s) = some s
as_str _ = none

abbrev pub as_fields : Value → Option Fields
as_fields (dict d) = some d
as_fields _ = none

abbrev pub as_int : Value → Option ℤ
as_int (int n) = some n
as_int _ = none

unfoldable pub bdict_str : Fields → Text → Option Text
bdict_str d key = field_of key d >>= as_str

unfoldable pub bdict_dict : Fields → Text → Option Fields
bdict_dict d key = field_of key d >>= as_fields

unfoldable pub bdict_int : Fields → Text → Option ℤ
bdict_int d key = field_of key d >>= as_int

-- A string that is not there is read as "".
abbrev pub text_or_empty : Option Text → Text
text_or_empty none = []
text_or_empty (some s) = s

-- A string of twenty bytes, the form of an identifier.
unfoldable pub id_field : Fields → Text → Option Text
id_field d key = bdict_str d key >>= λ s. if length s == 20 then some s else none

unfoldable pub compact_nodes : (Key → Endpoint) → List Node → Text
compact_nodes at [] = []
compact_nodes at (n ∷ ns) = elim (compact_node n.id (at n.addr)) [
  | none ↦ compact_nodes at ns
  | some c ↦ c ++ compact_nodes at ns
]

unfoldable pub closest_compact : (Key → Endpoint) → Text → DhtState → Text
closest_compact at target d = compact_nodes at (closest target dht_k d.table)

unfoldable pub peer_values : List Text → Items
peer_values [] = nil
peer_values (p ∷ ps) = cons (str p) (peer_values ps)

-- `respond`, up to the encoding.
unfoldable pub respond : Text → DhtState → Fields → Value
respond tx d r = dict (
    field (codes "t") (str tx) (
      field (codes "y") (str (codes "r"))
        (field (codes "r") (dict (put_field (codes "id") (str d.self_id) r)) end)))

-- A packet's time, its source, and the secret that a rotation of the tokens would draw.
pub record Arrival : Type 0 where
  pub now : ℕ
  pub source : Key
  pub drawn : Text

-- The port that an announce names.
unfoldable pub announced_port : Fields → ℕ → ℕ
announced_port a port =
    let named : ℕ = elim (bdict_int a (codes "port")) [
      | none ↦ port
      | some (pos p) ↦ if ltb 0 p && ltb p 65536 then p else port
      | some (negsuc p) ↦ port
    ] in
    elim (bdict_int a (codes "implied_port")) [
      | none ↦ named
      | some (pos p) ↦ if p == 0 then named else port
      | some (negsuc p) ↦ port
    ]

module _ (mac : Text → Text → Text) (at : Key → Endpoint) where
  unfoldable pub find_node : Text → Fields → DhtState → DhtState × Option Value
  find_node tx a d = elim (id_field a (codes "target")) [
    | none ↦ (d, none)
    | some t ↦ (d, some (respond tx d (field (codes "nodes") (str (closest_compact at t d)) end)))
  ]

  unfoldable pub get_peers : Arrival → Text → Fields → DhtState → DhtState × Option Value
  get_peers c tx a d = elim (id_field a (codes "info_hash")) [
    | none ↦ (d, none)
    | some ih ↦
        let issued = issue_token mac c.now c.drawn (at c.source) d.tokens in
        let found = stored_peers c.now ih d.peers in
        let e = record d { tokens = issued.0; peers = found.0 } in
        let answer =
          if ltb 0 (length found.1)
          then field (codes "values") (list (peer_values found.1)) end
          else field (codes "nodes") (str (closest_compact at ih d)) end in
        (e, some (respond tx e (field (codes "token") (str issued.1) answer)))
  ]

  unfoldable pub announce_peer : Arrival → Text → Fields → DhtState → DhtState × Option Value
  announce_peer c tx a d = elim (id_field a (codes "info_hash")) [
    | none ↦ (d, none)
    | some ih ↦
        if not
          (valid_token mac (at c.source) (text_or_empty (bdict_str a (codes "token"))) d.tokens)
        then (d, none)
        else let peer = record (at c.source) { port = announced_port a (at c.source).port } in
          let e = record d { peers = store_peer c.now ih peer d.peers } in
          (e, some (respond tx e end))
  ]

  unfoldable pub answer_query : Arrival → Text → Text → Fields → DhtState → DhtState × Option Value
  answer_query c tx q a d =
      if text_eq q (codes "ping")
      then (d, some (respond tx d end))
      else if text_eq q (codes "find_node")
      then find_node tx a d
      else if text_eq q (codes "get_peers")
      then get_peers c tx a d
      else if text_eq q (codes "announce_peer")
      then announce_peer c tx a d
      else (d, none)

  -- `d.table.Add(id, raddr)`
  unfoldable pub heard_from : Arrival → Text → DhtState → DhtState
  heard_from c id d = record d {
    table = add (λ k. dht_routable_addr (some (at k))) c.now id c.source d.table;
  }

  unfoldable pub handle_query : Arrival → Fields → DhtState → DhtState × Option Value
  handle_query c msg d = elim (bdict_dict msg (codes "a")) [
    | none ↦ (d, none)
    | some a ↦ elim (id_field a (codes "id")) [
      | none ↦ (d, none)
      | some sender ↦
          answer_query c (text_or_empty (bdict_str msg (codes "t")))
            (text_or_empty (bdict_str msg (codes "q"))) a (heard_from c sender d)
    ]
  ]

  -- A reply: the node that it is from is heard of, and a waiting transaction gets the fields.
  unfoldable pub handle_reply : Arrival → Fields → DhtState → DhtState × Option (Text × Fields)
  handle_reply c msg d = elim (bdict_dict msg (codes "r")) [
    | none ↦ (d, none)
    | some r ↦
        let tx = text_or_empty (bdict_str msg (codes "t")) in
        let e : DhtState = elim (id_field r (codes "id")) [
          | none ↦ d
          | some id ↦ heard_from c id d
        ] in
        (e, if is_some (lookup (text_key tx) e.transactions.tx) then some (tx, r) else none)
  ]

-- What a packet leads to: nothing, a message to its source, or fields for a waiting transaction.
pub data Outcome : Type 0 where
  silent : Outcome
  replies : Value → Outcome
  completes : Text → Fields → Outcome

abbrev pub replied : Option Value → Outcome
replied none = silent
replied (some v) = replies v

abbrev pub completed : Option (Text × Fields) → Outcome
completed none = silent
completed (some (tx, r)) = completes tx r

module _ (mac : Text → Text → Text) (at : Key → Endpoint) where
  unfoldable pub handle_message : Arrival → Fields → DhtState → DhtState × Outcome
  handle_message c msg d =
      let y = text_or_empty (bdict_str msg (codes "y")) in
      let reply = handle_reply mac at c msg d in
      let query = handle_query mac at c msg d in
      if text_eq y (codes "r")
      then (reply.0, completed reply.1)
      else if text_eq y (codes "q")
      then (query.0, replied query.1)
      else (d, silent)

  -- What the reader gave: only a dictionary is a message. A panic of the reader, an `err` here, ends
  -- the program, and no state follows it.
  unfoldable pub handle_parsed : Arrival → DhtState → Parsed Value → DhtState × Outcome
  handle_parsed c d (ok (dict msg) rest) = handle_message c msg d
  handle_parsed c d _ = (d, silent)

  abbrev pub handle_packet : Arrival → Text → DhtState → DhtState × Outcome
  handle_packet c data_ d = handle_parsed c d (bdecode data_)
