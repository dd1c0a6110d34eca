-- ===== src/Dht/Node.antt =====
-- client/dht.go: the lemmas on the bounds of a node's tables under dhtHandlePacket.
use apgo.Prelude.{
  ℕ, zero, suc, ◌+◌, ◌*◌, ◌≤◌, ◌<◌, List, [], ◌∷◌, inl, inr, ltb, length, Bool-cases, Option-cases,
  ◌≡◌, arith,
}
use apgo.Prelude.Maps.{Key, Assoc, lookup, Values, Values-lookup, insert-Values, length-insert}
use apgo.Prelude.Text.{Text, text_eq, text_key, codes}
use apgo.Bencode.{Value, Fields, str, int, list, dict, Parsed, ok, err, out_of_fuel, bdecode}
use apgo.RoutingTable.Buckets.{AllFit, add-AllFit}
use apgo.Dht.{minute, Endpoint, StoredPeer, Peers, serve, stored_peers}
use apgo.Dht.PeerStore.{IsRecent, IsPeerStore, stores_later, store_peer-IsPeerStore}
use apgo.Dht.Query.{
  announced_port, DhtState, Arrival, bdict_str, bdict_dict, id_field, text_or_empty, find_node,
  get_peers, announce_peer, answer_query, heard_from, handle_query, handle_reply, handle_message,
  handle_parsed, handle_packet,
}
use apgo.Dht.Announce.{handle_packet-peers}

serve-IsRecent :
    (t now left : ℕ) (m : Assoc StoredPeer)
    → Values (λ (p : StoredPeer). p.seen ≤ t) m
    → (length (serve now left m).0 ≤ length m)
      × Values (λ (p : StoredPeer). p.seen ≤ t) (serve now left m).0
unfolding serve
serve-IsRecent t now left [] v = (omega arith, tt)
serve-IsRecent t now zero (e ∷ m) v = (omega arith, v)
serve-IsRecent t now (suc left) ((k, p) ∷ m) v =
    let (short, seen) = serve-IsRecent t now (suc left) m v.1 in
    let (short2, seen2) = serve-IsRecent t now left m v.1 in
    elim (Bool-cases (ltb (p.seen + 30 * minute) now)) [
      | inl gone ↦ rw gone (omega (arith, short), seen)
      | inr shown ↦ rw shown (omega (arith, short2), (v.0, seen2))
    ]

stored_peers-IsPeerStore :
    (t now : ℕ) (key : Text) (peers : Peers)
    → IsPeerStore t peers
    → IsPeerStore t (stored_peers now key peers).0
unfolding stored_peers
stored_peers-IsPeerStore t now key peers v = elim (Option-cases (lookup (text_key key) peers)) [
  | inl e ↦ rw (stored_peers, e) v
  | inr (m, e) ↦
      let r = Values-lookup (IsRecent t) (text_key key) m peers v.1 e in
      let (short, seen) = serve-IsRecent t now 32 m r.1 in
      rw (stored_peers, e)
        (
          ground (arith, length-insert (text_key key) (serve now 32 m).0 peers, e, v.0),
          insert-Values (IsRecent t) (text_key key) (serve now 32 m).0 peers v.1
              (omega (arith, short, r.0), seen),
        )
]

-- The routing table keeps its shape, and the peer store its bounds.
pub record IsDhtState (t : ℕ) (d : DhtState) : Type 0 where
  pub fits : AllFit d.table
  pub stores : IsPeerStore t d.peers

-- Every packet comes later than the one before it.
abbrev pub Rising : ℕ → List (Arrival × Text) → Type 0
Rising t [] = Unit
Rising t ((c, data_) ∷ packets) = (t < c.now) × Rising c.now packets

abbrev pub last_time : ℕ → List (Arrival × Text) → ℕ
last_time t [] = t
last_time t ((c, data_) ∷ packets) = last_time c.now packets

module _ (mac : Text → Text → Text) (at : Key → Endpoint) where
  answer_query-table :
      (c : Arrival) (tx q : Text) (a : Fields) (d : DhtState)
      → (answer_query mac at c tx q a d).0.table ≡ d.table
  unfolding answer_query find_node get_peers announce_peer
  answer_query-table c tx q a d = ground arith

  heard_from-AllFit :
      (c : Arrival) (id : Text) (d : DhtState)
      → AllFit d.table
      → AllFit (heard_from mac at c id d).table
  unfolding heard_from
  heard_from-AllFit c id d v = add-AllFit _ c.now id c.source d.table v

  handle_query-AllFit :
      (c : Arrival) (msg : Fields) (d : DhtState)
      → AllFit d.table
      → AllFit (handle_query mac at c msg d).0.table
  unfolding handle_query
  handle_query-AllFit c msg d v = elim (Option-cases (bdict_dict msg (codes "a"))) [
    | inl e ↦ rw (handle_query, e) v
    | inr (a, e) ↦ elim (Option-cases (id_field a (codes "id"))) [
      | inl f ↦ rw (handle_query, e, f) v
      | inr (id, f) ↦
          let tx = text_or_empty (bdict_str msg (codes "t")) in
          let q = text_or_empty (bdict_str msg (codes "q")) in
          rw (handle_query, e, f, answer_query-table c tx q a (heard_from mac at c id d))
            (heard_from-AllFit c id d v)
    ]
  ]

  handle_reply-AllFit :
      (c : Arrival) (msg : Fields) (d : DhtState)
      → AllFit d.table
      → AllFit (handle_reply mac at c msg d).0.table
  unfolding handle_reply
  handle_reply-AllFit c msg d v = elim (Option-cases (bdict_dict msg (codes "r"))) [
    | inl e ↦ rw (handle_reply, e) v
    | inr (r, e) ↦ elim (Option-cases (id_field r (codes "id"))) [
      | inl f ↦ rw (handle_reply, e, f) v
      | inr (id, f) ↦ rw (handle_reply, e, f) (heard_from-AllFit c id d v)
    ]
  ]

  handle_message-AllFit :
      (c : Arrival) (msg : Fields) (d : DhtState)
      → AllFit d.table
      → AllFit (handle_message mac at c msg d).0.table
  unfolding handle_message
  handle_message-AllFit c msg d v =
      let y = text_or_empty (bdict_str msg (codes "y")) in
      elim (Bool-cases (text_eq y (codes "r"))) [
        | inl reply ↦ rw (handle_message, reply) (handle_reply-AllFit c msg d v)
        | inr e ↦ elim (Bool-cases (text_eq y (codes "q"))) [
          | inl query ↦ rw (handle_message, e, query) (handle_query-AllFit c msg d v)
          | inr f ↦ rw (handle_message, e, f) v
        ]
      ]

  read-AllFit :
      (c : Arrival) (d : DhtState) (r : Parsed Value)
      → AllFit d.table
      → AllFit (handle_parsed mac at c d r).0.table
  unfolding handle_parsed
  read-AllFit c d (ok (dict msg) rest) v = handle_message-AllFit c msg d v
  read-AllFit c d (ok (str s) rest) v = v
  read-AllFit c d (ok (int n) rest) v = v
  read-AllFit c d (ok (list l) rest) v = v
  read-AllFit c d (err e) v = v
  read-AllFit c d out_of_fuel v = v

  handle_packet-IsPeerStore :
      (t : ℕ) (c : Arrival) (data_ : Text) (d : DhtState)
      → t < c.now
      → IsPeerStore t d.peers
      → IsPeerStore c.now (handle_packet mac at c data_ d).0.peers
  handle_packet-IsPeerStore t c data_ d l v =
      let later : IsPeerStore c.now d.peers =
        (v.0, stores_later t c.now d.peers (omega arith) v.1) in
      elim (handle_packet-peers mac at c data_ d) [
        | inl e ↦ rw e later
        | inr (inl (ih, e)) ↦ rw e (stored_peers-IsPeerStore c.now c.now ih d.peers later)
        | inr (inr (a, ih, said, key, valid, e)) ↦ rw e (
            store_peer-IsPeerStore t c.now ih
              (record (at c.source) { port = announced_port a (at c.source).port }) d.peers l v)
      ]

  handle_packet-IsDhtState :
      (t : ℕ) (c : Arrival) (data_ : Text) (d : DhtState)
      → t < c.now
      → IsDhtState t d
      → IsDhtState c.now (handle_packet mac at c data_ d).0
  handle_packet-IsDhtState t c data_ d l v = record {
    fits = read-AllFit c d (bdecode data_) v.fits;
    stores = handle_packet-IsPeerStore t c data_ d l v.stores;
  }

  unfoldable pub handle_all : List (Arrival × Text) → DhtState → DhtState
  handle_all [] d = d
  handle_all ((c, data_) ∷ packets) d = handle_all packets (handle_packet mac at c data_ d).0

  -- Whatever packets arrive from wherever, one after another on the clock, the routing table keeps its
  -- 160 buckets of at most eight nodes, and the peer store at most 2048 keys of at most 128 peers.
  pub handle_all-IsDhtState :
      (packets : List (Arrival × Text)) (t : ℕ) (d : DhtState)
      → Rising t packets
      → IsDhtState t d
      → IsDhtState (last_time t packets) (handle_all packets d)
  unfolding handle_all
  handle_all-IsDhtState [] t d r v = v
  handle_all-IsDhtState ((c, data_) ∷ packets) t d r v =
      handle_all-IsDhtState packets c.now (handle_packet mac at c data_ d).0 r.1
        (handle_packet-IsDhtState t c data_ d r.0 v)
