-- ===== src/Dht/Announce.antt =====
-- client/dht.go: the lemmas on handleQuery and the peer store.
use apgo.Prelude.{
  Option, none, some, true, ◌⊎◌, inl, inr, Bool-cases, Option-cases, ◌≡◌, refl, arith,
}
use apgo.Prelude.Maps.{Key}
use apgo.Prelude.Text.{Text, text_eq, codes}
use apgo.Bencode.{Value, Fields, str, int, list, dict, Parsed, ok, err, out_of_fuel, bdecode}
use apgo.Dht.{Endpoint, Peers, valid_token, store_peer, stored_peers}
use apgo.Dht.Query.{
  DhtState, Arrival, bdict_str, bdict_dict, id_field, text_or_empty, announced_port, find_node,
  get_peers, announce_peer, answer_query, heard_from, handle_query, handle_reply, handle_message,
  handle_parsed, handle_packet,
}

-- The dictionary `a` of a message.
abbrev pub arguments : Parsed Value → Option Fields
arguments (ok (dict msg) rest) = bdict_dict msg (codes "a")
arguments (ok other rest) = none
arguments (err e) = none
arguments out_of_fuel = none

module _ (mac : Text → Text → Text) (at : Key → Endpoint) where
  -- What a packet with these arguments may do to the peer store: nothing, drop expired records of one
  -- key, or store a peer for the token in the arguments.
  data PeersAfter (c : Arrival) (d : DhtState) (args : Option Fields) (after : Peers) : Type 0 where
    same : after ≡ d.peers → PeersAfter c d args after
    served : (ih : Text) → after ≡ (stored_peers c.now ih d.peers).0 → PeersAfter c d args after
    announced :
        (a : Fields) (ih : Text)
        → args ≡ some a
        → id_field a (codes "info_hash") ≡ some ih
        → valid_token mac (at c.source) (text_or_empty (bdict_str a (codes "token"))) d.tokens
          ≡ true
        → after
          ≡ store_peer c.now ih
              (record (at c.source) { port = announced_port a (at c.source).port })
              d.peers
        → PeersAfter c d args after

  find_node-peers :
      (c : Arrival) (tx : Text) (a : Fields) (d : DhtState)
      → PeersAfter c d (some a) (find_node mac at tx a d).0.peers
  unfolding find_node
  find_node-peers c tx a d = same (ground arith)

  get_peers-peers :
      (c : Arrival) (tx : Text) (a : Fields) (d : DhtState)
      → PeersAfter c d (some a) (get_peers mac at c tx a d).0.peers
  unfolding get_peers
  get_peers-peers c tx a d = elim (Option-cases (id_field a (codes "info_hash"))) [
    | inl e ↦ rw (get_peers, e) (same refl)
    | inr (ih, e) ↦ rw (get_peers, e) (served ih refl)
  ]

  announce_peer-peers :
      (c : Arrival) (tx : Text) (a : Fields) (d : DhtState)
      → PeersAfter c d (some a) (announce_peer mac at c tx a d).0.peers
  unfolding announce_peer
  announce_peer-peers c tx a d =
      let tok = text_or_empty (bdict_str a (codes "token")) in
      elim (Option-cases (id_field a (codes "info_hash"))) [
        | inl e ↦ rw (announce_peer, e) (same refl)
        | inr (ih, e) ↦ elim (Bool-cases (valid_token mac (at c.source) tok d.tokens)) [
          | inr bad ↦ rw (announce_peer, e, bad) (same refl)
          | inl good ↦ rw (announce_peer, e, good) (announced a ih refl e good refl)
        ]
      ]

  answer_query-peers :
      (c : Arrival) (tx q : Text) (a : Fields) (d : DhtState)
      → PeersAfter c d (some a) (answer_query mac at c tx q a d).0.peers
  unfolding answer_query
  answer_query-peers c tx q a d = elim (Bool-cases (text_eq q (codes "ping"))) [
    | inl ping ↦ rw ping (same refl)
    | inr e1 ↦ elim (Bool-cases (text_eq q (codes "find_node"))) [
      | inl find ↦ rw (e1, find) (find_node-peers c tx a d)
      | inr e2 ↦ elim (Bool-cases (text_eq q (codes "get_peers"))) [
        | inl get ↦ rw (e1, e2, get) (get_peers-peers c tx a d)
        | inr e3 ↦ elim (Bool-cases (text_eq q (codes "announce_peer"))) [
          | inl announce ↦ rw (e1, e2, e3, announce) (announce_peer-peers c tx a d)
          | inr e4 ↦ rw (e1, e2, e3, e4) (same refl)
        ]
      ]
    ]
  ]

  -- Hearing of a node leaves the peer store and the tokens alone.
  heard_from-PeersAfter :
      (c : Arrival) (id : Text) (d : DhtState) (args : Option Fields) (after : Peers)
      → PeersAfter c (heard_from mac at c id d) args after
      → PeersAfter c d args after
  unfolding heard_from
  heard_from-PeersAfter c id d args after (same e) = same e
  heard_from-PeersAfter c id d args after (served ih e) = served ih e
  heard_from-PeersAfter c id d args after (announced a ih p q v e) = announced a ih p q v e

  handle_query-peers :
      (c : Arrival) (msg : Fields) (d : DhtState)
      → PeersAfter c d (bdict_dict msg (codes "a")) (handle_query mac at c msg d).0.peers
  unfolding handle_query
  handle_query-peers c msg d = elim (Option-cases (bdict_dict msg (codes "a"))) [
    | inl e ↦ rw (handle_query, e) (same refl)
    | inr (a, e) ↦ elim (Option-cases (id_field a (codes "id"))) [
      | inl f ↦ rw (handle_query, e, f) (same refl)
      | inr (id, f) ↦
          rw (handle_query, e, f)
            (heard_from-PeersAfter c id d (some a) _
              (answer_query-peers c _ _ a (heard_from mac at c id d)))
    ]
  ]

  handle_reply-peers :
      (c : Arrival) (msg : Fields) (d : DhtState)
      → PeersAfter c d (bdict_dict msg (codes "a")) (handle_reply mac at c msg d).0.peers
  unfolding handle_reply heard_from
  handle_reply-peers c msg d = elim (Option-cases (bdict_dict msg (codes "r"))) [
    | inl e ↦ rw (handle_reply, e) (same refl)
    | inr (r, e) ↦ elim (Option-cases (id_field r (codes "id"))) [
      | inl f ↦ rw (handle_reply, e, f) (same refl)
      | inr (id, f) ↦ rw (handle_reply, e, f) (same refl)
    ]
  ]

  handle_message-peers :
      (c : Arrival) (msg : Fields) (d : DhtState)
      → PeersAfter c d (bdict_dict msg (codes "a")) (handle_message mac at c msg d).0.peers
  unfolding handle_message
  handle_message-peers c msg d =
      let y = text_or_empty (bdict_str msg (codes "y")) in
      elim (Bool-cases (text_eq y (codes "r"))) [
        | inl reply ↦ rw (handle_message, reply) (handle_reply-peers c msg d)
        | inr e ↦ elim (Bool-cases (text_eq y (codes "q"))) [
          | inl query ↦ rw (handle_message, e, query) (handle_query-peers c msg d)
          | inr f ↦ rw (handle_message, e, f) (same refl)
        ]
      ]

  read-peers :
      (c : Arrival) (d : DhtState) (r : Parsed Value)
      → PeersAfter c d (arguments r) (handle_parsed mac at c d r).0.peers
  unfolding handle_parsed
  read-peers c d (ok (dict msg) rest) = handle_message-peers c msg d
  read-peers c d (ok (str s) rest) = same refl
  read-peers c d (ok (int n) rest) = same refl
  read-peers c d (ok (list l) rest) = same refl
  read-peers c d (err e) = same refl
  read-peers c d out_of_fuel = same refl

  -- Whatever the packet, the peer store is left alone, or expired records of one key are dropped, or
  -- one peer is stored: then the `token` in the packet's own arguments is valid for the packet's
  -- source, and the peer is stored under their `info_hash` with the IP of that source and the port
  -- that they announce, or that of the source where they imply it.
  pub handle_packet-peers :
      (c : Arrival) (data_ : Text) (d : DhtState)
      → ((handle_packet mac at c data_ d).0.peers ≡ d.peers)
        ⊎ ((ih : Text) × ((handle_packet mac at c data_ d).0.peers
              ≡ (stored_peers c.now ih d.peers).0))
        ⊎ ((a : Fields) × (ih : Text) × (arguments (bdecode data_) ≡ some a)
            × (id_field a (codes "info_hash") ≡ some ih)
            × (valid_token mac (at c.source) (text_or_empty (bdict_str a (codes "token"))) d.tokens
                ≡ true)
            × ((handle_packet mac at c data_ d).0.peers
                ≡ store_peer c.now ih
                    (record (at c.source) { port = announced_port a (at c.source).port })
                    d.peers))
  handle_packet-peers c data_ d = spelled (read-peers c d (bdecode data_))
    where
      spelled :
          PeersAfter c d (arguments (bdecode data_)) (handle_packet mac at c data_ d).0.peers
          → ((handle_packet mac at c data_ d).0.peers ≡ d.peers)
            ⊎ ((ih : Text) × ((handle_packet mac at c data_ d).0.peers
                  ≡ (stored_peers c.now ih d.peers).0))
            ⊎ ((a : Fields) × (ih : Text) × (arguments (bdecode data_) ≡ some a)
                × (id_field a (codes "info_hash") ≡ some ih)
                × (valid_token mac
                      (at c.source)
                      (text_or_empty (bdict_str a (codes "token")))
                      d.tokens
                    ≡ true)
                × ((handle_packet mac at c data_ d).0.peers
                    ≡ store_peer c.now ih
                        (record (at c.source) { port = announced_port a (at c.source).port })
                        d.peers))
      spelled (same e) = inl e
      spelled (served ih e) = inr (inl (ih, e))
      spelled (announced a ih p q v e) = inr (inr (a, ih, p, q, v, e))
