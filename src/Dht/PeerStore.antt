-- ===== src/Dht/PeerStore.antt =====
-- client/dht.go: the lemmas on the bounds of storePeer.
use mathlib.Core.Option.{none-ne-some}
use apgo.Prelude.{
  ℕ, ◌-◌, ◌≤◌, ◌<◌, true, [], ◌∷◌, Option, none, some, ◌⊎◌, inl, inr, ltb, leb, length, Bool-cases,
  Option-cases, ◌≡◌, refl, arith,
}
use apgo.Prelude.Maps.{
  Key, Assoc, is_some, lookup, without, length-insert, length-without-lt, Values, Values-lookup,
  insert-Values, without-Values,
}
use apgo.Prelude.Text.{Text, text_eq, text_key}
use apgo.Dht.{
  Endpoint, StoredPeer, Peers, evict_one, oldest_from, make_peer_room, put_peer, store_peer,
  compact_peer, dht_max_peers_per_key, dht_max_stored_keys,
}

-- At most 128 records, none of them after `t`.
abbrev pub IsRecent : ℕ → Assoc StoredPeer → Type 0
IsRecent t m = (length m ≤ dht_max_peers_per_key) × Values (λ (p : StoredPeer). p.seen ≤ t) m

-- At most 2048 keys, each with such records.
abbrev pub IsPeerStore : ℕ → Peers → Type 0
IsPeerStore t peers = (length peers ≤ dht_max_stored_keys) × Values (IsRecent t) peers

-- The loop ends with the key it began with, or with one of the map.
oldest_from-here :
    (m : Assoc StoredPeer) (o : Option Key) (ot : ℕ) (k : Key)
    → oldest_from o ot m ≡ some k
    → (o ≡ some k) ⊎ (is_some (lookup k m) ≡ true)
unfolding oldest_from lookup
oldest_from-here [] o ot k h = inl h
oldest_from-here ((j, q) ∷ m) o ot k h = elim (Bool-cases (ltb q.seen ot)) [
  | inl older ↦ elim (oldest_from-here m (some j) q.seen k (ground (arith, h, older))) [
    | inl first ↦ inr (ground (arith, first))
    | inr later ↦ inr (ground (arith, later))
  ]
  | inr newer ↦ elim (oldest_from-here m o ot k (ground (arith, h, newer))) [
    | inl start ↦ inl start
    | inr later ↦ inr (ground (arith, later))
  ]
]

oldest_from-is_some :
    (m : Assoc StoredPeer) (k : Key) (ot : ℕ) → is_some (oldest_from (some k) ot m) ≡ true
unfolding oldest_from
oldest_from-is_some [] k ot = refl
oldest_from-is_some ((j, q) ∷ m) k ot =
    ground (arith, oldest_from-is_some m j q.seen, oldest_from-is_some m k ot)

-- Some record of a full map is older than now.
oldest_there :
    (t now : ℕ) (m : Assoc StoredPeer)
    → t < now
    → IsRecent t m
    → 0 < length m
    → is_some (oldest_from none now m) ≡ true
unfolding oldest_from
oldest_there t now [] l r n = absurd (omega arith)
oldest_there t now ((j, q) ∷ m) l r n = ground (arith, r.1.0, oldest_from-is_some m j q.seen)

is_some-eq : {A : Type 0} (o : Option A) → is_some o ≡ true → (a : A) × (o ≡ some a)
is_some-eq none h = absurd (ground (arith, h))
is_some-eq (some a) h = (a, refl)

without_oldest-lt :
    (now : ℕ) (m : Assoc StoredPeer) (k : Key)
    → oldest_from none now m ≡ some k
    → length (without k m) < length m
without_oldest-lt now m k e = elim (oldest_from-here m none now k e) [
  | inl bad ↦ absurd (none-ne-some _ bad)
  | inr there ↦ let (p, h) = is_some-eq (lookup k m) there in length-without-lt k p m h
]

pub seen_later :
    (t now : ℕ) (m : Assoc StoredPeer)
    → t ≤ now
    → Values (λ (p : StoredPeer). p.seen ≤ t) m
    → Values (λ (p : StoredPeer). p.seen ≤ now) m
seen_later t now [] l v = tt
seen_later t now (e ∷ m) l v = (omega (arith, v.0), seen_later t now m l v.1)

make_peer_room-lt :
    (t now : ℕ) (m : Assoc StoredPeer)
    → t < now
    → IsRecent t m
    → (length (make_peer_room now m) < dht_max_peers_per_key)
      × Values (λ (p : StoredPeer). p.seen ≤ now) (make_peer_room now m)
unfolding make_peer_room
make_peer_room-lt t now m l r = elim (Bool-cases (leb dht_max_peers_per_key (length m))) [
  | inr room ↦ rw room (ground (arith, room), seen_later t now m (omega arith) r.1)
  | inl full ↦
      let (k, e) =
        is_some-eq (oldest_from none now m) (oldest_there t now m l r (ground (arith, full))) in
      rw (full, e)
        (
          omega (arith, r.0, without_oldest-lt now m k e),
          without-Values (λ (p : StoredPeer). p.seen ≤ now) k m
              (seen_later t now m (omega arith) r.1),
        )
]

put_peer-IsRecent :
    (t now : ℕ) (c : Text) (m : Assoc StoredPeer)
    → t < now
    → IsRecent t m
    → IsRecent now (put_peer now c m)
unfolding put_peer
put_peer-IsRecent t now c m l r =
    let room = make_peer_room now m in
    let new : StoredPeer = record { compact = c; seen = now } in
    let (fits, seen) = make_peer_room-lt t now m l r in
    (
      ground (arith, length-insert (text_key c) new room, fits),
      insert-Values (λ (p : StoredPeer). p.seen ≤ now) (text_key c) new room seen (omega arith),
    )

pub stores_later :
    (t now : ℕ) (peers : Peers) → t ≤ now → Values (IsRecent t) peers → Values (IsRecent now) peers
stores_later t now [] l v = tt
stores_later t now (e ∷ peers) l v =
    ((v.0.0, seen_later t now e.1 l v.0.1), stores_later t now peers l v.1)

evict_one-Values :
    (t : ℕ) (peers : Peers) → Values (IsRecent t) peers → Values (IsRecent t) (evict_one peers)
unfolding evict_one
evict_one-Values t [] v = v
evict_one-Values t (e ∷ peers) v = v.1

length-evict_one : (peers : Peers) → length (evict_one peers) ≡ length peers - 1
unfolding evict_one
length-evict_one [] = omega arith
length-evict_one (e ∷ peers) = omega arith

-- Storing a peer after the last record keeps every bound, whoever announces whatever: at most 2048
-- keys, and at most 128 peers for each.
pub store_peer-IsPeerStore :
    (t now : ℕ) (key : Text) (addr : Endpoint) (peers : Peers)
    → t < now
    → IsPeerStore t peers
    → IsPeerStore now (store_peer now key addr peers)
unfolding store_peer
store_peer-IsPeerStore t now key addr peers l v =
    let c = compact_peer addr in
    let kept : Values (IsRecent now) peers = stores_later t now peers (omega arith) v.1 in
    elim (Bool-cases (text_eq c [])) [
      | inl not_v4 ↦ rw not_v4 (v.0, kept)
      | inr v4 ↦ elim (Option-cases (lookup (text_key key) peers)) [
        | inr (m, e) ↦
            let filled =
              put_peer-IsRecent t now c m l
                (Values-lookup (IsRecent t) (text_key key) m peers v.1 e) in
            rw (v4, e)
              (
                ground (arith, length-insert (text_key key) (put_peer now c m) peers, e, v.0),
                insert-Values (IsRecent now) (text_key key) (put_peer now c m) peers kept filled,
              )
        | inl e ↦
            let one = put_peer now c [] in
            let filled = put_peer-IsRecent t now c [] l (omega arith, tt) in
            elim (Bool-cases (leb dht_max_stored_keys (length peers))) [
              | inl full ↦
                  rw (v4, e, full)
                    (
                      ground (
                        arith,
                        length-insert (text_key key) one (evict_one peers),
                        length-evict_one peers,
                        v.0,
                      ),
                      insert-Values (IsRecent now) (text_key key) one (evict_one peers)
                          (evict_one-Values now peers kept) filled,
                    )
              | inr room ↦
                  rw (v4, e, room)
                    (
                      ground (arith, length-insert (text_key key) one peers, room),
                      insert-Values (IsRecent now) (text_key key) one peers kept filled,
                    )
            ]
      ]
    ]
