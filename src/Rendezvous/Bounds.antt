-- ===== src/Rendezvous/Bounds.antt =====
-- rendezvous/main.go: the lemmas on the bounds of the registry.
use mathlib.Core.Option.{some-injective}
use apgo.Prelude.{
  ℕ, ◌+◌, ◌≤◌, ◌<◌, Bool, true, false, ◌||◌, [], ◌∷◌, Option, none, some, leb, ltb→lt, ◌==◌, length,
  Bool-cases, ◌≡◌, ◌⊎◌, inl, inr, refl, sym, arith, ◌∙◌, subst,
}
use apgo.Prelude.Maps.{
  Key, Assoc, is_some, lookup, insert, without, Unique, lookup-insert, lookup-without,
  length-insert, length-without-le, length-retain-le, insert-Unique, without-Unique, retain-Unique,
}
use apgo.Rendezvous.{
  PeerEntry, Registry, expire, records, record_endpoint, put_network, announce_in, announce,
}

-- A network's entries have distinct endpoints, are some, and no more than the limit.
abbrev pub IsNetwork : Registry → Assoc PeerEntry → Type 0
IsNetwork r m = Unique m × (0 < length m) × (length m ≤ r.max_peers)

-- Distinct networks, no more than the limit, each with its entries in bounds.
abbrev pub IsBounded : Registry → Type 0
IsBounded r =
    Unique r.nets
    × (length r.nets ≤ r.max_networks)
    × ((network : Key) (m : Assoc PeerEntry) → lookup network r.nets ≡ some m → IsNetwork r m)

module _ (r : Registry) (now : ℕ) (endpoint source : Key) (is_verified : Bool) where
  -- What a recorded endpoint may add.
  records-room :
      (m : Assoc PeerEntry)
      → records r endpoint source is_verified m ≡ true
      → (is_some (lookup endpoint m) ≡ true) ⊎ (length m < r.max_peers)
  unfolding records
  records-room m h = elim (Bool-cases (is_some (lookup endpoint m))) [
    | inl there ↦ inl there
    | inr new ↦ inr (ltb→lt (length m) r.max_peers (ground (arith, h, new)))
  ]

  record_endpoint-length :
      (m : Assoc PeerEntry)
      → length m ≤ r.max_peers
      → length (record_endpoint r now endpoint source is_verified m) ≤ r.max_peers
  unfolding record_endpoint
  record_endpoint-length m h = elim (Bool-cases (records r endpoint source is_verified m)) [
    | inl recorded ↦ rw recorded (grown (records-room m recorded))
    | inr not_recorded ↦ rw not_recorded h
  ]
    where
      entry : PeerEntry
      entry = record {
        endpoint = endpoint;
        source = source;
        is_verified = is_verified;
        last_seen = now;
      }

      grown :
          (is_some (lookup endpoint m) ≡ true) ⊎ (length m < r.max_peers)
          → length (insert endpoint entry m) ≤ r.max_peers
      grown (inl there) = rw (length-insert endpoint entry m, there) h
      grown (inr room) = ground (arith, length-insert endpoint entry m, room)

  record_endpoint-Unique :
      (m : Assoc PeerEntry)
      → Unique m
      → Unique (record_endpoint r now endpoint source is_verified m)
  unfolding record_endpoint
  record_endpoint-Unique m u = elim (Bool-cases (records r endpoint source is_verified m)) [
    | inl recorded ↦ rw recorded (insert-Unique endpoint _ m u)
    | inr not_recorded ↦ rw not_recorded u
  ]

  -- The nets after a network was replaced.
  put_network-IsBounded :
      (network : Key) (kept : Assoc PeerEntry)
      → IsBounded r
      → (is_some (lookup network r.nets) ≡ true) ⊎ (length r.nets < r.max_networks)
      → Unique kept
      → length kept ≤ r.max_peers
      → IsBounded (record r { nets = put_network network kept r.nets })
  unfolding put_network
  put_network-IsBounded network [] (u, n, all) room uk lk = (
    without-Unique network r.nets u,
    omega (arith, length-without-le network r.nets),
    λ other m l. all other m (left other m l),
  )
    where
      left :
          (other : Key) (m : Assoc PeerEntry)
          → lookup other (without network r.nets) ≡ some m
          → lookup other r.nets ≡ some m
      left other m l = elim (Bool-cases (network == other)) [
        | inl same ↦ absurd (ground (arith, l, sym (lookup-without network other r.nets), same))
        | inr far ↦ sym (lookup-without network other r.nets ∙ rw far refl) ∙ l
      ]
  put_network-IsBounded network (x ∷ kept) (u, n, all) room uk lk = (
    insert-Unique network (x ∷ kept) r.nets u,
    grown room,
    λ other m l. at other m l (Bool-cases (network == other)),
  )
    where
      grown :
          (is_some (lookup network r.nets) ≡ true) ⊎ (length r.nets < r.max_networks)
          → length (insert network (x ∷ kept) r.nets) ≤ r.max_networks
      grown (inl there) = rw (length-insert network (x ∷ kept) r.nets, there) n
      grown (inr room) = ground (arith, length-insert network (x ∷ kept) r.nets, room)

      at :
          (other : Key) (m : Assoc PeerEntry)
          → lookup other (insert network (x ∷ kept) r.nets) ≡ some m
          → ((network == other) ≡ true) ⊎ ((network == other) ≡ false)
          → IsNetwork r m
      at other m l (inl same) =
          let e : some (x ∷ kept) ≡ some m =
            sym (lookup-insert network other (x ∷ kept) r.nets ∙ rw same refl) ∙ l in
          subst (IsNetwork r) (some-injective _ _ e) (uk, omega arith, lk)
      at other m l (inr far) =
          all other m (sym (lookup-insert network other (x ∷ kept) r.nets ∙ rw far refl) ∙ l)

  announce_in-IsBounded :
      (network : Key) (m : Assoc PeerEntry)
      → IsBounded r
      → (is_some (lookup network r.nets) ≡ true) ⊎ (length r.nets < r.max_networks)
      → Unique m
      → length m ≤ r.max_peers
      → IsBounded (announce_in r now network endpoint source is_verified m).0
  unfolding announce_in expire
  announce_in-IsBounded network m b room u l =
      let live = expire now r.ttl m in
      put_network-IsBounded network (record_endpoint r now endpoint source is_verified live) b room
        (record_endpoint-Unique live (retain-Unique (λ ep e. leb now (e.last_seen + r.ttl)) m u))
        (record_endpoint-length live
          (omega (arith, length-retain-le (λ ep e. leb now (e.last_seen + r.ttl)) m)))

  pub announce-IsBounded :
      (network : Key)
      → IsBounded r
      → IsBounded (announce now network endpoint source is_verified r).0
  unfolding announce
  announce-IsBounded network b = at (lookup network r.nets) refl
    where
      at :
          (o : Option (Assoc PeerEntry))
          → lookup network r.nets ≡ o
          → IsBounded (announce now network endpoint source is_verified r).0
      at none h = elim (Bool-cases (endpoint == 0 || leb r.max_networks (length r.nets))) [
        | inl refused ↦ rw (h, announce, refused) b
        | inr fits ↦
            rw (h, announce, fits)
              (announce_in-IsBounded network [] b (inr (ground (arith, fits))) tt (omega arith))
      ]
      at (some m) h =
          rw (h, announce)
            (announce_in-IsBounded network m b (inl (rw h refl)) (b.2 network m h).0
              (b.2 network m h).2)
