-- ===== src/Rendezvous/Peers.antt =====
-- Which endpoints an announce hands out, and whose an endpoint becomes.
use apgo.Prelude.{
  ℕ, ◌+◌, Bool, true, false, not, ◌&&◌, ◌||◌, List, [], ◌∷◌, Option, none, some, leb, ◌==◌, ==_refl,
  if◌then◌else◌, Bool-cases, ◌≡◌, ◌⊎◌, inl, inr, refl, ap, arith, ◌∙◌,
}
use apgo.Prelude.Maps.{Key, Assoc, is_some, lookup, Unique, lookup-insert, lookup-retain}
use apgo.Rendezvous.{
  PeerEntry, Registry, expire, records, record_endpoint, others, put_network, announce_in, announce,
}

abbrev pub mem : Key → List Key → Bool
mem x [] = false
mem x (y ∷ ys) = y == x || mem x ys

mem-others :
    (endpoint x : Key) (m : Assoc PeerEntry)
    → mem x (others endpoint m) ≡ (not (x == endpoint) && is_some (lookup x m))
unfolding others lookup
mem-others endpoint x [] = ground arith
mem-others endpoint x ((ep, e) ∷ m) = ground (arith, mem-others endpoint x m)

-- An entry that has not expired.
abbrev pub is_live : ℕ → Registry → Option PeerEntry → Bool
is_live now r none = false
is_live now r (some e) = leb now (e.last_seen + r.ttl)

module _ (r : Registry) (now : ℕ) (network endpoint source : Key) (is_verified : Bool) where
  lookup-record_endpoint :
      (x : Key) (m : Assoc PeerEntry)
      → (x == endpoint) ≡ false
      → lookup x (record_endpoint r now endpoint source is_verified m) ≡ lookup x m
  unfolding record_endpoint
  lookup-record_endpoint x m h = elim (Bool-cases (records r endpoint source is_verified m)) [
    | inl recorded ↦ rw recorded (lookup-insert endpoint x _ m ∙ ground (arith, h))
    | inr not_recorded ↦ rw not_recorded refl
  ]

  is_some-expire :
      (x : Key) (m : Assoc PeerEntry)
      → Unique m
      → is_some (lookup x (expire now r.ttl m)) ≡ is_live now r (lookup x m)
  unfolding expire
  is_some-expire x m u =
      ap is_some (lookup-retain (λ ep e. leb now (e.last_seen + r.ttl)) x m u) ∙ at (lookup x m)
    where
      at :
          (o : Option PeerEntry)
          → is_some (elim o [
            | none ↦ none
            | some e ↦ if leb now (e.last_seen + r.ttl) then some e else none
          ])
            ≡ is_live now r o
      at none = refl
      at (some e) = elim (Bool-cases (leb now (e.last_seen + r.ttl))) [
        | inl live ↦ rw live refl
        | inr expired ↦ rw expired refl
      ]

  others-announce_in :
      (x : Key) (m : Assoc PeerEntry)
      → Unique m
      → mem x (announce_in r now network endpoint source is_verified m).1
        ≡ (not (x == endpoint) && is_live now r (lookup x m))
  unfolding announce_in
  others-announce_in x m u =
      mem-others endpoint x (record_endpoint r now endpoint source is_verified (expire now r.ttl m))
      ∙ at (Bool-cases (x == endpoint))
    where
      at :
          ((x == endpoint) ≡ true) ⊎ ((x == endpoint) ≡ false)
          → (not (x == endpoint)
              && is_some (
                  lookup x
                    (record_endpoint r now endpoint source is_verified (expire now r.ttl m))))
            ≡ (not (x == endpoint) && is_live now r (lookup x m))
      at (inl own) = rw own refl
      at (inr other) =
          rw other (
            ap is_some (lookup-record_endpoint x (expire now r.ttl m) other) ∙ is_some-expire x m u)

  -- An announce in a known network hands out exactly the endpoints of that network that have not
  -- expired, less the one announced, when the network holds no endpoint twice.
  pub announce_peers :
      (x : Key) (m : Assoc PeerEntry)
      → lookup network r.nets ≡ some m
      → Unique m
      → mem x (announce now network endpoint source is_verified r).1
        ≡ (not (x == endpoint) && is_live now r (lookup x m))
  unfolding announce
  announce_peers x m h u = rw (h, announce) (others-announce_in x m u)

  lookup-put_network :
      (kept : Assoc PeerEntry) (x : Key) (e : PeerEntry) (nets : Assoc (Assoc PeerEntry))
      → lookup x kept ≡ some e
      → lookup network (put_network network kept nets) ≡ some kept
  unfolding put_network lookup
  lookup-put_network [] x e nets h = absurd (ground arith)
  lookup-put_network (y ∷ kept) x e nets h =
      lookup-insert network network (y ∷ kept) nets ∙ rw (==_refl network) refl

  -- An endpoint that has not expired becomes the announcing source's, whoever announced it before
  -- and however many endpoints the source has already.
  pub announce_takes_over :
      (m : Assoc PeerEntry)
      → lookup network r.nets ≡ some m
      → Unique m
      → (endpoint == 0) ≡ false
      → is_live now r (lookup endpoint m) ≡ true
      → (kept : Assoc PeerEntry) × (lookup network
            (announce now network endpoint source is_verified r).0.nets
          ≡ some kept)
        × (lookup endpoint kept
            ≡ some (record {
              endpoint = endpoint;
              source = source;
              is_verified = is_verified;
              last_seen = now;
            }))
  unfolding announce announce_in
  announce_takes_over m h u named live =
      let entry : PeerEntry = record {
        endpoint = endpoint;
        source = source;
        is_verified = is_verified;
        last_seen = now;
      } in
      let kept = record_endpoint r now endpoint source is_verified (expire now r.ttl m) in
      let recorded : lookup endpoint kept ≡ some entry =
        refreshed (expire now r.ttl m) named (is_some-expire endpoint m u ∙ live) in
      (kept, rw (h, announce) (lookup-put_network kept endpoint entry r.nets recorded), recorded)
    where
      refreshed :
          (n : Assoc PeerEntry)
          → (endpoint == 0) ≡ false
          → is_some (lookup endpoint n) ≡ true
          → lookup endpoint (record_endpoint r now endpoint source is_verified n)
            ≡ some (record {
              endpoint = endpoint;
              source = source;
              is_verified = is_verified;
              last_seen = now;
            })
      refreshed n named there =
          let yes_it_is : records r endpoint source is_verified n ≡ true =
            unfold records in rw (named, there) refl in
          unfold record_endpoint in
          rw yes_it_is (lookup-insert endpoint endpoint _ n ∙ rw (==_refl endpoint) refl)
