-- ===== src/Rendezvous/Tests.antt =====
-- Runs of the registry.
use apgo.Prelude.{ℕ, true, false, [], ◌∷◌, some, ◌≡◌, refl}
use apgo.Prelude.Maps.{Key, Assoc, lookup, Unique}
use apgo.Rendezvous.{PeerEntry, Registry, new_registry, announce}
use apgo.Rendezvous.Bounds.{IsBounded}
use apgo.Rendezvous.History.{announced, swept_all, run, run-IsBounded, new_registry-IsBounded}
use apgo.Rendezvous.Peers.{announce_takes_over}

abbrev entry : Key → Key → ℕ → PeerEntry
entry ep source at = record { endpoint = ep; source = source; is_verified = false; last_seen = at }

-- Network 1 with a live endpoint 7 of source 3 and an expired one 8 of source 4.
abbrev members : Assoc PeerEntry
members = (7, entry 7 3 90) ∷ (8, entry 8 4 10) ∷ []

abbrev registry : Registry
registry = record (new_registry 50) {
  nets = (1, members) ∷ [];
  ttl = 50;
  max_peers = 200;
  max_per_source_verified = 64;
  max_per_source_unverified = 4;
  max_networks = 50_000;
}

known : lookup 1 registry.nets ≡ some members
unfolding lookup
known = refl

members-Unique : Unique members
unfolding lookup
members-Unique = (refl, (refl, tt))

run-IsBounded_example : IsBounded (
    run
      (new_registry 50)
      ((1, announced 1 7 3 true) ∷ (2, announced 2 8 3 false) ∷ (90, swept_all) ∷ []))
run-IsBounded_example =
    run-IsBounded (new_registry 50)
      ((1, announced 1 7 3 true) ∷ (2, announced 2 8 3 false) ∷ (90, swept_all) ∷ [])
      (new_registry-IsBounded 50)

-- Source 5 announces the endpoint of source 3.
announce_takes_over_example :
    (kept : Assoc PeerEntry) × (lookup 1 (announce 100 1 7 5 false registry).0.nets ≡ some kept)
    × (lookup 7 kept ≡ some (entry 7 5 100))
announce_takes_over_example =
    announce_takes_over registry 100 1 7 5 false members known members-Unique refl
      (unfold lookup in refl)
