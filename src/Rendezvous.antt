-- ===== src/Rendezvous.antt =====
-- rendezvous/main.go: the registry of live endpoints of each network (announce, sweep).
-- Names, endpoints and source addresses are map keys, with 0 for ""; times are nanoseconds.
pub mod Bounds
pub mod History
pub mod Peers
mod Tests
use apgo.Prelude.{
  ℕ, suc, ◌+◌, Bool, true, false, not, ◌&&◌, ◌||◌, List, [], ◌∷◌, Option, none, some, ltb, leb,
  ◌==◌, if◌then◌else◌, length,
}
use apgo.Prelude.Maps.{Key, Assoc, is_some, lookup, insert, without, retain, update_all}

pub record PeerEntry : Type 0 where
  pub endpoint : Key
  pub source : Key
  pub is_verified : Bool
  pub last_seen : ℕ

pub record Registry : Type 0 where
  pub nets : Assoc (Assoc PeerEntry)
  pub ttl : ℕ
  pub max_peers : ℕ
  pub max_per_source_verified : ℕ
  pub max_per_source_unverified : ℕ
  pub max_networks : ℕ

unfoldable pub new_registry : ℕ → Registry
new_registry ttl = record {
  nets = [];
  ttl = ttl;
  max_peers = 200;
  max_per_source_verified = 64;
  max_per_source_unverified = 4;
  max_networks = 50_000;
}

-- The loop that deletes expired entries.
unfoldable pub expire : ℕ → ℕ → Assoc PeerEntry → Assoc PeerEntry
expire now ttl m = retain (λ ep e. leb now (e.last_seen + ttl)) m

abbrev pub counts : Key → Bool → Key → Key → PeerEntry → Bool
counts source is_verified endpoint ep e =
    (e.source == source)
    && (if e.is_verified then is_verified else not is_verified)
    && not (ep == endpoint)

-- `fromSource`, over the entries that did not expire.
unfoldable pub from_source : Key → Bool → Key → Assoc PeerEntry → ℕ
from_source source is_verified endpoint [] = 0
from_source source is_verified endpoint ((ep, e) ∷ m) =
    let rest = from_source source is_verified endpoint m in
    if counts source is_verified endpoint ep e then suc rest else rest

abbrev pub limit : Registry → Bool → ℕ
limit r is_verified = if is_verified then r.max_per_source_verified else r.max_per_source_unverified

-- Whether the endpoint is recorded.
unfoldable pub records : Registry → Key → Key → Bool → Assoc PeerEntry → Bool
records r endpoint source is_verified m =
    not (endpoint == 0)
    && (is_some (lookup endpoint m)
        || (ltb (length m) r.max_peers
            && ltb (from_source source is_verified endpoint m) (limit r is_verified)))

unfoldable pub record_endpoint : Registry → ℕ → Key → Key → Bool → Assoc PeerEntry → Assoc PeerEntry
record_endpoint r now endpoint source is_verified m =
    if records r endpoint source is_verified m
    then insert endpoint
        (record {
          endpoint = endpoint;
          source = source;
          is_verified = is_verified;
          last_seen = now;
        })
        m
    else m

-- The endpoints that are handed out.
unfoldable pub others : Key → Assoc PeerEntry → List Key
others endpoint [] = []
others endpoint ((ep, e) ∷ m) =
    let rest = others endpoint m in if ep == endpoint then rest else ep ∷ rest

-- `r.nets[network] = m`, or its deletion when it is left empty.
unfoldable pub put_network :
    Key → Assoc PeerEntry → Assoc (Assoc PeerEntry) → Assoc (Assoc PeerEntry)
put_network network [] nets = without network nets
put_network network (x ∷ m) nets = insert network (x ∷ m) nets

unfoldable pub announce_in :
    Registry → ℕ → Key → Key → Key → Bool → Assoc PeerEntry → Registry × List Key
announce_in r now network endpoint source is_verified m =
    let kept = record_endpoint r now endpoint source is_verified (expire now r.ttl m) in
    (record r { nets = put_network network kept r.nets }, others endpoint kept)

unfoldable pub announce : ℕ → Key → Key → Key → Bool → Registry → Registry × List Key
announce now network endpoint source is_verified r = elim (lookup network r.nets) [
  | none ↦
      if endpoint == 0 || leb r.max_networks (length r.nets)
      then (r, [])
      else announce_in r now network endpoint source is_verified []
  | some m ↦ announce_in r now network endpoint source is_verified m
]

abbrev pub is_filled : Key → Assoc PeerEntry → Bool
is_filled network [] = false
is_filled network (x ∷ m) = true

unfoldable pub sweep : ℕ → Registry → Registry
sweep now r = record r {
  nets = retain is_filled (update_all (λ network m. expire now r.ttl m) r.nets);
}
