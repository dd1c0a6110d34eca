-- ===== src/AddressBindings.antt =====
-- client/ipbinding.go: which key holds an overlay address (owns, Forget, releaseOthers), on what a
-- node knows in AddressClaims. The overlay subnet and the salted derivation of an address are
-- parameters (`Net`). The memo of derived addresses and the cache of verdicts are left out; each
-- call is one step and reads the clock once.
pub mod Incumbent
pub mod History
pub mod Bounded
mod Tests
use apgo.Prelude.{
  ℕ, zero, suc, ◌+◌, ◌*◌, Bool, true, false, not, ◌&&◌, ◌||◌, List, [], ◌∷◌, ◌++◌, Option, none,
  some, ltb, leb, ◌==◌, if◌then◌else◌, length,
}
use apgo.Prelude.Maps.{Key, Assoc, lookup, insert, without, retain}
use apgo.Prelude.Text.{ℤ, pos, int_lt}
use apgo.Backoff.{minute}
use apgo.Signed.{SignedProvision, key_of}
use apgo.Provision.{prov_addr_ip}
use apgo.Revocation.{is_revoked}
use apgo.AddressClaims.{Known, RosterEntry, roster_snapshot, is_set}

abbrev pub ip_binding_max_salt : ℕ
ip_binding_max_salt = 128

abbrev pub ip_binding_idle_ttl : ℕ
ip_binding_idle_ttl = 24 * (60 * minute)

abbrev pub ip_binding_max_bindings : ℕ
ip_binding_max_bindings = 4096

abbrev pub claim_pinned : ℕ
claim_pinned = 1

abbrev pub claim_hopped : ℕ
claim_hopped = 2

abbrev pub claim_primary : ℕ
claim_primary = 3

-- The overlay: whether its range is set, what is in it, what a key derives with a salt, this
-- node's own address, and IP_BINDING=strict.
pub record Net : Type 0 where
  pub has_cidr : Bool
  pub in_subnet : Key → Bool
  pub derive : Key → ℕ → Option Key
  pub my_ip : Key
  pub strict : Bool

pub record Binding : Type 0 where
  pub pub_key : Key
  pub seen : ℕ
  pub strength : ℕ

abbrev pub Bindings : Type 0
Bindings = Assoc Binding

-- The lowest salt that gives the address: the loop of `derivedSet`.
unfoldable pub salt_from : (ℕ → Option Key) → Key → (rounds salt : ℕ) → Option ℕ
salt_from derive ip zero salt = none
salt_from derive ip (suc rounds) salt =
    let rest = salt_from derive ip rounds (salt + 1) in
    elim (derive salt) [ none ↦ none | some a ↦ if a == ip then some salt else rest ]

abbrev pub salt_strength : Option ℕ → ℕ
salt_strength none = claim_pinned
salt_strength (some salt) = if salt == 0 then claim_primary else claim_hopped

unfoldable pub strength_of : Net → (pub_key ip : Key) → ℕ
strength_of e k ip =
    if not e.has_cidr
    then claim_pinned
    else salt_strength (salt_from (e.derive k) ip (suc ip_binding_max_salt) 0)

-- A record that counts for an address: its key, which is not revoked.
unfoldable pub owner_in : Known → Key → SignedProvision → Option Key
owner_in m ip rec =
    if not (is_set rec.address) || not (prov_addr_ip m.texts rec == ip)
    then none
    else elim (key_of (m.admin.decode_base64 rec.pub_key)) [
      | none ↦ none
      | some k ↦ if is_revoked m.revoked k then none else some k
    ]

abbrev pub with_owner : Option Key → ℤ → List Key × ℤ → List Key × ℤ
with_owner none seq found = found
with_owner (some k) seq ([], best) = (k ∷ [], seq)
with_owner (some k) seq (j ∷ out, best) =
    if int_lt best seq
    then (k ∷ [], seq)
    else if int_lt seq best
    then (j ∷ out, best)
    else ((j ∷ out) ++ (k ∷ []), best)

-- The loop of `provisionedOwners`, with the owners so far and their sequence.
unfoldable pub owners_from : Known → Key → Assoc SignedProvision → List Key × ℤ → List Key × ℤ
owners_from m ip [] found = found
owners_from m ip ((k, rec) ∷ recs) found =
    owners_from m ip recs (with_owner (owner_in m ip rec) rec.seq found)

unfoldable pub provisioned_owners : Known → Key → List Key
provisioned_owners m ip = (owners_from m ip m.provisions ([], pos 0)).0

abbrev pub is_among : Key → List Key → Bool
is_among k [] = false
is_among k (j ∷ l) = (j == k) || is_among k l

-- `provisioned`: `none` when no provision decides, else whether the key is an owner.
unfoldable pub provisioned : Known → (pub_key ip : Key) → Option Bool
provisioned m k ip = elim (provisioned_owners m ip) [
  | [] ↦ none
  | o ∷ os ↦ some (is_among k (o ∷ os))
]

-- The two loops of `knownKeysClaiming`.
unfoldable pub peers_at : Key → Assoc Key → List Key
peers_at ip [] = []
peers_at ip ((k, at) ∷ m) = let rest = peers_at ip m in if at == ip then k ∷ rest else rest

abbrev pub entry_key : Known → Key → RosterEntry → Option Key
entry_key m ip e =
    if not (e.ip == ip) || not (is_set e.pk) then none else key_of (m.admin.decode_base64 e.pk)

unfoldable pub roster_at : Known → Key → List RosterEntry → List Key
roster_at m ip [] = []
roster_at m ip (e ∷ l) =
    let rest = roster_at m ip l in elim (entry_key m ip e) [ none ↦ rest | some k ↦ k ∷ rest ]

unfoldable pub known_keys_claiming : ℕ → Known → Key → List Key
known_keys_claiming now m ip =
    peers_at ip m.peer_ips ++ roster_at m ip (roster_snapshot now m.roster)

-- Another known key derives the address as its primary one.
unfoldable pub has_primary_rival : Net → (pub_key ip : Key) → List Key → Bool
has_primary_rival e k ip [] = false
has_primary_rival e k ip (j ∷ l) =
    (not (j == k) && (strength_of e j ip == claim_primary)) || has_primary_rival e k ip l

abbrev pub address_of : Option Key → Key
address_of none = 0
address_of (some ip) = ip

unfoldable pub claims_address : ℕ → Known → (pub_key ip : Key) → Bool
claims_address now m k ip =
    (address_of (lookup k m.peer_ips) == ip)
    || is_among k (roster_at m ip (roster_snapshot now m.roster))

-- `releaseOthers`: the bindings of the key, except that of the address.
unfoldable pub release_others : (pub_key ip : Key) → Bindings → Bindings
release_others k ip = retain (λ at b. not ((b.pub_key == k) && not (at == ip)))

abbrev pub is_idle : ℕ → Binding → Bool
is_idle now b = ltb (b.seen + ip_binding_idle_ttl) now

-- The address is bound to the key, which releases the others it holds.
unfoldable pub take_address : ℕ → (pub_key ip : Key) → (strength : ℕ) → Bindings → Bindings
take_address now k ip strength t =
    insert ip (record { pub_key = k; seen = now; strength = strength })
      (retain (λ at b. not (b.pub_key == k)) t)

-- An address that nobody holds, or no more.
unfoldable pub claim_free :
    ℕ → Known → (pub_key ip : Key) → (bind : Bool) (strength : ℕ) → Bindings → Bindings × Bool
claim_free now m k ip bind strength t =
    let fresh = retain (λ at b. not (is_idle now b)) t in
    if not bind
    then (t, (strength == claim_primary) && claims_address now m k ip)
    else if ltb (length t) ip_binding_max_bindings
    then (take_address now k ip strength t, true)
    else if leb ip_binding_max_bindings (length fresh)
    then (fresh, false)
    else (take_address now k ip strength fresh, true)

-- The holder of the address claims it, or is asked about.
unfoldable pub refresh :
    ℕ → Key → (bind : Bool) (strength : ℕ) → Binding → Bindings → Bindings × Bool
refresh now ip bind strength b t = if not bind then (t, true) else (
  insert ip
      (record b { seen = now; strength = if ltb b.strength strength then strength else b.strength })
      t,
  true,
)

-- Another key claims it.
unfoldable pub displace :
    ℕ
    → Known
    → (pub_key ip : Key) → (bind : Bool) (strength : ℕ) → Binding
    → Bindings
    → Bindings × Bool
displace now m k ip bind strength b t =
    if is_idle now b || is_revoked m.revoked b.pub_key
    then claim_free now m k ip bind strength (without ip t)
    else if ltb b.strength strength
    then if not bind
      then (t, claims_address now m k ip)
      else claim_free now m k ip bind strength (without ip t)
    else (t, false)

unfoldable pub contest :
    ℕ
    → Known
    → (pub_key ip : Key) → (bind : Bool) (strength : ℕ) → Option Binding
    → Bindings
    → Bindings × Bool
contest now m k ip bind strength none t = claim_free now m k ip bind strength t
contest now m k ip bind strength (some b) t =
    if b.pub_key == k
    then refresh now ip bind strength b t
    else displace now m k ip bind strength b t

-- The rest of `owns`, where no provision decides.
unfoldable pub owns_unprovisioned :
    Net → ℕ → Known → (pub_key ip : Key) → (bind : Bool) → Bindings → Bindings × Bool
owns_unprovisioned e now m k ip bind t =
    let strength = strength_of e k ip in
    if (strength == claim_pinned) && e.strict
    then (t, false)
    else if ltb strength claim_primary && has_primary_rival e k ip (known_keys_claiming now m ip)
    then (t, false)
    else if ip == e.my_ip
    then (t, strength == claim_primary)
    else contest now m k ip bind strength (lookup ip t) t

unfoldable pub owns :
    Net → ℕ → Known → (pub_key ip : Key) → (bind : Bool) → Bindings → Bindings × Bool
owns e now m k ip bind t =
    if (k == 0) || not (e.in_subnet ip)
    then (t, false)
    else if is_revoked m.revoked k
    then (t, false)
    else elim (provisioned m k ip) [
      | some owner ↦ (if owner && bind then release_others k ip t else t, owner)
      | none ↦ owns_unprovisioned e now m k ip bind t
    ]

-- `Forget`
unfoldable pub forget : Key → Bindings → Bindings
forget k = retain (λ at b. not (b.pub_key == k))
