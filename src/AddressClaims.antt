-- ===== src/AddressClaims.antt =====
-- client/ipclaim.go: who gives an overlay address up when two nodes claim it, with what it reads of
-- client/roster.go and client/provision.go.
-- An overlay IP is a map key, with 0 for "" and without a mask; a static key likewise. net.ParseIP,
-- base64 of a key, a key's fingerprint and the salted derivation of an address (SHA-256) are
-- parameters. What a claim only shows to the user (names, reasons) is left out, as are logs; the
-- clock is an argument, and the resolver is one step.
pub mod Yield
pub mod Resolve
mod Tests
use apgo.Prelude.{
  ℕ, zero, suc, ◌+◌, ◌*◌, Bool, true, false, not, ◌&&◌, ◌||◌, List, [], ◌∷◌, Option, none, some,
  ltb, ◌==◌, if◌then◌else◌,
}
use apgo.Prelude.Maps.{Key, Assoc, lookup, is_some}
use apgo.Prelude.Text.{Text, text_eq, ℤ, pos, int_lt}
use apgo.Backoff.{second, minute}
use apgo.Bencode.{text_lt}
use apgo.Signed.{SignedProvision, Admin, key_of}
use apgo.Provision.{Texts, prov_addr_ip}
use apgo.Revocation.{RevStore, is_revoked}
use apgo.Admission.{ApprovalStore, is_approved, Gate, admission_required}
use apgo.IpLearning.{lookup_route}
use apgo.SessionTable.{Node, is_established, established_addrs, get_by_addr}

abbrev pub roster_ttl : ℕ
roster_ttl = 5 * minute

pub record RosterEntry : Type 0 where
  pub ip : Key
  pub pk : Text
  pub fp : Text
  pub seen : ℕ

pub data ClaimSource : Type 0 where
  by_provision : ClaimSource
  by_roster : ClaimSource
  by_peer : ClaimSource

pub record IpClaim : Type 0 where
  pub pub_key : Key
  pub source : ClaimSource
  pub provisioned : Bool
  pub seq : ℤ
  pub approved : Bool
  pub live : Bool

-- The texts of keys, and which overlay IPs parse.
pub record Keys : Type 0 where
  pub encode : Key → Text
  pub fingerprint : Key → Text
  pub is_ip : Key → Bool

-- What a node knows when it judges a claim.
pub record Known : Type 0 where
  pub gate : Gate
  pub admin : Admin
  pub texts : Texts
  pub provisions : Assoc SignedProvision
  pub roster : List RosterEntry
  pub peer_ips : Assoc Key
  pub revoked : RevStore
  pub approvals : ApprovalStore
  pub node : Node

-- `rosterSnapshot`: the entries that are not expired.
unfoldable pub roster_snapshot : ℕ → List RosterEntry → List RosterEntry
roster_snapshot now [] = []
roster_snapshot now (e ∷ l) =
    let rest = roster_snapshot now l in if ltb (e.seen + roster_ttl) now then rest else e ∷ rest

abbrev pub is_set : Text → Bool
is_set [] = false
is_set (b ∷ t) = true

-- The loop of `rosterIPByKey`.
unfoldable pub roster_ip_from : Keys → Key → List RosterEntry → Key
roster_ip_from t k [] = 0
roster_ip_from t k (e ∷ l) =
    let rest = roster_ip_from t k l in
    if e.ip == 0
    then rest
    else if (is_set e.pk && text_eq e.pk (t.encode k))
        || (is_set e.fp && text_eq e.fp (t.fingerprint k))
    then e.ip
    else rest

unfoldable pub roster_ip_by_key : Keys → ℕ → Key → Known → Key
roster_ip_by_key t now k m = if k == 0 then 0 else roster_ip_from t k (roster_snapshot now m.roster)

-- The established session of an endpoint, if it has the key.
abbrev pub is_session_of : Key → Node → Key → Bool
is_session_of k n addr = elim (get_by_addr addr n) [
  | none ↦ false
  | some s ↦ is_established s && (s.peer_static == k)
]

unfoldable pub has_session : Key → Node → List Key → Bool
has_session k n [] = false
has_session k n (addr ∷ l) = is_session_of k n addr || has_session k n l

unfoldable pub claimant_is_live : Keys → ℕ → Key → Known → Bool
claimant_is_live t now k m =
    has_session k m.node (established_addrs m.node.by_addr) || not (roster_ip_by_key t now k m == 0)

unfoldable pub have_established : Node → List Key → Bool
have_established n [] = false
have_established n (addr ∷ l) =
    (elim (get_by_addr addr n) [ none ↦ false | some s ↦ is_established s ]) || have_established n l

unfoldable pub have_established_session : Known → Bool
have_established_session m = have_established m.node (established_addrs m.node.by_addr)

-- A further claim of a key that has one already.
unfoldable pub strengthened : (provisioned : Bool) (seq : ℤ) (live : Bool) → IpClaim → IpClaim
strengthened provisioned seq live c = record c {
  provisioned = c.provisioned || provisioned;
  seq = if int_lt c.seq seq then seq else c.seq;
  live = c.live || live;
}

unfoldable pub put_claim : IpClaim → List IpClaim → List IpClaim
put_claim c [] = c ∷ []
put_claim c (d ∷ l) =
    let rest = put_claim c l in
    if d.pub_key == c.pub_key then strengthened c.provisioned c.seq c.live d ∷ l else d ∷ rest

-- `add`
unfoldable pub add_claim :
    Keys
    → ℕ
    → Known
    → (k : Key) → ClaimSource
    → (provisioned : Bool) (seq : ℤ) → List IpClaim
    → List IpClaim
add_claim t now m k source provisioned seq l =
    if (k == m.gate.self) || (k == 0)
    then l
    else if is_revoked m.revoked k
    then l
    else put_claim
        (record {
          pub_key = k;
          source = source;
          provisioned = provisioned;
          seq = seq;
          approved = is_approved m.approvals k;
          live = claimant_is_live t now k m;
        })
        l

abbrev pub add_decoded :
    Keys
    → ℕ
    → Known
    → Option Key
    → ClaimSource
    → (provisioned : Bool) (seq : ℤ) → List IpClaim
    → List IpClaim
add_decoded t now m none source provisioned seq l = l
add_decoded t now m (some k) source provisioned seq l = add_claim t now m k source provisioned seq l

-- The three loops of `overlayIPClaims`.
unfoldable pub provision_claims :
    Keys → ℕ → Known → Key → Assoc SignedProvision → List IpClaim → List IpClaim
provision_claims t now m ip [] l = l
provision_claims t now m ip ((k, rec) ∷ recs) l = provision_claims t now m ip recs (
    if prov_addr_ip m.texts rec == ip
    then add_decoded t now m (key_of (m.admin.decode_base64 rec.pub_key)) by_provision true rec.seq
        l
    else l)

unfoldable pub roster_claims :
    Keys → ℕ → Known → Key → List RosterEntry → List IpClaim → List IpClaim
roster_claims t now m ip [] l = l
roster_claims t now m ip (e ∷ es) l = roster_claims t now m ip es (
    if not (e.ip == ip) || not (is_set e.pk)
    then l
    else add_decoded t now m (key_of (m.admin.decode_base64 e.pk)) by_roster false (pos 0) l)

unfoldable pub peer_claims : Keys → ℕ → Known → Key → Assoc Key → List IpClaim → List IpClaim
peer_claims t now m ip [] l = l
peer_claims t now m ip ((k, at) ∷ ps) l =
    peer_claims t now m ip ps (if at == ip then add_claim t now m k by_peer false (pos 0) l else l)

unfoldable pub overlay_ip_claims : Keys → ℕ → Known → Key → List IpClaim
overlay_ip_claims t now m ip =
    if (ip == 0) || not (t.is_ip ip)
    then []
    else peer_claims t now m ip m.peer_ips (
        roster_claims t now m ip (roster_snapshot now m.roster)
          (provision_claims t now m ip m.provisions []))

abbrev pub seq_for : Known → Key → Option SignedProvision → ℤ
seq_for m ip none = pos 0
seq_for m ip (some rec) =
    if (prov_addr_ip m.texts rec == 0) || not (prov_addr_ip m.texts rec == ip)
    then pos 0
    else rec.seq

unfoldable pub self_provision_seq : Known → Key → ℤ
self_provision_seq m ip = seq_for m ip (lookup m.gate.self m.provisions)

unfoldable pub self_approved : Known → Bool
self_approved m =
    if not (admission_required m.gate) then true else is_approved m.approvals m.gate.self

-- Two Booleans that agree.
abbrev pub agree : Bool → Bool → Bool
agree a b = if a then b else not b

-- `yieldsTo`, at the overlay IP of this node.
unfoldable pub yields_to : Keys → Known → Key → IpClaim → Bool
yields_to t m my_ip c =
    let mine = self_provision_seq m my_ip in
    if c.provisioned
    then not (int_lt (pos 0) mine && not (int_lt mine c.seq))
    else if not (agree c.approved (self_approved m))
    then c.approved
    else text_lt (t.encode c.pub_key) (t.encode m.gate.self)

-- The last collision that was resolved, or not; `source` is `none` for the binding warning of
-- client/ipbinding.go.
pub record IpConflict : Type 0 where
  pub old_ip : Key
  pub new_ip : Key
  pub peer : Key
  pub resolved : Bool
  pub stale : Bool
  pub source : Option ClaimSource
  pub at : ℕ

-- This node's address, and what the resolver remembers.
pub record Holder : Type 0 where
  pub my_ip : Key
  pub auto_derived : Bool
  pub last_check : Option ℕ
  pub hop_salt : ℕ
  pub last_hop : ℕ
  pub conflict : Option IpConflict

-- `getIPConflict`
unfoldable pub shown_conflict : ℕ → Option IpConflict → Option IpConflict
shown_conflict now none = none
shown_conflict now (some c) = if c.resolved && ltb (c.at + 60 * minute) now then none else some c

-- The strongest claim: the loop over the claims behind the first.
unfoldable pub best_claim : IpClaim → List IpClaim → IpClaim
best_claim best [] = best
best_claim best (c ∷ l) =
    best_claim
      (if (c.provisioned && not best.provisioned)
          || (c.approved && not best.approved && not best.provisioned)
        then c
        else best)
      l

-- `clearIPConflictIfSettled`, when nobody else claims the address.
unfoldable pub clear_settled : Holder → Holder
clear_settled h = elim h.conflict [
  | none ↦ h
  | some c ↦ if not c.resolved && is_some c.source then record h { conflict = none } else h
]

-- An address that nobody is known to hold.
unfoldable pub is_free : Keys → ℕ → Known → (my_ip ip : Key) → Bool
is_free t now m my_ip ip = if ip == my_ip then false else elim (overlay_ip_claims t now m ip) [
  | c ∷ l ↦ false
  | [] ↦ not (is_some (lookup_route ip m.node.learned))
]

-- The rounds of `nextFreeDerivedAddress`: the salt, and the address. `derive` is
-- deriveOverlayIPSalted of this node's key, less the mask.
unfoldable pub next_free_from :
    Keys → ℕ → Known → (derive : ℕ → Option Key) (my_ip : Key) (rounds salt : ℕ) → ℕ × Option Key
next_free_from t now m derive my_ip zero salt = (salt, none)
next_free_from t now m derive my_ip (suc rounds) salt =
    let rest = next_free_from t now m derive my_ip rounds (salt + 1) in
    elim (derive (salt + 1)) [
      | none ↦ (salt + 1, none)
      | some ip ↦ if is_free t now m my_ip ip then (salt + 1, some ip) else rest
    ]

unfoldable pub next_free_derived_address :
    Keys → ℕ → Known → (ℕ → Option Key) → Holder → ℕ × Option Key
next_free_derived_address t now m derive h = next_free_from t now m derive h.my_ip 16 h.hop_salt

abbrev pub conflict_with :
    ℕ → Holder → IpClaim → (new_ip : Key) → (resolved stale : Bool) → IpConflict
conflict_with now h best new_ip resolved stale = record {
  old_ip = h.my_ip;
  new_ip = new_ip;
  peer = best.pub_key;
  resolved = resolved;
  stale = stale;
  source = some best.source;
  at = now;
}

abbrev pub note_unresolved : ℕ → IpClaim → (stale : Bool) → Holder → Holder
note_unresolved now best stale h = record h {
  conflict = some (conflict_with now h best 0 false stale);
}

-- `moveOffAssignedAddress`; `applied` is what applyAddressLive answers.
unfoldable pub move_off_assigned : (applied : Bool) → ℕ → IpClaim → ℕ × Option Key → Holder → Holder
move_off_assigned applied now best (salt, none) h =
    note_unresolved now best false (record h { hop_salt = salt })
move_off_assigned applied now best (salt, some ip) h =
    if not applied
    then note_unresolved now best false (record h { hop_salt = salt; last_hop = now })
    else record h {
      my_ip = ip;
      auto_derived = true;
      hop_salt = salt;
      last_hop = now;
      conflict = some (conflict_with now h best ip true false);
    }

-- The end of the resolver: the address hops, and the record says so.
unfoldable pub hop : (applied : Bool) → ℕ → IpClaim → ℕ × Option Key → Holder → Holder
hop applied now best (salt, none) h = note_unresolved now best false (record h { hop_salt = salt })
hop applied now best (salt, some ip) h = record h {
  my_ip = if applied then ip else h.my_ip;
  hop_salt = salt;
  last_hop = now;
  conflict = some (conflict_with now h best ip true false);
}

-- What follows the rate limit.
unfoldable pub give_up :
    Keys → ℕ → Known → (ℕ → Option Key) → (applied : Bool) → IpClaim → Holder → Holder
give_up t now m derive applied best h =
    let found = next_free_derived_address t now m derive h in
    if best.provisioned
    then move_off_assigned applied now best found h
    else if not best.live
    then note_unresolved now best true h
    else if not h.auto_derived
    then note_unresolved now best false h
    else hop applied now best found h

abbrev pub checked_lately : ℕ → Option ℕ → Bool
checked_lately now none = false
checked_lately now (some at) = ltb now (at + 15 * second)

unfoldable pub judge :
    Keys → ℕ → Known → (ℕ → Option Key) → (applied : Bool) → IpClaim → Holder → Holder
judge t now m derive applied best h =
    if not (yields_to t m h.my_ip best)
    then h
    else if checked_lately now h.last_check
    then h
    else give_up t now m derive applied best (record h { last_check = some now })

abbrev pub judge_claims :
    Keys → ℕ → Known → (ℕ → Option Key) → (applied : Bool) → List IpClaim → Holder → Holder
judge_claims t now m derive applied [] h = clear_settled h
judge_claims t now m derive applied (c ∷ l) h = judge t now m derive applied (best_claim c l) h

-- `resolveOverlayIPCollision`
unfoldable pub resolve_collision :
    Keys → ℕ → Known → (ℕ → Option Key) → (applied : Bool) → Holder → Holder
resolve_collision t now m derive applied h =
    if (h.my_ip == 0) || (m.gate.self == 0)
    then h
    else if not (have_established_session m)
    then h
    else judge_claims t now m derive applied (overlay_ip_claims t now m h.my_ip) h
