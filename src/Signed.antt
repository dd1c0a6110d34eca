-- ===== src/Signed.antt =====
-- The admin-signed records of client/revocation.go, client/approvals.go, client/policy.go,
-- client/provision.go and client/netconfig.go: the exact bytes under the signature (canonical…)
-- and the checks before a record is used (verify…).
-- base64 and the signature scheme (ML-DSA behind adminVerify) are parameters.
pub mod Binding
mod Tests
use apgo.Prelude.{
  ℕ, Bool, true, false, not, ◌&&◌, ◌||◌, List, [], ◌∷◌, ◌++◌, Option, none, some, ◌==◌,
  if◌then◌else◌, length,
}
use apgo.Prelude.Maps.{Key, is_some}
use apgo.Prelude.Text.{Text, codes, text_eq, ℤ, print_int, be_value}

pub record SignedRevocation : Type 0 where
  pub action : Text
  pub pub_key : Text
  pub seq : ℤ
  pub ts : ℤ
  pub sig : Text

pub record SignedApproval : Type 0 where
  pub action : Text
  pub pub_key : Text
  pub seq : ℤ
  pub ts : ℤ
  pub sig : Text

pub record SignedPolicy : Type 0 where
  pub pub_key : Text
  pub post_quantum : Bool
  pub epoch : ℤ
  pub ts : ℤ
  pub sig : Text

pub record SignedProvision : Type 0 where
  pub pub_key : Text
  pub address : Text
  pub name : Text
  pub seq : ℤ
  pub ts : ℤ
  pub sig : Text

-- The fields of a `%s|%s|%d` format, with a bar between them.
unfoldable pub join_bar : Text → List Text → Text
join_bar x [] = x
join_bar x (y ∷ ys) = x ++ (b'|' ∷ join_bar y ys)

-- `%t`
abbrev pub print_bool : Bool → Text
print_bool b = if b then codes "true" else codes "false"

unfoldable pub canonical_revocation : Text → Text → ℤ → ℤ → Text
canonical_revocation action pub_b64 seq ts =
    join_bar (codes "OVLYREVOKE1") (action ∷ pub_b64 ∷ print_int seq ∷ print_int ts ∷ [])

unfoldable pub canonical_approval : Text → Text → ℤ → ℤ → Text
canonical_approval action pub_b64 seq ts =
    join_bar (codes "OVLYAPPROVE1") (action ∷ pub_b64 ∷ print_int seq ∷ print_int ts ∷ [])

unfoldable pub canonical_policy : Text → Bool → ℤ → ℤ → Text
canonical_policy pub_b64 pq epoch ts =
    join_bar (codes "OVLYPOLICY1") (pub_b64 ∷ print_bool pq ∷ print_int epoch ∷ print_int ts ∷ [])

unfoldable pub canonical_provision : Text → Text → Text → ℤ → ℤ → Text
canonical_provision pub_b64 address name seq ts =
    join_bar (codes "OVLYPROV1") (pub_b64 ∷ address ∷ name ∷ print_int seq ∷ print_int ts ∷ [])

unfoldable pub canonical_net_config : Text → Text → ℤ → ℤ → Text
canonical_net_config name psk epoch ts =
    join_bar (codes "OVLYNETCFG1") (name ∷ psk ∷ print_int epoch ∷ print_int ts ∷ [])

-- adminKeySet, base64 decoding and adminVerify (message, signature) of the key in force.
pub record Admin : Type 0 where
  pub key_set : Bool
  pub decode_base64 : Text → Option Text
  pub verify : Text → Text → Bool

-- `len(raw) != 32`, then `copy(pub[:], raw)`.
abbrev pub key_of : Option Text → Option Key
key_of none = none
key_of (some raw) = if length raw == 32 then some (be_value raw 0) else none

-- The signature decodes and verifies for this message.
abbrev pub signed : Admin → Text → Text → Bool
signed a message sig = elim (a.decode_base64 sig) [ none ↦ false | some raw ↦ a.verify message raw ]

abbrev pub only_if : Bool → Option Key → Option Key
only_if b o = if b then o else none

unfoldable pub verify_revocation : Admin → SignedRevocation → Option Key
verify_revocation a rec =
    if not a.key_set
    then none
    else if not (text_eq rec.action (codes "revoke")) && not (text_eq rec.action (codes "restore"))
    then none
    else (elim (key_of (a.decode_base64 rec.pub_key)) [
      | none ↦ none
      | some k ↦
          only_if (signed a (canonical_revocation rec.action rec.pub_key rec.seq rec.ts) rec.sig)
            (some k)
    ])

unfoldable pub verify_approval : Admin → SignedApproval → Option Key
verify_approval a rec =
    if not a.key_set
    then none
    else if not (text_eq rec.action (codes "approve")) && not (text_eq rec.action (codes "deny"))
    then none
    else (elim (key_of (a.decode_base64 rec.pub_key)) [
      | none ↦ none
      | some k ↦
          only_if (signed a (canonical_approval rec.action rec.pub_key rec.seq rec.ts) rec.sig)
            (some k)
    ])

unfoldable pub verify_policy : Admin → SignedPolicy → Bool
verify_policy a p =
    a.key_set && signed a (canonical_policy p.pub_key p.post_quantum p.epoch p.ts) p.sig

unfoldable pub verify_provision : Admin → SignedProvision → Option Key
verify_provision a rec =
    if not a.key_set then none else (elim (key_of (a.decode_base64 rec.pub_key)) [
      | none ↦ none
      | some k ↦
          only_if
            (signed a (canonical_provision rec.pub_key rec.address rec.name rec.seq rec.ts) rec.sig)
            (some k)
    ])
