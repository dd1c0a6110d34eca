-- ===== src/Gossip.antt =====
-- The stores of admin-signed records that nodes flood to each other (revocations, approvals,
-- policies, network shares) keep one record for each key and take a record only if it supersedes
-- the one held. This file has what those stores share; their own rules are in its clients.
pub mod Converge
pub mod Flood
pub mod Pairs
use apgo.Prelude.{Bool, true, false, Option, none, some, List, [], ◌∷◌, if◌then◌else◌, ◌≡◌, ◌⊎◌}
use apgo.Prelude.Maps.{Key, Assoc, lookup, insert}

-- When a record replaces another one, with the laws of a strict order on versions.
pub record Versioned {ℓ} (R : Type ℓ) : Type ℓ where
  -- `supersedes new cur`
  pub supersedes : R → R → Bool
  pub irrefl : (a : R) → supersedes a a ≡ false
  pub trans : (a b c : R) → supersedes a b ≡ true → supersedes b c ≡ true → supersedes a c ≡ true
  pub trans_not :
      (a b c : R) → supersedes a b ≡ false → supersedes b c ≡ false → supersedes a c ≡ false

module _ {ℓ} {R : Type ℓ} ⦃v : Versioned R⦄ where
  -- Whether a store takes a record.
  abbrev pub takes : R → Option R → Bool
  takes r none = true
  takes r (some cur) = v.supersedes r cur

  unfoldable pub put : Key → R → Assoc R → Assoc R
  put k r m = if takes r (lookup k m) then insert k r m else m

  -- The records in the order in which a node receives them.
  unfoldable pub receive_all : List (Key × R) → Assoc R → Assoc R
  receive_all [] m = m
  receive_all ((k, r) ∷ ds) m = receive_all ds (put k r m)
