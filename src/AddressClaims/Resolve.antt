-- ===== src/AddressClaims/Resolve.antt =====
-- client/ipclaim.go: when the resolver moves this node to another address
-- (resolveOverlayIPCollision).
use apgo.Prelude.{
  ℕ, ◌+◌, Bool, true, false, not, ◌||◌, ◌&&◌, All, ◌≤◌, ◌<◌, List, [], ◌∷◌, Option, none, some, ◌≡◌,
  ◌≢◌, ◌⊎◌,
}
use apgo.Prelude.Maps.{Key}
use apgo.IpLearning.{lookup_route}
use apgo.AddressClaims.{IpClaim, Keys, Known, Holder, overlay_ip_claims, yields_to, checked_lately}

-- One of the claims.
abbrev pub IsOneOf : IpClaim → List IpClaim → Type 0
IsOneOf c [] = ⊥
IsOneOf c (d ∷ l) = (c ≡ d) ⊎ IsOneOf c l

-- A claim that no other is stronger than: an assigned one where there is one, and else an approved
-- one where there is one.
abbrev pub IsStrongest : IpClaim → List IpClaim → Type 0
IsStrongest c l =
    (c.provisioned ≡ true)
    ⊎ (All (λ d. d.provisioned ≡ false) l × ((c.approved ≡ true) ⊎ All (λ d. d.approved ≡ false) l))

-- The test of the loop over the claims.
is_better : (best c : IpClaim) → Bool
is_better best c =
    (c.provisioned && not best.provisioned)
    || (c.approved && not best.approved && not best.provisioned)

-- An address with a later salt that nobody is known to hold.
pub record IsFresh (t : Keys) (now : ℕ) (m : Known) (derive : ℕ → Option Key) (my_ip : Key)
    (from : ℕ) (new : Key) : Type 0 where
  pub salt : ℕ
  pub later : (from < salt) × (salt ≤ from + 16)
  pub derived : derive salt ≡ some new
  pub other : new ≢ my_ip
  pub unclaimed : overlay_ip_claims t now m new ≡ []
  pub unrouted : lookup_route new m.node.learned ≡ none

module _ (t : Keys) (now : ℕ) (m : Known) (derive : ℕ → Option Key) (applied : Bool) where
  -- Why a node may leave its address: the claim wins it, and either an admin assigned the address
  -- to the other key, or the other node is live and this node's address was derived.
  pub record Leaves (h : Holder) (new : Key) (best : IpClaim) : Type 0 where
    pub yields : yields_to t m h.my_ip best ≡ true
    pub due : checked_lately now h.last_check ≡ false
    pub standing : (best.provisioned ≡ true) ⊎ ((best.live ≡ true) × (h.auto_derived ≡ true))
    pub fresh : IsFresh t now m derive h.my_ip h.hop_salt new
    pub done : applied ≡ true

  -- An address that was found, and put in force.
  abbrev Found : Holder → Holder → ℕ × Option Key → Type 0
  Found h r found = r.my_ip ≢ h.my_ip → (found.1 ≡ some r.my_ip) × (applied ≡ true)
