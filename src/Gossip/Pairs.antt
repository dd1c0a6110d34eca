-- ===== src/Gossip/Pairs.antt =====
-- Membership in lists of one and two records.
use apgo.Prelude.{[], ◌∷◌, ◌≡◌, ◌⊎◌, ◌↔◌, inl, inr}
use apgo.Gossip.Converge.{In, here, there}

module _ {ℓ} {A : Type ℓ} where
  pub In-pair : (x a b : A) → In x (a ∷ b ∷ []) → (x ≡ a) ⊎ (x ≡ b)
  In-pair x a b (here e) = inl e
  In-pair x a b (there (here e)) = inr e
  In-pair x a b (there (there i)) = elim i [ ]

  -- The other order, with the first one repeated.
  pub In-swapped : (x a b : A) → In x (a ∷ b ∷ []) ↔ In x (b ∷ a ∷ a ∷ [])
  In-swapped x a b = (to, from)
    where
      to : In x (a ∷ b ∷ []) → In x (b ∷ a ∷ a ∷ [])
      to (here e) = there (here e)
      to (there (here e)) = here e
      to (there (there i)) = elim i [ ]

      from : In x (b ∷ a ∷ a ∷ []) → In x (a ∷ b ∷ [])
      from (here e) = there (here e)
      from (there (here e)) = here e
      from (there (there (here e))) = here e
      from (there (there (there i))) = elim i [ ]
