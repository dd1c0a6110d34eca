-- ===== src/Prelude/Maps.antt =====
-- A Go map as an association list. Its order stands for the order in which one run of `range`
-- visits the keys, so a theorem about every list is a theorem about every such order.
-- A key that the program only compares (an endpoint, an overlay address, a node key) is a number:
-- its bytes read in bijective base 256, so that the empty text is 0.
use Prim.Native.Nat.{ℕ, suc, ◌≤◌, ◌<◌}
use mathlib.Core.Bool.{Bool, true, false}
use mathlib.Core.List.{List, [], ◌∷◌}
use mathlib.Core.Option.{Option, none, some, none-ne-some, some-injective}
use mathlib.Core.Logic.{inl, inr}
use mathlib.Core.Path.{◌≡◌, refl, subst}
use native.Mathlib.Omega.{arith}
use apgo.Prelude.Lists.{length, All}
use apgo.Prelude.Tests.{◌==◌, if◌then◌else◌, Bool-cases}

abbrev pub Key : Type 0
Key = ℕ

abbrev pub Assoc {ℓ} : Type ℓ → Type ℓ
Assoc V = List (Key × V)

abbrev pub is_some {ℓ} : {A : Type ℓ} → Option A → Bool
is_some none = false
is_some (some a) = true

module _ {ℓ} {V : Type ℓ} where
  -- m[k], with `none` for a missing key.
  unfoldable pub lookup : Key → Assoc V → Option V
  lookup k [] = none
  lookup k ((j, v) ∷ m) = if j == k then some v else lookup k m

  -- m[k] = v
  unfoldable pub insert : Key → V → Assoc V → Assoc V
  insert k v [] = (k, v) ∷ []
  insert k v ((j, w) ∷ m) = if j == k then (j, v) ∷ m else (j, w) ∷ insert k v m

  -- delete(m, k)
  unfoldable pub without : Key → Assoc V → Assoc V
  without k [] = []
  without k ((j, v) ∷ m) = let rest = without k m in if j == k then rest else (j, v) ∷ rest

  -- The loop that deletes every entry failing a test.
  unfoldable pub retain : (Key → V → Bool) → Assoc V → Assoc V
  retain keep [] = []
  retain keep ((j, v) ∷ m) = let rest = retain keep m in if keep j v then (j, v) ∷ rest else rest

  -- The loop that writes every entry in place.
  unfoldable pub update_all : (Key → V → V) → Assoc V → Assoc V
  update_all f [] = []
  update_all f ((j, v) ∷ m) = (j, f j v) ∷ update_all f m

  -- No key twice.
  abbrev pub Unique : Assoc V → Type ℓ
  Unique [] = Unit
  Unique ((j, v) ∷ m) = (lookup j m ≡ none) × Unique m

  pub lookup-insert :
      (at q : Key) (new : V) (m : Assoc V)
      → lookup q (insert at new m) ≡ (if at == q then some new else lookup q m)
  unfolding insert lookup
  lookup-insert at q new [] = refl
  lookup-insert at q new ((first, old) ∷ m) = ground (arith, lookup-insert at q new m)

  pub lookup-without :
      (k j : Key) (m : Assoc V) → lookup j (without k m) ≡ (if k == j then none else lookup j m)
  unfolding lookup without
  lookup-without k j [] = ground arith
  lookup-without k j ((i, v) ∷ m) = ground (arith, lookup-without k j m)

  pub lookup-update_all :
      (f : Key → V → V) (j : Key) (m : Assoc V)
      → lookup j (update_all f m) ≡ elim (lookup j m) [ none ↦ none | some v ↦ some (f j v) ]
  unfolding lookup update_all
  lookup-update_all f j [] = refl
  lookup-update_all f j ((i, v) ∷ m) = elim (Bool-cases (i == j)) [
    | inl same ↦ ground (arith, lookup-update_all f j m)
    | inr other ↦ ground (arith, lookup-update_all f j m)
  ]

  pub lookup-retain_missing :
      (keep : Key → V → Bool) (j : Key) (m : Assoc V)
      → lookup j m ≡ none
      → lookup j (retain keep m) ≡ none
  unfolding lookup retain
  lookup-retain_missing keep j [] h = refl
  lookup-retain_missing keep j ((i, v) ∷ m) h = ground (arith, lookup-retain_missing keep j m)

  pub lookup-retain :
      (keep : Key → V → Bool) (j : Key) (m : Assoc V)
      → Unique m
      → lookup j (retain keep m)
        ≡ elim (lookup j m) [ none ↦ none | some v ↦ if keep j v then some v else none ]
  unfolding lookup retain
  lookup-retain keep j [] u = refl
  lookup-retain keep j ((i, v) ∷ m) u =
      ground (arith, lookup-retain keep j m u.1, lookup-retain_missing keep i m u.0)

  pub insert-Unique : (k : Key) (v : V) (m : Assoc V) → Unique m → Unique (insert k v m)
  unfolding insert lookup
  insert-Unique k v [] u = (refl, u)
  insert-Unique k v ((j, w) ∷ m) u = ground (arith, insert-Unique k v m u.1, lookup-insert k j v m)

  pub without-Unique : (k : Key) (m : Assoc V) → Unique m → Unique (without k m)
  unfolding without
  without-Unique k [] u = u
  without-Unique k ((j, w) ∷ m) u = ground (arith, without-Unique k m u.1, lookup-without k j m)

  pub retain-Unique : (keep : Key → V → Bool) (m : Assoc V) → Unique m → Unique (retain keep m)
  unfolding retain
  retain-Unique keep [] u = u
  retain-Unique keep ((j, w) ∷ m) u =
      ground (arith, retain-Unique keep m u.1, lookup-retain_missing keep j m u.0)

  pub update_all-Unique : (f : Key → V → V) (m : Assoc V) → Unique m → Unique (update_all f m)
  unfolding update_all
  update_all-Unique f [] u = u
  update_all-Unique f ((j, w) ∷ m) u =
      ground (arith, update_all-Unique f m u.1, lookup-update_all f j m)

  pub length-insert :
      (k : Key) (v : V) (m : Assoc V)
      → length (insert k v m) ≡ (if is_some (lookup k m) then length m else suc (length m))
  unfolding lookup insert
  length-insert k v [] = refl
  length-insert k v ((j, w) ∷ m) = ground (arith, length-insert k v m)

  pub length-retain-le : (keep : Key → V → Bool) (m : Assoc V) → length (retain keep m) ≤ length m
  unfolding retain
  length-retain-le keep [] = omega arith
  length-retain-le keep ((j, v) ∷ m) = ground (arith, length-retain-le keep m)

  pub length-without-le : (k : Key) (m : Assoc V) → length (without k m) ≤ length m
  unfolding without
  length-without-le k [] = omega arith
  length-without-le k ((j, v) ∷ m) = ground (arith, length-without-le k m)

  -- Deleting a key that is there makes room.
  pub length-without-lt :
      (k : Key) (v : V) (m : Assoc V) → lookup k m ≡ some v → length (without k m) < length m
  unfolding lookup without
  length-without-lt k v [] h = absurd (ground arith)
  length-without-lt k v ((j, w) ∷ m) h =
      ground (arith, length-without-lt k v m, length-without-le k m)

  -- Every value satisfies a predicate.
  abbrev pub Values {κ} : (V → Type κ) → Assoc V → Type κ
  Values P = All (λ e. P e.1)

  pub Values-lookup {κ} :
      (P : V → Type κ) (k : Key) (v : V) (m : Assoc V) → Values P m → lookup k m ≡ some v → P v
  unfolding lookup
  Values-lookup P k v [] a h = absurd (none-ne-some _ h)
  Values-lookup P k v ((j, w) ∷ m) a h = elim (Bool-cases (j == k)) [
    | inl same ↦ subst P (some-injective _ _ (ground (arith, h, same))) a.0
    | inr far ↦ Values-lookup P k v m a.1 (ground (arith, h, far))
  ]

  pub insert-Values {κ} :
      (P : V → Type κ) (k : Key) (v : V) (m : Assoc V) → Values P m → P v → Values P (insert k v m)
  unfolding insert
  insert-Values P k v [] a p = (p, tt)
  insert-Values P k v ((j, w) ∷ m) a p = elim (Bool-cases (j == k)) [
    | inl same ↦ rw same (p, a.1)
    | inr far ↦ rw far (a.0, insert-Values P k v m a.1 p)
  ]

  pub without-Values {κ} :
      (P : V → Type κ) (k : Key) (m : Assoc V) → Values P m → Values P (without k m)
  unfolding without
  without-Values P k [] a = a
  without-Values P k ((j, w) ∷ m) a = elim (Bool-cases (j == k)) [
    | inl same ↦ rw same (without-Values P k m a.1)
    | inr far ↦ rw far (a.0, without-Values P k m a.1)
  ]
