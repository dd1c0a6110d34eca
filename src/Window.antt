-- ===== src/Window.antt =====
-- What a replay window promises, whatever its representation: the bitmaps of client/sessions.go and
-- client/e2erelay.go are implementations, and their clients use these laws only.
use apgo.Prelude.{
  ℕ, ◌+◌, Bool, true, false, not, ◌&&◌, List, [], ◌∷◌, ltb, ◌==◌, ==_refl, if◌then◌else◌,
  Bool-cases, ◌≡◌, refl, ap, inl, inr, arith,
}

pub record ReplayWindow (W : Type 0) : Type 1 where
  -- How far behind the newest accepted nonce a nonce may lie.
  pub size : ℕ
  pub fresh : W
  pub check : W → ℕ → Bool
  pub mark : W → ℕ → W
  pub IsWell : W → Type 0
  pub fresh_well : IsWell fresh
  pub mark_well : (w : W) (n : ℕ) → IsWell w → IsWell (mark w n)
  pub check_fresh : (n : ℕ) → check fresh n ≡ true
  pub check_mark :
      (w : W) (n m : ℕ)
      → IsWell w
      → check (mark w n) m ≡ (not (m == n) && (ltb n (m + size) && check w m))

-- The abstract window of the given size: `n` was not accepted before, and no accepted nonce is that
-- far ahead of it.
unfoldable pub allowed : ℕ → List ℕ → ℕ → Bool
allowed size [] n = true
allowed size (a ∷ accepted) n = not (n == a) && (ltb a (n + size) && allowed size accepted n)

unfoldable pub promised : ℕ → List ℕ → List ℕ → List Bool
promised size accepted [] = []
promised size accepted (n ∷ ns) =
    allowed size accepted n
    ∷ promised size (if allowed size accepted n then n ∷ accepted else accepted) ns

module _ {W : Type 0} (w : ReplayWindow W) where
  -- A packet that authenticates: checked, then marked.
  unfoldable pub receive : W → ℕ → W × Bool
  receive s n = if w.check s n then (w.mark s n, true) else (s, false)

  unfoldable pub verdicts : W → List ℕ → List Bool
  verdicts s [] = []
  verdicts s (n ∷ ns) = (receive s n).1 ∷ verdicts (receive s n).0 ns

  -- The bitmap stands for these accepted nonces.
  abbrev Agrees : W → List ℕ → Type 0
  Agrees s accepted = (m : ℕ) → w.check s m ≡ allowed w.size accepted m

  mark-Agrees :
      (s : W) (accepted : List ℕ) (n : ℕ)
      → w.IsWell s
      → Agrees s accepted
      → Agrees (w.mark s n) (n ∷ accepted)
  unfolding allowed
  mark-Agrees s accepted n v h m = rw (w.check_mark s n m v, h m)

  verdicts-promised_from :
      (ns : List ℕ) (s : W) (accepted : List ℕ)
      → w.IsWell s
      → Agrees s accepted
      → verdicts s ns ≡ promised w.size accepted ns
  unfolding verdicts promised receive
  verdicts-promised_from [] s accepted v h = refl
  verdicts-promised_from (n ∷ ns) s accepted v h = elim (Bool-cases (allowed w.size accepted n)) [
    | inl take_it ↦
        rw (h n, take_it)
          (ap (◌∷◌ true) (
            verdicts-promised_from ns (w.mark s n) (n ∷ accepted) (w.mark_well s n v)
              (mark-Agrees s accepted n v h)))
    | inr drop_it ↦ rw (h n, drop_it) (ap (◌∷◌ false) (verdicts-promised_from ns s accepted v h))
  ]

  -- A window gives every sequence of nonces the verdicts of the full history.
  pub window-promised : (ns : List ℕ) → verdicts w.fresh ns ≡ promised w.size [] ns
  window-promised ns = verdicts-promised_from ns w.fresh [] w.fresh_well (λ m. nothing_accepted m)
    where
      nothing_accepted : (m : ℕ) → w.check w.fresh m ≡ allowed w.size [] m
      nothing_accepted m = unfold allowed in w.check_fresh m

  pub mark_refuses : (s : W) (n : ℕ) → w.IsWell s → w.check (w.mark s n) n ≡ false
  mark_refuses s n v = rw (w.check_mark s n n v, ==_refl n) refl

  pub mark_keeps_refusal :
      (s : W) (n m : ℕ) → w.IsWell s → w.check s m ≡ false → w.check (w.mark s n) m ≡ false
  mark_keeps_refusal s n m v h = rw (w.check_mark s n m v, h) (ground arith)
