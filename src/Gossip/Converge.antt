-- ===== src/Gossip/Converge.antt =====
-- The lemmas on stores of versioned records that different nodes filled in different orders.
use apgo.Prelude.{
  true, false, Option, none, some, List, [], ◌∷◌, if◌then◌else◌, ◌==◌, ==_iff, ==_refl, ==_ne,
  Bool-cases, ◌≡◌, ◌⊎◌, ◌↔◌, inl, inr, refl, sym, ap, arith, subst,
}
use apgo.Prelude.Maps.{Key, Assoc, lookup, lookup-insert}
use apgo.Gossip.{Versioned, takes, put, receive_all}

-- `x` stands in the list.
pub data In {ℓ} {A : Type ℓ} (x : A) : List A → Type ℓ where
  here : {y : A} {ys : List A} → x ≡ y → In x (y ∷ ys)
  there : {y : A} {ys : List A} → In x ys → In x (y ∷ ys)

module _ {ℓ} {R : Type ℓ} ⦃v : Versioned R⦄ where
  -- `o` is what a store may hold for `k` when the records of `P` have reached it.
  abbrev pub Newest {κ} : (Key → R → Type κ) → Key → Option R → Type (ℓ ⊔ κ)
  Newest P k none = (r : R) → P k r → ⊥
  Newest P k (some w) = P k w × ((r : R) → P k r → v.supersedes r w ≡ false)

  -- The records that have come once `d` comes after those of `P`.
  abbrev pub Then {κ} : (Key → R → Type κ) → Key → R → Key → R → Type (ℓ ⊔ κ)
  Then P j d k r = P k r ⊎ ((k ≡ j) × (r ≡ d))

  put-Newest_here {κ} :
      (P : Key → R → Type κ) (k : Key) (r : R) (o : Option R)
      → Newest P k o
      → Newest (Then P k r) k (if takes r o then some r else o)
  put-Newest_here P k r none h = (inr (refl, refl), λ q w. latest q w)
    where
      latest : (q : R) → Then P k r k q → v.supersedes q r ≡ false
      latest q (inl old) = absurd (h q old)
      latest q (inr (_, e)) = rw e (v.irrefl r)
  put-Newest_here P k r (some c) h = elim (Bool-cases (v.supersedes r c)) [
    | inl newer ↦ rw newer (inr (refl, refl), above newer)
    | inr NotNewer ↦ rw NotNewer (inl h.0, below NotNewer)
  ]
    where
      above : v.supersedes r c ≡ true → (q : R) → Then P k r k q → v.supersedes q r ≡ false
      above newer q (inl old) = ground (arith, h.1 q old, v.trans q r c)
      above newer q (inr (_, e)) = rw e (v.irrefl r)

      below : v.supersedes r c ≡ false → (q : R) → Then P k r k q → v.supersedes q c ≡ false
      below NotNewer q (inl old) = h.1 q old
      below NotNewer q (inr (_, e)) = rw e NotNewer

  put-Newest_other {κ} :
      (P : Key → R → Type κ) (j k : Key) (r : R) (o : Option R)
      → (k ≡ j → ⊥)
      → Newest P k o
      → Newest (Then P j r) k o
  put-Newest_other P j k r none ne h = λ q w. none_of q w
    where
      none_of : (q : R) → Then P j r k q → ⊥
      none_of q (inl old) = h q old
      none_of q (inr (e, _)) = ne e
  put-Newest_other P j k r (some c) ne h = (inl h.0, λ q w. below q w)
    where
      below : (q : R) → Then P j r k q → v.supersedes q c ≡ false
      below q (inl old) = h.1 q old
      below q (inr (e, _)) = absurd (ne e)

  lookup-put :
      (j k : Key) (r : R) (m : Assoc R)
      → lookup k (put j r m)
        ≡ (if j == k then if takes r (lookup k m) then some r else lookup k m else lookup k m)
  unfolding put
  lookup-put j k r m = elim (Bool-cases (j == k)) [
    | inl same ↦
        let e : j ≡ k = (==_iff j k).0 same in
        rw (e, ==_refl k)
          (elim (Bool-cases (takes r (lookup k m))) [
            | inl newer ↦ rw newer (rw (lookup-insert k k r m, ==_refl k))
            | inr older ↦ rw older
          ])
    | inr other ↦ rw other (elim (Bool-cases (takes r (lookup j m))) [
      | inl newer ↦ rw newer (rw (lookup-insert j k r m, other))
      | inr older ↦ rw older
    ])
  ]

  put-Newest {κ} :
      (P : Key → R → Type κ) (j k : Key) (r : R) (m : Assoc R)
      → Newest P k (lookup k m)
      → Newest (Then P j r) k (lookup k (put j r m))
  put-Newest P j k r m h = elim (Bool-cases (j == k)) [
    | inl same ↦
        let e : j ≡ k = (==_iff j k).0 same in
        rw (lookup-put j k r m, same)
          (subst (λ i. Newest (Then P i r) k (if takes r (lookup k m) then some r else lookup k m))
            (sym e) (put-Newest_here P k r (lookup k m) h))
    | inr other ↦
        rw (lookup-put j k r m, other)
          (put-Newest_other P j k r (lookup k m) (λ e. ==_ne j k other (sym e)) h)
  ]

  Newest-iff :
      (P Q : Key → R → Type ℓ) (k : Key) (o : Option R)
      → ((r : R) → P k r ↔ Q k r)
      → Newest P k o
      → Newest Q k o
  Newest-iff P Q k none e h = λ r q. h r ((e r).1 q)
  Newest-iff P Q k (some w) e h = ((e w).0 h.0, λ r q. h.1 r ((e r).1 q))

  abbrev OrIn : (Key → R → Type ℓ) → List (Key × R) → Key → R → Type ℓ
  OrIn P ds k r = P k r ⊎ In (k, r) ds

  OrIn-nil : (P : Key → R → Type ℓ) (k : Key) (r : R) → P k r ↔ OrIn P [] k r
  OrIn-nil P k r = (inl, from)
    where
      from : OrIn P [] k r → P k r
      from (inl p) = p
      from (inr i) = absurd (none_in i)
        where
          none_in : {x : Key × R} → In x [] → ⊥
          none_in i = elim i [ ]

  OrIn-cons :
      (P : Key → R → Type ℓ) (j : Key) (d : R) (ds : List (Key × R)) (k : Key) (r : R)
      → OrIn (Then P j d) ds k r ↔ OrIn P ((j, d) ∷ ds) k r
  OrIn-cons P j d ds k r = (to, from)
    where
      to : OrIn (Then P j d) ds k r → OrIn P ((j, d) ∷ ds) k r
      to (inl (inl p)) = inl p
      to (inl (inr (e, f))) = inr (here (λ i. (e i, f i)))
      to (inr i) = inr (there i)

      from : OrIn P ((j, d) ∷ ds) k r → OrIn (Then P j d) ds k r
      from (inl p) = inl (inl p)
      from (inr (here e)) = inl (inr (ap (λ (x : Key × R). x.0) e, ap (λ (x : Key × R). x.1) e))
      from (inr (there i)) = inr i

  receive_all-Newest_from :
      (ds : List (Key × R)) (P : Key → R → Type ℓ) (k : Key) (m : Assoc R)
      → Newest P k (lookup k m)
      → Newest (OrIn P ds) k (lookup k (receive_all ds m))
  unfolding receive_all
  receive_all-Newest_from [] P k m h = Newest-iff P (OrIn P []) k (lookup k m) (OrIn-nil P k) h
  receive_all-Newest_from ((j, d) ∷ ds) P k m h =
      Newest-iff (OrIn (Then P j d) ds) (OrIn P ((j, d) ∷ ds)) k
        (lookup k (receive_all ds (put j d m))) (OrIn-cons P j d ds k)
        (receive_all-Newest_from ds (Then P j d) k (put j d m) (put-Newest P j k d m h))

  abbrev pub Received : List (Key × R) → Key → R → Type ℓ
  Received ds k r = In (k, r) ds

  -- An empty store ends up with a received record that no received record supersedes, or with
  -- none when none was received for the key.
  pub receive_all-Newest :
      (ds : List (Key × R)) (k : Key) → Newest (Received ds) k (lookup k (receive_all ds []))
  unfolding lookup
  receive_all-Newest ds k =
      Newest-iff (OrIn Nothing ds) (Received ds) k (lookup k (receive_all ds []))
        (λ r. (λ w. only r w, inr)) (receive_all-Newest_from ds Nothing k [] (λ r p. p.0))
    where
      Nothing : Key → R → Type ℓ
      Nothing k r = ⊥ × (r ≡ r)

      only : (r : R) → OrIn Nothing ds k r → In (k, r) ds
      only r (inl p) = absurd p.0
      only r (inr i) = i

  Newest-agree :
      (P Q : Key → R → Type ℓ) (k : Key) (o p : Option R)
      → ((r s : R) → P k r → P k s → v.supersedes r s ≡ false → v.supersedes s r ≡ false → r ≡ s)
      → ((r : R) → P k r ↔ Q k r)
      → Newest P k o
      → Newest Q k p
      → o ≡ p
  Newest-agree P Q k none none d e h g = refl
  Newest-agree P Q k none (some w) d e h g = absurd (h w ((e w).1 g.0))
  Newest-agree P Q k (some w) none d e h g = absurd (g w ((e w).0 h.0))
  Newest-agree P Q k (some w) (some x) d e h g =
      ap some (d w x h.0 ((e x).1 g.0) (g.1 w ((e w).0 h.0)) (h.1 x ((e x).1 g.0)))

  -- Two nodes that received the same records hold the same record, whatever order they came in
  -- and however often, when no two different records for the key have the same version.
  pub receive_all_converge :
      (ds es : List (Key × R)) (k : Key)
      → ((r s : R)
          → In (k, r) ds
          → In (k, s) ds
          → v.supersedes r s ≡ false
          → v.supersedes s r ≡ false
          → r ≡ s)
      → ((r : R) → In (k, r) ds ↔ In (k, r) es)
      → lookup k (receive_all ds []) ≡ lookup k (receive_all es [])
  receive_all_converge ds es k d e =
      Newest-agree (Received ds) (Received es) k _ _ d e (receive_all-Newest ds k)
        (receive_all-Newest es k)
