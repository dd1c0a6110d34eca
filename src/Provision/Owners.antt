-- ===== src/Provision/Owners.antt =====
-- client/provstore.go: the lemmas on the owners of an address.
use mathlib.Core.Option.{some-injective}
use apgo.Prelude.{
  Bool, true, false, List, [], ◌∷◌, Option, none, some, ◌==◌, ==_iff, ==_refl, if◌then◌else◌,
  Bool-cases, ◌≡◌, ◌⊎◌, inl, inr, refl, sym, ap, arith, ◌∙◌, subst,
}
use apgo.Prelude.Maps.{
  Key, Assoc, lookup, insert, retain, Unique, lookup-insert, lookup-retain, insert-Unique,
  retain-Unique,
}
use apgo.Prelude.Text.{ℤ, int_lt, int_lt_connex}
use apgo.Signed.{SignedProvision, Admin}
use apgo.Provision.{
  Texts, prov_addr_ip, Store, reassigned, held_by_newer, superseded, put_locked, put_all, stays,
  sort_by_seq, prune_superseded, load_provisions, verified, merge_ledger,
}

lookup-found :
    (j k : Key) (o : SignedProvision) (m : Assoc SignedProvision)
    → (j == k) ≡ true
    → lookup k ((j, o) ∷ m) ≡ some o
unfolding lookup
lookup-found j k o m h = rw h refl

lookup-further :
    (j k : Key) (o : SignedProvision) (m : Assoc SignedProvision)
    → (j == k) ≡ false
    → lookup k ((j, o) ∷ m) ≡ lookup k m
unfolding lookup
lookup-further j k o m h = rw h refl

retained :
    (b : SignedProvision → Bool) (o : Option SignedProvision) (p : SignedProvision)
    → elim o [ none ↦ none | some v ↦ if b v then some v else none ] ≡ some p
    → (o ≡ some p) × (b p ≡ true)
retained b none p h = absurd (ground arith)
retained b (some v) p h = elim (Bool-cases (b v)) [
  | inl keep ↦
      let same : v ≡ p = some-injective _ _ (sym (rw keep refl) ∙ h) in
      (ap some same, subst (λ x. b x ≡ true) same keep)
  | inr drop ↦ absurd (ground (arith, h, drop))
]

module _ (e : Texts) where
  -- Two keys with records for one address have records of one sequence number.
  abbrev pub OneOwner : Assoc SignedProvision → Type 0
  OneOwner m =
      (j k : Key) (p q : SignedProvision)
      → lookup j m ≡ some p
      → lookup k m ≡ some q
      → (j == k) ≡ false
      → prov_addr_ip e p ≡ prov_addr_ip e q
      → (prov_addr_ip e p == 0) ≡ false
      → p.seq ≡ q.seq

  held_by_newer-lookup :
      (ip pub_key : Key) (seq : ℤ) (m : Assoc SignedProvision) (k : Key) (q : SignedProvision)
      → held_by_newer e ip pub_key seq m ≡ false
      → lookup k m ≡ some q
      → (k == pub_key) ≡ false
      → (prov_addr_ip e q == ip) ≡ true
      → int_lt seq q.seq ≡ false
  unfolding held_by_newer lookup
  held_by_newer-lookup ip pub_key seq [] k q h l ne same = absurd (ground arith)
  held_by_newer-lookup ip pub_key seq ((j, other) ∷ m) k q h l ne same =
      elim (Bool-cases (j == k)) [
        | inl found ↦
            let o : other ≡ q = some-injective _ _ (sym (lookup-found j k other m found) ∙ l) in
            ground (
              arith,
              h,
              ne,
              same,
              ap (λ (i : Key). i == pub_key) ((==_iff j k).0 found),
              ap (λ (x : SignedProvision). prov_addr_ip e x) o,
              ap (λ (x : SignedProvision). int_lt seq x.seq) o,
            )
        | inr further ↦
            held_by_newer-lookup ip pub_key seq m k q (ground (arith, h))
              (sym (lookup-further j k other m further) ∙ l) ne same
      ]

  -- The records after one of `k` was stored.
  abbrev kept : Key → SignedProvision → Assoc SignedProvision → Assoc SignedProvision
  kept k rec m = retain (stays e (prov_addr_ip e rec) k rec.seq) (insert k rec m)

  lookup-kept :
      (k j : Key) (rec p : SignedProvision) (m : Assoc SignedProvision)
      → Unique m
      → lookup j (kept k rec m) ≡ some p
      → ((j == k ≡ true) × (p ≡ rec))
        ⊎ ((j == k ≡ false)
            × (lookup j m ≡ some p)
            × (stays e (prov_addr_ip e rec) k rec.seq j p ≡ true))
  lookup-kept k j rec p m u h =
      let keep = stays e (prov_addr_ip e rec) k rec.seq in
      let there =
        retained (keep j) (lookup j (insert k rec m)) p
          (sym (lookup-retain keep j (insert k rec m) (insert-Unique k rec m u)) ∙ h) in
      elim (Bool-cases (k == j)) [
        | inl same ↦
            let new : some rec ≡ some p = sym (lookup-insert k j rec m ∙ rw same refl) ∙ there.0 in
            inl (ground (arith, same), sym (some-injective _ _ new))
        | inr other ↦ inr (
          ground (arith, other),
          sym (lookup-insert k j rec m ∙ rw other refl) ∙ there.0,
          there.1,
        )
      ]

  -- Against a record that survives, a record just stored is neither newer nor older.
  newcomer :
      (k j : Key) (rec q : SignedProvision) (m : Assoc SignedProvision)
      → held_by_newer e (prov_addr_ip e rec) k rec.seq m ≡ false
      → lookup j m ≡ some q
      → (j == k) ≡ false
      → stays e (prov_addr_ip e rec) k rec.seq j q ≡ true
      → prov_addr_ip e q ≡ prov_addr_ip e rec
      → rec.seq ≡ q.seq
  unfolding stays
  newcomer k j rec q m free l ne stay same =
      let here : (prov_addr_ip e q == prov_addr_ip e rec) ≡ true =
        rw same (==_refl (prov_addr_ip e rec)) in
      int_lt_connex rec.seq q.seq
        (held_by_newer-lookup (prov_addr_ip e rec) k rec.seq m j q free l ne here)
        (ground (arith, stay, ne, here))

  kept-OneOwner :
      (k : Key) (rec : SignedProvision) (m : Assoc SignedProvision)
      → Unique m
      → held_by_newer e (prov_addr_ip e rec) k rec.seq m ≡ false
      → OneOwner m
      → OneOwner (kept k rec m)
  kept-OneOwner k rec m u free one i j p q l r ne same ip =
      at (lookup-kept k i rec p m u l) (lookup-kept k j rec q m u r)
    where
      Came : Key → SignedProvision → Type 0
      Came x y =
          ((x == k ≡ true) × (y ≡ rec))
          ⊎ ((x == k ≡ false)
              × (lookup x m ≡ some y)
              × (stays e (prov_addr_ip e rec) k rec.seq x y ≡ true))

      at : Came i p → Came j q → p.seq ≡ q.seq
      at (inl a) (inl b) = absurd (ground (arith, ne, (==_iff i k).0 a.0, (==_iff j k).0 b.0))
      at (inl a) (inr b) =
          ap (λ (x : SignedProvision). x.seq) a.1
          ∙ newcomer k j rec q m free b.1 b.0 b.2
              (sym same ∙ ap (λ (x : SignedProvision). prov_addr_ip e x) a.1)
      at (inr a) (inl b) =
          sym (
            newcomer k i rec p m free a.1 a.0 a.2
              (same ∙ ap (λ (x : SignedProvision). prov_addr_ip e x) b.1))
          ∙ sym (ap (λ (x : SignedProvision). x.seq) b.1)
      at (inr a) (inr b) = one i j p q a.1 b.1 ne same ip

  -- A record without an address owns none.
  insert-OneOwner :
      (k : Key) (rec : SignedProvision) (m : Assoc SignedProvision)
      → (prov_addr_ip e rec == 0) ≡ true
      → OneOwner m
      → OneOwner (insert k rec m)
  insert-OneOwner k rec m bare one i j p q l r ne same ip =
      at (Bool-cases (k == i)) (Bool-cases (k == j))
    where
      bare_of : (x : SignedProvision) → rec ≡ x → (prov_addr_ip e x == 0) ≡ true
      bare_of x w = subst (λ y. (prov_addr_ip e y == 0) ≡ true) w bare

      new :
          (x : Key) (y : SignedProvision)
          → (k == x) ≡ true
          → lookup x (insert k rec m) ≡ some y
          → rec ≡ y
      new x y h w = some-injective _ _ (sym (lookup-insert k x rec m ∙ rw h refl) ∙ w)

      old :
          (x : Key) (y : SignedProvision)
          → (k == x) ≡ false
          → lookup x (insert k rec m) ≡ some y
          → lookup x m ≡ some y
      old x y h w = sym (lookup-insert k x rec m ∙ rw h refl) ∙ w

      at :
          ((k == i) ≡ true) ⊎ ((k == i) ≡ false)
          → ((k == j) ≡ true) ⊎ ((k == j) ≡ false)
          → p.seq ≡ q.seq
      at (inl a) b = absurd (ground (arith, ip, bare_of p (new i p a l)))
      at (inr a) (inl b) =
          absurd
            (ground (arith, ip, subst (λ x. (x == 0) ≡ true) (sym same) (bare_of q (new j q b r))))
      at (inr a) (inr b) = one i j p q (old i p a l) (old j q b r) ne same ip

  abbrev Sound : Assoc SignedProvision → Type 0
  Sound m = Unique m × OneOwner m

  put_locked-Sound :
      (k : Key) (rec : SignedProvision) (s : Store)
      → Sound s.recs
      → Sound (put_locked e k rec s).0.recs
  unfolding put_locked
  put_locked-Sound k rec s h = elim (Bool-cases (superseded (lookup k s.recs) rec)) [
    | inl old ↦ rw old h
    | inr new ↦ elim (Bool-cases (prov_addr_ip e rec == 0)) [
      | inl bare ↦
          rw (new, bare) (insert-Unique k rec s.recs h.0, insert-OneOwner k rec s.recs bare h.1)
      | inr ip ↦ elim (Bool-cases (reassigned (lookup (prov_addr_ip e rec) s.addr_seq) rec.seq)) [
        | inl late ↦ rw (new, ip, late) h
        | inr first ↦ elim (Bool-cases (held_by_newer e (prov_addr_ip e rec) k rec.seq s.recs)) [
          | inl held ↦ rw (new, ip, first, held) h
          | inr free ↦
              rw (new, ip, first, free)
                (
                  retain-Unique (stays e (prov_addr_ip e rec) k rec.seq) (insert k rec s.recs)
                      (insert-Unique k rec s.recs h.0),
                  kept-OneOwner k rec s.recs h.0 free h.1,
                )
        ]
      ]
    ]
  ]

  -- Storing records, whatever they are and in whatever order, never leaves an address to two keys
  -- under different sequence numbers, when the store had no such address before.
  pub put_all-OneOwner :
      (xs : List (Key × SignedProvision)) (s : Store)
      → Unique s.recs
      → OneOwner s.recs
      → Unique (put_all e xs s).recs × OneOwner (put_all e xs s).recs
  unfolding put_all
  put_all-OneOwner [] s u one = (u, one)
  put_all-OneOwner ((k, rec) ∷ xs) s u one =
      let next = put_locked-Sound k rec s (u, one) in
      put_all-OneOwner xs (put_locked e k rec s).0 next.0 next.1

  pub empty-OneOwner : OneOwner []
  unfolding lookup
  empty-OneOwner i j p q l r ne same ip = absurd (ground arith)

  -- Re-applying the rules repairs a store: whatever it held, no address is left to two keys under
  -- different sequence numbers.
  pub prune_superseded-OneOwner : (s : Store) → OneOwner (prune_superseded e s).recs
  unfolding prune_superseded
  prune_superseded-OneOwner s =
      (put_all-OneOwner (sort_by_seq [] s.recs) (record s { recs = [] }) tt empty-OneOwner).1

  -- Loading files at the start leaves no address to two keys under different sequence numbers,
  -- whatever the files hold.
  pub load_provisions-OneOwner :
      (a : Admin) (ledger : Assoc ℤ) (list : List SignedProvision) (addr_seq : Assoc ℤ)
      → OneOwner (load_provisions a e ledger list (record { recs = []; addr_seq = addr_seq })).recs
  unfolding load_provisions
  load_provisions-OneOwner a ledger list addr_seq =
      (put_all-OneOwner (sort_by_seq [] (verified a list))
        (record { recs = []; addr_seq = merge_ledger ledger addr_seq }) tt empty-OneOwner).1
