-- ===== src/Provision/Ledger.antt =====
-- client/provstore.go: the lemmas on the ledger of addresses.
use apgo.Prelude.{
  Bool, true, false, List, [], ◌∷◌, Option, none, some, ◌==◌, ==_iff, ==_refl, Bool-cases, ◌≡◌, ◌⊎◌,
  inl, inr, refl, sym, ap, arith, ◌∙◌, subst,
}
use apgo.Prelude.Maps.{Key, Assoc, lookup, insert, retain, lookup-insert}
use apgo.Prelude.Text.{ℤ, pos, int_lt, int_lt_irrefl, int_lt_asym, int_lt_trans_not}
use apgo.Signed.{SignedProvision}
use apgo.Provision.{
  Texts, prov_addr_ip, Store, ledger_seq, reassigned, held_by_newer, superseded, raise_ledger,
  put_locked, put_all, stays,
}

-- The ledger holds a sequence for the address that is not below `n`.
abbrev pub Reaches : Key → ℤ → Assoc ℤ → Type 0
Reaches ip n m = (best : ℤ) × (lookup ip m ≡ some best) × (int_lt best n ≡ false)

raise_ledger-other :
    (ip j : Key) (n seq : ℤ) (m : Assoc ℤ)
    → (j == ip) ≡ false
    → Reaches ip n m
    → Reaches ip n (raise_ledger j seq m)
raise_ledger-other ip j n seq m ne (best, l, b) = elim (Bool-cases (int_lt (ledger_seq j m) seq)) [
  | inl up ↦ rw up (best, lookup-insert j ip seq m ∙ rw ne l, b)
  | inr same ↦ rw same (best, l, b)
]

ledger_seq-some :
    (ip : Key) (best : ℤ) (m : Assoc ℤ) → lookup ip m ≡ some best → ledger_seq ip m ≡ best
ledger_seq-some ip best m l = ap (λ (o : Option ℤ). elim o [ none ↦ pos 0 | some n ↦ n ]) l

raise_ledger-same :
    (ip : Key) (n seq : ℤ) (m : Assoc ℤ) → Reaches ip n m → Reaches ip n (raise_ledger ip seq m)
raise_ledger-same ip n seq m (best, l, b) = elim (Bool-cases (int_lt (ledger_seq ip m) seq)) [
  | inl up ↦
      let raised : int_lt best seq ≡ true =
        subst (λ z. int_lt z seq ≡ true) (ledger_seq-some ip best m l) up in
      rw up (
        seq,
        lookup-insert ip ip seq m ∙ rw (==_refl ip) refl,
        int_lt_trans_not seq best n (int_lt_asym best seq raised) b,
      )
  | inr same ↦ rw same (best, l, b)
]

raise_ledger_self :
    (ip : Key) (seq : ℤ) (m : Assoc ℤ)
    → int_lt (pos 0) seq ≡ true
    → Reaches ip seq (raise_ledger ip seq m)
raise_ledger_self ip seq m positive = elim (Bool-cases (int_lt (ledger_seq ip m) seq)) [
  | inl up ↦ rw up (seq, lookup-insert ip ip seq m ∙ rw (==_refl ip) refl, int_lt_irrefl seq)
  | inr same ↦ rw same (held (lookup ip m) refl same)
]
  where
    held :
        (o : Option ℤ) → lookup ip m ≡ o → int_lt (ledger_seq ip m) seq ≡ false → Reaches ip seq m
    held none l h =
        let z : ledger_seq ip m ≡ pos 0 =
          ap (λ (o : Option ℤ). elim o [ none ↦ pos 0 | some n ↦ n ]) l in
        absurd (ground (arith, positive, subst (λ y. int_lt y seq ≡ false) z h))
    held (some best) l h =
        (best, l, subst (λ y. int_lt y seq ≡ false) (ledger_seq-some ip best m l) h)

raise_ledger-Reaches :
    (ip j : Key) (n seq : ℤ) (m : Assoc ℤ) → Reaches ip n m → Reaches ip n (raise_ledger j seq m)
raise_ledger-Reaches ip j n seq m r = elim (Bool-cases (j == ip)) [
  | inl same ↦ rw ((==_iff j ip).0 same) (raise_ledger-same ip n seq m r)
  | inr other ↦ raise_ledger-other ip j n seq m other r
]

module _ (e : Texts) where
  put_locked_ledger :
      (k : Key) (rec : SignedProvision) (s : Store)
      → ((put_locked e k rec s).0.addr_seq ≡ s.addr_seq)
        ⊎ ((put_locked e k rec s).0.addr_seq ≡ raise_ledger (prov_addr_ip e rec) rec.seq s.addr_seq)
  unfolding put_locked
  put_locked_ledger k rec s = elim (Bool-cases (superseded (lookup k s.recs) rec)) [
    | inl old ↦ inl (rw old refl)
    | inr new ↦ elim (Bool-cases (prov_addr_ip e rec == 0)) [
      | inl bare ↦ inl (rw (new, bare) refl)
      | inr ip ↦ elim (Bool-cases (reassigned (lookup (prov_addr_ip e rec) s.addr_seq) rec.seq)) [
        | inl late ↦ inl (rw (new, ip, late) refl)
        | inr first ↦ elim (Bool-cases (held_by_newer e (prov_addr_ip e rec) k rec.seq s.recs)) [
          | inl held ↦ inl (rw (new, ip, first, held) refl)
          | inr free ↦ inr (rw (new, ip, first, free) refl)
        ]
      ]
    ]
  ]

  put_locked-Reaches :
      (k ip : Key) (n : ℤ) (rec : SignedProvision) (s : Store)
      → Reaches ip n s.addr_seq
      → Reaches ip n (put_locked e k rec s).0.addr_seq
  put_locked-Reaches k ip n rec s r = elim (put_locked_ledger k rec s) [
    | inl same ↦ subst (Reaches ip n) (sym same) r
    | inr up ↦
        subst (Reaches ip n) (sym up)
          (raise_ledger-Reaches ip (prov_addr_ip e rec) n rec.seq s.addr_seq r)
  ]

  put_all-Reaches :
      (xs : List (Key × SignedProvision)) (ip : Key) (n : ℤ) (s : Store)
      → Reaches ip n s.addr_seq
      → Reaches ip n (put_all e xs s).addr_seq
  unfolding put_all
  put_all-Reaches [] ip n s r = r
  put_all-Reaches ((k, rec) ∷ xs) ip n s r =
      put_all-Reaches xs ip n (put_locked e k rec s).0 (put_locked-Reaches k ip n rec s r)

  put_locked-refused :
      (k : Key) (n : ℤ) (rec : SignedProvision) (s : Store)
      → (prov_addr_ip e rec == 0) ≡ false
      → int_lt rec.seq n ≡ true
      → Reaches (prov_addr_ip e rec) n s.addr_seq
      → put_locked e k rec s ≡ (s, false)
  unfolding put_locked
  put_locked-refused k n rec s h old (best, l, b) =
      let early = Bool-cases (int_lt rec.seq best) in
      elim (Bool-cases (superseded (lookup k s.recs) rec)) [
        | inl refused ↦ rw (put_locked, refused) refl
        | inr new ↦ elim early [
          | inl late ↦ rw (put_locked, new, h, l, late) refl
          | inr fine ↦ absurd (ground (arith, old, int_lt_trans_not rec.seq best n fine b))
        ]
      ]

  -- What an accepted record with an address passed, and what it leaves.
  pub put_locked_took :
      (k : Key) (rec : SignedProvision) (s : Store)
      → let ip = prov_addr_ip e rec in
        (ip == 0) ≡ false
        → (put_locked e k rec s).1 ≡ true
        → (superseded (lookup k s.recs) rec ≡ false)
          × (reassigned (lookup ip s.addr_seq) rec.seq ≡ false)
          × (held_by_newer e ip k rec.seq s.recs ≡ false)
          × ((put_locked e k rec s).0 ≡ record {
            recs = retain (stays e ip k rec.seq) (insert k rec s.recs);
            addr_seq = raise_ledger ip rec.seq s.addr_seq;
          })
  unfolding put_locked
  put_locked_took k rec s h took = elim (Bool-cases (superseded (lookup k s.recs) rec)) [
    | inl old ↦ absurd (refused (rw (put_locked, old) refl))
    | inr new ↦ elim (Bool-cases (reassigned (lookup (prov_addr_ip e rec) s.addr_seq) rec.seq)) [
      | inl late ↦ absurd (refused (rw (put_locked, new, h, late) refl))
      | inr first ↦ elim (Bool-cases (held_by_newer e (prov_addr_ip e rec) k rec.seq s.recs)) [
        | inl held ↦ absurd (refused (rw (put_locked, new, h, first, held) refl))
        | inr free ↦ (new, first, free, rw (put_locked, new, h, first, free) refl)
      ]
    ]
  ]
    where
      refused : put_locked e k rec s ≡ (s, false) → ⊥
      refused q = ground (arith, took, ap (λ (x : Store × Bool). x.1) q)

  accepted-Reaches :
      (k : Key) (rec : SignedProvision) (s : Store)
      → (prov_addr_ip e rec == 0) ≡ false
      → int_lt (pos 0) rec.seq ≡ true
      → (put_locked e k rec s).1 ≡ true
      → Reaches (prov_addr_ip e rec) rec.seq (put_locked e k rec s).0.addr_seq
  accepted-Reaches k rec s h positive took =
      subst (λ (t : Store). Reaches (prov_addr_ip e rec) rec.seq t.addr_seq)
        (sym (put_locked_took k rec s h took).3)
        (raise_ledger_self (prov_addr_ip e rec) rec.seq s.addr_seq positive)

  -- Once an address was assigned under a positive sequence number, no older assignment of it is
  -- stored again, for any key and whatever records came in between: it leaves the store as it is.
  pub reassigned_for_good :
      (k j : Key) (rec old : SignedProvision) (s : Store) (between : List (Key × SignedProvision))
      → (prov_addr_ip e rec == 0) ≡ false
      → int_lt (pos 0) rec.seq ≡ true
      → (put_locked e k rec s).1 ≡ true
      → prov_addr_ip e old ≡ prov_addr_ip e rec
      → int_lt old.seq rec.seq ≡ true
      → let t = put_all e between (put_locked e k rec s).0 in put_locked e j old t ≡ (t, false)
  reassigned_for_good k j rec old s between h positive took same older =
      let t = put_all e between (put_locked e k rec s).0 in
      put_locked-refused j rec.seq old t (rw same h) older (
        subst (λ i. Reaches i rec.seq t.addr_seq) (sym same)
          (put_all-Reaches between (prov_addr_ip e rec) rec.seq (put_locked e k rec s).0
            (accepted-Reaches k rec s h positive took)))
