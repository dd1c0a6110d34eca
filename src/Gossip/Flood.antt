-- ===== src/Gossip/Flood.antt =====
-- What nodes do with the signed records they flood: each record that verifies is filed under the
-- key it names, if it supersedes the one held. Shared by the stores of revocations and approvals.
use apgo.Prelude.{false, Option, none, some, List, [], ◌∷◌, ◌≡◌, ◌↔◌, refl, sym, ap, ◌∙◌, subst}
use apgo.Prelude.Maps.{Key, lookup}
use apgo.Gossip.{Versioned, receive_all}
use apgo.Gossip.Converge.{In, here, there, receive_all_converge}

module _ {ℓ} {R S : Type ℓ} (verify : R → Option Key) (store : R → S) where
  abbrev filed : R → Option Key → List (Key × S) → List (Key × S)
  filed r none ds = ds
  filed r (some k) ds = (k, store r) ∷ ds

  -- The records that verify, as the store files them.
  unfoldable pub accepted : List R → List (Key × S)
  accepted [] = []
  accepted (r ∷ rs) = filed r (verify r) (accepted rs)

  abbrev pub Origin : List R → Key → S → Type ℓ
  Origin rs k e = (r : R) × In r rs × (verify r ≡ some k) × (e ≡ store r)

  Origin-there : (r : R) (rs : List R) (k : Key) (e : S) → Origin rs k e → Origin (r ∷ rs) k e
  Origin-there r rs k e o = (o.0, there o.1, o.2, o.3)

  In-filed :
      (r : R) (rs : List R) (o : Option Key) (k : Key) (e : S)
      → verify r ≡ o
      → (In (k, e) (accepted rs) → Origin rs k e)
      → In (k, e) (filed r o (accepted rs))
      → Origin (r ∷ rs) k e
  In-filed r rs none k e v h i = Origin-there r rs k e (h i)
  In-filed r rs (some j) k e v h (here p) =
      (r, here refl, v ∙ ap some (sym (ap (λ (x : Key × S). x.0) p)), ap (λ (x : Key × S). x.1) p)
  In-filed r rs (some j) k e v h (there i) = Origin-there r rs k e (h i)

  pub In-accepted : (rs : List R) (k : Key) (e : S) → In (k, e) (accepted rs) → Origin rs k e
  unfolding accepted
  In-accepted [] k e i = absurd (none_in i)
    where
      none_in : {x : Key × S} → In x [] → ⊥
      none_in i = elim i [ ]
  In-accepted (r ∷ rs) k e i = In-filed r rs (verify r) k e refl (In-accepted rs k e) i

  filed-there :
      (r : R) (o : Option Key) (x : Key × S) (ds : List (Key × S)) → In x ds → In x (filed r o ds)
  filed-there r none x ds i = i
  filed-there r (some k) x ds i = there i

  pub accepted-In :
      (rs : List R) (r : R) (k : Key) → In r rs → verify r ≡ some k → In (k, store r) (accepted rs)
  unfolding accepted
  accepted-In [] r k i v = absurd (none_in i)
    where
      none_in : {x : R} → In x [] → ⊥
      none_in i = elim i [ ]
  accepted-In (q ∷ rs) r k (here p) v =
      subst (λ x. In (k, store r) (filed x (verify x) (accepted rs))) p (rw v (here refl))
  accepted-In (q ∷ rs) r k (there i) v =
      filed-there q (verify q) (k, store r) (accepted rs) (accepted-In rs r k i v)

  abbrev pub SameRecords : List R → List R → Type ℓ
  SameRecords rs qs = (r : R) → In r rs ↔ In r qs

  transfer :
      (rs qs : List R)
      → ((r : R) → In r rs → In r qs)
      → (k : Key) (e : S) → In (k, e) (accepted rs)
      → In (k, e) (accepted qs)
  transfer rs qs h k e i =
      let o = In-accepted rs k e i in rw o.3 (accepted-In qs o.0 k (h o.0 o.1) o.2)

  module _ ⦃v : Versioned S⦄ where
    -- No two different records for the key that verify have the same version.
    abbrev pub OneForEachVersion : List R → Key → Type ℓ
    OneForEachVersion rs k =
        (q r : R)
        → In q rs
        → In r rs
        → verify q ≡ some k
        → verify r ≡ some k
        → v.supersedes (store q) (store r) ≡ false
        → v.supersedes (store r) (store q) ≡ false
        → q ≡ r

    pub accepted_converge :
        (rs qs : List R) (k : Key)
        → OneForEachVersion rs k
        → SameRecords rs qs
        → lookup k (receive_all (accepted rs) []) ≡ lookup k (receive_all (accepted qs) [])
    accepted_converge rs qs k one same =
        receive_all_converge (accepted rs) (accepted qs) k agree
          (λ e. (transfer rs qs (λ r. (same r).0) k e, transfer qs rs (λ r. (same r).1) k e))
      where
        agree :
            (d e : S)
            → In (k, d) (accepted rs)
            → In (k, e) (accepted rs)
            → v.supersedes d e ≡ false
            → v.supersedes e d ≡ false
            → d ≡ e
        agree d e i j x y =
            let o = In-accepted rs k d i in
            let p = In-accepted rs k e j in
            o.3
            ∙ ap store (
                one o.0 p.0 o.1 p.1 o.2 p.2
                  (subst (λ z. v.supersedes z (store p.0) ≡ false) o.3
                    (subst (λ z. v.supersedes d z ≡ false) p.3 x))
                  (subst (λ z. v.supersedes (store p.0) z ≡ false) o.3
                    (subst (λ z. v.supersedes z d ≡ false) p.3 y)))
            ∙ sym p.3
