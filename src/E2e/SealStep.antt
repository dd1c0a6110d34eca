-- ===== src/E2e/SealStep.antt =====
-- What one call of `seal` does to the table of send states.
use mathlib.Core.Option.{some-injective, none-ne-some}
use apgo.Prelude.{
  ℕ, ◌+◌, ◌%◌, ◌^◌, ◌<◌, Bool, [], ◌∷◌, Option, none, some, ◌⊎◌, inl, inr, ltb, leb, length,
  Bool-cases, ◌>>=◌, >>=-eq-some, ◌≡◌, refl, sym, ap, ◌∙◌, arith,
}
use apgo.Prelude.Maps.{Key, Assoc, lookup, insert, retain, Unique, lookup-retain, retain-Unique}
use apgo.Prelude.Text.{Text}
use apgo.E2e.Opener.{e2e_rotate}
use apgo.E2e.Sealer.{
  SendState, Sealer, SealCrypto, SealCall, Sent, send_key, is_usable, drop_one, drop_expired,
  make_send_room, new_state, seal_with, seal_new, seal,
}

module _ {A : Type 0} where
  -- A table that holds nothing more.
  pub record Within (small large : Assoc (SendState A)) : Type 0 where
    pub distinct : Unique small
    pub sub : (k : Key) (s : SendState A) → lookup k small ≡ some s → lookup k large ≡ some s

  whole : (m : Assoc (SendState A)) → Unique m → Within m m
  whole m u = record { distinct = u; sub = λ k s h. h }

  nested : (a b c : Assoc (SendState A)) → Within a b → Within b c → Within a c
  nested a b c v w = record { distinct = v.distinct; sub = λ k s h. w.sub k s (v.sub k s h) }

  retain-Within :
      (keep : Key → SendState A → Bool) (m : Assoc (SendState A))
      → Unique m
      → Within (retain keep m) m
  retain-Within keep m u = record {
    distinct = retain-Unique keep m u;
    sub = λ k s. at k s (lookup k m) refl;
  }
    where
      at :
          (k : Key) (s : SendState A) (b : Option (SendState A))
          → lookup k m ≡ b
          → lookup k (retain keep m) ≡ some s
          → lookup k m ≡ some s
      at k s none e h = absurd (none-ne-some _ (sym (lookup-retain keep k m u ∙ rw e refl) ∙ h))
      at k s (some t) e h = elim (Bool-cases (keep k t)) [
        | inl stays ↦ e ∙ (sym (lookup-retain keep k m u ∙ rw (e, stays) refl) ∙ h)
        | inr gone ↦
            absurd (none-ne-some _ (sym (lookup-retain keep k m u ∙ rw (e, gone) refl) ∙ h))
      ]

  drop_one-Within : (m : Assoc (SendState A)) → Unique m → Within (drop_one m) m
  unfolding drop_one lookup
  drop_one-Within [] u = whole [] u
  drop_one-Within ((j, t) ∷ m) u = record { distinct = u.1; sub = λ k s h. ground (arith, h, u.0) }

  drop_expired-Within :
      (now : ℕ) (m : Assoc (SendState A)) → Unique m → Within (drop_expired now m) m
  unfolding drop_expired
  drop_expired-Within now m u =
      let young = retain (λ k v. ltb now (v.born + e2e_rotate)) m in
      let some_left : Within young m = retain-Within (λ k v. ltb now (v.born + e2e_rotate)) m u in
      elim (Bool-cases (leb 1024 (length young))) [
        | inl full ↦ rw full (nested _ young m (drop_one-Within young some_left.distinct) some_left)
        | inr room ↦ rw room some_left
      ]

  make_send_room-Within :
      (now : ℕ) (m : Assoc (SendState A)) → Unique m → Within (make_send_room now m) m
  unfolding make_send_room
  make_send_room-Within now m u = elim (Bool-cases (leb 1024 (length m))) [
    | inl full ↦ rw full (drop_expired-Within now m u)
    | inr room ↦ rw room (whole m u)
  ]

-- The ephemeral public key that a call would make.
abbrev pub drawn_eph : {A : Type 0} → SealCrypto A → SealCall → Option Text
drawn_eph x c = c.drawn >>= x.base

module _ {A : Type 0} (x : SealCrypto A) where
  -- What a seal that sends `p` did: the counter of one state was taken, a state of the table or a new
  -- one.
  pub record SealStep (z : Sealer A) (c : SealCall) (t : Sealer A) (p : Sent) : Type 0 where
    pub st : SendState A
    pub kept : Assoc (SendState A)
    pub within : Within kept z.m
    pub table : t ≡ record { m = insert (send_key c) (record st { ctr = st.ctr + 1 }) kept }
    pub eph : p.eph ≡ st.eph
    pub ctr : p.ctr ≡ st.ctr + 1
    pub origin : (lookup (send_key c) z.m ≡ some st) ⊎ (drawn_eph x c ≡ some st.eph)

  seal_with-SealStep :
      (z : Sealer A) (c : SealCall) (st : SendState A) (kept : Assoc (SendState A)) (p : Sent)
      → Within kept z.m
      → (lookup (send_key c) z.m ≡ some st) ⊎ (drawn_eph x c ≡ some st.eph)
      → st.ctr < 2 ^ 32
      → (seal_with x (record { m = kept }) c st).1 ≡ some p
      → SealStep z c (seal_with x (record { m = kept }) c st).0 p
  unfolding seal_with
  seal_with-SealStep z c st kept p w o l h =
      let no_wrap : (st.ctr + 1) % 2 ^ 64 ≡ st.ctr + 1 = omega arith in
      let sent = some-injective _ _ h in
      record {
        st = st;
        kept = kept;
        within = w;
        table = rw no_wrap refl;
        eph = sym (ap (λ (s : Sent). s.eph) sent);
        ctr = sym (ap (λ (s : Sent). s.ctr) sent) ∙ no_wrap;
        origin = o;
      }

  new_state_made :
      (c : SealCall) (st : SendState A)
      → (c.drawn >>= new_state x c) ≡ some st
      → (drawn_eph x c ≡ some st.eph) × (st.ctr ≡ 0)
  unfolding new_state
  new_state_made c st h =
      let (d, e, f) = >>=-eq-some c.drawn _ h in
      let (eph, e1, f1) = >>=-eq-some (x.base d) _ f in
      let (dh1, e2, f2) = >>=-eq-some (x.dh d c.to) _ f1 in
      let (dh2, e3, f3) = >>=-eq-some (x.self_dh c.to) _ f2 in
      let (aead, e4, f4) = >>=-eq-some (x.derive _ _ _ _ _ _) _ f3 in
      let made = some-injective _ _ f4 in
      (
        rw e (e1 ∙ ap (λ (s : SendState A). some s.eph) made),
        sym (ap (λ (s : SendState A). s.ctr) made),
      )

  seal_new-SealStep :
      (z : Sealer A) (c : SealCall) (p : Sent)
      → Unique z.m
      → (seal_new x z c).1 ≡ some p
      → SealStep z c (seal_new x z c).0 p
  unfolding seal_new
  seal_new-SealStep z c p u = at (c.drawn >>= new_state x c) refl
    where
      at :
          (b : Option (SendState A))
          → (c.drawn >>= new_state x c) ≡ b
          → (seal_new x z c).1 ≡ some p
          → SealStep z c (seal_new x z c).0 p
      at none e = rw (seal_new, e) (λ h. absurd (none-ne-some _ h))
      at (some st) e =
          let (drawn, start) = new_state_made c st e in
          rw (seal_new, e)
            (seal_with-SealStep z c st (make_send_room c.now z.m) p
              (make_send_room-Within c.now z.m u) (inr drawn) (omega (arith, start)))

  pub seal-SealStep :
      (z : Sealer A) (c : SealCall) (p : Sent)
      → Unique z.m
      → (seal x z c).1 ≡ some p
      → SealStep z c (seal x z c).0 p
  unfolding seal is_usable
  seal-SealStep z c p u = at (lookup (send_key c) z.m) refl
    where
      at :
          (b : Option (SendState A))
          → lookup (send_key c) z.m ≡ b
          → (seal x z c).1 ≡ some p
          → SealStep z c (seal x z c).0 p
      at none e = rw (seal, e) (seal_new-SealStep z c p u)
      at (some st) e = elim (Bool-cases (is_usable c.now st)) [
        | inl usable ↦
            rw (seal, e, usable)
              (seal_with-SealStep z c st z.m p (whole z.m u) (inl e) (ground (arith, usable)))
        | inr spent ↦ rw (seal, e, spent) (seal_new-SealStep z c p u)
      ]

  pub seal-none : (z : Sealer A) (c : SealCall) → (seal x z c).1 ≡ none → (seal x z c).0 ≡ z
  unfolding seal seal_new seal_with
  seal-none z c h = ground (arith, h)
