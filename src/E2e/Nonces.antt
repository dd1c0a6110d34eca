-- ===== src/E2e/Nonces.antt =====
-- client/e2erelay.go: the lemmas on the keys and the counters of e2eSealer.
use mathlib.Core.Option.{some-injective, none-ne-some}
use apgo.Prelude.{
  ◌+◌, ◌≤◌, false, List, [], ◌∷◌, some, ◌⊎◌, inl, inr, ◌==◌, if◌then◌else◌, All, All-both,
  Option-cases, Bool-cases, ◌≡◌, ◌≢◌, refl, sym, subst, ap, ◌∙◌, arith,
}
use apgo.Prelude.Maps.{Key, lookup, Unique, lookup-insert, insert-Unique}
use apgo.Prelude.Text.{Text}
use apgo.E2e.Sealer.{
  SendState, Sealer, SealCrypto, SealCall, Sent, new_sealer, send_key, seal, with_sent, seal_all,
}
use apgo.E2e.SealStep.{drawn_eph, SealStep, seal-SealStep, seal-none}

module _ {A : Type 0} (x : SealCrypto A) where
  -- A key of the table stands for one ephemeral key.
  abbrev OneKey : Sealer A → Type 0
  OneKey z =
      (j k : Key) (s t : SendState A)
      → lookup j z.m ≡ some s
      → lookup k z.m ≡ some t
      → s.eph ≡ t.eph
      → j ≡ k

  -- The states under the ephemeral key of `p` are past its counter.
  abbrev Below : Sent → Sealer A → Type 0
  Below p z = (k : Key) (s : SendState A) → lookup k z.m ≡ some s → s.eph ≡ p.eph → p.ctr ≤ s.ctr

  -- The call would draw no ephemeral key of the table.
  abbrev Fresh : SealCall → Sealer A → Type 0
  Fresh d z = (k : Key) (s : SendState A) → lookup k z.m ≡ some s → ¬ (drawn_eph x d ≡ some s.eph)

  abbrev pub Apart : SealCall → SealCall → Type 0
  Apart c d = (e : Text) → drawn_eph x c ≡ some e → ¬ (drawn_eph x d ≡ some e)

  abbrev pub Differs : Sent → Sent → Type 0
  Differs p q = q.eph ≡ p.eph → q.ctr ≢ p.ctr

  module _ (z : Sealer A) (c : SealCall) (t : Sealer A) (q : Sent) (step : SealStep x z c t q) where
    after : SendState A
    after = record step.st { ctr = step.st.ctr + 1 }

    step_lookup :
        (k : Key) (s : SendState A)
        → lookup k t.m ≡ some s
        → ((send_key c ≡ k) × (after ≡ s)) ⊎ (((send_key c == k) ≡ false) × (lookup k z.m ≡ some s))
    unfolding after
    step_lookup k s h =
        let e : lookup k t.m ≡ (if send_key c == k then some after else lookup k step.kept) =
          ap (λ (y : Sealer A). lookup k y.m) step.table
          ∙ lookup-insert (send_key c) k after step.kept in
        elim (Bool-cases (send_key c == k)) [
          | inl same ↦ inl (ground (arith, same), some-injective _ _ (sym (e ∙ rw same refl) ∙ h))
          | inr far ↦ inr (far, step.within.sub k s (sym (e ∙ rw far refl) ∙ h))
        ]

    -- A state of the old table under the ephemeral key that was used is the one that was used.
    used_key :
        (k : Key) (s : SendState A)
        → OneKey z
        → Fresh c z
        → lookup k z.m ≡ some s
        → s.eph ≡ step.st.eph
        → send_key c ≡ k
    used_key k s one new h e = elim step.origin [
      | inl old ↦ one (send_key c) k step.st s old h (sym e)
      | inr drawn ↦ absurd (new k s h (drawn ∙ ap some (sym e)))
    ]

    step-OneKey : OneKey z → Fresh c z → OneKey t
    unfolding after
    step-OneKey one new j k s r hs hr e = elim (step_lookup j s hs) [
      | inl (p, a) ↦ elim (step_lookup k r hr) [
        | inl (p2, a2) ↦ sym p ∙ p2
        | inr (far, h) ↦
            sym p ∙ used_key k r one new h (sym e ∙ sym (ap (λ (y : SendState A). y.eph) a))
      ]
      | inr (far, h) ↦ elim (step_lookup k r hr) [
        | inl (p, a) ↦
            sym (used_key j s one new h (e ∙ sym (ap (λ (y : SendState A). y.eph) a))) ∙ p
        | inr (far2, h2) ↦ one j k s r h h2 e
      ]
    ]

    step-Below : (p : Sent) → Below p z → ¬ (drawn_eph x c ≡ some p.eph) → Below p t
    unfolding after
    step-Below p below undrawn k s h e = elim (step_lookup k s h) [
      | inr (far, h2) ↦ below k s h2 e
      | inl (same, a) ↦ elim step.origin [
        | inl old ↦ omega (
          arith,
          below (send_key c) step.st old (ap (λ (y : SendState A). y.eph) a ∙ e),
          ap (λ (y : SendState A). y.ctr) a,
        )
        | inr drawn ↦ absurd (undrawn (drawn ∙ ap some (ap (λ (y : SendState A). y.eph) a ∙ e)))
      ]
    ]

    step-Differs : (p : Sent) → Below p z → ¬ (drawn_eph x c ≡ some p.eph) → Differs p q
    step-Differs p below undrawn same clash = elim step.origin [
      | inl old ↦
          omega (arith, below (send_key c) step.st old (sym step.eph ∙ same), step.ctr, clash)
      | inr drawn ↦ absurd (undrawn (drawn ∙ ap some (sym step.eph ∙ same)))
    ]

    sent-Below : OneKey z → Fresh c z → Below q t
    unfolding after
    sent-Below one new k s h e = elim (step_lookup k s h) [
      | inl (same, a) ↦ omega (arith, step.ctr, ap (λ (y : SendState A). y.ctr) a)
      | inr (far, h2) ↦
          let hit : send_key c ≡ k = used_key k s one new h2 (e ∙ step.eph) in
          absurd (ground (arith, far, hit))
    ]

    step-Fresh : (d : SealCall) → Fresh d z → Apart c d → Fresh d t
    unfolding after
    step-Fresh d new apart k s h e = elim (step_lookup k s h) [
      | inr (far, h2) ↦ new k s h2 e
      | inl (same, a) ↦
          let e2 : drawn_eph x d ≡ some step.st.eph =
            e ∙ ap (λ (y : SendState A). some y.eph) (sym a) in
          elim step.origin [
            | inl old ↦ new (send_key c) step.st old e2
            | inr drawn ↦ apart step.st.eph drawn e2
          ]
    ]

    sent_undrawn : (d : SealCall) → Fresh d z → Apart c d → ¬ (drawn_eph x d ≡ some q.eph)
    sent_undrawn d new apart e =
        let e2 : drawn_eph x d ≡ some step.st.eph = e ∙ ap some step.eph in
        elim step.origin [
          | inl old ↦ new (send_key c) step.st old e2
          | inr drawn ↦ apart step.st.eph drawn e2
        ]

  abbrev pub AllApart : List SealCall → Type 0
  AllApart [] = Unit
  AllApart (c ∷ cs) = All (Apart c) cs × AllApart cs

  abbrev pub AllDiffer : List Sent → Type 0
  AllDiffer [] = Unit
  AllDiffer (p ∷ ps) = All (Differs p) ps × AllDiffer ps

  step-Unique :
      (z : Sealer A) (c : SealCall) (t : Sealer A) (q : Sent) → SealStep x z c t q → Unique t.m
  step-Unique z c t q step =
      subst (λ (y : Sealer A). Unique y.m) (sym step.table)
        (insert-Unique (send_key c) _ step.kept step.within.distinct)

  later_Fresh :
      (z : Sealer A) (c : SealCall) (t : Sealer A) (q : Sent)
      → SealStep x z c t q
      → (cs : List SealCall) → All (λ d. Fresh d z) cs
      → All (Apart c) cs
      → All (λ d. Fresh d t) cs
  later_Fresh z c t q step =
      All-both (λ d. Fresh d z) (Apart c) (λ d. Fresh d t) (step-Fresh z c t q step)

  later_Differs :
      (cs : List SealCall) (z : Sealer A) (p : Sent)
      → Unique z.m
      → OneKey z
      → Below p z
      → All (λ d. ¬ (drawn_eph x d ≡ some p.eph)) cs
      → All (λ d. Fresh d z) cs
      → AllApart cs
      → All (Differs p) (seal_all x z cs)
  unfolding seal_all with_sent
  later_Differs [] z p u one below undrawn new apart = tt
  later_Differs (c ∷ cs) z p u one below undrawn new apart = elim (Option-cases (seal x z c).1) [
    | inl e ↦ rw (e, seal-none x z c e) (later_Differs cs z p u one below undrawn.1 new.1 apart.1)
    | inr (q, e) ↦
        let step = seal-SealStep x z c q u e in
        let t = (seal x z c).0 in
        rw e (
          step-Differs z c t q step p below undrawn.0,
          later_Differs cs t p (step-Unique z c t q step) (step-OneKey z c t q step one new.0)
              (step-Below z c t q step p below undrawn.0) undrawn.1
              (later_Fresh z c t q step cs new.1 apart.0) apart.1,
        )
  ]

  seal_all-AllDiffer_from :
      (cs : List SealCall) (z : Sealer A)
      → Unique z.m
      → OneKey z
      → All (λ d. Fresh d z) cs
      → AllApart cs
      → AllDiffer (seal_all x z cs)
  unfolding seal_all with_sent
  seal_all-AllDiffer_from [] z u one new apart = tt
  seal_all-AllDiffer_from (c ∷ cs) z u one new apart = elim (Option-cases (seal x z c).1) [
    | inl e ↦ rw (e, seal-none x z c e) (seal_all-AllDiffer_from cs z u one new.1 apart.1)
    | inr (q, e) ↦
        let step = seal-SealStep x z c q u e in
        let t = (seal x z c).0 in
        let v = step-Unique z c t q step in
        let one_t = step-OneKey z c t q step one new.0 in
        let new_t = later_Fresh z c t q step cs new.1 apart.0 in
        rw e (
          later_Differs cs t q v one_t (sent-Below z c t q step one new.0)
              (All-both (λ d. Fresh d z) (Apart c) (λ d. ¬ (drawn_eph x d ≡ some q.eph))
                (sent_undrawn z c t q step) cs new.1 apart.0)
              new_t apart.1,
          seal_all-AllDiffer_from cs t v one_t new_t apart.1,
        )
  ]

  nothing_drawn : (cs : List SealCall) → All (λ d. Fresh d new_sealer) cs
  unfolding lookup
  nothing_drawn [] = tt
  nothing_drawn (c ∷ cs) = (λ k s h. absurd (none-ne-some _ h), nothing_drawn cs)

  -- A node whose calls draw pairwise different ephemeral keys seals no two frames under one key with
  -- one counter, through every rotation and every eviction from the table of keys.
  pub seal_all-AllDiffer : (cs : List SealCall) → AllApart cs → AllDiffer (seal_all x new_sealer cs)
  seal_all-AllDiffer cs apart =
      seal_all-AllDiffer_from cs new_sealer tt
        (λ j k s t h. absurd (unfold lookup in none-ne-some _ h)) (nothing_drawn cs) apart
