-- ===== src/Admission/Policies.antt =====
-- client/policy.go: the lemmas on the policy in force on a node.
use apgo.Prelude.{
  false, List, [], ◌∷◌, Option, none, some, if◌then◌else◌, Bool-cases, ◌≡◌, ◌⊎◌, inl, inr, refl,
  sym, subst,
}
use apgo.Prelude.Maps.{Key, lookup, insert}
use apgo.Prelude.Text.{ℤ, negsuc, int_lt, int_lt_irrefl, int_lt_asym, int_lt_trans_not}
use apgo.Gossip.Converge.{In, here, there}
use apgo.Signed.{SignedPolicy, Admin, verify_policy}
use apgo.Admission.{
  PolicyState, candidates, epoch_of, best_policy, put_in_force, recompute_self_policy, adopt_policy,
  policy_refused,
}

-- `m` is not newer than `n`.
abbrev pub NotNewer : ℤ → ℤ → Type 0
NotNewer m n = int_lt n m ≡ false

best_policy_from :
    (o : Option SignedPolicy) (l : List SignedPolicy)
    → NotNewer (epoch_of o) (epoch_of (best_policy o l))
unfolding best_policy
best_policy_from o [] = int_lt_irrefl (epoch_of o)
best_policy_from o (p ∷ ps) = elim (Bool-cases (int_lt (epoch_of o) p.epoch)) [
  | inl newer ↦ rw newer (
      int_lt_trans_not (epoch_of (best_policy (some p) ps)) p.epoch (epoch_of o)
        (best_policy_from (some p) ps) (int_lt_asym (epoch_of o) p.epoch newer))
  | inr older ↦ rw older (best_policy_from o ps)
]

-- No candidate is newer than the best one.
best_policy-newest :
    (o : Option SignedPolicy) (l : List SignedPolicy) (q : SignedPolicy)
    → In q l
    → NotNewer q.epoch (epoch_of (best_policy o l))
unfolding best_policy
best_policy-newest o [] q i = elim i [ ]
best_policy-newest o (p ∷ ps) q (here e) = elim (Bool-cases (int_lt (epoch_of o) p.epoch)) [
  | inl newer ↦ rw (newer, e) (best_policy_from (some p) ps)
  | inr older ↦
      rw (older, e)
        (int_lt_trans_not (epoch_of (best_policy o ps)) (epoch_of o) p.epoch (best_policy_from o ps)
          older)
]
best_policy-newest o (p ∷ ps) q (there i) =
    best_policy-newest (if int_lt (epoch_of o) p.epoch then some p else o) ps q i

-- No stored policy that applies to the node is newer than what is in force on it.
abbrev pub IsCurrent : Key → PolicyState → Type 0
IsCurrent self s =
    (q : SignedPolicy) → In q (candidates self s.policies) → NotNewer q.epoch s.current_epoch

put_in_force-policies :
    (s : PolicyState) (o : Option SignedPolicy) → (put_in_force s o).policies ≡ s.policies
unfolding put_in_force
put_in_force-policies s none = refl
put_in_force-policies s (some p) = elim (Bool-cases (int_lt s.current_epoch p.epoch)) [
  | inl newer ↦ rw newer refl
  | inr older ↦ rw older refl
]

put_in_force_rises :
    (s : PolicyState) (o : Option SignedPolicy)
    → NotNewer s.current_epoch (put_in_force s o).current_epoch
unfolding put_in_force
put_in_force_rises s none = int_lt_irrefl s.current_epoch
put_in_force_rises s (some p) = elim (Bool-cases (int_lt s.current_epoch p.epoch)) [
  | inl newer ↦ rw newer (int_lt_asym s.current_epoch p.epoch newer)
  | inr older ↦ rw older (int_lt_irrefl s.current_epoch)
]

put_in_force_reaches :
    (s : PolicyState) (o : Option SignedPolicy)
    → NotNewer (negsuc 0) s.current_epoch
    → NotNewer (epoch_of o) (put_in_force s o).current_epoch
unfolding put_in_force
put_in_force_reaches s none h = h
put_in_force_reaches s (some p) h = elim (Bool-cases (int_lt s.current_epoch p.epoch)) [
  | inl newer ↦ rw newer (int_lt_irrefl p.epoch)
  | inr older ↦ rw older older
]

recompute-IsCurrent :
    (self : Key) (s : PolicyState)
    → NotNewer (negsuc 0) s.current_epoch
    → IsCurrent self (recompute_self_policy self s)
unfolding recompute_self_policy
recompute-IsCurrent self s h q i =
    let best = best_policy none (candidates self s.policies) in
    int_lt_trans_not (put_in_force s best).current_epoch (epoch_of best) q.epoch
      (put_in_force_reaches s best h)
      (best_policy-newest none (candidates self s.policies) q
        (subst (λ m. In q (candidates self m)) (put_in_force-policies s best) i))

-- The policies in the order in which a node receives them, each with its key text.
unfoldable pub adopt_all : Admin → Key → List (Key × SignedPolicy) → PolicyState → PolicyState
adopt_all a self [] s = s
adopt_all a self ((k, p) ∷ ps) s = adopt_all a self ps (adopt_policy a self k p s).0

abbrev Settled : Key → PolicyState → Type 0
Settled self s = NotNewer (negsuc 0) s.current_epoch × IsCurrent self s

adopt_policy-cases :
    (a : Admin) (self k : Key) (p : SignedPolicy) (s : PolicyState)
    → ((adopt_policy a self k p s).0 ≡ s)
      ⊎ ((adopt_policy a self k p s).0
          ≡ recompute_self_policy self (record s { policies = insert k p s.policies }))
unfolding adopt_policy
adopt_policy-cases a self k p s = elim (Bool-cases (verify_policy a p)) [
  | inr forged ↦ inl (rw forged refl)
  | inl genuine ↦ elim (Bool-cases (policy_refused (lookup k s.policies) p)) [
    | inl old ↦ inl (rw (genuine, old) refl)
    | inr new ↦ inr (rw (genuine, new) refl)
  ]
]

adopt_policy_rises :
    (a : Admin) (self k : Key) (p : SignedPolicy) (s : PolicyState)
    → NotNewer s.current_epoch (adopt_policy a self k p s).0.current_epoch
unfolding recompute_self_policy
adopt_policy_rises a self k p s = elim (adopt_policy-cases a self k p s) [
  | inl same ↦ rw same (int_lt_irrefl s.current_epoch)
  | inr anew ↦ rw anew (
      put_in_force_rises (record s { policies = insert k p s.policies })
        (best_policy none (candidates self (insert k p s.policies))))
]

adopt_policy-Settled :
    (a : Admin) (self k : Key) (p : SignedPolicy) (s : PolicyState)
    → Settled self s
    → Settled self (adopt_policy a self k p s).0
adopt_policy-Settled a self k p s h = (
  int_lt_trans_not (adopt_policy a self k p s).0.current_epoch s.current_epoch (negsuc 0)
      (adopt_policy_rises a self k p s) h.0,
  elim (adopt_policy-cases a self k p s) [
    | inl same ↦ subst (IsCurrent self) (sym same) h.1
    | inr anew ↦
        subst (IsCurrent self) (sym anew)
          (recompute-IsCurrent self (record s { policies = insert k p s.policies }) h.0)
  ],
)

-- Whatever policies reach a node, in any order and forged ones included, the epoch in force never
-- goes back, and no policy the node keeps that applies to it is newer than what is in force, when
-- this held at the start and the epoch in force there was not below -1.
pub adopt_all-IsCurrent :
    (a : Admin) (self : Key) (ps : List (Key × SignedPolicy)) (s : PolicyState)
    → NotNewer (negsuc 0) s.current_epoch
    → IsCurrent self s
    → NotNewer s.current_epoch (adopt_all a self ps s).current_epoch
      × IsCurrent self (adopt_all a self ps s)
unfolding adopt_all
adopt_all-IsCurrent a self [] s h c = (int_lt_irrefl s.current_epoch, c)
adopt_all-IsCurrent a self ((k, p) ∷ ps) s h c =
    let t = (adopt_policy a self k p s).0 in
    let next = adopt_policy-Settled a self k p s (h, c) in
    let rest = adopt_all-IsCurrent a self ps t next.0 next.1 in
    (
      int_lt_trans_not (adopt_all a self ps t).current_epoch t.current_epoch s.current_epoch rest.0
          (adopt_policy_rises a self k p s),
      rest.1,
    )
