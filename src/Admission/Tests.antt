-- ===== src/Admission/Tests.antt =====
-- Approvals and policies of one peer, on concrete records.
use apgo.Prelude.{
  true, false, [], ◌∷◌, none, some, ◌==◌, replicate, length, ◌≡◌, ◌⊎◌, inl, inr, refl, sym, ap,
  arith, ◌∙◌,
}
use apgo.Prelude.Maps.{Key, lookup}
use apgo.Prelude.Text.{Text, codes, pos, be_value, text_eq, int_lt}
use apgo.Gossip.Pairs.{In-pair}
use apgo.Signed.{SignedApproval, SignedPolicy, Admin, verify_approval}
use apgo.Admission.{
  ApprovalStore, stored_approval, Gate, admission_ok, handle_approval, PolicyState, candidates,
}
use apgo.Admission.Verdict.{OneForEachSeq, deny_reopens}
use apgo.Admission.Policies.{adopt_all, IsCurrent, NotNewer, adopt_all-IsCurrent}

-- base64 is the identity, and every signature of one byte verifies.
abbrev admin : Admin
admin = record { key_set = true; decode_base64 = some; verify = λ message sig. length sig == 1 }

abbrev key_text : Text
key_text = 9 ∷ replicate 31 0

abbrev peer : Key
peer = be_value key_text 0

abbrev approve : SignedApproval
approve = record {
  action = codes "approve";
  pub_key = key_text;
  seq = pos 1;
  ts = pos 5;
  sig = 1 ∷ [];
}

abbrev deny : SignedApproval
deny = record { action = codes "deny"; pub_key = key_text; seq = pos 2; ts = pos 6; sig = 2 ∷ [] }

abbrev gate : Gate
gate = record { key_set = true; env_override = none; self = 5 }

abbrev store : ApprovalStore
store = (peer, stored_approval approve) ∷ []

deny_verifies : verify_approval admin deny ≡ some peer
unfolding verify_approval text_eq
deny_verifies = refl

deny_reopens_example : admission_ok gate (handle_approval admin deny store) peer ≡ true
deny_reopens_example =
    deny_reopens admin gate deny peer peer (stored_approval approve) refl refl
      (unfold text_eq in refl) (unfold text_eq in refl) deny_verifies (unfold int_lt in refl)

one_for_each_seq : OneForEachSeq admin (approve ∷ deny ∷ []) peer
one_for_each_seq q r i j v w e = at (In-pair q approve deny i) (In-pair r approve deny j)
  where
    at : (q ≡ approve) ⊎ (q ≡ deny) → (r ≡ approve) ⊎ (r ≡ deny) → q ≡ r
    at (inl a) (inl b) = a ∙ sym b
    at (inr a) (inr b) = a ∙ sym b
    at (inl a) (inr b) = absurd (
        ground
          (arith, e, ap (λ (x : SignedApproval). x.seq) a, ap (λ (x : SignedApproval). x.seq) b))
    at (inr a) (inl b) = absurd (
        ground
          (arith, e, ap (λ (x : SignedApproval). x.seq) a, ap (λ (x : SignedApproval). x.seq) b))

-- A network-wide policy, and an older one for this node.
abbrev network_wide : SignedPolicy
network_wide = record { pub_key = []; post_quantum = true; epoch = pos 4; ts = pos 5; sig = 1 ∷ [] }

abbrev own : SignedPolicy
own = record { pub_key = key_text; post_quantum = false; epoch = pos 3; ts = pos 5; sig = 1 ∷ [] }

abbrev no_policies : PolicyState
no_policies = record { policies = []; pq_enabled = false; current_epoch = pos 0 }

no_policies-IsCurrent : IsCurrent peer no_policies
unfolding candidates lookup be_value
no_policies-IsCurrent q i = elim i [ ]

adopt_all-IsCurrent_example :
    NotNewer
      (pos 0)
      (adopt_all admin peer ((0, network_wide) ∷ (peer, own) ∷ []) no_policies).current_epoch
    × IsCurrent peer (adopt_all admin peer ((0, network_wide) ∷ (peer, own) ∷ []) no_policies)
adopt_all-IsCurrent_example =
    adopt_all-IsCurrent admin peer ((0, network_wide) ∷ (peer, own) ∷ []) no_policies
      (unfold int_lt in refl) no_policies-IsCurrent
