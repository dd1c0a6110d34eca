-- ===== src/Admission.antt =====
-- client/approvals.go and client/policy.go: the store of signed approvals, who may pass data, and
-- the store of signed post-quantum policies with the one in force on this node.
pub mod Verdict
pub mod Policies
mod Tests
use apgo.Prelude.{
  Bool, true, false, not, ◌&&◌, ◌||◌, List, [], ◌∷◌, Option, none, some, ◌==◌, if◌then◌else◌,
}
use apgo.Prelude.Maps.{Key, Assoc, lookup, insert}
use apgo.Prelude.Text.{Text, codes, text_eq, ℤ, negsuc, int_lt}
use apgo.Signed.{SignedApproval, SignedPolicy, Admin, verify_approval, verify_policy}

pub record StoredApproval : Type 0 where
  pub pub_key : Text
  pub action : Text
  pub seq : ℤ
  pub ts : ℤ
  pub rec : Option SignedApproval

abbrev pub ApprovalStore : Type 0
ApprovalStore = Assoc StoredApproval

abbrev pub is_approve : Text → Bool
is_approve action = text_eq action (codes "approve")

unfoldable pub is_approved : ApprovalStore → Key → Bool
is_approved s k = elim (lookup k s) [ none ↦ false | some r ↦ is_approve r.action ]

unfoldable pub has_any_approval : ApprovalStore → Bool
has_any_approval [] = false
has_any_approval ((k, r) ∷ s) = is_approve r.action || has_any_approval s

abbrev pub approval_refused : Option StoredApproval → StoredApproval → Bool
approval_refused none e = false
approval_refused (some cur) e = not (int_lt cur.seq e.seq)

unfoldable pub put_approval : Key → StoredApproval → ApprovalStore → ApprovalStore × Bool
put_approval k e s = if approval_refused (lookup k s) e then (s, false) else (insert k e s, true)

abbrev pub stored_approval : SignedApproval → StoredApproval
stored_approval r = record {
  pub_key = r.pub_key;
  action = r.action;
  seq = r.seq;
  ts = r.ts;
  rec = some r;
}

unfoldable pub apply_approval : SignedApproval → Key → ApprovalStore → ApprovalStore × Bool
apply_approval r k s = put_approval k (stored_approval r) s

-- handleApprovalGossip
unfoldable pub handle_approval : Admin → SignedApproval → ApprovalStore → ApprovalStore
handle_approval a r s = elim (verify_approval a r) [ none ↦ s | some k ↦ (apply_approval r k s).0 ]

-- What admission depends on: the admin key, ADMISSION_ENFORCE and this node's own key.
pub record Gate : Type 0 where
  pub key_set : Bool
  pub env_override : Option Bool
  pub self : Key

abbrev pub admission_required : Gate → Bool
admission_required g = g.key_set

unfoldable pub admission_enforced : Gate → ApprovalStore → Bool
admission_enforced g s = elim g.env_override [
  | some forced ↦ forced
  | none ↦
      if not (admission_required g) then false else if not (has_any_approval s) then false else true
]

unfoldable pub admitted : Gate → ApprovalStore → Key → Bool
admitted g s k =
    if not (admission_required g) then true else if k == g.self then true else is_approved s k

-- The verdict of admissionOK; the rest of that function only logs.
unfoldable pub admission_ok : Gate → ApprovalStore → Key → Bool
admission_ok g s k = if admitted g s k then true else not (admission_enforced g s)

-- nodePolicies, by the key text as a map key (0 for "", the network-wide policy), and what is
-- applied to this node.
pub record PolicyState : Type 0 where
  pub policies : Assoc SignedPolicy
  pub pq_enabled : Bool
  pub current_epoch : ℤ

-- The candidates of recomputeSelfPolicy, in its order.
abbrev pub with_policy : Option SignedPolicy → List SignedPolicy → List SignedPolicy
with_policy none l = l
with_policy (some p) l = p ∷ l

unfoldable pub candidates : Key → Assoc SignedPolicy → List SignedPolicy
candidates self m =
    with_policy (lookup 0 m) (if self == 0 then [] else with_policy (lookup self m) [])

-- The loop over the candidates; `none` is the start value with epoch -1.
abbrev pub epoch_of : Option SignedPolicy → ℤ
epoch_of none = negsuc 0
epoch_of (some p) = p.epoch

unfoldable pub best_policy : Option SignedPolicy → List SignedPolicy → Option SignedPolicy
best_policy best [] = best
best_policy best (p ∷ ps) = best_policy (if int_lt (epoch_of best) p.epoch then some p else best) ps

-- What follows the loop: the best candidate is put in force if it is newer.
unfoldable pub put_in_force : PolicyState → Option SignedPolicy → PolicyState
put_in_force s none = s
put_in_force s (some p) =
    if int_lt s.current_epoch p.epoch
    then record s { pq_enabled = p.post_quantum; current_epoch = p.epoch }
    else s

unfoldable pub recompute_self_policy : Key → PolicyState → PolicyState
recompute_self_policy self s = put_in_force s (best_policy none (candidates self s.policies))

abbrev pub policy_refused : Option SignedPolicy → SignedPolicy → Bool
policy_refused none p = false
policy_refused (some cur) p = not (int_lt cur.epoch p.epoch)

-- adoptPolicy, less the file and the frames: the state, and whether the policy is flooded on.
-- `key_text` is the policy's key text as a map key.
unfoldable pub adopt_policy : Admin → Key → Key → SignedPolicy → PolicyState → PolicyState × Bool
adopt_policy a self key_text p s =
    if not (verify_policy a p)
    then (s, false)
    else if policy_refused (lookup key_text s.policies) p
    then (s, false)
    else (recompute_self_policy self (record s { policies = insert key_text p s.policies }), true)
