-- ===== src/Admission/Verdict.antt =====
-- client/approvals.go: the lemmas on who passes the data-plane gate.
use apgo.Prelude.{
  true, false, not, ◌||◌, List, [], ◌∷◌, Option, none, some, ◌==◌, ==_refl, if◌then◌else◌,
  Bool-cases, ◌≡◌, inl, inr, refl, sym, ap, arith, ◌∙◌,
}
use apgo.Prelude.Maps.{Key, lookup, insert}
use apgo.Prelude.Text.{int_lt, int_lt_irrefl, int_lt_trans, int_lt_trans_not, int_lt_connex}
use apgo.Gossip.{Versioned, put, receive_all}
use apgo.Gossip.Converge.{In}
use apgo.Gossip.Flood.{accepted, SameRecords, OneForEachVersion, accepted_converge}
use apgo.Signed.{SignedApproval, Admin, verify_approval}
use apgo.Admission.{
  StoredApproval, ApprovalStore, is_approve, is_approved, has_any_approval, put_approval,
  stored_approval, apply_approval, handle_approval, Gate, admission_enforced, admitted,
  admission_ok,
}

instance pub versioned_approval : Versioned StoredApproval
versioned_approval = record {
  supersedes = λ e cur. int_lt cur.seq e.seq;
  irrefl = λ e. int_lt_irrefl e.seq;
  trans = λ d e f h g. int_lt_trans f.seq e.seq d.seq g h;
  trans_not = λ d e f h g. int_lt_trans_not f.seq e.seq d.seq g h;
}

put_approval_recs :
    (k : Key) (e : StoredApproval) (s : ApprovalStore) → (put_approval k e s).0 ≡ put k e s
unfolding put_approval put versioned_approval
put_approval_recs k e s = at (lookup k s) refl
  where
    at : (o : Option StoredApproval) → lookup k s ≡ o → (put_approval k e s).0 ≡ put k e s
    at none h = rw (h, put_approval) refl
    at (some cur) h = elim (Bool-cases (int_lt cur.seq e.seq)) [
      | inl newer ↦ rw (h, put_approval, newer) refl
      | inr older ↦ rw (h, put_approval, older) refl
    ]

-- The approval frames in the order in which a node receives them.
unfoldable pub flood : Admin → List SignedApproval → ApprovalStore → ApprovalStore
flood a [] s = s
flood a (r ∷ rs) s = flood a rs (handle_approval a r s)

handle_approval_recs :
    (a : Admin) (r : SignedApproval) (s : ApprovalStore) (o : Option Key)
    → verify_approval a r ≡ o
    → handle_approval a r s ≡ elim o [ none ↦ s | some k ↦ put k (stored_approval r) s ]
unfolding handle_approval apply_approval
handle_approval_recs a r s none h = rw (h, handle_approval) refl
handle_approval_recs a r s (some k) h =
    rw (h, handle_approval) (put_approval_recs k (stored_approval r) s)

flood_recs :
    (a : Admin) (rs : List SignedApproval) (s : ApprovalStore)
    → flood a rs s ≡ receive_all (accepted (verify_approval a) stored_approval rs) s
unfolding flood accepted receive_all
flood_recs a [] s = refl
flood_recs a (r ∷ rs) s = flood_recs a rs (handle_approval a r s) ∙ at (verify_approval a r) refl
  where
    at :
        (o : Option Key)
        → verify_approval a r ≡ o
        → receive_all (accepted (verify_approval a) stored_approval rs) (handle_approval a r s)
          ≡ receive_all (accepted (verify_approval a) stored_approval (r ∷ rs)) s
    at none h = rw h (
        ap (receive_all (accepted (verify_approval a) stored_approval rs))
          (handle_approval_recs a r s none h))
    at (some k) h = rw h (
        ap (receive_all (accepted (verify_approval a) stored_approval rs))
          (handle_approval_recs a r s (some k) h))

abbrev pub OneForEachSeq : Admin → List SignedApproval → Key → Type 0
OneForEachSeq a rs k =
    (q r : SignedApproval)
    → In q rs
    → In r rs
    → verify_approval a q ≡ some k
    → verify_approval a r ≡ some k
    → q.seq ≡ r.seq
    → q ≡ r

OneForEachVersion-approval :
    (a : Admin) (rs : List SignedApproval) (k : Key)
    → OneForEachSeq a rs k
    → OneForEachVersion (verify_approval a) stored_approval rs k
unfolding versioned_approval
OneForEachVersion-approval a rs k one q r i j v w x y =
    one q r i j v w (int_lt_connex q.seq r.seq y x)

-- Two nodes that start with no approval and receive the same approval frames, forged ones
-- included, admit the key alike, whatever the order and the repetitions, when the key is neither
-- node's own, both have the admin key or both have none, and no two different valid records for
-- the key share a sequence number.
pub approvals_converge :
    (a : Admin) (rs qs : List SignedApproval) (k : Key) (g h : Gate)
    → OneForEachSeq a rs k
    → SameRecords (verify_approval a) stored_approval rs qs
    → g.key_set ≡ h.key_set
    → (k == g.self) ≡ false
    → (k == h.self) ≡ false
    → admitted g (flood a rs []) k ≡ admitted h (flood a qs []) k
unfolding admitted is_approved
approvals_converge a rs qs k g h one same e x y =
    rw (x, y, e) (ap (λ b. if not h.key_set then true else b) agree)
  where
    agree : is_approved (flood a rs []) k ≡ is_approved (flood a qs []) k
    agree =
        ap (λ (o : Option StoredApproval). elim o [ none ↦ false | some r ↦ is_approve r.action ])
          (ap (lookup k) (flood_recs a rs [])
            ∙ accepted_converge (verify_approval a) stored_approval rs qs k
                (OneForEachVersion-approval a rs k one) same
            ∙ sym (ap (lookup k) (flood_recs a qs [])))

-- The gate opens for every peer until the store holds an approval, and from then on it opens for
-- this node itself and the approved peers only, when an admin key is set and ADMISSION_ENFORCE
-- is not.
pub admission_ok_by_store :
    (g : Gate) (s : ApprovalStore) (k : Key)
    → g.key_set ≡ true
    → g.env_override ≡ none
    → admission_ok g s k ≡ (if has_any_approval s then (k == g.self) || is_approved s k else true)
unfolding admission_ok admitted admission_enforced
admission_ok_by_store g s k e n = elim (Bool-cases (has_any_approval s)) [
  | inl used ↦ elim (Bool-cases (k == g.self)) [
    | inl own ↦ rw (admission_ok, admitted, e, own, used) refl
    | inr peer ↦ elim (Bool-cases (is_approved s k)) [
      | inl approved ↦ rw (admission_ok, admitted, e, peer, approved, used) refl
      | inr pending ↦
          rw (admission_ok, admitted, admission_enforced, n, e, peer, pending, used) refl
    ]
  ]
  | inr fresh ↦ elim (Bool-cases (admitted g s k)) [
    | inl approved ↦ rw (admission_ok, approved, fresh) refl
    | inr pending ↦ rw (admission_ok, pending, admission_enforced, n, e, fresh) refl
  ]
]

is_approved-other :
    (j k : Key) (r : StoredApproval) (s : ApprovalStore)
    → (j == k) ≡ false
    → is_approved ((j, r) ∷ s) k ≡ is_approved s k
unfolding is_approved lookup
is_approved-other j k r s h = rw (is_approved, h) refl

is_approved-same :
    (j k : Key) (r : StoredApproval) (s : ApprovalStore)
    → (j == k) ≡ true
    → is_approved ((j, r) ∷ s) k ≡ is_approve r.action
unfolding is_approved lookup
is_approved-same j k r s h = rw (is_approved, h) refl

has_any_approval-is_approved :
    (s : ApprovalStore) (k : Key) → is_approved s k ≡ true → has_any_approval s ≡ true
unfolding has_any_approval is_approved lookup
has_any_approval-is_approved [] k h = absurd (ground arith)
has_any_approval-is_approved ((j, r) ∷ s) k h = elim (Bool-cases (j == k)) [
  | inl same ↦ rw (sym (is_approved-same j k r s same) ∙ h) refl
  | inr other ↦
      rw (has_any_approval-is_approved s k (sym (is_approved-other j k r s other) ∙ h))
        (ground arith)
]

-- The gate does not stay closed: when the one approved peer of a store is denied by a newer record
-- that verifies, every peer passes again, the denied one too, when an admin key is set and
-- ADMISSION_ENFORCE is not.
pub deny_reopens :
    (a : Admin) (g : Gate) (r : SignedApproval) (k j : Key) (cur : StoredApproval)
    → g.key_set ≡ true
    → g.env_override ≡ none
    → is_approve cur.action ≡ true
    → is_approve r.action ≡ false
    → verify_approval a r ≡ some k
    → int_lt cur.seq r.seq ≡ true
    → admission_ok g (handle_approval a r ((k, cur) ∷ [])) j ≡ true
unfolding lookup insert has_any_approval put versioned_approval
deny_reopens a g r k j cur e n was_on now_off v newer =
    admission_ok_by_store g (handle_approval a r ((k, cur) ∷ [])) j e n
    ∙ ap
        (λ b.
          if b then (j == g.self) || is_approved (handle_approval a r ((k, cur) ∷ [])) j else true)
        unused
  where
    replaced : put k (stored_approval r) ((k, cur) ∷ []) ≡ (k, stored_approval r) ∷ []
    replaced = rw (put, ==_refl k, newer) refl

    off : has_any_approval ((k, stored_approval r) ∷ []) ≡ false
    off = rw now_off refl

    unused : has_any_approval (handle_approval a r ((k, cur) ∷ [])) ≡ false
    unused =
        ap has_any_approval (handle_approval_recs a r ((k, cur) ∷ []) (some k) v ∙ replaced) ∙ off
