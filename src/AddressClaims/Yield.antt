-- ===== src/AddressClaims/Yield.antt =====
-- client/ipclaim.go: which of two nodes that claim one overlay address gives it up (yieldsTo).
use apgo.Prelude.{Bool, true, false, not, [], ◌∷◌, Bool-cases, ◌≡◌, ◌≢◌, refl, ap, inl, inr, arith}
use apgo.Prelude.Maps.{Key}
use apgo.Prelude.Text.{Text, pos, int_lt}
use apgo.Bencode.{text_lt}
use apgo.Bencode.Order.{text_lt_asym}
use apgo.Admission.{is_approved, admission_required}
use apgo.AddressClaims.{IpClaim, Keys, Known, self_provision_seq, self_approved, yields_to}

text_lt_connex : (s t : Text) → text_lt s t ≡ false → text_lt t s ≡ false → s ≡ t
unfolding text_lt
text_lt_connex [] [] h g = refl
text_lt_connex [] (b ∷ t) h g = cc
text_lt_connex (a ∷ s) [] h g = cc
text_lt_connex (a ∷ s) (b ∷ t) h g = ground (arith, text_lt_connex s t)

text_lt_one_way : (s t : Text) → s ≢ t → text_lt t s ≡ not (text_lt s t)
text_lt_one_way s t apart = elim (Bool-cases (text_lt s t)) [
  | inl below ↦ rw (below, text_lt_asym s t below) refl
  | inr not_below ↦ elim (Bool-cases (text_lt t s)) [
    | inl above ↦ rw (not_below, above) refl
    | inr not_above ↦ absurd (apart (text_lt_connex s t not_below not_above))
  ]
]

-- What two nodes that claim one address know of each other: each has the other's claim, with the
-- standing that the same approvals and the same provisions give it.
pub record Collide (m n : Known) (ip : Key) (of_n of_m : IpClaim) : Type 0 where
  pub required : (admission_required m.gate ≡ true) × (admission_required n.gate ≡ true)
  pub same_approvals : n.approvals ≡ m.approvals
  pub keys : (of_n.pub_key ≡ n.gate.self) × (of_m.pub_key ≡ m.gate.self)
  pub approved :
      (of_n.approved ≡ is_approved m.approvals n.gate.self)
      × (of_m.approved ≡ is_approved m.approvals m.gate.self)

one_yields :
    (t : Keys) (m n : Known) (ip : Key) (of_n of_m : IpClaim)
    → Collide m n ip of_n of_m
    → t.encode m.gate.self ≢ t.encode n.gate.self
    → of_n.provisioned ≡ false
    → of_m.provisioned ≡ false
    → yields_to t n ip of_m ≡ not (yields_to t m ip of_n)
unfolding yields_to self_approved
one_yields t m n ip of_n of_m c apart p q = ground (
  arith,
  c.required,
  c.keys,
  c.approved,
  p,
  q,
  ap (λ s. is_approved s m.gate.self) c.same_approvals,
  ap (λ s. is_approved s n.gate.self) c.same_approvals,
  text_lt_one_way (t.encode m.gate.self) (t.encode n.gate.self) apart,
  ap t.encode c.keys.0,
  ap t.encode c.keys.1,
)

-- Which one, by the standing of both.
abbrev pub gives_way : (mine theirs greater : Bool) → Bool
gives_way true true greater = greater
gives_way true false greater = false
gives_way false true greater = true
gives_way false false greater = greater

unapproved_yields :
    (t : Keys) (m n : Known) (ip : Key) (of_n of_m : IpClaim)
    → Collide m n ip of_n of_m
    → of_n.provisioned ≡ false
    → yields_to t m ip of_n
      ≡ gives_way
          (is_approved m.approvals m.gate.self)
          (is_approved m.approvals n.gate.self)
          (text_lt (t.encode n.gate.self) (t.encode m.gate.self))
unfolding yields_to self_approved
unapproved_yields t m n ip of_n of_m c p =
    ground (arith, c.required, c.approved, p, ap t.encode c.keys.0)

-- yieldsTo of two nodes without a provision for the address answers that exactly one of them gives it
-- up: the unapproved one where only one is approved, and else the one whose key's base64 text is the
-- greater. Both know the same approvals and need one, and base64 tells their keys apart.
pub yields_to_one :
    (t : Keys) (m n : Known) (ip : Key) (of_n of_m : IpClaim)
    → Collide m n ip of_n of_m
    → t.encode m.gate.self ≢ t.encode n.gate.self
    → of_n.provisioned ≡ false
    → of_m.provisioned ≡ false
    → (yields_to t n ip of_m ≡ not (yields_to t m ip of_n))
      × (yields_to t m ip of_n
          ≡ gives_way
              (is_approved m.approvals m.gate.self)
              (is_approved m.approvals n.gate.self)
              (text_lt (t.encode n.gate.self) (t.encode m.gate.self)))
yields_to_one t m n ip of_n of_m c apart p q =
    (one_yields t m n ip of_n of_m c apart p q, unapproved_yields t m n ip of_n of_m c p)

-- A node that was assigned the address by a provision gives it up to another key's provision for it
-- exactly when that one's signature is newer. Its own sequence is positive.
pub yields_to_newest :
    (t : Keys) (m : Known) (ip : Key) (c : IpClaim)
    → c.provisioned ≡ true
    → int_lt (pos 0) (self_provision_seq m ip) ≡ true
    → yields_to t m ip c ≡ int_lt (self_provision_seq m ip) c.seq
unfolding yields_to
yields_to_newest t m ip c p mine = ground (arith, p, mine)
