-- ===== src/Signed/Tests.antt =====
-- The signed bytes of concrete records.
use apgo.Prelude.{true, [], ◌++◌, ◌≡◌, refl}
use apgo.Prelude.Text.{codes, pos, print_int, print_nat}
use apgo.Signed.{
  SignedApproval, SignedPolicy, SignedProvision, canonical_revocation, canonical_provision,
  join_bar,
}
use apgo.Signed.Binding.{canonical_provision_ambiguous}

signed_bytes :
    canonical_revocation (codes "revoke") (codes "AQID") (pos 7) (pos 12)
    ≡ codes "OVLYREVOKE1|revoke|AQID|7|12"
unfolding canonical_revocation join_bar print_int print_nat
signed_bytes = refl

abbrev approval : SignedApproval
approval = record {
  action = codes "approve";
  pub_key = codes "AQID";
  seq = pos 7;
  ts = pos 12;
  sig = [];
}

abbrev policy : SignedPolicy
policy = record {
  pub_key = codes "AQID";
  post_quantum = true;
  epoch = pos 7;
  ts = pos 12;
  sig = [];
}

abbrev provision : SignedProvision
provision = record {
  pub_key = codes "AQID";
  address = codes "10.0.0.5";
  name = codes "tv";
  seq = pos 7;
  ts = pos 12;
  sig = [];
}

-- The address `10.0.0.5` with the name `a|b`, and the address `10.0.0.5|a` with the name `b`.
canonical_provision_ambiguous_example :
    canonical_provision (codes "AQID") (codes "10.0.0.5" ++ codes "|a") (codes "b") (pos 7) (pos 12)
    ≡ canonical_provision
        (codes "AQID")
        (codes "10.0.0.5")
        (codes "a" ++ codes "|b")
        (pos 7)
        (pos 12)
canonical_provision_ambiguous_example =
    canonical_provision_ambiguous (codes "AQID") (codes "10.0.0.5") (codes "a") (codes "b") (pos 7)
      (pos 12)
