-- ===== src/AddressBindings/Tests.antt =====
-- Runs of the binding table.
use apgo.Prelude.{
  ◌+◌, true, false, List, [], ◌∷◌, ◌++◌, none, some, replicate, ◌==◌, if◌then◌else◌, ◌≡◌, refl,
  arith,
}
use apgo.Prelude.Maps.{lookup, insert, retain}
use apgo.Prelude.Text.{codes}
use apgo.Revocation.{is_revoked}
use apgo.AddressClaims.{Known}
use apgo.AddressBindings.{
  Net, Bindings, salt_from, strength_of, owners_from, provisioned_owners, provisioned, take_address,
  claim_free, contest, owns_unprovisioned, owns,
}
use apgo.AddressBindings.Bounded.{IsTable, run-IsTable}
use apgo.AddressBindings.History.{Event, asked, forgotten, run, owns-incumbent}

-- A key k derives 100 + k with salt 0 and k + salt after it; this node is at 99.
abbrev net : Net
net = record {
  has_cidr = true;
  in_subnet = λ ip. true;
  derive = λ k salt. some (if salt == 0 then 100 + k else k + salt);
  my_ip = 99;
  strict = false;
}

abbrev known : Known
known = record {
  gate = record { key_set = false; env_override = none; self = 1 };
  admin = record {
    key_set = false;
    decode_base64 = λ s. some (replicate 31 0 ++ s);
    verify = λ m s. true;
  };
  texts = record { trim_space = λ t. t; mask_text = codes "24" };
  provisions = [];
  roster = [];
  peer_ips = (7, 107) ∷ [];
  revoked = [];
  approvals = [];
  node = record {
    by_addr = [];
    backoff = [];
    learned = [];
    pq_peers = [];
    peer_pq = [];
    has_callback = false;
    lost = [];
  };
}

-- Key 7 claims the address that it derives.
abbrev held : Bindings
held = (107, record { pub_key = 7; seen = 10; strength = 3 }) ∷ []

owns_first : owns net 10 known 7 107 true [] ≡ (held, true)
unfolding owns owns_unprovisioned contest claim_free take_address provisioned provisioned_owners
    owners_from strength_of salt_from is_revoked lookup insert retain
owns_first = refl

-- Key 57 hops to the address, takes another one, and is forgotten.
abbrev calls : List Event
calls = asked 20 known 57 107 true ∷ asked 30 known 57 157 true ∷ forgotten 57 ∷ []

owns-incumbent_example :
    (lookup 107 (run net calls held) ≡ some (record { pub_key = 7; seen = 10; strength = 3 }))
    × (owns net 40 known 57 107 true (run net calls held) ≡ (run net calls held, false))
unfolding lookup is_revoked provisioned_owners owners_from
owns-incumbent_example =
    owns-incumbent net (record { pub_key = 7; seen = 10; strength = 3 }) 107 calls held 40 known 57
      true (refl, tt) refl refl refl
      ((refl, omega arith, refl, refl), ((refl, omega arith, refl, refl), (refl, tt)))
      (refl, omega arith, refl, refl)

run-IsTable_example : IsTable (run net (asked 10 known 7 107 true ∷ calls) [])
run-IsTable_example = run-IsTable net (asked 10 known 7 107 true ∷ calls)
