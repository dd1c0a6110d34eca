-- ===== src/AddressClaims/Tests.antt =====
-- Two nodes at one overlay address.
use apgo.Prelude.{
  ℕ, ◌+◌, Bool, true, false, not, [], ◌∷◌, ◌++◌, Option, none, some, replicate, if◌then◌else◌, ◌≡◌,
  ◌≢◌, refl, arith,
}
use apgo.Prelude.Maps.{Key, lookup}
use apgo.Prelude.Text.{codes, text_eq, pos}
use apgo.Bencode.{text_lt}
use apgo.Signed.{Admin}
use apgo.Admission.{StoredApproval, is_approved}
use apgo.AddressClaims.{IpClaim, by_roster, Keys, Known, Holder, yields_to}
use apgo.AddressClaims.Yield.{Collide, gives_way, yields_to_one}

-- A key is one byte, and its text that byte.
abbrev key_texts : Keys
key_texts = record { encode = λ k. k ∷ []; fingerprint = λ k. k ∷ []; is_ip = λ ip. true }

abbrev admin_of : Bool → Admin
admin_of key_set = record {
  key_set = key_set;
  decode_base64 = λ s. some (replicate 31 0 ++ s);
  verify = λ m s. true;
}

abbrev approval : StoredApproval
approval = record {
  pub_key = 7 ∷ [];
  action = codes "approve";
  seq = pos 1;
  ts = pos 1;
  rec = none;
}

-- A node that holds a session with key 7 and has heard of its address, which is 10.
abbrev known : (key_set : Bool) (self : Key) → Known
known key_set self = record {
  gate = record { key_set = key_set; env_override = none; self = self };
  admin = admin_of key_set;
  texts = record { trim_space = λ t. t; mask_text = codes "24" };
  provisions = [];
  roster = record { ip = 10; pk = 7 ∷ []; fp = []; seen = 5 } ∷ [];
  peer_ips = [];
  revoked = [];
  approvals = if key_set then (7, approval) ∷ [] else [];
  node = record {
    by_addr =
        (
          1,
          record {
            addr = 1;
            keyed = true;
            established = true;
            last_seen = 5;
            decrypt_fails = 0;
            peer_static = 7;
          },
        )
        ∷ [];
    backoff = [];
    learned = [];
    pq_peers = [];
    peer_pq = [];
    has_callback = false;
    lost = [];
  };
}

abbrev claim : Key → (provisioned approved : Bool) → IpClaim
claim k provisioned approved = record {
  pub_key = k;
  source = by_roster;
  provisioned = provisioned;
  seq = pos 3;
  approved = approved;
  live = true;
}

apart : key_texts.encode 5 ≢ key_texts.encode 7
apart e = ground (arith, e)

two_nodes-Collide :
    Collide (known true 5) (known true 7) 10 (claim 7 false true) (claim 5 false false)
unfolding is_approved lookup text_eq
two_nodes-Collide = record {
  required = (refl, refl);
  same_approvals = refl;
  keys = (refl, refl);
  approved = (refl, refl);
}

yields_to_one_example :
    (yields_to key_texts (known true 7) 10 (claim 5 false false)
      ≡ not (yields_to key_texts (known true 5) 10 (claim 7 false true)))
    × (yields_to key_texts (known true 5) 10 (claim 7 false true)
        ≡ gives_way
            (is_approved (known true 5).approvals 5)
            (is_approved (known true 5).approvals 7)
            (text_lt (7 ∷ []) (5 ∷ [])))
yields_to_one_example =
    yields_to_one key_texts (known true 5) (known true 7) 10 (claim 7 false true)
      (claim 5 false false) two_nodes-Collide apart refl refl

abbrev newcomer : Holder
newcomer = record {
  my_ip = 10;
  auto_derived = true;
  last_check = none;
  hop_salt = 0;
  last_hop = 0;
  conflict = none;
}

abbrev derive : ℕ → Option Key
derive salt = some (100 + salt)
