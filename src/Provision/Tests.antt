-- ===== src/Provision/Tests.antt =====
-- Runs of the provision store.
use apgo.Prelude.{true, false, [], ◌∷◌, some, ◌≡◌, refl}
use apgo.Prelude.Maps.{Unique, lookup}
use apgo.Prelude.Text.{codes, text_key, pos, int_lt}
use apgo.Signed.{SignedProvision, Admin}
use apgo.Provision.{
  Texts, Store, prov_addr_ip, put_locked, put_all, strip_mask, with_mask, normalize_overlay_addr,
  held_by_newer,
}
use apgo.Provision.Ledger.{reassigned_for_good}
use apgo.Provision.Owners.{OneOwner, empty-OneOwner, put_all-OneOwner}

abbrev texts : Texts
texts = record { trim_space = λ t. t; mask_text = codes "24" }

abbrev old_key : SignedProvision
old_key = record {
  pub_key = codes "AQ";
  address = codes "10.9.0.5/16";
  name = [];
  seq = pos 4;
  ts = pos 1;
  sig = [];
}

abbrev new_key : SignedProvision
new_key = record {
  pub_key = codes "BQ";
  address = codes "10.9.0.5";
  name = [];
  seq = pos 9;
  ts = pos 2;
  sig = [];
}

abbrev moved : SignedProvision
moved = record {
  pub_key = codes "BQ";
  address = codes "10.9.0.6";
  name = [];
  seq = pos 12;
  ts = pos 3;
  sig = [];
}

abbrev empty : Store
empty = record { recs = []; addr_seq = [] }

-- The mask is no part of the address.
one_address : prov_addr_ip texts old_key ≡ prov_addr_ip texts new_key
unfolding prov_addr_ip strip_mask with_mask normalize_overlay_addr text_key
one_address = refl

new_key_stored : (put_locked texts 2 new_key empty).1 ≡ true
unfolding put_locked prov_addr_ip strip_mask with_mask normalize_overlay_addr text_key held_by_newer
    lookup
new_key_stored = refl

reassigned_for_good_example :
    let t = put_all texts ((2, moved) ∷ []) (put_locked texts 2 new_key empty).0 in
    put_locked texts 1 old_key t ≡ (t, false)
reassigned_for_good_example =
    reassigned_for_good texts 2 1 new_key old_key empty ((2, moved) ∷ [])
      (unfold prov_addr_ip strip_mask with_mask normalize_overlay_addr text_key in refl)
      (unfold int_lt in refl) new_key_stored one_address (unfold int_lt in refl)

put_all-OneOwner_example :
    Unique (put_all texts ((1, old_key) ∷ (2, new_key) ∷ (2, moved) ∷ []) empty).recs
    × OneOwner texts (put_all texts ((1, old_key) ∷ (2, new_key) ∷ (2, moved) ∷ []) empty).recs
put_all-OneOwner_example =
    put_all-OneOwner texts ((1, old_key) ∷ (2, new_key) ∷ (2, moved) ∷ []) empty tt
      (empty-OneOwner texts)

-- A store that earlier builds left with two keys on one address.
abbrev poisoned : Store
poisoned = record { recs = (1, old_key) ∷ (2, new_key) ∷ []; addr_seq = [] }

abbrev admin : Admin
admin = record { key_set = true; decode_base64 = some; verify = λ message sig. true }
