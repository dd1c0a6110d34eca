-- ===== src/Revocation/Tests.antt =====
-- Revocations of one peer, on concrete records.
use apgo.Prelude.{
  true, false, List, [], ◌∷◌, none, some, ◌==◌, replicate, length, ◌≡◌, ◌⊎◌, inl, inr, refl, sym,
  ap, arith, ◌∙◌,
}
use apgo.Prelude.Maps.{Key, lookup}
use apgo.Prelude.Text.{Text, codes, pos, be_value, text_eq}
use apgo.Gossip.Pairs.{In-pair, In-swapped}
use apgo.Signed.{SignedRevocation, Admin, verify_revocation}
use apgo.Revocation.{
  RevStore, Blocked, stored_signed, is_revoke, is_revoked, load_one, set_key_revoked,
  is_overlay_ip_revoked,
}
use apgo.Revocation.Store.{act, accept, local_run, local_run-signed, load_one_trusts_action}
use apgo.Revocation.Blocks.{restore_leaves_first_address, restore_unblocks_shared}
use apgo.Revocation.Converge.{flood, frames, OneForEachSeq, revocations_converge}

-- base64 is the identity, and every signature of one byte verifies.
abbrev admin : Admin
admin = record { key_set = true; decode_base64 = some; verify = λ message sig. length sig == 1 }

abbrev key_text : Text
key_text = 9 ∷ replicate 31 0

abbrev peer : Key
peer = be_value key_text 0

abbrev revoke : SignedRevocation
revoke = record {
  action = codes "revoke";
  pub_key = key_text;
  seq = pos 1;
  ts = pos 5;
  sig = 1 ∷ [];
}

abbrev restore : SignedRevocation
restore = record {
  action = codes "restore";
  pub_key = key_text;
  seq = pos 2;
  ts = pos 6;
  sig = 2 ∷ [];
}

revoke_verifies : verify_revocation admin revoke ≡ some peer
unfolding verify_revocation text_eq
revoke_verifies = refl

abbrev store : RevStore
store = (peer, stored_signed revoke) ∷ []

abbrev no_blocks : Blocked
no_blocks = record { ip_set = []; ip_by_key = [] }

abbrev address : Key → Key
address k = 77

local_run-signed_example :
    is_revoked
      (local_run address
        (act (pos 9) (pos 9) key_text peer (codes "restore") ∷ accept peer ∷ [])
        (record { recs = store; blocked = no_blocks })).recs
      peer
    ≡ is_revoke (codes "revoke")
unfolding be_value
local_run-signed_example =
    local_run-signed peer (stored_signed revoke) refl address
      (act (pos 9) (pos 9) key_text peer (codes "restore") ∷ accept peer ∷ [])
      (record { recs = store; blocked = no_blocks }) (unfold lookup in refl)

-- The record revokes, and the entry around it says `restore`.
load_one_trusts_action_example :
    is_revoked
      (load_one admin
        (record {
          pub_key = key_text;
          action = codes "restore";
          seq = pos 1;
          ts = pos 5;
          is_signed = true;
          rec = some revoke;
        })
        [])
      peer
    ≡ is_revoke (codes "restore")
load_one_trusts_action_example =
    load_one_trusts_action admin revoke (codes "restore") key_text (pos 1) (pos 5) peer
      revoke_verifies

abbrev moved : Key → Key
moved k = 88

restore_leaves_first_address_example :
    (is_overlay_ip_revoked
        (set_key_revoked moved peer false
          (set_key_revoked moved peer true (set_key_revoked address peer true no_blocks)))
        77
      ≡ true)
    × (lookup peer
          (set_key_revoked moved peer false (
            set_key_revoked moved peer true
              (set_key_revoked address peer true no_blocks))).ip_by_key
        ≡ none)
restore_leaves_first_address_example =
    restore_leaves_first_address address moved peer no_blocks refl refl refl

abbrev in_order : List ((Key → Key) × SignedRevocation)
in_order = (address, revoke) ∷ (address, restore) ∷ []

abbrev reordered : List ((Key → Key) × SignedRevocation)
reordered = (moved, restore) ∷ (address, revoke) ∷ (moved, revoke) ∷ []

one_for_each_seq : OneForEachSeq admin (frames in_order) peer
one_for_each_seq q r i j v w e = at (In-pair q revoke restore i) (In-pair r revoke restore j)
  where
    at : (q ≡ revoke) ⊎ (q ≡ restore) → (r ≡ revoke) ⊎ (r ≡ restore) → q ≡ r
    at (inl a) (inl b) = a ∙ sym b
    at (inr a) (inr b) = a ∙ sym b
    at (inl a) (inr b) = absurd (
        ground (
          arith,
          e,
          ap (λ (x : SignedRevocation). x.seq) a,
          ap (λ (x : SignedRevocation). x.seq) b,
        ))
    at (inr a) (inl b) = absurd (
        ground (
          arith,
          e,
          ap (λ (x : SignedRevocation). x.seq) a,
          ap (λ (x : SignedRevocation). x.seq) b,
        ))

revocations_converge_example :
    is_revoked (flood admin in_order (record { recs = []; blocked = no_blocks })).recs peer
    ≡ is_revoked (flood admin reordered (record { recs = []; blocked = no_blocks })).recs peer
revocations_converge_example =
    revocations_converge admin in_order reordered peer no_blocks no_blocks one_for_each_seq
      (λ r. In-swapped r revoke restore)

restore_unblocks_shared_example :
    (is_overlay_ip_revoked
        (set_key_revoked moved 6 false
          (set_key_revoked moved 6 true (set_key_revoked moved 5 true no_blocks)))
        88
      ≡ false)
    × (lookup 5
          (set_key_revoked moved 6 false
            (set_key_revoked moved 6 true (set_key_revoked moved 5 true no_blocks))).ip_by_key
        ≡ some 88)
restore_unblocks_shared_example = restore_unblocks_shared moved 5 6 no_blocks refl refl refl
