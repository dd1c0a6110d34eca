-- ===== src/Revocation/Blocks.antt =====
-- The block list of overlay addresses: what a revocation blocks and what a restore clears.
use apgo.Prelude.{
  true, false, none, some, ◌==◌, ==_refl, if◌then◌else◌, Bool-cases, ◌≡◌, inl, inr, refl, arith,
  ◌∙◌,
}
use apgo.Prelude.Maps.{Key, lookup, insert, lookup-insert, lookup-without}
use apgo.Revocation.{Blocked, set_key_revoked, is_overlay_ip_revoked}

module _ (resolve : Key → Key) (k : Key) (h_known : (resolve k == 0) ≡ false) where
  set_key_revoked_known :
      (b : Blocked)
      → set_key_revoked resolve k true b ≡ record {
        ip_by_key = insert k (resolve k) b.ip_by_key;
        ip_set = insert (resolve k) true b.ip_set;
      }
  unfolding set_key_revoked
  set_key_revoked_known b = rw h_known refl

  -- Revoking a key blocks the address that the resolver gives for it.
  pub set_key_revoked-blocks :
      (b : Blocked) → is_overlay_ip_revoked (set_key_revoked resolve k true b) (resolve k) ≡ true
  unfolding is_overlay_ip_revoked
  set_key_revoked-blocks b = rw (set_key_revoked_known b) (
      ground
        (arith, h_known, lookup-insert (resolve k) (resolve k) true b.ip_set, ==_refl (resolve k)))

  set_key_revoked-remembers :
      (b : Blocked) → lookup k (set_key_revoked resolve k true b).ip_by_key ≡ some (resolve k)
  set_key_revoked-remembers b =
      rw (set_key_revoked_known b)
        (ground (arith, lookup-insert k k (resolve k) b.ip_by_key, ==_refl k))

-- The address that restoring a key clears is the one remembered for it, and no other.
is_overlay_ip_revoked-restore :
    (resolve : Key → Key) (k ip j : Key) (b : Blocked)
    → lookup k b.ip_by_key ≡ some ip
    → is_overlay_ip_revoked (set_key_revoked resolve k false b) j
      ≡ (if ip == j then false else is_overlay_ip_revoked b j)
unfolding set_key_revoked is_overlay_ip_revoked
is_overlay_ip_revoked-restore resolve k ip j b h =
    rw (set_key_revoked, h)
      (elim (Bool-cases (ip == j)) [
        | inl same ↦ ground (arith, lookup-without ip j b.ip_set)
        | inr other ↦ ground (arith, lookup-without ip j b.ip_set)
      ])

is_overlay_ip_revoked-stays :
    (resolve : Key → Key) (k j : Key) (b : Blocked)
    → is_overlay_ip_revoked b j ≡ true
    → is_overlay_ip_revoked (set_key_revoked resolve k true b) j ≡ true
unfolding set_key_revoked is_overlay_ip_revoked
is_overlay_ip_revoked-stays resolve k j b h = elim (Bool-cases (resolve k == 0)) [
  | inl unknown ↦ rw (set_key_revoked, unknown) h
  | inr known ↦
      rw (set_key_revoked, known) (ground (arith, h, lookup-insert (resolve k) j true b.ip_set))
]

-- Restoring a key after it was revoked, with the same answer of the resolver, clears the address
-- that the revocation blocked, whatever was blocked before.
pub revoke-restore_clears :
    (resolve : Key → Key) (k : Key) (b : Blocked)
    → (resolve k == 0) ≡ false
    → is_overlay_ip_revoked
        (set_key_revoked resolve k false (set_key_revoked resolve k true b))
        (resolve k)
      ≡ false
revoke-restore_clears resolve k b h =
    is_overlay_ip_revoked-restore resolve k (resolve k) (resolve k)
      (set_key_revoked resolve k true b) (set_key_revoked-remembers resolve k h b)
    ∙ rw (==_refl (resolve k)) refl

-- When a key is revoked twice and the resolver gives another address the second time, restoring
-- the key leaves the first address blocked, and the key is not remembered any more, so no further
-- restore clears it.
pub restore_leaves_first_address :
    (before after : Key → Key) (k : Key) (b : Blocked)
    → (before k == 0) ≡ false
    → (after k == 0) ≡ false
    → (after k == before k) ≡ false
    → (is_overlay_ip_revoked
          (set_key_revoked after k false
            (set_key_revoked after k true (set_key_revoked before k true b)))
          (before k)
        ≡ true)
      × (lookup k
            (set_key_revoked after k false
              (set_key_revoked after k true (set_key_revoked before k true b))).ip_by_key
          ≡ none)
unfolding set_key_revoked lookup
restore_leaves_first_address before after k b h g ne =
    let c = set_key_revoked before k true b in
    (
      is_overlay_ip_revoked-restore after k (after k) (before k) (set_key_revoked after k true c)
            (set_key_revoked-remembers after k g c)
          ∙ rw ne (
              is_overlay_ip_revoked-stays after k (before k) c
                (set_key_revoked-blocks before k h b)),
      forgets (set_key_revoked after k true c) (set_key_revoked-remembers after k g c),
    )
  where
    forgets :
        (c : Blocked)
        → lookup k c.ip_by_key ≡ some (after k)
        → lookup k (set_key_revoked after k false c).ip_by_key ≡ none
    forgets c q = rw (set_key_revoked, q) (lookup-without k k c.ip_by_key ∙ rw (==_refl k) refl)

-- The address that a restored key was blocked at, of which another revoked key is remembered too.
restored_beside :
    (resolve : Key → Key) (k j : Key) (b : Blocked)
    → (resolve k == 0) ≡ false
    → (resolve j == 0) ≡ false
    → (j == k) ≡ false
    → lookup k
        (set_key_revoked resolve j false
          (set_key_revoked resolve j true (set_key_revoked resolve k true b))).ip_by_key
      ≡ some (resolve k)
unfolding set_key_revoked
restored_beside resolve k j b g h ne =
    let c = set_key_revoked resolve k true b in
    let d = set_key_revoked resolve j true c in
    rw (set_key_revoked, set_key_revoked-remembers resolve j h c)
      (lookup-without j k d.ip_by_key
        ∙ rw (ne, set_key_revoked_known resolve j h c)
            (lookup-insert j k (resolve j) c.ip_by_key
              ∙ rw ne (set_key_revoked-remembers resolve k g b)))

-- When two keys that the resolver gives one address for are revoked and one of them is restored, the
-- address is not blocked any more, although the other key is still remembered as blocked at it.
pub restore_unblocks_shared :
    (resolve : Key → Key) (k j : Key) (b : Blocked)
    → (resolve k == 0) ≡ false
    → (resolve j == resolve k) ≡ true
    → (j == k) ≡ false
    → (is_overlay_ip_revoked
          (set_key_revoked resolve j false
            (set_key_revoked resolve j true (set_key_revoked resolve k true b)))
          (resolve k)
        ≡ false)
      × (lookup k
            (set_key_revoked resolve j false
              (set_key_revoked resolve j true (set_key_revoked resolve k true b))).ip_by_key
          ≡ some (resolve k))
restore_unblocks_shared resolve k j b known same ne =
    let c = set_key_revoked resolve k true b in
    let known_j : (resolve j == 0) ≡ false = ground (arith, known, same) in
    (
      is_overlay_ip_revoked-restore resolve j (resolve j) (resolve k)
            (set_key_revoked resolve j true c) (set_key_revoked-remembers resolve j known_j c)
          ∙ rw same refl,
      restored_beside resolve k j b known known_j ne,
    )
