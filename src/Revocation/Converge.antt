-- ===== src/Revocation/Converge.antt =====
-- client/revocation.go: the lemmas on what two nodes enforce after the same gossip.
use apgo.Prelude.{
  false, Option, none, some, List, [], ◌∷◌, ◌≡◌, refl, sym, ap, ◌∙◌, Bool-cases, inl, inr,
}
use apgo.Prelude.Maps.{Key, lookup}
use apgo.Gossip.{put, receive_all}
use apgo.Gossip.Converge.{In}
use apgo.Gossip.Flood.{accepted, SameRecords, OneForEachVersion, accepted_converge}
use apgo.Signed.{SignedRevocation, Admin, verify_revocation}
use apgo.Revocation.{
  StoredRev, State, Blocked, stored_signed, put_rev, apply_signed, handle_gossip, is_revoked,
  is_revoke,
}
use apgo.Revocation.Store.{versioned_rev, versioned_rev-connex, put_rev_recs}

-- The revocation frames in the order in which a node receives them, each with what the resolver
-- answers at that moment.
unfoldable pub flood : Admin → List ((Key → Key) × SignedRevocation) → State → State
flood a [] s = s
flood a ((resolve, r) ∷ rs) s = flood a rs (handle_gossip a resolve r s).0

abbrev pub frames : List ((Key → Key) × SignedRevocation) → List SignedRevocation
frames [] = []
frames ((resolve, r) ∷ rs) = r ∷ frames rs

handle_gossip_recs :
    (a : Admin) (resolve : Key → Key) (r : SignedRevocation) (s : State) (o : Option Key)
    → verify_revocation a r ≡ o
    → (handle_gossip a resolve r s).0.recs
      ≡ elim o [ none ↦ s.recs | some k ↦ put k (stored_signed r) s.recs ]
unfolding handle_gossip apply_signed
handle_gossip_recs a resolve r s none h = rw (h, handle_gossip) refl
handle_gossip_recs a resolve r s (some k) h =
    elim (Bool-cases (put_rev resolve k (stored_signed r) s).2) [
      | inl blocks ↦ rw (h, handle_gossip, blocks) (put_rev_recs resolve k (stored_signed r) s)
      | inr clears ↦ rw (h, handle_gossip, clears) (put_rev_recs resolve k (stored_signed r) s)
    ]

flood_recs :
    (a : Admin) (rs : List ((Key → Key) × SignedRevocation)) (s : State)
    → (flood a rs s).recs
      ≡ receive_all (accepted (verify_revocation a) stored_signed (frames rs)) s.recs
unfolding flood accepted receive_all
flood_recs a [] s = refl
flood_recs a ((resolve, r) ∷ rs) s =
    flood_recs a rs (handle_gossip a resolve r s).0 ∙ at (verify_revocation a r) refl
  where
    at :
        (o : Option Key)
        → verify_revocation a r ≡ o
        → receive_all
            (accepted (verify_revocation a) stored_signed (frames rs))
            (handle_gossip a resolve r s).0.recs
          ≡ receive_all (accepted (verify_revocation a) stored_signed (r ∷ frames rs)) s.recs
    at none h = rw h (
        ap (receive_all (accepted (verify_revocation a) stored_signed (frames rs)))
          (handle_gossip_recs a resolve r s none h))
    at (some k) h = rw h (
        ap (receive_all (accepted (verify_revocation a) stored_signed (frames rs)))
          (handle_gossip_recs a resolve r s (some k) h))

-- No two different records for the key that verify have the same sequence number.
abbrev pub OneForEachSeq : Admin → List SignedRevocation → Key → Type 0
OneForEachSeq a rs k =
    (q r : SignedRevocation)
    → In q rs
    → In r rs
    → verify_revocation a q ≡ some k
    → verify_revocation a r ≡ some k
    → q.seq ≡ r.seq
    → q ≡ r

OneForEachVersion-rev :
    (a : Admin) (rs : List SignedRevocation) (k : Key)
    → OneForEachSeq a rs k
    → OneForEachVersion (verify_revocation a) stored_signed rs k
OneForEachVersion-rev a rs k one q r i j v w x y =
    one q r i j v w (versioned_rev-connex (stored_signed q) (stored_signed r) refl refl x y)

-- Two nodes that start with no record and receive the same revocation frames, forged ones
-- included, agree on whether the key is revoked in their stores, whatever the order, the repetitions
-- and the answers of their resolvers, when no two different valid records for the key share a
-- sequence number. This is isRevoked of the records, not the block list of overlay addresses.
pub revocations_converge :
    (a : Admin) (rs qs : List ((Key → Key) × SignedRevocation)) (k : Key) (b c : Blocked)
    → OneForEachSeq a (frames rs) k
    → SameRecords (verify_revocation a) stored_signed (frames rs) (frames qs)
    → is_revoked (flood a rs (record { recs = []; blocked = b })).recs k
      ≡ is_revoked (flood a qs (record { recs = []; blocked = c })).recs k
unfolding is_revoked
revocations_converge a rs qs k b c one same =
    ap (λ (o : Option StoredRev). elim o [ none ↦ false | some r ↦ is_revoke r.action ])
      (ap (lookup k) (flood_recs a rs (record { recs = []; blocked = b }))
        ∙ accepted_converge (verify_revocation a) stored_signed (frames rs) (frames qs) k
            (OneForEachVersion-rev a (frames rs) k one) same
        ∙ sym (ap (lookup k) (flood_recs a qs (record { recs = []; blocked = c }))))
