-- ===== src/Revocation/Store.antt =====
-- client/revocation.go: the lemmas on the records of the store, a node's own operations and a restart.
use apgo.Prelude.{
  Bool, true, false, not, ◌&&◌, ◌||◌, List, [], ◌∷◌, Option, none, some, ◌==◌, ==_iff, ==_refl,
  if◌then◌else◌, Bool-cases, map, ◌≡◌, ◌⊎◌, inl, inr, refl, ap, arith, subst, ◌∙◌,
}
use apgo.Prelude.Maps.{Key, lookup, insert, Unique, lookup-insert, lookup-without}
use apgo.Prelude.Text.{
  Text, ℤ, int_lt, int_lt_irrefl, int_lt_trans, int_lt_trans_not, int_lt_connex,
}
use apgo.Gossip.{Versioned, put}
use apgo.Signed.{SignedRevocation, Admin, verify_revocation}
use apgo.Revocation.{
  StoredRev, RevStore, State, keeps, put_rev, apply_local, remove_local, loaded_key, load_one, load,
  is_revoke, is_revoked,
}

module _ (cur e : StoredRev) where
  -- A record replaces another one exactly when it is the only signed one of the two, or of the
  -- same kind and of a higher sequence number.
  pub keeps_iff : not (keeps cur e) ≡ (
      (e.is_signed && not cur.is_signed)
      || ((if e.is_signed then cur.is_signed else not cur.is_signed) && int_lt cur.seq e.seq))
  unfolding keeps
  keeps_iff = elim (Bool-cases cur.is_signed) [
    | inl s ↦ elim (Bool-cases e.is_signed) [
      | inl t ↦ rw (s, t) (ground arith)
      | inr t ↦ rw (s, t) refl
    ]
    | inr s ↦ elim (Bool-cases e.is_signed) [
      | inl t ↦ rw (s, t) refl
      | inr t ↦ rw (s, t) (ground arith)
    ]
  ]

abbrev pub supersedes_rev : StoredRev → StoredRev → Bool
supersedes_rev e cur = not (keeps cur e)

supersedes_rev_irrefl : (a : StoredRev) → supersedes_rev a a ≡ false
unfolding keeps
supersedes_rev_irrefl a = ground (arith, int_lt_irrefl a.seq)

supersedes_rev_trans :
    (a b c : StoredRev)
    → supersedes_rev a b ≡ true
    → supersedes_rev b c ≡ true
    → supersedes_rev a c ≡ true
unfolding keeps
supersedes_rev_trans a b c h g = ground (arith, int_lt_trans c.seq b.seq a.seq)

supersedes_rev_trans_not :
    (a b c : StoredRev)
    → supersedes_rev a b ≡ false
    → supersedes_rev b c ≡ false
    → supersedes_rev a c ≡ false
unfolding keeps
supersedes_rev_trans_not a b c h g = ground (arith, int_lt_trans_not c.seq b.seq a.seq)

instance pub versioned_rev : Versioned StoredRev
versioned_rev = record {
  supersedes = supersedes_rev;
  irrefl = supersedes_rev_irrefl;
  trans = supersedes_rev_trans;
  trans_not = supersedes_rev_trans_not;
}

-- Two signed records of which neither replaces the other have the same sequence number.
pub versioned_rev-connex :
    (a b : StoredRev)
    → a.is_signed ≡ true
    → b.is_signed ≡ true
    → versioned_rev.supersedes a b ≡ false
    → versioned_rev.supersedes b a ≡ false
    → a.seq ≡ b.seq
unfolding versioned_rev keeps
versioned_rev-connex a b s t h g =
    int_lt_connex a.seq b.seq (ground (arith, g, s, t)) (ground (arith, h, s, t))

-- The records after `put` are those of the gossip rule.
pub put_rev_recs :
    (resolve : Key → Key) (k : Key) (e : StoredRev) (s : State)
    → ((put_rev resolve k e s).0).recs ≡ put k e s.recs
unfolding put_rev put versioned_rev
put_rev_recs resolve k e s = at (lookup k s.recs) refl
  where
    at :
        (o : Option StoredRev)
        → lookup k s.recs ≡ o
        → ((put_rev resolve k e s).0).recs ≡ put k e s.recs
    at none h = rw (h, put_rev) refl
    at (some cur) h = elim (Bool-cases (keeps cur e)) [
      | inl old ↦ rw (h, put_rev, old) refl
      | inr new ↦ rw (h, put_rev, new) refl
    ]

-- What this node does on its own account: block or restore a peer, or accept it again.
pub data LocalOp : Type 0 where
  act : ℤ → ℤ → Text → Key → Text → LocalOp
  accept : Key → LocalOp

unfoldable pub local_step : (Key → Key) → LocalOp → State → State
local_step resolve (act nanos unix key_text k action) s =
    (apply_local resolve nanos unix key_text k action s).0
local_step resolve (accept k) s = (remove_local resolve k s).0

unfoldable pub local_run : (Key → Key) → List LocalOp → State → State
local_run resolve [] s = s
local_run resolve (o ∷ os) s = local_run resolve os (local_step resolve o s)

module _ (k : Key) (e : StoredRev) (h_signed : e.is_signed ≡ true) where
  refused :
      (resolve : Key → Key) (f : StoredRev) (s : State)
      → f.is_signed ≡ false
      → lookup k s.recs ≡ some e
      → (put_rev resolve k f s).0 ≡ s
  unfolding put_rev keeps
  refused resolve f s g h = rw (h, put_rev, h_signed, g) refl

  put_rev_other :
      (resolve : Key → Key) (j : Key) (f : StoredRev) (s : State)
      → (j == k) ≡ false
      → lookup k s.recs ≡ some e
      → lookup k ((put_rev resolve j f s).0).recs ≡ some e
  unfolding put
  put_rev_other resolve j f s ne h =
      ground (arith, put_rev_recs resolve j f s, lookup-insert j k f s.recs)

  remove_other :
      (resolve : Key → Key) (j : Key) (s : State) (o : Option StoredRev)
      → (j == k) ≡ false
      → lookup j s.recs ≡ o
      → lookup k s.recs ≡ some e
      → lookup k ((remove_local resolve j s).0).recs ≡ some e
  unfolding remove_local
  remove_other resolve j s none ne q h = rw (q, remove_local) h
  remove_other resolve j s (some cur) ne q h = elim (Bool-cases cur.is_signed) [
    | inl own ↦ rw (q, remove_local, own) h
    | inr local ↦ rw (q, remove_local, local) (lookup-without j k s.recs ∙ rw ne h)
  ]

  accept_signed :
      (resolve : Key → Key) (s : State)
      → lookup k s.recs ≡ some e
      → (remove_local resolve k s).0 ≡ s
  unfolding remove_local
  accept_signed resolve s h = rw (h, remove_local, h_signed) refl

  local_step-signed :
      (resolve : Key → Key) (o : LocalOp) (s : State)
      → lookup k s.recs ≡ some e
      → lookup k (local_step resolve o s).recs ≡ some e
  unfolding local_step apply_local
  local_step-signed resolve (act nanos unix key_text j action) s h = elim (Bool-cases (j == k)) [
    | inl same ↦ rw ((==_iff j k).0 same) (
        rw
          (refused resolve
            (record {
              pub_key = key_text;
              action = action;
              seq = nanos;
              ts = unix;
              is_signed = false;
              rec = none;
            })
            s refl h)
          h)
    | inr other ↦ put_rev_other resolve j _ s other h
  ]
  local_step-signed resolve (accept j) s h = elim (Bool-cases (j == k)) [
    | inl same ↦ rw ((==_iff j k).0 same, accept_signed resolve s h) h
    | inr other ↦ remove_other resolve j s (lookup j s.recs) other refl h
  ]

  -- A signed record survives whatever this node does on its own account: after any local
  -- revocations, restores and accepts of any peers, isRevoked of its key answers what the signed
  -- record says. This is of the records, not of the block list of overlay addresses.
  pub local_run-signed :
      (resolve : Key → Key) (os : List LocalOp) (s : State)
      → lookup k s.recs ≡ some e
      → is_revoked (local_run resolve os s).recs k ≡ is_revoke e.action
  unfolding local_run is_revoked
  local_run-signed resolve [] s h = rw (h, is_revoked) refl
  local_run-signed resolve (o ∷ os) s h =
      local_run-signed resolve os (local_step resolve o s) (local_step-signed resolve o s h)

-- The list that `save` writes.
abbrev pub entries : RevStore → List StoredRev
entries s = map (λ (x : Key × StoredRev). x.1) s

-- Every entry may be loaded, for the key it is stored under.
abbrev pub IsLoadable : Admin → RevStore → Type 0
IsLoadable a [] = Unit
IsLoadable a ((k, e) ∷ s) = (loaded_key a e ≡ some k) × IsLoadable a s

load_one-new :
    (a : Admin) (k : Key) (e : StoredRev) (s : RevStore)
    → loaded_key a e ≡ some k
    → lookup k s ≡ none
    → load_one a e s ≡ insert k e s
unfolding load_one
load_one-new a k e s h g = rw (load_one, h, g) refl

or_else : Option StoredRev → Option StoredRev → Option StoredRev
or_else none p = p
or_else (some e) p = some e

load-entries_from :
    (a : Admin) (j : Key) (m s : RevStore)
    → Unique m
    → IsLoadable a m
    → ((i : Key) → lookup i m ≡ none ⊎ lookup i s ≡ none)
    → lookup j (load a (entries m) s) ≡ or_else (lookup j m) (lookup j s)
unfolding load lookup or_else
load-entries_from a j [] s u f d = refl
load-entries_from a j ((k, e) ∷ m) s u f d =
    ap (λ t. lookup j (load a (entries m) t)) (load_one-new a k e s f.0 fresh)
    ∙ load-entries_from a j m (insert k e s) u.1 f.1 apart
    ∙ ground (arith, lookup-insert k j e s, u.0)
  where
    fresh : lookup k s ≡ none
    fresh = elim (d k) [ inl h ↦ absurd (ground (arith, ==_refl k)) | inr h ↦ h ]

    apart : (i : Key) → lookup i m ≡ none ⊎ lookup i (insert k e s) ≡ none
    apart i = elim (Bool-cases (k == i)) [
      | inl same ↦ inl (subst (λ z. lookup z m ≡ none) ((==_iff k i).0 same) u.0)
      | inr other ↦ elim (d i) [
        | inl h ↦ inl (ground (arith, h))
        | inr h ↦ inr (lookup-insert k i e s ∙ rw other h)
      ]
    ]

-- A restart keeps the store: loading the list that `save` wrote into an empty store gives every
-- key the entry it had, when each entry verifies under the admin key for the key it is kept at.
pub load-entries :
    (a : Admin) (j : Key) (m : RevStore)
    → Unique m
    → IsLoadable a m
    → lookup j (load a (entries m) []) ≡ lookup j m
unfolding lookup or_else
load-entries a j m u f = load-entries_from a j m [] u f (λ i. inr refl) ∙ at (lookup j m)
  where
    at : (o : Option StoredRev) → or_else o none ≡ o
    at none = refl
    at (some e) = refl

-- Whether an entry that is loaded as signed blocks its peer is read from the entry's own action,
-- not from the signed record in it: no action that was edited on disk is noticed.
pub load_one_trusts_action :
    (a : Admin) (r : SignedRevocation) (action key_text : Text) (seq ts : ℤ) (k : Key)
    → verify_revocation a r ≡ some k
    → is_revoked
        (load_one a
          (record {
            pub_key = key_text;
            action = action;
            seq = seq;
            ts = ts;
            is_signed = true;
            rec = some r;
          })
          [])
        k
      ≡ is_revoke action
unfolding load_one loaded_key is_revoked lookup insert
load_one_trusts_action a r action key_text seq ts k h =
    ap (λ (t : RevStore). is_revoked t k)
      (load_one-new a k
        (record {
          pub_key = key_text;
          action = action;
          seq = seq;
          ts = ts;
          is_signed = true;
          rec = some r;
        })
        [] h refl)
    ∙ rw (==_refl k, is_revoked) refl
