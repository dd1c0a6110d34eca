-- ===== src/Revocation.antt =====
-- client/revocation.go: the store of signed and local revocations (revStore) and the data-plane
-- block list of overlay addresses (revokedIPSet, revokedIPByKey).
-- resolvePeerIP is a parameter of each call: what the resolver answers at that moment, 0 for "".
-- The JSON file behind save and load is left out: `load` takes the list that was decoded.
pub mod Store
pub mod Blocks
pub mod Converge
mod Tests
use apgo.Prelude.{
  ℕ, Bool, true, false, not, ◌&&◌, ◌||◌, List, [], ◌∷◌, Option, none, some, ◌==◌, if◌then◌else◌,
}
use apgo.Prelude.Maps.{Key, Assoc, lookup, insert, without}
use apgo.Prelude.Text.{Text, codes, text_eq, ℤ, int_lt}
use apgo.Signed.{SignedRevocation, Admin, verify_revocation, key_of}

pub record StoredRev : Type 0 where
  pub pub_key : Text
  pub action : Text
  pub seq : ℤ
  pub ts : ℤ
  pub is_signed : Bool
  pub rec : Option SignedRevocation

abbrev pub RevStore : Type 0
RevStore = Assoc StoredRev

-- revokedIPSet and revokedIPByKey.
pub record Blocked : Type 0 where
  pub ip_set : Assoc Bool
  pub ip_by_key : Assoc Key

pub record State : Type 0 where
  pub recs : RevStore
  pub blocked : Blocked

abbrev pub is_revoke : Text → Bool
is_revoke action = text_eq action (codes "revoke")

unfoldable pub is_revoked : RevStore → Key → Bool
is_revoked s k = elim (lookup k s) [ none ↦ false | some r ↦ is_revoke r.action ]

unfoldable pub set_key_revoked : (Key → Key) → Key → Bool → Blocked → Blocked
set_key_revoked resolve k true b =
    let ip = resolve k in
    if ip == 0
    then b
    else record { ip_by_key = insert k ip b.ip_by_key; ip_set = insert ip true b.ip_set }
set_key_revoked resolve k false b = elim (lookup k b.ip_by_key) [
  | none ↦ b
  | some ip ↦ record { ip_set = without ip b.ip_set; ip_by_key = without k b.ip_by_key }
]

unfoldable pub is_overlay_ip_revoked : Blocked → Key → Bool
is_overlay_ip_revoked b ip =
    if ip == 0 then false else (elim (lookup ip b.ip_set) [ none ↦ false | some v ↦ v ])

-- The two refusals of `put`, at the entry that is held.
unfoldable pub keeps : StoredRev → StoredRev → Bool
keeps cur e =
    (cur.is_signed && not e.is_signed)
    || ((if cur.is_signed then e.is_signed else not e.is_signed) && not (int_lt cur.seq e.seq))

-- The entry that makes `put` return early, if one does.
abbrev pub refusing : Option StoredRev → StoredRev → Option StoredRev
refusing none e = none
refusing (some cur) e = if keeps cur e then some cur else none

-- `put`: the new state, `changed`, `nowRevoked`.
unfoldable pub put_rev : (Key → Key) → Key → StoredRev → State → State × Bool × Bool
put_rev resolve k e s = elim (refusing (lookup k s.recs) e) [
  | some cur ↦ (s, false, is_revoke cur.action)
  | none ↦ (
    record {
      recs = insert k e s.recs;
      blocked = set_key_revoked resolve k (is_revoke e.action) s.blocked;
    },
    true,
    is_revoke e.action,
  )
]

abbrev pub stored_signed : SignedRevocation → StoredRev
stored_signed r = record {
  pub_key = r.pub_key;
  action = r.action;
  seq = r.seq;
  ts = r.ts;
  is_signed = true;
  rec = some r;
}

unfoldable pub apply_signed : (Key → Key) → SignedRevocation → Key → State → State × Bool × Bool
apply_signed resolve r k s = put_rev resolve k (stored_signed r) s

-- The clock's two readings and the base64 text of the key are arguments.
unfoldable pub apply_local : (Key → Key) → ℤ → ℤ → Text → Key → Text → State → State × Bool × Bool
apply_local resolve now_nanos now_unix key_text k action s =
    put_rev resolve k
      (record {
        pub_key = key_text;
        action = action;
        seq = now_nanos;
        ts = now_unix;
        is_signed = false;
        rec = none;
      })
      s

unfoldable pub remove_local : (Key → Key) → Key → State → State × Bool
remove_local resolve k s = elim (lookup k s.recs) [
  | none ↦ (s, false)
  | some cur ↦ if cur.is_signed then (s, false) else (
    record { recs = without k s.recs; blocked = set_key_revoked resolve k false s.blocked },
    true,
  )
]

-- The key that a persisted entry belongs to, when it may be loaded.
unfoldable pub loaded_key : Admin → StoredRev → Option Key
loaded_key a e =
    if e.is_signed
    then (elim e.rec [ none ↦ none | some r ↦ verify_revocation a r ])
    else key_of (a.decode_base64 e.pub_key)

-- The condition of `load`, at the entry that is held.
abbrev pub load_takes : Option StoredRev → StoredRev → Bool
load_takes none e = true
load_takes (some cur) e =
    (e.is_signed && not cur.is_signed)
    || ((if e.is_signed then cur.is_signed else not cur.is_signed) && int_lt cur.seq e.seq)

unfoldable pub load_one : Admin → StoredRev → RevStore → RevStore
unfolding loaded_key
load_one a e s = elim (loaded_key a e) [
  | none ↦ s
  | some k ↦ if load_takes (lookup k s) e then insert k e s else s
]

unfoldable pub load : Admin → List StoredRev → RevStore → RevStore
load a [] s = s
load a (e ∷ es) s = load a es (load_one a e s)

-- handleRevocationGossip, up to the teardown of the peer's sessions: the state and the key whose
-- sessions are torn down. RevokeByKey blocks the address again.
unfoldable pub handle_gossip : Admin → (Key → Key) → SignedRevocation → State → State × Option Key
handle_gossip a resolve rec s = elim (verify_revocation a rec) [
  | none ↦ (s, none)
  | some k ↦
      let (t, changed, now_revoked) = apply_signed resolve rec k s in
      if now_revoked
      then (record t { blocked = set_key_revoked resolve k true t.blocked }, some k)
      else (t, none)
]
