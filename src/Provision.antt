-- ===== src/Provision.antt =====
-- client/provstore.go: the store of signed address assignments and its ledger of the newest
-- sequence for each address. An address text is a map key by `text_key`, with "" as 0.
-- strings.TrimSpace and the mask length in force are parameters (`Texts`).
pub mod Ledger
pub mod Owners
mod Tests
use apgo.Prelude.{
  ℕ, suc, ◌+◌, ◌*◌, Bool, true, false, not, ◌&&◌, ◌||◌, List, [], ◌∷◌, ◌++◌, Option, none, some,
  ◌==◌, if◌then◌else◌,
}
use apgo.Prelude.Maps.{Key, Assoc, lookup, insert, retain}
use apgo.Prelude.Text.{Text, text_key, ℤ, pos, int_lt}
use apgo.Signed.{SignedProvision, Admin, verify_provision}

pub record Texts : Type 0 where
  pub trim_space : Text → Text
  pub mask_text : Text

abbrev pub contains_slash : Text → Bool
contains_slash [] = false
contains_slash (c ∷ s) = c == b'/' || contains_slash s

-- `stripMask`
unfoldable pub strip_mask : Text → Text
strip_mask [] = []
strip_mask (c ∷ s) = let rest = strip_mask s in if c == b'/' then [] else c ∷ rest

unfoldable pub with_mask : Texts → Text → Text
with_mask e [] = []
with_mask e (c ∷ s) = if contains_slash (c ∷ s) then c ∷ s else c ∷ (s ++ (b'/' ∷ e.mask_text))

unfoldable pub normalize_overlay_addr : Texts → Text → Text
normalize_overlay_addr e a = with_mask e (e.trim_space a)

unfoldable pub prov_addr_ip : Texts → SignedProvision → Key
prov_addr_ip e rec = elim rec.address [
  | [] ↦ 0
  | c ∷ s ↦ text_key (strip_mask (normalize_overlay_addr e rec.address))
]

pub record Store : Type 0 where
  pub recs : Assoc SignedProvision
  pub addr_seq : Assoc ℤ

-- `s.addrSeq[ip]`, 0 for a missing key.
abbrev pub ledger_seq : Key → Assoc ℤ → ℤ
ledger_seq ip m = elim (lookup ip m) [ none ↦ pos 0 | some n ↦ n ]

-- `best, ok := s.addrSeq[ip]; ok && rec.Seq < best`
abbrev pub reassigned : Option ℤ → ℤ → Bool
reassigned none seq = false
reassigned (some best) seq = int_lt seq best

-- The loop that looks for a newer record of another key for the address.
unfoldable pub held_by_newer : Texts → Key → Key → ℤ → Assoc SignedProvision → Bool
held_by_newer e ip pub_key seq [] = false
held_by_newer e ip pub_key seq ((k, other) ∷ m) =
    (not (k == pub_key) && (prov_addr_ip e other == ip) && int_lt seq other.seq)
    || held_by_newer e ip pub_key seq m

-- What the loop that retires older records keeps.
unfoldable pub stays : Texts → Key → Key → ℤ → Key → SignedProvision → Bool
stays e ip pub_key seq k other =
    not (not (k == pub_key) && (prov_addr_ip e other == ip) && int_lt other.seq seq)

abbrev pub superseded : Option SignedProvision → SignedProvision → Bool
superseded none rec = false
superseded (some cur) rec = not (int_lt cur.seq rec.seq)

abbrev pub raise_ledger : Key → ℤ → Assoc ℤ → Assoc ℤ
raise_ledger ip seq m = if int_lt (ledger_seq ip m) seq then insert ip seq m else m

-- `putLocked`, less the fingerprints of the retired keys.
unfoldable pub put_locked : Texts → Key → SignedProvision → Store → Store × Bool
put_locked e pub_key rec s =
    let ip = prov_addr_ip e rec in
    if superseded (lookup pub_key s.recs) rec
    then (s, false)
    else if ip == 0
    then (record s { recs = insert pub_key rec s.recs }, true)
    else if reassigned (lookup ip s.addr_seq) rec.seq
    then (s, false)
    else if held_by_newer e ip pub_key rec.seq s.recs
    then (s, false)
    else (
      record {
        recs = retain (stays e ip pub_key rec.seq) (insert pub_key rec s.recs);
        addr_seq = raise_ledger ip rec.seq s.addr_seq;
      },
      true,
    )

unfoldable pub owns_address : Texts → Key → Key → Store → Bool
owns_address e pub_key ip s = elim (lookup pub_key s.recs) [
  | none ↦ false
  | some rec ↦ (prov_addr_ip e rec == ip) && not (int_lt rec.seq (ledger_seq ip s.addr_seq))
]

-- The insertion sort of `load` and `pruneSupersededAddresses`: oldest first, stable.
unfoldable pub insert_by_seq :
    Key × SignedProvision → List (Key × SignedProvision) → List (Key × SignedProvision)
insert_by_seq x [] = x ∷ []
insert_by_seq x (y ∷ ys) =
    let rest = insert_by_seq x ys in if int_lt (x.1).seq (y.1).seq then x ∷ y ∷ ys else y ∷ rest

unfoldable pub sort_by_seq :
    List (Key × SignedProvision) → List (Key × SignedProvision) → List (Key × SignedProvision)
sort_by_seq done [] = done
sort_by_seq done (x ∷ xs) = sort_by_seq (insert_by_seq x done) xs

unfoldable pub put_all : Texts → List (Key × SignedProvision) → Store → Store
put_all e [] s = s
put_all e ((k, rec) ∷ xs) s = put_all e xs (put_locked e k rec s).0

unfoldable pub prune_superseded : Texts → Store → Store
prune_superseded e s = put_all e (sort_by_seq [] s.recs) (record s { recs = [] })

-- The loop that merges the saved ledger.
unfoldable pub merge_ledger : Assoc ℤ → Assoc ℤ → Assoc ℤ
merge_ledger [] m = m
merge_ledger ((ip, seq) ∷ l) m = merge_ledger l (raise_ledger ip seq m)

abbrev pub with_key :
    Option Key → SignedProvision → List (Key × SignedProvision) → List (Key × SignedProvision)
with_key none rec l = l
with_key (some k) rec l = (k, rec) ∷ l

unfoldable pub verified : Admin → List SignedProvision → List (Key × SignedProvision)
verified a [] = []
verified a (rec ∷ recs) = with_key (verify_provision a rec) rec (verified a recs)

-- `load`, on what the two files decode to; names and logs are left out.
unfoldable pub load_provisions : Admin → Texts → Assoc ℤ → List SignedProvision → Store → Store
load_provisions a e ledger list s =
    put_all e (sort_by_seq [] (verified a list))
      (record s { addr_seq = merge_ledger ledger s.addr_seq })
