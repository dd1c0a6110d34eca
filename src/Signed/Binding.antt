-- ===== src/Signed/Binding.antt =====
-- What a signature binds: which records can share their signed bytes.
use mathlib.Core.List.{append_assoc}
use apgo.Prelude.{suc, get_or, List, [], ◌∷◌, ◌++◌, All, ◌≡◌, ◌≢◌, refl, sym, ap, arith}
use apgo.Prelude.Text.{
  Text, codes, ℤ, pos, negsuc, print_int, print_nat, print_nat-AreDigits, AreDigits,
  parse_int-print_int, parse_int, IsInt64,
}
use apgo.Signed.{
  join_bar, canonical_revocation, canonical_approval, canonical_policy, canonical_provision,
  SignedApproval, SignedPolicy, SignedProvision,
}

-- A text with no bar in it, such as base64.
abbrev pub NoBar : Text → Type 0
NoBar = All (λ c. c ≢ b'|')

split_bar :
    (x y s t : Text) → NoBar x → NoBar y → x ++ (b'|' ∷ s) ≡ y ++ (b'|' ∷ t) → (x ≡ y) × (s ≡ t)
split_bar [] [] s t p q e = ground arith
split_bar [] (b ∷ y) s t p q e = absurd (q.0 (ground arith))
split_bar (a ∷ x) [] s t p q e = absurd (p.0 (ground arith))
split_bar (a ∷ x) (b ∷ y) s t p q e =
    let (f, g) = split_bar x y s t p.1 q.1 (ground arith) in (ground arith, g)

bar_inside : (x y t : Text) → NoBar x → x ≡ y ++ (b'|' ∷ t) → ⊥
bar_inside [] [] t p e = cc
bar_inside [] (b ∷ y) t p e = cc
bar_inside (a ∷ x) [] t p e = p.0 (ground arith)
bar_inside (a ∷ x) (b ∷ y) t p e = bar_inside x y t p.1 (ground arith)

-- Fields without bars can be read off the joined text.
join_bar_injective :
    (x y : Text) (xs ys : List Text)
    → NoBar x
    → NoBar y
    → All NoBar xs
    → All NoBar ys
    → join_bar x xs ≡ join_bar y ys
    → (x ≡ y) × (xs ≡ ys)
unfolding join_bar
join_bar_injective x y [] [] p q ps qs e = (e, refl)
join_bar_injective x y [] (b ∷ ys) p q ps qs e = absurd (bar_inside x y _ p e)
join_bar_injective x y (a ∷ xs) [] p q ps qs e = absurd (bar_inside y x _ q (sym e))
join_bar_injective x y (a ∷ xs) (b ∷ ys) p q ps qs e =
    let (f, g) = split_bar x y (join_bar a xs) (join_bar b ys) p q e in
    let (h, i) = join_bar_injective a b xs ys ps.0 qs.0 ps.1 qs.1 g in (f, ground arith)

digits_NoBar : (s : Text) → AreDigits s → NoBar s
digits_NoBar [] d = tt
digits_NoBar (c ∷ s) d = (omega arith, digits_NoBar s d.1)

print_int-NoBar : (z : ℤ) → NoBar (print_int z)
unfolding print_int
print_int-NoBar (pos n) = digits_NoBar (print_nat n) (print_nat-AreDigits n)
print_int-NoBar (negsuc n) =
    (omega arith, digits_NoBar (print_nat (suc n)) (print_nat-AreDigits (suc n)))

print_int_injective : (a b : ℤ) → IsInt64 a → IsInt64 b → print_int a ≡ print_int b → a ≡ b
print_int_injective a b h k e =
    cc (parse_int-print_int a h, parse_int-print_int b k, ap parse_int e)

-- One signature fits one revocation only: records whose key text and action have no bar, as base64
-- and the two actions have none, agree in every field when their signed bytes agree.
pub canonical_revocation_injective :
    (action action' pub_b64 pub_b64' : Text) (seq seq' ts ts' : ℤ)
    → NoBar action
    → NoBar action'
    → NoBar pub_b64
    → NoBar pub_b64'
    → IsInt64 seq
    → IsInt64 seq'
    → IsInt64 ts
    → IsInt64 ts'
    → canonical_revocation action pub_b64 seq ts ≡ canonical_revocation action' pub_b64' seq' ts'
    → (action ≡ action') × (pub_b64 ≡ pub_b64') × (seq ≡ seq') × (ts ≡ ts')
unfolding canonical_revocation
canonical_revocation_injective action action' key key' seq seq' ts ts' a a' k k' s s' t t' e =
    let magic = codes "OVLYREVOKE1" in
    let fields =
      (join_bar_injective magic magic (action ∷ key ∷ print_int seq ∷ print_int ts ∷ [])
        (action' ∷ key' ∷ print_int seq' ∷ print_int ts' ∷ []) (omega arith) (omega arith)
        (a, (k, (print_int-NoBar seq, (print_int-NoBar ts, tt))))
        (a', (k', (print_int-NoBar seq', (print_int-NoBar ts', tt)))) e).1 in
    (
      cc fields,
      cc fields,
      print_int_injective seq seq' s s' (cc fields),
      print_int_injective ts ts' t t' (cc fields),
    )

-- No two of these kinds of record share their signed bytes, whatever their fields hold.
pub canonical_kinds_differ :
    (action key : Text) (seq ts : ℤ) (other : SignedApproval) (policy : SignedPolicy)
    (prov : SignedProvision)
    → let revocation = canonical_revocation action key seq ts in
      let approval = canonical_approval other.action other.pub_key other.seq other.ts in
      let pol = canonical_policy policy.pub_key policy.post_quantum policy.epoch policy.ts in
      let provision = canonical_provision prov.pub_key prov.address prov.name prov.seq prov.ts in
      (revocation ≢ approval)
      × (revocation ≢ pol)
      × (revocation ≢ provision)
      × (approval ≢ pol)
      × (approval ≢ provision)
      × (pol ≢ provision)
unfolding canonical_revocation canonical_approval canonical_policy canonical_provision join_bar
canonical_kinds_differ action key seq ts other policy prov = (
  λ e. omega (arith, ap (λ (t : Text). get_or t 4 0) e),
  λ e. omega (arith, ap (λ (t : Text). get_or t 4 0) e),
  λ e. omega (arith, ap (λ (t : Text). get_or t 4 0) e),
  λ e. omega (arith, ap (λ (t : Text). get_or t 4 0) e),
  λ e. omega (arith, ap (λ (t : Text). get_or t 4 0) e),
  λ e. omega (arith, ap (λ (t : Text). get_or t 5 0) e),
)

-- The address and the name of a provision are joined by a bar that either may contain, so the same
-- signature also fits the record with the boundary moved.
pub canonical_provision_ambiguous :
    (pub_b64 a b c : Text) (seq ts : ℤ)
    → canonical_provision pub_b64 (a ++ (b'|' ∷ b)) c seq ts
      ≡ canonical_provision pub_b64 a (b ++ (b'|' ∷ c)) seq ts
unfolding canonical_provision join_bar
canonical_provision_ambiguous key a b c seq ts = simp append_assoc
