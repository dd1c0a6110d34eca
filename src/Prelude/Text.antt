-- ===== src/Prelude/Text.antt =====
-- Texts as lists of bytes: equality, and the decimal numbers of `strconv.AppendInt`, `%d`,
-- `strconv.ParseInt(s, 10, 64)` and `Atoi`.
use Prim.Native.Char.{code}
use Prim.Native.String.{String}
use Prim.Native.Nat.{ℕ, zero, suc, ◌+◌, ◌-◌, ◌*◌, ◌/◌, ◌%◌, ◌^◌, ◌≤◌, ◌<◌}
use mathlib.Core.Bool.{Bool, true, false, ◌&&◌}
use mathlib.Core.List.{List, [], ◌∷◌, ◌++◌, append_assoc, append-nil}
use mathlib.Core.Logic.{◌↔◌, inl, inr}
use mathlib.Core.Option.{Option, none, some}
use mathlib.Core.Path.{◌≡◌, refl, ap, ◌∙◌, sym, subst}
use native.Mathlib.Nat.{pow-suc}
use native.Mathlib.Omega.{arith}
use apgo.Prelude.Lists.{length, length-append, All, All-append}
use apgo.Prelude.Tests.{ltb, leb, ltb→lt, ◌==◌, if◌then◌else◌, Bool-cases}

abbrev pub Text : Type 0
Text = List ℕ

-- The bytes of an ASCII literal.
abbrev pub codes : String → Text
codes String.[] = []
codes (String.◌∷◌ c s) = code c ∷ codes s

unfoldable pub text_eq : Text → Text → Bool
text_eq [] [] = true
text_eq (a ∷ s) (b ∷ t) = a == b && text_eq s t
text_eq _ _ = false

pub text_eq_iff : (s t : Text) → (text_eq s t ≡ true) ↔ (s ≡ t)
unfolding text_eq
text_eq_iff (a ∷ s) (b ∷ t) = ground (arith, text_eq_iff s t)
text_eq_iff _ _ = ground arith

-- A text as a key: its bytes in bijective base 256.
unfoldable pub text_key : Text → ℕ
text_key [] = 0
text_key (c ∷ s) = suc c + 256 * text_key s

-- Big-endian bytes as a number, after the digits read so far.
unfoldable pub be_value : Text → ℕ → ℕ
be_value [] acc = acc
be_value (b ∷ bs) acc = be_value bs (acc * 256 + b)

-- The low `width` bytes of a number, big-endian.
unfoldable pub put_be : ℕ → ℕ → Text
put_be zero v = []
put_be (suc width) v = put_be width (v / 256) ++ (v % 256) ∷ []

be_value-snoc : (s : Text) (b acc : ℕ) → be_value (s ++ b ∷ []) acc ≡ be_value s acc * 256 + b
unfolding be_value
be_value-snoc [] b acc = refl
be_value-snoc (c ∷ s) b acc = be_value-snoc s b (acc * 256 + c)

pub be_value-put_be :
    (width v acc : ℕ) → v < 256 ^ width → be_value (put_be width v) acc ≡ acc * 256 ^ width + v
unfolding be_value put_be
be_value-put_be zero v acc h = omega arith
be_value-put_be (suc width) v acc h = omega (
  arith,
  be_value-snoc (put_be width (v / 256)) (v % 256) acc,
  be_value-put_be width (v / 256) acc (omega (arith, pow-suc 256 width)),
  pow-suc 256 width,
  ap (λ (t : ℕ). acc * t) (pow-suc 256 width),
)

pub length-put_be : (width v : ℕ) → length (put_be width v) ≡ width
unfolding put_be
length-put_be zero v = refl
length-put_be (suc width) v =
    omega (
      arith,
      length-append (put_be width (v / 256)) ((v % 256) ∷ []),
      length-put_be width (v / 256),
    )

-- A Go int64, `negsuc n` being -(n + 1).
pub data ℤ : Type 0 where
  pos : ℕ → ℤ
  negsuc : ℕ → ℤ

print_digits : ℕ → ℕ → Text
print_digits zero n = []
print_digits (suc fuel) n =
    let front = print_digits fuel (n / 10) in
    if ltb n 10 then (48 + n) ∷ [] else front ++ (48 + n % 10) ∷ []

-- One digit takes one round, and `n` has at most `n + 1` digits.
unfoldable pub print_nat : ℕ → Text
unfolding print_digits
print_nat n = print_digits (suc n) n

unfoldable pub print_int : ℤ → Text
unfolding print_nat
print_int (pos n) = print_nat n
print_int (negsuc n) = b'-' ∷ print_nat (suc n)

abbrev pub is_digit : ℕ → Bool
is_digit c = leb b'0' c && leb c b'9'

pub parse_digits : ℕ → Text → Option ℕ
parse_digits acc [] = some acc
parse_digits acc (c ∷ cs) =
    let rest = parse_digits (acc * 10 + (c - 48)) cs in if is_digit c then rest else none

-- No digit at all is a syntax error.
unfoldable pub parse_nat : Text → Option ℕ
unfolding parse_digits
parse_nat [] = none
parse_nat (c ∷ cs) = parse_digits 0 (c ∷ cs)

abbrev pub int64_bound : ℕ
int64_bound = 2 ^ 63

-- The range check of a 64-bit ParseInt.
abbrev pub positive : Option ℕ → Option ℤ
positive none = none
positive (some n) = if ltb n int64_bound then some (pos n) else none

abbrev pub negative : Option ℕ → Option ℤ
negative none = none
negative (some zero) = some (pos 0)
negative (some (suc n)) = if leb (suc n) int64_bound then some (negsuc n) else none

unfoldable pub parse_int : Text → Option ℤ
unfolding parse_nat
parse_int [] = none
parse_int (c ∷ cs) =
    if c == b'-'
    then negative (parse_nat cs)
    else if c == b'+'
    then positive (parse_nat cs)
    else positive (parse_nat (c ∷ cs))

unfoldable pub int_lt : ℤ → ℤ → Bool
int_lt (pos m) (pos n) = ltb m n
int_lt (pos m) (negsuc n) = false
int_lt (negsuc m) (pos n) = true
int_lt (negsuc m) (negsuc n) = ltb n m

pub int_lt_irrefl : (a : ℤ) → int_lt a a ≡ false
unfolding int_lt
int_lt_irrefl (pos m) = ground arith
int_lt_irrefl (negsuc m) = ground arith

pub int_lt_trans : (a b c : ℤ) → int_lt a b ≡ true → int_lt b c ≡ true → int_lt a c ≡ true
unfolding int_lt
int_lt_trans (pos a) (pos b) c h g = ground arith
int_lt_trans (pos a) (negsuc b) c h g = cc
int_lt_trans (negsuc a) b c h g = ground arith

pub int_lt_asym : (a b : ℤ) → int_lt a b ≡ true → int_lt b a ≡ false
unfolding int_lt
int_lt_asym (pos m) b h = ground arith
int_lt_asym (negsuc m) b h = ground arith

pub int_lt_trans_not : (a b c : ℤ) → int_lt a b ≡ false → int_lt b c ≡ false → int_lt a c ≡ false
unfolding int_lt
int_lt_trans_not (pos a) b c h g = ground arith
int_lt_trans_not (negsuc a) b c h g = ground arith

pub int_lt_connex : (a b : ℤ) → int_lt a b ≡ false → int_lt b a ≡ false → a ≡ b
unfolding int_lt
int_lt_connex (pos a) b h g = ground arith
int_lt_connex (negsuc a) b h g = ground arith

abbrev pub IsInt64 : ℤ → Type 0
IsInt64 (pos n) = n < int64_bound
IsInt64 (negsuc n) = n < int64_bound

abbrev pub AreDigits : Text → Type 0
AreDigits = All (λ c. (b'0' ≤ c) × (c ≤ b'9'))

digit_bounds : (d : ℕ) → d < 10 → (b'0' ≤ 48 + d) × (48 + d ≤ b'9')
digit_bounds d h = omega arith

print_digits-AreDigits : (fuel n : ℕ) → AreDigits (print_digits fuel n)
unfolding print_digits
print_digits-AreDigits zero n = tt
print_digits-AreDigits (suc fuel) n = elim (Bool-cases (ltb n 10)) [
  | inl small ↦ rw small (digit_bounds n (ltb→lt n 10 small), tt)
  | inr large ↦ rw large (
      All-append (λ c. (b'0' ≤ c) × (c ≤ b'9')) (print_digits fuel (n / 10)) ((48 + n % 10) ∷ [])
        (print_digits-AreDigits fuel (n / 10)) (digit_bounds (n % 10) (omega arith), tt))
]

parse_digit :
    (acc d : ℕ) (rest : Text)
    → d < 10
    → parse_digits acc ((48 + d) ∷ rest) ≡ parse_digits (acc * 10 + d) rest
unfolding parse_digits
parse_digit acc d rest h = let same : 48 + d - 48 ≡ d = omega arith in rw same (ground arith)

shifted_sum : (acc k n : ℕ) → (acc * 10 ^ k + n / 10) * 10 + n % 10 ≡ acc * 10 ^ suc k + n
shifted_sum acc k n = omega (arith, ap (λ (t : ℕ). acc * t) (pow-suc 10 k))

parse_digits_print :
    (fuel n acc : ℕ) (rest : Text)
    → n < fuel
    → (k : ℕ) × (parse_digits acc (print_digits fuel n ++ rest)
        ≡ parse_digits (acc * 10 ^ k + n) rest)
unfolding print_digits
parse_digits_print zero n acc rest h = elim h [ ]
parse_digits_print (suc fuel) n acc rest h = elim (Bool-cases (ltb n 10)) [
  | inl small ↦ (1, rw small (parse_digit acc n rest (ltb→lt n 10 small)))
  | inr large ↦
      let (k, e) = parse_digits_print fuel (n / 10) acc ((48 + n % 10) ∷ rest) (ground arith) in
      (
        suc k,
        rw large (
            ap (parse_digits acc) (append_assoc (print_digits fuel (n / 10)) _ rest)
            ∙ e
            ∙ parse_digit (acc * 10 ^ k + n / 10) (n % 10) rest (omega arith)
            ∙ ap (λ a. parse_digits a rest) (shifted_sum acc k n)),
      )
]

-- The first byte of a printed number is a digit, so the text is not empty.
print_digits_head : (fuel n : ℕ) → n < fuel → (c : ℕ) × (cs : Text) × (print_digits fuel n ≡ c ∷ cs)
unfolding print_digits
print_digits_head zero n h = elim h [ ]
print_digits_head (suc fuel) n h = elim (Bool-cases (ltb n 10)) [
  | inl small ↦ (48 + n, [], rw small)
  | inr large ↦
      let (c, cs, e) = print_digits_head fuel (n / 10) (ground arith) in
      (c, cs ++ (48 + n % 10) ∷ [], rw (large, e))
]

pub print_nat-AreDigits : (n : ℕ) → AreDigits (print_nat n)
unfolding print_nat
print_nat-AreDigits n = print_digits-AreDigits (suc n) n

pub print_nat_head : (n : ℕ) → (c : ℕ) × (cs : Text) × (print_nat n ≡ c ∷ cs)
unfolding print_nat
print_nat_head n = print_digits_head (suc n) n (omega arith)

parse_nat_not_empty : (t : Text) (c : ℕ) (cs : Text) → t ≡ c ∷ cs → parse_nat t ≡ parse_digits 0 t
parse_nat_not_empty t c cs e = rw e (unfold parse_nat in refl)

pub parse_nat-print_nat : (n : ℕ) → parse_nat (print_nat n) ≡ some n
unfolding print_nat
parse_nat-print_nat n =
    let (c, cs, e) = print_nat_head n in
    let (k, p) = parse_digits_print (suc n) n 0 [] (omega arith) in
    let value : 0 * 10 ^ k + n ≡ n = omega arith in
    parse_nat_not_empty (print_nat n) c cs e
    ∙ ap (parse_digits 0) (sym (append-nil (print_nat n)))
    ∙ p
    ∙ ap (λ a. parse_digits a []) value
    ∙ (unfold parse_digits in refl)

pub print_nat_injective : (m n : ℕ) → print_nat m ≡ print_nat n → m ≡ n
print_nat_injective m n e = cc (parse_nat-print_nat m, parse_nat-print_nat n, ap parse_nat e)

head_is_digit : (t : Text) (c : ℕ) (cs : Text) → AreDigits t → t ≡ c ∷ cs → b'0' ≤ c
head_is_digit t c cs d e = (subst AreDigits e d).0.0

parse_int_unsigned :
    (t : Text) (c : ℕ) (cs : Text) → t ≡ c ∷ cs → b'0' ≤ c → parse_int t ≡ positive (parse_nat t)
parse_int_unsigned t c cs e h = rw e (unfold parse_int in ground arith)

-- Every int64 is read back from its decimal text.
pub parse_int-print_int : (z : ℤ) → IsInt64 z → parse_int (print_int z) ≡ some z
unfolding print_int parse_int
parse_int-print_int (pos n) h =
    let (c, cs, e) = print_nat_head n in
    parse_int_unsigned (print_nat n) c cs e
      (head_is_digit (print_nat n) c cs (print_nat-AreDigits n) e)
    ∙ rw (parse_nat-print_nat n) (ground arith)
parse_int-print_int (negsuc n) h = rw (parse_nat-print_nat (suc n)) (ground arith)
