-- ===== src/Prelude/Bits.antt =====
-- Binary digits of native numbers: what `|`, `&` with one bit, the shifts and `% 2 ^ w` do to them.
use Prim.Native.Nat.{
  ℕ, zero, suc, ◌+◌, ◌-◌, ◌*◌, ◌/◌, ◌%◌, ◌^◌, ◌≤◌, ◌<◌, min, max, bit_or, bit_and, digits, bitwise,
  bit_and-bitwise, bit_or-bitwise,
}
use mathlib.Core.Logic.{◌⊎◌, inl, inr}
use mathlib.Core.Path.{◌≡◌, refl, sym, ap, ◌∙◌}
use native.Mathlib.Nat.{pow-suc, div-add-mod, div-div-eq-div-mul, mul_comm, one-le-pow}
use native.Mathlib.Omega.{arith}
use apgo.Prelude.Tests.{ltb, ◌==◌, if◌then◌else◌}

-- The native operations recurse on binary digits with fuel; fuel beyond the first operand is spare.
abbrev low : (ℕ → ℕ → ℕ) → ℕ → ℕ → ℕ
low op x y = op (x % 2) (y % 2)

module _ (on_zero : ℕ → ℕ) (op : ℕ → ℕ → ℕ) where
  spare_one :
      (fuel x y : ℕ) → x ≤ fuel → digits on_zero op (suc fuel) x y ≡ digits on_zero op fuel x y
  spare_one zero zero y h = refl
  spare_one zero (suc x) y h = absurd (omega arith)
  spare_one (suc fuel) zero y h = refl
  spare_one (suc fuel) (suc x) y h =
      ap (λ (t : ℕ). t * 2 + low op (suc x) y) (spare_one fuel (suc x / 2) (y / 2) (omega arith))

  spare_fuel : (k x y : ℕ) → digits on_zero op (k + x) x y ≡ digits on_zero op x x y
  spare_fuel zero x y =
      let whole : 0 + x ≡ x = omega arith in ap (λ (n : ℕ). digits on_zero op n x y) whole
  spare_fuel (suc k) x y =
      let one : suc k + x ≡ suc (k + x) = omega arith in
      ap (λ (n : ℕ). digits on_zero op n x y) one
      ∙ spare_one (k + x) x y (omega arith)
      ∙ spare_fuel k x y

  -- One digit of the recursion.
  bitwise-lowest :
      (x y : ℕ)
      → bitwise on_zero op (suc x) y ≡ bitwise on_zero op (suc x / 2) (y / 2) * 2 + low op (suc x) y
  bitwise-lowest x y =
      let left : x - suc x / 2 + suc x / 2 ≡ x = omega arith in
      ap (λ (n : ℕ). digits on_zero op n (suc x / 2) (y / 2) * 2 + low op (suc x) y) (sym left)
      ∙ ap (λ (t : ℕ). t * 2 + low op (suc x) y) (spare_fuel (x - suc x / 2) (suc x / 2) (y / 2))

bit_or-lowest : (x y : ℕ) → bit_or x y ≡ bit_or (x / 2) (y / 2) * 2 + low max x y
bit_or-lowest zero y = bit_or-bitwise 0 y ∙ omega (arith, bit_or-bitwise 0 (y / 2))
bit_or-lowest (suc x) y =
    bit_or-bitwise (suc x) y
    ∙ bitwise-lowest (λ t. t) max x y
    ∙ ap (λ (t : ℕ). t * 2 + low max (suc x) y) (sym (bit_or-bitwise (suc x / 2) (y / 2)))

bit_and-lowest : (x y : ℕ) → bit_and x y ≡ bit_and (x / 2) (y / 2) * 2 + low min x y
bit_and-lowest zero y = bit_and-bitwise 0 y ∙ omega (arith, bit_and-bitwise 0 (y / 2))
bit_and-lowest (suc x) y =
    bit_and-bitwise (suc x) y
    ∙ bitwise-lowest (λ t. 0) min x y
    ∙ ap (λ (t : ℕ). t * 2 + low min (suc x) y) (sym (bit_and-bitwise (suc x / 2) (y / 2)))

zero_or_one : (x : ℕ) → x ≤ 1 → (x ≡ 0) ⊎ (x ≡ 1)
zero_or_one x h = omega arith

-- Digit `k` of `a`, 0 or 1.
pub bit : ℕ → ℕ → ℕ
bit zero a = a % 2
bit (suc k) a = bit k (a / 2)

pub bit-le-one : (k a : ℕ) → bit k a ≤ 1
unfolding bit
bit-le-one zero a = omega arith
bit-le-one (suc k) a = bit-le-one k (a / 2)

pub bit-zero : (k : ℕ) → bit k 0 ≡ 0
unfolding bit
bit-zero zero = refl
bit-zero (suc k) = bit-zero k

pub bit-bit_or : (k a b : ℕ) → bit k (bit_or a b) ≡ max (bit k a) (bit k b)
unfolding bit
bit-bit_or zero a b = omega (arith, bit_or-lowest a b)
bit-bit_or (suc k) a b =
    ap (bit k) (omega (arith, bit_or-lowest a b)) ∙ bit-bit_or k (a / 2) (b / 2)

-- Every digit from `n` on is 0 below `2 ^ n`.
pub bit-eq-zero_of_lt : (n k a : ℕ) → a < 2 ^ n → n ≤ k → bit k a ≡ 0
unfolding bit
bit-eq-zero_of_lt zero k a h l = ap (bit k) (omega arith) ∙ bit-zero k
bit-eq-zero_of_lt (suc n) zero a h l = absurd (omega arith)
bit-eq-zero_of_lt (suc n) (suc k) a h l =
    bit-eq-zero_of_lt n k (a / 2) (omega (arith, pow-suc 2 n)) (omega arith)

mul-pow-suc : (a b : ℕ) → a * 2 ^ suc b ≡ 2 * (a * 2 ^ b)
mul-pow-suc a b = omega (arith, ap (λ (t : ℕ). a * t) (pow-suc 2 b))

div-pow-suc : (a b : ℕ) → a / 2 ^ suc b ≡ a / 2 / 2 ^ b
div-pow-suc a b = rw (pow-suc, mul_comm (2 ^ b) 2) (sym (div-div-eq-div-mul a 2 (2 ^ b)))

mod-pow-suc : (a n : ℕ) → a % 2 ^ suc n ≡ a / 2 % 2 ^ n * 2 + a % 2
mod-pow-suc a n = omega (
  arith,
  div-add-mod a (2 ^ suc n),
  div-add-mod (a / 2) (2 ^ n),
  div-pow-suc a n,
  ap (λ (t : ℕ). t * (a / 2 / 2 ^ n)) (pow-suc 2 n),
  ap (λ (t : ℕ). 2 ^ suc n * t) (div-pow-suc a n),
)

-- `a << b`
pub bit-shl : (b k a : ℕ) → bit k (a * 2 ^ b) ≡ (if ltb k b then 0 else bit (k - b) a)
unfolding bit
bit-shl zero k a =
    let same : a * 1 ≡ a = omega arith in
    let whole : k - 0 ≡ k = omega arith in ground (arith, ap (bit k) same, ap (λ j. bit j a) whole)
bit-shl (suc b) zero a = ground (arith, mul-pow-suc a b)
bit-shl (suc b) (suc k) a =
    ap (bit k) (omega (arith, mul-pow-suc a b)) ∙ bit-shl b k a ∙ ground arith

-- `a >> b`
pub bit-shr : (b k a : ℕ) → bit k (a / 2 ^ b) ≡ bit (k + b) a
unfolding bit
bit-shr zero k a =
    let same : a / 1 ≡ a = omega arith in
    let whole : k + 0 ≡ k = omega arith in ground (arith, ap (bit k) same, ap (λ j. bit j a) whole)
bit-shr (suc b) k a =
    let deeper : suc (k + b) ≡ k + suc b = omega arith in
    rw div-pow-suc (bit-shr b k (a / 2) ∙ ap (λ j. bit j a) deeper)

-- Truncation to `n` digits.
pub bit-mod : (n k a : ℕ) → k < n → bit k (a % 2 ^ n) ≡ bit k a
unfolding bit
bit-mod zero k a h = absurd (omega arith)
bit-mod (suc n) zero a h = omega (arith, mod-pow-suc a n)
bit-mod (suc n) (suc k) a h =
    ap (bit k) (omega (arith, mod-pow-suc a n)) ∙ bit-mod n k (a / 2) (omega arith)

half-pow-suc : (k : ℕ) → 2 ^ suc k / 2 ≡ 2 ^ k
half-pow-suc k = omega (arith, pow-suc 2 k)

-- Nothing is left of a number below `2 ^ n`, by its digits.
no_digit_in_common : (n x : ℕ) → x < 2 ^ n → bit_and x 0 ≡ 0
no_digit_in_common zero x h = let empty : x ≡ 0 = omega arith in rw empty refl
no_digit_in_common (suc n) x h =
    let rest = no_digit_in_common n (x / 2) (omega (arith, pow-suc 2 n)) in
    omega (arith, rest, bit_and-lowest x 0)

lt_two_pow : (x : ℕ) → x < 2 ^ x
lt_two_pow zero = omega arith
lt_two_pow (suc x) = omega (arith, pow-suc 2 x, lt_two_pow x)

bit_and-zero : (x : ℕ) → bit_and x 0 ≡ 0
bit_and-zero x = no_digit_in_common x x (lt_two_pow x)

-- `a & (1 << k)`
pub bit_and-pow : (k a : ℕ) → bit_and a (2 ^ k) ≡ bit k a * 2 ^ k
unfolding bit
bit_and-pow zero a = omega (arith, bit_and-lowest a 1, bit_and-zero (a / 2))
bit_and-pow (suc k) a = omega (
  arith,
  pow-suc 2 k,
  bit_and-lowest a (2 ^ suc k),
  ap (bit_and (a / 2)) (half-pow-suc k),
  bit_and-pow k (a / 2),
  mul-pow-suc (bit k (a / 2)) k,
)

pub bit_or-lt : (n a b : ℕ) → a < 2 ^ n → b < 2 ^ n → bit_or a b < 2 ^ n
bit_or-lt zero a b h k =
    let none_a : a ≡ 0 = omega arith in
    let none_b : b ≡ 0 = omega arith in rw (none_a, none_b) (omega arith)
bit_or-lt (suc n) a b h k = omega (
  arith,
  bit_or-lowest a b,
  pow-suc 2 n,
  bit_or-lt n (a / 2) (b / 2) (omega (arith, pow-suc 2 n)) (omega (arith, pow-suc 2 n)),
)

bit_at_zero : (j : ℕ) → j ≡ 0 → bit j 1 ≡ 1
unfolding bit
bit_at_zero j h = rw h refl

pub bit-pow : (k e : ℕ) → bit k (2 ^ e) ≡ (if k == e then 1 else 0)
bit-pow k e =
    let once : 1 * 2 ^ e ≡ 2 ^ e = omega arith in
    rw (← once) (ground (arith, bit-shl e k 1, bit-eq-zero_of_lt 1 (k - e) 1, bit_at_zero (k - e)))

-- `x & (1 << e) == 0`
pub bit_test : (e x : ℕ) → (bit_and x (2 ^ e) == 0) ≡ (bit e x == 0)
bit_test e x = elim (zero_or_one (bit e x) (bit-le-one e x)) [
  | inl z ↦ ground (arith, bit_and-pow e x, ap (λ (t : ℕ). t * 2 ^ e) z)
  | inr o ↦ ground (arith, bit_and-pow e x, ap (λ (t : ℕ). t * 2 ^ e) o, one-le-pow e 2)
]
