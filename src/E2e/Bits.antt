-- ===== src/E2e/Bits.antt =====
-- client/e2erelay.go: `e2eWindow.shift`, bit by bit.
use apgo.Prelude.{
  ℕ, zero, suc, ◌+◌, ◌-◌, ◌*◌, ◌/◌, ◌%◌, ◌^◌, ◌≤◌, ◌<◌, not, List, ltb, leb, if◌then◌else◌, get_or,
  set, length, get_or-set, length-set, get_or-replicate, Bool-cases, ◌≡◌, refl, ap, ◌∙◌, inl, inr,
  arith,
}
use apgo.Prelude.Bits.{
  bit, bit-zero, bit-bit_or, bit-eq-zero_of_lt, bit-shl, bit-shr, bit-mod, bit_or-lt,
}
use native.Mathlib.Nat.{div-le_self}
use apgo.Replay.Shift.{window_bit, AreWords}
use apgo.E2e.{e2e_window_bits, shifted_at, shift_words, shift_bits}

shifted_at-set :
    (ws bs i n x : ℕ) (w : List ℕ)
    → i < n
    → n < length w
    → shifted_at ws bs i (set w n x) ≡ shifted_at ws bs i w
unfolding shifted_at
shifted_at-set ws bs i n x w h l =
    let here : get_or (set w n x) (i - ws) 0 ≡ get_or w (i - ws) 0 =
      ground (arith, get_or-set w n (i - ws) x 0) in
    let below : get_or (set w n x) (i - ws - 1) 0 ≡ get_or w (i - ws - 1) 0 =
      ground (arith, get_or-set w n (i - ws - 1) x 0) in
    rw (here, below) refl

get_or-shift_words :
    (ws bs n i : ℕ) (w : List ℕ)
    → n ≤ length w
    → get_or (shift_words ws bs n w) i 0 ≡ (if ltb i n then shifted_at ws bs i w else get_or w i 0)
unfolding shift_words
get_or-shift_words ws bs zero i w h = ground arith
get_or-shift_words ws bs (suc n) i w h =
    let x = shifted_at ws bs n w in
    ground (
      arith,
      get_or-shift_words ws bs n i (set w n x),
      length-set w n x,
      get_or-set w n i x 0,
      shifted_at-set ws bs i n x w,
    )

length-shift_words : (ws bs n : ℕ) (w : List ℕ) → length (shift_words ws bs n w) ≡ length w
unfolding shift_words
length-shift_words ws bs zero w = refl
length-shift_words ws bs (suc n) w = length-shift_words ws bs n _ ∙ length-set w n _

bit-shifted_at :
    (ws bs j e : ℕ) (w : List ℕ)
    → AreWords w
    → bs < 64
    → e < 64
    → bit e (shifted_at ws bs j w) ≡ (
        if not (leb ws j)
        then 0
        else if ltb e bs
        then if ltb 0 (j - ws) then bit (e + (64 - bs)) (get_or w (j - ws - 1) 0) else 0
        else bit (e - bs) (get_or w (j - ws) 0))
unfolding shifted_at
bit-shifted_at ws bs j e w ok q r =
    let word = get_or w (j - ws) 0 in
    let prev = get_or w (j - ws - 1) 0 in
    ground (
      arith,
      bit-zero e,
      bit-mod 64 e (word * 2 ^ bs) r,
      bit-shl bs e word,
      bit-bit_or e (word * 2 ^ bs % 2 ^ 64) (prev / 2 ^ (64 - bs)),
      bit-shr (64 - bs) e prev,
      bit-eq-zero_of_lt 64 (e + (64 - bs)) prev (ok (j - ws - 1)),
    )

window_bit-at :
    (w : List ℕ) (d i e : ℕ) → d / 64 ≡ i → d % 64 ≡ e → window_bit w d ≡ bit e (get_or w i 0)
window_bit-at w d i e p q = rw (p, q)

-- A shift by `s` of sixteen words moves bit `d - s` to `d`, and clears the bits below `s`.
pub window_bit-shift_bits :
    (w : List ℕ) (s d : ℕ)
    → length w ≡ 16
    → AreWords w
    → d < e2e_window_bits
    → window_bit (shift_bits w s) d ≡ (if ltb d s then 0 else window_bit w (d - s))
unfolding shift_bits
window_bit-shift_bits w s d l ok h = elim (Bool-cases (leb e2e_window_bits s)) [
  | inl far ↦ rw far (
      ground (arith, ap (bit (d % 64)) (get_or-replicate {A = ℕ} 16 (d / 64) 0), bit-zero (d % 64)))
  | inr near ↦
      rw (near, get_or-shift_words (s / 64) (s % 64) 16 (d / 64) w (omega (arith, l)))
        (ground (
          arith,
          bit-shifted_at (s / 64) (s % 64) (d / 64) (d % 64) w ok,
          window_bit-at w (d - s) (d / 64 - s / 64 - 1) (d % 64 + (64 - s % 64)),
          window_bit-at w (d - s) (d / 64 - s / 64) (d % 64 - s % 64),
        ))
]

shifted_at-lt : (ws bs j : ℕ) (w : List ℕ) → AreWords w → bs < 64 → shifted_at ws bs j w < 2 ^ 64
unfolding shifted_at
shifted_at-lt ws bs j w ok p = ground (
  arith,
  bit_or-lt 64 (get_or w (j - ws) 0 * 2 ^ bs % 2 ^ 64) (get_or w (j - ws - 1) 0 / 2 ^ (64 - bs)),
  div-le_self (get_or w (j - ws - 1) 0) (2 ^ (64 - bs)),
  ok (j - ws - 1),
)

pub length-shift_bits : (w : List ℕ) (s : ℕ) → length w ≡ 16 → length (shift_bits w s) ≡ 16
unfolding shift_bits
length-shift_bits w s l = ground (arith, length-shift_words (s / 64) (s % 64) 16 w)

pub shift_bits-AreWords :
    (w : List ℕ) (s : ℕ) → length w ≡ 16 → AreWords w → AreWords (shift_bits w s)
unfolding shift_bits
shift_bits-AreWords w s l ok = elim (Bool-cases (leb e2e_window_bits s)) [
  | inl far ↦ rw far (λ i. rw (get_or-replicate {A = ℕ} 16 i 0) (omega arith))
  | inr near ↦ rw near (λ i. ground (
    arith,
    ok i,
    l,
    get_or-shift_words (s / 64) (s % 64) 16 i w,
    shifted_at-lt (s / 64) (s % 64) i w ok,
  ))
]
