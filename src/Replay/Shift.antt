-- ===== src/Replay/Shift.antt =====
-- client/sessions.go: `shiftWindow`, bit by bit.
use native.Mathlib.Nat.{div-le_self}
use apgo.Prelude.{
  ℕ, zero, suc, ◌+◌, ◌-◌, ◌*◌, ◌/◌, ◌%◌, ◌^◌, ◌≤◌, ◌<◌, List, [], ◌∷◌, ltb, leb, if◌then◌else◌,
  get_or, set, length, get_or-set, length-set, get_or-replicate, Bool-cases, ◌≡◌, refl, ap, ◌∙◌,
  inl, inr, arith,
}
use apgo.Prelude.Bits.{
  bit, bit-zero, bit-bit_or, bit-eq-zero_of_lt, bit-shl, bit-shr, bit-mod, bit_or-lt,
}
use apgo.Replay.{window_words, window_bits, move_words, move_bits, shifted_word, shift_window}

-- Bit `d` of the window: whether the nonce `recv_highest - d` is marked.
abbrev pub window_bit : List ℕ → ℕ → ℕ
window_bit w d = bit (d % 64) (get_or w (d / 64) 0)

-- Every word fits 64 bits.
abbrev pub AreWords : List ℕ → Type 0
AreWords w = (i : ℕ) → get_or w i 0 < 2 ^ 64

get_or-move_words :
    (k n i : ℕ) (w : List ℕ)
    → n ≤ length w
    → get_or (move_words k n w) i 0
      ≡ (if ltb i n then if leb k i then get_or w (i - k) 0 else 0 else get_or w i 0)
unfolding move_words
get_or-move_words k zero i w h = ground arith
get_or-move_words k (suc n) i w h =
    let x = if leb k n then get_or w (n - k) 0 else 0 in
    ground (
      arith,
      get_or-move_words k n i (set w n x),
      length-set w n x,
      get_or-set w n i x 0,
      get_or-set w n (i - k) x 0,
    )

shifted_word-set :
    (b i n x : ℕ) (w : List ℕ)
    → i < n
    → n < length w
    → shifted_word b i (set w n x) ≡ shifted_word b i w
unfolding shifted_word
shifted_word-set b i n x w h l =
    let here : get_or (set w n x) i 0 ≡ get_or w i 0 = ground (arith, get_or-set w n i x 0) in
    let below : get_or (set w n x) (i - 1) 0 ≡ get_or w (i - 1) 0 =
      ground (arith, get_or-set w n (i - 1) x 0) in
    rw (here, below)

get_or-move_bits :
    (b n i : ℕ) (w : List ℕ)
    → n ≤ length w
    → get_or (move_bits b n w) i 0 ≡ (if ltb i n then shifted_word b i w else get_or w i 0)
unfolding move_bits
get_or-move_bits b zero i w h = ground arith
get_or-move_bits b (suc n) i w h =
    let x = shifted_word b n w in
    ground (
      arith,
      get_or-move_bits b n i (set w n x),
      length-set w n x,
      get_or-set w n i x 0,
      shifted_word-set b i n x w,
    )

-- One bit of a word after the shift by 0 < b < 64 places.
bit-shifted_word :
    (b i e : ℕ) (w : List ℕ)
    → AreWords w
    → 0 < b
    → b < 64
    → e < 64
    → bit e (shifted_word b i w) ≡ (
        if ltb e b
        then if ltb 0 i then bit (e + (64 - b)) (get_or w (i - 1) 0) else 0
        else bit (e - b) (get_or w i 0))
unfolding shifted_word
bit-shifted_word b i e w ok p q r =
    let word = get_or w i 0 in
    let prev = get_or w (i - 1) 0 in
    ground (
      arith,
      bit-mod 64 e (word * 2 ^ b) r,
      bit-shl b e word,
      bit-bit_or e (word * 2 ^ b % 2 ^ 64) (prev / 2 ^ (64 - b)),
      bit-shr (64 - b) e prev,
      bit-eq-zero_of_lt 64 (e + (64 - b)) prev (ok (i - 1)),
    )

-- The words before the bit shift.
moved : ℕ → List ℕ → List ℕ
moved k w = if ltb 0 k then move_words k window_words w else w

get_or-moved :
    (k i : ℕ) (w : List ℕ)
    → length w ≡ 8
    → i < 8
    → get_or (moved k w) i 0 ≡ (if leb k i then get_or w (i - k) 0 else 0)
unfolding moved
get_or-moved k i w l h =
    let whole : i - 0 ≡ i = omega arith in
    ground (arith, get_or-move_words k 8 i w, ap (λ j. get_or w j 0) whole)

length-move_words : (k n : ℕ) (w : List ℕ) → length (move_words k n w) ≡ length w
unfolding move_words
length-move_words k zero w = refl
length-move_words k (suc n) w = length-move_words k n _ ∙ length-set w n _

length-move_bits : (b n : ℕ) (w : List ℕ) → length (move_bits b n w) ≡ length w
unfolding move_bits
length-move_bits b zero w = refl
length-move_bits b (suc n) w = length-move_bits b n _ ∙ length-set w n _

length-moved : (k : ℕ) (w : List ℕ) → length (moved k w) ≡ length w
unfolding moved
length-moved k w = ground (arith, length-move_words k 8 w)

get_or-past : (w : List ℕ) (i : ℕ) → length w ≤ i → get_or w i 0 ≡ 0
get_or-past [] i h = refl
get_or-past (x ∷ w) zero h = absurd (omega arith)
get_or-past (x ∷ w) (suc i) h = get_or-past w i (omega arith)

moved-AreWords : (k : ℕ) (w : List ℕ) → length w ≡ 8 → AreWords w → AreWords (moved k w)
moved-AreWords k w l ok i =
    ground (arith, get_or-moved k i w l, ok (i - k), get_or-past (moved k w) i, length-moved k w)

shifted_word-lt : (b i : ℕ) (w : List ℕ) → AreWords w → b < 64 → 0 < b → shifted_word b i w < 2 ^ 64
unfolding shifted_word
shifted_word-lt b i w ok p q = ground (
  arith,
  bit_or-lt 64 (get_or w i 0 * 2 ^ b % 2 ^ 64) (get_or w (i - 1) 0 / 2 ^ (64 - b)),
  div-le_self (get_or w (i - 1) 0) (2 ^ (64 - b)),
  ok (i - 1),
)

pub length-shift_window : (w : List ℕ) (s : ℕ) → length w ≡ 8 → length (shift_window w s) ≡ 8
unfolding shift_window moved
length-shift_window w s l = ground (
  arith,
  length-moved (s / 64) w,
  length-move_bits (s % 64) 8 w,
  length-move_bits (s % 64) 8 (moved (s / 64) w),
)

window_bit-at :
    (w : List ℕ) (d i e : ℕ) → d / 64 ≡ i → d % 64 ≡ e → window_bit w d ≡ bit e (get_or w i 0)
window_bit-at w d i e p q = rw (p, q)

-- The window after the word loop, and after the bit loop.
window_bit-moved :
    (k d : ℕ) (w : List ℕ)
    → length w ≡ 8
    → d < window_bits
    → window_bit (moved k w) d ≡ (if ltb d (k * 64) then 0 else window_bit w (d - k * 64))
window_bit-moved k d w l h =
    rw (get_or-moved k (d / 64) w l (omega arith))
      (ground (arith, window_bit-at w (d - k * 64) (d / 64 - k) (d % 64), bit-zero (d % 64)))

window_bit-move_bits :
    (b d : ℕ) (w : List ℕ)
    → AreWords w
    → length w ≡ 8
    → 0 < b
    → b < 64
    → d < window_bits
    → window_bit (move_bits b 8 w) d ≡ (if ltb d b then 0 else window_bit w (d - b))
window_bit-move_bits b d w ok l p q h = ground (
  arith,
  get_or-move_bits b 8 (d / 64) w,
  bit-shifted_word b (d / 64) (d % 64) w ok,
  window_bit-at w (d - b) (d / 64 - 1) (d % 64 + (64 - b)),
  window_bit-at w (d - b) (d / 64) (d % 64 - b),
)

window_bit_two_loops :
    (w : List ℕ) (s d : ℕ)
    → length w ≡ 8
    → AreWords w
    → d < window_bits
    → window_bit
        (if ltb 0 (s % 64) then move_bits (s % 64) 8 (moved (s / 64) w) else moved (s / 64) w)
        d
      ≡ (if ltb d s then 0 else window_bit w (d - s))
window_bit_two_loops w s d l ok h = elim (Bool-cases (ltb 0 (s % 64))) [
  | inl some_bits ↦ rw some_bits (
      ground (
        arith,
        window_bit-moved (s / 64) (d - s % 64) w l,
        window_bit-at w (d - s % 64 - s / 64 * 64) ((d - s) / 64) ((d - s) % 64),
        window_bit-move_bits (s % 64) d (moved (s / 64) w) (moved-AreWords (s / 64) w l ok),
        length-moved (s / 64) w,
      ))
  | inr whole_words ↦ rw whole_words (
      ground (
        arith,
        window_bit-moved (s / 64) d w l h,
        window_bit-at w (d - s / 64 * 64) ((d - s) / 64) ((d - s) % 64),
      ))
]

-- A shift by `s` of a bitmap of eight 64-bit words moves bit `d - s` to `d`, for each `d` below 512,
-- and clears the bits below `s`.
pub window_bit-shift_window :
    (w : List ℕ) (s d : ℕ)
    → length w ≡ 8
    → AreWords w
    → d < window_bits
    → window_bit (shift_window w s) d ≡ (if ltb d s then 0 else window_bit w (d - s))
unfolding shift_window moved
window_bit-shift_window w s d l ok h = elim (Bool-cases (leb window_bits s)) [
  | inl far ↦
      rw far (
        ground
          (arith, ap (bit (d % 64)) (get_or-replicate {A = ℕ} 8 (d / 64) 0), bit-zero (d % 64)))
  | inr near ↦ rw near (window_bit_two_loops w s d l ok h)
]

shift_window_moved-AreWords :
    (w : List ℕ) (b : ℕ)
    → length w ≡ 8
    → AreWords w
    → b < 64
    → AreWords (if ltb 0 b then move_bits b 8 w else w)
shift_window_moved-AreWords w b l ok h i =
    ground (arith, ok i, get_or-move_bits b 8 i w, shifted_word-lt b i w ok)

pub shift_window-AreWords :
    (w : List ℕ) (s : ℕ) → length w ≡ 8 → AreWords w → AreWords (shift_window w s)
unfolding shift_window moved
shift_window-AreWords w s l ok = elim (Bool-cases (leb window_bits s)) [
  | inl far ↦ rw far (λ i. rw (get_or-replicate {A = ℕ} 8 i 0) (omega arith))
  | inr near ↦ rw near (
      shift_window_moved-AreWords (moved (s / 64) w) (s % 64) (length-moved (s / 64) w ∙ l)
        (moved-AreWords (s / 64) w l ok) (omega arith))
]
