-- ===== src/E2e/Bitmap.antt =====
-- The bitmap of e2eWindow as a replay window: what `mark` does to `ok`, and so the verdicts of the
-- full history.
use apgo.Prelude.{
  ℕ, ◌+◌, ◌-◌, ◌/◌, ◌%◌, ◌^◌, ◌<◌, true, false, not, ◌&&◌, ◌||◌, List, [], ltb, lt→ltb, ltb→lt,
  ◌==◌, if◌then◌else◌, get_or, replicate, length, get_or-set, length-set, get_or-replicate,
  Bool-cases, ◌≡◌, refl, ap, ◌∙◌, inl, inr, arith,
}
use Prim.Native.Nat.{bit_or}
use apgo.Prelude.Bits.{bit-zero, bit-le-one, bit-bit_or, bit-pow, bit_test}
use apgo.Replay.{or_word}
use apgo.Replay.Shift.{window_bit, AreWords}
use apgo.Replay.Mark.{or_word-AreWords, pow-lt-word}
use apgo.Window.{ReplayWindow, promised, verdicts, window-promised}
use apgo.E2e.{e2e_window_bits, E2eWindow, window_ok, window_mark, shift_bits, no_window}
use apgo.E2e.Bits.{window_bit-shift_bits, length-shift_bits, shift_bits-AreWords}

-- Sixteen words of 64 bits.
pub record IsBitmap (w : E2eWindow) : Type 0 where
  pub sixteen : length w.bits ≡ 16
  pub words : AreWords w.bits

window_bit-or_bit :
    (w : List ℕ) (d j : ℕ)
    → length w ≡ 16
    → d < e2e_window_bits
    → window_bit (or_word w (d / 64) (2 ^ (d % 64))) j ≡ (if d == j then 1 else window_bit w j)
window_bit-or_bit w d j l h =
    let word = get_or w (d / 64) 0 in
    ground (
      arith,
      get_or-set w (d / 64) (j / 64) (bit_or word (2 ^ (d % 64))) 0,
      bit-bit_or (j % 64) word (2 ^ (d % 64)),
      bit-pow (j % 64) (d % 64),
      bit-le-one (j % 64) word,
    )

window_ok_lem :
    (w : E2eWindow) (n : ℕ)
    → window_ok w n ≡ (
        not w.any
        || ltb w.hi n
        || (ltb (w.hi - n) e2e_window_bits && window_bit w.bits (w.hi - n) == 0))
unfolding window_ok
window_ok_lem w n = ground (arith, bit_test ((w.hi - n) % 64) (get_or w.bits ((w.hi - n) / 64) 0))

ok_first :
    (w : E2eWindow) (n m : ℕ)
    → w.any ≡ false
    → window_ok (window_mark w n) m
      ≡ (not (m == n) && (ltb n (m + e2e_window_bits) && window_ok w m))
unfolding window_mark
ok_first w n m h =
    rw (h, window_ok_lem, window_ok_lem)
      (ground (
        arith,
        h,
        window_bit-or_bit (replicate 16 0) 0 (n - m) refl,
        get_or-replicate {A = ℕ} 16 ((n - m) / 64) 0,
        bit-zero ((n - m) % 64),
      ))

ok_newer :
    (w : E2eWindow) (n m : ℕ)
    → IsBitmap w
    → w.any ≡ true
    → w.hi < n
    → window_ok (window_mark w n) m
      ≡ (not (m == n) && (ltb n (m + e2e_window_bits) && window_ok w m))
unfolding window_mark
ok_newer w n m v h p =
    let moved = shift_bits w.bits (n - w.hi) in
    rw (h, lt→ltb _ _ p, window_ok_lem, window_ok_lem)
      (ground (
        arith,
        h,
        window_bit-or_bit moved 0 (n - m) (length-shift_bits w.bits _ v.sixteen),
        window_bit-shift_bits w.bits (n - w.hi) (n - m) v.sixteen v.words,
        ap (window_bit w.bits) (difference p),
      ))
  where
    difference : w.hi < n → n - m - (n - w.hi) ≡ w.hi - m
    difference q = omega arith

ok_older :
    (w : E2eWindow) (n m : ℕ)
    → IsBitmap w
    → w.any ≡ true
    → ltb w.hi n ≡ false
    → window_ok (window_mark w n) m
      ≡ (not (m == n) && (ltb n (m + e2e_window_bits) && window_ok w m))
unfolding window_mark
ok_older w n m v h p = elim (Bool-cases (ltb (w.hi - n) e2e_window_bits)) [
  | inl recent ↦
      rw (h, p, recent, window_ok_lem, window_ok_lem)
        (ground (arith, h, window_bit-or_bit w.bits (w.hi - n) (w.hi - m) v.sixteen))
  | inr ancient ↦ rw (h, p, ancient) (ground (arith, h, window_ok_lem w m))
]

pub ok_after :
    (w : E2eWindow) (n m : ℕ)
    → IsBitmap w
    → window_ok (window_mark w n) m
      ≡ (not (m == n) && (ltb n (m + e2e_window_bits) && window_ok w m))
ok_after w n m v = elim (Bool-cases w.any) [
  | inr first ↦ ok_first w n m first
  | inl started ↦ elim (Bool-cases (ltb w.hi n)) [
    | inl newer ↦ ok_newer w n m v started (ltb→lt _ _ newer)
    | inr older ↦ ok_older w n m v started older
  ]
]

zeros-AreWords : AreWords (replicate 16 0)
zeros-AreWords i = rw (get_or-replicate {A = ℕ} 16 i 0) (omega arith)

pub no_window-IsBitmap : IsBitmap no_window
no_window-IsBitmap = record { sixteen = refl; words = zeros-AreWords }

or_word-Sixteen :
    (w : List ℕ) (d : ℕ)
    → length w ≡ 16
    → AreWords w
    → d < e2e_window_bits
    → (length (or_word w (d / 64) (2 ^ (d % 64))) ≡ 16)
      × AreWords (or_word w (d / 64) (2 ^ (d % 64)))
or_word-Sixteen w d l ok h = (
  length-set w (d / 64) _ ∙ l,
  or_word-AreWords w (d / 64) _ (omega (arith, l)) (pow-lt-word (d % 64) (omega arith)) ok,
)

pub mark-IsBitmap : (w : E2eWindow) (n : ℕ) → IsBitmap w → IsBitmap (window_mark w n)
unfolding window_mark
mark-IsBitmap w n v = elim (Bool-cases w.any) [
  | inr first ↦
      let (l, ok) = or_word-Sixteen (replicate 16 0) 0 refl zeros-AreWords (omega arith) in
      rw first (record { sixteen = l; words = ok })
  | inl started ↦ elim (Bool-cases (ltb w.hi n)) [
    | inl newer ↦
        let s = n - w.hi in
        let (l, ok) =
          or_word-Sixteen (shift_bits w.bits s) 0 (length-shift_bits w.bits s v.sixteen)
            (shift_bits-AreWords w.bits s v.sixteen v.words) (omega arith) in
        rw (started, newer) (record { sixteen = l; words = ok })
    | inr older ↦ elim (Bool-cases (ltb (w.hi - n) e2e_window_bits)) [
      | inl recent ↦
          let (l, ok) = or_word-Sixteen w.bits (w.hi - n) v.sixteen v.words (ltb→lt _ _ recent) in
          rw (started, older, recent) (record { sixteen = l; words = ok })
      | inr ancient ↦ rw (started, older, ancient) (record { sixteen = v.sixteen; words = v.words })
    ]
  ]
]

pub no_window_takes : (n : ℕ) → window_ok no_window n ≡ true
unfolding window_ok
no_window_takes n = refl

abbrev pub e2e_window : ReplayWindow E2eWindow
e2e_window = record {
  size = e2e_window_bits;
  fresh = no_window;
  check = window_ok;
  mark = window_mark;
  IsWell = IsBitmap;
  fresh_well = no_window-IsBitmap;
  mark_well = mark-IsBitmap;
  check_fresh = no_window_takes;
  check_mark = ok_after;
}

-- For every sequence of counters that authenticate under one key, the sixteen words of e2eWindow give
-- the verdicts of the full history: a counter is accepted exactly when it was not accepted before and
-- no accepted counter is 1024 or more ahead of it.
pub e2e_verdicts-promised :
    (ns : List ℕ) → verdicts e2e_window no_window ns ≡ promised e2e_window_bits [] ns
e2e_verdicts-promised = window-promised e2e_window
