-- ===== src/Replay/Mark.antt =====
-- What one `replayMark` changes: the verdict of `replayCheck` on every nonce, before and after.
use Prim.Native.Nat.{bit_or}
use native.Mathlib.Nat.{pow-le-pow_right}
use apgo.Prelude.{
  ℕ, ◌+◌, ◌-◌, ◌/◌, ◌%◌, ◌^◌, ◌<◌, max, true, false, not, ◌&&◌, List, ltb, leb, lt→ltb, ltb→lt,
  ◌==◌, if◌then◌else◌, get_or, replicate, length, get_or-set, length-set, get_or-replicate,
  Bool-cases, ◌≡◌, refl, ap, ◌∙◌, inl, inr, arith,
}
use apgo.Prelude.Bits.{bit-zero, bit-le-one, bit-bit_or, bit-pow, bit_test, bit_or-lt}
use apgo.Replay.Shift.{
  window_bit, AreWords, length-shift_window, window_bit-shift_window, shift_window-AreWords,
}
use apgo.Replay.{window_bits, Session, replay_check, replay_mark, shift_window, or_word, fresh}

-- The bitmap has its eight words, and each fits 64 bits.
pub record IsWindow (s : Session) : Type 0 where
  pub eight : length s.recv_window ≡ 8
  pub words : AreWords s.recv_window

-- `recvWindow[d / 64] |= 1 << (d % 64)` sets bit `d` and no other.
window_bit-or_word :
    (w : List ℕ) (d j : ℕ)
    → length w ≡ 8
    → d < window_bits
    → window_bit (or_word w (d / 64) (2 ^ (d % 64))) j ≡ (if d == j then 1 else window_bit w j)
window_bit-or_word w d j l h =
    let word = get_or w (d / 64) 0 in
    ground (
      arith,
      get_or-set w (d / 64) (j / 64) (bit_or word (2 ^ (d % 64))) 0,
      bit-bit_or (j % 64) word (2 ^ (d % 64)),
      bit-pow (j % 64) (d % 64),
      bit-le-one (j % 64) word,
    )

replay_check_lem :
    (s : Session) (n : ℕ)
    → replay_check s n ≡ (
        if not s.recv_any
        then true
        else if ltb s.recv_highest n
        then true
        else if leb window_bits (s.recv_highest - n)
        then false
        else window_bit s.recv_window (s.recv_highest - n) == 0)
unfolding replay_check
replay_check_lem s n =
    rw (bit_test ((s.recv_highest - n) % 64) (get_or s.recv_window ((s.recv_highest - n) / 64) 0))

-- The highest nonce after a mark.
abbrev pub top : Session → ℕ → ℕ
top s n = if s.recv_any then max s.recv_highest n else n

replay_check-first :
    (n m : ℕ) (s : Session)
    → s.recv_any ≡ false
    → replay_check (replay_mark s n) m ≡ (ltb n (m + window_bits) && not (m == n))
unfolding replay_mark
replay_check-first n m s h =
    rw (h, replay_check_lem)
      (ground (
        arith,
        window_bit-or_word (replicate 8 0) 0 (n - m) refl,
        get_or-replicate {A = ℕ} 8 ((n - m) / 64) 0,
        bit-zero ((n - m) % 64),
      ))

replay_check-newer :
    (s : Session) (n m : ℕ)
    → IsWindow s
    → s.recv_any ≡ true
    → s.recv_highest < n
    → replay_check (replay_mark s n) m
      ≡ (ltb n (m + window_bits) && not (m == n) && replay_check s m)
unfolding replay_mark
replay_check-newer s n m v h p =
    let moved = shift_window s.recv_window (n - s.recv_highest) in
    rw (h, lt→ltb _ _ p, replay_check_lem, replay_check_lem)
      (ground (
        arith,
        window_bit-or_word moved 0 (n - m) (length-shift_window s.recv_window _ v.eight),
        window_bit-shift_window s.recv_window (n - s.recv_highest) (n - m) v.eight v.words,
        ap (window_bit s.recv_window) (difference p),
      ))
  where
    difference : s.recv_highest < n → n - m - (n - s.recv_highest) ≡ s.recv_highest - m
    difference q = omega arith

replay_check-older :
    (s : Session) (n m : ℕ)
    → IsWindow s
    → s.recv_any ≡ true
    → ltb s.recv_highest n ≡ false
    → replay_check (replay_mark s n) m
      ≡ (ltb s.recv_highest (m + window_bits) && not (m == n) && replay_check s m)
unfolding replay_mark
replay_check-older s n m v h p = elim (Bool-cases (ltb (s.recv_highest - n) window_bits)) [
  | inl recent ↦
      rw (h, p, recent, replay_check_lem, replay_check_lem)
        (ground (
          arith,
          window_bit-or_word s.recv_window (s.recv_highest - n) (s.recv_highest - m) v.eight,
        ))
  | inr ancient ↦ rw (h, p, ancient, replay_check_lem) (ground (arith, replay_check_lem s m))
]

-- Marking a nonce refuses that nonce and those that fall out of the window, and changes the
-- verdict on no other.
pub replay_check-replay_mark :
    (s : Session) (n m : ℕ)
    → IsWindow s
    → replay_check (replay_mark s n) m
      ≡ (ltb (top s n) (m + window_bits) && not (m == n) && replay_check s m)
replay_check-replay_mark s n m v = elim (Bool-cases s.recv_any) [
  | inr first ↦ ground (arith, replay_check-first n m s first, replay_check_lem s m)
  | inl started ↦ ground (
    arith,
    started,
    replay_check-newer s n m v,
    replay_check-older s n m v,
    lt→ltb s.recv_highest n,
  )
]

length-or_word : (w : List ℕ) (i v : ℕ) → length (or_word w i v) ≡ length w
length-or_word w i v = length-set w i _

pub or_word-AreWords :
    (w : List ℕ) (i v : ℕ) → i < length w → v < 2 ^ 64 → AreWords w → AreWords (or_word w i v)
or_word-AreWords w i v h k ok j =
    ground (
      arith,
      get_or-set w i j (bit_or (get_or w i 0) v) 0,
      bit_or-lt 64 (get_or w i 0) v,
      ok i,
      ok j,
    )

pub pow-lt-word : (e : ℕ) → e < 64 → 2 ^ e < 2 ^ 64
pow-lt-word e h =
    omega (arith, pow-le-pow_right {n = 2} (omega arith) {i = e} {j = 63} (omega arith))

zeros-AreWords : AreWords (replicate 8 0)
zeros-AreWords i = rw (get_or-replicate {A = ℕ} 8 i 0) (omega arith)

mark_first-IsWindow : (s : Session) (n : ℕ) → s.recv_any ≡ false → IsWindow (replay_mark s n)
unfolding replay_mark
mark_first-IsWindow s n h = rw h (record {
  eight = refl;
  words = or_word-AreWords (replicate 8 0) 0 1 (omega arith) (omega arith) zeros-AreWords;
})

mark_newer-IsWindow :
    (s : Session) (n : ℕ)
    → IsWindow s
    → s.recv_any ≡ true
    → ltb s.recv_highest n ≡ true
    → IsWindow (replay_mark s n)
unfolding replay_mark
mark_newer-IsWindow s n v h p =
    let moved = shift_window s.recv_window (n - s.recv_highest) in
    let eight : length moved ≡ 8 = length-shift_window s.recv_window (n - s.recv_highest) v.eight in
    rw (h, p)
      (record {
        eight = length-or_word moved 0 1 ∙ eight;
        words =
            or_word-AreWords moved 0 1 (omega (arith, eight)) (omega arith)
              (shift_window-AreWords s.recv_window (n - s.recv_highest) v.eight v.words);
      })

mark_older-IsWindow :
    (s : Session) (n : ℕ)
    → IsWindow s
    → s.recv_any ≡ true
    → ltb s.recv_highest n ≡ false
    → IsWindow (replay_mark s n)
unfolding replay_mark
mark_older-IsWindow s n v h p =
    let d = s.recv_highest - n in
    elim (Bool-cases (ltb d window_bits)) [
      | inl recent ↦
          rw (h, p, recent)
            (record {
              eight = length-or_word s.recv_window (d / 64) _ ∙ v.eight;
              words =
                  or_word-AreWords s.recv_window (d / 64) (2 ^ (d % 64))
                    (omega (arith, v.eight, ltb→lt d window_bits recent))
                    (pow-lt-word (d % 64) (omega arith)) v.words;
            })
      | inr ancient ↦ rw (h, p, ancient) (record { eight = v.eight; words = v.words })
    ]

-- `replayMark` keeps the bitmap well formed.
pub replay_mark-IsWindow : (s : Session) (n : ℕ) → IsWindow s → IsWindow (replay_mark s n)
replay_mark-IsWindow s n v = elim (Bool-cases s.recv_any) [
  | inr first ↦ mark_first-IsWindow s n first
  | inl started ↦ elim (Bool-cases (ltb s.recv_highest n)) [
    | inl newer ↦ mark_newer-IsWindow s n v started newer
    | inr older ↦ mark_older-IsWindow s n v started older
  ]
]

pub fresh-IsWindow : IsWindow fresh
fresh-IsWindow = record { eight = refl; words = zeros-AreWords }

-- In a well-formed window, marking a nonce refuses that nonce and those 512 or more behind it, and
-- changes the verdict on no other.
pub replay_check_after :
    (s : Session) (n m : ℕ)
    → IsWindow s
    → replay_check (replay_mark s n) m
      ≡ (not (m == n) && (ltb n (m + window_bits) && replay_check s m))
replay_check_after s n m v = ground (arith, replay_check-replay_mark s n m v, replay_check_lem s m)
