-- ===== src/Replay.antt =====
-- client/sessions.go: the anti-replay window of a session (replayCheck, replayMark, shiftWindow),
-- and the order in which handleDataPacket of client/main.go calls them.
-- The bitmap is the eight 64-bit words of the source, word 0 the least significant.
-- A nonce is a uint64; every subtraction below is guarded, as in the source, and none wraps.
pub mod Shift
pub mod Mark
pub mod Packet
pub mod History
mod Tests
use Prim.Native.Nat.{bit_and, bit_or}
use apgo.Prelude.{
  ℕ, zero, suc, ◌+◌, ◌-◌, ◌*◌, ◌/◌, ◌%◌, ◌^◌, Bool, true, false, not, List, [], ◌∷◌, ltb, leb, ◌==◌,
  if◌then◌else◌, get_or, set, replicate,
}

abbrev pub window_words : ℕ
window_words = 8

abbrev pub window_bits : ℕ
window_bits = window_words * 64

pub record Session : Type 0 where
  pub recv_highest : ℕ
  pub recv_window : List ℕ
  pub recv_any : Bool

unfoldable pub replay_check : Session → ℕ → Bool
replay_check s nonce =
    if not s.recv_any
    then true
    else if ltb s.recv_highest nonce
    then true
    else let diff = s.recv_highest - nonce in
      if leb window_bits diff
      then false
      else bit_and (get_or s.recv_window (diff / 64) 0) (2 ^ (diff % 64)) == 0

-- `for i := replayWindowWords - 1; i >= 0; i--`, over the words; the argument is i + 1.
pub move_words : ℕ → ℕ → List ℕ → List ℕ
move_words word_shift zero w = w
move_words word_shift (suc i) w =
    move_words word_shift i (set w i (if leb word_shift i then get_or w (i - word_shift) 0 else 0))

-- `v := recvWindow[i] << bitShift`, joined with the bits that word i - 1 hands up.
pub shifted_word : ℕ → ℕ → List ℕ → ℕ
shifted_word bit_shift i w =
    let v = get_or w i 0 * 2 ^ bit_shift % 2 ^ 64 in
    if ltb 0 i then bit_or v (get_or w (i - 1) 0 / 2 ^ (64 - bit_shift)) else v

pub move_bits : ℕ → ℕ → List ℕ → List ℕ
move_bits bit_shift zero w = w
move_bits bit_shift (suc i) w = move_bits bit_shift i (set w i (shifted_word bit_shift i w))

unfoldable pub shift_window : List ℕ → ℕ → List ℕ
shift_window w shift =
    if leb window_bits shift
    then replicate window_words 0
    else let word_shift = shift / 64 in
      let bit_shift = shift % 64 in
      let moved = if ltb 0 word_shift then move_words word_shift window_words w else w in
      if ltb 0 bit_shift then move_bits bit_shift window_words moved else moved

-- `recvWindow[i] |= v`
abbrev pub or_word : List ℕ → ℕ → ℕ → List ℕ
or_word w i v = set w i (bit_or (get_or w i 0) v)

unfoldable pub replay_mark : Session → ℕ → Session
replay_mark s nonce =
    if not s.recv_any
    then record {
      recv_highest = nonce;
      recv_window = set (replicate window_words 0) 0 1;
      recv_any = true;
    }
    else if ltb s.recv_highest nonce
    then record s {
      recv_highest = nonce;
      recv_window = or_word (shift_window s.recv_window (nonce - s.recv_highest)) 0 1;
    }
    else let diff = s.recv_highest - nonce in
      if ltb diff window_bits
      then record s { recv_window = or_word s.recv_window (diff / 64) (2 ^ (diff % 64)) }
      else s

-- A session as `set` receives it: nothing received.
abbrev pub fresh : Session
fresh = record { recv_highest = 0; recv_window = replicate window_words 0; recv_any = false }
