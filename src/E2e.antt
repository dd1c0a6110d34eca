-- ===== src/E2e.antt =====
-- client/e2erelay.go: the replay window of an end-to-end key (e2eWindow). The opener that keeps one
-- window for each key is in E2e/Opener.
-- A counter is a uint64; the words wrap at 2 ^ 64, and every subtraction is guarded as in the source.
pub mod Bits
pub mod Bitmap
pub mod Opener
pub mod Sealer
pub mod Sealed
pub mod Delivery
pub mod SealStep
pub mod Nonces
pub mod Table
pub mod Bounded
pub mod Spent
pub mod Once
mod Tests
use Prim.Native.Nat.{bit_and, bit_or}
use apgo.Replay.{or_word}
use apgo.Prelude.{
  ℕ, zero, suc, ◌+◌, ◌-◌, ◌*◌, ◌/◌, ◌%◌, ◌^◌, Bool, true, false, not, ◌&&◌, ◌||◌, List, [], ◌∷◌,
  ltb, leb, ◌==◌, if◌then◌else◌, get_or, set, replicate,
}

abbrev pub e2e_window_words : ℕ
e2e_window_words = 16

abbrev pub e2e_window_bits : ℕ
e2e_window_bits = e2e_window_words * 64

pub record E2eWindow : Type 0 where
  pub any : Bool
  pub hi : ℕ
  pub bits : List ℕ

unfoldable pub window_ok : E2eWindow → ℕ → Bool
window_ok w n =
    if not w.any || ltb w.hi n
    then true
    else let d = w.hi - n in
      if leb e2e_window_bits d
      then false
      else bit_and (get_or w.bits (d / 64) 0) (2 ^ (d % 64)) == 0

-- `v` of the loop, for the word `j`.
unfoldable pub shifted_at : ℕ → ℕ → ℕ → List ℕ → ℕ
shifted_at ws bs j w =
    let v = get_or w (j - ws) 0 * 2 ^ bs % 2 ^ 64 in
    if not (leb ws j)
    then 0
    else if ltb 0 bs && ltb 0 (j - ws)
    then bit_or v (get_or w (j - ws - 1) 0 / 2 ^ (64 - bs))
    else v

-- `for j := e2eWindowWords - 1; j >= 0; j--`; the argument is j + 1.
unfoldable pub shift_words : ℕ → ℕ → ℕ → List ℕ → List ℕ
shift_words ws bs zero w = w
shift_words ws bs (suc j) w = shift_words ws bs j (set w j (shifted_at ws bs j w))

unfoldable pub shift_bits : List ℕ → ℕ → List ℕ
shift_bits w s =
    if leb e2e_window_bits s
    then replicate e2e_window_words 0
    else shift_words (s / 64) (s % 64) e2e_window_words w

unfoldable pub window_mark : E2eWindow → ℕ → E2eWindow
window_mark w n =
    if not w.any
    then record { any = true; hi = n; bits = set (replicate e2e_window_words 0) 0 1 }
    else if ltb w.hi n
    then record w { hi = n; bits = or_word (shift_bits w.bits (n - w.hi)) 0 1 }
    else let d = w.hi - n in
      if ltb d e2e_window_bits
      then record w { bits = or_word w.bits (d / 64) (2 ^ (d % 64)) }
      else w

-- A receive state's window before its first packet.
abbrev pub no_window : E2eWindow
no_window = record { any = false; hi = 0; bits = replicate e2e_window_words 0 }
