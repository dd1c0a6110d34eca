-- ===== src/Replay/Tests.antt =====
-- Runs of the anti-replay window and of recvPacket on concrete frames.
use apgo.Prelude.{ℕ, true, List, [], ◌∷◌, Option, some, ◌≡◌, refl}
use apgo.Prelude.Text.{be_value}
use apgo.Replay.{window_bits, fresh, replay_check, replay_mark, shift_window}
use apgo.Replay.Mark.{fresh-IsWindow}
use apgo.Replay.Packet.{plain, refused, replayed, recv_packet, recv_all, unpack}
use apgo.Window.{verdicts, promised}
use apgo.Replay.History.{session_window, verdicts-promised, recv_packet-replayed}

abbrev out_of_order : List ℕ
out_of_order = 5 ∷ 3 ∷ 5 ∷ 600 ∷ 3 ∷ 599 ∷ 599 ∷ []

late_but_new : replay_check (replay_mark (replay_mark fresh 600) 3) 599 ≡ true
unfolding replay_check replay_mark shift_window
late_but_new = refl

verdicts-promised_example :
    verdicts session_window fresh out_of_order ≡ promised window_bits [] out_of_order
verdicts-promised_example = verdicts-promised out_of_order

-- An open cipher and a frame of one byte with nonce 7; then one with nonce 9.
abbrev open_cipher : ℕ → List ℕ → Option (List ℕ)
open_cipher n c = some c

abbrev frame : ℕ → List ℕ
frame n = 0 ∷ 0 ∷ 0 ∷ 0 ∷ 0 ∷ 0 ∷ 0 ∷ n ∷ 0 ∷ 1 ∷ 42 ∷ []

frame_is_read : (recv_packet open_cipher some fresh (frame 7)).1 ≡ plain (42 ∷ [])
unfolding recv_packet unpack replay_check be_value
frame_is_read = refl

recv_packet-replayed_example :
    let t =
      recv_all open_cipher some (recv_packet open_cipher some fresh (frame 7)).0 (frame 9 ∷ []) in
    recv_packet open_cipher some t (frame 7) ≡ (t, refused replayed)
recv_packet-replayed_example =
    recv_packet-replayed open_cipher some fresh (frame 7) (42 ∷ []) (frame 9 ∷ []) fresh-IsWindow
      frame_is_read
