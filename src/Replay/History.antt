-- ===== src/Replay/History.antt =====
-- The window against the history of nonces that it accepted.
use apgo.Prelude.{ℕ, true, false, List, [], ◌∷◌, Option, ◌≡◌, ◌⊎◌, refl, inl, inr, arith}
use apgo.Replay.Mark.{IsWindow, replay_mark-IsWindow, fresh-IsWindow, replay_check_after}
use apgo.Replay.Packet.{RecvResult, plain, refused, replayed, recv_packet, recv_all, claimed_nonce}
use apgo.Window.{
  ReplayWindow, verdicts, promised, window-promised, mark_refuses, mark_keeps_refusal,
}
use apgo.Replay.{window_bits, Session, replay_check, replay_mark, fresh}

pub fresh_takes : (m : ℕ) → replay_check fresh m ≡ true
unfolding replay_check
fresh_takes m = refl

abbrev pub session_window : ReplayWindow Session
session_window = record {
  size = window_bits;
  fresh = fresh;
  check = replay_check;
  mark = replay_mark;
  IsWell = IsWindow;
  fresh_well = fresh-IsWindow;
  mark_well = replay_mark-IsWindow;
  check_fresh = fresh_takes;
  check_mark = replay_check_after;
}

-- For every sequence of authentic nonces, the bitmap of a session gives the verdicts of the full
-- history: a nonce is accepted exactly when it was not accepted before and no accepted nonce is 512
-- or more ahead of it.
pub verdicts-promised :
    (ns : List ℕ) → verdicts session_window fresh ns ≡ promised window_bits [] ns
verdicts-promised = window-promised session_window

module _ (decrypt : ℕ → List ℕ → Option (List ℕ)) (unframe : List ℕ → Option (List ℕ)) where
  abbrev recv : Session → List ℕ → Session × RecvResult
  recv = recv_packet decrypt unframe

  -- A call leaves the session alone, or marks the nonce of the frame.
  recv_packet_state :
      (s : Session) (body : List ℕ)
      → ((recv s body).0 ≡ s) ⊎ ((recv s body).0 ≡ replay_mark s (claimed_nonce body))
  unfolding recv_packet
  recv_packet_state s body = ground arith

  -- A frame that yields a plaintext was new, and its nonce is marked.
  recv_packet_plain :
      (s : Session) (body pt : List ℕ)
      → (recv s body).1 ≡ plain pt
      → (recv s body).0 ≡ replay_mark s (claimed_nonce body)
  unfolding recv_packet
  recv_packet_plain s body pt h = ground arith

  recv_packet_refusal :
      (s t : Session) (body pt : List ℕ)
      → (recv s body).1 ≡ plain pt
      → replay_check t (claimed_nonce body) ≡ false
      → recv t body ≡ (t, refused replayed)
  unfolding recv_packet
  recv_packet_refusal s t body pt h c = ground arith

  recv_all_keeps :
      (bs : List (List ℕ)) (s : Session) (n : ℕ)
      → IsWindow s
      → replay_check s n ≡ false
      → replay_check (recv_all decrypt unframe s bs) n ≡ false
  unfolding recv_all
  recv_all_keeps [] s n v h = h
  recv_all_keeps (b ∷ bs) s n v h = elim (recv_packet_state s b) [
    | inl same ↦ rw same (recv_all_keeps bs s n v h)
    | inr marked ↦ rw marked (
        recv_all_keeps bs (replay_mark s (claimed_nonce b)) n
          (replay_mark-IsWindow s (claimed_nonce b) v)
          (mark_keeps_refusal session_window s (claimed_nonce b) n v h))
  ]

  -- A frame that a session with a well-formed window decrypted once is refused from then on, whatever
  -- frames arrive in between.
  pub recv_packet-replayed :
      (s : Session) (body pt : List ℕ) (between : List (List ℕ))
      → IsWindow s
      → (recv_packet decrypt unframe s body).1 ≡ plain pt
      → let t = recv_all decrypt unframe (recv_packet decrypt unframe s body).0 between in
        recv_packet decrypt unframe t body ≡ (t, refused replayed)
  recv_packet-replayed s body pt between v h =
      let n = claimed_nonce body in
      recv_packet_refusal s _ body pt h (
        rw (recv_packet_plain s body pt h) (
          recv_all_keeps between (replay_mark s n) n (replay_mark-IsWindow s n v)
            (mark_refuses session_window s n v)))
