-- ===== src/Replay/Packet.antt =====
-- recvPacket of client/main.go: framing checks, the replay check, decryption, the mark, in this
-- order. The AEAD (`s.recv`) and the LZ4 unframing are parameters.
use apgo.Prelude.{
  ℕ, ◌+◌, not, ◌&&◌, List, [], ◌∷◌, Option, none, some, ltb, leb, if◌then◌else◌, take, drop, length,
}
use apgo.Prelude.Text.{be_value, text_eq}
use apgo.Replay.{Session, replay_check, replay_mark}

pub data RecvError : Type 0 where
  unexpected_eof replayed decrypt_failed bad_compression : RecvError

pub data RecvResult : Type 0 where
  plain : List ℕ → RecvResult
  refused : RecvError → RecvResult

abbrev pub compressed_tag : List ℕ
compressed_tag = 0xcf ∷ 0x4c ∷ 0x36 ∷ 0x42 ∷ []

-- What is done with an authentic plaintext.
unfoldable pub unpack : (List ℕ → Option (List ℕ)) → List ℕ → RecvResult
unpack unframe pt =
    if leb 8 (length pt) && text_eq (take 4 pt) compressed_tag
    then (elim (unframe pt) [ none ↦ refused bad_compression | some out ↦ plain out ])
    else plain pt

module _ (decrypt : ℕ → List ℕ → Option (List ℕ)) (unframe : List ℕ → Option (List ℕ)) where
  unfoldable pub recv_packet : Session → List ℕ → Session × RecvResult
  recv_packet s body =
      if ltb (length body) 10
      then (s, refused unexpected_eof)
      else let nonce = be_value (take 8 body) 0 in
        let n = be_value (take 2 (drop 8 body)) 0 in
        if ltb (length body) (10 + n)
        then (s, refused unexpected_eof)
        else if not (replay_check s nonce)
        then (s, refused replayed)
        else elim (decrypt nonce (take n (drop 10 body))) [
          | none ↦ (s, refused decrypt_failed)
          | some pt ↦ (replay_mark s nonce, unpack unframe pt)
        ]

-- The nonce that a frame claims.
abbrev pub claimed_nonce : List ℕ → ℕ
claimed_nonce body = be_value (take 8 body) 0

-- Frames received one after another.
unfoldable pub recv_all :
    (decrypt : ℕ → List ℕ → Option (List ℕ)) (unframe : List ℕ → Option (List ℕ))
    → Session
    → List (List ℕ)
    → Session
recv_all decrypt unframe s [] = s
recv_all decrypt unframe s (b ∷ bs) =
    recv_all decrypt unframe (recv_packet decrypt unframe s b).0 bs
