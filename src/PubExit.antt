-- ===== src/PubExit.antt =====
-- client/pubexit_proto.go: the data channel of public exits and the rewriting of IPv4 packets.
-- Words wrap as uint16 and uint32 do; the AEADs of the two directions are parameters.
pub mod Channel
pub mod Packet
pub mod Checksum
pub mod Rewrite
pub mod Source
pub mod Valid
mod Tests
use apgo.Prelude.{
  ℕ, zero, suc, ◌+◌, ◌-◌, ◌*◌, ◌/◌, ◌%◌, ◌^◌, Bool, true, false, not, ◌&&◌, ◌||◌, List, [], ◌∷◌,
  ◌++◌, Option, none, some, ltb, leb, ◌==◌, if◌then◌else◌, length, take, drop, get_or,
}
use apgo.Prelude.Text.{Text, text_eq, be_value, put_be}
use apgo.E2e.{E2eWindow, window_ok, window_mark, no_window}

abbrev pub pkt_pub_exit : ℕ
pkt_pub_exit = 32

abbrev pub px_data : ℕ
px_data = 4

abbrev pub px_hdr_len : ℕ
px_hdr_len = 2 + 4 + 8

pub data PxError : Type 0 where
  px_short : PxError
  px_auth : PxError
  px_replayed : PxError

-- One end of a session; the two ciphers are parameters.
pub record PxChannel : Type 0 where
  pub sid : ℕ
  pub send_ctr : ℕ
  pub win : E2eWindow

abbrev pub new_channel : ℕ → PxChannel
new_channel sid = record { sid = sid; send_ctr = 0; win = no_window }

pub data PxOpened : Type 0 where
  px_opened : ℕ → Text → PxOpened
  px_refused : PxError → PxOpened

unfoldable pub px_header : ℕ → ℕ → Text
px_header sid ctr = pkt_pub_exit ∷ px_data ∷ (put_be 4 sid ++ put_be 8 ctr)

-- `seal`; the cipher seals a plaintext at a counter with the header.
unfoldable pub px_seal : (ℕ → Text → Text → Text) → ℕ → Text → PxChannel → PxChannel × Text
px_seal cipher kind body c =
    let ctr = (c.send_ctr + 1) % 2 ^ 64 in
    let hdr = px_header c.sid ctr in
    (record c { send_ctr = ctr }, hdr ++ cipher ctr hdr (kind ∷ body))

-- The second look at the window, after the packet authenticated.
unfoldable pub px_accept : ℕ → ℕ → Text → PxChannel → PxChannel × PxOpened
px_accept ctr kind body c =
    if window_ok c.win ctr
    then (record c { win = window_mark c.win ctr }, px_opened kind body)
    else (c, px_refused px_replayed)

unfoldable pub px_read : ℕ → Option Text → PxChannel → PxChannel × PxOpened
px_read ctr none c = (c, px_refused px_auth)
px_read ctr (some []) c = (c, px_refused px_auth)
px_read ctr (some (kind ∷ body)) c = px_accept ctr kind body c

abbrev pub px_ctr : Text → ℕ
px_ctr dgram = be_value (take 8 (drop 6 dgram)) 0

-- `open`; the cipher opens at a counter with the header.
unfoldable pub px_open : (ℕ → Text → Text → Option Text) → Text → PxChannel → PxChannel × PxOpened
px_open cipher dgram c =
    if ltb (length dgram) (px_hdr_len + 1 + 16)
    then (c, px_refused px_short)
    else if not (window_ok c.win (px_ctr dgram))
    then (c, px_refused px_replayed)
    else px_read (px_ctr dgram)
        (cipher (px_ctr dgram) (take px_hdr_len dgram) (drop px_hdr_len dgram)) c

unfoldable pub px_session_id : Text → Option ℕ
px_session_id dgram =
    if ltb (length dgram) 6 then none else some (be_value (take 4 (drop 2 dgram)) 0)
