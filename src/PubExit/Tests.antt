-- ===== src/PubExit/Tests.antt =====
-- Datagrams and packets of a public exit at concrete inputs.
use apgo.Prelude.{ℕ, true, false, [], ◌∷◌, ◌++◌, Option, some, replicate, ◌≡◌, refl}
use apgo.Prelude.Text.{Text, be_value}
use apgo.E2e.{window_ok}
use apgo.E2e.Bitmap.{no_window-IsBitmap}
use apgo.PubExit.{new_channel, px_opened, px_refused, px_replayed, px_accept, px_read, px_open}
use apgo.PubExit.Channel.{open_all, px_open-px_replayed}
use apgo.PubExit.Packet.{px_is_public_ipv4, contains, in_none}

-- A cipher that adds sixteen bytes, and one that takes a kind and a body from before them.
abbrev open_cipher : ℕ → Text → Text → Option Text
open_cipher n hdr ct = some (1 ∷ 42 ∷ [])

abbrev datagram : ℕ → Text
datagram n = 32 ∷ 4 ∷ (replicate 11 0 ++ (n ∷ replicate 18 7))

first_is_opened : (px_open open_cipher (datagram 5) (new_channel 0)).1 ≡ px_opened 1 (42 ∷ [])
unfolding px_open px_read px_accept window_ok be_value
first_is_opened = refl

px_open-px_replayed_example :
    px_open open_cipher
      (datagram 5)
      (open_all open_cipher (datagram 6 ∷ []) (px_open open_cipher (datagram 5) (new_channel 0)).0)
    ≡ (
      open_all open_cipher (datagram 6 ∷ []) (px_open open_cipher (datagram 5) (new_channel 0)).0,
      px_refused px_replayed,
    )
px_open-px_replayed_example =
    px_open-px_replayed open_cipher (new_channel 0) (datagram 5) (42 ∷ []) 1 (datagram 6 ∷ [])
      no_window-IsBitmap first_is_opened

-- A UDP packet of 28 bytes from 10.0.0.1 to 8.8.8.8, without a UDP checksum.
abbrev front : Text
front = 69 ∷ 0 ∷ 0 ∷ 28 ∷ 0 ∷ 0 ∷ 0 ∷ 0 ∷ 64 ∷ 17 ∷ []

abbrev back : Text
back = 10 ∷ 0 ∷ 0 ∷ 1 ∷ 8 ∷ 8 ∷ 8 ∷ 8 ∷ []

is_public : px_is_public_ipv4 (8 ∷ 8 ∷ 8 ∷ 8 ∷ []) ≡ true
unfolding px_is_public_ipv4 in_none contains be_value
is_public = refl

is_private : px_is_public_ipv4 (172 ∷ 31 ∷ 0 ∷ 1 ∷ []) ≡ false
unfolding px_is_public_ipv4 in_none contains be_value
is_private = refl
