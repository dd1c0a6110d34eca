-- ===== src/Dht/Routable.antt =====
-- client/dht.go: dhtRoutableAddr, with the tests of net.IP on four or sixteen bytes that it calls.
use apgo.Prelude.{
  ℕ, ◌/◌, Bool, false, not, ◌&&◌, ◌||◌, [], ◌∷◌, ◌++◌, Option, none, some, ltb, leb, ◌==◌,
  if◌then◌else◌, length, get_or, replicate,
}
use apgo.Prelude.Text.{Text, text_eq}
use apgo.Dht.{Endpoint, to4}

abbrev pub byte : Text → ℕ → ℕ
byte ip i = get_or ip i 0

-- IsUnspecified, IsLoopback, IsLinkLocalUnicast, IsLinkLocalMulticast, IsMulticast or IsPrivate, of
-- an address with a four-byte form.
unfoldable pub is_special4 : Text → Bool
is_special4 v4 =
    text_eq v4 (replicate 4 0)
    || (byte v4 0 == 127
        || (byte v4 0 == 169 && byte v4 1 == 254
            || (byte v4 0 / 16 == 14
                || (byte v4 0 == 10
                    || (byte v4 0 == 172 && byte v4 1 / 16 == 1
                        || byte v4 0 == 192 && byte v4 1 == 168)))))

-- The same, of an address without one.
unfoldable pub is_special6 : Text → Bool
is_special6 ip =
    not (length ip == 16)
    || (text_eq ip (replicate 16 0)
        || (text_eq ip (replicate 15 0 ++ (1 ∷ []))
            || (byte ip 0 == 254 && byte ip 1 / 64 == 2
                || (byte ip 0 == 255 || byte ip 0 / 2 == 126))))

-- 0.0.0.0/8 and 100.64.0.0/10
unfoldable pub is_unusable4 : Text → Bool
is_unusable4 v4 =
    byte v4 0 == 0 || (byte v4 0 == 100 && (leb 64 (byte v4 1) && leb (byte v4 1) 127))

-- The argument is `none` for a nil *net.UDPAddr.
unfoldable pub dht_routable_addr : Option Endpoint → Bool
dht_routable_addr none = false
dht_routable_addr (some a) = if a.port == 0 || ltb 65535 a.port then false else elim (to4 a.ip) [
  | none ↦ not (is_special6 a.ip)
  | some v4 ↦ not (is_special4 v4) && not (is_unusable4 v4)
]
