-- ===== src/PubExit/Packet.antt =====
-- client/pubexit_proto.go: what the filter reads of an IPv4 packet (pxParse), and which addresses are
-- the public internet (pxIsPublicIPv4).
use apgo.Prelude.{
  ℕ, ◌+◌, ◌-◌, ◌*◌, ◌/◌, ◌%◌, ◌^◌, Bool, true, false, not, ◌&&◌, List, [], ◌∷◌, Option, none, some,
  ltb, ◌==◌, if◌then◌else◌, length, take, drop, get_or,
}
use apgo.Prelude.Text.{Text, be_value}

pub record PxIpv4 : Type 0 where
  pub ihl : ℕ
  pub proto : ℕ
  pub src : Text
  pub dst : Text
  pub first_frg : Bool
  pub dport : ℕ
  pub has_port : Bool
  pub icmp_type : ℕ
  pub tcp_flags : ℕ

abbrev pub byte_at : Text → ℕ → ℕ
byte_at pkt i = get_or pkt i 0

abbrev pub word_at : Text → ℕ → ℕ
word_at pkt i = be_value (take 2 (drop i pkt)) 0

unfoldable pub px_ihl : Text → ℕ
px_ihl pkt = byte_at pkt 0 % 16 * 4

-- The version, the header's length and the total length.
unfoldable pub px_framed : Text → Bool
px_framed pkt =
    not (ltb (length pkt) 20)
    && (byte_at pkt 0 / 16 == 4
        && (not (ltb (px_ihl pkt) 20)
            && (not (ltb (word_at pkt 2) (px_ihl pkt)) && word_at pkt 2 == length pkt)))

unfoldable pub px_base : Text → PxIpv4
px_base pkt = record {
  ihl = px_ihl pkt;
  proto = byte_at pkt 9;
  src = take 4 (drop 12 pkt);
  dst = take 4 (drop 16 pkt);
  first_frg = word_at pkt 6 % 2 ^ 13 == 0;
  dport = 0;
  has_port = false;
  icmp_type = 0;
  tcp_flags = 0;
}

-- The transport header of a first fragment.
unfoldable pub px_transport : PxIpv4 → Text → Option PxIpv4
px_transport p l4 =
    if p.proto == 6
    then if ltb (length l4) 20
      then none
      else some (record p { dport = word_at l4 2; has_port = true; tcp_flags = byte_at l4 13 })
    else if p.proto == 17
    then if ltb (length l4) 8
      then none
      else some (record p { dport = word_at l4 2; has_port = true })
    else if p.proto == 1
    then if ltb (length l4) 8 then none else some (record p { icmp_type = byte_at l4 0 })
    else some p

-- `pxParse`, `none` being a packet that is refused.
unfoldable pub px_parse : Text → Option PxIpv4
px_parse pkt =
    let p = px_base pkt in
    if not (px_framed pkt)
    then none
    else if not p.first_frg
    then some p
    else px_transport p (drop p.ihl pkt)

-- An address range: its first address, and the number of leading bits that it fixes.
pub record Range : Type 0 where
  pub net : ℕ
  pub bits : ℕ

abbrev pub v4 : (a b c d : ℕ) → ℕ
v4 a b c d = ((a * 256 + b) * 256 + c) * 256 + d

abbrev pub range : ℕ → ℕ → Range
range net bits = record { net = net; bits = bits }

abbrev pub px_non_public : List Range
px_non_public =
    range (v4 0 0 0 0) 8
    ∷ range (v4 10 0 0 0) 8
    ∷ range (v4 100 64 0 0) 10
    ∷ range (v4 127 0 0 0) 8
    ∷ range (v4 169 254 0 0) 16
    ∷ range (v4 172 16 0 0) 12
    ∷ range (v4 192 0 0 0) 24
    ∷ range (v4 192 0 2 0) 24
    ∷ range (v4 192 31 196 0) 24
    ∷ range (v4 192 52 193 0) 24
    ∷ range (v4 192 88 99 0) 24
    ∷ range (v4 192 168 0 0) 16
    ∷ range (v4 192 175 48 0) 24
    ∷ range (v4 198 18 0 0) 15
    ∷ range (v4 198 51 100 0) 24
    ∷ range (v4 203 0 113 0) 24
    ∷ range (v4 224 0 0 0) 3
    ∷ []

-- net.IPNet.Contains, of numbers.
unfoldable pub contains : Range → ℕ → Bool
contains r ip = ip / 2 ^ (32 - r.bits) == r.net / 2 ^ (32 - r.bits)

unfoldable pub in_none : List Range → ℕ → Bool
in_none [] ip = true
in_none (r ∷ rs) ip = not (contains r ip) && in_none rs ip

unfoldable pub px_is_public_ipv4 : Text → Bool
px_is_public_ipv4 ip = in_none px_non_public (be_value ip 0)
