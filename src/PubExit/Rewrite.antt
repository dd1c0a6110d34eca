-- ===== src/PubExit/Rewrite.antt =====
-- client/pubexit_proto.go: pxRewrite. A packet is overwritten in place; the bytes at an offset of the
-- transport header are at that offset behind the IP header.
use apgo.Prelude.{
  ℕ, ◌+◌, ◌/◌, Bool, not, ◌&&◌, ◌||◌, [], ◌∷◌, Option, none, some, ltb, ◌==◌, if◌then◌else◌, length,
  take, drop,
}
use apgo.Prelude.Text.{Text, text_eq, put_be}
use apgo.PubExit.Packet.{PxIpv4, byte_at, px_ihl, px_parse}
use apgo.PubExit.Checksum.{px_checksum, put_at, px_adjust}

-- The field at `start + field` zeroed, and the checksum of `len` bytes from `start` written there.
unfoldable pub checksum_at : (start field len : ℕ) → Text → Text
checksum_at start field len pkt =
    let zeroed = put_at (start + field) (0 ∷ 0 ∷ []) pkt in
    put_at (start + field) (put_be 2 (px_checksum (take len (drop start zeroed)))) zeroed

abbrev pub is_zero_at : ℕ → Text → Bool
is_zero_at off pkt = byte_at pkt off == 0 && byte_at pkt (off + 1) == 0

-- UDP, where zero stands for no checksum.
unfoldable pub rewrite_udp : ℕ → Text → Text → Text → Text
rewrite_udp off old addr pkt =
    let done = px_adjust off old addr pkt in
    if is_zero_at off pkt
    then pkt
    else if is_zero_at off done
    then put_at off (255 ∷ 255 ∷ []) done
    else done

-- The header that an ICMP error quotes, at `at`.
unfoldable pub rewrite_quoted : ℕ → Text → Text → Text → Text
rewrite_quoted at old addr pkt =
    let inner = drop at pkt in
    let ihl = px_ihl inner in
    let named = put_at (at + 12) addr pkt in
    if byte_at inner 0 / 16 == 4
      && (not (ltb ihl 20)
          && (not (ltb (length inner) ihl) && text_eq (take 4 (drop 12 inner)) old))
    then checksum_at at 10 ihl named
    else pkt

unfoldable pub rewrite_icmp : PxIpv4 → Bool → Text → Text → Text → Text
rewrite_icmp p src old addr pkt =
    let quoted = rewrite_quoted (p.ihl + 8) old addr pkt in
    let len = length (drop p.ihl pkt) in
    if not src
      && ((p.icmp_type == 3 || (p.icmp_type == 11 || p.icmp_type == 12)) && not (ltb len 28))
    then checksum_at p.ihl 2 len quoted
    else pkt

unfoldable pub rewrite_transport : PxIpv4 → Bool → Text → Text → Text → Text
rewrite_transport p src old addr pkt =
    if p.proto == 6
    then px_adjust (p.ihl + 16) old addr pkt
    else if p.proto == 17
    then rewrite_udp (p.ihl + 6) old addr pkt
    else if p.proto == 1
    then rewrite_icmp p src old addr pkt
    else pkt

unfoldable pub rewrite_parsed : PxIpv4 → Bool → Text → Text → Text
rewrite_parsed p src addr pkt =
    let off = if src then 12 else 16 in
    let old = if src then p.src else p.dst in
    let headed = checksum_at 0 10 p.ihl (put_at off addr pkt) in
    if text_eq old addr
    then pkt
    else if not p.first_frg
    then headed
    else rewrite_transport p src old addr headed

-- `none` is false: the packet is no IPv4 packet that the filter reads.
unfoldable pub px_rewrite : Text → Bool → Text → Option Text
px_rewrite pkt src addr = elim (px_parse pkt) [
  | none ↦ none
  | some p ↦ some (rewrite_parsed p src addr pkt)
]
