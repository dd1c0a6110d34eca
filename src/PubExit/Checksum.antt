-- ===== src/PubExit/Checksum.antt =====
-- client/pubexit_proto.go: the Internet checksum (pxChecksum) and its incremental update (pxAdjust).
use apgo.Prelude.{
  ℕ, zero, suc, ◌+◌, ◌-◌, ◌*◌, ◌/◌, ◌%◌, ◌^◌, ◌<◌, [], ◌∷◌, ◌++◌, ◌==◌, if◌then◌else◌, length, take,
  drop, Bool-cases, ◌≡◌, refl, ◌∙◌, inl, inr, arith,
}
use apgo.Prelude.Text.{Text, put_be}
use apgo.PubExit.Packet.{word_at}

-- `for s>>16 != 0 { s = s&0xffff + s>>16 }`; two rounds are enough below 2 ^ 32, as `fold-lt` shows.
unfoldable pub fold_from : ℕ → ℕ → ℕ
fold_from zero s = s
fold_from (suc fuel) s =
    let rest = fold_from fuel (s % 2 ^ 16 + s / 2 ^ 16) in if s / 2 ^ 16 == 0 then s else rest

unfoldable pub fold : ℕ → ℕ
fold s = fold_from 2 s

-- `^uint16(s)`
abbrev pub flip16 : ℕ → ℕ
flip16 s = 65535 - s % 2 ^ 16

unfoldable pub px_sum : Text → ℕ → ℕ
px_sum [] s = s
px_sum (a ∷ []) s = (s + a * 256) % 2 ^ 32
px_sum (a ∷ b ∷ bs) s = px_sum bs ((s + (a * 256 + b)) % 2 ^ 32)

unfoldable pub px_checksum : Text → ℕ
px_checksum b = flip16 (fold (px_sum b 0))

-- `pxAdjust` on the value of the field and on the two words of each address.
unfoldable pub adjusted : (field o1 o2 n1 n2 : ℕ) → ℕ
adjusted field o1 o2 n1 n2 = flip16 (fold (flip16 field + flip16 o1 + n1 + flip16 o2 + n2))

-- The bytes at an offset overwritten.
unfoldable pub put_at : ℕ → Text → Text → Text
put_at off new pkt = take off pkt ++ (new ++ drop (off + length new) pkt)

unfoldable pub px_adjust : ℕ → Text → Text → Text → Text
px_adjust off old new pkt =
    put_at off
      (put_be 2 (
        adjusted (word_at pkt off) (word_at old 0) (word_at old 2) (word_at new 0) (word_at new 2)))
      pkt

pub fold_from-lt : (s : ℕ) → s < 2 ^ 32 → fold_from 2 s < 2 ^ 16
unfolding fold_from
fold_from-lt s h = ground arith

-- Folding keeps a sum's remainder by 2 ^ 16 - 1.
pub fold_from-mod : (fuel s : ℕ) → fold_from fuel s % 65535 ≡ s % 65535
unfolding fold_from
fold_from-mod zero s = refl
fold_from-mod (suc fuel) s = elim (Bool-cases (s / 2 ^ 16 == 0)) [
  | inl low ↦ rw low refl
  | inr high ↦ rw high (fold_from-mod fuel (s % 2 ^ 16 + s / 2 ^ 16) ∙ omega arith)
]

-- The update of a checksum field for an address change keeps the sum of the field and the address's
-- words modulo 2 ^ 16 - 1: a field that balances a packet with the old address balances it with the
-- new one.
pub adjusted_balances :
    (field o1 o2 n1 n2 : ℕ)
    → field < 2 ^ 16
    → o1 < 2 ^ 16
    → o2 < 2 ^ 16
    → n1 < 2 ^ 16
    → n2 < 2 ^ 16
    → (adjusted field o1 o2 n1 n2 + n1 + n2) % 65535 ≡ (field + o1 + o2) % 65535
unfolding adjusted fold
adjusted_balances field o1 o2 n1 n2 hf h1 h2 k1 k2 =
    let s = flip16 field + flip16 o1 + n1 + flip16 o2 + n2 in
    omega (arith, fold_from-mod 2 s, fold_from-lt s (omega arith))
