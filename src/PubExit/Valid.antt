-- ===== src/PubExit/Valid.antt =====
-- client/pubexit_proto.go: the lemmas on a checksum in its place.
use apgo.Prelude.{
  ℕ, zero, suc, ◌+◌, ◌*◌, ◌/◌, ◌%◌, ◌^◌, ◌≤◌, ◌<◌, [], ◌∷◌, ◌++◌, length, All, All-append,
  length-append, ◌≡◌, ap, ◌∙◌, arith,
}
use apgo.Prelude.Text.{Text, put_be}
use apgo.PubExit.Checksum.{
  px_sum, fold, fold_from, fold_from-lt, fold_from-mod, flip16, px_checksum,
}

abbrev pub AreBytes : Text → Type 0
AreBytes = All (λ b. b < 256)

-- The sum of the words, without wrap-around.
plain_sum : Text → ℕ
plain_sum [] = 0
plain_sum (a ∷ []) = a * 256
plain_sum (a ∷ b ∷ bs) = a * 256 + b + plain_sum bs

px_sum-plain_sum :
    (bs : Text) (s : ℕ)
    → AreBytes bs
    → s + 65536 * length bs < 2 ^ 32
    → px_sum bs s ≡ s + plain_sum bs
unfolding px_sum plain_sum
px_sum-plain_sum [] s v h = omega arith
px_sum-plain_sum (a ∷ []) s v h = omega (arith, v.0)
px_sum-plain_sum (a ∷ b ∷ bs) s v h =
    let small : (s + (a * 256 + b)) % 2 ^ 32 ≡ s + (a * 256 + b) = omega (arith, v.0, v.1.0) in
    rw small
      (omega (arith, px_sum-plain_sum bs (s + (a * 256 + b)) v.1.1 (omega (arith, v.0, v.1.0))))

-- The field at an even offset adds its own value.
plain_sum-field :
    (k : ℕ) (front back : Text) (a b : ℕ)
    → length front ≡ 2 * k
    → plain_sum (front ++ (a ∷ b ∷ back)) ≡ plain_sum (front ++ (0 ∷ 0 ∷ back)) + (a * 256 + b)
unfolding plain_sum
plain_sum-field k [] back a b h = omega arith
plain_sum-field k (x ∷ []) back a b h = absurd (omega (arith, h))
plain_sum-field zero (x ∷ y ∷ front) back a b h = absurd (omega (arith, h))
plain_sum-field (suc k) (x ∷ y ∷ front) back a b h =
    omega (arith, plain_sum-field k front back a b (omega (arith, h)))

plain_sum-le : (bs : Text) → AreBytes bs → plain_sum bs ≤ 65536 * length bs
unfolding plain_sum
plain_sum-le [] v = omega arith
plain_sum-le (a ∷ []) v = omega (arith, v.0)
plain_sum-le (a ∷ b ∷ bs) v = omega (arith, v.0, v.1.0, plain_sum-le bs v.1.1)

fold_from-le : (fuel s : ℕ) → fold_from fuel s ≤ s
unfolding fold_from
fold_from-le zero s = omega arith
fold_from-le (suc fuel) s = ground (arith, fold_from-le fuel (s % 2 ^ 16 + s / 2 ^ 16))

fold_from-pos : (fuel s : ℕ) → 0 < s → 0 < fold_from fuel s
unfolding fold_from
fold_from-pos zero s h = h
fold_from-pos (suc fuel) s h = ground (arith, fold_from-pos fuel (s % 2 ^ 16 + s / 2 ^ 16))

-- A sum with its own folded complement folds to all ones.
complement_folds : (s : ℕ) → s + 65536 < 2 ^ 32 → flip16 (fold (s + flip16 (fold s))) ≡ 0
unfolding fold
complement_folds s h =
    let c = flip16 (fold_from 2 s) in
    omega (
      arith,
      fold_from-mod 2 s,
      fold_from-lt s (omega arith),
      fold_from-mod 2 (s + c),
      fold_from-lt (s + c) (omega arith),
      fold_from-le 2 s,
      fold_from-pos 2 (s + c) (omega (arith, fold_from-le 2 s)),
    )

field-AreBytes :
    (front back : Text) (a b : ℕ)
    → AreBytes front
    → AreBytes back
    → a < 256
    → b < 256
    → AreBytes (front ++ (a ∷ b ∷ back))
field-AreBytes front back a b vf vb p q =
    All-append (λ x. x < 256) front (a ∷ b ∷ back) vf (p, (q, vb))

-- The sum of the whole with a field, by that with the field zeroed.
px_sum-field :
    (k : ℕ) (front back : Text) (a b : ℕ)
    → length front ≡ 2 * k
    → length front + length back < 65533
    → AreBytes front
    → AreBytes back
    → a < 256
    → b < 256
    → px_sum (front ++ (a ∷ b ∷ back)) 0 ≡ plain_sum (front ++ (0 ∷ 0 ∷ back)) + (a * 256 + b)
px_sum-field k front back a b h l vf vb p q = omega (
  arith,
  px_sum-plain_sum (front ++ (a ∷ b ∷ back)) 0 (field-AreBytes front back a b vf vb p q)
      (omega (arith, length-append front (a ∷ b ∷ back))),
  plain_sum-field k front back a b h,
)

-- The checksum of bytes whose field at an even offset is zero, written into that field, makes the
-- checksum of all of them zero, which is how a receiver verifies it. There are fewer than 65535 bytes.
pub px_checksum_verifies :
    (k : ℕ) (front back : Text)
    → length front ≡ 2 * k
    → length front + length back < 65533
    → AreBytes front
    → AreBytes back
    → px_checksum (front ++ (put_be 2 (px_checksum (front ++ (0 ∷ 0 ∷ back))) ++ back)) ≡ 0
unfolding px_checksum put_be
px_checksum_verifies k front back h l vf vb =
    let zeroed = front ++ (0 ∷ 0 ∷ back) in
    let s = plain_sum zeroed in
    let c = flip16 (fold s) in
    let start : px_sum zeroed 0 ≡ s =
      px_sum-field k front back 0 0 h l vf vb (omega arith) (omega arith) ∙ omega arith in
    let bound : s ≤ 65536 * length zeroed =
      plain_sum-le zeroed (field-AreBytes front back 0 0 vf vb (omega arith) (omega arith)) in
    let parts : c / 256 % 256 * 256 + c % 256 ≡ c = omega arith in
    let whole : px_sum (front ++ (c / 256 % 256 ∷ c % 256 ∷ back)) 0 ≡ s + c =
      px_sum-field k front back (c / 256 % 256) (c % 256) h l vf vb (omega arith) (omega arith)
      ∙ ap (λ (t : ℕ). s + t) parts in
    rw (start, whole)
      (complement_folds s (omega (arith, bound, length-append front (0 ∷ 0 ∷ back))))
