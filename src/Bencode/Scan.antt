-- ===== src/Bencode/Scan.antt =====
-- Reading back one integer or one string that the writer wrote, whatever follows it.
use mathlib.Core.List.{append_assoc}
use mathlib.Core.Path.{ap₂}
use apgo.Prelude.{
  ℕ, zero, suc, ◌+◌, ◌≤◌, ◌<◌, List, [], ◌∷◌, ◌++◌, some, length, take, drop, length-append,
  take_append, drop_append, All, ◌≡◌, ◌≢◌, refl, sym, ap, ◌∙◌, arith,
}
use apgo.Prelude.Text.{
  Text, ℤ, pos, negsuc, print_nat, print_int, parse_int, parse_int-print_int, IsInt64, AreDigits,
  print_nat-AreDigits, int64_bound,
}
use apgo.Bencode.{str, int, ok, index_byte, decode_int, decode_str, encode_str}

-- No byte of the text is `c`.
abbrev Without : ℕ → Text → Type 0
Without c = All (λ b. b ≢ c)

index_byte_first : (c : ℕ) (s t : Text) → Without c s → index_byte (s ++ c ∷ t) c ≡ some (length s)
unfolding index_byte
index_byte_first c [] t w = ground arith
index_byte_first c (b ∷ s) t w = ground (arith, index_byte_first c s t w.1)

digits-Without : (c : ℕ) (s : Text) → b'9' < c → AreDigits s → Without c s
digits-Without c [] h d = tt
digits-Without c (b ∷ s) h d = (omega arith, digits-Without c s h d.1)

print_int-Without : (c : ℕ) (z : ℤ) → b'9' < c → Without c (print_int z)
unfolding print_int
print_int-Without c (pos n) h = digits-Without c (print_nat n) h (print_nat-AreDigits n)
print_int-Without c (negsuc n) h =
    (omega arith, digits-Without c (print_nat (suc n)) h (print_nat-AreDigits (suc n)))

drop_past {ℓ} :
    {A : Type ℓ} (xs : List A) (y : A) (ys : List A) → drop (length xs + 1) (xs ++ y ∷ ys) ≡ ys
drop_past xs y ys =
    let n : length (xs ++ y ∷ []) ≡ length xs + 1 = omega (arith, length-append xs (y ∷ [])) in
    ap (λ k. drop k (xs ++ y ∷ ys)) (sym n)
    ∙ ap (drop (length (xs ++ y ∷ []))) (sym (append_assoc xs (y ∷ []) ys))
    ∙ drop_append (xs ++ y ∷ []) ys

decode_int_at :
    (data_ : Text) (i : ℕ) (z : ℤ)
    → index_byte data_ b'e' ≡ some i
    → parse_int (drop 1 (take i data_)) ≡ some z
    → decode_int data_ ≡ ok (int z) (drop (i + 1) data_)
unfolding decode_int
decode_int_at data_ i z e p = ground arith

pub decode_int_written :
    (z : ℤ) (rest : Text)
    → IsInt64 z
    → decode_int (b'i' ∷ (print_int z ++ b'e' ∷ rest)) ≡ ok (int z) rest
decode_int_written z rest h =
    let p = print_int z in
    decode_int_at (b'i' ∷ (p ++ b'e' ∷ rest)) (suc (length p)) z
      (index_byte_first b'e' (b'i' ∷ p) rest (omega arith, print_int-Without b'e' z (omega arith)))
      (ap parse_int (take_append p (b'e' ∷ rest)) ∙ parse_int-print_int z h)
    ∙ ap (ok (int z)) (drop_past (b'i' ∷ p) b'e' rest)

-- A length that Atoi can hold.
abbrev pub FitsLength : Text → Type 0
FitsLength s = length s < int64_bound

parse_length : (n : ℕ) → n < int64_bound → parse_int (print_nat n) ≡ some (pos n)
parse_length n h =
    let same : print_int (pos n) ≡ print_nat n = unfold print_int in refl in
    ap parse_int (sym same) ∙ parse_int-print_int (pos n) h

decode_str_at :
    (data_ : Text) (i n : ℕ)
    → index_byte data_ b':' ≡ some i
    → parse_int (take i data_) ≡ some (pos n)
    → i + 1 + n ≤ length data_
    → decode_str data_ ≡ ok (str (take n (drop (i + 1) data_))) (drop (i + 1 + n) data_)
unfolding decode_str
decode_str_at data_ i n e p h = ground arith

drop-drop {ℓ} : {A : Type ℓ} (m n : ℕ) (xs : List A) → drop (m + n) xs ≡ drop n (drop m xs)
drop-drop zero n xs = let z : 0 + n ≡ n = omega arith in ap (λ k. drop k xs) z
drop-drop (suc m) zero [] = let s : suc m + 0 ≡ suc m = omega arith in ap (λ k. drop k []) s
drop-drop (suc m) (suc n) [] =
    let s : suc m + suc n ≡ suc (m + suc n) = omega arith in ap (λ k. drop k []) s
drop-drop (suc m) n (x ∷ xs) =
    let s : suc m + n ≡ suc (m + n) = omega arith in ap (λ k. drop k (x ∷ xs)) s ∙ drop-drop m n xs

pub decode_str_written :
    (s rest : Text) → FitsLength s → decode_str (encode_str s ++ rest) ≡ ok (str s) rest
unfolding encode_str
decode_str_written s rest h =
    let d = print_nat (length s) in
    let whole = append_assoc d (b':' ∷ s) rest in
    let past = drop_past d b':' (s ++ rest) in
    let data_ = d ++ b':' ∷ (s ++ rest) in
    ap decode_str whole
    ∙ decode_str_at data_ (length d) (length s)
        (index_byte_first b':' d (s ++ rest)
          (digits-Without b':' d (omega arith) (print_nat-AreDigits (length s))))
        (ap parse_int (take_append d (b':' ∷ (s ++ rest))) ∙ parse_length (length s) h)
        (omega (arith, length-append d (b':' ∷ (s ++ rest)), length-append s rest))
    ∙ ap₂ (λ t r. ok (str t) r) (ap (take (length s)) past ∙ take_append s rest)
        (drop-drop (length d + 1) (length s) data_ ∙ ap (drop (length s)) past ∙ drop_append s rest)
