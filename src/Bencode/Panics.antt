-- ===== src/Bencode/Panics.antt =====
-- client/bencode.go: the length of a string that is past the end of every text (bdecodeValue).
use apgo.Prelude.{
  ℕ, suc, ◌+◌, ◌<◌, ◌∷◌, ◌++◌, some, ltb, length, take, lt→ltb, arith, true, ◌≡◌, refl, ap, ◌∙◌,
}
use apgo.Prelude.Text.{Text, codes, pos, parse_int, int64_bound}
use apgo.Bencode.{
  Value, Fields, end, Parsed, Error, err, slice_out_of_range, index_byte, decode_str, decode_fields,
  decode_value, bdecode, as_dict, past_end, max_depth,
}

decode_str-past_end :
    (s : Text) (colon n : ℕ)
    → index_byte s b':' ≡ some colon
    → parse_int (take colon s) ≡ some (pos n)
    → ltb (length s) (colon + 1 + n) ≡ true
    → decode_str s ≡ err (past_end (colon + 1 + n))
unfolding decode_str
decode_str-past_end s colon n found read long = rw (decode_str, found, read, long) refl

decode_value-digit :
    (budget : ℕ) (s : Text) → decode_value (suc budget) (b'9' ∷ s) ≡ decode_str (b'9' ∷ s)
unfolding decode_value
decode_value-digit budget s = refl

decode_value-dict :
    (budget : ℕ) (s : Text)
    → decode_value (suc budget) (b'd' ∷ s)
      ≡ as_dict (decode_fields (decode_value budget) (suc (length s)) end s)
unfolding decode_value
decode_value-dict budget s = refl

-- An error in the first key is that of the map.
decode_fields-err :
    (value : Text → Parsed Value) (fuel : ℕ) (acc : Fields) (s : Text) (e : Error)
    → value (b'9' ∷ s) ≡ err e
    → decode_fields value (suc fuel) acc (b'9' ∷ s) ≡ err e
unfolding decode_fields
decode_fields-err value fuel acc s e fails = rw (decode_fields, fails) refl

abbrev huge : ℕ
huge = 9_223_372_036_854_775_807

-- The string itself.
decode_str_panics :
    (rest : Text)
    → length rest + 20 < int64_bound
    → decode_str (codes "9223372036854775807:" ++ rest) ≡ err slice_out_of_range
unfolding index_byte parse_int
decode_str_panics rest short =
    decode_str-past_end (codes "9223372036854775807:" ++ rest) 19 huge refl refl
      (lt→ltb _ (20 + huge) (omega arith))

-- A dictionary whose first key claims 2 ^ 63 - 1 bytes makes the reader panic, whatever follows, in
-- every text that is shorter than 2 ^ 63 bytes.
pub bdecode_panics :
    (rest : Text)
    → length rest + 21 < int64_bound
    → bdecode (codes "d9223372036854775807:" ++ rest) ≡ err slice_out_of_range
unfolding bdecode
bdecode_panics rest short =
    decode_value-dict max_depth _
    ∙ ap as_dict (
        decode_fields-err (decode_value max_depth) _ end _ slice_out_of_range
          (decode_value-digit 31 _ ∙ decode_str_panics rest (omega arith)))
