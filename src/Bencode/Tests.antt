-- ===== src/Bencode/Tests.antt =====
-- Runs of the bencode reader and writer.
use apgo.Prelude.{◌++◌, some, length, ◌≡◌, refl, arith}
use apgo.Prelude.Text.{Text, codes, pos, print_int, print_nat}
use apgo.Bencode.{
  Value, str, int, list, dict, nil, cons, end, field, ok, err, slice_out_of_range, bdecode, bencode,
  encode_value, encode_fields, sort_fields, text_lt, encode_items, encode_str,
}
use apgo.Bencode.Total.{Reads, bdecode-Reads}
use apgo.Bencode.Panics.{bdecode_panics}
use apgo.Bencode.RoundTrip.{IsCanonical, AreCanonical, FieldsCanonical, bdecode-bencode}

-- {"a": 5, "bc": ["x"]}
abbrev reply : Value
reply =
    dict
      (field (codes "a") (int (pos 5)) (field (codes "bc") (list (cons (str (codes "x")) nil)) end))

abbrev reply_text : Text
reply_text = codes "d1:ai5e2:bcl1:xee"

reply_written : bencode reply ≡ some reply_text
unfolding bencode encode_value encode_fields sort_fields text_lt encode_items encode_str print_nat
    print_int
reply_written = refl

reply-IsCanonical : IsCanonical reply
unfolding text_lt IsCanonical AreCanonical FieldsCanonical
reply-IsCanonical =
    ((refl, (tt, tt)), (omega arith, omega arith, (omega arith, (omega arith, tt), tt)))

bdecode-Reads_example : Reads (length reply_text) (bdecode reply_text)
bdecode-Reads_example = bdecode-Reads reply_text

bdecode-bencode_example : bdecode (reply_text ++ codes "e") ≡ ok reply (codes "e")
bdecode-bencode_example =
    bdecode-bencode reply reply_text (codes "e") reply-IsCanonical reply_written

bdecode_panics_example : bdecode (codes "d9223372036854775807:e") ≡ err slice_out_of_range
bdecode_panics_example = bdecode_panics (codes "e") (omega arith)
