-- ===== src/Bencode.antt =====
-- client/bencode.go and client/bencode_encode.go: the bencode reader and writer that trackers and
-- the DHT share. A Go map is a list of fields, one for each key.
-- `bdecodeMaxDepth - depth + 1` is the budget: 33 at the top, 0 where the source refuses to nest.
pub mod Order
pub mod Scan
pub mod Total
pub mod Panics
pub mod RoundTrip
mod Tests
use apgo.Prelude.{
  ℕ, zero, suc, ◌+◌, ◌-◌, Bool, true, false, ◌&&◌, ◌||◌, not, List, [], ◌∷◌, ◌++◌, Option, none,
  some, ltb, leb, ◌==◌, if◌then◌else◌, length, take, drop,
}
use apgo.Prelude.Text.{
  text_eq, Text, ℤ, pos, negsuc, print_nat, print_int, parse_int, is_digit, int64_bound,
}

mutual
  pub data Value : Type 0 where
    str : Text → Value
    int : ℤ → Value
    list : Items → Value
    dict : Fields → Value

  pub data Items : Type 0 where
    nil : Items
    cons : Value → Items → Items

  pub data Fields : Type 0 where
    end : Fields
    field : Text → Value → Fields → Fields

-- `slice_out_of_range` stands for a run-time panic, which unwinds the calls as an error does and then
-- ends the program.
pub data Error : Type 0 where
  too_deep unexpected_end unterminated_integer bad_integer unterminated_length bad_length : Error
  string_exceeds_data unterminated_list unterminated_dict key_not_string unexpected_byte : Error
  slice_out_of_range : Error

-- `out_of_fuel` stands for no result of the source: Total shows that it does not occur.
pub data Parsed (A : Type 0) : Type 0 where
  ok : A → Text → Parsed A
  err : Error → Parsed A
  out_of_fuel : Parsed A

abbrev pub max_depth : ℕ
max_depth = 32

-- `indexByte`; `none` is -1.
unfoldable pub index_byte : Text → ℕ → Option ℕ
index_byte [] c = none
index_byte (b ∷ bs) c =
    if b == c then some 0 else (elim (index_byte bs c) [ none ↦ none | some i ↦ some (suc i) ])

-- Byte order, as `sort.Strings` compares.
unfoldable pub text_lt : Text → Text → Bool
text_lt [] [] = false
text_lt [] (b ∷ t) = true
text_lt (a ∷ s) [] = false
text_lt (a ∷ s) (b ∷ t) = ltb a b || (a == b && text_lt s t)

-- `dict[key] = v`
unfoldable pub put_field : Text → Value → Fields → Fields
put_field k v end = field k v end
put_field k v (field j w fs) = if text_eq j k then field j v fs else field j w (put_field k v fs)

-- `data[0] == 'i'`
pub decode_int : Text → Parsed Value
decode_int data_ = elim (index_byte data_ b'e') [
  | none ↦ err unterminated_integer
  | some e ↦ (elim (parse_int (drop 1 (take e data_))) [
    | none ↦ err bad_integer
    | some n ↦ ok (int n) (drop (e + 1) data_)
  ])
]

-- A length that Atoi accepts and that is not negative.
abbrev pub string_length : Option ℤ → Option ℕ
string_length none = none
string_length (some (pos n)) = some n
string_length (some (negsuc n)) = none

-- `colon+1+slen > len(data)` in 64-bit ints. No text has 2 ^ 63 bytes, so a sum that passes
-- 2 ^ 63 - 1 is more than the text holds, but wraps to a negative number that is not: then the slice
-- `data[colon+1 : colon+1+slen]` panics.
abbrev pub past_end : ℕ → Error
past_end stop = if ltb stop int64_bound then string_exceeds_data else slice_out_of_range

-- `data[0]` is a digit.
pub decode_str : Text → Parsed Value
decode_str data_ = elim (index_byte data_ b':') [
  | none ↦ err unterminated_length
  | some colon ↦ (elim (string_length (parse_int (take colon data_))) [
    | none ↦ err bad_length
    | some slen ↦
        if ltb (length data_) (colon + 1 + slen)
        then err (past_end (colon + 1 + slen))
        else ok (str (take slen (drop (colon + 1) data_))) (drop (colon + 1 + slen) data_)
  ])
]

abbrev pub push_item : Value → Parsed Items → Parsed Items
push_item v (ok vs rest) = ok (cons v vs) rest
push_item v (err e) = err e
push_item v out_of_fuel = out_of_fuel

-- The loop of `case 'l'`; `value` is bdecodeValue one level down.
pub decode_items : (Text → Parsed Value) → ℕ → Text → Parsed Items
decode_items value zero rest = out_of_fuel
decode_items value (suc fuel) [] = err unterminated_list
decode_items value (suc fuel) (c ∷ cs) =
    let more : Parsed Items = elim (value (c ∷ cs)) [
      | ok v rest ↦ push_item v (decode_items value fuel rest)
      | err e ↦ err e
      | out_of_fuel ↦ out_of_fuel
    ] in
    if c == b'e' then ok nil cs else more

-- The loop of `case 'd'`, with the map read so far.
pub decode_fields : (Text → Parsed Value) → ℕ → Fields → Text → Parsed Fields
decode_fields value zero acc rest = out_of_fuel
decode_fields value (suc fuel) acc [] = err unterminated_dict
decode_fields value (suc fuel) acc (c ∷ cs) =
    let more : Parsed Fields = elim (value (c ∷ cs)) [
      | ok (str k) rest ↦ (elim (value rest) [
        | ok v rest' ↦ decode_fields value fuel (put_field k v acc) rest'
        | err e ↦ err e
        | out_of_fuel ↦ out_of_fuel
      ])
      | ok other rest ↦ err key_not_string
      | err e ↦ err e
      | out_of_fuel ↦ out_of_fuel
    ] in
    if c == b'e' then ok acc cs else more

abbrev pub as_list : Parsed Items → Parsed Value
as_list (ok vs rest) = ok (list vs) rest
as_list (err e) = err e
as_list out_of_fuel = out_of_fuel

abbrev pub as_dict : Parsed Fields → Parsed Value
as_dict (ok fs rest) = ok (dict fs) rest
as_dict (err e) = err e
as_dict out_of_fuel = out_of_fuel

-- bdecodeValue. Each round of a loop reads a byte, so a loop has one round more than bytes.
pub decode_value : ℕ → Text → Parsed Value
decode_value zero data_ = err too_deep
decode_value (suc budget) [] = err unexpected_end
decode_value (suc budget) (c ∷ cs) =
    let items = as_list (decode_items (decode_value budget) (suc (length cs)) cs) in
    let fields = as_dict (decode_fields (decode_value budget) (suc (length cs)) end cs) in
    if c == b'i'
    then decode_int (c ∷ cs)
    else if is_digit c
    then decode_str (c ∷ cs)
    else if c == b'l'
    then items
    else if c == b'd'
    then fields
    else err unexpected_byte

-- bdecode: trailing bytes are tolerated.
unfoldable pub bdecode : Text → Parsed Value
unfolding decode_value
bdecode data_ = decode_value (suc max_depth) data_

-- `strconv.AppendInt(*out, len(x), 10)`, a colon, the bytes.
unfoldable pub encode_str : Text → Text
encode_str s = print_nat (length s) ++ (b':' ∷ s)

unfoldable pub insert_field : Text → Value → Fields → Fields
insert_field k v end = field k v end
insert_field k v (field j w fs) =
    if text_lt j k then field j w (insert_field k v fs) else field k v (field j w fs)

-- `sort.Strings(keys)`
unfoldable pub sort_fields : Fields → Fields
unfolding insert_field
sort_fields end = end
sort_fields (field k v fs) = insert_field k v (sort_fields fs)

pub encode_items : (Value → Option Text) → Items → Option Text
encode_items value nil = some []
encode_items value (cons v vs) = elim (value v) [
  | none ↦ none
  | some s ↦ (elim (encode_items value vs) [ none ↦ none | some t ↦ some (s ++ t) ])
]

pub encode_fields : (Value → Option Text) → Fields → Option Text
encode_fields value end = some []
encode_fields value (field k v fs) = elim (value (str k)) [
  | none ↦ none
  | some s ↦ (elim (value v) [
    | none ↦ none
    | some t ↦ (elim (encode_fields value fs) [ none ↦ none | some u ↦ some (s ++ (t ++ u)) ])
  ])
]

abbrev pub enclose : ℕ → Option Text → Option Text
enclose c none = none
enclose c (some body) = some (c ∷ (body ++ b'e' ∷ []))

-- bencodeInto; `none` is the error "nesting too deep".
pub encode_value : ℕ → Value → Option Text
encode_value zero v = none
encode_value (suc budget) (str s) = some (encode_str s)
encode_value (suc budget) (int n) = some (b'i' ∷ (print_int n ++ b'e' ∷ []))
encode_value (suc budget) (list vs) = enclose b'l' (encode_items (encode_value budget) vs)
encode_value (suc budget) (dict fs) =
    enclose b'd' (encode_fields (encode_value budget) (sort_fields fs))

unfoldable pub bencode : Value → Option Text
unfolding encode_value
bencode v = encode_value (suc max_depth) v
