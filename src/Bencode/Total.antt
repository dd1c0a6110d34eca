-- ===== src/Bencode/Total.antt =====
-- client/bencode.go: the lemmas on the fuel of the reader's loops.
use apgo.Prelude.{
  ℕ, zero, suc, ◌+◌, ◌≤◌, ◌<◌, Bool, true, false, [], ◌∷◌, ltb, ◌==◌, if◌then◌else◌, length, take,
  drop, length-drop, Bool-cases, Option-cases, ◌≡◌, refl, inl, inr, arith,
}
use apgo.Prelude.Text.{Text, parse_int, is_digit}
use apgo.Bencode.{
  Value, str, Items, Fields, end, Parsed, ok, err, out_of_fuel, index_byte, put_field, decode_int,
  decode_str, decode_items, decode_fields, decode_value, bdecode, as_list, as_dict, push_item,
  string_length, max_depth, key_not_string, unexpected_byte,
}

-- What a reader does with every input: it reads at least one byte, or fails; it never stops
-- for lack of fuel.
abbrev pub Reads : {A : Type 0} → ℕ → Parsed A → Type 0
Reads n (ok a rest) = length rest < n
Reads n (err e) = Unit
Reads n out_of_fuel = ⊥

abbrev pub IsReader : (Text → Parsed Value) → Type 0
IsReader value = (s : Text) → Reads (length s) (value s)

drop-lt : (i : ℕ) (c : ℕ) (s : Text) → length (drop (i + 1) (c ∷ s)) < suc (length s)
drop-lt i c s = omega (arith, length-drop (i + 1) (c ∷ s))

decode_int-Reads : (c : ℕ) (s : Text) → Reads (suc (length s)) (decode_int (c ∷ s))
unfolding decode_int
decode_int-Reads c s = elim (Option-cases (index_byte (c ∷ s) b'e')) [
  | inl e ↦ rw (e, Reads) tt
  | inr (i, e) ↦
      rw (e, Reads)
        (elim (Option-cases (parse_int (drop 1 (take i (c ∷ s))))) [
          | inl p ↦ rw (p, Reads) tt
          | inr (n, p) ↦ rw (p, Reads) (drop-lt i c s)
        ])
]

decode_str-Reads : (c : ℕ) (s : Text) → Reads (suc (length s)) (decode_str (c ∷ s))
unfolding decode_str
decode_str-Reads c s = elim (Option-cases (index_byte (c ∷ s) b':')) [
  | inl e ↦ rw (e, Reads) tt
  | inr (i, e) ↦
      rw (e, Reads)
        (elim (Option-cases (string_length (parse_int (take i (c ∷ s))))) [
          | inl p ↦ rw (p, Reads) tt
          | inr (n, p) ↦
              rw (p, Reads)
                (elim (Bool-cases (ltb (length (c ∷ s)) (i + 1 + n))) [
                  | inl short ↦ rw (short, Reads) tt
                  | inr fits ↦ rw (fits, Reads) (omega (arith, length-drop (i + 1 + n) (c ∷ s)))
                ])
        ])
]

push_item-Reads :
    (v : Value) (m n : ℕ) (p : Parsed Items) → Reads m p → m ≤ n → Reads n (push_item v p)
push_item-Reads v m n (ok vs rest) r h = omega arith
push_item-Reads v m n (err e) r h = tt
push_item-Reads v m n out_of_fuel r h = r

Reads-mono : {A : Type 0} (m n : ℕ) (p : Parsed A) → Reads m p → m ≤ n → Reads n p
Reads-mono m n (ok a rest) r h = omega arith
Reads-mono m n (err e) r h = tt
Reads-mono m n out_of_fuel r h = r

module _ (value : Text → Parsed Value) (r : IsReader value) where
  -- One round of the list loop, from the value that it reads.
  items_round :
      (fuel c : ℕ) (cs : Text) (p : Parsed Value)
      → value (c ∷ cs) ≡ p
      → Reads (suc (length cs)) p
      → ((s : Text) → length s < fuel → Reads (length s) (decode_items value fuel s))
      → length cs < fuel
      → Reads (suc (length cs)) (decode_items value (suc fuel) (c ∷ cs))
  unfolding decode_items
  items_round fuel c cs p e q ih h = elim (Bool-cases (c == b'e')) [
    | inl last ↦ rw last (omega arith)
    | inr more ↦ rw (more, e) (read_on p q)
  ]
    where
      read_on :
          (p : Parsed Value)
          → Reads (suc (length cs)) p
          → Reads (suc (length cs)) (elim p [
            | ok v rest ↦ push_item v (decode_items value fuel rest)
            | err e ↦ err e
            | out_of_fuel ↦ out_of_fuel
          ])
      read_on (ok v rest) q =
          push_item-Reads v (length rest) _ (decode_items value fuel rest) (ih rest (omega arith))
            (omega arith)
      read_on (err e) q = tt
      read_on out_of_fuel q = q

  decode_items-Reads :
      (fuel : ℕ) (s : Text) → length s < fuel → Reads (length s) (decode_items value fuel s)
  decode_items-Reads zero s h = elim h [ ]
  decode_items-Reads (suc fuel) [] h = unfold decode_items in tt
  decode_items-Reads (suc fuel) (c ∷ cs) h =
      items_round fuel c cs (value (c ∷ cs)) refl (r (c ∷ cs)) (decode_items-Reads fuel)
        (omega arith)

  abbrev FieldsRead : ℕ → Type 0
  FieldsRead fuel =
      (acc : Fields) (s : Text)
      → length s < fuel
      → Reads (length s) (decode_fields value fuel acc s)

  -- The value that follows a key.
  abbrev second_value : ℕ → Fields → Text → Parsed Value → Parsed Fields
  second_value fuel acc k p = elim p [
    | ok v rest ↦ decode_fields value fuel (put_field k v acc) rest
    | err e ↦ err e
    | out_of_fuel ↦ out_of_fuel
  ]

  second_value-Reads :
      (fuel n : ℕ) (acc : Fields) (k : Text) (p : Parsed Value)
      → Reads n p
      → FieldsRead fuel
      → n ≤ fuel
      → Reads n (second_value fuel acc k p)
  second_value-Reads fuel n acc k (ok v rest) q ih h =
      Reads-mono (length rest) n (decode_fields value fuel (put_field k v acc) rest)
        (ih (put_field k v acc) rest (omega arith)) (omega arith)
  second_value-Reads fuel n acc k (err e) q ih h = tt
  second_value-Reads fuel n acc k out_of_fuel q ih h = q

  abbrev after_key : ℕ → Fields → Parsed Value → Parsed Fields
  after_key fuel acc p = elim p [
    | ok (str k) rest ↦ second_value fuel acc k (value rest)
    | ok other rest ↦ err key_not_string
    | err e ↦ err e
    | out_of_fuel ↦ out_of_fuel
  ]

  after_key-Reads :
      (fuel n : ℕ) (acc : Fields) (p : Parsed Value)
      → Reads (suc n) p
      → FieldsRead fuel
      → n < fuel
      → Reads (suc n) (after_key fuel acc p)
  after_key-Reads fuel n acc (ok (str k) rest) q ih h =
      Reads-mono (length rest) (suc n) (second_value fuel acc k (value rest))
        (second_value-Reads fuel (length rest) acc k (value rest) (r rest) ih (omega arith))
        (omega arith)
  after_key-Reads fuel n acc (ok _ rest) q ih h = tt
  after_key-Reads fuel n acc (err e) q ih h = tt
  after_key-Reads fuel n acc out_of_fuel q ih h = q

  decode_fields-Reads : (fuel : ℕ) → FieldsRead fuel
  unfolding decode_fields
  decode_fields-Reads zero acc s h = elim h [ ]
  decode_fields-Reads (suc fuel) acc [] h = tt
  decode_fields-Reads (suc fuel) acc (c ∷ cs) h = elim (Bool-cases (c == b'e')) [
    | inl last ↦ rw last (omega arith)
    | inr more ↦ rw more (
        after_key-Reads fuel (length cs) acc (value (c ∷ cs)) (r (c ∷ cs))
          (decode_fields-Reads fuel) (omega arith))
  ]

as_list-Reads : (n : ℕ) (p : Parsed Items) → Reads n p → Reads n (as_list p)
as_list-Reads n (ok vs rest) q = q
as_list-Reads n (err e) q = q
as_list-Reads n out_of_fuel q = q

as_dict-Reads : (n : ℕ) (p : Parsed Fields) → Reads n p → Reads n (as_dict p)
as_dict-Reads n (ok vs rest) q = q
as_dict-Reads n (err e) q = q
as_dict-Reads n out_of_fuel q = q

if-Reads :
    (n : ℕ) (b : Bool) (p q : Parsed Value) → Reads n p → Reads n q → Reads n (if b then p else q)
if-Reads n true p q g h = g
if-Reads n false p q g h = h

-- Whatever the input, at every depth: one byte or more is read, or an error is reported.
decode_value-IsReader : (budget : ℕ) → IsReader (decode_value budget)
unfolding decode_value
decode_value-IsReader zero s = tt
decode_value-IsReader (suc budget) [] = tt
decode_value-IsReader (suc budget) (c ∷ cs) =
    let n = suc (length cs) in
    let r = decode_value-IsReader budget in
    let items = decode_items (decode_value budget) n cs in
    let fields = decode_fields (decode_value budget) n end cs in
    let other = if c == b'd' then as_dict fields else err unexpected_byte in
    let nested = if c == b'l' then as_list items else other in
    let text = if is_digit c then decode_str (c ∷ cs) else nested in
    if-Reads n (c == b'i') (decode_int (c ∷ cs)) text (decode_int-Reads c cs) (
      if-Reads n (is_digit c) (decode_str (c ∷ cs)) nested (decode_str-Reads c cs) (
        if-Reads n (c == b'l') (as_list items) other
          (as_list-Reads n items (
            Reads-mono (length cs) n items
              (decode_items-Reads (decode_value budget) r n cs (omega arith)) (omega arith)))
          (if-Reads n (c == b'd') (as_dict fields) (err unexpected_byte)
            (as_dict-Reads n fields (
              Reads-mono (length cs) n fields
                (decode_fields-Reads (decode_value budget) r n end cs (omega arith)) (omega arith)))
            tt)))

-- The recursion and the loops of the reader end on every input: it gives a value and fewer bytes
-- left, or an error, or panics.
pub bdecode-Reads : (data_ : Text) → Reads (length data_) (bdecode data_)
unfolding bdecode
bdecode-Reads data_ = decode_value-IsReader (suc max_depth) data_
