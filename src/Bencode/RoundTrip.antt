-- ===== src/Bencode/RoundTrip.antt =====
-- client/bencode.go and client/bencode_encode.go: the lemmas on reading what was written.
use mathlib.Core.List.{append_assoc}
use mathlib.Core.Option.{some-injective}
use apgo.Prelude.{
  ℕ, zero, suc, ◌≤◌, ◌<◌, false, [], ◌∷◌, ◌++◌, Option, none, some, ◌==◌, length, length-append,
  Option-cases, ◌≡◌, refl, sym, ap, ◌∙◌, inl, inr, arith, subst,
}
use apgo.Prelude.Text.{Text, print_int, IsInt64, AreDigits, print_nat-AreDigits, print_nat_head}
use apgo.Bencode.Order.{Ascending, append_fields, sort_fields-Ascending, put_field-Ascending}
use apgo.Bencode.Scan.{FitsLength, decode_int_written, decode_str_written}
use apgo.Bencode.{
  Value, str, int, list, dict, Items, nil, cons, Fields, end, field, Parsed, ok, decode_int,
  decode_str, decode_items, decode_fields, decode_value, bdecode, push_item, as_list, as_dict,
  put_field, encode_str, encode_items, encode_fields, encode_value, bencode, enclose, sort_fields,
  max_depth,
}

-- Integers are int64, lengths fit one, and the fields of a map are listed in key order.
unfoldable mutual
  pub IsCanonical : Value → Type 0
  IsCanonical (str s) = FitsLength s
  IsCanonical (int z) = IsInt64 z
  IsCanonical (list vs) = AreCanonical vs
  IsCanonical (dict fs) = Ascending fs × FieldsCanonical fs

  pub AreCanonical : Items → Type 0
  AreCanonical nil = Unit {0}
  AreCanonical (cons v vs) = IsCanonical v × AreCanonical vs

  pub FieldsCanonical : Fields → Type 0
  FieldsCanonical end = Unit {0}
  FieldsCanonical (field k v fs) = FitsLength k × IsCanonical v × FieldsCanonical fs

-- A text that begins with a byte other than `e`.
abbrev Starts : Text → Type 0
Starts t = (c : ℕ) × (cs : Text) × (t ≡ c ∷ cs) × ((c == b'e') ≡ false)

encode_str-Starts : (s : Text) → Starts (encode_str s)
unfolding encode_str
encode_str-Starts s =
    let (c, cs, e) = print_nat_head (length s) in
    let d : AreDigits (c ∷ cs) = subst AreDigits e (print_nat-AreDigits (length s)) in
    (c, cs ++ b':' ∷ s, ap (λ t. t ++ b':' ∷ s) e, not_e c d.0)
  where
    not_e : (c : ℕ) → (b'0' ≤ c) × (c ≤ b'9') → (c == b'e') ≡ false
    not_e c h = ground arith

enclose-eq-some :
    (c : ℕ) (o : Option Text) (out : Text)
    → enclose c o ≡ some out
    → (body : Text) × (o ≡ some body) × (out ≡ c ∷ (body ++ b'e' ∷ []))
enclose-eq-some c none out h = absurd (ground arith)
enclose-eq-some c (some body) out h = (body, refl, sym (some-injective _ _ h))

encode_value-Starts :
    (budget : ℕ) (v : Value) (out : Text) → encode_value budget v ≡ some out → Starts out
unfolding encode_value
encode_value-Starts zero v out h = absurd (ground arith)
encode_value-Starts (suc budget) (str s) out h =
    subst Starts (some-injective _ _ h) (encode_str-Starts s)
encode_value-Starts (suc budget) (int z) out h =
    (b'i', print_int z ++ b'e' ∷ [], sym (some-injective _ _ h), refl)
encode_value-Starts (suc budget) (list vs) out h =
    let (body, _, e) = enclose-eq-some b'l' _ out h in (b'l', body ++ b'e' ∷ [], e, refl)
encode_value-Starts (suc budget) (dict fs) out h =
    let (body, _, e) = enclose-eq-some b'd' _ out h in (b'd', body ++ b'e' ∷ [], e, refl)

-- One round of each loop, at a text that does not begin with `e`.
items_more :
    (value : Text → Parsed Value) (fuel : ℕ) (t rest : Text) (v : Value)
    → Starts t
    → value t ≡ ok v rest
    → decode_items value (suc fuel) t ≡ push_item v (decode_items value fuel rest)
unfolding decode_items
items_more value fuel t rest v (c, cs, e, n) h =
    ap (decode_items value (suc fuel)) e ∙ rw (n, sym (ap value e) ∙ h)

fields_more :
    (value : Text → Parsed Value) (fuel : ℕ) (acc : Fields) (t rest rest' k : Text) (v : Value)
    → Starts t
    → value t ≡ ok (str k) rest
    → value rest ≡ ok v rest'
    → decode_fields value (suc fuel) acc t ≡ decode_fields value fuel (put_field k v acc) rest'
unfolding decode_fields
fields_more value fuel acc t rest rest' k v (c, cs, e, n) h g =
    ap (decode_fields value (suc fuel) acc) e ∙ rw (n, sym (ap value e) ∙ h, g)

Starts-append : (s t : Text) → Starts s → Starts (s ++ t)
Starts-append s t (c, cs, e, n) = (c, cs ++ t, ap (λ (u : Text). u ++ t) e, n)

Starts-length : (s : Text) → Starts s → 0 < length s
Starts-length s (c, cs, e, n) = omega (arith, ap length e)

-- The reader gives back what the writer was given, with any text behind it.
abbrev ReadsBack : (Value → Option Text) → (Text → Parsed Value) → Type 0
ReadsBack write read =
    (v : Value) (out rest : Text)
    → IsCanonical v
    → write v ≡ some out
    → read (out ++ rest) ≡ ok v rest

abbrev AllStart : (Value → Option Text) → Type 0
AllStart write = (v : Value) (out : Text) → write v ≡ some out → Starts out

items_parts :
    (write : Value → Option Text) (v : Value) (vs : Items) (out : Text)
    → encode_items write (cons v vs) ≡ some out
    → (s t : Text) × (write v ≡ some s) × (encode_items write vs ≡ some t) × (out ≡ s ++ t)
unfolding encode_items
items_parts write v vs out h = elim (Option-cases (write v)) [
  | inl e ↦ absurd (ground arith)
  | inr (s, e) ↦ (elim (Option-cases (encode_items write vs)) [
    | inl f ↦ absurd (ground arith)
    | inr (t, f) ↦ (s, t, e, f, ground arith)
  ])
]

fields_parts :
    (write : Value → Option Text) (k : Text) (v : Value) (fs : Fields) (out : Text)
    → encode_fields write (field k v fs) ≡ some out
    → (s t u : Text) × (write (str k) ≡ some s)
      × (write v ≡ some t)
      × (encode_fields write fs ≡ some u)
      × (out ≡ s ++ (t ++ u))
unfolding encode_fields
fields_parts write k v fs out h = elim (Option-cases (write (str k))) [
  | inl e ↦ absurd (ground arith)
  | inr (s, e) ↦ (elim (Option-cases (write v)) [
    | inl f ↦ absurd (ground arith)
    | inr (t, f) ↦ (elim (Option-cases (encode_fields write fs)) [
      | inl g ↦ absurd (ground arith)
      | inr (u, g) ↦ (s, t, u, e, f, g, ground arith)
    ])
  ])
]

append_end : (fs : Fields) → append_fields fs end ≡ fs
append_end end = refl
append_end (field k v fs) = ap (field k v) (append_end fs)

module _ (write : Value → Option Text) (read : Text → Parsed Value) (back : ReadsBack write read)
    (starts : AllStart write) where
  items_back :
      (fuel : ℕ) (vs : Items) (out rest : Text)
      → AreCanonical vs
      → encode_items write vs ≡ some out
      → length out < fuel
      → decode_items read fuel (out ++ b'e' ∷ rest) ≡ ok vs rest
  unfolding encode_items decode_items AreCanonical
  items_back zero vs out rest c h f = elim f [ ]
  items_back (suc fuel) nil out rest c h f =
      ap (λ (t : Text). decode_items read (suc fuel) (t ++ b'e' ∷ rest))
        (sym (some-injective [] out h))
  items_back (suc fuel) (cons v vs) out rest c h f =
      let (s, t, e, g, whole) = items_parts write v vs out h in
      ap (λ (u : Text). decode_items read (suc fuel) (u ++ b'e' ∷ rest)) whole
      ∙ ap (decode_items read (suc fuel)) (append_assoc s t (b'e' ∷ rest))
      ∙ items_more read fuel (s ++ (t ++ b'e' ∷ rest)) (t ++ b'e' ∷ rest) v
          (Starts-append s _ (starts v s e)) (back v s (t ++ b'e' ∷ rest) c.0 e)
      ∙ ap (push_item v) (
          items_back fuel vs t rest c.1 g
            (omega (arith, ap length whole, length-append s t, Starts-length s (starts v s e))))

  fields_back :
      (fuel : ℕ) (acc fs : Fields) (out rest : Text)
      → Ascending (append_fields acc fs)
      → FieldsCanonical fs
      → encode_fields write fs ≡ some out
      → length out < fuel
      → decode_fields read fuel acc (out ++ b'e' ∷ rest) ≡ ok (append_fields acc fs) rest
  unfolding encode_fields decode_fields FieldsCanonical IsCanonical
  fields_back zero acc fs out rest a c h f = elim f [ ]
  fields_back (suc fuel) acc end out rest a c h f =
      ap (λ (t : Text). decode_fields read (suc fuel) acc (t ++ b'e' ∷ rest))
        (sym (some-injective [] out h))
      ∙ ap (λ fs. ok fs rest) (sym (append_end acc))
  fields_back (suc fuel) acc (field k v fs) out rest a c h f =
      let (s, t, u, e, g, i, whole) = fields_parts write k v fs out h in
      let tail = u ++ b'e' ∷ rest in
      let moved = put_field-Ascending acc fs k v a in
      ap (λ (w : Text). decode_fields read (suc fuel) acc (w ++ b'e' ∷ rest)) whole
      ∙ ap (decode_fields read (suc fuel) acc)
          (append_assoc s (t ++ u) (b'e' ∷ rest) ∙ ap (◌++◌ s) (append_assoc t u (b'e' ∷ rest)))
      ∙ fields_more read fuel acc (s ++ (t ++ tail)) (t ++ tail) tail k v
          (Starts-append s _ (starts (str k) s e)) (back (str k) s (t ++ tail) c.0 e)
          (back v t tail c.1 g)
      ∙ fields_back fuel (put_field k v acc) fs u rest (subst Ascending (sym moved) a) c.2 i (
          omega (
            arith,
            ap length whole,
            length-append s (t ++ u),
            length-append t u,
            Starts-length s (starts (str k) s e),
          ))
      ∙ ap (λ w. ok w rest) moved

decode_digit :
    (budget c : ℕ) (cs : Text)
    → (b'0' ≤ c) × (c ≤ b'9')
    → decode_value (suc budget) (c ∷ cs) ≡ decode_str (c ∷ cs)
unfolding decode_value
decode_digit budget c cs h = ground arith

str_back :
    (budget : ℕ) (s rest : Text)
    → FitsLength s
    → decode_value (suc budget) (encode_str s ++ rest) ≡ ok (str s) rest
unfolding encode_str
str_back budget s rest h =
    let (c, cs, e) = print_nat_head (length s) in
    let d : AreDigits (c ∷ cs) = subst AreDigits e (print_nat-AreDigits (length s)) in
    let shape : encode_str s ++ rest ≡ c ∷ ((cs ++ b':' ∷ s) ++ rest) =
      ap (λ (t : Text). (t ++ b':' ∷ s) ++ rest) e in
    ap (decode_value (suc budget)) shape
    ∙ decode_digit budget c ((cs ++ b':' ∷ s) ++ rest) d.0
    ∙ ap decode_str (sym shape)
    ∙ decode_str_written s rest h

-- At every depth.
encode_value-ReadsBack : (budget : ℕ) → ReadsBack (encode_value budget) (decode_value budget)
unfolding encode_value decode_value IsCanonical
encode_value-ReadsBack zero v out rest c h = absurd (ground arith)
encode_value-ReadsBack (suc budget) (str s) out rest c h =
    ap (λ (t : Text). decode_value (suc budget) (t ++ rest))
      (sym (some-injective (encode_str s) out h))
    ∙ str_back budget s rest c
encode_value-ReadsBack (suc budget) (int z) out rest c h =
    ap (λ (t : Text). decode_value (suc budget) (t ++ rest))
      (sym (some-injective (b'i' ∷ (print_int z ++ b'e' ∷ [])) out h))
    ∙ ap (λ (t : Text). decode_int (b'i' ∷ t)) (append_assoc (print_int z) (b'e' ∷ []) rest)
    ∙ decode_int_written z rest c
encode_value-ReadsBack (suc budget) (list vs) out rest c h =
    let (body, e, whole) = enclose-eq-some b'l' (encode_items (encode_value budget) vs) out h in
    let shape = append_assoc body (b'e' ∷ []) rest in
    ap (λ (t : Text). decode_value (suc budget) (t ++ rest)) whole
    ∙ ap (λ (t : Text). decode_value (suc budget) (b'l' ∷ t)) shape
    ∙ ap as_list (
        items_back (encode_value budget) (decode_value budget) (encode_value-ReadsBack budget)
          (encode_value-Starts budget) (suc (length (body ++ b'e' ∷ rest))) vs body rest c e
          (omega (arith, length-append body (b'e' ∷ rest))))
encode_value-ReadsBack (suc budget) (dict fs) out rest c h =
    let (body, e, whole) =
      enclose-eq-some b'd' (encode_fields (encode_value budget) (sort_fields fs)) out h in
    let shape = append_assoc body (b'e' ∷ []) rest in
    let sorted = ap (encode_fields (encode_value budget)) (sort_fields-Ascending fs c.0) in
    ap (λ (t : Text). decode_value (suc budget) (t ++ rest)) whole
    ∙ ap (λ (t : Text). decode_value (suc budget) (b'd' ∷ t)) shape
    ∙ ap as_dict (
        fields_back (encode_value budget) (decode_value budget) (encode_value-ReadsBack budget)
          (encode_value-Starts budget) (suc (length (body ++ b'e' ∷ rest))) end fs body rest c.0 c.1
          (sym sorted ∙ e) (omega (arith, length-append body (b'e' ∷ rest))))

-- Whatever `bencode` writes, `bdecode` reads back, with any bytes behind it, for a value whose
-- integers and lengths fit an int64 and whose maps are listed in key order.
pub bdecode-bencode :
    (v : Value) (out rest : Text)
    → IsCanonical v
    → bencode v ≡ some out
    → bdecode (out ++ rest) ≡ ok v rest
unfolding bencode bdecode
bdecode-bencode v out rest c h = encode_value-ReadsBack (suc max_depth) v out rest c h
