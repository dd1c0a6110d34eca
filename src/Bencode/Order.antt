-- ===== src/Bencode/Order.antt =====
-- The byte order of dictionary keys, and maps whose fields stand in that order.
use apgo.Prelude.{true, false, [], ◌∷◌, ◌≡◌, refl, ap, arith}
use apgo.Prelude.Text.{Text, text_eq}
use apgo.Bencode.{Value, Fields, end, field, text_lt, put_field, insert_field, sort_fields}

pub text_lt_asym : (s t : Text) → text_lt s t ≡ true → text_lt t s ≡ false
unfolding text_lt
text_lt_asym [] [] h = refl
text_lt_asym [] (b ∷ t) h = refl
text_lt_asym (a ∷ s) [] h = cc
text_lt_asym (a ∷ s) (b ∷ t) h = ground (arith, text_lt_asym s t)

text_lt_trans : (s t u : Text) → text_lt s t ≡ true → text_lt t u ≡ true → text_lt s u ≡ true
unfolding text_lt
text_lt_trans [] [] u h g = cc
text_lt_trans [] (b ∷ t) [] h g = cc
text_lt_trans [] (b ∷ t) (c ∷ u) h g = refl
text_lt_trans (a ∷ s) [] u h g = cc
text_lt_trans (a ∷ s) (b ∷ t) [] h g = cc
text_lt_trans (a ∷ s) (b ∷ t) (c ∷ u) h g = ground (arith, text_lt_trans s t u)

text_lt_not_eq : (s t : Text) → text_lt s t ≡ true → text_eq s t ≡ false
unfolding text_lt text_eq
text_lt_not_eq [] [] h = cc
text_lt_not_eq [] (b ∷ t) h = refl
text_lt_not_eq (a ∷ s) [] h = refl
text_lt_not_eq (a ∷ s) (b ∷ t) h = ground (arith, text_lt_not_eq s t)

-- Keys in strictly rising order: the form in which one Go map has one list of fields.
abbrev pub Above : Text → Fields → Type 0
Above k end = Unit {0}
Above k (field j w fs) = text_lt k j ≡ true

abbrev pub Ascending : Fields → Type 0
Ascending end = Unit {0}
Ascending (field k v fs) = Above k fs × Ascending fs

abbrev pub append_fields : Fields → Fields → Fields
append_fields end gs = gs
append_fields (field k v fs) gs = field k v (append_fields fs gs)

insert_field-Above :
    (k : Text) (v : Value) (fs : Fields) → Above k fs → insert_field k v fs ≡ field k v fs
unfolding insert_field
insert_field-Above k v end h = refl
insert_field-Above k v (field j w fs) h = rw (text_lt_asym k j h)

-- Sorting changes nothing that is in order.
pub sort_fields-Ascending : (fs : Fields) → Ascending fs → sort_fields fs ≡ fs
unfolding sort_fields
sort_fields-Ascending end h = refl
sort_fields-Ascending (field k v fs) h =
    rw (sort_fields-Ascending fs h.1) (insert_field-Above k v fs h.0)

head_below :
    (j k : Text) (w v : Value) (fs gs : Fields)
    → Ascending (field j w (append_fields fs (field k v gs)))
    → text_lt j k ≡ true
head_below j k w v end gs h = h.0
head_below j k w v (field i u fs) gs h = text_lt_trans j i k h.0 (head_below i k u v fs gs h.1)

-- A new key behind all others is added at the end.
pub put_field-Ascending :
    (acc gs : Fields) (k : Text) (v : Value)
    → Ascending (append_fields acc (field k v gs))
    → append_fields (put_field k v acc) gs ≡ append_fields acc (field k v gs)
unfolding put_field
put_field-Ascending end gs k v h = refl
put_field-Ascending (field j w acc) gs k v h =
    rw (text_lt_not_eq j k (head_below j k w v acc gs h))
      (ap (field j w) (put_field-Ascending acc gs k v h.1))
