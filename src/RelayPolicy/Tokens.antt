-- ===== src/RelayPolicy/Tokens.antt =====
-- client/relaypolicy.go and main.go: the class of a NAT, written to a candidate list and read back.
use apgo.RelayPolicy.{
  NatClass, unknown, stable, symmetric, NatMapping, nat_token_pfx, nat_token_for, our_nat_class,
  join, add_token, connect_list, split_from, class_of_token, class_from, parse_nat_class,
}
use apgo.Prelude.{
  ◌≤◌, false, List, [], ◌∷◌, ◌++◌, none, some, ◌==◌, take, All, All-append, arith, ◌≡◌, refl, sym,
  ap, ◌∙◌, inl, inr, ◌⊎◌,
}
use mathlib.Core.List.{append_assoc, append-nil}
use apgo.Prelude.Text.{Text, codes, text_eq}

-- Printing characters only, so no space and nothing outside ASCII.
abbrev pub IsVisible : Text → Type 0
IsVisible = All (λ c. (33 ≤ c) × (c ≤ 126))

abbrev pub HasNoComma : Text → Type 0
HasNoComma = All (λ c. c == b',' ≡ false)

-- A candidate that is not a token.
abbrev pub IsEndpoint : Text → Type 0
IsEndpoint c = IsVisible c × HasNoComma c × (text_eq (take 4 c) nat_token_pfx ≡ false)

split_from-last : (field c : Text) → HasNoComma c → split_from field c ≡ (field ++ c) ∷ []
unfolding split_from
split_from-last field [] h = ap (λ t. t ∷ []) (sym (append-nil field))
split_from-last field (x ∷ c) h =
    ground (arith, split_from-last (field ++ (x ∷ [])) c h.1, append_assoc field (x ∷ []) c)

split_from-field :
    (field c rest : Text)
    → HasNoComma c
    → split_from field (c ++ (b',' ∷ rest)) ≡ (field ++ c) ∷ split_from [] rest
unfolding split_from
split_from-field field [] rest h = ap (λ t. t ∷ split_from [] rest) (sym (append-nil field))
split_from-field field (x ∷ c) rest h =
    ground (arith, split_from-field (field ++ (x ∷ [])) c rest h.1, append_assoc field (x ∷ []) c)

-- The three classes, with what is written for each.
nat_token_for-cases :
    (m : NatMapping)
    → ((nat_token_for m ≡ []) × (our_nat_class m ≡ unknown))
      ⊎ (((nat_token_for m ≡ codes "nat=sym") × (our_nat_class m ≡ symmetric))
          ⊎ ((nat_token_for m ≡ codes "nat=stable") × (our_nat_class m ≡ stable)))
unfolding nat_token_for our_nat_class
nat_token_for-cases m = ground arith

split_join :
    (c : Text) (cs : List Text) → All HasNoComma (c ∷ cs) → split_from [] (join (c ∷ cs)) ≡ c ∷ cs
unfolding join
split_join c [] h = split_from-last [] c h.0
split_join c (d ∷ cs) h =
    split_from-field [] c (join (d ∷ cs)) h.0 ∙ ap (λ l. c ∷ l) (split_join d cs h.1)

endpoints-HasNoComma : (cands : List Text) → All IsEndpoint cands → All HasNoComma cands
endpoints-HasNoComma [] e = tt
endpoints-HasNoComma (c ∷ cs) e = (e.0.1, endpoints-HasNoComma cs e.1)

split_join_token :
    (cands : List Text) (token : Text)
    → All IsEndpoint cands
    → HasNoComma token
    → split_from [] (join (cands ++ (token ∷ []))) ≡ cands ++ (token ∷ [])
split_join_token [] token e h = split_join token [] (h, tt)
split_join_token (c ∷ cs) token e h =
    split_join c (cs ++ (token ∷ []))
      (All-append HasNoComma (c ∷ cs) (token ∷ []) (endpoints-HasNoComma (c ∷ cs) e) (h, tt))

class_of_token-endpoint : (c : Text) → IsEndpoint c → class_of_token c ≡ none
unfolding class_of_token
class_of_token-endpoint c e = ground (arith, e.2)

module _ (trim_space : Text → Text) (trim_keeps : (c : Text) → IsVisible c → trim_space c ≡ c) where
  class_from-endpoints :
      (cands rest : List Text)
      → All IsEndpoint cands
      → class_from trim_space (cands ++ rest) ≡ class_from trim_space rest
  unfolding class_from
  class_from-endpoints [] rest e = refl
  class_from-endpoints (c ∷ cs) rest e =
      ground
        (arith, trim_keeps c e.0.0, class_of_token-endpoint c e.0, class_from-endpoints cs rest e.1)

  class_from-token :
      (token : Text) (k : NatClass)
      → IsVisible token
      → class_of_token token ≡ some k
      → class_from trim_space (token ∷ []) ≡ k
  unfolding class_from
  class_from-token token k visible reads = ground (arith, trim_keeps token visible, reads)

  no_token :
      (cands : List Text) → All IsEndpoint cands → parse_nat_class trim_space (join cands) ≡ unknown
  unfolding parse_nat_class join split_from class_from text_eq
  no_token [] e = class_from-endpoints ([] ∷ []) [] ((tt, tt, refl), tt)
  no_token (c ∷ cs) e =
      ap (class_from trim_space)
        (split_join c cs (endpoints-HasNoComma (c ∷ cs) e) ∙ sym (append-nil (c ∷ cs)))
      ∙ class_from-endpoints (c ∷ cs) [] e

  -- The token stands at the end and is the first candidate that is one.
  with_token :
      (cands : List Text) (token : Text) (k : NatClass)
      → All IsEndpoint cands
      → IsVisible token × HasNoComma token
      → class_of_token token ≡ some k
      → class_from trim_space (split_from [] (join (cands ++ (token ∷ [])))) ≡ k
  with_token cands token k e plain reads =
      ap (class_from trim_space) (split_join_token cands token e plain.1)
      ∙ class_from-endpoints cands (token ∷ []) e
      ∙ class_from-token token k plain.0 reads

  -- What myConnectCandidates says of this node's NAT is what parseNATClass reads at the peer, whatever
  -- endpoints (of printing characters, with no comma and not starting with "nat=") come before it
  -- in the list; `unknown` is read of a node that says nothing.
  pub parse_nat_class-connect_list :
      (cands : List Text) (m : NatMapping)
      → All IsEndpoint cands
      → parse_nat_class trim_space (connect_list cands m) ≡ our_nat_class m
  unfolding parse_nat_class connect_list class_of_token add_token text_eq
  parse_nat_class-connect_list cands m e = elim (nat_token_for-cases m) [
    | inl silent ↦
        ap (λ t. class_from trim_space (split_from [] (join (add_token t cands)))) silent.0
        ∙ no_token cands e
        ∙ sym silent.1
    | inr (inl sym_class) ↦
        ap (λ t. class_from trim_space (split_from [] (join (add_token t cands)))) sym_class.0
        ∙ with_token cands (codes "nat=sym") symmetric e (ground arith) refl
        ∙ sym sym_class.1
    | inr (inr stable_class) ↦
        ap (λ t. class_from trim_space (split_from [] (join (add_token t cands)))) stable_class.0
        ∙ with_token cands (codes "nat=stable") stable e (ground arith) refl
        ∙ sym stable_class.1
  ]
