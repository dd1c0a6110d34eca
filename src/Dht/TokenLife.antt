-- ===== src/Dht/TokenLife.antt =====
-- client/dht.go: the lemmas on the life of an announce token.
use apgo.Prelude.{
  ℕ, ◌+◌, ◌*◌, ◌≤◌, ◌<◌, true, false, List, [], ◌∷◌, ltb, Bool-cases, ◌≡◌, ◌⊎◌, refl, inl, inr,
  arith,
}
use apgo.Prelude.Text.{Text, text_eq, text_eq_iff}
use apgo.Dht.{minute, Endpoint, Tokens, rotate_tokens, token_for, issue_token, valid_token}

-- Each entry is one call of `issueToken`: its time and the secret that a rotation would draw.
unfoldable pub rotations : List (ℕ × Text) → Tokens → Tokens
rotations [] k = k
rotations ((now, drawn) ∷ calls) k = rotations calls (rotate_tokens now drawn k)

-- The calls come in the order of the clock, between `first` and `last`.
abbrev pub Between : (first last : ℕ) → List (ℕ × Text) → Type 0
Between first last [] = first ≤ last
Between first last ((now, drawn) ∷ calls) = (first ≤ now) × Between now last calls

-- The secret `s` is in use at `now`, as long as the clock has not passed `until`.
Honours : Text → (until now : ℕ) → Tokens → Type 0
Honours s until now k =
    ((k.cur ≡ s) × (until ≤ now + 5 * minute) × (k.rotated ≤ now))
    ⊎ ((k.prev ≡ s) × (until ≤ k.rotated + 5 * minute))

rotate-Honours :
    (s : Text) (until before now last : ℕ) (drawn : Text) (k : Tokens)
    → before ≤ now
    → now ≤ last
    → last < until
    → Honours s until before k
    → Honours s until now (rotate_tokens now drawn k)
unfolding rotate_tokens Honours
rotate-Honours s until before now last drawn k l m n (inl (e, u, r)) =
    elim (Bool-cases (ltb now (k.rotated + 5 * minute))) [
      | inl young ↦ rw young (inl (e, omega arith, omega arith))
      | inr old ↦ rw old (inr (e, omega arith))
    ]
rotate-Honours s until before now last drawn k l m n (inr (e, u)) =
    let young : ltb now (k.rotated + 5 * minute) ≡ true = ground arith in rw young (inr (e, u))

last-le : (first last : ℕ) (calls : List (ℕ × Text)) → Between first last calls → first ≤ last
last-le first last [] b = b
last-le first last ((now, drawn) ∷ calls) b = omega (arith, b.0, last-le now last calls b.1)

rotations-Honours :
    (calls : List (ℕ × Text)) (s : Text) (until first last : ℕ) (k : Tokens)
    → Between first last calls
    → last < until
    → Honours s until first k
    → ((rotations calls k).cur ≡ s) ⊎ ((rotations calls k).prev ≡ s)
unfolding rotations Honours
rotations-Honours [] s until first last k b n (inl (e, u, r)) = inl e
rotations-Honours [] s until first last k b n (inr (e, u)) = inr e
rotations-Honours ((now, drawn) ∷ calls) s until first last k b n h =
    rotations-Honours calls s until now last (rotate_tokens now drawn k) b.1 n
      (rotate-Honours s until first now last drawn k b.0 (last-le now last calls b.1) n h)

text_eq_refl : (s : Text) → text_eq s s ≡ true
text_eq_refl s = (text_eq_iff s s).1 refl

module _ (mac : Text → Text → Text) (addr sender : Endpoint) (same_ip : sender.ip ≡ addr.ip) where
  token_same : (secret : Text) → token_for mac sender secret ≡ token_for mac addr secret
  unfolding token_for
  token_same secret = rw same_ip refl

  valid_held :
      (k : Tokens) (s : Text)
      → text_eq (token_for mac addr s) [] ≡ false
      → (k.cur ≡ s) ⊎ (k.prev ≡ s)
      → valid_token mac sender (token_for mac addr s) k ≡ true
  unfolding valid_token
  valid_held k s full (inl e) = rw (full, e, token_same s, text_eq_refl (token_for mac addr s)) refl
  valid_held k s full (inr e) =
      rw (full, e, token_same s, text_eq_refl (token_for mac addr s)) (ground arith)

  -- A token that was issued is honoured for five minutes, from any port of the address it was issued
  -- to, whatever tokens are issued in between and whatever secrets are drawn: the secrets were not
  -- rotated in the future, the calls come in the order of the clock, and the token is not empty.
  pub valid_token-issue_token :
      (now last : ℕ) (drawn : Text) (k : Tokens) (calls : List (ℕ × Text))
      → k.rotated ≤ now
      → Between now last calls
      → last < now + 5 * minute
      → text_eq (issue_token mac now drawn addr k).1 [] ≡ false
      → valid_token mac sender
          (issue_token mac now drawn addr k).1
          (rotations calls (issue_token mac now drawn addr k).0)
        ≡ true
  unfolding issue_token Honours
  valid_token-issue_token now last drawn k calls past b n full =
      let t = rotate_tokens now drawn k in
      valid_held (rotations calls t) t.cur full (
        rotations-Honours calls t.cur (now + 5 * minute) now last t b n
          (inl (refl, omega arith, rotated_past)))
    where
      rotated_past : (rotate_tokens now drawn k).rotated ≤ now
      rotated_past = unfold rotate_tokens in ground arith
