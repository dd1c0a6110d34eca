-- ===== src/RoutingTable/Buckets.antt =====
-- client/dht.go: the lemmas on the size of a bucket and on who is displaced.
use mathlib.Core.Option.{some-injective}
use apgo.Prelude.{
  ℕ, zero, suc, ◌+◌, ◌≤◌, Bool, true, false, ◌||◌, List, [], ◌∷◌, ◌++◌, Option, none, some, ltb,
  ltb→lt, ◌==◌, length, length-append, length-set, get_or, set, All, Bool-cases, Option-cases, ◌≡◌,
  inl, inr, refl, sym, ap, arith, ◌∙◌,
}
use apgo.Prelude.Maps.{Key}
use apgo.Prelude.Text.{Text, text_eq}
use apgo.RoutingTable.{
  dht_k, Node, Table, new_table, common_prefix, refresh, is_bad, worst_from, admit, add, fail_in,
  fail,
}

abbrev pub Fits : List Node → Type 0
Fits b = length b ≤ dht_k

refresh-length :
    (now : ℕ) (id : Text) (addr : Key) (b c : List Node)
    → refresh now id addr b ≡ some c
    → length c ≡ length b
unfolding refresh
refresh-length now id addr [] c h = absurd (ground arith)
refresh-length now id addr (n ∷ b) c h = elim (Bool-cases (text_eq n.id id)) [
  | inl found ↦
      let same : record n { addr = addr; last_seen = now; failures = 0 } ∷ b ≡ c =
        some-injective _ _ (sym (rw found refl) ∙ h) in
      ap length (sym same)
  | inr other ↦ elim (Option-cases (refresh now id addr b)) [
    | inl e ↦ absurd (ground (arith, h, other, e))
    | inr (d, e) ↦
        let whole : n ∷ d ≡ c = some-injective _ _ (sym (rw (other, e) refl) ∙ h) in
        ap length (sym whole) ∙ ap suc (refresh-length now id addr b d e)
  ]
]

abbrev heard : ℕ → Text → Key → Node
heard now id addr = record { id = id; addr = addr; last_seen = now; failures = 0 }

admit-refreshed :
    (now : ℕ) (id : Text) (addr : Key) (b c : List Node)
    → refresh now id addr b ≡ some c
    → admit now id addr b ≡ c
unfolding admit
admit-refreshed now id addr b c e = rw (e, admit) refl

admit-room :
    (now : ℕ) (id : Text) (addr : Key) (b : List Node)
    → refresh now id addr b ≡ none
    → ltb (length b) dht_k ≡ true
    → admit now id addr b ≡ b ++ (heard now id addr ∷ [])
unfolding admit
admit-room now id addr b e r = rw (e, admit, r) refl

admit-full :
    (now : ℕ) (id : Text) (addr : Key) (b : List Node)
    → refresh now id addr b ≡ none
    → ltb (length b) dht_k ≡ false
    → admit now id addr b
      ≡ elim (worst_from now 0 none b) [ none ↦ b | some (i, worst) ↦ set b i (heard now id addr) ]
unfolding admit
admit-full now id addr b e r = rw (e, admit, r) refl

admit-Fits :
    (now : ℕ) (id : Text) (addr : Key) (b : List Node) → Fits b → Fits (admit now id addr b)
admit-Fits now id addr b h = elim (Option-cases (refresh now id addr b)) [
  | inr (c, e) ↦
      rw (admit-refreshed now id addr b c e) (omega (arith, refresh-length now id addr b c e))
  | inl e ↦ elim (Bool-cases (ltb (length b) dht_k)) [
    | inl room ↦
        rw (admit-room now id addr b e room)
          (omega (arith, ltb→lt (length b) dht_k room, length-append b (heard now id addr ∷ [])))
    | inr full ↦ rw (admit-full now id addr b e full) (at (worst_from now 0 none b))
  ]
]
  where
    at :
        (o : Option (ℕ × Node))
        → Fits (elim o [ none ↦ b | some (i, worst) ↦ set b i (heard now id addr) ])
    at none = h
    at (some (i, worst)) = omega (arith, length-set b i (heard now id addr))

fail_in-Fits : (id : Text) (b : List Node) → length (fail_in id b) ≤ length b
unfolding fail_in
fail_in-Fits id [] = omega arith
fail_in-Fits id (n ∷ b) = ground (arith, fail_in-Fits id b)

set-All :
    (P : List Node → Type 0) (bs : List (List Node)) (i : ℕ) (b : List Node)
    → All P bs
    → (P (get_or bs i []) → P b)
    → P []
    → All P (set bs i b)
set-All P [] i b h p e = h
set-All P (c ∷ bs) zero b h p e = (p h.0, h.1)
set-All P (c ∷ bs) (suc i) b h p e = (h.0, set-All P bs i b h.1 p e)

abbrev pub AllFit : Table → Type 0
AllFit t = (length t.buckets ≡ 160) × All Fits t.buckets

-- What the network makes a node do to its table, with the time at which it does it.
pub data Event : Type 0 where
  heard_from : Text → Key → Event
  no_answer : Text → Event

unfoldable pub step : (Key → Bool) → Table → ℕ × Event → Table
step routable t (now, heard_from id addr) = add routable now id addr t
step routable t (now, no_answer id) = fail id t

unfoldable pub run : (Key → Bool) → Table → List (ℕ × Event) → Table
run routable t [] = t
run routable t (e ∷ es) = run routable (step routable t e) es

set-AllFit :
    (t : Table) (i : ℕ) (b : List Node)
    → AllFit t
    → (Fits (get_or t.buckets i []) → Fits b)
    → AllFit (record t { buckets = set t.buckets i b })
set-AllFit t i b h p =
    (length-set t.buckets i b ∙ h.0, set-All Fits t.buckets i b h.1 p (omega arith))

step-AllFit :
    (routable : Key → Bool) (t : Table) (e : ℕ × Event) → AllFit t → AllFit (step routable t e)
unfolding step add fail
step-AllFit routable t (now, no_answer id) h =
    let b = get_or t.buckets (common_prefix t.self id) [] in
    set-AllFit t (common_prefix t.self id) (fail_in id b) h
      (λ f. omega (arith, fail_in-Fits id b, f))
step-AllFit routable t (now, heard_from id addr) h =
    let b = get_or t.buckets (common_prefix t.self id) [] in
    elim (Bool-cases (addr == 0 || text_eq id t.self)) [
      | inl own ↦ rw own h
      | inr foreign ↦ elim (Bool-cases (routable addr)) [
        | inr private_ ↦ rw (foreign, private_) h
        | inl public ↦
            rw (foreign, public)
              (set-AllFit t (common_prefix t.self id) (admit now id addr b) h
                (admit-Fits now id addr b))
      ]
    ]

pub add-AllFit :
    (routable : Key → Bool) (now : ℕ) (id : Text) (addr : Key) (t : Table)
    → AllFit t
    → AllFit (add routable now id addr t)
add-AllFit routable now id addr t h =
    unfold step in step-AllFit routable t (now, heard_from id addr) h

-- Whatever nodes are heard from, under whatever identifiers, and whatever queries fail, the table
-- keeps its 160 buckets with at most eight nodes each.
pub run-AllFit :
    (routable : Key → Bool) (t : Table) (es : List (ℕ × Event))
    → AllFit t
    → AllFit (run routable t es)
unfolding run
run-AllFit routable t [] h = h
run-AllFit routable t (e ∷ es) h =
    run-AllFit routable (step routable t e) es (step-AllFit routable t e h)

worst_from-good :
    (now i : ℕ) (b : List Node) → All (λ n. is_bad now n ≡ false) b → worst_from now i none b ≡ none
unfolding worst_from
worst_from-good now i [] g = refl
worst_from-good now i (n ∷ b) g = rw g.0 (worst_from-good now (i + 1) b g.1)

-- A full bucket of nodes that all answer is not displaced: a node with another identifier is not
-- let in, and the bucket stays as it is.
pub admit-full_of_good :
    (now : ℕ) (id : Text) (addr : Key) (b : List Node)
    → refresh now id addr b ≡ none
    → dht_k ≤ length b
    → All (λ n. is_bad now n ≡ false) b
    → admit now id addr b ≡ b
admit-full_of_good now id addr b e full g =
    admit-full now id addr b e (ground arith) ∙ rw (worst_from-good now 0 b g) refl

pub new_table-AllFit : (self : Text) → AllFit (new_table self)
unfolding new_table
new_table-AllFit self = (refl, omega arith)
