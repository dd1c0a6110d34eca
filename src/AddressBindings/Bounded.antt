-- ===== src/AddressBindings/Bounded.antt =====
-- client/ipbinding.go: how many bindings the table keeps, and how many for one key.
use apgo.AddressBindings.History.{Event, asked, forgotten, step, run}
use apgo.Prelude.{
  ℕ, suc, ◌≤◌, ◌<◌, Bool, not, ◌&&◌, ◌||◌, List, [], ◌∷◌, Option, none, some, ltb, leb, ◌==◌,
  if◌then◌else◌, if-both, length, arith, ◌≡◌, refl, subst, Bool-cases, ==_iff, inl, inr,
}
use apgo.Prelude.Maps.{
  Key, lookup, insert, without, retain, length-insert, length-retain-le, length-without-le,
}
use apgo.Revocation.{is_revoked}
use apgo.AddressClaims.{Known}
use apgo.AddressBindings.{
  Net, Binding, Bindings, claim_primary, claim_pinned, has_primary_rival, known_keys_claiming,
  ip_binding_max_bindings, strength_of, provisioned, release_others, is_idle, take_address,
  claim_free, refresh, displace, contest, owns_unprovisioned, owns, forget,
}

-- How many addresses a key holds.
unfoldable pub count_of : Key → Bindings → ℕ
count_of k [] = 0
count_of k ((at, b) ∷ t) = if b.pub_key == k then suc (count_of k t) else count_of k t

count_of-retain-le :
    (keep : Key → Binding → Bool) (k : Key) (t : Bindings)
    → count_of k (retain keep t) ≤ count_of k t
unfolding count_of retain
count_of-retain-le keep k [] = omega arith
count_of-retain-le keep k ((at, b) ∷ t) = ground (arith, count_of-retain-le keep k t)

count_of-without-le : (ip k : Key) (t : Bindings) → count_of k (without ip t) ≤ count_of k t
unfolding count_of without
count_of-without-le ip k [] = omega arith
count_of-without-le ip k ((at, b) ∷ t) = ground (arith, count_of-without-le ip k t)

count_of-release :
    (k : Key) (t : Bindings) → count_of k (retain (λ at b. not (b.pub_key == k)) t) ≡ 0
unfolding count_of retain
count_of-release k [] = refl
count_of-release k ((at, b) ∷ t) = ground (arith, count_of-release k t)

count_of-insert-le :
    (ip : Key) (v : Binding) (k : Key) (t : Bindings)
    → count_of k (insert ip v t) ≤ (if v.pub_key == k then suc (count_of k t) else count_of k t)
unfolding count_of insert
count_of-insert-le ip v k [] = ground arith
count_of-insert-le ip v k ((at, b) ∷ t) = ground (arith, count_of-insert-le ip v k t)

count_of-refresh :
    (ip : Key) (v b : Binding) (k : Key) (t : Bindings)
    → lookup ip t ≡ some b
    → v.pub_key ≡ b.pub_key
    → count_of k (insert ip v t) ≡ count_of k t
unfolding count_of insert lookup
count_of-refresh ip v b k [] found same = absurd (ground arith)
count_of-refresh ip v b k ((at, c) ∷ t) found same = ground (arith, count_of-refresh ip v b k t)

-- A key holds one address at most, and the table is bounded.
abbrev pub IsTable : Bindings → Type 0
IsTable t = ((k : Key) → count_of k t ≤ 1) × (length t ≤ ip_binding_max_bindings)

abbrev IsTableAfter : Bindings × Bool → Type 0
IsTableAfter r = IsTable r.0

retain-IsTable : (keep : Key → Binding → Bool) (t : Bindings) → IsTable t → IsTable (retain keep t)
retain-IsTable keep t h = (
  λ k. ground (arith, count_of-retain-le keep k t, h.0 k),
  ground (arith, length-retain-le keep t, h.1),
)

without-IsTable : (ip : Key) (t : Bindings) → IsTable t → IsTable (without ip t)
without-IsTable ip t h = (
  λ k. ground (arith, count_of-without-le ip k t, h.0 k),
  ground (arith, length-without-le ip t, h.1),
)

insert-IsTable :
    (ip : Key) (v b : Binding) (t : Bindings)
    → lookup ip t ≡ some b
    → v.pub_key ≡ b.pub_key
    → IsTable t
    → IsTable (insert ip v t)
insert-IsTable ip v b t found same h = (
  λ k. ground (arith, count_of-refresh ip v b k t found same, h.0 k),
  ground (arith, length-insert ip v t, found, h.1),
)

take_address-IsTable :
    (now : ℕ) (k ip : Key) (s : ℕ) (t : Bindings)
    → IsTable t
    → length t < ip_binding_max_bindings
    → IsTable (take_address now k ip s t)
unfolding take_address
take_address-IsTable now k ip s t h room = (counted, bounded)
  where
    v : Binding
    v = record { pub_key = k; seen = now; strength = s }

    kept : Bindings
    kept = retain (λ at b. not (b.pub_key == k)) t

    counted : (j : Key) → count_of j (insert ip v kept) ≤ 1
    counted j = elim (Bool-cases (k == j)) [
      | inl same ↦
          subst (λ i. count_of i (insert ip v kept) ≤ 1) ((==_iff k j).0 same)
            (ground (arith, count_of-insert-le ip v k kept, count_of-release k t))
      | inr other ↦ ground (
        arith,
        count_of-insert-le ip v j kept,
        count_of-retain-le (λ at b. not (b.pub_key == k)) j t,
        h.0 j,
      )
    ]

    bounded : length (insert ip v kept) ≤ ip_binding_max_bindings
    bounded =
        ground
          (arith, length-insert ip v kept, length-retain-le (λ at b. not (b.pub_key == k)) t, room)

claim_free-IsTable :
    (now : ℕ) (m : Known) (k ip : Key) (bind : Bool) (s : ℕ) (t : Bindings)
    → IsTable t
    → IsTable (claim_free now m k ip bind s t).0
unfolding claim_free
claim_free-IsTable now m k ip bind s t h =
    if-both IsTableAfter (not bind) (λ only. h)
      (λ binds.
        if-both IsTableAfter (ltb (length t) ip_binding_max_bindings)
          (λ room. take_address-IsTable now k ip s t h (ground arith))
          (λ full.
            if-both IsTableAfter
              (leb ip_binding_max_bindings (length (retain (λ at b. not (is_idle now b)) t)))
              (λ packed. retain-IsTable _ t h)
              (λ room. take_address-IsTable now k ip s _ (retain-IsTable _ t h) (ground arith))))

refresh-IsTable :
    (now : ℕ) (ip : Key) (bind : Bool) (s : ℕ) (b : Binding) (t : Bindings)
    → lookup ip t ≡ some b
    → IsTable t
    → IsTable (refresh now ip bind s b t).0
unfolding refresh
refresh-IsTable now ip bind s b t found h =
    if-both IsTableAfter (not bind) (λ only. h) (λ binds. insert-IsTable ip _ b t found refl h)

displace-IsTable :
    (now : ℕ) (m : Known) (k ip : Key) (bind : Bool) (s : ℕ) (b : Binding) (t : Bindings)
    → IsTable t
    → IsTable (displace now m k ip bind s b t).0
unfolding displace
displace-IsTable now m k ip bind s b t h =
    if-both IsTableAfter (is_idle now b || is_revoked m.revoked b.pub_key)
      (λ stale. claim_free-IsTable now m k ip bind s _ (without-IsTable ip t h))
      (λ live.
        if-both IsTableAfter (ltb b.strength s)
          (λ weaker.
            if-both IsTableAfter (not bind) (λ only. h)
              (λ binds. claim_free-IsTable now m k ip bind s _ (without-IsTable ip t h)))
          (λ stronger. h))

contest-IsTable :
    (now : ℕ) (m : Known) (k ip : Key) (bind : Bool) (s : ℕ) (o : Option Binding) (t : Bindings)
    → lookup ip t ≡ o
    → IsTable t
    → IsTable (contest now m k ip bind s o t).0
unfolding contest
contest-IsTable now m k ip bind s none t found h = claim_free-IsTable now m k ip bind s t h
contest-IsTable now m k ip bind s (some b) t found h =
    if-both IsTableAfter (b.pub_key == k) (λ own. refresh-IsTable now ip bind s b t found h)
      (λ foreign. displace-IsTable now m k ip bind s b t h)

owns_unprovisioned-IsTable :
    (e : Net) (now : ℕ) (m : Known) (k ip : Key) (bind : Bool) (t : Bindings)
    → IsTable t
    → IsTable (owns_unprovisioned e now m k ip bind t).0
unfolding owns_unprovisioned
owns_unprovisioned-IsTable e now m k ip bind t h =
    if-both IsTableAfter ((strength_of e k ip == claim_pinned) && e.strict) (λ pinned. h)
      (λ unpinned.
        if-both IsTableAfter
          (ltb (strength_of e k ip) claim_primary
            && has_primary_rival e k ip (known_keys_claiming now m ip))
          (λ rival. h)
          (λ free.
            if-both IsTableAfter (ip == e.my_ip) (λ mine. h)
              (λ theirs.
                contest-IsTable now m k ip bind (strength_of e k ip) (lookup ip t) t refl h)))

owns-IsTable :
    (e : Net) (now : ℕ) (m : Known) (k ip : Key) (bind : Bool) (t : Bindings)
    → IsTable t
    → IsTable (owns e now m k ip bind t).0
unfolding owns release_others
owns-IsTable e now m k ip bind t h =
    if-both IsTableAfter ((k == 0) || not (e.in_subnet ip)) (λ outside. h)
      (λ inside.
        if-both IsTableAfter (is_revoked m.revoked k) (λ revoked. h)
          (λ trusted. decided (provisioned m k ip)))
  where
    decided :
        (verdict : Option Bool)
        → IsTableAfter (elim verdict [
          | some owner ↦ (if owner && bind then release_others k ip t else t, owner)
          | none ↦ owns_unprovisioned e now m k ip bind t
        ])
    decided none = owns_unprovisioned-IsTable e now m k ip bind t h
    decided (some owner) =
        if-both IsTable (owner && bind) (λ bound. retain-IsTable _ t h) (λ only. h)

run_from-IsTable : (e : Net) (cs : List Event) (t : Bindings) → IsTable t → IsTable (run e cs t)
unfolding run step forget
run_from-IsTable e [] t h = h
run_from-IsTable e (asked now m k ip bind ∷ cs) t h =
    run_from-IsTable e cs _ (owns-IsTable e now m k ip bind t h)
run_from-IsTable e (forgotten k ∷ cs) t h = run_from-IsTable e cs _ (retain-IsTable _ t h)

-- From the empty table, whatever calls of owns and Forget come and whatever the node learns between
-- them, a key holds one overlay address at most and the table has ipBindingMaxBindings entries at
-- most.
pub run-IsTable : (e : Net) (cs : List Event) → IsTable (run e cs [])
unfolding count_of
run-IsTable e cs = run_from-IsTable e cs [] (λ k. omega arith, omega arith)
