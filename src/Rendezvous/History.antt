-- ===== src/Rendezvous/History.antt =====
-- The bounds over sweeps and whole histories of the server.
use mathlib.Core.Option.{some-injective}
use apgo.Prelude.{
  ℕ, suc, ◌+◌, ◌<◌, Bool, true, false, List, [], ◌∷◌, Option, none, some, leb, if◌then◌else◌,
  length, Bool-cases, ◌≡◌, ◌⊎◌, inl, inr, refl, sym, ap, arith, ◌∙◌, subst,
}
use apgo.Prelude.Maps.{
  Key, Assoc, lookup, update_all, Unique, lookup-retain, lookup-retain_missing, lookup-update_all,
  length-retain-le, retain-Unique, update_all-Unique,
}
use apgo.Rendezvous.Bounds.{IsNetwork, IsBounded, announce-IsBounded}
use apgo.Rendezvous.{PeerEntry, Registry, new_registry, expire, announce, is_filled, sweep}

length-update_all :
    (f : Key → Assoc PeerEntry → Assoc PeerEntry) (nets : Assoc (Assoc PeerEntry))
    → length (update_all f nets) ≡ length nets
unfolding update_all
length-update_all f [] = refl
length-update_all f ((k, m) ∷ nets) = ap suc (length-update_all f nets)

filled-positive : (k : Key) (m : Assoc PeerEntry) → is_filled k m ≡ true → 0 < length m
filled-positive k [] h = absurd (ground arith)
filled-positive k (x ∷ m) h = omega arith

module _ (r : Registry) (now : ℕ) where
  -- What a sweep leaves of a network.
  abbrev left_over : Key → Option (Assoc PeerEntry) → Option (Assoc PeerEntry)
  left_over k none = none
  left_over k (some m) =
      if is_filled k (expire now r.ttl m) then some (expire now r.ttl m) else none

  lookup-sweep :
      (k : Key) (o : Option (Assoc PeerEntry))
      → Unique r.nets
      → lookup k r.nets ≡ o
      → lookup k (sweep now r).nets ≡ left_over k o
  unfolding sweep
  lookup-sweep k none u h =
      let f = λ (network : Key) (m : Assoc PeerEntry). expire now r.ttl m in
      let e : lookup k (update_all f r.nets) ≡ none = lookup-update_all f k r.nets ∙ rw h refl in
      lookup-retain_missing is_filled k (update_all f r.nets) e
  lookup-sweep k (some m) u h =
      let f = λ (network : Key) (m : Assoc PeerEntry). expire now r.ttl m in
      let e : lookup k (update_all f r.nets) ≡ some (expire now r.ttl m) =
        lookup-update_all f k r.nets ∙ rw h refl in
      lookup-retain is_filled k (update_all f r.nets) (update_all-Unique f r.nets u) ∙ rw e refl

  swept-IsNetwork :
      (k : Key) (n m : Assoc PeerEntry)
      → IsNetwork r n
      → left_over k (some n) ≡ some m
      → IsNetwork r m
  unfolding expire
  swept-IsNetwork k n m was e = filled (Bool-cases (is_filled k (expire now r.ttl n)))
    where
      filled :
          (is_filled k (expire now r.ttl n) ≡ true) ⊎ (is_filled k (expire now r.ttl n) ≡ false)
          → IsNetwork r m
      filled (inr gone) = absurd (ground (arith, e, gone))
      filled (inl there) =
          let same : expire now r.ttl n ≡ m = some-injective _ _ (sym (rw there refl) ∙ e) in
          subst (IsNetwork r) same (
            retain-Unique (λ ep x. leb now (x.last_seen + r.ttl)) n was.0,
            filled-positive k (expire now r.ttl n) there,
            omega (arith, length-retain-le (λ ep x. leb now (x.last_seen + r.ttl)) n, was.2),
          )

  sweep-lookup :
      (k : Key) (o : Option (Assoc PeerEntry)) (m : Assoc PeerEntry)
      → lookup k r.nets ≡ o
      → Unique r.nets
      → ((n : Assoc PeerEntry) → lookup k r.nets ≡ some n → IsNetwork r n)
      → lookup k (sweep now r).nets ≡ some m
      → IsNetwork r m
  sweep-lookup k none m h u all l = absurd (ground (arith, sym (lookup-sweep k none u h) ∙ l))
  sweep-lookup k (some n) m h u all l =
      swept-IsNetwork k n m (all n h) (sym (lookup-sweep k (some n) u h) ∙ l)

  sweep-IsBounded : IsBounded r → IsBounded (sweep now r)
  unfolding sweep
  sweep-IsBounded (u, n, all) =
      let f = λ (network : Key) (m : Assoc PeerEntry). expire now r.ttl m in
      (
        retain-Unique is_filled (update_all f r.nets) (update_all-Unique f r.nets u),
        omega (arith, length-retain-le is_filled (update_all f r.nets), length-update_all f r.nets),
        λ k m l. sweep-lookup k (lookup k r.nets) m refl u (all k) l,
      )

-- What the server does, at the time it does it.
pub data Event : Type 0 where
  announced : Key → Key → Key → Bool → Event
  swept_all : Event

unfoldable pub step : Registry → ℕ × Event → Registry
step r (now, announced network endpoint source is_verified) =
    (announce now network endpoint source is_verified r).0
step r (now, swept_all) = sweep now r

unfoldable pub run : Registry → List (ℕ × Event) → Registry
run r [] = r
run r (e ∷ es) = run (step r e) es

-- Whatever is announced, by whom and at whatever times, and however the sweeps fall, the registry
-- never holds more networks than its limit, nor an empty network, nor one with more endpoints than
-- its limit, when it starts within these bounds.
pub run-IsBounded : (r : Registry) (es : List (ℕ × Event)) → IsBounded r → IsBounded (run r es)
unfolding run step
run-IsBounded r [] b = b
run-IsBounded r ((now, announced network endpoint source is_verified) ∷ es) b =
    run-IsBounded (announce now network endpoint source is_verified r).0 es
      (announce-IsBounded r now endpoint source is_verified network b)
run-IsBounded r ((now, swept_all) ∷ es) b = run-IsBounded (sweep now r) es (sweep-IsBounded r now b)

pub new_registry-IsBounded : (ttl : ℕ) → IsBounded (new_registry ttl)
unfolding new_registry lookup
new_registry-IsBounded ttl = (tt, omega arith, λ k m l. absurd (ground arith))
