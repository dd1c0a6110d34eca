-- ===== src/AddressBindings/Incumbent.antt =====
-- client/ipbinding.go: a primary holder keeps its address.
use apgo.Prelude.{
  ℕ, ◌≤◌, Bool, true, false, not, ◌&&◌, ◌||◌, Option, none, some, ltb, leb, ◌==◌, if◌then◌else◌,
  length, arith, ◌≡◌, if-both, subst, sym,
}
use apgo.Prelude.Maps.{
  Key, lookup, insert, without, retain, Unique, lookup-retain, lookup-insert, lookup-without,
  retain-Unique, insert-Unique, without-Unique,
}
use apgo.Revocation.{is_revoked}
use apgo.AddressClaims.{Known}
use apgo.AddressBindings.{
  Net, Binding, Bindings, claim_primary, claim_pinned, has_primary_rival, known_keys_claiming,
  ip_binding_max_bindings, salt_from, salt_strength, strength_of, provisioned, release_others,
  is_idle, take_address, claim_free, refresh, displace, contest, owns_unprovisioned, owns,
}

salt_strength-le : (salt : Option ℕ) → salt_strength salt ≤ claim_primary
salt_strength-le none = omega arith
salt_strength-le (some salt) = ground arith

strength_of-le : (e : Net) (k ip : Key) → strength_of e k ip ≤ claim_primary
unfolding strength_of
strength_of-le e k ip =
    if-both (λ s. s ≤ claim_primary) (not e.has_cidr) (λ bare. omega arith)
      (λ ranged. salt_strength-le (salt_from (e.derive k) ip 129 0))

module _ (b : Binding) (ip : Key) where
  -- The binding of the address, in a table that has an address once.
  abbrev pub IsHeld : Bindings → Type 0
  IsHeld t = Unique t × (lookup ip t ≡ some b)

  abbrev pub IsHeldAfter : Bindings × Bool → Type 0
  IsHeldAfter r = IsHeld r.0

  pub retain-IsHeld :
      (keep : Key → Binding → Bool) (t : Bindings)
      → keep ip b ≡ true
      → IsHeld t
      → IsHeld (retain keep t)
  retain-IsHeld keep t kept h =
      (retain-Unique keep t h.0, ground (arith, lookup-retain keep ip t h.0, h.1))

  insert-IsHeld :
      (at : Key) (v : Binding) (t : Bindings) → at == ip ≡ false → IsHeld t → IsHeld (insert at v t)
  insert-IsHeld at v t other h =
      (insert-Unique at v t h.0, ground (arith, lookup-insert at ip v t, h.1))

  without-IsHeld : (at : Key) (t : Bindings) → at == ip ≡ false → IsHeld t → IsHeld (without at t)
  without-IsHeld at t other h =
      (without-Unique at t h.0, ground (arith, lookup-without at ip t, h.1))

  module _ (now : ℕ) (m : Known) (k at : Key) (bind : Bool) (fresh : is_idle now b ≡ false)
      (stranger : b.pub_key == k ≡ false) where
    release_others-IsHeld : (t : Bindings) → IsHeld t → IsHeld (release_others k at t)
    unfolding release_others
    release_others-IsHeld t = retain-IsHeld _ t (ground arith)

    module _ (other : at == ip ≡ false) where
      take_address-IsHeld : (s : ℕ) (t : Bindings) → IsHeld t → IsHeld (take_address now k at s t)
      unfolding take_address
      take_address-IsHeld s t h = insert-IsHeld at _ _ other (retain-IsHeld _ t (ground arith) h)

      claim_free-IsHeld :
          (s : ℕ) (t : Bindings) → IsHeld t → IsHeld (claim_free now m k at bind s t).0
      unfolding claim_free
      claim_free-IsHeld s t h =
          if-both IsHeldAfter (not bind) (λ only. h)
            (λ binds.
              if-both IsHeldAfter (ltb (length t) ip_binding_max_bindings)
                (λ room. take_address-IsHeld s t h)
                (λ full.
                  if-both IsHeldAfter
                    (leb ip_binding_max_bindings (length (retain (λ a v. not (is_idle now v)) t)))
                    (λ packed. retain-IsHeld _ t (ground arith) h)
                    (λ room. take_address-IsHeld s _ (retain-IsHeld _ t (ground arith) h))))

      refresh-IsHeld :
          (s : ℕ) (v : Binding) (t : Bindings) → IsHeld t → IsHeld (refresh now at bind s v t).0
      unfolding refresh
      refresh-IsHeld s v t h =
          if-both IsHeldAfter (not bind) (λ only. h) (λ binds. insert-IsHeld at _ t other h)

      displace-IsHeld :
          (s : ℕ) (v : Binding) (t : Bindings)
          → IsHeld t
          → IsHeld (displace now m k at bind s v t).0
      unfolding displace
      displace-IsHeld s v t h =
          if-both IsHeldAfter (is_idle now v || is_revoked m.revoked v.pub_key)
            (λ stale. claim_free-IsHeld s _ (without-IsHeld at t other h))
            (λ live.
              if-both IsHeldAfter (ltb v.strength s)
                (λ weaker.
                  if-both IsHeldAfter (not bind) (λ only. h)
                    (λ binds. claim_free-IsHeld s _ (without-IsHeld at t other h)))
                (λ stronger. h))

      contest-IsHeld :
          (s : ℕ) (v : Option Binding) (t : Bindings)
          → IsHeld t
          → IsHeld (contest now m k at bind s v t).0
      unfolding contest
      contest-IsHeld s none t h = claim_free-IsHeld s t h
      contest-IsHeld s (some v) t h =
          if-both IsHeldAfter (v.pub_key == k) (λ own. refresh-IsHeld s v t h)
            (λ foreign. displace-IsHeld s v t h)

      owns_unprovisioned-IsHeld :
          (e : Net) (t : Bindings) → IsHeld t → IsHeld (owns_unprovisioned e now m k at bind t).0
      unfolding owns_unprovisioned
      owns_unprovisioned-IsHeld e t h =
          if-both IsHeldAfter ((strength_of e k at == claim_pinned) && e.strict) (λ pinned. h)
            (λ unpinned.
              if-both IsHeldAfter
                (ltb (strength_of e k at) claim_primary
                  && has_primary_rival e k at (known_keys_claiming now m at))
                (λ rival. h)
                (λ free.
                  if-both IsHeldAfter (at == e.my_ip) (λ mine. h)
                    (λ theirs. contest-IsHeld (strength_of e k at) (lookup at t) t h)))

    pub owns-IsHeld :
        (e : Net) (t : Bindings) → at == ip ≡ false → IsHeld t → IsHeld (owns e now m k at bind t).0
    unfolding owns
    owns-IsHeld e t other h =
        if-both IsHeldAfter ((k == 0) || not (e.in_subnet at)) (λ outside. h)
          (λ inside.
            if-both IsHeldAfter (is_revoked m.revoked k) (λ revoked. h)
              (λ trusted. decided (provisioned m k at)))
      where
        decided :
            (verdict : Option Bool)
            → IsHeldAfter (elim verdict [
              | some owner ↦ (if owner && bind then release_others k at t else t, owner)
              | none ↦ owns_unprovisioned e now m k at bind t
            ])
        decided none = owns_unprovisioned-IsHeld other e t h
        decided (some owner) =
            if-both IsHeld (owner && bind) (λ bound. release_others-IsHeld t h) (λ only. h)

    displace_refused :
        (s : ℕ) (t : Bindings)
        → s ≤ b.strength
        → is_revoked m.revoked b.pub_key ≡ false
        → displace now m k ip bind s b t ≡ (t, false)
    unfolding displace
    displace_refused s t weaker trusted = ground arith

    contest_refused :
        (s : ℕ) (t : Bindings)
        → s ≤ b.strength
        → is_revoked m.revoked b.pub_key ≡ false
        → lookup ip t ≡ some b
        → contest now m k ip bind s (lookup ip t) t ≡ (t, false)
    unfolding contest
    contest_refused s t weaker trusted held =
        subst (λ v. contest now m k ip bind s v t ≡ (t, false)) (sym held)
          (if-both (λ r. r ≡ (t, false)) (b.pub_key == k) (λ own. absurd (ground arith))
            (λ foreign. displace_refused s t weaker trusted))

    pub owns_refused :
        (e : Net) (t : Bindings)
        → b.strength ≡ claim_primary
        → is_revoked m.revoked b.pub_key ≡ false
        → provisioned m k ip ≡ none
        → ip == e.my_ip ≡ false
        → lookup ip t ≡ some b
        → owns e now m k ip bind t ≡ (t, false)
    unfolding owns owns_unprovisioned
    owns_refused e t primary trusted undecided theirs held = ground (
      arith,
      undecided,
      theirs,
      contest_refused (strength_of e k ip) t
          (subst (λ s. strength_of e k ip ≤ s) (sym primary) (strength_of-le e k ip)) trusted held,
    )
