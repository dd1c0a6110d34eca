-- ===== src/AddressBindings/History.antt =====
-- client/ipbinding.go: the binding of an address through the calls of other keys.
use apgo.AddressBindings.Incumbent.{IsHeld, retain-IsHeld, owns-IsHeld, owns_refused}
use apgo.Prelude.{
  ℕ, ◌+◌, ◌≤◌, Bool, false, List, [], ◌∷◌, none, some, ◌==◌, All, ==_iff, arith, ◌≡◌, sym, subst,
  Bool-cases, inl, inr,
}
use apgo.Prelude.Maps.{Key, lookup, Unique}
use apgo.Revocation.{is_revoked}
use apgo.AddressClaims.{Known}
use apgo.AddressBindings.{
  Net, Binding, Bindings, claim_primary, ip_binding_idle_ttl, provisioned_owners, provisioned, owns,
  forget,
}

-- The calls on the table: `owns`, with what the node knows then, and `Forget`.
pub data Event : Type 0 where
  asked : ℕ → Known → (pub_key ip : Key) → (bind : Bool) → Event
  forgotten : Key → Event

unfoldable pub step : Net → Event → Bindings → Bindings
step e (asked now m k at bind) t = (owns e now m k at bind t).0
step e (forgotten k) t = forget k t

unfoldable pub run : Net → List Event → Bindings → Bindings
run e [] t = t
run e (c ∷ cs) t = run e cs (step e c t)

-- A call of another key, while the holder is not idle or revoked and no provision decides.
abbrev pub IsForeign : Binding → Key → Event → Type 0
IsForeign b ip (asked now m k at bind) =
    (b.pub_key == k ≡ false)
    × (now ≤ b.seen + ip_binding_idle_ttl)
    × (is_revoked m.revoked b.pub_key ≡ false)
    × (provisioned_owners m ip ≡ [])
IsForeign b ip (forgotten k) = b.pub_key == k ≡ false

undecided : (m : Known) (k ip : Key) → provisioned_owners m ip ≡ [] → provisioned m k ip ≡ none
unfolding provisioned
undecided m k ip empty = ground (arith, empty)

module _ (e : Net) (b : Binding) (ip : Key) (primary : b.strength ≡ claim_primary)
    (theirs : ip == e.my_ip ≡ false) where
  refused :
      (now : ℕ) (m : Known) (k : Key) (bind : Bool) (t : Bindings)
      → IsForeign b ip (asked now m k ip bind)
      → lookup ip t ≡ some b
      → owns e now m k ip bind t ≡ (t, false)
  refused now m k bind t foreign =
      owns_refused b ip now m k ip bind (ground arith) foreign.0 e t primary foreign.2
        (undecided m k ip foreign.3) theirs

  step-IsHeld :
      (c : Event) (t : Bindings) → IsForeign b ip c → IsHeld b ip t → IsHeld b ip (step e c t)
  unfolding step forget
  step-IsHeld (forgotten k) t foreign h = retain-IsHeld b ip _ t (ground arith) h
  step-IsHeld (asked now m k at bind) t foreign h = elim (Bool-cases (at == ip)) [
    | inr other ↦ owns-IsHeld b ip now m k at bind (ground arith) foreign.0 e t other h
    | inl same ↦
        subst (λ a. IsHeld b ip (owns e now m k a bind t).0) (sym ((==_iff at ip).0 same))
          (subst (λ r. IsHeld b ip r.0) (sym (refused now m k bind t foreign h.1)) h)
  ]

  run-IsHeld :
      (cs : List Event) (t : Bindings)
      → All (IsForeign b ip) cs
      → IsHeld b ip t
      → IsHeld b ip (run e cs t)
  unfolding run
  run-IsHeld [] t all h = h
  run-IsHeld (c ∷ cs) t all h = run-IsHeld cs (step e c t) all.1 (step-IsHeld c t all.0 h)

-- A key that holds the address it derives as its primary one keeps it through every sequence of
-- calls of owns and Forget for other keys, about any addresses and whatever the node learns between
-- them, and a further claim of another key to the address is refused and changes nothing. The calls
-- are within ipBindingIdleTTL (24 h) of the holder's last, at each of them the holder is not revoked
-- and no admin provision names the address, which is not this node's own; the table has an address
-- at most once.
pub owns-incumbent :
    (e : Net) (b : Binding) (ip : Key) (cs : List Event) (t : Bindings) (now : ℕ) (m : Known)
    (k : Key) (bind : Bool)
    → Unique t
    → lookup ip t ≡ some b
    → b.strength ≡ claim_primary
    → ip == e.my_ip ≡ false
    → All (IsForeign b ip) cs
    → IsForeign b ip (asked now m k ip bind)
    → (lookup ip (run e cs t) ≡ some b)
      × (owns e now m k ip bind (run e cs t) ≡ (run e cs t, false))
owns-incumbent e b ip cs t now m k bind unique held primary theirs all last =
    (final.1, refused e b ip primary theirs now m k bind (run e cs t) last final.1)
  where
    final : IsHeld b ip (run e cs t)
    final = run-IsHeld e b ip primary theirs cs t all (unique, held)
