-- ===== src/RelayPolicy/Probes.antt =====
-- client/relaypolicy.go: how far apart two direct probes of one peer are.
use apgo.RelayPolicy.{
  NatClass, RelayPeerPolicy, Policies, relay_upgrade_probe_every, relay_policy_forget,
  policy_or_new, policy_for, update_policy, with_class, note_connect_candidates, preference,
  relay_preferred, is_probe_due, probed, should_probe_direct, direct_punch_viable, punch_direct,
}
use apgo.RelayPolicy.Steps.{
  Event, candidates, preferred, probe, Call, handle, handle_all, Between, update_policy-Unique,
  handle-Unique, recent, lookup-update_policy, Between-le, Between-snoc, handle_all-snoc,
}
use apgo.Prelude.{
  ℕ, ◌+◌, ◌≤◌, ◌<◌, Bool, true, false, List, [], ◌∷◌, ◌++◌, Option, none, some, ltb, leb, ◌==◌,
  arith, ◌≡◌, refl, Bool-cases, inl, inr, ◌⊎◌, ◌&&◌, subst, sym, ==_iff, if-both, &&-eq-true,
}
use apgo.Prelude.Maps.{Key, lookup, Unique}

-- A record that was seen and probed at `t` or later.
abbrev is_probed_since : ℕ → Option ℕ → Bool
is_probed_since t none = false
is_probed_since t (some last) = leb t last

abbrev is_kept : ℕ → Option RelayPeerPolicy → Bool
is_kept t none = false
is_kept t (some p) = leb t p.last_seen && is_probed_since t p.last_probe

is_kept-recent :
    (t now : ℕ) (entry : Option RelayPeerPolicy)
    → is_kept t entry ≡ true
    → (t + relay_policy_forget < now) ⊎ (is_kept t (recent now entry) ≡ true)
is_kept-recent t now none kept = absurd (ground arith)
is_kept-recent t now (some p) kept =
    elim (Bool-cases (ltb (p.last_seen + relay_policy_forget) now)) [
      | inl old ↦ inl (ground arith)
      | inr fresh ↦ inr (ground arith)
    ]

is_kept-policy_or_new :
    (t now : ℕ) (entry : Option RelayPeerPolicy)
    → t ≤ now
    → is_kept t entry ≡ true
    → is_kept t (some (record (policy_or_new now entry) { last_seen = now })) ≡ true
is_kept-policy_or_new t now none later kept = absurd (ground arith)
is_kept-policy_or_new t now (some p) later kept = ground arith

is_kept-policy_for :
    (t now : ℕ) (ip : Key) (m : Policies)
    → t ≤ now
    → is_kept t (lookup ip m) ≡ true
    → is_kept t (some (policy_for now ip m)) ≡ true
unfolding policy_for
is_kept-policy_for t now ip m later kept = is_kept-policy_or_new t now (lookup ip m) later kept

is_kept-with_class :
    (t : ℕ) (mine theirs : NatClass) (p : RelayPeerPolicy)
    → is_kept t (some p) ≡ true
    → is_kept t (some (with_class mine theirs p)) ≡ true
unfolding with_class
is_kept-with_class t mine theirs p kept = ground arith

is_kept-preference :
    (t now : ℕ) (established : Bool) (p : RelayPeerPolicy)
    → is_kept t (some p) ≡ true
    → is_kept t (some (preference now established p)) ≡ true
unfolding preference
is_kept-preference t now established p kept = ground arith

is_kept-probed :
    (t now : ℕ) (p : RelayPeerPolicy)
    → t ≤ now
    → is_kept t (some p) ≡ true
    → is_kept t (some (probed now p)) ≡ true
unfolding probed is_probe_due
is_kept-probed t now p later kept = ground arith

is_kept-update_policy :
    (t now : ℕ) (at ip : Key) (f : RelayPeerPolicy → RelayPeerPolicy) (m : Policies)
    → Unique m
    → t ≤ now
    → ((p : RelayPeerPolicy) → is_kept t (some p) ≡ true → is_kept t (some (f p)) ≡ true)
    → is_kept t (lookup ip m) ≡ true
    → (t + relay_policy_forget < now) ⊎ (is_kept t (lookup ip (update_policy now at f m)) ≡ true)
is_kept-update_policy t now at ip f m u later keeps kept =
    subst (λ entry. (t + relay_policy_forget < now) ⊎ (is_kept t entry ≡ true))
      (sym (lookup-update_policy now at ip f m u))
      (if-both (λ entry. (t + relay_policy_forget < now) ⊎ (is_kept t entry ≡ true)) (at == ip)
        (λ same. inr (
          keeps (policy_for now at m) (
            is_kept-policy_for t now at m later
              (subst (λ k. is_kept t (lookup k m) ≡ true) (sym ((==_iff at ip).0 same)) kept))))
        (λ other. is_kept-recent t now (lookup ip m) kept))

-- The state of the claim: either everything from before is forgotten, or the record stands.
abbrev IsRemembered : (t now : ℕ) → Key → Policies → Type 0
IsRemembered t now ip m = (t + relay_policy_forget < now) ⊎ (is_kept t (lookup ip m) ≡ true)

handle-IsRemembered :
    (t now : ℕ) (at ip : Key) (e : Event) (m : Policies)
    → Unique m
    → t ≤ now
    → is_kept t (lookup ip m) ≡ true
    → IsRemembered t now ip (handle (now, at, e) m)
unfolding handle note_connect_candidates relay_preferred should_probe_direct
handle-IsRemembered t now at ip (candidates mine theirs) m u later =
    is_kept-update_policy t now at ip (with_class mine theirs) m u later
      (is_kept-with_class t mine theirs)
handle-IsRemembered t now at ip (preferred established) m u later =
    is_kept-update_policy t now at ip (preference now established) m u later
      (is_kept-preference t now established)
handle-IsRemembered t now at ip probe m u later =
    is_kept-update_policy t now at ip (probed now) m u later (λ p. is_kept-probed t now p later)

handle_all-IsRemembered :
    (t first last : ℕ) (ip : Key) (cs : List Call) (m : Policies)
    → Unique m
    → t ≤ first
    → Between first last cs
    → is_kept t (lookup ip m) ≡ true
    → IsRemembered t last ip (handle_all cs m)
unfolding handle_all
handle_all-IsRemembered t first last ip [] m u later ordered kept = inr kept
handle_all-IsRemembered t first last ip ((now, at, e) ∷ cs) m u later ordered kept =
    elim (handle-IsRemembered t now at ip e m u (ground arith) kept) [
      | inl late ↦ inl (ground (arith, Between-le now last cs ordered.1))
      | inr stands ↦
          handle_all-IsRemembered t now last ip cs (handle (now, at, e) m)
            (handle-Unique (now, at, e) m u) (ground arith) ordered.1 stands
    ]

probe_due-le :
    (t now : ℕ) (last : Option ℕ)
    → is_probed_since t last ≡ true
    → is_probe_due now last ≡ true
    → t + relay_upgrade_probe_every ≤ now
unfolding is_probe_due
probe_due-le t now none since due = absurd (ground arith)
probe_due-le t now (some last) since due = ground arith

entry_due-le :
    (t now : ℕ) (entry : Option RelayPeerPolicy)
    → is_kept t entry ≡ true
    → is_probe_due now (policy_or_new now entry).last_probe ≡ true
    → t + relay_upgrade_probe_every ≤ now
entry_due-le t now none kept due = absurd (ground arith)
entry_due-le t now (some p) kept due =
    probe_due-le t now p.last_probe
      (&&-eq-true (leb t p.last_seen) (is_probed_since t p.last_probe) kept).1 due

-- A record kept since `t` refuses a probe for a minute.
due-le :
    (t now : ℕ) (ip : Key) (m : Policies)
    → is_kept t (lookup ip m) ≡ true
    → is_probe_due now (policy_for now ip m).last_probe ≡ true
    → t + relay_upgrade_probe_every ≤ now
unfolding policy_for
due-le t now ip m kept due = entry_due-le t now (lookup ip m) kept due

granted-is_kept :
    (now : ℕ) (p : RelayPeerPolicy)
    → p.last_seen ≡ now
    → is_probe_due now p.last_probe ≡ true
    → is_kept now (some (probed now p)) ≡ true
unfolding probed
granted-is_kept now p seen due = ground arith

probed-is_kept :
    (now : ℕ) (ip : Key) (m : Policies)
    → Unique m
    → (should_probe_direct now ip m).1 ≡ true
    → is_kept now (lookup ip (should_probe_direct now ip m).0) ≡ true
unfolding should_probe_direct policy_for
probed-is_kept now ip m u granted =
    subst (λ entry. is_kept now entry ≡ true)
      (sym (lookup-update_policy now ip ip (probed now) m u))
      (if-both (λ entry. is_kept now entry ≡ true) (ip == ip)
        (λ same. granted-is_kept now (policy_for now ip m) refl granted)
        (λ other. absurd (ground arith)))

-- Granted probes are a minute apart.
should_probe_direct-apart :
    (first last : ℕ) (ip : Key) (between : List Call) (m : Policies)
    → Unique m
    → Between first last between
    → (should_probe_direct first ip m).1 ≡ true
    → (should_probe_direct last ip (handle_all between (should_probe_direct first ip m).0)).1 ≡ true
    → first + relay_upgrade_probe_every ≤ last
unfolding should_probe_direct
should_probe_direct-apart first last ip between m u ordered granted again =
    elim (handle_all-IsRemembered first first last ip between (should_probe_direct first ip m).0
      (update_policy-Unique first ip (probed first) m u) (omega arith) ordered
      (probed-is_kept first ip m u granted)) [
        | inl late ↦ omega arith
        | inr kept ↦ due-le first last ip _ kept again
      ]

-- A pairing of classes that cannot be punched leaves the choice to shouldProbeDirect.
punch_direct-refused :
    (mine theirs : NatClass) (now : ℕ) (ip : Key) (m : Policies)
    → direct_punch_viable mine theirs ≡ false
    → punch_direct mine theirs now ip m
      ≡ should_probe_direct now ip (note_connect_candidates mine theirs now ip m).0
unfolding punch_direct note_connect_candidates with_class
punch_direct-refused mine theirs now ip m refused = ground arith

-- Two direct punches at a peer whose pairing of NAT classes cannot be punched are at least
-- relayUpgradeProbeEvery (a minute) apart, whatever candidate lists, path choices and probes of any
-- peers come between them, as long as the clock does not run backwards and the table holds a peer
-- at most once.
pub punch_direct-apart :
    (mine theirs mine2 theirs2 : NatClass) (first last : ℕ) (ip : Key) (between : List Call)
    (m : Policies)
    → Unique m
    → direct_punch_viable mine theirs ≡ false
    → direct_punch_viable mine2 theirs2 ≡ false
    → Between first last between
    → (punch_direct mine theirs first ip m).1 ≡ true
    → (punch_direct mine2 theirs2 last ip
        (handle_all between (punch_direct mine theirs first ip m).0)).1
      ≡ true
    → first + relay_upgrade_probe_every ≤ last
unfolding handle
punch_direct-apart mine theirs mine2 theirs2 first last ip between m u r r2 ordered granted again =
    should_probe_direct-apart first last ip (between ++ (noted ∷ [])) start
      (handle-Unique (first, ip, candidates mine theirs) m u)
      (Between-snoc first last ip (candidates mine2 theirs2) between ordered)
      (subst (λ call. call.1 ≡ true) (punch_direct-refused mine theirs first ip m r) granted)
      (subst
        (λ call.
          (should_probe_direct last ip (handle_all (between ++ (noted ∷ [])) call.0)).1 ≡ true)
        (punch_direct-refused mine theirs first ip m r)
        (subst (λ table. (should_probe_direct last ip table).1 ≡ true)
          (sym (handle_all-snoc noted between (punch_direct mine theirs first ip m).0))
          (subst (λ call. call.1 ≡ true)
            (punch_direct-refused mine2 theirs2 last ip
              (handle_all between (punch_direct mine theirs first ip m).0) r2)
            again)))
  where
    noted : Call
    noted = (last, ip, candidates mine2 theirs2)

    start : Policies
    start = (note_connect_candidates mine theirs first ip m).0
