-- ===== src/RelayPolicy/Escalates.antt =====
-- client/relaypolicy.go: what relayPreferred answers for a peer that is punched at in vain. The
-- program's own code does not call it, only its tests do.
use apgo.RelayPolicy.Steps.{
  Event, candidates, preferred, probe, Call, handle, handle_all, Between, handle-Unique, recent,
  lookup-update_policy, Between-le,
}
use apgo.RelayPolicy.{
  NatClass, RelayPeerPolicy, Policies, relay_escalate_after, relay_policy_forget, policy_or_new,
  policy_for, update_policy, with_class, note_connect_candidates, preference, relay_preferred,
  probed, should_probe_direct,
}
use apgo.Prelude.{
  ℕ, ◌+◌, ◌≤◌, Bool, true, false, List, [], ◌∷◌, Option, none, some, leb, ◌==◌, arith, ◌≡◌, refl,
  inl, inr, ◌⊎◌, ◌&&◌, ◌||◌, subst, sym, ==_iff, if-both,
}
use apgo.Prelude.Maps.{Key, lookup, Unique}

-- A record whose timer runs since `t` or earlier, and that was seen at `t` or later.
abbrev is_waiting : ℕ → Option RelayPeerPolicy → Bool
is_waiting t none = false
is_waiting t (some p) = leb p.first_punch t && leb t p.last_seen

is_waiting-recent :
    (t now : ℕ) (entry : Option RelayPeerPolicy)
    → now ≤ t + relay_policy_forget
    → is_waiting t entry ≡ true
    → is_waiting t (recent now entry) ≡ true
is_waiting-recent t now none early waits = waits
is_waiting-recent t now (some p) early waits = ground arith

is_waiting-policy_or_new :
    (t now : ℕ) (entry : Option RelayPeerPolicy)
    → t ≤ now
    → is_waiting t entry ≡ true
    → is_waiting t (some (record (policy_or_new now entry) { last_seen = now })) ≡ true
is_waiting-policy_or_new t now none later waits = absurd (ground arith)
is_waiting-policy_or_new t now (some p) later waits = ground arith

-- The peer is not found to be up.
abbrev pub IsVain : Key → Key → Event → Type 0
IsVain ip at (candidates mine theirs) = Unit
IsVain ip at (preferred established) = established ≡ true → at == ip ≡ false
IsVain ip at probe = Unit

abbrev pub AreVain : Key → List Call → Type 0
AreVain ip [] = Unit
AreVain ip ((now, at, e) ∷ cs) = IsVain ip at e × AreVain ip cs

is_waiting-update_policy :
    (t now : ℕ) (at ip : Key) (f : RelayPeerPolicy → RelayPeerPolicy) (m : Policies)
    → Unique m
    → t ≤ now
    → now ≤ t + relay_policy_forget
    → ((at == ip) ≡ true
        → (p : RelayPeerPolicy) → is_waiting t (some p) ≡ true
        → is_waiting t (some (f p)) ≡ true)
    → is_waiting t (lookup ip m) ≡ true
    → is_waiting t (lookup ip (update_policy now at f m)) ≡ true
unfolding policy_for
is_waiting-update_policy t now at ip f m u later early keeps waits =
    subst (λ entry. is_waiting t entry ≡ true) (sym (lookup-update_policy now at ip f m u))
      (if-both (λ entry. is_waiting t entry ≡ true) (at == ip)
        (λ same. keeps same (policy_for now at m) (
          is_waiting-policy_or_new t now (lookup at m) later
            (subst (λ k. is_waiting t (lookup k m) ≡ true) (sym ((==_iff at ip).0 same)) waits)))
        (λ other. is_waiting-recent t now (lookup ip m) early waits))

is_waiting-with_class :
    (t : ℕ) (mine theirs : NatClass) (p : RelayPeerPolicy)
    → is_waiting t (some p) ≡ true
    → is_waiting t (some (with_class mine theirs p)) ≡ true
unfolding with_class
is_waiting-with_class t mine theirs p waits = ground arith

is_waiting-preference :
    (t now : ℕ) (p : RelayPeerPolicy)
    → is_waiting t (some p) ≡ true
    → is_waiting t (some (preference now false p)) ≡ true
unfolding preference
is_waiting-preference t now p waits = ground arith

is_waiting-probed :
    (t now : ℕ) (p : RelayPeerPolicy)
    → is_waiting t (some p) ≡ true
    → is_waiting t (some (probed now p)) ≡ true
unfolding probed
is_waiting-probed t now p waits = ground arith

handle-is_waiting :
    (t now : ℕ) (at ip : Key) (e : Event) (m : Policies)
    → Unique m
    → t ≤ now
    → now ≤ t + relay_policy_forget
    → IsVain ip at e
    → is_waiting t (lookup ip m) ≡ true
    → is_waiting t (lookup ip (handle (now, at, e) m)) ≡ true
unfolding handle note_connect_candidates relay_preferred should_probe_direct
handle-is_waiting t now at ip (candidates mine theirs) m u later early vain =
    is_waiting-update_policy t now at ip (with_class mine theirs) m u later early
      (λ same. is_waiting-with_class t mine theirs)
handle-is_waiting t now at ip (preferred false) m u later early vain =
    is_waiting-update_policy t now at ip (preference now false) m u later early
      (λ same. is_waiting-preference t now)
handle-is_waiting t now at ip (preferred true) m u later early vain =
    is_waiting-update_policy t now at ip (preference now true) m u later early
      (λ same p w. absurd (ground (arith, vain refl)))
handle-is_waiting t now at ip probe m u later early vain =
    is_waiting-update_policy t now at ip (probed now) m u later early
      (λ same. is_waiting-probed t now)

handle_all-is_waiting :
    (t first last : ℕ) (ip : Key) (cs : List Call) (m : Policies)
    → Unique m
    → t ≤ first
    → last ≤ t + relay_policy_forget
    → Between first last cs
    → AreVain ip cs
    → is_waiting t (lookup ip m) ≡ true
    → is_waiting t (lookup ip (handle_all cs m)) ≡ true
unfolding handle_all
handle_all-is_waiting t first last ip [] m u later early ordered vain waits = waits
handle_all-is_waiting t first last ip ((now, at, e) ∷ cs) m u later early ordered vain waits =
    handle_all-is_waiting t now last ip cs (handle (now, at, e) m) (handle-Unique (now, at, e) m u)
      (ground arith) early ordered.1 vain.1
      (handle-is_waiting t now at ip e m u (ground arith)
        (ground (arith, Between-le now last cs ordered.1)) vain.0 waits)

-- A call that starts the timer of a peer: it is new to the table, or its session is up.
abbrev pub IsStart : Key → Policies → Event → Type 0
IsStart ip m e = (lookup ip m ≡ none) ⊎ (e ≡ preferred true)

own_update_policy :
    (now : ℕ) (ip : Key) (f : RelayPeerPolicy → RelayPeerPolicy) (m : Policies)
    → Unique m
    → is_waiting now (some (f (policy_for now ip m))) ≡ true
    → is_waiting now (lookup ip (update_policy now ip f m)) ≡ true
own_update_policy now ip f m u waits =
    subst (λ entry. is_waiting now entry ≡ true) (sym (lookup-update_policy now ip ip f m u))
      (if-both (λ entry. is_waiting now entry ≡ true) (ip == ip) (λ same. waits)
        (λ other. absurd (ground arith)))

new_is_waiting :
    (now : ℕ) (ip : Key) (m : Policies)
    → lookup ip m ≡ none
    → is_waiting now (some (policy_for now ip m)) ≡ true
unfolding policy_for
new_is_waiting now ip m new =
    subst
      (λ entry. is_waiting now (some (record (policy_or_new now entry) { last_seen = now })) ≡ true)
      (sym new) (ground arith)

up_is_waiting :
    (now : ℕ) (p : RelayPeerPolicy)
    → p.last_seen ≡ now
    → is_waiting now (some (preference now true p)) ≡ true
unfolding preference
up_is_waiting now p seen = ground arith

handle-start :
    (now : ℕ) (ip : Key) (e : Event) (m : Policies)
    → Unique m
    → IsStart ip m e
    → is_waiting now (lookup ip (handle (now, ip, e) m)) ≡ true
unfolding handle note_connect_candidates relay_preferred should_probe_direct policy_for
handle-start now ip (candidates mine theirs) m u (inl new) =
    own_update_policy now ip (with_class mine theirs) m u
      (is_waiting-with_class now mine theirs _ (new_is_waiting now ip m new))
handle-start now ip (preferred true) m u start =
    own_update_policy now ip (preference now true) m u
      (up_is_waiting now (policy_for now ip m) refl)
handle-start now ip (preferred false) m u (inl new) =
    own_update_policy now ip (preference now false) m u
      (is_waiting-preference now now _ (new_is_waiting now ip m new))
handle-start now ip probe m u (inl new) =
    own_update_policy now ip (probed now) m u
      (is_waiting-probed now now _ (new_is_waiting now ip m new))
handle-start now ip (candidates mine theirs) m u (inr same) = absurd (ground arith)
handle-start now ip (preferred false) m u (inr same) = absurd (ground arith)
handle-start now ip probe m u (inr same) = absurd (ground arith)

-- A record whose time is up prefers the relay.
waited :
    (t now : ℕ) (p : RelayPeerPolicy)
    → is_waiting t (some p) ≡ true
    → t + relay_escalate_after ≤ now
    → (preference now false p).relay_first || (preference now false p).escalated ≡ true
unfolding preference
waited t now p waits late = ground arith

relay_preferred-waited :
    (t now : ℕ) (ip : Key) (m : Policies)
    → is_waiting t (lookup ip m) ≡ true
    → t ≤ now
    → t + relay_escalate_after ≤ now
    → (relay_preferred now ip false m).1 ≡ true
unfolding relay_preferred policy_for
relay_preferred-waited t now ip m waits later late =
    waited t now (policy_for now ip m) (is_waiting-policy_or_new t now (lookup ip m) later waits)
      late

-- For a peer that is new to the table at a call, or up at it, and that no later call finds up,
-- relayPreferred answers true from relayEscalateAfter (15 s) on, whatever candidate lists, path choices
-- and probes of any peers come in between. The calls are in the order of the clock, the last is
-- within relayPolicyForget (30 min) of the first, and the table holds a peer at most once.
pub relay_preferred-escalates :
    (first last : ℕ) (ip : Key) (e : Event) (between : List Call) (m : Policies)
    → Unique m
    → IsStart ip m e
    → Between first last between
    → AreVain ip between
    → first + relay_escalate_after ≤ last
    → last ≤ first + relay_policy_forget
    → (relay_preferred last ip false (handle_all ((first, ip, e) ∷ between) m)).1 ≡ true
unfolding handle_all
relay_preferred-escalates first last ip e between m u start ordered vain late early =
    relay_preferred-waited first last ip (handle_all between (handle (first, ip, e) m))
      (handle_all-is_waiting first first last ip between (handle (first, ip, e) m)
        (handle-Unique (first, ip, e) m u) (omega arith) early ordered vain
        (handle-start first ip e m u start))
      (omega arith) late
