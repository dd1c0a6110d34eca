-- ===== src/RelayPolicy/Steps.antt =====
-- client/relaypolicy.go: the lemmas on one update of the table and on calls in order.
use apgo.RelayPolicy.{
  NatClass, RelayPeerPolicy, Policies, relay_policy_forget, policy_for, swept, update_policy,
  with_class, note_connect_candidates, preference, relay_preferred, probed, should_probe_direct,
}
use apgo.Prelude.{
  ℕ, ◌+◌, ◌≤◌, Bool, not, List, [], ◌∷◌, ◌++◌, Option, none, some, ltb, ◌==◌, if◌then◌else◌, arith,
  ◌≡◌, refl,
}
use apgo.Prelude.Maps.{
  Key, lookup, insert, Unique, insert-Unique, retain-Unique, lookup-insert, lookup-retain,
}

-- The calls that reach the table.
pub data Event : Type 0 where
  candidates : (mine theirs : NatClass) → Event
  preferred : (established : Bool) → Event
  probe : Event

-- A call, with its time and its peer.
abbrev pub Call : Type 0
Call = ℕ × Key × Event

unfoldable pub handle : Call → Policies → Policies
handle (now, ip, candidates mine theirs) m = (note_connect_candidates mine theirs now ip m).0
handle (now, ip, preferred established) m = (relay_preferred now ip established m).0
handle (now, ip, probe) m = (should_probe_direct now ip m).0

unfoldable pub handle_all : List Call → Policies → Policies
handle_all [] m = m
handle_all (c ∷ cs) m = handle_all cs (handle c m)

-- The calls come in the order of the clock, between two times.
abbrev pub Between : (first last : ℕ) → List Call → Type 0
Between first last [] = first ≤ last
Between first last ((now, ip, e) ∷ cs) = (first ≤ now) × Between now last cs

pub update_policy-Unique :
    (now : ℕ) (ip : Key) (f : RelayPeerPolicy → RelayPeerPolicy) (m : Policies)
    → Unique m
    → Unique (update_policy now ip f m)
unfolding update_policy swept
update_policy-Unique now ip f m u = insert-Unique ip (f (policy_for now ip m)) (swept now ip m) (
    retain-Unique (λ k p. not (ltb (p.last_seen + relay_policy_forget) now))
      (insert ip (policy_for now ip m) m) (insert-Unique ip (policy_for now ip m) m u))

pub handle-Unique : (c : Call) (m : Policies) → Unique m → Unique (handle c m)
unfolding handle note_connect_candidates relay_preferred should_probe_direct
handle-Unique (now, ip, candidates mine theirs) m u =
    update_policy-Unique now ip (with_class mine theirs) m u
handle-Unique (now, ip, preferred established) m u =
    update_policy-Unique now ip (preference now established) m u
handle-Unique (now, ip, probe) m u = update_policy-Unique now ip (probed now) m u

-- What the sweep leaves of another peer's record.
abbrev pub recent : ℕ → Option RelayPeerPolicy → Option RelayPeerPolicy
recent now none = none
recent now (some p) = if not (ltb (p.last_seen + relay_policy_forget) now) then some p else none

pub lookup-update_policy :
    (now : ℕ) (at ip : Key) (f : RelayPeerPolicy → RelayPeerPolicy) (m : Policies)
    → Unique m
    → lookup ip (update_policy now at f m)
      ≡ (if at == ip then some (f (policy_for now at m)) else recent now (lookup ip m))
unfolding update_policy swept
lookup-update_policy now at ip f m u = ground (
  arith,
  lookup-insert at ip (f (policy_for now at m)) (swept now at m),
  lookup-retain (λ k p. not (ltb (p.last_seen + relay_policy_forget) now)) ip
      (insert at (policy_for now at m) m) (insert-Unique at (policy_for now at m) m u),
  lookup-insert at ip (policy_for now at m) m,
)

pub Between-le : (first last : ℕ) (cs : List Call) → Between first last cs → first ≤ last
Between-le first last [] h = h
Between-le first last ((now, ip, e) ∷ cs) h = ground (arith, Between-le now last cs h.1)

pub Between-snoc :
    (first last : ℕ) (ip : Key) (e : Event) (cs : List Call)
    → Between first last cs
    → Between first last (cs ++ ((last, ip, e) ∷ []))
Between-snoc first last ip e [] h = (h, ground arith)
Between-snoc first last ip e ((now, at, d) ∷ cs) h = (h.0, Between-snoc now last ip e cs h.1)

pub handle_all-snoc :
    (c : Call) (cs : List Call) (m : Policies)
    → handle_all (cs ++ (c ∷ [])) m ≡ handle c (handle_all cs m)
unfolding handle_all
handle_all-snoc c [] m = refl
handle_all-snoc c (d ∷ cs) m = handle_all-snoc c cs (handle d m)
