-- ===== src/RelayPolicy.antt =====
-- client/relaypolicy.go: when a peer is reached over a relay. A peer's overlay IP is a map key; times
-- are nanoseconds. strings.TrimSpace and this node's own class (ourNATClass reads what probeNAT
-- found) are arguments; the log line's reason and the NAT spray are left out.
pub mod Tokens
pub mod Steps
pub mod Probes
pub mod Escalates
mod Tests
use apgo.Prelude.{
  ℕ, ◌+◌, ◌*◌, Bool, true, false, not, ◌&&◌, ◌||◌, List, [], ◌∷◌, ◌++◌, Option, none, some, ltb,
  leb, ◌==◌, if◌then◌else◌, length, take, drop, ◌≤◌,
}
use apgo.Prelude.Maps.{Key, Assoc, lookup, insert, retain}
use apgo.Prelude.Text.{Text, codes, text_eq}
use apgo.Backoff.{second, minute}

pub data NatClass : Type 0 where
  unknown : NatClass
  stable : NatClass
  symmetric : NatClass

abbrev pub nat_token_pfx : Text
nat_token_pfx = codes "nat="

abbrev pub nat_token_max_len : ℕ
nat_token_max_len = 16

abbrev pub relay_escalate_after : ℕ
relay_escalate_after = 15 * second

abbrev pub relay_upgrade_probe_every : ℕ
relay_upgrade_probe_every = 60 * second

abbrev pub relay_policy_forget : ℕ
relay_policy_forget = 30 * minute

-- What probeNAT found; `has_ip` is that its address is not "".
pub record NatMapping : Type 0 where
  pub has_ip : Bool
  pub samples : ℕ
  pub is_symmetric : Bool

unfoldable pub our_nat_class : NatMapping → NatClass
our_nat_class m =
    if not m.has_ip || ltb m.samples 2
    then unknown
    else if m.is_symmetric
    then symmetric
    else stable

unfoldable pub nat_token_for : NatMapping → Text
nat_token_for m =
    if not m.has_ip || ltb m.samples 2
    then []
    else if m.is_symmetric
    then nat_token_pfx ++ codes "sym"
    else nat_token_pfx ++ codes "stable"

-- strings.Join at a comma.
unfoldable pub join : List Text → Text
join [] = []
join (c ∷ []) = c
join (c ∷ (d ∷ cs)) = c ++ (b',' ∷ join (d ∷ cs))

unfoldable pub add_token : Text → List Text → List Text
add_token [] cands = cands
add_token (c ∷ token) cands = cands ++ ((c ∷ token) ∷ [])

-- The end of `myConnectCandidates`: the candidates and this node's class.
unfoldable pub connect_list : List Text → NatMapping → Text
connect_list cands m = join (add_token (nat_token_for m) cands)

-- strings.Split at a comma: the fields behind the one that is being read.
unfoldable pub split_from : Text → Text → List Text
split_from field [] = field ∷ []
split_from field (c ∷ s) =
    let same = split_from (field ++ (c ∷ [])) s in
    let next = split_from [] s in if c == b',' then field ∷ next else same

unfoldable pub class_of_token : Text → Option NatClass
class_of_token c =
    if ltb nat_token_max_len (length c) || not (text_eq (take 4 c) nat_token_pfx)
    then none
    else if text_eq (drop 4 c) (codes "sym")
    then some symmetric
    else if text_eq (drop 4 c) (codes "stable")
    then some stable
    else none

-- The loop of parseNATClass over the candidates.
unfoldable pub class_from : (trim_space : Text → Text) → List Text → NatClass
class_from trim_space [] = unknown
class_from trim_space (c ∷ l) =
    let rest = class_from trim_space l in
    elim (class_of_token (trim_space c)) [ none ↦ rest | some k ↦ k ]

unfoldable pub parse_nat_class : (trim_space : Text → Text) → Text → NatClass
parse_nat_class trim_space s = class_from trim_space (split_from [] s)

unfoldable pub direct_punch_viable : (mine theirs : NatClass) → Bool
direct_punch_viable unknown theirs = true
direct_punch_viable stable unknown = true
direct_punch_viable stable stable = true
direct_punch_viable stable symmetric = false
direct_punch_viable symmetric unknown = true
direct_punch_viable symmetric stable = false
direct_punch_viable symmetric symmetric = false

-- `last_probe` is `none` for the zero time.
pub record RelayPeerPolicy : Type 0 where
  pub first_punch : ℕ
  pub last_seen : ℕ
  pub last_probe : Option ℕ
  pub nat_class : NatClass
  pub relay_first : Bool
  pub escalated : Bool

abbrev pub Policies : Type 0
Policies = Assoc RelayPeerPolicy

abbrev pub policy_or_new : ℕ → Option RelayPeerPolicy → RelayPeerPolicy
policy_or_new now (some p) = p
policy_or_new now none = record {
  first_punch = now;
  last_seen = now;
  last_probe = none;
  nat_class = unknown;
  relay_first = false;
  escalated = false;
}

-- `relayPolicyFor`: the record of the peer, seen now.
unfoldable pub policy_for : ℕ → Key → Policies → RelayPeerPolicy
policy_for now ip m = record (policy_or_new now (lookup ip m)) { last_seen = now }

-- The table behind it: the record stored, and the sweep.
unfoldable pub swept : ℕ → Key → Policies → Policies
swept now ip m =
    retain (λ k p. not (ltb (p.last_seen + relay_policy_forget) now))
      (insert ip (policy_for now ip m) m)

-- The record is shared with the table: what a caller writes in it stands there.
unfoldable pub update_policy : ℕ → Key → (RelayPeerPolicy → RelayPeerPolicy) → Policies → Policies
update_policy now ip f m = insert ip (f (policy_for now ip m)) (swept now ip m)

unfoldable pub with_class : NatClass → NatClass → RelayPeerPolicy → RelayPeerPolicy
with_class mine theirs p =
    let viable = direct_punch_viable mine theirs in
    if not viable && not p.relay_first
    then record p { nat_class = theirs; relay_first = true }
    else if viable && p.relay_first
    then record p { nat_class = theirs; relay_first = false }
    else record p { nat_class = theirs }

-- `noteConnectCandidates`: whether the peer should be punched.
unfoldable pub note_connect_candidates :
    (mine theirs : NatClass) → ℕ → Key → Policies → Policies × Bool
note_connect_candidates mine theirs now ip m = (
  update_policy now ip (with_class mine theirs) m,
  not (with_class mine theirs (policy_for now ip m)).relay_first,
)

unfoldable pub preference : ℕ → (established : Bool) → RelayPeerPolicy → RelayPeerPolicy
preference now established p =
    if established
    then record p { relay_first = false; first_punch = now; escalated = false }
    else if p.relay_first
    then p
    else if not p.escalated && leb (p.first_punch + relay_escalate_after) now
    then record p { escalated = true }
    else p

unfoldable pub relay_preferred : ℕ → Key → (established : Bool) → Policies → Policies × Bool
relay_preferred now ip established m =
    let p = preference now established (policy_for now ip m) in
    (
      update_policy now ip (preference now established) m,
      not established && (p.relay_first || p.escalated),
    )

unfoldable pub is_probe_due : ℕ → Option ℕ → Bool
is_probe_due now none = true
is_probe_due now (some last) = not (ltb now (last + relay_upgrade_probe_every))

unfoldable pub probed : ℕ → RelayPeerPolicy → RelayPeerPolicy
probed now p = if is_probe_due now p.last_probe then record p { last_probe = some now } else p

unfoldable pub should_probe_direct : ℕ → Key → Policies → Policies × Bool
should_probe_direct now ip m =
    (update_policy now ip (probed now) m, is_probe_due now (policy_for now ip m).last_probe)

-- The head of `punchCandidates`, for a peer whose overlay IP is known: whether it is punched.
unfoldable pub punch_direct : (mine theirs : NatClass) → ℕ → Key → Policies → Policies × Bool
punch_direct mine theirs now ip m =
    let noted = note_connect_candidates mine theirs now ip m in
    let tried = should_probe_direct now ip noted.0 in if noted.1 then noted else tried
