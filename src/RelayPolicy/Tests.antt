-- ===== src/RelayPolicy/Tests.antt =====
-- Runs of the relay policy.
use apgo.Prelude.{true, false, List, [], ◌∷◌, ◌≡◌, refl, arith, ◌+◌, ◌*◌, ◌≤◌}
use apgo.Prelude.Maps.{lookup, insert, retain}
use apgo.Prelude.Text.{codes, text_eq}
use apgo.Backoff.{second}
use apgo.RelayPolicy.{
  stable, symmetric, our_nat_class, nat_token_for, connect_list, parse_nat_class,
  direct_punch_viable, relay_preferred, should_probe_direct, punch_direct, note_connect_candidates,
  policy_for, swept, update_policy, with_class, preference, is_probe_due, probed, join, add_token,
  relay_upgrade_probe_every, NatMapping,
}
use apgo.RelayPolicy.Steps.{Call, candidates, preferred, probe, handle, handle_all}
use apgo.RelayPolicy.Probes.{punch_direct-apart}
use apgo.RelayPolicy.Tokens.{parse_nat_class-connect_list}

-- The phone 5 behind a symmetric NAT, and the peer 6.
abbrev between : List Call
between =
    (2 * second, 5, candidates stable symmetric)
    ∷ (3 * second, 6, preferred true)
    ∷ (20 * second, 5, probe)
    ∷ (30 * second, 5, preferred false)
    ∷ []

-- In the second minute the next probe is granted, and not before.
punch_direct_early :
    (punch_direct stable symmetric
      (59 * second)
      5
      (handle_all between (punch_direct stable symmetric 0 5 []).0)).1
    ≡ false
unfolding punch_direct note_connect_candidates should_probe_direct relay_preferred handle handle_all
    update_policy swept policy_for with_class preference probed is_probe_due direct_punch_viable
    lookup insert retain
punch_direct_early = refl

granted_first : (punch_direct stable symmetric 0 5 []).1 ≡ true
unfolding punch_direct note_connect_candidates should_probe_direct update_policy swept policy_for
    with_class is_probe_due direct_punch_viable lookup insert retain
granted_first = refl

granted_again :
    (punch_direct stable symmetric
      (60 * second)
      5
      (handle_all between (punch_direct stable symmetric 0 5 []).0)).1
    ≡ true
unfolding punch_direct note_connect_candidates should_probe_direct relay_preferred handle handle_all
    update_policy swept policy_for with_class preference probed is_probe_due direct_punch_viable
    lookup insert retain
granted_again = refl

unpunchable : direct_punch_viable stable symmetric ≡ false
unfolding direct_punch_viable
unpunchable = refl

punch_direct-apart_example : 0 + relay_upgrade_probe_every ≤ 60 * second
punch_direct-apart_example =
    punch_direct-apart stable symmetric stable symmetric 0 (60 * second) 5 between [] tt unpunchable
      unpunchable (ground arith) granted_first granted_again

abbrev phone : NatMapping
phone = record { has_ip = true; samples = 2; is_symmetric = true }

-- Two endpoints come first.
parse_nat_class-connect_list_example :
    parse_nat_class (λ t. t) (connect_list (codes "9.9.9.9:1" ∷ codes "[2001:db8::1]:2" ∷ []) phone)
    ≡ our_nat_class phone
unfolding text_eq
parse_nat_class-connect_list_example =
    parse_nat_class-connect_list (λ t. t) (λ c v. refl)
      (codes "9.9.9.9:1" ∷ codes "[2001:db8::1]:2" ∷ []) phone (ground arith)

connect_list-phone : connect_list (codes "9.9.9.9:1" ∷ []) phone ≡ codes "9.9.9.9:1,nat=sym"
unfolding connect_list add_token join nat_token_for
connect_list-phone = refl
