-- ===== src/IpLearning/Tests.antt =====
-- Routes learned from concrete frames.
use apgo.Prelude.{ℕ, Bool, true, false, List, [], ◌∷◌, none, some, ◌==◌, if◌then◌else◌, refl}
use apgo.Prelude.Maps.{Key, lookup}
use apgo.IpLearning.{Sessions, Learned}
use apgo.IpLearning.Direct.{HasDirect, learn_all, learn_all-HasDirect}

-- Endpoint 1 is a session of key 11, which owns the overlay IP 7; endpoint 2 is one of key 12.
abbrev two_sessions : Sessions
two_sessions = record {
  established = λ addr. if addr == 1 then some 11 else if addr == 2 then some 12 else none;
  is_live = λ addr. true;
  route_class = λ addr. 0;
  overlay_ip = λ k. if k == 11 then 7 else 8;
}

abbrev no_circuit : Key → Bool
no_circuit addr = false

abbrev learned : Learned
learned = (7, record { addr = 1; seen = 5 }) ∷ (9, record { addr = 2; seen = 5 }) ∷ []

-- A copy by the relay, a frame from nowhere, and the device itself.
abbrev frames : List (ℕ × Key × Key)
frames = (6, 7, 2) ∷ (7, 7, 3) ∷ (8, 7, 1) ∷ []

learn_all-HasDirect_example :
    HasDirect two_sessions 7 (learn_all two_sessions no_circuit frames learned)
learn_all-HasDirect_example =
    learn_all-HasDirect two_sessions no_circuit frames 7 learned
      (λ cur e. refl, (λ cur e. refl, (λ cur e. refl, tt)))
      (record { addr = 1; seen = 5 }, unfold lookup in refl, (refl, 11, refl, refl))
