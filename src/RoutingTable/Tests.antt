-- ===== src/RoutingTable/Tests.antt =====
-- Runs of the routing table.
use apgo.Prelude.{Bool, true, List, [], ◌∷◌, replicate, ◌≡◌, refl}
use apgo.Prelude.Maps.{Key}
use apgo.Prelude.Text.{Text}
use apgo.RoutingTable.{Node, common_prefix, common_prefix_from, leading_bit}

-- Two identifiers that differ first in bit 4 of byte 1.
shared_bits : common_prefix (7 ∷ 0 ∷ []) (7 ∷ 8 ∷ []) ≡ 12
unfolding common_prefix common_prefix_from leading_bit
shared_bits = refl

abbrev self_id : Text
self_id = replicate 20 0

abbrev everywhere : Key → Bool
everywhere a = true

abbrev good : List Node
good = replicate 8 (record { id = 1 ∷ []; addr = 77; last_seen = 100; failures = 1 })
