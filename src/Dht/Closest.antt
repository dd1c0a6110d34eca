-- ===== src/Dht/Closest.antt =====
-- client/dht.go: dhtXORLess and Closest. `sort.Slice` orders by distance; identifiers of one length
-- at equal distance are equal, so the order of insertion that is written here is any order it may
-- choose, up to nodes of one identifier.
use Prim.Native.Nat.{bit_xor}
use apgo.Prelude.{ℕ, Bool, false, not, List, [], ◌∷◌, ◌++◌, ltb, ◌==◌, if◌then◌else◌, length, take}
use apgo.Prelude.Text.{Text}
use apgo.RoutingTable.{Node, Table}

unfoldable pub xor_less : Text → Text → Text → Bool
xor_less (t ∷ target) (a ∷ as_) (b ∷ bs) =
    let rest = xor_less target as_ bs in
    if not (bit_xor a t == bit_xor b t) then ltb (bit_xor a t) (bit_xor b t) else rest
xor_less _ _ _ = false

unfoldable pub all_nodes : List (List Node) → List Node
all_nodes [] = []
all_nodes (b ∷ bs) = b ++ all_nodes bs

unfoldable pub insert_by_distance : Text → Node → List Node → List Node
insert_by_distance target n [] = n ∷ []
insert_by_distance target n (m ∷ ms) =
    let rest = insert_by_distance target n ms in
    if xor_less target n.id m.id then n ∷ m ∷ ms else m ∷ rest

unfoldable pub sort_by_distance : Text → List Node → List Node
sort_by_distance target [] = []
sort_by_distance target (n ∷ ns) = insert_by_distance target n (sort_by_distance target ns)

unfoldable pub closest : Text → ℕ → Table → List Node
closest target n t =
    let all = sort_by_distance target (all_nodes t.buckets) in
    if ltb n (length all) then take n all else all
