-- ===== src/RoutingTable.antt =====
-- client/dht.go: the Kademlia routing table (dhtRoutingTable), its Add and fail.
-- An address is a map key, with 0 for nil; dhtRoutableAddr, which only calls net.IP's tests, is a
-- parameter. Times are nanoseconds.
pub mod Buckets
mod Tests
use Prim.Native.Nat.{bit_and, bit_xor}
use apgo.Prelude.{
  ℕ, zero, suc, ◌+◌, ◌-◌, ◌*◌, ◌^◌, Bool, true, false, not, ◌&&◌, ◌||◌, List, [], ◌∷◌, ◌++◌, Option,
  none, some, ltb, leb, ◌==◌, if◌then◌else◌, length, get_or, set, replicate,
}
use apgo.Prelude.Maps.{Key}
use apgo.Prelude.Text.{Text, text_eq}

abbrev pub dht_k : ℕ
dht_k = 8

abbrev pub dht_node_timeout : ℕ
dht_node_timeout = 900_000_000_000

abbrev pub dht_max_failures : ℕ
dht_max_failures = 3

pub record Node : Type 0 where
  pub id : Text
  pub addr : Key
  pub last_seen : ℕ
  pub failures : ℕ

pub record Table : Type 0 where
  pub self : Text
  pub buckets : List (List Node)

unfoldable pub new_table : Text → Table
new_table self = record { self = self; buckets = replicate 160 [] }

-- `for bit := 7; bit >= 0; bit--`, the argument being bit + 1.
unfoldable pub leading_bit : ℕ → ℕ → Option ℕ
leading_bit zero x = none
leading_bit (suc bit) x =
    if not (bit_and x (2 ^ bit) == 0) then some (7 - bit) else leading_bit bit x

-- `dhtCommonPrefix` from byte `i` on.
unfoldable pub common_prefix_from : ℕ → Text → Text → ℕ
common_prefix_from i [] b = 159
common_prefix_from i (x ∷ a) [] = 159
common_prefix_from i (x ∷ a) (y ∷ b) =
    let rest = common_prefix_from (i + 1) a b in
    elim (if bit_xor x y == 0 then none else leading_bit 8 (bit_xor x y)) [
      | none ↦ rest
      | some k ↦ i * 8 + k
    ]

unfoldable pub common_prefix : Text → Text → ℕ
common_prefix a b = common_prefix_from 0 a b

-- The bucket with the node refreshed, if it is there.
unfoldable pub refresh : ℕ → Text → Key → List Node → Option (List Node)
refresh now id addr [] = none
refresh now id addr (n ∷ b) =
    let rest = refresh now id addr b in
    if text_eq n.id id
    then some (record n { addr = addr; last_seen = now; failures = 0 } ∷ b)
    else elim rest [ none ↦ none | some c ↦ some (n ∷ c) ]

abbrev pub is_bad : ℕ → Node → Bool
is_bad now n = leb dht_max_failures n.failures || ltb (n.last_seen + dht_node_timeout) now

abbrev pub is_worse : Node → Option (ℕ × Node) → Bool
is_worse n none = true
is_worse n (some (i, worst)) = ltb n.last_seen worst.last_seen

-- The loop for the worst node, from index `i` on.
unfoldable pub worst_from : ℕ → ℕ → Option (ℕ × Node) → List Node → Option (ℕ × Node)
worst_from now i worst [] = worst
worst_from now i worst (n ∷ b) =
    worst_from now (i + 1) (if is_bad now n && is_worse n worst then some (i, n) else worst) b

unfoldable pub admit : ℕ → Text → Key → List Node → List Node
admit now id addr b =
    let new : Node = record { id = id; addr = addr; last_seen = now; failures = 0 } in
    elim (refresh now id addr b) [
      | some c ↦ c
      | none ↦
          if ltb (length b) dht_k
          then b ++ (new ∷ [])
          else elim (worst_from now 0 none b) [ none ↦ b | some (i, worst) ↦ set b i new ]
    ]

-- `Add`
unfoldable pub add : (Key → Bool) → ℕ → Text → Key → Table → Table
add routable now id addr t =
    if addr == 0 || text_eq id t.self
    then t
    else if not (routable addr)
    then t
    else let idx = common_prefix t.self id in
      record t { buckets = set t.buckets idx (admit now id addr (get_or t.buckets idx [])) }

unfoldable pub fail_in : Text → List Node → List Node
fail_in id [] = []
fail_in id (n ∷ b) =
    let rest = fail_in id b in
    if text_eq n.id id
    then if leb dht_max_failures (n.failures + 1)
      then b
      else record n { failures = n.failures + 1 } ∷ b
    else n ∷ rest

-- `fail`
unfoldable pub fail : Text → Table → Table
fail id t =
    let idx = common_prefix t.self id in
    record t { buckets = set t.buckets idx (fail_in id (get_or t.buckets idx [])) }
