-- ===== src/ExitServer/Pool.antt =====
-- client/pubexit_server.go: the lemmas on the addresses that allocLocked hands out.
use mathlib.Core.Option.{none-ne-some}
use native.Mathlib.Nat.{mod-lt, mod-eq_of_lt}
use apgo.Prelude.{
  ℕ, zero, suc, ◌+◌, ◌-◌, ◌%◌, ◌≤◌, ◌<◌, none, some, ltb, if◌then◌else◌, Bool-cases, Option-cases,
  ◌≡◌, refl, sym, ◌∙◌, ◌⊎◌, inl, inr, arith,
}
use apgo.Prelude.Maps.{Key, Assoc, lookup}
use apgo.ExitServer.{ExitServer, pool_host, alloc_from, alloc_locked}

-- A host of the pool: neither its network address nor its first host, and within its size.
abbrev pub IsPoolHost : (base size ip : ℕ) → Type 0
IsPoolHost base size ip = (base + 2 ≤ ip) × (ip ≤ base + size)

pool_host-IsPoolHost :
    (base size start i : ℕ) → 3 ≤ size → IsPoolHost base size (pool_host base size start i)
unfolding pool_host
pool_host-IsPoolHost base size start i big =
    omega (arith, mod-lt (start + i) {m = size - 1} (omega arith))

alloc_from-free :
    (base size start i rounds ip : ℕ) (used : Assoc Key)
    → 3 ≤ size
    → alloc_from base size start i rounds used ≡ some ip
    → (lookup ip used ≡ none) × IsPoolHost base size ip
unfolding alloc_from
alloc_from-free base size start i zero ip used big h = absurd (ground arith)
alloc_from-free base size start i (suc rounds) ip used big h =
    elim (Option-cases (lookup (pool_host base size start i) used)) [
      | inl free ↦
          let e : pool_host base size start i ≡ ip = ground (arith, h, free) in
          (rw (← e) free, rw (← e) (pool_host-IsPoolHost base size start i big))
      | inr (k, taken) ↦
          alloc_from-free base size start (i + 1) rounds ip used big (ground (arith, h, taken))
    ]

alloc_from-reaches :
    (base size start i rounds n : ℕ) (used : Assoc Key)
    → i ≤ n
    → n < i + rounds
    → lookup (pool_host base size start n) used ≡ none
    → (ip : ℕ) × (alloc_from base size start i rounds used ≡ some ip)
unfolding alloc_from
alloc_from-reaches base size start i zero n used low high free = absurd (omega arith)
alloc_from-reaches base size start i (suc rounds) n used low high free =
    elim (Option-cases (lookup (pool_host base size start i) used)) [
      | inl here ↦ (pool_host base size start i, rw here refl)
      | inr (k, taken) ↦
          let later : i < n = ground (arith, taken, free, low) in
          rw taken (
            alloc_from-reaches base size start (i + 1) rounds n used (omega arith) (omega arith)
              free)
    ]

-- The round in which the loop comes to a host.
round_of : (start width j : ℕ) → ℕ
round_of start width j = if ltb j start then j + width - start else j - start

round_of_lem :
    (start width j : ℕ)
    → start < width
    → j < width
    → ((start + round_of start width j) % width ≡ j) × (round_of start width j < width)
unfolding round_of
round_of_lem start width j s h = elim (Bool-cases (ltb j start)) [
  | inl before ↦ (grind (arith, before), ground (arith, before))
  | inr after ↦ (grind (arith, after, mod-eq_of_lt h), ground (arith, after))
]

pub alloc_locked_free :
    (draw ip : ℕ) (s : ExitServer)
    → 3 ≤ s.pool_size
    → alloc_locked draw s ≡ some ip
    → (lookup ip s.by_pool ≡ none) × IsPoolHost s.pool_base s.pool_size ip
unfolding alloc_locked
alloc_locked_free draw ip s big h =
    alloc_from-free s.pool_base s.pool_size (draw % (s.pool_size - 1)) 0 (s.pool_size - 1) ip
      s.by_pool big (ground (arith, h, big))

alloc_locked_total :
    (draw host : ℕ) (s : ExitServer)
    → 3 ≤ s.pool_size
    → IsPoolHost s.pool_base s.pool_size host
    → lookup host s.by_pool ≡ none
    → (ip : ℕ) × (alloc_locked draw s ≡ some ip)
unfolding alloc_locked pool_host
alloc_locked_total draw host s big (low, high) free =
    let width : ℕ = s.pool_size - 1 in
    let start : ℕ = draw % width in
    let j : ℕ = host - (s.pool_base + 2) in
    let (there, soon) =
      round_of_lem start width j (mod-lt draw {m = width} (omega arith)) (omega arith) in
    let at : pool_host s.pool_base s.pool_size start (round_of start width j) ≡ host =
      omega (arith, there) in
    let (ip, found) =
      alloc_from-reaches s.pool_base s.pool_size start 0 width (round_of start width j) s.by_pool
        (omega arith) (omega (arith, soon)) (rw at free) in
    (ip, ground (arith, found, big))

-- Whatever the random draw, the address that is handed out is free and a host of the pool; none is
-- handed out only when every host of the pool is taken. The pool has three addresses at least.
pub alloc_locked_lem :
    (draw : ℕ) (s : ExitServer)
    → 3 ≤ s.pool_size
    → ((ip : ℕ) × (alloc_locked draw s ≡ some ip)
        × (lookup ip s.by_pool ≡ none)
        × IsPoolHost s.pool_base s.pool_size ip)
      ⊎ ((alloc_locked draw s ≡ none)
          × ((host : ℕ)
              → IsPoolHost s.pool_base s.pool_size host
              → (sid : Key) × (lookup host s.by_pool ≡ some sid)))
alloc_locked_lem draw s big = elim (Option-cases (alloc_locked draw s)) [
  | inr (ip, e) ↦
      let (free, within) = alloc_locked_free draw ip s big e in inl (ip, e, free, within)
  | inl e ↦ inr (
    e,
    λ host within. elim (Option-cases (lookup host s.by_pool)) [
      | inr taken ↦ taken
      | inl free ↦
          let (ip, found) = alloc_locked_total draw host s big within free in
          absurd (none-ne-some _ (sym e ∙ found))
    ],
  )
]
