-- ===== src/ExitServer/Counts.antt =====
-- client/pubexit_server.go: the lemmas on how many entries of a table come from one source.
use apgo.Prelude.{ℕ, ◌+◌, ◌-◌, [], ◌∷◌, none, some, ◌==◌, if◌then◌else◌, ◌≡◌, refl, arith}
use apgo.Prelude.Maps.{Key, Assoc, Unique, lookup, insert, without, lookup-insert, lookup-without}
use apgo.ExitServer.{source_count, dec_source}

module _ {V : Type 0} (source : V → Key) where
  -- How many entries come from the source.
  unfoldable pub count_by : Key → Assoc V → ℕ
  count_by src [] = 0
  count_by src ((k, v) ∷ m) = (if source v == src then 1 else 0) + count_by src m

  pub count_by-insert_new :
      (src k : Key) (v : V) (m : Assoc V)
      → lookup k m ≡ none
      → count_by src (insert k v m) ≡ (if source v == src then 1 else 0) + count_by src m
  unfolding count_by insert lookup
  count_by-insert_new src k v [] e = refl
  count_by-insert_new src k v ((j, w) ∷ m) e = ground (arith, count_by-insert_new src k v m)

  pub count_by-insert_same :
      (src k : Key) (v w : V) (m : Assoc V)
      → lookup k m ≡ some w
      → source w ≡ source v
      → count_by src (insert k v m) ≡ count_by src m
  unfolding count_by insert lookup
  count_by-insert_same src k v w [] e same = absurd (ground arith)
  count_by-insert_same src k v w ((j, u) ∷ m) e same =
      ground (arith, count_by-insert_same src k v w m)

  -- Deleting a key that is not there.
  count_by-without_missing :
      (src k : Key) (m : Assoc V) → lookup k m ≡ none → count_by src (without k m) ≡ count_by src m
  unfolding count_by without lookup
  count_by-without_missing src k [] e = refl
  count_by-without_missing src k ((j, u) ∷ m) e = ground (arith, count_by-without_missing src k m)

  pub count_by-without :
      (src k : Key) (w : V) (m : Assoc V)
      → Unique m
      → lookup k m ≡ some w
      → (if source w == src then 1 else 0) + count_by src (without k m) ≡ count_by src m
  unfolding count_by without lookup
  count_by-without src k w [] u e = absurd (ground arith)
  count_by-without src k w ((j, v) ∷ m) u e =
      ground (arith, count_by-without src k w m u.1, count_by-without_missing src k m, u.0)

pub source_count-insert :
    (src other n : ℕ) (m : Assoc ℕ)
    → source_count src (insert other n m) ≡ (if other == src then n else source_count src m)
source_count-insert src other n m = ground (arith, lookup-insert other src n m)

pub source_count-dec_source :
    (src other : Key) (m : Assoc ℕ)
    → source_count src (dec_source other m)
      ≡ (if other == src then source_count src m - 1 else source_count src m)
unfolding dec_source
source_count-dec_source src other m =
    ground (arith, lookup-without other src m, lookup-insert other src (source_count other m - 1) m)
