-- ===== src/Hash/Tests.antt =====
-- Runs of CHash (src/queue.cpp) on a small table, and the theorems about it applied.
use udt_server.Base.{ℕ, ◌≡◌, refl, none, some, [], ◌∷◌, arith}
use udt_server.Hash.{Hash, find_entry, lookup, remove_entry, remove}
use udt_server.Hash.Entries.{IsSized}

-- 1 and 4 share a bucket.
abbrev sample : Hash ℕ
sample = record { bucket = [] ∷ ((4, 40) ∷ (1, 10) ∷ []) ∷ [] ∷ []; hash_size = 3 }

lookup_behind : lookup sample 1 ≡ some 10
unfolding lookup find_entry
lookup_behind = refl

lookup_removed : lookup (remove sample 4) 4 ≡ none
unfolding lookup find_entry remove remove_entry
lookup_removed = refl

lookup_kept : lookup (remove sample 4) 1 ≡ some 10
unfolding lookup find_entry remove remove_entry
lookup_kept = refl

sample-IsSized : IsSized sample
sample-IsSized = record { some_size = omega arith; sized = refl }
