-- ===== src/RcvLossList/Contents.antt =====
-- The states of CRcvLossList (src/list.cpp) that hold a list of runs.
use udt_server.Base.{
  ℕ, ◌+◌, ◌<◌, ◌≡◌, refl, none, some, List, [], ◌∷◌, ◌++◌, length, arith, length-replicate,
  replicate, zero, suc,
}
use udt_server.Base.Int.{pos_part}
use udt_server.SeqNo.{seqlen}
use udt_server.LossList.{Slots, read}
use udt_server.LossList.Chain.{Run, Links, Holds, IsSegment}
use udt_server.RcvLossList.{RcvLossList, create}

abbrev pub links : RcvLossList → Links
links s = record { data1 = s.data1; data2 = s.data2; next = s.next }

abbrev pub run_length : Run → ℕ
run_length (a, b) = pos_part (seqlen a b)

abbrev pub total : List Run → ℕ
total [] = 0
total (r ∷ rs) = run_length r + total rs

-- The state of a list that is not empty: the nodes from the head to the tail hold `front`, then the
-- tail holds `back`; a free node has no end either, and the length counts the numbers.
pub record IsList (s : RcvLossList) (front : List Run) (back : Run) : Type 0 where
  pub t : ℕ
  pub tail_eq : s.tail ≡ some t
  pub tail_in : t < s.size
  pub to_tail : IsSegment (links s) s.head front (some t)
  pub at_tail : Holds (links s) t back
  pub ends : read s.next t ≡ none
  pub clean : (i : ℕ) → read s.data1 i ≡ none → read s.data2 i ≡ none
  pub sized₁ : length s.data1 ≡ s.size
  pub sized₂ : length s.data2 ≡ s.size
  pub sized : length s.next ≡ s.size
  pub counted : s.length ≡ total (front ++ back ∷ [])

pub total-append : (rs : List Run) (r : Run) → total (rs ++ r ∷ []) ≡ total rs + run_length r
total-append [] r = omega arith
total-append (x ∷ rs) r = omega (arith, total-append rs r)

-- A list without numbers.
pub record IsEmpty (s : RcvLossList) : Type 0 where
  pub no_length : s.length ≡ 0
  pub some_size : 0 < s.size
  pub free₁ : (i : ℕ) → read s.data1 i ≡ none
  pub free₂ : (i : ℕ) → read s.data2 i ≡ none
  pub sized₁ : length s.data1 ≡ s.size
  pub sized₂ : length s.data2 ≡ s.size
  pub sized : length s.next ≡ s.size

replicate_free : (n i : ℕ) → read (replicate n none) i ≡ none
replicate_free zero i = refl
replicate_free (suc n) zero = refl
replicate_free (suc n) (suc i) = replicate_free n i

-- The constructor makes an empty list.
pub create-IsEmpty :
    (size : ℕ) (next prior : Slots)
    → 0 < size
    → length next ≡ size
    → IsEmpty (create size next prior)
unfolding create
create-IsEmpty size next prior h e = record {
  no_length = refl;
  some_size = h;
  free₁ = replicate_free size;
  free₂ = replicate_free size;
  sized₁ = length-replicate size none;
  sized₂ = length-replicate size none;
  sized = e;
}
