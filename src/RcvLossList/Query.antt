-- ===== src/RcvLossList/Query.antt =====
-- CRcvLossList::find, getFirstLostSeq and getLossArray (src/list.cpp), and what they say of the list.
use udt_server.Base.{
  ℕ, zero, suc, ◌+◌, Bool, true, false, ◌&&◌, ◌||◌, Option, none, some, List, [], ◌∷◌, ◌++◌, ltb,
  ◌==◌, if◌then◌else◌,
}
use udt_server.Base.Int.{pos, ltb_ℤ, leb_ℤ, eqb_ℤ}
use udt_server.SeqNo.{seqcmp}
use udt_server.LossList.{read}
use udt_server.RcvLossList.{RcvLossList}
use Prim.Native.Nat.{bit_or}

-- The test of the loop of `find` at a node with the run from `f` to `e`.
abbrev pub meets : ℕ → Option ℕ → ℕ → ℕ → Bool
meets f none a b =
    eqb_ℤ (seqcmp f a) (pos 0) || (ltb_ℤ (pos 0) (seqcmp f a) && leb_ℤ (seqcmp f b) (pos 0))
meets f (some e) a b =
    eqb_ℤ (seqcmp f a) (pos 0)
    || (ltb_ℤ (pos 0) (seqcmp f a) && leb_ℤ (seqcmp f b) (pos 0))
    || (ltb_ℤ (seqcmp f a) (pos 0) && leb_ℤ (pos 0) (seqcmp e a))

-- The list has at most `size` nodes, which bounds the rounds.
unfoldable pub find_loop : ℕ → RcvLossList → Option ℕ → ℕ → ℕ → Option Bool
find_loop fuel s none a b = some false
find_loop zero s (some p) a b = none
find_loop (suc fuel) s (some p) a b =
    let rest = find_loop fuel s (read s.next p) a b in
    elim (read s.data1 p) [
      | none ↦ none
      | some f ↦ if meets f (read s.data2 p) a b then some true else rest
    ]

unfoldable pub find : RcvLossList → ℕ → ℕ → Option Bool
find s a b = if s.length == 0 then some false else find_loop s.size s s.head a b

-- -1 for an empty list, as `none`.
unfoldable pub get_first_lost_seq : RcvLossList → Option ℕ
get_first_lost_seq s =
    if s.length == 0 then none else elim s.head [ none ↦ none | some h ↦ read s.data1 h ]

-- The words that a node adds to the array.
abbrev pub report : ℕ → Option ℕ → List ℕ
report f none = f ∷ []
report f (some e) = bit_or f 0x8000_0000 ∷ e ∷ []

abbrev pub report_size : Option ℕ → ℕ
report_size none = 1
report_size (some e) = 2

-- The loop of getLossArray, with `len` words written so far: the words it adds.
unfoldable pub loss_loop : ℕ → RcvLossList → Option ℕ → ℕ → ℕ → Option (List ℕ)
loss_loop fuel s none len limit = some []
loss_loop zero s (some p) len limit = none
loss_loop (suc fuel) s (some p) len limit =
    let rest = loss_loop fuel s (read s.next p) (len + report_size (read s.data2 p)) limit in
    if ltb (len + 1) limit
    then elim (read s.data1 p) [
      | none ↦ none
      | some f ↦ elim rest [ none ↦ none | some ws ↦ some (report f (read s.data2 p) ++ ws) ]
    ]
    else some []

unfoldable pub get_loss_array : RcvLossList → ℕ → Option (List ℕ)
get_loss_array s limit = loss_loop s.size s s.head 0 limit
