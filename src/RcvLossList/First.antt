-- ===== src/RcvLossList/First.antt =====
-- CRcvLossList::remove (src/list.cpp) for the first number of the list, when it has a node alone.
use udt_server.Base.{
  ℕ, ◌+◌, ◌-◌, ◌%◌, ◌<◌, ◌≡◌, refl, ◌∙◌, subst, true, none, some, List, ◌∷◌, set, length, arith,
  ==_iff, ne→==, get_or-set_other,
}
use udt_server.Base.Int.{pos}
use udt_server.SeqNo.{seqoff}
use udt_server.LossList.{read}
use udt_server.LossList.Chain.{Run, IsSegment, IsSegment-kept_behind, read_inside}
use udt_server.RcvLossList.{RcvLossList, remove, remove_at, unlink}
use udt_server.RcvLossList.Contents.{links}
use native.Mathlib.Nat.{mod-eq_of_lt}

pub seqoff_self : (f : ℕ) → seqoff f f ≡ pos 0
unfolding seqoff
seqoff_self f = ground arith

-- The arrays after the head's node has left.
abbrev pub unlinked : RcvLossList → ℕ → RcvLossList
unlinked s h = record s {
  data1 = set s.data1 h none;
  prior = elim (read s.next h) [ none ↦ s.prior | some m ↦ set s.prior m none ];
  head = read s.next h;
  length = s.length - 1;
}

unlink_head : (s : RcvLossList) (h : ℕ) → unlink s h h ≡ some (unlinked s h)
unfolding unlink
unlink_head s h = rw ((==_iff h h).1 refl) refl

remove_at_head :
    (s : RcvLossList) (h f : ℕ)
    → read s.data1 h ≡ some f
    → read s.data2 h ≡ none
    → remove_at s h f h ≡ some (unlinked s h, true)
unfolding remove_at
remove_at_head s h f e₁ e₂ = simp (remove_at, e₁, e₂, (==_iff f f).1 refl, unlink_head s h)

-- Removing the first number of a list, where its run has no other number, succeeds and leaves the
-- other runs as they are; the length goes down by one.
pub remove_first :
    (s : RcvLossList) (h f : ℕ) (rs : List Run)
    → s.head ≡ some h
    → IsSegment (links s) s.head ((f, f) ∷ rs) none
    → 0 < s.length
    → length s.data1 ≡ s.size
    → (s' : RcvLossList) × (remove s f ≡ some (s', true))
      × IsSegment (links s') s'.head rs none
      × (s'.length + 1 ≡ s.length)
unfolding remove
remove_first s h f rs head whole counted sized =
    let (holds, more) = subst (λ p. IsSegment (links s) p ((f, f) ∷ rs) none) head whole in
    let last : read s.data2 h ≡ none = holds.last ∙ rw ((==_iff f f).1 refl) refl in
    let inside : (h + 0) % s.size ≡ h =
      mod-eq_of_lt {n = h + 0} {m = s.size} (omega (arith, read_inside s.data1 h f (holds.first)))
      ∙ omega arith in
    (
      unlinked s h,
      simp (
        remove,
        ne→== s.length 0 (omega arith),
        head,
        holds.first,
        seqoff_self f,
        inside,
        remove_at_head s h f (holds.first) last,
      ),
      IsSegment-kept_behind (links s) (links (unlinked s h)) h ((f, f) ∷ rs) (read s.next h) rs
          (holds, more) (omega arith)
          (λ i apart busy. (get_or-set_other s.data1 h i none none apart, refl, refl)) more,
      omega arith,
    )
