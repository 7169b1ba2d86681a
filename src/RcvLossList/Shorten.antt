-- ===== src/RcvLossList/Shorten.antt =====
-- CRcvLossList::remove (src/list.cpp) for the first number of the list, in a run of more numbers.
use udt_server.Base.{
  ℕ, ◌+◌, ◌-◌, ◌%◌, ◌<◌, ◌≡◌, ◌≢◌, refl, sym, ◌∙◌, ap, subst, Bool, true, false, Option, none, some,
  List, [], ◌∷◌, set, length, arith, ==_iff, ne→==, get_or-set_here, Option-cases, inl, inr,
}
use udt_server.Base.Int.{pos, pos_part, ◌≤ℤ◌}
use udt_server.SeqNo.{IsSeqNo, seq_no_th, seqoff, incseq}
use udt_server.LossList.{Slots, read}
use udt_server.LossList.Chain.{Run, Links, IsSegment, read_inside, some≢none}
use udt_server.LossList.Shift.{shifted, IsSegment-shifted, rest-set_end}
use udt_server.RcvLossList.{RcvLossList, remove, remove_at, shift_start, is_node}
use udt_server.RcvLossList.Contents.{links}
use udt_server.RcvLossList.First.{seqoff_self}
use native.Mathlib.Nat.{mod-eq_of_lt, mod-lt}

abbrev pub is_nil : List Run → Bool
is_nil [] = true
is_nil (r ∷ rs) = false

-- The list with the arrays `l` and some back links, whose first node is `n`.
abbrev pub moved : RcvLossList → Links → Slots → ℕ → Option ℕ → RcvLossList
moved s l prior n tail = record {
  data1 = l.data1;
  data2 = l.data2;
  next = l.next;
  prior = prior;
  head = some n;
  tail = tail;
  length = s.length - 1;
  size = s.size;
}

shift_head :
    (s : RcvLossList) (h f e : ℕ) (rs : List Run)
    → IsSegment (links s) (some h) ((f, e) ∷ rs) none
    → is_node s.tail h ≡ is_nil rs
    → IsSeqNo f
    → IsSeqNo e
    → pos 0 ≤ℤ seqoff f e
    → pos_part (seqoff f e) < seq_no_th
    → e ≢ f
    → (h + 1) % s.size < length s.next
    → (prior : Slots) × (tail : Option ℕ) × (shift_start s h f h e
        ≡ some (moved s (shifted (links s) h ((h + 1) % s.size) f e) prior ((h + 1) % s.size) tail))
unfolding shift_start
shift_head s h f e [] whole last hf he order near apart inside =
    let n = (h + 1) % s.size in
    (
      set s.prior n (read s.prior h),
      some n,
      rw (shift_start, (==_iff h h).1 refl, last, rest-set_end s.data2 f n e hf he order near apart)
          (rw ((==_iff h h).1 refl, last) refl),
    )
shift_head s h f e (r ∷ rs) whole last hf he order near apart inside =
    let n = (h + 1) % s.size in
    elim (Option-cases (read s.next h)) [
      | inl k ↦ absurd (subst (λ p. IsSegment (links s) p (r ∷ rs) none) k (whole.1))
      | inr (m, k) ↦
          let link : read (set s.next n (read s.next h)) n ≡ some m =
            get_or-set_here s.next n (read s.next h) none inside ∙ k in
          (
            set (set s.prior n (read s.prior h)) m (some n),
            s.tail,
            rw
                (
                  shift_start,
                  (==_iff h h).1 refl,
                  last,
                  link,
                  rest-set_end s.data2 f n e hf he order near apart,
                )
                (rw ((==_iff h h).1 refl, last) refl),
          )
    ]

-- Removing the first number of a list, where its run goes on, succeeds: the run loses the number
-- and the other runs stay as they are, if the place behind the head is free; the length goes down
-- by one. The tail is the head exactly where the list is one run.
pub remove_shortens :
    (s : RcvLossList) (h f e : ℕ) (rs : List Run)
    → s.head ≡ some h
    → IsSegment (links s) s.head ((f, e) ∷ rs) none
    → 0 < s.length
    → is_node s.tail h ≡ is_nil rs
    → IsSeqNo f
    → IsSeqNo e
    → pos 0 ≤ℤ seqoff f e
    → pos_part (seqoff f e) < seq_no_th
    → e ≢ f
    → length s.data1 ≡ s.size
    → length s.data2 ≡ s.size
    → length s.next ≡ s.size
    → read s.data1 ((h + 1) % s.size) ≡ none
    → read s.data2 ((h + 1) % s.size) ≡ none
    → (s' : RcvLossList) × (remove s f ≡ some (s', true))
      × IsSegment (links s') s'.head ((incseq f, e) ∷ rs) none
      × (s'.length + 1 ≡ s.length)
unfolding remove remove_at
remove_shortens s h f e rs head whole counted tail hf he order near apart z₁ z₂ z₃ free₁ free₂ =
    let here = subst (λ p. IsSegment (links s) p ((f, e) ∷ rs) none) head whole in
    let holds = here.0 in
    let last : read s.data2 h ≡ some e = holds.last ∙ rw (ne→== e f apart) refl in
    let n = (h + 1) % s.size in
    let in_array = read_inside s.data1 h f (holds.first) in
    let inside : (h + 0) % s.size ≡ h =
      mod-eq_of_lt {n = h + 0} {m = s.size} (omega arith) ∙ omega arith in
    let below : n < s.size = mod-lt (h + 1) (omega arith) in
    let n_apart : n ≢ h = λ k. some≢none (holds.first) (ap (read s.data1) (sym k) ∙ free₁) in
    let (prior, back, done) =
      shift_head s h f e rs here tail hf he order near apart (omega arith) in
    (
      moved s (shifted (links s) h n f e) prior n back,
      simp (
        remove,
        remove_at,
        ne→== s.length 0 (omega arith),
        head,
        holds.first,
        seqoff_self f,
        inside,
        (==_iff f f).1 refl,
        last,
        done,
      ),
      IsSegment-shifted (links s) h n f e n_apart (omega arith) (omega arith) (omega arith) free₁
          free₂ rs here,
      omega arith,
    )
