-- ===== src/RcvLossList/Insert.antt =====
-- CRcvLossList::insert (src/list.cpp) on the list of runs.
use udt_server.Base.{
  ℕ, ◌+◌, ◌^◌, ◌<◌, ◌≤◌, ◌≡◌, ◌≢◌, refl, sym, ◌∙◌, ap, ◌==◌, if◌then◌else◌, none, some, List, [],
  ◌∷◌, ◌++◌, set, arith, inl, inr, Bool-cases, true, false, ==_iff, ne→==, length-set,
  get_or-set_here, get_or-set_other,
}
use native.Mathlib.Decide.{ℕ_discrete}
use udt_server.Base.Int.{pos_part}
use udt_server.SeqNo.{IsSeqNo, seqlen, seqoff, incseq}
use udt_server.LossList.{read, slot_at, set_end}
use udt_server.LossList.Chain.{
  some≢none, length-set_end, set_end-here, set_end-other, Run, end_of, IsSegment-kept,
  IsSegment-append,
}
use udt_server.RcvLossList.{RcvLossList, insert, insert_rest, insert_node, insert_first, follows}
use udt_server.RcvLossList.Contents.{links, run_length, total-append, IsList, IsEmpty}

-- Where the runs are once (a, b) has come behind them: a run that goes on from the last is one
-- with it.
abbrev pub front_after : List Run → Run → Run → List Run
front_after front back r = if follows (end_of back) (r.0) then front else front ++ back ∷ []

abbrev pub back_after : Run → Run → Run
back_after back r = if follows (end_of back) (r.0) then (back.0, r.1) else r

-- Two runs that meet are one, with the sum of their lengths.
joined_length :
    (f e b : ℕ)
    → IsSeqNo f
    → IsSeqNo e
    → IsSeqNo b
    → 0 < run_length (f, e)
    → 0 < run_length (incseq e, b)
    → run_length (f, e) + run_length (incseq e, b) < 2 ^ 31
    → (run_length (f, b) ≡ run_length (f, e) + run_length (incseq e, b)) × (b ≢ f)
unfolding seqlen incseq
joined_length f e b hf he hb h k fits = ground arith

end_of_ne : (a b : ℕ) → b ≢ a → end_of (a, b) ≡ some b
end_of_ne a b h = rw (ne→== b a h) refl

-- A new node.
node_added :
    (s : RcvLossList) (front : List Run) (back : Run) (a b loc : ℕ)
    → (v : IsList s front back) → loc < s.size
    → read s.data1 loc ≡ none
    → IsList (insert_node s a b (v.t) loc) (front ++ back ∷ []) (a, b)
node_added s front back a b loc v hl free =
    let apart_t : v.t ≢ loc = λ k. some≢none (v.at_tail.first) (ap (read s.data1) k ∙ free) in
    let data1_kept : (i : ℕ) → i ≢ loc → read (set s.data1 loc (some a)) i ≡ read s.data1 i =
      λ i. get_or-set_other s.data1 loc i (some a) none in
    let data2_kept : (i : ℕ) → i ≢ loc → read (set_end s.data2 loc a b) i ≡ read s.data2 i =
      set_end-other s.data2 loc a b in
    let next_kept : (i : ℕ)
        → i ≢ loc
        → read (set (set s.next v.t (some loc)) loc none) i ≡ read (set s.next v.t (some loc)) i =
      λ i. get_or-set_other (set s.next v.t (some loc)) loc i none none in
    let kept =
      IsSegment-kept (links s) (links (insert_node s a b v.t loc)) s.head front (v.t) (v.ends)
        (λ i apart busy.
          let new : i ≢ loc = λ k. busy (ap (read s.data1) k ∙ free) in
          (
            data1_kept i new,
            data2_kept i new,
            next_kept i new ∙ get_or-set_other s.next v.t i (some loc) none apart,
          ))
        (v.to_tail) in
    record {
      t = loc;
      tail_eq = refl;
      tail_in = hl;
      to_tail =
          IsSegment-append (links (insert_node s a b v.t loc)) s.head front (v.t) back (some loc)
            kept
            (record {
              first = data1_kept v.t apart_t ∙ v.at_tail.first;
              last = data2_kept v.t apart_t ∙ v.at_tail.last;
            })
            (next_kept v.t apart_t
              ∙ get_or-set_here s.next v.t (some loc) none (omega (arith, v.sized, v.tail_in)));
      at_tail = record {
        first = get_or-set_here s.data1 loc (some a) none (omega (arith, v.sized₁));
        last = set_end-here s.data2 loc a b (omega (arith, v.sized₂)) (v.clean loc free);
      };
      ends =
          get_or-set_here (set s.next v.t (some loc)) loc none none
            (omega (arith, v.sized, length-set s.next v.t (some loc)));
      clean = λ i e. elim (ℕ_discrete i loc) [
        | yes k ↦ absurd (
            some≢none (get_or-set_here s.data1 loc (some a) none (omega (arith, v.sized₁)))
              (ap (read (set s.data1 loc (some a))) (sym k) ∙ e))
        | no k ↦ data2_kept i k ∙ v.clean i (sym (data1_kept i k) ∙ e)
      ];
      sized₁ = length-set s.data1 loc (some a) ∙ v.sized₁;
      sized₂ = length-set_end s.data2 loc a b ∙ v.sized₂;
      sized =
          length-set (set s.next v.t (some loc)) loc none
          ∙ length-set s.next v.t (some loc)
          ∙ v.sized;
      counted = omega (arith, v.counted, total-append (front ++ back ∷ []) (a, b));
    }

-- The last run grows.
run_grown :
    (s : RcvLossList) (front : List Run) (back : Run) (a b : ℕ)
    → (v : IsList s front back) → run_length (back.0, b) ≡ run_length back + run_length (a, b)
    → b ≢ back.0
    → IsList
        (record s { data2 = set s.data2 v.t (some b); length = s.length + pos_part (seqlen a b) })
        front
        (back.0, b)
run_grown s front back a b v e ne = record {
  t = v.t;
  tail_eq = v.tail_eq;
  tail_in = v.tail_in;
  to_tail =
      IsSegment-kept (links s) _ s.head front (v.t) (v.ends)
        (λ i apart busy. (refl, get_or-set_other s.data2 (v.t) i (some b) none apart, refl))
        (v.to_tail);
  at_tail = record {
    first = v.at_tail.first;
    last =
        get_or-set_here s.data2 (v.t) (some b) none (omega (arith, v.sized₂, v.tail_in))
        ∙ sym (end_of_ne (back.0) b ne);
  };
  ends = v.ends;
  clean = λ i free.
      get_or-set_other s.data2 v.t i (some b) none
        (λ k. some≢none (v.at_tail.first) (ap (read s.data1) (sym k) ∙ free))
      ∙ v.clean i free;
  sized₁ = v.sized₁;
  sized₂ = length-set s.data2 (v.t) (some b) ∙ v.sized₂;
  sized = v.sized;
  counted = omega (arith, v.counted, e, total-append front back, total-append front (back.0, b));
}

follows_next : (f e a : ℕ) → follows (end_of (f, e)) a ≡ true → incseq e ≡ a
follows_next f e a h = elim (Bool-cases (e == f)) [
  | inl k ↦ let never = sym h ∙ ap (λ t. follows (if t then none else some e) a) k in cc
  | inr k ↦ (==_iff (incseq e) a).0 (sym (ap (λ t. follows (if t then none else some e) a) k) ∙ h)
]

rest_counted :
    (s : RcvLossList) (front : List Run) (back : Run)
    → IsList s front back
    → 0 < run_length back
    → ((s.length == 0) ≡ false) × (run_length back ≤ s.length)
rest_counted s front back v some_number =
    let counted = total-append front back in
    (ne→== s.length 0 (omega (arith, v.counted)), omega (arith, v.counted))

insert-rest :
    (s : RcvLossList) (a b h t f : ℕ)
    → (s.length == 0) ≡ false
    → s.head ≡ some h
    → s.tail ≡ some t
    → read s.data1 h ≡ some f
    → insert s a b ≡ insert_rest s a b h t f
unfolding insert
insert-rest s a b h t f e₁ e₂ e₃ e₄ = simp (e₁, e₂, e₃, e₄)

-- A list that is not empty and has a free node at the new run's place takes a run behind its last:
-- the list then holds the old runs and the new one, in order, joined with the last if it goes on
-- from it, and its length grows by the number of the new run's numbers. The list may not hold more
-- numbers than an int counts, and neither run goes round to the number before its first, where
-- their lengths are no ints.
pub insert_behind :
    (s : RcvLossList) (front : List Run) (back : Run) (a b h f loc : ℕ)
    → IsList s front back
    → IsSeqNo (back.0)
    → IsSeqNo (back.1)
    → IsSeqNo a
    → IsSeqNo b
    → 0 < run_length back
    → 0 < run_length (a, b)
    → s.length + run_length (a, b) < 2 ^ 31
    → s.head ≡ some h
    → read s.data1 h ≡ some f
    → slot_at h (seqoff f a) s.size ≡ some loc
    → loc < s.size
    → read s.data1 loc ≡ none
    → (s' : RcvLossList) × (insert s a b ≡ some s')
      × IsList s' (front_after front back (a, b)) (back_after back (a, b))
unfolding insert_rest
insert_behind s front back a b h f loc v hf he ha hb old new fits head first place inside free =
    let filled = rest_counted s front back v old in
    let there = insert-rest s a b h (v.t) f (filled.0) head (v.tail_eq) first in
    elim (Bool-cases (follows (end_of back) a)) [
      | inl e ↦
          let here : incseq (back.1) ≡ a = follows_next (back.0) (back.1) a e in
          let (sum, apart) =
            joined_length (back.0) (back.1) b hf he hb old (rw here new)
              (rw here (omega (arith, filled.1))) in
          (
            record s {
              data2 = set s.data2 v.t (some b);
              length = s.length + pos_part (seqlen a b);
            },
            there ∙ rw (v.at_tail.last, e) refl,
            rw e (
                run_grown s front back a b v
                  (sum ∙ ap (λ n. run_length back + run_length (n, b)) here) apart),
          )
      | inr e ↦ (
        insert_node s a b v.t loc,
        there ∙ rw (v.at_tail.last, e, place) refl,
        rw e (node_added s front back a b loc v inside free),
      )
    ]

-- An empty list takes a run as its only one, in node 0.
pub insert_empty :
    (s : RcvLossList) (a b : ℕ)
    → IsEmpty s
    → (s' : RcvLossList) × (insert s a b ≡ some s') × (s'.head ≡ some 0) × IsList s' [] (a, b)
unfolding insert
insert_empty s a b v = (
  insert_first s a b,
  rw ((==_iff s.length 0).1 (v.no_length)) refl,
  refl,
  record {
    t = 0;
    tail_eq = refl;
    tail_in = v.some_size;
    to_tail = refl;
    at_tail = record {
      first = get_or-set_here s.data1 0 (some a) none (omega (arith, v.sized₁, v.some_size));
      last = set_end-here s.data2 0 a b (omega (arith, v.sized₂, v.some_size)) (v.free₂ 0);
    };
    ends = get_or-set_here s.next 0 none none (omega (arith, v.sized, v.some_size));
    clean = λ i e. elim (ℕ_discrete i 0) [
      | yes k ↦ absurd (
          some≢none (get_or-set_here s.data1 0 (some a) none (omega (arith, v.sized₁, v.some_size)))
            (ap (read (set s.data1 0 (some a))) (sym k) ∙ e))
      | no k ↦ set_end-other s.data2 0 a b i k ∙ v.free₂ i
    ];
    sized₁ = length-set s.data1 0 (some a) ∙ v.sized₁;
    sized₂ = length-set_end s.data2 0 a b ∙ v.sized₂;
    sized = length-set s.next 0 none ∙ v.sized;
    counted = omega (arith, v.no_length);
  },
)
