-- ===== src/SndLossList/First.antt =====
-- CSndLossList::getLostSeq (src/list.cpp) on the list of runs.
use udt_server.Base.{
  ℕ, ◌+◌, ◌-◌, ◌%◌, ◌<◌, ◌≡◌, ◌≢◌, refl, sym, ◌∙◌, ap, subst, false, none, some, List, ◌∷◌, ◌==◌,
  if◌then◌else◌, set, length, arith, inl, inr, Bool-cases, Option-cases, ==_iff, ne→==, length-set,
  get_or-set_other,
}
use udt_server.Base.Int.{pos, pos_part, ◌≤ℤ◌}
use udt_server.SeqNo.{IsSeqNo, seq_no_th, seqoff, incseq}
use udt_server.LossList.{read, set_end}
use udt_server.LossList.Chain.{
  Run, Links, IsSegment, IsSegment-kept_behind, some≢none, read_inside, length-set_end,
}
use udt_server.LossList.Shift.{IsSegment-shifted, shifted-clean, rest-set_end}
use udt_server.SndLossList.{SndLossList}
use udt_server.SndLossList.Remove.{forget, take_first, get_lost_seq}
use native.Mathlib.Decide.{ℕ_discrete}
use native.Mathlib.Nat.{mod-lt}

abbrev pub links : SndLossList → Links
links s = record { data1 = s.data1; data2 = s.data2; next = s.next }

-- The list holds the runs, and a node without a number has no end either.
pub record IsList (s : SndLossList) (runs : List Run) : Type 0 where
  pub whole : IsSegment (links s) s.head runs none
  pub clean : (i : ℕ) → read s.data1 i ≡ none → read s.data2 i ≡ none
  pub some_size : 0 < s.size
  pub sized₁ : length s.data1 ≡ s.size
  pub sized₂ : length s.data2 ≡ s.size
  pub sized : length s.next ≡ s.size

-- The runs without their first number.
abbrev pub advance : Run → List Run → List Run
advance (f, e) rs = if e == f then rs else (incseq f, e) ∷ rs

-- A list that starts with a run of one number moves on to the next node.
single :
    (s : SndLossList) (h f : ℕ) (rs : List Run)
    → s.head ≡ some h
    → IsList s ((f, f) ∷ rs)
    → IsList (take_first s h f) rs
unfolding take_first
single s h f rs head v =
    let (holds, more) = subst (λ p. IsSegment (links s) p ((f, f) ∷ rs) none) head (v.whole) in
    let last : read s.data2 h ≡ none = holds.last ∙ rw ((==_iff f f).1 refl) refl in
    let kept : (i : ℕ) → i ≢ h → read (set s.data1 h none) i ≡ read s.data1 i =
      λ i. get_or-set_other s.data1 h i none none in
    rw (take_first, last)
      (record {
        whole =
            IsSegment-kept_behind (links s)
              (record { data1 = set s.data1 h none; data2 = s.data2; next = s.next }) h
              ((f, f) ∷ rs) (read s.next h) rs (holds, more) (omega arith)
              (λ i apart busy. (kept i apart, refl, refl)) more;
        clean = λ i e. elim (ℕ_discrete i h) [
          | yes k ↦ ap (read s.data2) k ∙ last
          | no k ↦ v.clean i (sym (kept i k) ∙ e)
        ];
        some_size = v.some_size;
        sized₁ = length-set s.data1 h none ∙ v.sized₁;
        sized₂ = v.sized₂;
        sized = v.sized;
      })

-- A longer run leaves its rest in the next place.
longer :
    (s : SndLossList) (h f e : ℕ) (rs : List Run)
    → s.head ≡ some h
    → IsList s ((f, e) ∷ rs)
    → IsSeqNo f
    → IsSeqNo e
    → pos 0 ≤ℤ seqoff f e
    → pos_part (seqoff f e) < seq_no_th
    → e ≢ f
    → read s.data1 ((h + 1) % s.size) ≡ none
    → IsList (take_first s h f) ((incseq f, e) ∷ rs)
unfolding take_first
longer s h f e rs head v hf he order near apart free =
    let whole = subst (λ p. IsSegment (links s) p ((f, e) ∷ rs) none) head (v.whole) in
    let holds = whole.0 in
    let last : read s.data2 h ≡ some e = holds.last ∙ rw (ne→== e f apart) refl in
    let n = (h + 1) % s.size in
    let n_apart : n ≢ h = λ k. some≢none (holds.first) (ap (read s.data1) (sym k) ∙ free) in
    let inside : n < s.size = mod-lt (h + 1) v.some_size in
    let inside₁ : n < length s.data1 = omega (arith, v.sized₁) in
    let inside₂ : n < length s.data2 = omega (arith, v.sized₂) in
    let inside₃ : n < length s.next = omega (arith, v.sized) in
    let free₂ = v.clean n free in
    let data2 = set_end s.data2 n (incseq f) e in
    rw (take_first, last)
      (subst
        (λ d.
          IsList
            (record {
              data1 = set (set s.data1 n (some (incseq f))) h none;
              data2 = set d h none;
              next = set s.next n (read s.next h);
              head = some n;
              length = s.length - 1;
              size = s.size;
              last_insert_pos = forget s.last_insert_pos h;
            })
            ((incseq f, e) ∷ rs))
        (sym (rest-set_end s.data2 f n e hf he order near apart))
        (record {
          whole =
              IsSegment-shifted (links s) h n f e n_apart inside₁ inside₂ inside₃ free free₂ rs
                whole;
          clean =
              shifted-clean (links s) h n f e n_apart inside₁ inside₂ inside₃ free free₂
                (omega (arith, v.sized₁, v.sized₂, read_inside s.data1 h f (holds.first)))
                (v.clean);
          some_size = v.some_size;
          sized₁ =
              length-set (set s.data1 n (some (incseq f))) h none
              ∙ length-set s.data1 n (some (incseq f))
              ∙ v.sized₁;
          sized₂ = length-set data2 h none ∙ length-set_end s.data2 n (incseq f) e ∙ v.sized₂;
          sized = length-set s.next n (read s.next h) ∙ v.sized;
        }))

length-take_first : (s : SndLossList) (h f : ℕ) → (take_first s h f).length ≡ s.length - 1
unfolding take_first
length-take_first s h f = elim (Option-cases (read s.data2 h)) [
  | inl k ↦ rw (take_first, k) refl
  | inr (e, k) ↦ rw (take_first, k) refl
]

differ : (e f : ℕ) → (e == f) ≡ false → e ≢ f
differ e f h = ground arith

-- A call of getLostSeq on a list with runs returns the first number and leaves the list without
-- it: the next run, or the rest of the first one, in the place behind the head, which has to be
-- free where there is a rest. The length goes down by one.
pub get_lost_seq_lem :
    (s : SndLossList) (h f e : ℕ) (rs : List Run)
    → s.head ≡ some h
    → IsList s ((f, e) ∷ rs)
    → 0 < s.length
    → IsSeqNo f
    → IsSeqNo e
    → pos 0 ≤ℤ seqoff f e
    → pos_part (seqoff f e) < seq_no_th
    → (e ≢ f → read s.data1 ((h + 1) % s.size) ≡ none)
    → (s' : SndLossList) × (get_lost_seq s ≡ some (s', some f))
      × IsList s' (advance (f, e) rs)
      × (s'.length + 1 ≡ s.length)
unfolding get_lost_seq
get_lost_seq_lem s h f e rs head v counted hf he order near free =
    let first = (subst (λ p. IsSegment (links s) p ((f, e) ∷ rs) none) head (v.whole)).0.first in
    (
      take_first s h f,
      simp (get_lost_seq, ne→== s.length 0 (omega arith), head, first),
      elim (Bool-cases (e == f)) [
        | inl k ↦
            let same : e ≡ f = (==_iff e f).0 k in
            rw k (single s h f rs head (subst (λ x. IsList s ((f, x) ∷ rs)) same v))
        | inr k ↦
            let apart : e ≢ f = λ m. differ e f k m in
            rw k (longer s h f e rs head v hf he order near apart (free apart))
      ],
      omega (arith, length-take_first s h f),
    )
