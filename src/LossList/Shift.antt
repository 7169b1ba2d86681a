-- ===== src/LossList/Shift.antt =====
-- A node of src/list.cpp that loses its first number moves on to the next place: what both loss
-- lists do with the first run of more than one number.
use udt_server.Base.{
  ℕ, ◌<◌, ◌≡◌, ◌≢◌, refl, sym, ◌∙◌, ap, subst, none, some, List, ◌∷◌, set, length, arith,
  get_or-set_here, get_or-set_other, if◌then◌else◌, true, false, Bool-cases, inl, inr, ◌==◌,
}
use native.Mathlib.Decide.{ℕ_discrete}
use udt_server.Base.Int.{pos, pos_part, ltb_ℤ, ◌≤ℤ◌}
use udt_server.SeqNo.{IsSeqNo, seq_no_th, seqcmp, seqoff, incseq}
use udt_server.LossList.{Slots, read, set_end}
use udt_server.LossList.Chain.{
  Run, Links, Holds, IsSegment, IsSegment-kept_behind, some≢none, set_end-here, set_end-other,
  length-set_end,
}

-- The arrays after the run from `f` to `e` of the node `h` has lost `f` and stands at `n`.
abbrev pub shifted : Links → ℕ → ℕ → ℕ → ℕ → Links
shifted l h n f e = record {
  data1 = set (set l.data1 n (some (incseq f))) h none;
  data2 = set (set_end l.data2 n (incseq f) e) h none;
  next = set l.next n (read l.next h);
}

module _ (l : Links) (h n f e : ℕ) (n_apart : n ≢ h) (inside₁ : n < length l.data1)
    (inside₂ : n < length l.data2) (inside₃ : n < length l.next) (free₁ : read l.data1 n ≡ none)
    (free₂ : read l.data2 n ≡ none) where
  pub shifted-kept₁ : (i : ℕ) → i ≢ h → i ≢ n → read (shifted l h n f e).data1 i ≡ read l.data1 i
  shifted-kept₁ i k m =
      get_or-set_other (set l.data1 n (some (incseq f))) h i none none k
      ∙ get_or-set_other l.data1 n i (some (incseq f)) none m

  pub shifted-kept₂ : (i : ℕ) → i ≢ h → i ≢ n → read (shifted l h n f e).data2 i ≡ read l.data2 i
  shifted-kept₂ i k m =
      get_or-set_other (set_end l.data2 n (incseq f) e) h i none none k
      ∙ set_end-other l.data2 n (incseq f) e i m

  pub Holds-shifted : Holds (shifted l h n f e) n (incseq f, e)
  Holds-shifted = record {
    first =
        get_or-set_other (set l.data1 n (some (incseq f))) h n none none n_apart
        ∙ get_or-set_here l.data1 n (some (incseq f)) none inside₁;
    last =
        get_or-set_other (set_end l.data2 n (incseq f) e) h n none none n_apart
        ∙ set_end-here l.data2 n (incseq f) e inside₂ free₂;
  }

  -- The list from `n` on is the one from `h` on without its first number.
  pub IsSegment-shifted :
      (rs : List Run)
      → IsSegment l (some h) ((f, e) ∷ rs) none
      → IsSegment (shifted l h n f e) (some n) ((incseq f, e) ∷ rs) none
  IsSegment-shifted rs whole =
      let link : read (shifted l h n f e).next n ≡ read l.next h =
        get_or-set_here l.next n (read l.next h) none inside₃ in
      (
        Holds-shifted,
        subst (λ p. IsSegment (shifted l h n f e) p rs none) (sym link)
            (IsSegment-kept_behind l (shifted l h n f e) h ((f, e) ∷ rs) (read l.next h) rs whole
              (omega arith)
              (λ i k busy.
                let m : i ≢ n = λ j. busy (ap (read l.data1) j ∙ free₁) in
                (
                  shifted-kept₁ i k m,
                  shifted-kept₂ i k m,
                  get_or-set_other l.next n i (read l.next h) none m,
                ))
              (whole.1)),
      )

  pub shifted-clean :
      h < length l.data2
      → ((i : ℕ) → read l.data1 i ≡ none → read l.data2 i ≡ none)
      → (i : ℕ) → read (shifted l h n f e).data1 i ≡ none
      → read (shifted l h n f e).data2 i ≡ none
  shifted-clean in₂ clean i e' = elim (ℕ_discrete i h) [
    | yes k ↦
        ap (read (shifted l h n f e).data2) k
        ∙ get_or-set_here (set_end l.data2 n (incseq f) e) h none none
            (omega (arith, length-set_end l.data2 n (incseq f) e))
    | no k ↦ elim (ℕ_discrete i n) [
      | yes m ↦
          absurd
            (some≢none (Holds-shifted.first) (ap (read (shifted l h n f e).data1) (sym m) ∙ e'))
      | no m ↦ shifted-kept₂ i k m ∙ clean i (sym (shifted-kept₁ i k m) ∙ e')
    ]
  ]

-- The end that the rest of a run gets in the source, and in `set_end`.
rest_end :
    (f e : ℕ)
    → IsSeqNo f
    → IsSeqNo e
    → pos 0 ≤ℤ seqoff f e
    → pos_part (seqoff f e) < seq_no_th
    → e ≢ f
    → ltb_ℤ (pos 0) (seqcmp e (incseq f)) ≡ (if e == incseq f then false else true)
unfolding seqoff seqcmp incseq
rest_end f e hf he order near apart = ground arith

pub rest-set_end :
    (xs : Slots) (f n e : ℕ)
    → IsSeqNo f
    → IsSeqNo e
    → pos 0 ≤ℤ seqoff f e
    → pos_part (seqoff f e) < seq_no_th
    → e ≢ f
    → (if ltb_ℤ (pos 0) (seqcmp e (incseq f)) then set xs n (some e) else xs)
      ≡ set_end xs n (incseq f) e
rest-set_end xs f n e hf he order near apart = elim (Bool-cases (e == incseq f)) [
  | inl k ↦ rw (rest_end f e hf he order near apart, k) refl
  | inr k ↦ rw (rest_end f e hf he order near apart, k) refl
]
