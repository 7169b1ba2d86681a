-- ===== src/SndLossList/Start.antt =====
-- CSndLossList::insert (src/list.cpp): the first run of an empty list.
use udt_server.Base.{
  ℕ, ◌+◌, ◌<◌, ==_iff, ◌≡◌, refl, sym, ap, ◌∙◌, none, some, [], ◌∷◌, length, set, arith, length-set,
  get_or-set_here,
}
use udt_server.Base.Int.{pos, pos_part}
use udt_server.SeqNo.{seqlen}
use udt_server.LossList.{read}
use udt_server.LossList.Chain.{some≢none, set_end-here, set_end-other, length-set_end}
use udt_server.SndLossList.{SndLossList, insert, insert_first}
use udt_server.SndLossList.First.{IsList}
use native.Mathlib.Decide.{ℕ_discrete}

-- A list without numbers.
pub record IsEmpty (s : SndLossList) : Type 0 where
  pub no_length : s.length ≡ 0
  pub some_size : 0 < s.size
  pub free₁ : (i : ℕ) → read s.data1 i ≡ none
  pub free₂ : (i : ℕ) → read s.data2 i ≡ none
  pub sized₁ : length s.data1 ≡ s.size
  pub sized₂ : length s.data2 ≡ s.size
  pub sized : length s.next ≡ s.size

-- An empty list takes a run into node 0.
pub insert-first :
    (s : SndLossList) (a b : ℕ)
    → IsEmpty s
    → insert s a b ≡ some (insert_first s a b, pos (s.length + pos_part (seqlen a b)))
unfolding insert
insert-first s a b v = rw ((==_iff s.length 0).1 v.no_length) refl

pub insert_first-IsList :
    (s : SndLossList) (a b : ℕ) → IsEmpty s → IsList (insert_first s a b) ((a, b) ∷ [])
insert_first-IsList s a b v = record {
  whole = (
    record {
      first = get_or-set_here s.data1 0 (some a) none (omega (arith, v.sized₁, v.some_size));
      last = set_end-here s.data2 0 a b (omega (arith, v.sized₂, v.some_size)) (v.free₂ 0);
    },
    get_or-set_here s.next 0 none none (omega (arith, v.sized, v.some_size)),
  );
  clean = λ i e. elim (ℕ_discrete i 0) [
    | yes k ↦ absurd (
        some≢none (get_or-set_here s.data1 0 (some a) none (omega (arith, v.sized₁, v.some_size)))
          (ap (read (set s.data1 0 (some a))) (sym k) ∙ e))
    | no k ↦ set_end-other s.data2 0 a b i k ∙ v.free₂ i
  ];
  some_size = v.some_size;
  sized₁ = length-set s.data1 0 (some a) ∙ v.sized₁;
  sized₂ = length-set_end s.data2 0 a b ∙ v.sized₂;
  sized = length-set s.next 0 none ∙ v.sized;
}
