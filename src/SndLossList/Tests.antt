-- ===== src/SndLossList/Tests.antt =====
-- Runs of CSndLossList (src/list.cpp) on small lists, and the theorem about it applied.
use udt_server.Base.{ℕ, zero, suc, ◌+◌, ◌≡◌, refl, none, some, [], ◌∷◌, arith}
use udt_server.Base.Int.{pos}
use udt_server.SeqNo.{seqcmp, seqlen, seqoff, incseq}
use udt_server.LossList.{read}
use udt_server.LossList.Chain.{some≢none}
use udt_server.SndLossList.{
  SndLossList, insert, place, find_prior, search_start, after_prior, absorb, merge, finish,
}
use udt_server.SndLossList.Remove.{remove, remove_behind, clear, clear_all, get_lost_seq}
use udt_server.SndLossList.First.{IsList, advance, get_lost_seq_lem}

-- 2 to 4, and 7.
abbrev sample : SndLossList
sample = record {
  data1 = some 2 ∷ none ∷ none ∷ none ∷ none ∷ some 7 ∷ none ∷ none ∷ [];
  data2 = some 4 ∷ none ∷ none ∷ none ∷ none ∷ none ∷ none ∷ none ∷ [];
  next = some 5 ∷ none ∷ none ∷ none ∷ none ∷ none ∷ none ∷ none ∷ [];
  head = some 0;
  length = 4;
  size = 8;
  last_insert_pos = some 5;
}

-- 4 to 8, as one node: 5 to 8 goes on from 4 and takes 7 in.
insert_merges :
    insert sample 4 8
    ≡ some (
      record sample {
        data1 = some 2 ∷ none ∷ none ∷ none ∷ none ∷ none ∷ none ∷ none ∷ [];
        data2 = some 8 ∷ none ∷ none ∷ none ∷ none ∷ none ∷ none ∷ none ∷ [];
        next = none ∷ none ∷ none ∷ none ∷ none ∷ none ∷ none ∷ none ∷ [];
        length = 7;
        last_insert_pos = some 0;
      },
      pos 3,
    )
unfolding insert place search_start find_prior after_prior merge absorb finish seqoff seqcmp seqlen
    incseq
insert_merges = refl

insert_known : insert sample 3 4 ≡ some (record sample { last_insert_pos = some 0 }, pos 0)
unfolding insert place search_start find_prior after_prior merge absorb finish seqoff seqcmp seqlen
    incseq
insert_known = refl

-- 4 and 7 stay.
remove_middle :
    remove sample 3
    ≡ some (record sample {
      data1 = none ∷ none ∷ some 4 ∷ none ∷ none ∷ some 7 ∷ none ∷ none ∷ [];
      data2 = none ∷ none ∷ none ∷ none ∷ none ∷ none ∷ none ∷ none ∷ [];
      next = some 2 ∷ none ∷ some 5 ∷ none ∷ none ∷ none ∷ none ∷ none ∷ [];
      head = some 2;
      length = 2;
    })
unfolding remove remove_behind clear clear_all find_prior seqoff seqcmp seqlen incseq
remove_middle = refl

sample_clean : (i : ℕ) → read sample.data1 i ≡ none → read sample.data2 i ≡ none
sample_clean zero e = absurd (some≢none refl e)
sample_clean (suc zero) e = refl
sample_clean (suc (suc zero)) e = refl
sample_clean (suc (suc (suc zero))) e = refl
sample_clean (suc (suc (suc (suc zero)))) e = refl
sample_clean (suc (suc (suc (suc (suc zero))))) e = refl
sample_clean (suc (suc (suc (suc (suc (suc zero)))))) e = refl
sample_clean (suc (suc (suc (suc (suc (suc (suc zero))))))) e = refl
sample_clean (suc (suc (suc (suc (suc (suc (suc (suc i)))))))) e = refl

sample-IsList : IsList sample ((2, 4) ∷ (7, 7) ∷ [])
sample-IsList = record {
  whole = (record { first = refl; last = refl }, (record { first = refl; last = refl }, refl));
  clean = sample_clean;
  some_size = omega arith;
  sized₁ = refl;
  sized₂ = refl;
  sized = refl;
}

get_lost_seq_lem_example :
    (s' : SndLossList) × (get_lost_seq sample ≡ some (s', some 2))
    × IsList s' (advance (2, 4) ((7, 7) ∷ []))
    × (s'.length + 1 ≡ 4)
unfolding seqoff
get_lost_seq_lem_example =
    get_lost_seq_lem sample 0 2 4 ((7, 7) ∷ []) refl sample-IsList (omega arith) (omega arith)
      (omega arith) (omega arith) (omega arith) (λ e. refl)
