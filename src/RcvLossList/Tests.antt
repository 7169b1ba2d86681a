-- ===== src/RcvLossList/Tests.antt =====
-- Runs of CRcvLossList (src/list.cpp) on small lists, and the theorems about it applied.
use udt_server.Base.{
  ℕ, zero, suc, ◌+◌, ◌^◌, ◌<◌, ◌≡◌, refl, true, false, ◌&&◌, Option, none, some, List, [], ◌∷◌, leb,
  arith, map,
}
use udt_server.SeqNo.{seqcmp, seqlen, seqoff, incseq}
use udt_server.LossList.{read, slot_at}
use udt_server.RcvLossList.{
  RcvLossList, create, insert, remove, remove_at, remove_inside, search_back, shift_start, unlink,
  remove_range,
}
use udt_server.RcvLossList.Contents.{links, run_length, IsList, IsEmpty, create-IsEmpty}
use udt_server.RcvLossList.Insert.{front_after, back_after, insert_behind}
use udt_server.LossList.Chain.{IsSegment, some≢none}
use udt_server.RcvLossList.Query.{get_first_lost_seq, get_loss_array, loss_loop}
use udt_server.RcvLossList.Report.{decode, decode-get_loss_array}
use udt_server.RcvLossList.Find.{shift}
use udt_server.RcvLossList.Range.{remove_all, elem, remove_range_all}

abbrev no_links : List (Option ℕ)
no_links = none ∷ none ∷ none ∷ none ∷ []

-- 3, and 5 to 6.
abbrev sample : RcvLossList
sample = record {
  data1 = some 3 ∷ none ∷ some 5 ∷ none ∷ [];
  data2 = none ∷ none ∷ some 6 ∷ none ∷ [];
  next = some 2 ∷ none ∷ none ∷ none ∷ [];
  prior = none ∷ none ∷ some 0 ∷ none ∷ [];
  head = some 0;
  tail = some 2;
  length = 3;
  size = 4;
}

-- 3, then 6.
abbrev less : RcvLossList
less = record sample {
  data1 = some 3 ∷ none ∷ none ∷ some 6 ∷ [];
  data2 = none ∷ none ∷ none ∷ none ∷ [];
  next = some 3 ∷ none ∷ none ∷ none ∷ [];
  prior = none ∷ none ∷ some 0 ∷ some 0 ∷ [];
  tail = some 3;
  length = 2;
}

remove_shifts : remove sample 5 ≡ some (less, true)
unfolding remove remove_at shift_start seqoff seqcmp incseq
remove_shifts = refl

remove_unlinks :
    remove less 3
    ≡ some (
      record less {
        data1 = none ∷ none ∷ none ∷ some 6 ∷ [];
        prior = none ∷ none ∷ some 0 ∷ none ∷ [];
        head = some 3;
        length = 1;
      },
      true,
    )
unfolding remove remove_at unlink seqoff
remove_unlinks = refl

remove_absent : remove sample 4 ≡ some (sample, false)
unfolding remove remove_at remove_inside search_back seqoff
remove_absent = refl

remove_last_of_run :
    remove sample 6
    ≡ some (record sample { data2 = none ∷ none ∷ none ∷ none ∷ []; length = 2 }, true)
unfolding remove remove_at remove_inside search_back seqoff seqcmp incseq
remove_last_of_run = refl

first_lost : get_first_lost_seq sample ≡ some 3
unfolding get_first_lost_seq
first_lost = refl

create-IsEmpty_example : IsEmpty (create 4 no_links no_links)
create-IsEmpty_example = create-IsEmpty 4 no_links no_links (omega arith) refl

sample_clean : (i : ℕ) → read sample.data1 i ≡ none → read sample.data2 i ≡ none
sample_clean zero e = refl
sample_clean (suc zero) e = refl
sample_clean (suc (suc zero)) e = absurd (some≢none refl e)
sample_clean (suc (suc (suc zero))) e = refl
sample_clean (suc (suc (suc (suc i)))) e = refl

sample-IsList : IsList sample ((3, 3) ∷ []) (5, 6)
unfolding seqlen
sample-IsList = record {
  t = 2;
  tail_eq = refl;
  tail_in = omega arith;
  to_tail = (record { first = refl; last = refl }, refl);
  at_tail = record { first = refl; last = refl };
  ends = refl;
  clean = sample_clean;
  sized₁ = refl;
  sized₂ = refl;
  sized = refl;
  counted = refl;
}

sample_place : slot_at 0 (seqoff 3 7) 4 ≡ some 0
unfolding seqoff
sample_place = refl

place_of_8 : slot_at 0 (seqoff 3 8) 4 ≡ some 1
unfolding seqoff
place_of_8 = refl

sample_fits : (0 < run_length (5, 6)) × (0 < run_length (8, 8)) × (3 + run_length (8, 8) < 2 ^ 31)
unfolding seqlen
sample_fits = (omega arith, omega arith, omega arith)

insert_behind_example :
    (s' : RcvLossList) × (insert sample 8 8 ≡ some s')
    × IsList s' (front_after ((3, 3) ∷ []) (5, 6) (8, 8)) (back_after (5, 6) (8, 8))
insert_behind_example =
    insert_behind sample ((3, 3) ∷ []) (5, 6) 8 8 0 3 1 sample-IsList (omega arith) (omega arith)
      (omega arith) (omega arith) sample_fits.0 sample_fits.1 sample_fits.2 refl refl place_of_8
      (omega arith) refl

sample-IsSegment : IsSegment (links sample) (some 0) (map (shift 3) ((0, 0) ∷ (2, 3) ∷ [])) none
sample-IsSegment =
    (record { first = refl; last = refl }, (record { first = refl; last = refl }, refl))

decode-get_loss_array_example :
    (ws : List ℕ) × (get_loss_array sample 4 ≡ some ws) × (decode ws ≡ (3, 3) ∷ (5, 6) ∷ [])
decode-get_loss_array_example =
    decode-get_loss_array sample ((3, 3) ∷ (5, 6) ∷ []) 4 sample-IsSegment
      (omega arith, (omega arith, tt)) (omega arith) (omega arith)

sample_report : get_loss_array sample 2 ≡ some (3 ∷ [])
unfolding get_loss_array loss_loop
sample_report = refl

remove_range_all_example :
    (qs : List ℕ) × (remove_range sample 3 5 ≡ remove_all (some sample) qs)
    × ((q : ℕ) → elem q qs ≡ (leb 3 q && leb q 5))
remove_range_all_example = remove_range_all sample 3 5 (omega arith) (omega arith)

less-IsSegment : IsSegment (links less) (some 0) ((3, 3) ∷ (6, 6) ∷ []) none
less-IsSegment =
    (record { first = refl; last = refl }, (record { first = refl; last = refl }, refl))

-- 3 to 5, and 7 to 8.
abbrev wide : RcvLossList
wide = record {
  data1 = some 3 ∷ none ∷ none ∷ none ∷ some 7 ∷ none ∷ [];
  data2 = some 5 ∷ none ∷ none ∷ none ∷ some 8 ∷ none ∷ [];
  next = some 4 ∷ none ∷ none ∷ none ∷ none ∷ none ∷ [];
  prior = none ∷ none ∷ none ∷ none ∷ some 0 ∷ none ∷ [];
  head = some 0;
  tail = some 4;
  length = 5;
  size = 6;
}

wide-IsSegment : IsSegment (links wide) (some 0) ((3, 5) ∷ (7, 8) ∷ []) none
wide-IsSegment =
    (record { first = refl; last = refl }, (record { first = refl; last = refl }, refl))
