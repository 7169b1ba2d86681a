-- ===== src/AckWindow/Tests.antt =====
-- Runs of CACKWindow (src/window.cpp) at a small window, and the theorems about it applied.
use udt_server.Base.{ℕ, ◌≡◌, refl, List, [], ◌∷◌, arith}
use udt_server.AckWindow.{AckWindow, create, store, acknowledge, scan_wrapped}
use udt_server.AckWindow.Contents.{Sent, contents, IsValid}
use udt_server.AckWindow.History.{after, Answers, store-IsValid, acknowledge-Answers}

abbrev raw : List ℕ
raw = 0 ∷ 0 ∷ 0 ∷ []

abbrev fresh : AckWindow
fresh = record {
  ack_seq_no = 0xffff_ffff ∷ 0 ∷ 0 ∷ [];
  ack = raw;
  time_stamp = raw;
  size = 3;
  head = 0;
  tail = 0;
}

-- Numbers 6 and 7, the second at index 0.
abbrev wrapped : AckWindow
wrapped = record {
  ack_seq_no = 7 ∷ 5 ∷ 6 ∷ [];
  ack = 70 ∷ 50 ∷ 60 ∷ [];
  time_stamp = 700 ∷ 500 ∷ 600 ∷ [];
  size = 3;
  head = 1;
  tail = 2;
}

abbrev six : Sent
six = record { seq = 6; ack = 60; time = 600 }

abbrev seven : Sent
seven = record { seq = 7; ack = 70; time = 700 }

create_run : create 3 raw raw raw ≡ fresh
unfolding create
create_run = refl

store_run : store (store (store (store fresh 4 40 400) 5 50 500) 6 60 600) 7 70 700 ≡ wrapped
unfolding store
store_run = refl

acknowledge_run :
    acknowledge wrapped 6 0 1000
    ≡ record { window = record wrapped { tail = 0 }; ack = 60; rtt = 400 }
unfolding acknowledge scan_wrapped
acknowledge_run = refl

wrapped-IsValid : IsValid wrapped
wrapped-IsValid = record {
  seqs_fit = refl;
  acks_fit = refl;
  times_fit = refl;
  head_in = omega arith;
  tail_in = omega arith;
}

store-IsValid_example : IsValid (store wrapped 8 80 800)
store-IsValid_example = store-IsValid 8 80 800 wrapped-IsValid

acknowledge-Answers_example :
    Answers wrapped 0 1000 (acknowledge wrapped 7 0 1000) (after 7 (contents wrapped))
acknowledge-Answers_example = acknowledge-Answers wrapped 7 0 1000 wrapped-IsValid
