-- ===== src/RcvUList/Tests.antt =====
-- Runs of CRcvUList (src/queue.cpp).
use udt_server.Base.{ℕ, ◌≡◌, refl, true, Option, none, some}
use udt_server.RcvUList.{RcvUList, assign, insert, remove}

abbrev empty_list : RcvUList
empty_list = record {
  head = none;
  last = none;
  prev = λ _. none;
  next = λ _. none;
  time_stamp = λ _. 0;
  on_list = λ _. true;
}

-- The sockets 4, 7 and 9.
abbrev three : RcvUList
three = record {
  head = some 4;
  last = some 9;
  prev = assign (assign (λ _. none) 7 (some 4)) 9 (some 7);
  next = assign (assign (λ _. none) 4 (some 7)) 7 (some 9);
  time_stamp = λ _. 0;
  on_list = λ _. true;
}

abbrev head_of : Option RcvUList → Option ℕ
head_of none = none
head_of (some s) = s.head

inserted_first : head_of (insert empty_list 5 10) ≡ some 5
unfolding insert
inserted_first = refl

removed_last : (remove three 9).last ≡ some 7
unfolding remove
removed_last = refl
