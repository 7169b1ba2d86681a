-- ===== src/UnitQueue/Tests.antt =====
-- Runs of CUnitQueue (src/queue.cpp) on small rings, and the theorem about it applied.
use udt_server.Base.{◌≡◌, refl, true, some, [], ◌∷◌}
use udt_server.UnitQueue.{
  UnitQueue, count_used, count_all, increase, scan, search_ring, take_unit, get_next_avail_unit,
}
use udt_server.UnitQueue.Avail.{IsAnswer, get_next_avail_unit-IsAnswer}

-- Only the last unit of the first array and the second array are free.
abbrev sample : UnitQueue
sample = record {
  queues = (1 ∷ 1 ∷ 0 ∷ []) ∷ (0 ∷ 0 ∷ 0 ∷ []) ∷ [];
  curr = 0;
  avail = 1;
  count = 2;
  size = 6;
  mss = 1500;
}

next_array : get_next_avail_unit sample true ≡ (record sample { curr = 1; avail = 0 }, some (1, 0))
unfolding get_next_avail_unit take_unit search_ring scan
next_array = refl

abbrev crowded : UnitQueue
crowded = record sample { queues = (1 ∷ 1 ∷ []) ∷ []; size = 2 }

full_ring :
    increase crowded true
    ≡ (record sample { queues = (1 ∷ 1 ∷ []) ∷ (0 ∷ 0 ∷ []) ∷ []; size = 4 }, true)
unfolding increase count_all count_used
full_ring = refl

offered_answer : (get_next_avail_unit sample true).1 ≡ some (1, 0)
unfolding get_next_avail_unit take_unit search_ring scan
offered_answer = refl

get_next_avail_unit-IsAnswer_example : IsAnswer ((get_next_avail_unit sample true).0) 1 0
get_next_avail_unit-IsAnswer_example = get_next_avail_unit-IsAnswer sample true 1 0 offered_answer
