-- ===== src/Epoll/Tests.antt =====
-- Runs of CEPoll (src/epoll.cpp), and the theorems about it applied.
use udt_server.Base.{inl, inr, arith, ℕ, ◌≡◌, refl, true, false, none, some, [], ◌∷◌}
use udt_server.Base.Int.{pos, negsuc}
use udt_server.Base.IntSet.{member, insert, insert_all}
use udt_server.Base.Dict.{find_key, put}
use udt_server.Base.Outcome.{Outcome, returned}
use udt_server.Epoll.{
  EpollDesc, Epoll, create, add_usock, remove_usock, update_events, update_loop, update_epoll_sets,
  erase_lost, Wanted, Found, Look, look, add_found, wait, wait_loop, new_desc,
}
use udt_server.Epoll.Ready.{updated?, update_events_lem, reported_found}
use udt_server.Epoll.Removed.{removed_found}
use udt_server.Epoll.Reach.{Reach, creates, adds, updates, here, next, initial, Reach-NoExcepts}
use udt_server.Epoll.Wait.{IsEnd, wait_ends, wait_without_sets}

-- Epoll 3 watches the sockets 5 and 6 for reading, of which 6 is ready.
abbrev desc : EpollDesc
desc = record {
  id = 3;
  usocks_out = 5 ∷ [];
  usocks_in = 5 ∷ 6 ∷ [];
  usocks_ex = [];
  local_id = 9;
  locals = [];
  writes = [];
  reads = 6 ∷ [];
  excepts = [];
}

abbrev sample : Epoll
sample = record { id_seed = 3; polls = (3, desc) ∷ [] }

abbrev readers : Wanted
readers = record { readfds = true; writefds = false; lrfds = false; lwfds = false }

abbrev at : Epoll → ℕ → Look
at s t = record { epoll = s; system = []; time = t }

-- Both sockets are found when 5 has reported.
found_both :
    wait 3 readers (pos 10) 0 (at (update_events sample 5 (3 ∷ []) 1 true).0 0 ∷ [])
    ≡ some (
        returned
          (record { readfds = 5 ∷ 6 ∷ []; writefds = []; lrfds = []; lwfds = []; total = 2 }))
unfolding wait wait_loop look add_found insert_all update_events update_loop update_epoll_sets
    find_key put member insert
found_both = refl

update_events_example :
    (find_key 3 (update_events sample 5 (3 ∷ 4 ∷ []) 1 true).0.polls
      ≡ updated? (some desc) 5 1 true)
    × (member 3 (update_events sample 5 (3 ∷ 4 ∷ []) 1 true).1 ≡ true)
unfolding find_key member
update_events_example = update_events_lem sample 5 (3 ∷ 4 ∷ []) 1 true 3 (refl, (refl, tt))

reported_found_example :
    (g : Found) × (wait 3 readers
        (negsuc 0)
        0
        (at (update_events sample 5 (3 ∷ []) 1 true).0 0 ∷ [])
      ≡ some (returned g))
    × (member 5 g.readfds ≡ true)
unfolding find_key member
reported_found_example =
    reported_found sample (at (update_events sample 5 (3 ∷ []) 1 true).0 0) [] 3 5 1 (3 ∷ [])
      readers (negsuc 0) 0 desc (refl, tt) refl refl refl refl refl refl

removed_found_example :
    (s' : Epoll) × (g : Found) × (remove_usock sample 3 6 ≡ returned s')
    × (wait 3 readers (pos 10) 0 (at s' 0 ∷ []) ≡ some (returned g))
    × (member 6 g.readfds ≡ true)
unfolding find_key member
removed_found_example = removed_found sample 3 6 10 0 desc readers [] 0 [] refl refl refl

wait_ends_example :
    (r : Outcome Found) × (wait 3 readers (pos 1) 0 (at sample 0 ∷ at sample 2000 ∷ []) ≡ some r)
    × IsEnd r
wait_ends_example =
    wait_ends 3 readers 1 0 (at sample 0 ∷ at sample 2000 ∷ []) (inr (inl (omega arith)))

wait_without_sets_example :
    wait 3
      (record { readfds = false; writefds = false; lrfds = false; lwfds = false })
      (negsuc 0)
      0
      (at sample 0 ∷ [])
    ≡ none
unfolding find_key
wait_without_sets_example = wait_without_sets 3 0 0 (at sample 0 ∷ []) ((desc, refl, refl), tt)

-- A socket that is watched for all events and reports an error.
abbrev watching_desc : EpollDesc
watching_desc = record (new_desc 1 9) { usocks_in = 5 ∷ []; usocks_out = 5 ∷ [] }

abbrev watching : Epoll
watching = record { id_seed = 1; polls = (1, watching_desc) ∷ [] }

reached : Reach initial watching
unfolding create add_usock update_events update_loop erase_lost update_epoll_sets find_key put
    member insert
reached =
    next
      (next
        (next here
          (creates {t = record { id_seed = 1; polls = (1, new_desc 1 9) ∷ [] }} (some 9) 1 refl))
        (adds {t = watching} 1 5 none refl))
      (updates 5 (1 ∷ []) 8 true (refl, tt) refl)

Reach-NoExcepts_example : (watching_desc.usocks_ex ≡ []) × (watching_desc.excepts ≡ [])
unfolding find_key
Reach-NoExcepts_example = Reach-NoExcepts 1 watching_desc reached refl
