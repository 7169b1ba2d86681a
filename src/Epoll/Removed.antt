-- ===== src/Epoll/Removed.antt =====
-- CEPoll::remove_usock (src/epoll.cpp): a socket that is taken from an epoll.
use udt_server.Base.{ℕ, ◌≡◌, ap, ◌∙◌, true, false, ◌&&◌, some, List, ◌∷◌, arith}
use udt_server.Base.Int.{pos}
use udt_server.Base.IntSet.{member, erase}
use udt_server.Base.Dict.{find_key, find_key-put}
use udt_server.Base.Outcome.{returned}
use udt_server.Epoll.{
  EpollDesc, Epoll, on_desc, save, remove_usock, Wanted, Found, Look, wait, is_idle, is_negative,
}
use udt_server.Epoll.Ready.{wait_at_once}

abbrev without : EpollDesc → ℕ → EpollDesc
without d u = record d {
  usocks_in = erase u d.usocks_in;
  usocks_out = erase u d.usocks_out;
  usocks_ex = erase u d.usocks_ex;
}

removed_desc :
    (s : Epoll) (eid u : ℕ) (d : EpollDesc)
    → find_key eid s.polls ≡ some d
    → remove_usock s eid u ≡ returned (save s eid (without d u))
unfolding remove_usock
removed_desc s eid u d e = ap (λ o. on_desc o (λ d'. returned (save s eid (without d' u)))) e

idle_waits : (d : EpollDesc) (n : ℕ) → (is_idle d && is_negative (pos n)) ≡ false
idle_waits d n = ground arith

-- A socket that is ready for reading when the application takes it from the epoll stays in the set of
-- the ready ones: remove_usock succeeds, and the next call of wait with a limited time that asks for
-- such sockets returns the removed one.
pub removed_found :
    (s : Epoll) (eid u n entered : ℕ) (d : EpollDesc) (w : Wanted) (system : List (ℕ × ℕ))
    (time : ℕ) (ls : List Look)
    → find_key eid s.polls ≡ some d
    → member u d.reads ≡ true
    → w.readfds ≡ true
    → (s' : Epoll) × (g : Found) × (remove_usock s eid u ≡ returned s')
      × (wait eid w (pos n) entered (record { epoll = s'; system = system; time = time } ∷ ls)
          ≡ some (returned g))
      × (member u g.readfds ≡ true)
removed_found s eid u n entered d w system time ls e m r =
    let s' = save s eid (without d u) in
    let l : Look = record { epoll = s'; system = system; time = time } in
    let at : find_key eid s'.polls ≡ some (without d u) =
      find_key-put eid eid (without d u) s.polls ∙ ground arith in
    let (g, returns, set) =
      wait_at_once l ls eid w (pos n) entered (without d u) u at (idle_waits (without d u) n) r m in
    (s', g, removed_desc s eid u d e, returns, set u ∙ rw m (ground arith))
