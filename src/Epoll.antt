-- ===== src/Epoll.antt =====
-- src/epoll.h and src/epoll.cpp, the class CEPoll, as it is built with LINUX: which of the sockets
-- that an application watches are ready.
-- IDs are numbers. A null set of events is `none`. The answers of the system (epoll_create,
-- epoll_ctl, epoll_wait) and of the clock are arguments. A CUDTException is thrown with its major
-- and minor number.
pub mod Ready
pub mod Removed
pub mod Reach
pub mod Wait
mod Tests
use Prim.Native.Nat.{bit_and}
use udt_server.Base.{
  ℕ, ◌+◌, ◌*◌, ◌^◌, Bool, true, false, not, ◌&&◌, ◌||◌, Option, none, some, List, [], ◌∷◌, ◌++◌,
  ltb, leb, ◌==◌, if◌then◌else◌, length,
}
use udt_server.Base.Int.{ℤ, pos, negsuc}
use udt_server.Base.Outcome.{Outcome, returned, thrown, terminated}
use udt_server.Base.IntSet.{IntSet, insert, erase, insert_all, member, is_empty}
use udt_server.Base.Dict.{Dict, find_key, put, erase_key}
use udt_server.Core.Times.{since}

pub record EpollDesc : Type 0 where
  pub id : ℕ
  pub usocks_out : IntSet
  pub usocks_in : IntSet
  pub usocks_ex : IntSet
  pub local_id : ℕ
  pub locals : IntSet
  pub writes : IntSet
  pub reads : IntSet
  pub excepts : IntSet

pub record Epoll : Type 0 where
  pub id_seed : ℕ
  pub polls : Dict EpollDesc

-- UDT_EPOLL_IN, UDT_EPOLL_OUT and UDT_EPOLL_ERR, which are also the system's bits.
abbrev pub event_in : ℕ
event_in = 1

abbrev pub event_out : ℕ
event_out = 4

abbrev pub event_err : ℕ
event_err = 8

abbrev pub has : ℕ → ℕ → Bool
has events bit = not (bit_and events bit == 0)

-- No events stand for all.
abbrev pub wants : Option ℕ → ℕ → Bool
wants none bit = true
wants (some events) bit = has events bit

-- A call on the descriptor `eid`, which throws where there is none.
abbrev pub on_desc : {A : Type 0} → Option EpollDesc → (EpollDesc → Outcome A) → Outcome A
on_desc none f = thrown (pos 5) 13
on_desc (some d) f = f d

abbrev pub with_desc : {A : Type 0} → Epoll → ℕ → (EpollDesc → Outcome A) → Outcome A
with_desc s eid f = on_desc (find_key eid s.polls) f

abbrev pub save : Epoll → ℕ → EpollDesc → Epoll
save s eid d = record s { polls = put eid d s.polls }

abbrev pub new_desc : ℕ → ℕ → EpollDesc
new_desc id local_id = record {
  id = id;
  usocks_out = [];
  usocks_in = [];
  usocks_ex = [];
  local_id = local_id;
  locals = [];
  writes = [];
  reads = [];
  excepts = [];
}

abbrev pub next_id : ℕ → ℕ
next_id seed = if leb 0x7FFFFFFF (seed + 1) then 0 else seed + 1

-- `created` is what epoll_create returned, `none` for a number below 0.
unfoldable pub create : Epoll → Option ℕ → Outcome (Epoll × ℕ)
create s none = thrown (negsuc 0) 0
create s (some local_id) =
    let id = next_id s.id_seed in
    returned (record { id_seed = id; polls = put id (new_desc id local_id) s.polls }, id)

abbrev pub watch : EpollDesc → ℕ → Option ℕ → EpollDesc
watch d u events = record d {
  usocks_in = if wants events event_in then insert u d.usocks_in else d.usocks_in;
  usocks_out = if wants events event_out then insert u d.usocks_out else d.usocks_out;
}

unfoldable pub add_usock : Epoll → ℕ → ℕ → Option ℕ → Outcome Epoll
add_usock s eid u events = with_desc s eid (λ d. returned (save s eid (watch d u events)))

-- The events of the system's socket, as epoll_ctl gets them.
abbrev pub system_events : Option ℕ → ℕ
system_events events =
    (if wants events event_in then 1 else 0)
    + (if wants events event_out then 4 else 0)
    + (if wants events event_err then 8 else 0)

-- `ctl` tells whether epoll_ctl adds a socket with these events to a system's epoll.
unfoldable pub add_ssock : (ℕ → ℕ → ℕ → Bool) → Epoll → ℕ → ℕ → Option ℕ → Outcome Epoll
add_ssock ctl s eid fd events = with_desc s eid (λ d.
    if ctl d.local_id fd (system_events events)
    then returned (save s eid (record d { locals = insert fd d.locals }))
    else thrown (pos 0) 0)

unfoldable pub remove_usock : Epoll → ℕ → ℕ → Outcome Epoll
remove_usock s eid u = with_desc s eid (λ d. returned (
    save s eid (record d {
      usocks_in = erase u d.usocks_in;
      usocks_out = erase u d.usocks_out;
      usocks_ex = erase u d.usocks_ex;
    })))

unfoldable pub remove_ssock : (ℕ → ℕ → Bool) → Epoll → ℕ → ℕ → Outcome Epoll
remove_ssock ctl s eid fd = with_desc s eid (λ d.
    if ctl d.local_id fd
    then returned (save s eid (record d { locals = erase fd d.locals }))
    else thrown (pos 0) 0)

unfoldable pub release : Epoll → ℕ → Outcome Epoll
release s eid = with_desc s eid (λ d. returned (record s { polls = erase_key eid s.polls }))

unfoldable pub update_epoll_sets : ℕ → IntSet → IntSet → Bool → IntSet
update_epoll_sets uid watched result enable =
    if enable && member uid watched
    then insert uid result
    else if not enable
    then erase uid result
    else result

abbrev pub updated : EpollDesc → ℕ → ℕ → Bool → EpollDesc
updated d uid events enable = record d {
  reads = if has events event_in then update_epoll_sets uid d.usocks_in d.reads enable else d.reads;
  writes =
      if has events event_out then update_epoll_sets uid d.usocks_out d.writes enable else d.writes;
  excepts =
      if has events event_err
      then update_epoll_sets uid d.usocks_ex d.excepts enable
      else d.excepts;
}

-- The loop over the IDs, with those of no descriptor.
unfoldable pub update_loop :
    ℕ → ℕ → Bool → List ℕ → Dict EpollDesc → List ℕ → Dict EpollDesc × List ℕ
update_loop uid events enable [] ps lost = (ps, lost)
update_loop uid events enable (i ∷ is) ps lost = elim (find_key i ps) [
  | none ↦ update_loop uid events enable is ps (lost ++ (i ∷ []))
  | some d ↦ update_loop uid events enable is (put i (updated d uid events enable) ps) lost
]

unfoldable pub erase_lost : List ℕ → IntSet → IntSet
erase_lost [] s = s
erase_lost (i ∷ is) s = erase_lost is (erase i s)

-- The second result is what becomes of the caller's set of IDs.
unfoldable pub update_events : Epoll → ℕ → IntSet → ℕ → Bool → Epoll × IntSet
update_events s uid eids events enable =
    let (ps, lost) = update_loop uid events enable eids s.polls [] in
    (record s { polls = ps }, erase_lost lost eids)

-- The sets that the caller of wait asks for, and those that it gets, with their count.
pub record Wanted : Type 0 where
  pub readfds : Bool
  pub writefds : Bool
  pub lrfds : Bool
  pub lwfds : Bool

pub record Found : Type 0 where
  pub readfds : IntSet
  pub writefds : IntSet
  pub lrfds : IntSet
  pub lwfds : IntSet
  pub total : ℕ

abbrev pub nothing : Found
nothing = record { readfds = []; writefds = []; lrfds = []; lwfds = []; total = 0 }

abbrev pub find_reads : EpollDesc → Wanted → Found → Found
find_reads d w f =
    if w.readfds && not (is_empty d.reads && is_empty d.excepts)
    then record f {
      readfds = insert_all d.excepts d.reads;
      total = f.total + (length d.reads + length d.excepts);
    }
    else f

abbrev pub find_writes : EpollDesc → Wanted → Found → Found
find_writes d w f =
    if w.writefds && not (is_empty d.writes && is_empty d.excepts)
    then record f {
      writefds = insert_all d.excepts d.writes;
      total = f.total + (length d.writes + length d.excepts);
    }
    else f

abbrev pub local_read : Wanted → ℕ → ℕ → Found → Found
local_read w fd events f =
    if w.lrfds && has events 1
    then record f { lrfds = insert fd f.lrfds; total = f.total + 1 }
    else f

abbrev pub local_write : Wanted → ℕ → ℕ → Found → Found
local_write w fd events f =
    if w.lwfds && has events 4
    then record f { lwfds = insert fd f.lwfds; total = f.total + 1 }
    else f

-- The loop over the answer of epoll_wait, sockets with their events.
unfoldable pub find_locals : Wanted → List (ℕ × ℕ) → Found → Found
find_locals w [] f = f
find_locals w ((fd, events) ∷ ev) f =
    find_locals w ev (local_write w fd events (local_read w fd events f))

-- One round of wait, on what other calls have left.
pub record Look : Type 0 where
  pub epoll : Epoll
  pub system : List (ℕ × ℕ)
  pub time : ℕ

abbrev pub is_idle : EpollDesc → Bool
is_idle d = is_empty d.usocks_in && (is_empty d.usocks_out && is_empty d.locals)

abbrev pub is_negative : ℤ → Bool
is_negative (pos n) = false
is_negative (negsuc n) = true

-- What a round adds for a descriptor.
unfoldable pub add_found : EpollDesc → Wanted → List (ℕ × ℕ) → Found → Found
add_found d w system f =
    let g = find_writes d w (find_reads d w f) in
    if w.lrfds || w.lwfds then find_locals w system g else g

unfoldable pub look : Look → ℕ → Wanted → ℤ → Found → Outcome Found
look l eid w ms f = with_desc l.epoll eid (λ d.
    if is_idle d && is_negative ms then thrown (pos 5) 3 else returned (add_found d w l.system f))

-- Whether the time is over; the difference is read as an int64_t.
abbrev pub is_over : ℤ → ℕ → ℕ → Bool
is_over (negsuc n) entered now = false
is_over (pos n) entered now = ltb (since now entered) (2 ^ 63) && leb (n * 1000) (since now entered)

-- The rounds of wait; `none` means that it waits on after them.
unfoldable pub wait_loop : ℕ → Wanted → ℤ → ℕ → List Look → Found → Option (Outcome Found)
wait_loop eid w ms entered [] f = none
wait_loop eid w ms entered (l ∷ ls) f = elim (look l eid w ms f) [
  | thrown major minor ↦ some (thrown major minor)
  | terminated ↦ some terminated
  | returned g ↦ elim (ltb 0 g.total) [
    | true ↦ some (returned g)
    | false ↦ elim (is_over ms entered l.time) [
      | true ↦ some (thrown (pos 6) 3)
      | false ↦ wait_loop eid w ms entered ls g
    ]
  ]
]

unfoldable pub wait : ℕ → Wanted → ℤ → ℕ → List Look → Option (Outcome Found)
wait eid w ms entered ls =
    if not w.readfds && not w.writefds && not w.lrfds && w.lwfds && is_negative ms
    then some (thrown (pos 5) 3)
    else wait_loop eid w ms entered ls nothing
