-- ===== src/SndUList.antt =====
-- src/queue.h and src/queue.cpp, the class CSndUList: the sockets that wait to send, in a binary
-- heap by the time of their next packet.
-- A socket (a CUDT with its CSNode) is a number. A node's m_llTimeStamp and m_iHeapLoc are
-- functions of the socket, and `none` is the location -1. `count` is m_iLastEntry + 1. Calls of
-- CTimer::interrupt and of pthread_cond_signal are counted.
pub mod Order
pub mod Place
pub mod Insert
pub mod Remove
pub mod Schedule
mod Tests
use udt_server.Base.{
  ℕ, zero, suc, ◌+◌, ◌-◌, ◌*◌, ◌/◌, Bool, true, false, ◌&&◌, ◌||◌, not, Option, none, some, List,
  [], ◌++◌, ltb, leb, ◌==◌, if◌then◌else◌, get_or, set, replicate,
}

pub record SndUList : Type 0 where
  pub heap : List ℕ
  pub array_length : ℕ
  pub count : ℕ
  pub time_stamp : ℕ → ℕ
  pub heap_loc : ℕ → Option ℕ
  pub interrupts : ℕ
  pub signals : ℕ

-- The heap's entry at an index; the default is never read at a valid state.
abbrev pub at : List ℕ → ℕ → ℕ
at heap i = get_or heap i 0

abbrev pub update_at {ℓ} : {A : Type ℓ} → (ℕ → A) → ℕ → A → ℕ → A
update_at f n v m = if n == m then v else f m

-- The part of the state that the two loops change.
pub record Tree : Type 0 where
  pub heap : List ℕ
  pub heap_loc : ℕ → Option ℕ
  pub q : ℕ

-- A node of the loop `while (p != 0)` of insert_, where `p` and `q` are equal at the test. The node
-- that moves down has its location written; the one that moves up has it written by the caller.
abbrev pub swap_up : Tree → ℕ → Tree
swap_up t p = record {
  heap = set (set t.heap p (at t.heap t.q)) t.q (at t.heap p);
  heap_loc = update_at t.heap_loc (at t.heap p) (some t.q);
  q = p;
}

unfoldable pub sift_up : (ℕ → ℕ) → ℕ → Tree → Tree
sift_up ts zero t = t
sift_up ts (suc fuel) t =
    let p = (t.q - 1) / 2 in
    let rest = sift_up ts fuel (swap_up t p) in
    if t.q == 0 then t else if ltb (ts (at t.heap t.q)) (ts (at t.heap p)) then rest else t

-- CSndUList::insert_. The loop has at most `count` rounds.
unfoldable pub insert_node : SndUList → ℕ → ℕ → SndUList
insert_node s time u = elim (s.heap_loc u) [
  | some l ↦ s
  | none ↦
      let stamps = update_at s.time_stamp u time in
      let start : Tree = record {
        heap = set s.heap s.count u;
        heap_loc = s.heap_loc;
        q = s.count;
      } in
      let t = sift_up stamps (suc s.count) start in
      record s {
        heap = t.heap;
        count = suc s.count;
        time_stamp = stamps;
        heap_loc = update_at t.heap_loc u (some t.q);
        interrupts = if t.q == 0 then s.interrupts + 1 else s.interrupts;
        signals = if s.count == 0 then s.signals + 1 else s.signals;
      }
]

-- `memory` says whether the allocation of a larger array succeeds, where one is made.
unfoldable pub insert : SndUList → Bool → ℕ → ℕ → SndUList
insert s memory time u =
    if s.count == s.array_length
    then (if memory
        then insert_node
            (record s {
              heap = s.heap ++ replicate s.array_length 0;
              array_length = s.array_length * 2;
            })
            time u
        else s)
    else insert_node s time u

-- The child of `q` with the earlier time, among those below `count`.
abbrev pub earlier_child : (ℕ → ℕ) → ℕ → List ℕ → ℕ → ℕ
earlier_child ts count heap q =
    let p = q * 2 + 1 in
    if ltb (p + 1) count && ltb (ts (at heap (p + 1))) (ts (at heap p)) then p + 1 else p

abbrev pub swap_down : Tree → ℕ → Tree
swap_down t p = record {
  heap = set (set t.heap p (at t.heap t.q)) t.q (at t.heap p);
  heap_loc = update_at (update_at t.heap_loc (at t.heap t.q) (some p)) (at t.heap p) (some t.q);
  q = p;
}

-- The loop of remove_.
unfoldable pub sift_down : (ℕ → ℕ) → ℕ → ℕ → Tree → Tree
sift_down ts count zero t = t
sift_down ts count (suc fuel) t =
    let p = earlier_child ts count t.heap t.q in
    let rest = sift_down ts count fuel (swap_down t p) in
    if ltb (t.q * 2 + 1) count
    then (if ltb (ts (at t.heap p)) (ts (at t.heap t.q)) then rest else t)
    else t

-- The tree that remove_ hands to its loop, for a node at `l`.
abbrev pub cut_out : SndUList → ℕ → Tree
cut_out s l =
    let last = at s.heap (s.count - 1) in
    record { heap = set s.heap l last; heap_loc = update_at s.heap_loc last (some l); q = l }

-- CSndUList::remove_. The loop has at most `count` rounds.
unfoldable pub remove_node : SndUList → ℕ → SndUList
remove_node s u = elim (s.heap_loc u) [
  | none ↦ record s { interrupts = if s.count == 1 then s.interrupts + 1 else s.interrupts }
  | some l ↦
      let t = sift_down s.time_stamp (s.count - 1) s.count (cut_out s l) in
      record s {
        heap = t.heap;
        count = s.count - 1;
        heap_loc = update_at t.heap_loc u none;
        interrupts = if s.count - 1 == 1 then s.interrupts + 1 else s.interrupts;
      }
]

unfoldable pub update : SndUList → ℕ → Bool → SndUList
update s u reschedule = elim (s.heap_loc u) [
  | none ↦ insert_node s 1 u
  | some l ↦
      if not reschedule
      then s
      else if l == 0
      then (record s { time_stamp = update_at s.time_stamp u 1; interrupts = s.interrupts + 1 })
      else insert_node (remove_node s u) 1 u
]

-- What the popped socket answers: whether it may send, and the time of its next packet, if
-- CUDT::packData made a packet (its result is above 0).
pub record Sender : Type 0 where
  pub connected : Bool
  pub broken : Bool
  pub pack_data : ℕ → Option ℕ

-- The result is `none` for -1 and the socket whose packet is sent for 1.
unfoldable pub pop : SndUList → ℕ → (ℕ → Sender) → SndUList × Option ℕ
pop s now sockets =
    let u = at s.heap 0 in
    let rest = remove_node s u in
    if s.count == 0
    then (s, none)
    else if ltb now (s.time_stamp u)
    then (s, none)
    else if not (sockets u).connected || (sockets u).broken
    then (rest, none)
    else elim ((sockets u).pack_data now) [
      | none ↦ (rest, none)
      | some next ↦ (if ltb 0 next then insert_node rest next u else rest, some u)
    ]

unfoldable pub get_next_proc_time : SndUList → ℕ
get_next_proc_time s = if s.count == 0 then 0 else s.time_stamp (at s.heap 0)
