-- ===== src/RcvLossList.antt =====
-- src/list.h and src/list.cpp, the class CRcvLossList: the sequence numbers that the receiver
-- misses, in the order of their loss.
-- A method's result is `none` where the source indexes an array with -1, or computes with a number
-- of -1. m_iLength is kept without the bound of an int.

mod Tests
pub mod Contents
pub mod Insert
pub mod First
pub mod Shorten
pub mod Query
pub mod Range
pub mod Report
pub mod Find
use udt_server.Base.{
  ℕ, zero, suc, ◌+◌, ◌-◌, ◌%◌, ◌^◌, Bool, true, false, ◌&&◌, ◌||◌, Option, none, some, List, [],
  ◌∷◌, ◌++◌, ltb, leb, ◌==◌, if◌then◌else◌, set, replicate,
}
use udt_server.Base.Int.{ℤ, pos, pos_part, ltb_ℤ, leb_ℤ, eqb_ℤ}
use udt_server.SeqNo.{max_seq_no, seqcmp, seqlen, seqoff, incseq, decseq}
use udt_server.LossList.{Slots, read, set_end, slot_at}
use Prim.Native.Nat.{bit_or}

pub record RcvLossList : Type 0 where
  pub data1 : Slots
  pub data2 : Slots
  pub next : Slots
  pub prior : Slots
  pub head : Option ℕ
  pub tail : Option ℕ
  pub length : ℕ
  pub size : ℕ

-- The links are as `new` leaves them, of unspecified content.
unfoldable pub create : ℕ → Slots → Slots → RcvLossList
create size next prior = record {
  data1 = replicate size none;
  data2 = replicate size none;
  next = next;
  prior = prior;
  head = none;
  tail = none;
  length = 0;
  size = size;
}

-- The branch that starts a list.
abbrev pub insert_first : RcvLossList → ℕ → ℕ → RcvLossList
insert_first s a b = record s {
  data1 = set s.data1 0 (some a);
  data2 = set_end s.data2 0 a b;
  next = set s.next 0 none;
  prior = set s.prior 0 none;
  head = some 0;
  tail = some 0;
  length = s.length + pos_part (seqlen a b);
}

-- The branch that makes a new node at `loc`, behind the tail `t`.
abbrev pub insert_node : RcvLossList → ℕ → ℕ → ℕ → ℕ → RcvLossList
insert_node s a b t loc = record s {
  data1 = set s.data1 loc (some a);
  data2 = set_end s.data2 loc a b;
  next = set (set s.next t (some loc)) loc none;
  prior = set s.prior loc (some t);
  tail = some loc;
  length = s.length + pos_part (seqlen a b);
}

-- Whether `a` comes right after the run that ends at `e`.
abbrev pub follows : Option ℕ → ℕ → Bool
follows none a = false
follows (some e) a = incseq e == a

-- With the head `h`, the tail `t` and the head's first number `f`.
unfoldable pub insert_rest : RcvLossList → ℕ → ℕ → ℕ → ℕ → ℕ → Option RcvLossList
insert_rest s a b h t f =
    if follows (read s.data2 t) a
    then some
        (record s { data2 = set s.data2 t (some b); length = s.length + pos_part (seqlen a b) })
    else elim (slot_at h (seqoff f a) s.size) [
      | none ↦ none
      | some loc ↦ some (insert_node s a b t loc)
    ]

unfoldable pub insert : RcvLossList → ℕ → ℕ → Option RcvLossList
insert s a b = if s.length == 0 then some (insert_first s a b) else elim s.head [
  | none ↦ none
  | some h ↦ elim s.tail [
    | none ↦ none
    | some t ↦ elim (read s.data1 h) [ none ↦ none | some f ↦ insert_rest s a b h t f ]
  ]
]

-- An assignment through an index that may be -1.
abbrev pub write : Slots → Option ℕ → Option ℕ → Option Slots
write xs none v = none
write xs (some i) v = some (set xs i v)

-- The node `loc` of one number leaves the list; `h` is the head.
unfoldable pub unlink : RcvLossList → ℕ → ℕ → Option RcvLossList
unlink s h loc =
    let data1 = set s.data1 loc none in
    let n = read s.next loc in
    let p = read s.prior loc in
    if h == loc
    then some (record s {
      data1 = data1;
      prior = elim n [ none ↦ s.prior | some m ↦ set s.prior m none ];
      head = n;
      length = s.length - 1;
    })
    else elim (write s.next p n) [
      | none ↦ none
      | some next ↦ some (elim n [
        | none ↦ record s { data1 = data1; next = next; tail = p; length = s.length - 1 }
        | some m ↦ record s {
          data1 = data1;
          next = next;
          prior = set s.prior m p;
          length = s.length - 1;
        }
      ])
    ]

abbrev pub is_node : Option ℕ → ℕ → Bool
is_node none i = false
is_node (some j) i = j == i

-- The node `loc` holds the run from `q` to `e`, more than one number, and moves on by one.
unfoldable pub shift_start : RcvLossList → ℕ → ℕ → ℕ → ℕ → Option RcvLossList
shift_start s h q loc e =
    let i = (loc + 1) % s.size in
    let n = read s.next loc in
    let p = read s.prior loc in
    let next = set s.next i n in
    let prior = set s.prior i p in
    let at_head = h == loc in
    let at_tail = is_node s.tail loc in
    elim (if at_head then some next else write next p (some i)) [
      | none ↦ none
      | some next' ↦ elim (if at_tail then some prior else write prior (read next' i) (some i)) [
        | none ↦ none
        | some prior' ↦ some (record s {
          data1 = set (set s.data1 i (some (incseq q))) loc none;
          data2 =
              set (if ltb_ℤ (pos 0) (seqcmp e (incseq q)) then set s.data2 i (some e) else s.data2)
                loc none;
          next = next';
          prior = prior';
          head = if at_head then some i else s.head;
          tail = if at_tail then some i else s.tail;
          length = s.length - 1;
        })
      ]
    ]

-- The search for the node before `loc`; it passes every node within `size` steps.
unfoldable pub search_back : ℕ → Slots → ℕ → ℕ → Option ℕ
search_back zero data1 size i = none
search_back (suc fuel) data1 size i =
    let rest = search_back fuel data1 size ((i + size - 1) % size) in
    elim (read data1 i) [ none ↦ rest | some a ↦ some i ]

-- The end of the run that starts at `a`, once `q` and what follows it are cut off.
abbrev pub cut_end : ℕ → ℕ → Option ℕ
cut_end a q = if q == incseq a then none else some (decseq q)

-- The run of node `i`, which ends at `e`, loses `q` in its middle; `loc` is for the second part.
unfoldable pub split : RcvLossList → ℕ → ℕ → ℕ → ℕ → Option RcvLossList
split s q i e loc =
    let data1 = set s.data1 loc (some (incseq q)) in
    let data2 = if ltb_ℤ (pos 0) (seqcmp e (incseq q)) then set s.data2 loc (some e) else s.data2 in
    let next = set (set s.next loc (read s.next i)) i (some loc) in
    let prior = set s.prior loc (some i) in
    let at_tail = is_node s.tail i in
    elim (read data1 i) [
      | none ↦ none
      | some a ↦ elim (if at_tail then some prior else write prior (read next loc) (some loc)) [
        | none ↦ none
        | some prior' ↦ some (record s {
          data1 = data1;
          data2 = set data2 i (cut_end a q);
          next = next;
          prior = prior';
          tail = if at_tail then some loc else s.tail;
          length = s.length - 1;
        })
      ]
    ]

abbrev pub removed : Option RcvLossList → Option (RcvLossList × Bool)
removed none = none
removed (some s) = some (s, true)

-- The number `q` is not the first of its run; `i` is the node found before its place `loc`.
unfoldable pub remove_inside : RcvLossList → ℕ → ℕ → ℕ → Option (RcvLossList × Bool)
remove_inside s q loc i = elim (read s.data2 i) [
  | none ↦ some (s, false)
  | some e ↦
      if ltb_ℤ (pos 0) (seqcmp q e)
      then some (s, false)
      else if q == e
      then elim (read s.data1 i) [
        | none ↦ none
        | some a ↦
            some (record s { data2 = set s.data2 i (cut_end a q); length = s.length - 1 }, true)
      ]
      else removed (split s q i e ((loc + 1) % s.size))
]

unfoldable pub remove_at : RcvLossList → ℕ → ℕ → ℕ → Option (RcvLossList × Bool)
remove_at s h q loc =
    if is_node (read s.data1 loc) q
    then elim (read s.data2 loc) [
      | none ↦ removed (unlink s h loc)
      | some e ↦ removed (shift_start s h q loc e)
    ]
    else elim (search_back s.size s.data1 s.size ((loc + s.size - 1) % s.size)) [
      | none ↦ none
      | some i ↦ remove_inside s q loc i
    ]

unfoldable pub remove : RcvLossList → ℕ → Option (RcvLossList × Bool)
remove s q = if s.length == 0 then some (s, false) else elim s.head [
  | none ↦ none
  | some h ↦ elim (read s.data1 h) [
    | none ↦ none
    | some f ↦
        if ltb_ℤ (seqoff f q) (pos 0)
        then some (s, false)
        else remove_at s h q ((h + pos_part (seqoff f q)) % s.size)
  ]
]

-- The numbers from `i` on, `rounds` of them, in a loop that ignores the results.
unfoldable pub remove_each : Option RcvLossList → ℕ → ℕ → Option RcvLossList
remove_each s i zero = s
remove_each none i (suc rounds) = none
remove_each (some s) i (suc rounds) = elim (remove s i) [
  | none ↦ none
  | some r ↦ remove_each (some (r.0)) (i + 1) rounds
]

-- The overload for a range. With the last number of all as seqno2, `++ i` overflows an int.
unfoldable pub remove_range : RcvLossList → ℕ → ℕ → Option RcvLossList
remove_range s a b =
    if leb a b
    then (if b == max_seq_no then none else remove_each (some s) a (b + 1 - a))
    else remove_each (remove_each (some s) a (max_seq_no - a)) 0 (b + 1)
