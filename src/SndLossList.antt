-- ===== src/SndLossList.antt =====
-- src/list.h and src/list.cpp, the class CSndLossList: the sequence numbers that the sender has to
-- send again.
-- A method's result is `none` where the source indexes an array with -1, or computes with a number
-- of -1. m_iLength is a number, without the bound of an int; a subtraction stops at 0. The lock is
-- not modelled: each method is one step.
mod Tests
pub mod Remove
pub mod First
pub mod Start
use udt_server.Base.{
  ℕ, zero, suc, ◌+◌, ◌-◌, ◌%◌, Bool, true, false, ◌||◌, Option, none, some, ◌==◌, if◌then◌else◌,
  set, replicate,
}
use udt_server.Base.Int.{ℤ, pos, pos_part, sub_ℕ, ltb_ℤ, leb_ℤ}
use udt_server.SeqNo.{seqcmp, seqlen, seqoff, incseq}
use udt_server.LossList.{Slots, read, set_end, slot_at}

pub record SndLossList : Type 0 where
  pub data1 : Slots
  pub data2 : Slots
  pub next : Slots
  pub head : Option ℕ
  pub length : ℕ
  pub size : ℕ
  pub last_insert_pos : Option ℕ

-- The links are as `new` leaves them, of unspecified content.
unfoldable pub create : ℕ → Slots → SndLossList
create size next = record {
  data1 = replicate size none;
  data2 = replicate size none;
  next = next;
  head = none;
  length = 0;
  size = size;
  last_insert_pos = none;
}

abbrev pub insert_first : SndLossList → ℕ → ℕ → SndLossList
insert_first s a b = record s {
  data1 = set s.data1 0 (some a);
  data2 = set_end s.data2 0 a b;
  next = set s.next 0 none;
  head = some 0;
  last_insert_pos = some 0;
  length = s.length + pos_part (seqlen a b);
}

-- Where an insertion stands when the run has its node: it returns 0, or goes on to merge the node
-- with the next ones.
pub data Placed : Type 0 where
  settled : SndLossList → Placed
  to_merge : SndLossList → ℕ → Placed

-- The branch for a run before the head `h`.
abbrev pub insert_before : SndLossList → ℕ → ℕ → ℕ → ℕ → SndLossList
insert_before s a b h loc = record s {
  data1 = set s.data1 loc (some a);
  data2 = set_end s.data2 loc a b;
  next = set s.next loc (some h);
  head = some loc;
  last_insert_pos = some loc;
  length = s.length + pos_part (seqlen a b);
}

-- The node's run, which goes on to `e` at least, gets the end `b`.
abbrev pub grow : SndLossList → ℕ → ℕ → ℕ → SndLossList
grow s loc e b = record s {
  data2 = set s.data2 loc (some b);
  length = s.length + (pos_part (seqlen e b) - 1);
}

-- The branches for a node whose run begins with `a` already.
unfoldable pub same_start : SndLossList → ℕ → ℕ → ℕ → Placed
same_start s a b loc = elim (read s.data2 loc) [
  | none ↦ if b == a then to_merge s loc else to_merge (grow s loc a b) loc
  | some e ↦ if ltb_ℤ (pos 0) (seqcmp b e) then to_merge (grow s loc e b) loc else settled s
]

-- The search for the last node before `q`, from `i` on; the list has at most `size` nodes.
unfoldable pub find_prior : ℕ → SndLossList → ℕ → ℕ → Option ℕ
find_prior zero s q i = none
find_prior (suc fuel) s q i = elim (read s.next i) [
  | none ↦ some i
  | some n ↦
      let rest = find_prior fuel s q n in
      elim (read s.data1 n) [
        | none ↦ none
        | some f ↦ if ltb_ℤ (seqcmp f q) (pos 0) then rest else some i
      ]
]

-- The start of that search.
unfoldable pub search_start : SndLossList → ℕ → ℕ → Option ℕ
search_start s a h = elim s.last_insert_pos [
  | none ↦ some h
  | some p ↦ elim (read s.data1 p) [
    | none ↦ none
    | some f ↦ some (if ltb_ℤ (seqcmp f a) (pos 0) then p else h)
  ]
]

abbrev pub insert_node : SndLossList → ℕ → ℕ → ℕ → ℕ → SndLossList
insert_node s a b loc i = record s {
  last_insert_pos = some loc;
  data1 = set s.data1 loc (some a);
  data2 = set_end s.data2 loc a b;
  next = set (set s.next loc (read s.next i)) i (some loc);
  length = s.length + pos_part (seqlen a b);
}

-- The branches for an empty place `loc`, behind the node `i`.
unfoldable pub after_prior : SndLossList → ℕ → ℕ → ℕ → ℕ → Placed
after_prior s a b loc i =
    let here = record s { last_insert_pos = some i } in
    elim (read s.data2 i) [
      | none ↦ to_merge (insert_node s a b loc i) loc
      | some e ↦
          if ltb_ℤ (seqcmp e a) (pos 0)
          then to_merge (insert_node s a b loc i) loc
          else if ltb_ℤ (seqcmp e b) (pos 0)
          then to_merge (grow here i e b) i
          else settled here
    ]

abbrev pub is_node : Option ℕ → ℕ → Bool
is_node none i = false
is_node (some j) i = j == i

-- The branches by the offset of `a` from the head `h`, for the place `loc` of `a`.
unfoldable pub place : SndLossList → ℕ → ℕ → ℕ → ℕ → ℤ → Option Placed
place s a b h loc offset =
    if ltb_ℤ offset (pos 0)
    then some (to_merge (insert_before s a b h loc) loc)
    else if ltb_ℤ (pos 0) offset
    then (if is_node (read s.data1 loc) a
        then some (same_start (record s { last_insert_pos = some loc }) a b loc)
        else elim (search_start s a h) [
          | none ↦ none
          | some j ↦ elim (find_prior (suc s.size) s a j) [
            | none ↦ none
            | some i ↦ some (after_prior s a b loc i)
          ]
        ])
    else if b == a
    then some (settled (record s { last_insert_pos = some h }))
    else some (same_start (record s { last_insert_pos = some h }) a b loc)

-- The node `i`, with the run from `f` to `e'`, joins the node `loc`, whose run ends at `e`.
unfoldable pub absorb : SndLossList → ℕ → ℕ → ℕ → ℕ → SndLossList
absorb s loc e i f =
    let joined : SndLossList = elim (read s.data2 i) [
      | none ↦
          if f == incseq e
          then record s { data2 = set s.data2 loc (some f) }
          else (record s { length = s.length - 1 })
      | some e' ↦
          if ltb_ℤ (pos 0) (seqcmp e' e)
          then record s {
            length =
                if leb_ℤ (pos 0) (seqcmp e f) then s.length - pos_part (seqlen f e) else s.length;
            data2 = set s.data2 loc (some e');
          }
          else (record s { length = s.length - pos_part (seqlen f e') })
    ] in
    record joined {
      data1 = set joined.data1 i none;
      data2 = set joined.data2 i none;
      next = set joined.next loc (read joined.next i);
    }

-- The last loop of insert. A round takes a node out of the list.
unfoldable pub merge : ℕ → SndLossList → ℕ → Option SndLossList
merge zero s loc = none
merge (suc fuel) s loc = elim (read s.next loc) [
  | none ↦ some s
  | some i ↦ elim (read s.data2 loc) [
    | none ↦ some s
    | some e ↦ elim (read s.data1 i) [
      | none ↦ none
      | some f ↦
          let rest = merge fuel (absorb s loc e i f) loc in
          if leb_ℤ (seqcmp f (incseq e)) (pos 0) then rest else some s
    ]
  ]
]

-- What insert does with a placed run; `n` is the length before the call.
unfoldable pub finish : Placed → ℕ → Option (SndLossList × ℤ)
finish (settled s) n = some (s, pos 0)
finish (to_merge s loc) n = elim (merge (suc s.size) s loc) [
  | none ↦ none
  | some s' ↦ some (s', sub_ℕ (s'.length) n)
]

-- The number is what the call returns.
unfoldable pub insert : SndLossList → ℕ → ℕ → Option (SndLossList × ℤ)
insert s a b =
    if s.length == 0
    then some (insert_first s a b, pos (s.length + pos_part (seqlen a b)))
    else elim s.head [
      | none ↦ none
      | some h ↦ elim (read s.data1 h) [
        | none ↦ none
        | some f ↦ elim (slot_at (h + s.size) (seqoff f a) s.size) [
          | none ↦ none
          | some loc ↦ elim (place s a b h loc (seqoff f a)) [
            | none ↦ none
            | some p ↦ finish p s.length
          ]
        ]
      ]
    ]
