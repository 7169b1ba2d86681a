-- ===== src/SndLossList/Remove.antt =====
-- CSndLossList::remove and getLostSeq (src/list.cpp).
use udt_server.Base.{
  ℕ, zero, suc, ◌+◌, ◌-◌, ◌%◌, Bool, true, false, Option, none, some, ◌==◌, if◌then◌else◌, set,
}
use udt_server.Base.Int.{pos, pos_part, ltb_ℤ}
use udt_server.SeqNo.{seqcmp, seqlen, seqoff, incseq}
use udt_server.LossList.{Slots, read, slot_at}
use udt_server.SndLossList.{SndLossList, find_prior, is_node}

-- The node `loc` takes the rest, after `q`, of a run that ends at `e`.
abbrev pub rest_data1 : SndLossList → ℕ → ℕ → Slots
rest_data1 s q loc = set s.data1 loc (some (incseq q))

abbrev pub rest_data2 : SndLossList → ℕ → ℕ → ℕ → Slots
rest_data2 s q loc e =
    if ltb_ℤ (pos 0) (seqcmp e (incseq q)) then set s.data2 loc (some e) else s.data2

abbrev pub forget : Option ℕ → ℕ → Option ℕ
forget last h = if is_node last h then none else last

-- The branch for `q` the first number of the list, whose place is `loc`.
unfoldable pub remove_head : SndLossList → ℕ → ℕ → ℕ → SndLossList
remove_head s q h loc =
    let n = (loc + 1) % s.size in
    let common = record s { last_insert_pos = forget s.last_insert_pos h; length = s.length - 1 } in
    elim (read s.data2 h) [
      | none ↦ record common { data1 = set s.data1 h none; head = read s.next h }
      | some e ↦ record common {
        data1 = set (rest_data1 s q n) h none;
        data2 = set (rest_data2 s q n e) h none;
        next = set s.next n (read s.next h);
        head = some n;
      }
    ]

-- The branch for `q` the first number of the node `t`.
unfoldable pub remove_start : SndLossList → ℕ → ℕ → SndLossList
remove_start s q t =
    let n = (t + 1) % s.size in
    elim (read s.data2 t) [
      | none ↦ record s { head = read s.next t }
      | some e ↦ record s {
        data1 = rest_data1 s q n;
        data2 = set (rest_data2 s q n e) t none;
        next = set (set s.next n (read s.next t)) t (some n);
        head = some n;
      }
    ]

-- The branch for an empty place `loc`, behind the node `i`.
unfoldable pub remove_behind : SndLossList → ℕ → ℕ → ℕ → SndLossList
remove_behind s q loc i =
    let n = (loc + 1) % s.size in
    elim (read s.data2 i) [
      | none ↦ record s { head = read s.next i }
      | some e ↦
          if ltb_ℤ (pos 0) (seqcmp e q)
          then record s {
            data1 = rest_data1 s q n;
            data2 = set (rest_data2 s q n e) i (some q);
            next = set (set s.next n (read s.next i)) i (some n);
            head = some n;
          }
          else (record s { head = read s.next i })
    ]

-- A round of the last loop, at the node `h`.
unfoldable pub clear : SndLossList → ℕ → Option SndLossList
clear s h = elim (read s.data2 h) [
  | none ↦ some (record s {
    data1 = set s.data1 h none;
    last_insert_pos = forget s.last_insert_pos h;
    length = s.length - 1;
  })
  | some e ↦ elim (read s.data1 h) [
    | none ↦ none
    | some f ↦ some (record s {
      data1 = set s.data1 h none;
      data2 = set s.data2 h none;
      last_insert_pos = forget s.last_insert_pos h;
      length = s.length - pos_part (seqlen f e);
    })
  ]
]

abbrev pub same_link : Option ℕ → Option ℕ → Bool
same_link none none = true
same_link none (some j) = false
same_link (some i) l = is_node l i

-- The loop that clears the nodes before the new head; the list has at most `size` nodes.
unfoldable pub clear_all : ℕ → SndLossList → Option ℕ → Option SndLossList
clear_all zero s h = none
clear_all (suc fuel) s h = if same_link h s.head then some s else elim h [
  | none ↦ none
  | some i ↦ elim (clear s i) [ none ↦ none | some s' ↦ clear_all fuel s' (read s'.next i) ]
]

-- Removes the numbers up to `q`.
unfoldable pub remove : SndLossList → ℕ → Option SndLossList
remove s q = if s.length == 0 then some s else elim s.head [
  | none ↦ none
  | some h ↦ elim (read s.data1 h) [
    | none ↦ none
    | some f ↦
        let offset = seqoff f q in
        if ltb_ℤ offset (pos 0) then some s else elim (slot_at (h + s.size) offset s.size) [
          | none ↦ none
          | some loc ↦
              if ltb_ℤ (pos 0) offset
              then (if is_node (read s.data1 loc) q
                  then clear_all (suc s.size) (remove_start s q loc) (some h)
                  else elim (find_prior (suc s.size) s q h) [
                    | none ↦ none
                    | some i ↦ clear_all (suc s.size) (remove_behind s q loc i) (some h)
                  ])
              else some (remove_head s q h loc)
        ]
  ]
]

-- The first number `f` leaves the list with the head `h`.
unfoldable pub take_first : SndLossList → ℕ → ℕ → SndLossList
take_first s h f =
    let n = (h + 1) % s.size in
    let common = record s { last_insert_pos = forget s.last_insert_pos h; length = s.length - 1 } in
    elim (read s.data2 h) [
      | none ↦ record common { data1 = set s.data1 h none; head = read s.next h }
      | some e ↦ record common {
        data1 = set (rest_data1 s f n) h none;
        data2 = set (rest_data2 s f n e) h none;
        next = set s.next n (read s.next h);
        head = some n;
      }
    ]

-- The list after the call, and the returned number, -1 as `none`.
unfoldable pub get_lost_seq : SndLossList → Option (SndLossList × Option ℕ)
get_lost_seq s = if s.length == 0 then some (s, none) else elim s.head [
  | none ↦ none
  | some h ↦ elim (read s.data1 h) [ none ↦ none | some f ↦ some (take_first s h f, some f) ]
]
