-- ===== src/RcvBuffer/Message.antt =====
-- CRcvBuffer::scanMsg, readMsg, getRcvMsgNum and readBufferToFile (src/buffer.cpp): the receive buffer
-- of a socket that delivers messages, and the reading into a file.
use udt_server.Base.{
  ℕ, zero, suc, ◌+◌, ◌-◌, ◌/◌, ◌%◌, ◌^◌, Bool, true, false, ◌||◌, ◌&&◌, not, Option, none, some,
  List, [], ◌++◌, ltb, ◌==◌, if◌then◌else◌, length, get_or, take, drop,
}
use udt_server.RcvBuffer.{
  RcvBuffer, Reading, next, release, set_flag, prepend, chunk_size, after_chunk, after_pos,
  get_rcv_data_size,
}

-- CPacket::getMsgBoundary and getMsgOrderFlag of a unit's packet.
abbrev pub boundary : RcvBuffer → ℕ → ℕ
boundary b u = b.msg_no u / 2 ^ 30

abbrev pub is_ordered : RcvBuffer → ℕ → Bool
is_ordered b u = b.msg_no u / 2 ^ 29 % 2 == 1

-- The last packet of a message, or the only one.
abbrev pub is_end : RcvBuffer → ℕ → Bool
is_end b u = boundary b u == 1 || boundary b u == 3

-- The loop that looks ahead for the whole message: `good`. A round moves `i` on.
unfoldable pub look_ahead : ℕ → RcvBuffer → ℕ → Option Bool
look_ahead zero b i = none
look_ahead (suc fuel) b i = elim (i == b.last_ack_pos) [
  | true ↦ some true
  | false ↦ elim (get_or b.unit i none) [
    | none ↦ some false
    | some u ↦ elim (b.flag u == 1) [
      | false ↦ some false
      | true ↦ elim (is_end b u) [ true ↦ some true | false ↦ look_ahead fuel b (next b.size i) ]
    ]
  ]
]

abbrev pub moved_on : RcvBuffer → RcvBuffer
moved_on b = record b { start_pos = next b.size b.start_pos }

-- The loop that skips all bad messages at the beginning. A round moves m_iStartPos on.
unfoldable pub skip_bad : ℕ → RcvBuffer → Option RcvBuffer
skip_bad zero b = none
skip_bad (suc fuel) b = elim (b.start_pos == b.last_ack_pos) [
  | true ↦ some b
  | false ↦ elim (get_or b.unit b.start_pos none) [
    | none ↦ skip_bad fuel (moved_on b)
    | some u ↦
        elim (if b.flag u == 1 && ltb 1 (boundary b u)
          then look_ahead (suc b.size) b b.start_pos
          else some false) [
            | none ↦ none
            | some true ↦ some b
            | some false ↦ skip_bad fuel (moved_on (release b b.start_pos u))
          ]
  ]
]

-- The place of a message, from `p` to `q`.
pub record Found : Type 0 where
  pub p : ℕ
  pub q : ℕ
  pub passack : Bool

-- What a round of the search makes of `p` at the slot `q`, and whether a message ends there.
unfoldable pub head_at : RcvBuffer → Option ℕ → ℕ → Option ℕ × Bool
head_at b p q = elim (get_or b.unit q none) [
  | none ↦ (none, false)
  | some u ↦
      if b.flag u == 1
      then (if boundary b u == 3
          then (some q, true)
          else if boundary b u == 2
          then (some q, false)
          else if boundary b u == 1
          then elim p [ none ↦ (none, false) | some a ↦ (some a, true) ]
          else (p, false))
      else (none, false)
]

-- A message that ends at `q` can be read in order, or as soon as it is whole.
abbrev pub is_readable : RcvBuffer → ℕ → Bool → Bool
is_readable b q passack =
    not passack || elim (get_or b.unit q none) [ none ↦ false | some u ↦ not (is_ordered b u) ]

-- The search for the first message. At its end, a message that fills the whole buffer is taken.
unfoldable pub search_msg : ℕ → RcvBuffer → Option ℕ → ℕ → Bool → Option Found
search_msg zero b none q passack = none
search_msg zero b (some p) q passack =
    if (q + 1) % b.size == p then some (record { p = p; q = q; passack = passack }) else none
search_msg (suc rounds) b p q passack =
    let (p', ends) = head_at b p q in
    let q' = next b.size q in
    elim (ends && is_readable b q passack) [
      | true ↦ elim p' [ none ↦ none | some a ↦ some (record { p = a; q = q; passack = passack }) ]
      | false ↦ search_msg rounds b p' q' (passack || q' == b.last_ack_pos)
    ]

-- The buffer without the bad messages, and the message found.
unfoldable pub scan_msg : RcvBuffer → Option (RcvBuffer × Option Found)
scan_msg b =
    if b.start_pos == b.last_ack_pos && b.max_pos == 0
    then some (b, none)
    else elim (skip_bad (suc b.size) b) [
      | none ↦ none
      | some c ↦ some (
        c,
        search_msg (suc (c.max_pos + get_rcv_data_size c)) c none c.start_pos
            (c.start_pos == c.last_ack_pos),
      )
    ]

unfoldable pub get_rcv_msg_num : RcvBuffer → Option (RcvBuffer × ℕ)
get_rcv_msg_num b = elim (scan_msg b) [
  | none ↦ none
  | some (c, none) ↦ some (c, 0)
  | some (c, some f) ↦ some (c, 1)
]

-- A packet of the message is done with: its unit goes back, or is marked as read.
abbrev pub msg_packet_read : RcvBuffer → ℕ → ℕ → Bool → RcvBuffer
msg_packet_read b p u false = release b p u
msg_packet_read b p u true = record b { flag = set_flag b.flag u 2 }

-- The loop over the packets of a message, up to but not including `stop`.
unfoldable pub msg_loop : ℕ → RcvBuffer → ℕ → ℕ → Bool → ℕ → Option Reading
msg_loop zero b p stop passack rs = none
msg_loop (suc fuel) b p stop passack rs = elim (p == stop) [
  | true ↦ some (record { buffer = b; p = p; bytes = []; rs = rs })
  | false ↦ elim (get_or b.unit p none) [
    | none ↦ none
    | some u ↦
        let n = chunk_size (length (b.payload u)) rs in
        prepend (take n (b.payload u))
          (msg_loop fuel (msg_packet_read b p u passack) (next b.size p) stop passack (rs - n))
  ]
]

-- As read_buffer, for one message.
unfoldable pub read_msg : RcvBuffer → ℕ → Option (RcvBuffer × List ℕ × ℕ)
read_msg b len = elim (scan_msg b) [
  | none ↦ none
  | some (c, none) ↦ some (c, [], 0)
  | some (c, some f) ↦
      let stop = (f.q + 1) % c.size in
      elim (msg_loop (suc c.size) c f.p stop f.passack len) [
        | none ↦ none
        | some r ↦ some (
          record r.buffer { start_pos = if f.passack then r.buffer.start_pos else stop },
          r.bytes,
          len - r.rs,
        )
      ]
]

-- The loop of readBufferToFile; `fails` says of what is written so far whether the stream then
-- fails. A chunk that makes it fail is written all the same, but stays in the buffer.
unfoldable pub file_loop : ℕ → (List ℕ → Bool) → List ℕ → RcvBuffer → ℕ → ℕ → Option Reading
file_loop zero fails out b p rs = none
file_loop (suc fuel) fails out b p rs = elim (p == b.last_ack_pos || rs == 0) [
  | true ↦ some (record { buffer = b; p = p; bytes = out; rs = rs })
  | false ↦ elim (get_or b.unit p none) [
    | none ↦ none
    | some u ↦
        let n = chunk_size (length (b.payload u) - b.notch) rs in
        let out' = out ++ take n (drop b.notch (b.payload u)) in
        elim (fails out') [
          | true ↦ some (record { buffer = b; p = p; bytes = out'; rs = rs })
          | false ↦ file_loop fuel fails out' (after_chunk b p u rs) (after_pos b p u rs) (rs - n)
        ]
  ]
]

-- The buffer, what the file has got, and the returned length.
unfoldable pub read_buffer_to_file :
    RcvBuffer → (List ℕ → Bool) → ℕ → Option (RcvBuffer × List ℕ × ℕ)
read_buffer_to_file b fails len = elim (file_loop (suc b.size) fails [] b b.start_pos len) [
  | none ↦ none
  | some r ↦ some (record r.buffer { start_pos = r.p }, r.bytes, len - r.rs)
]
