-- ===== src/Core/Timers.antt =====
-- CUDT::checkTimers (src/core.cpp): what a socket does when time has passed.
use udt_server.Base.{
  ℕ, ◌+◌, ◌*◌, Bool, true, ◌&&◌, ◌||◌, not, Option, none, some, ltb, leb, ◌==◌, if◌then◌else◌,
}
use udt_server.Base.Int.{pos, ◌+ℤ◌}
use udt_server.SeqNo.{incseq}
use udt_server.SndBuffer.{get_curr_buf_size}
use udt_server.SndLossList.{insert}
use udt_server.Core.{
  World, Udt, called, happened, cc_update, syn_interval, self_clock_interval, on_timeout,
  reschedule, release, epoll, trigger,
}
use udt_server.Core.Times.{since, plus_64, times_64, pattern, scale, rtt_bound}
use udt_server.Core.SendCtrl.{send_ctrl}

-- The clock as a method called after the first reading finds it.
abbrev pub later : World → World
later w = record w { tsc = λ i. w.tsc (i + 1) }

-- The ACK is due at `now`, by its timer or by the number of packets.
abbrev pub is_ack_due : World → Udt → ℕ → Bool
is_ack_due w u now =
    let pace = w.pace u.calls in
    ltb u.next_ack_time now || (ltb 0 pace.ack_interval && leb pace.ack_interval u.pkt_count)

-- The first half: ACKs. The second component is `currtime`.
unfoldable pub check_ack : World → Udt → Option (Udt × ℕ)
check_ack w u =
    if is_ack_due w u (w.tsc 0)
    then elim (send_ctrl (later w) u 2 none none 0) [
      | none ↦ none
      | some s ↦
          let period = (w.pace s.calls).ack_period in
          let wait = if ltb 0 period then times_64 period s.cpu_frequency else s.ack_int in
          some (
            record s { next_ack_time = plus_64 (w.tsc 3) wait; pkt_count = 0; light_ack_count = 1 },
            w.tsc 3,
          )
    ]
    else if leb (self_clock_interval * u.light_ack_count) u.pkt_count
    then elim (send_ctrl (later w) u 2 none none 4) [
      | none ↦ none
      | some s ↦ some (record s { light_ack_count = s.light_ack_count + 1 }, w.tsc 0)
    ]
    else some (u, w.tsc 0)

unfoldable pub next_exp_time : World → Udt → ℕ
next_exp_time w u = elim (w.pace u.calls).rto [
  | some rto ↦ plus_64 u.last_rsp_time (times_64 rto u.cpu_frequency)
  | none ↦
      let span = scale u.exp_count (rtt_bound u.rtt u.rtt_var) +ℤ pos syn_interval in
      let wait = times_64 (pattern 64 span) u.cpu_frequency in
      let least = times_64 u.exp_count u.min_exp_int in
      plus_64 u.last_rsp_time (if ltb wait least then least else wait)
]

-- Whether the peer has been silent for so long that the connection is given up.
abbrev pub is_dead : Udt → ℕ → Bool
is_dead u now =
    ltb 16 u.exp_count && ltb (times_64 5000000 u.cpu_frequency) (since now u.last_rsp_time)

-- The three events of an epoll are UDT_EPOLL_IN, _OUT and _ERR.
unfoldable pub give_up : Udt → Udt
give_up u =
    record (happened (happened (happened (happened u (reschedule true)) release) (epoll 13))
      trigger) { closing = true; broken = true; broken_counter = 30 }

-- All packets sent and not acknowledged count as lost, if none does already.
unfoldable pub lose_all : Udt → Option Udt
lose_all u =
    if not (incseq u.snd_curr_seq_no == u.snd_last_ack) && u.snd_loss_list.length == 0
    then elim (insert u.snd_loss_list u.snd_last_ack u.snd_curr_seq_no) [
      | none ↦ none
      | some (l, num) ↦
          some (record u { snd_loss_list = l; snd_loss_total = u.snd_loss_total +ℤ num })
    ]
    else some u

-- The timer has expired: the sender starts again, the receiver sends a keep-alive packet.
unfoldable pub expire : World → Udt → Option Udt
expire w u =
    if ltb 0 (get_curr_buf_size u.snd_buffer)
    then elim (lose_all u) [
      | none ↦ none
      | some s ↦ some (happened (cc_update w (called s on_timeout)) (reschedule true))
    ]
    else send_ctrl w u 1 none none 0

-- The second half, at `now`.
unfoldable pub check_exp : World → Udt → ℕ → Option Udt
check_exp w u now =
    if ltb (next_exp_time w u) now
    then (if is_dead u now then some (give_up u) else elim (expire w u) [
      | none ↦ none
      | some s ↦ some (record s { exp_count = s.exp_count + 1; last_rsp_time = now })
    ])
    else some u

unfoldable pub check_timers : World → Udt → Option Udt
check_timers w u = elim (check_ack w (cc_update w u)) [
  | none ↦ none
  | some (s, now) ↦ check_exp w s now
]
