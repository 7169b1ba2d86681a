-- ===== src/Core/Calls/Send.antt =====
-- CUDT::send and CUDT::sendmsg of src/core.cpp. `memory` tells whether new memory is to be had.
use udt_server.Base.{
  ℕ, ◌*◌, Bool, true, false, ◌&&◌, not, Option, none, some, List, ltb, ◌==◌, if◌then◌else◌, length,
  take,
}
use udt_server.Base.Int.{ℤ, pos, negsuc}
use udt_server.Base.Outcome.{returned}
use udt_server.SndBuffer.{SndBuffer, add_buffer}
use udt_server.Core.{World, happened, reschedule, epoll_off}
use udt_server.Core.Calls.{
  Endpoint, Reply, udt_stream, udt_dgram, udt_of, with_udt, is_connected, Wake, expiry, wait_while,
  unusable, throws, buffered, is_full, room,
}

-- With nothing to send so far, the EXP timer starts anew.
abbrev pub delay_exp : World → Endpoint → Endpoint
delay_exp w e = with_udt e (record (udt_of e) {
  last_rsp_time = if buffered e == 0 then w.tsc 0 else (udt_of e).last_rsp_time;
})

-- The test of the loop: the socket is in order, and `short` of room.
abbrev pub send_waits : (Endpoint → Bool) → Endpoint → Bool
send_waits short e = not (udt_of e).broken && is_connected e && not (udt_of e).closing && short e

-- The time that is spent with sending starts when there is nothing to send.
abbrev pub counted : World → Endpoint → Endpoint
counted w e = with_udt e (record (udt_of e) {
  snd_duration_counter = if buffered e == 0 then w.time 1 else (udt_of e).snd_duration_counter;
})

-- After addBuffer, which throws where there is no memory: the socket goes into the schedule, and a full
-- buffer is no more writable.
unfoldable pub after_add : Endpoint → ℕ → Option SndBuffer → Reply ℤ
after_add e len none = throws e 3 2
after_add e len (some b) =
    let added = with_udt e (happened (record (udt_of e) { snd_buffer = b }) (reschedule false)) in
    some (
      if is_full added then with_udt added (happened (udt_of added) (epoll_off 4)) else added,
      returned (pos len),
    )

unfoldable pub put_bytes : World → Bool → Endpoint → List ℕ → Option ℕ → Bool → Reply ℤ
put_bytes w memory e bytes ttl order =
    after_add (counted w e) (length bytes)
      (add_buffer (udt_of e).snd_buffer memory bytes ttl order (w.time 2))

-- Nothing is sent when the time is over.
abbrev pub no_room : Endpoint → Reply ℤ
no_room e = elim e.snd_time_out [ pos ms ↦ throws e 6 3 | negsuc n ↦ some (e, returned (pos 0)) ]

-- send after its wait.
unfoldable pub send_some : World → Bool → Endpoint → List ℕ → Reply ℤ
send_some w memory e bytes =
    if is_full e
    then no_room e
    else put_bytes w memory e
        (take (if ltb (length bytes) (room e) then length bytes else room e) bytes) none false

-- send when its wait is over, with the tests of the socket's state.
unfoldable pub send_awake : World → Bool → Endpoint → List ℕ → Reply ℤ
send_awake w memory e bytes = elim (unusable e) [
  | some minor ↦ throws e 2 minor
  | none ↦
      if (udt_of e).peer_health
      then send_some w memory e bytes
      else throws (with_udt e (record (udt_of e) { peer_health = true })) 7 0
]

unfoldable pub send_blocking : World → Bool → Endpoint → List ℕ → List Wake → Reply ℤ
send_blocking w memory e bytes ws =
    elim (wait_while (λ f. send_waits is_full f && (udt_of f).peer_health)
      (expiry e.snd_time_out (w.time 0)) e (w.time 1) ws) [
        | none ↦ none
        | some e' ↦ send_awake w memory e' bytes
      ]

unfoldable pub send : World → Bool → Endpoint → List ℕ → List Wake → Reply ℤ
send w memory e bytes ws =
    if e.setup.sock_type == udt_dgram then throws e 5 10 else elim (unusable e) [
      | some minor ↦ throws e 2 minor
      | none ↦
          if length bytes == 0
          then some (e, returned (pos 0))
          else (let e' = delay_exp w e in
              if not (is_full e')
              then send_some w memory e' bytes
              else if not (udt_of e').syn_sending
              then throws e' 6 1
              else send_blocking w memory e' bytes ws)
    ]

-- sendmsg after its wait: all of the message, or nothing.
unfoldable pub send_whole : World → Bool → Endpoint → List ℕ → Option ℕ → Bool → Reply ℤ
send_whole w memory e bytes ttl order =
    if ltb (room e) (length bytes) then no_room e else put_bytes w memory e bytes ttl order

unfoldable pub sendmsg_blocking :
    World → Bool → Endpoint → List ℕ → Option ℕ → Bool → List Wake → Reply ℤ
sendmsg_blocking w memory e bytes ttl order ws =
    elim (wait_while (send_waits (λ f. ltb (room f) (length bytes)))
      (expiry e.snd_time_out (w.time 0)) e (w.time 1) ws) [
        | none ↦ none
        | some e' ↦ elim (unusable e') [
          | some minor ↦ throws e' 2 minor
          | none ↦ send_whole w memory e' bytes ttl order
        ]
      ]

unfoldable pub sendmsg : World → Bool → Endpoint → List ℕ → Option ℕ → Bool → List Wake → Reply ℤ
sendmsg w memory e bytes ttl order ws =
    if e.setup.sock_type == udt_stream then throws e 5 9 else elim (unusable e) [
      | some minor ↦ throws e 2 minor
      | none ↦
          if length bytes == 0
          then some (e, returned (pos 0))
          else if ltb (e.snd_buf_size * (udt_of e).payload_size) (length bytes)
          then throws e 5 12
          else (let e' = delay_exp w e in
              if not (ltb (room e') (length bytes))
              then send_whole w memory e' bytes ttl order
              else if not (udt_of e').syn_sending
              then throws e' 6 1
              else sendmsg_blocking w memory e' bytes ttl order ws)
    ]
