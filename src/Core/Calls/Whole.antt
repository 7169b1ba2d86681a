-- ===== src/Core/Calls/Whole.antt =====
-- CUDT::sendmsg (src/core.cpp): a message goes into the buffer whole, or not at all.
use udt_server.Base.{
  ℕ, ◌*◌, ◌≤◌, ◌≡◌, sym, subst, Bool, true, false, not, Option, none, some, List, arith, inl, inr,
  ltb, ◌==◌, if◌then◌else◌, length, Bool-cases,
}
use udt_server.Base.Int.{ℤ, pos}
use udt_server.Base.Outcome.{returned}
use udt_server.Core.{World}
use udt_server.Core.Calls.{
  Endpoint, Reply, udt_of, Wake, wait_while, unusable, throws, room, udt_stream, expiry,
}
use udt_server.Core.Calls.Send.{
  put_bytes, send_whole, sendmsg_blocking, sendmsg, no_room, delay_exp, send_waits,
}
use udt_server.Core.Calls.Limit.{
  Sound, AllSound, Keeps, KeepsWait, put_bytes-Sound, no_room-Sound, wait_while-Sound,
}

not-lt : {a b : ℕ} → ltb a b ≡ false → b ≤ a
not-lt h = ground arith

module _ (w : World) (memory : Bool) (bytes : List ℕ) (ttl : Option ℕ) (order : Bool) where
  send_whole-Sound : (e : Endpoint) → Sound e → Keeps (send_whole w memory e bytes ttl order)
  unfolding send_whole
  send_whole-Sound e v = elim (Bool-cases (ltb (room e) (length bytes))) [
    | inl b ↦
        subst (λ c. Keeps (if c then no_room e else put_bytes w memory e bytes ttl order)) (sym b)
          (no_room-Sound w memory e v)
    | inr b ↦
        subst (λ c. Keeps (if c then no_room e else put_bytes w memory e bytes ttl order)) (sym b)
          (put_bytes-Sound w memory e bytes ttl order v (not-lt b))
  ]

  sendmsg_blocking-Sound :
      (e : Endpoint) (ws : List Wake)
      → Sound e
      → AllSound ws
      → Keeps (sendmsg_blocking w memory e bytes ttl order ws)
  unfolding sendmsg_blocking
  sendmsg_blocking-Sound e ws v all =
      let test = send_waits (λ f. ltb (room f) (length bytes)) in
      let limit = expiry e.snd_time_out (w.time 0) in
      let awake = λ (f : Endpoint) (o : Option ℕ). elim o as (λ (_ : Option ℕ). Reply ℤ) [
        | some minor ↦ throws f 2 minor
        | none ↦ send_whole w memory f bytes ttl order
      ] in
      elim (wait_while test limit e (w.time 1) ws)
          as (λ o.
            KeepsWait o → Keeps (elim o [ none ↦ none | some e' ↦ awake e' (unusable e') ])) [
              | none ↦ λ k. tt
              | some e' ↦ λ k. elim (unusable e') as (λ o. Keeps (awake e' o)) [
                | some minor ↦ k
                | none ↦ send_whole-Sound e' k
              ]
            ]
        (wait_while-Sound w memory test limit e (w.time 1) ws v all)

  -- Whether a call of sendmsg returns or throws, it leaves the send buffer in order and within
  -- m_iSndBufSize blocks, if it was so before and other threads leave it so during the wait.
  pub sendmsg-Sound :
      (e : Endpoint) (ws : List Wake)
      → Sound e
      → AllSound ws
      → Keeps (sendmsg w memory e bytes ttl order ws)
  unfolding sendmsg
  sendmsg-Sound e ws v all =
      let e' = delay_exp w e in
      let v' : Sound e' = record { valid = v.valid; unit = v.unit; within = v.within } in
      let wait = λ (b : Bool).
        if b then throws e' 6 1 else sendmsg_blocking w memory e' bytes ttl order ws in
      let tight = λ (b : Bool).
        if b then send_whole w memory e' bytes ttl order else wait (not (udt_of e').syn_sending) in
      let large =
        λ (b : Bool). if b then throws e 5 12 else tight (not (ltb (room e') (length bytes))) in
      let empty = λ (b : Bool).
        if b
        then some (e, returned (pos 0))
        else large (ltb (e.snd_buf_size * (udt_of e).payload_size) (length bytes)) in
      let usable = λ (o : Option ℕ). elim o as (λ (_ : Option ℕ). Reply ℤ) [
        | some minor ↦ throws e 2 minor
        | none ↦ empty (length bytes == 0)
      ] in
      elim (e.setup.sock_type == udt_stream)
        as (λ b. Keeps (if b then throws e 5 9 else usable (unusable e))) [
          | true ↦ v
          | false ↦ elim (unusable e) as (λ o. Keeps (usable o)) [
            | some minor ↦ v
            | none ↦ elim (length bytes == 0) as (λ b. Keeps (empty b)) [
              | true ↦ v
              | false ↦
                  elim (ltb (e.snd_buf_size * (udt_of e).payload_size) (length bytes))
                    as (λ b. Keeps (large b)) [
                      | true ↦ v
                      | false ↦
                          elim (not (ltb (room e') (length bytes))) as (λ b. Keeps (tight b)) [
                            | true ↦ send_whole-Sound e' v'
                            | false ↦ elim (not (udt_of e').syn_sending) as (λ b. Keeps (wait b)) [
                              | true ↦ v'
                              | false ↦ sendmsg_blocking-Sound e' ws v' all
                            ]
                          ]
                    ]
            ]
          ]
        ]
