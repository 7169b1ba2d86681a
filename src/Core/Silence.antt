-- ===== src/Core/Silence.antt =====
-- CUDT::checkTimers (src/core.cpp): when the connection is given up.
use udt_server.Base.{
  ℕ, ◌*◌, ◌<◌, ◌≡◌, refl, sym, ap, ◌∙◌, subst, Bool, true, false, not, ◌&&◌, Option, none, some, [],
  ◌∷◌, inl, inr, arith, ltb, leb, ◌==◌, if◌then◌else◌, Bool-cases, Option-cases,
}
use mathlib.Core.Option.{none-ne-some, some-injective}
use udt_server.Base.Int.{pos, ltb_ℤ}
use udt_server.SeqNo.{seqcmp, incseq}
use udt_server.Packet.{Packet, create, pack}
use udt_server.SndBuffer.{get_curr_buf_size}
use udt_server.SndLossList.{insert}
use udt_server.Core.{World, Udt, send, cc_update, self_clock_interval}
use udt_server.Core.Times.{since, times_64, pattern, rtt_bound}
use udt_server.Core.SendCtrl.{
  send_ctrl, send_ack, send_full_ack, ack_sent, ack_number, acknowledge_up_to,
}
use udt_server.Core.Timers.{
  check_ack, later, is_ack_due, next_exp_time, is_dead, lose_all, expire, check_exp, check_timers,
}

-- What decides on the end of the connection.
abbrev pub Keeps : Udt → Udt → Type 0
Keeps u t =
    (t.broken ≡ u.broken)
    × (t.exp_count ≡ u.exp_count)
    × (t.last_rsp_time ≡ u.last_rsp_time)
    × (t.cpu_frequency ≡ u.cpu_frequency)

-- Of the result of a call, if there is one.
data IsKept (u : Udt) : Option Udt → Type 0 where
  absent : IsKept u none
  present : (t : Udt) → Keeps u t → IsKept u (some t)

module _ (u : Udt) where
  either : (b : Bool) (x y : Option Udt) → IsKept u x → IsKept u y → IsKept u (if b then x else y)
  either true x y h k = h
  either false x y h k = k

  send-IsKept : (v : Udt) (o : Option Packet) → Keeps u v → IsKept u (send v o)
  send-IsKept v none k = absent
  send-IsKept v (some p) k = present _ k

  ack_sent-IsKept :
      (w : World) (v : Udt) (seq : ℕ) (o : Option Udt) → IsKept u o → IsKept u (ack_sent w v seq o)
  ack_sent-IsKept w v seq none k = absent
  ack_sent-IsKept w v seq (some t) (present _ k) = present _ k

  send_full_ack-IsKept : (w : World) (v : Udt) → Keeps u v → IsKept u (send_full_ack w v)
  unfolding send_full_ack
  send_full_ack-IsKept w v k =
      either _ _ _ (ack_sent-IsKept w v _ _ (either _ _ _ (send-IsKept _ _ k) (send-IsKept v _ k)))
        (present v k)

  send_ack-IsKept : (w : World) (v : Udt) (size : ℕ) → Keeps u v → IsKept u (send_ack w v size)
  unfolding send_ack acknowledge_up_to
  send_ack-IsKept w v size k = elim (Option-cases (ack_number v)) [
    | inl e ↦ rw (send_ack, e) absent
    | inr (ack, e) ↦
        rw (send_ack, e)
          (either (ack == v.rcv_last_ack_ack) _ _ (present v k) (
            either (size == 4) _ _ (send-IsKept v (pack create 2 none (some (ack ∷ [])) 4) k) (
              either (ltb_ℤ (pos 0) (seqcmp ack v.rcv_last_ack)) _ _
                (send_full_ack-IsKept w (acknowledge_up_to v ack) k)
                (either (ack == v.rcv_last_ack) _ _
                  (either
                    (ltb (since (w.tsc 0) v.last_ack_time)
                      (times_64 (pattern 64 (rtt_bound v.rtt v.rtt_var)) v.cpu_frequency))
                    _ _ (present v k) (send_full_ack-IsKept w v k))
                  (present v k)))))
  ]

kept : (u t : Udt) → IsKept u (some t) → Keeps u t
kept u t (present _ k) = k

same : (u : Udt) → Keeps u u
same u = (refl, refl, refl, refl)

-- `currtime`, the last reading of the clock by then: sendCtrl takes two before it for an ACK that is due.
abbrev pub curr_time : World → Udt → ℕ
curr_time w u = if is_ack_due w u (w.tsc 0) then w.tsc 3 else w.tsc 0

read_when :
    (w : World) (u : Udt) (b : Bool)
    → is_ack_due w u (w.tsc 0) ≡ b
    → (if b then w.tsc 3 else w.tsc 0) ≡ curr_time w u
read_when w u b e = ap (λ c. if c then w.tsc 3 else w.tsc 0) (sym e)

abbrev IsKeptAt : World → Udt → Option (Udt × ℕ) → Type 0
IsKeptAt w u none = Unit
IsKeptAt w u (some (t, now)) = Keeps u t × (now ≡ curr_time w u)

check_ack-IsKeptAt : (w : World) (u : Udt) → IsKeptAt w u (check_ack w u)
unfolding check_ack send_ctrl
check_ack-IsKeptAt w u = elim (Bool-cases (is_ack_due w u (w.tsc 0))) [
  | inl due ↦ elim (Option-cases (send_ack (later w) u 0)) [
    | inl e ↦ rw (IsKeptAt, check_ack, due, e) tt
    | inr (s, e) ↦
        let k = kept u s (subst (IsKept u) e (send_ack-IsKept u (later w) u 0 (same u))) in
        rw (IsKeptAt, check_ack, due, e) (k, read_when w u true due)
  ]
  | inr not_due ↦ elim (Bool-cases (leb (self_clock_interval * u.light_ack_count) u.pkt_count)) [
    | inl light ↦ elim (Option-cases (send_ack (later w) u 4)) [
      | inl e ↦ rw (IsKeptAt, check_ack, not_due, light, e) tt
      | inr (s, e) ↦
          let k = kept u s (subst (IsKept u) e (send_ack-IsKept u (later w) u 4 (same u))) in
          rw (IsKeptAt, check_ack, not_due, light, e) (k, read_when w u false not_due)
    ]
    | inr none_due ↦
        rw (IsKeptAt, check_ack, not_due, none_due) (same u, read_when w u false not_due)
  ]
]

lose_all-IsKept : (u : Udt) → IsKept u (lose_all u)
unfolding lose_all
lose_all-IsKept u =
    either u (not (incseq u.snd_curr_seq_no == u.snd_last_ack) && u.snd_loss_list.length == 0) _ _
      (elim (Option-cases (insert u.snd_loss_list u.snd_last_ack u.snd_curr_seq_no)) [
        | inl e ↦ rw e absent
        | inr ((l, n), e) ↦ rw e (present _ (same u))
      ])
      (present u (same u))

expire-IsKept : (w : World) (u : Udt) → IsKept u (expire w u)
unfolding expire send_ctrl cc_update
expire-IsKept w u =
    either u (ltb 0 (get_curr_buf_size u.snd_buffer)) _ _
      (elim (Option-cases (lose_all u)) [
        | inl e ↦ rw e absent
        | inr (s, e) ↦
            let k = kept u s (subst (IsKept u) e (lose_all-IsKept u)) in rw e (present _ k)
      ])
      (send-IsKept u u (pack create 1 none none 0) (same u))

dead :
    (u : Udt) (now : ℕ)
    → is_dead u now ≡ true
    → (16 < u.exp_count) × (times_64 5000000 u.cpu_frequency < since now u.last_rsp_time)
dead u now h = ground arith

check_exp_patience :
    (w : World) (s t : Udt) (now : ℕ)
    → s.broken ≡ false
    → check_exp w s now ≡ some t
    → t.broken ≡ true
    → (16 < s.exp_count) × (times_64 5000000 s.cpu_frequency < since now s.last_rsp_time)
unfolding check_exp
check_exp_patience w s t now sound e given_up = elim (Bool-cases (ltb (next_exp_time w s) now)) [
  | inr early ↦
      let there : s.broken ≡ t.broken =
        ap (λ x. x.broken) (some-injective s t (rw (check_exp, early) at e)) in
      absurd cc
  | inl late ↦ elim (Bool-cases (is_dead s now)) [
    | inl d ↦ dead s now d
    | inr alive ↦ elim (Option-cases (expire w s)) [
      | inl fails ↦ absurd (none-ne-some t (rw (check_exp, late, alive, fails) at e))
      | inr (x, works) ↦
          let (b, _, _, _) = kept s x (subst (IsKept s) works (expire-IsKept w s)) in
          let there : x.broken ≡ t.broken =
            ap (λ y. y.broken) (some-injective _ t (rw (check_exp, late, alive, works) at e)) in
          absurd cc
    ]
  ]
]

-- The connection, which was not given up before, is given up by a call only where there were more
-- than 16 expirations in a row, and at `currtime`, the call's last reading of the clock, the peer's last
-- response was more than 5 seconds ago.
pub check_timers_patience :
    (w : World) (u t : Udt)
    → u.broken ≡ false
    → check_timers w u ≡ some t
    → t.broken ≡ true
    → (16 < u.exp_count)
      × (times_64 5000000 u.cpu_frequency < since (curr_time w (cc_update w u)) u.last_rsp_time)
unfolding check_timers cc_update
check_timers_patience w u t sound e given_up = elim (Option-cases (check_ack w (cc_update w u))) [
  | inl fails ↦ absurd (none-ne-some t (rw (check_timers, fails) at e))
  | inr ((s, now), works) ↦
      let ((b, count, rsp, freq), at) =
        subst (IsKeptAt w (cc_update w u)) works (check_ack-IsKeptAt w (cc_update w u)) in
      let e' : check_exp w s now ≡ some t = rw (check_timers, works) at e in
      let (many, long) = check_exp_patience w s t now (b ∙ sound) e' given_up in
      (
        subst (λ n. 16 < n) count many,
        subst (λ f. times_64 5000000 f < since (curr_time w (cc_update w u)) u.last_rsp_time) freq
            (subst (λ r. times_64 5000000 s.cpu_frequency < since (curr_time w (cc_update w u)) r)
              rsp
              (subst (λ n. times_64 5000000 s.cpu_frequency < since n s.last_rsp_time) at long)),
      )
]
