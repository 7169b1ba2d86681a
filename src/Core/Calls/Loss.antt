-- ===== src/Core/Calls/Loss.antt =====
-- CUDT::recvmsg (src/core.cpp): a message that a waiting thread reads as the connection is lost.
use udt_server.Base.{
  ℕ, suc, ◌<◌, ◌≡◌, refl, ap, ◌∙◌, Bool, true, false, not, Option, none, some, List, [], ◌∷◌, map,
  arith, ◌==◌, if◌then◌else◌,
}
use udt_server.Base.Int.{ℤ, pos, negsuc}
use udt_server.Base.Outcome.{returned, thrown}
use udt_server.RcvBuffer.{RcvBuffer}
use udt_server.RcvBuffer.Message.{read_msg, get_rcv_msg_num}
use udt_server.Core.Calls.{Endpoint, Reply, udt_of, udt_stream, throws, is_lost, is_connected}
use udt_server.Core.Calls.Receive.{
  Received, recvmsg, recvmsg_timed, recvmsg_untimed, recvmsg_blocking, take_message,
  with_rcv_buffer, check_input, no_input, or_throws, unconnected, or_else, message_end,
}

takes :
    (e : Endpoint) (len : ℕ) (b : RcvBuffer) (bytes : List ℕ) (n : ℕ)
    → read_msg (udt_of e).rcv_buffer len ≡ some (b, bytes, n)
    → take_message e len ≡ some (with_rcv_buffer e b, (bytes, n))
takes e len b bytes n msg =
    ap
      (λ o. elim o as (λ (_ : Option (RcvBuffer × List ℕ × ℕ)). Option (Endpoint × Received)) [
        | none ↦ none
        | some (b, bytes, n) ↦ some (with_rcv_buffer e b, (bytes, n))
      ])
      msg

checks :
    (e : Endpoint) (c : RcvBuffer) (k : ℕ)
    → get_rcv_msg_num (udt_of e).rcv_buffer ≡ some (c, k)
    → let f = with_rcv_buffer e c in check_input e ≡ some (if k == 0 then no_input f else f)
unfolding check_input
checks e c k more =
    ap
      (λ o. elim o as (λ (_ : Option (RcvBuffer × ℕ)). Option Endpoint) [
        | none ↦ none
        | some (b, n) ↦ let f = with_rcv_buffer e b in some (if n == 0 then no_input f else f)
      ])
      more

-- A thread that wakes throws for a lost connection, with what it has read.
wakes_lost :
    (e : Endpoint) (len : ℕ) (late : Bool) (ws : List (Endpoint × Bool)) (b : RcvBuffer)
    (bytes : List ℕ) (n : ℕ)
    → is_lost e ≡ true
    → read_msg (udt_of e).rcv_buffer len ≡ some (b, bytes, n)
    → recvmsg_timed len ((e, late) ∷ ws) ≡ some (with_rcv_buffer e b, thrown (pos 2) 1)
unfolding recvmsg_timed
wakes_lost e len late ws b bytes n lost msg =
    let looks = λ (f : Endpoint) (r : Received) (o : Option ℕ).
      elim o as (λ (_ : Option ℕ). Reply Received) [
        | some minor ↦ throws f 2 minor
        | none ↦ or_else f r (if late then message_end f r else recvmsg_timed len ws)
      ] in
    let reads = λ (o : Option (Endpoint × Received)).
      elim o as (λ (_ : Option (Endpoint × Received)). Reply Received) [
        | none ↦ none
        | some (f, r) ↦ looks f r (unconnected f)
      ] in
    let f = with_rcv_buffer e b in
    let cut : unconnected f ≡ some 1 =
      ap (λ c. if c then some 1 else if not (is_connected f) then some 2 else none) lost in
    ap reads (takes e len b bytes n msg) ∙ ap (looks f (bytes, n)) cut

waits :
    (e : Endpoint) (len ms : ℕ) (ws : List (Endpoint × Bool))
    → e.rcv_time_out ≡ pos ms
    → recvmsg_blocking e len ws ≡ recvmsg_timed len ws
unfolding recvmsg_blocking
waits e len ms ws limit =
    ap
      (λ z. elim z as (λ (_ : ℤ). Reply Received) [
        | negsuc n ↦ recvmsg_untimed e len (map (λ w. w.0) ws)
        | pos ms ↦ recvmsg_timed len ws
      ])
      limit

found_lost :
    (e : Endpoint) (len : ℕ) (b c : RcvBuffer) (bytes : List ℕ) (n k : ℕ)
    → (e.setup.sock_type == udt_stream) ≡ false
    → is_connected e ≡ true
    → (len == 0) ≡ false
    → is_lost e ≡ true
    → read_msg (udt_of e).rcv_buffer len ≡ some (b, bytes, suc n)
    → get_rcv_msg_num b ≡ some (c, k)
    → let f = with_rcv_buffer e c in
      recvmsg e len [] ≡ some (if k == 0 then no_input f else f, returned (bytes, suc n))
unfolding recvmsg
found_lost e len b c bytes n k kind there any lost msg more =
    let ends = λ (r : Received) (o : Option Endpoint).
      elim o as (λ (_ : Option Endpoint). Reply Received) [
        | none ↦ none
        | some f ↦ or_throws f r 2 1
      ] in
    let reads = λ (o : Option (Endpoint × Received)).
      elim o as (λ (_ : Option (Endpoint × Received)). Reply Received) [
        | none ↦ none
        | some (f, r) ↦ ends r (check_input f)
      ] in
    let begins : recvmsg e len [] ≡ reads (take_message e len) =
      simp (kind, there, any, lost) refl in
    begins
    ∙ (ap reads (takes e len b bytes (suc n) msg)
        ∙ ap (ends (bytes, suc n)) (checks (with_rcv_buffer e b) c k more))

-- A thread waits in recvmsg for a limited time. When it wakes, the connection is lost, and a message is
-- whole. The call takes the message out of the buffer and throws that the connection is broken: the
-- message is gone. The same call gives the message when it finds the connection lost at once.
pub recvmsg_loses :
    (e e' : Endpoint) (len ms : ℕ) (late : Bool) (ws : List (Endpoint × Bool)) (b c : RcvBuffer)
    (bytes : List ℕ) (n k : ℕ)
    → (e.setup.sock_type == udt_stream) ≡ false
    → is_connected e ≡ true
    → is_lost e ≡ false
    → (udt_of e).syn_recving ≡ true
    → e.rcv_time_out ≡ pos ms
    → 0 < len
    → (e'.setup.sock_type == udt_stream) ≡ false
    → is_connected e' ≡ true
    → is_lost e' ≡ true
    → read_msg (udt_of e').rcv_buffer len ≡ some (b, bytes, suc n)
    → get_rcv_msg_num b ≡ some (c, k)
    → (recvmsg e len ((e', late) ∷ ws) ≡ some (with_rcv_buffer e' b, thrown (pos 2) 1))
      × ((e'' : Endpoint) × (recvmsg e' len [] ≡ some (e'', returned (bytes, suc n))))
unfolding recvmsg
recvmsg_loses e e' len ms late ws b c bytes n k kind there usable blocking limit some_room kind'
      there' lost msg more =
    let any : (len == 0) ≡ false = ground arith in
    (
      simp (kind, there, any, usable, blocking)
          (waits e len ms ((e', late) ∷ ws) limit
            ∙ wakes_lost e' len late ws b bytes (suc n) lost msg),
      (_, found_lost e' len b c bytes n k kind' there' any lost msg more),
    )
