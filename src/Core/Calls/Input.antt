-- ===== src/Core/Calls/Input.antt =====
-- CUDT::recv (src/core.cpp): which bytes an application gets.
use udt_server.Base.{
  ℕ, zero, suc, ◌<◌, ◌≡◌, refl, sym, ap, subst, ◌∙◌, Bool, true, false, not, ◌&&◌, Option, none,
  some, List, [], arith, inl, inr, ◌==◌, ==_iff, if◌then◌else◌, length, take, drop, Bool-cases,
  length-take, drop-nil,
}
use udt_server.Base.Outcome.{returned}
use udt_server.RcvBuffer.{RcvBuffer, read_buffer, get_rcv_data_size}
use udt_server.RcvBuffer.Stream.{stream, slots, IsValid}
use udt_server.RcvBuffer.Read.{read_buffer_lem}
use udt_server.Core.{World}
use udt_server.Core.Calls.{
  Endpoint, Reply, udt_of, udt_dgram, Wake, wait_data, expiry, throws, is_lost, is_connected,
}
use udt_server.Core.Calls.Receive.{
  Received, recv, recv_awake, is_drained, with_rcv_buffer, no_input, timed, unreadable, recv_waits,
}

-- The bytes that wait to be read.
abbrev pub incoming : Endpoint → List ℕ
incoming e = stream (udt_of e).rcv_buffer

-- Where bytes wait, there are packets that wait.
undrained : (e : Endpoint) → 0 < length (incoming e) → is_drained e ≡ false
undrained e some_bytes =
    let b = (udt_of e).rcv_buffer in
    elim (Bool-cases (is_drained e)) [
      | inl empty ↦
          let size = (==_iff (get_rcv_data_size b) 0).0 empty in
          absurd (
            omega (
              arith,
              some_bytes,
              ap (λ n. length (drop b.notch (slots b b.start_pos n))) size,
              ap (length {A = ℕ}) (drop-nil {A = ℕ} b.notch),
            ))
      | inr not_empty ↦ not_empty
    ]

abbrev Gives : Endpoint → RcvBuffer → Received → Reply Received → Type 0
Gives e b r s = (e' : Endpoint) × (s ≡ some (e', returned r)) × ((udt_of e').rcv_buffer ≡ b)

timed-Gives :
    (e : Endpoint) (b : RcvBuffer) (bytes : List ℕ) (n : ℕ)
    → 0 < n
    → (udt_of e).rcv_buffer ≡ b
    → Gives e b (bytes, n) (timed e (bytes, n))
timed-Gives e b bytes zero some_bytes same = absurd (omega arith)
timed-Gives e b bytes (suc n) some_bytes same = (e, refl, same)

readable : (e : Endpoint) → is_connected e ≡ true → is_drained e ≡ false → unreadable e ≡ none
readable e there wet =
    let lost : Bool → Bool → Option ℕ = λ l b. if l && b then some 1 else none in
    ap (λ b. if not b then some 2 else lost (is_lost e) (is_drained e)) there
    ∙ ap (lost (is_lost e)) wet
    ∙ (elim (is_lost e) as (λ l. lost l false ≡ none) [ true ↦ refl | false ↦ refl ])

-- What the call leaves of the events has no effect on the buffer.
answer-Gives :
    (e : Endpoint) (b : RcvBuffer) (bytes : List ℕ) (n : ℕ)
    → 0 < n
    → let f = with_rcv_buffer e b in
      Gives e b (bytes, n) (timed (if is_drained f then no_input f else f) (bytes, n))
answer-Gives e b bytes n some_bytes =
    let f = with_rcv_buffer e b in
    elim (is_drained f)
      as (λ (c : Bool). Gives e b (bytes, n) (timed (if c then no_input f else f) (bytes, n))) [
        | true ↦ timed-Gives (no_input f) b bytes n some_bytes refl
        | false ↦ timed-Gives f b bytes n some_bytes refl
      ]

abbrev Delivers : Endpoint → ℕ → Reply Received → Type 0
Delivers e len s =
    (e' : Endpoint) × (s
      ≡ some (e', returned (take len (incoming e), length (take len (incoming e)))))
    × (incoming e' ≡ drop len (incoming e))
    × IsValid (udt_of e').rcv_buffer

recv_awake_lem :
    (e : Endpoint) (len : ℕ)
    → IsValid (udt_of e).rcv_buffer
    → is_connected e ≡ true
    → 0 < len
    → 0 < length (incoming e)
    → Delivers e len (recv_awake e len)
unfolding recv_awake
recv_awake_lem e len v there some_room some_bytes =
    let (b, bytes, n, read, same, count, rest, valid) =
      read_buffer_lem (udt_of e).rcv_buffer len v in
    let went : 0 < n =
      omega (arith, some_room, some_bytes, count, ap length same, length-take len (incoming e)) in
    let (e', gave, left) = answer-Gives e b bytes n went in
    let reads = λ (o : Option (RcvBuffer × List ℕ × ℕ)).
      elim o as (λ (_ : Option (RcvBuffer × List ℕ × ℕ)). Reply Received) [
        | none ↦ none
        | some (b, bytes, n) ↦
            let f = with_rcv_buffer e b in timed (if is_drained f then no_input f else f) (bytes, n)
      ] in
    let starts = λ (o : Option ℕ). elim o as (λ (_ : Option ℕ). Reply Received) [
      | some minor ↦ throws e 2 minor
      | none ↦ reads (read_buffer (udt_of e).rcv_buffer len)
    ] in
    (
      e',
      ap starts (readable e there (undrained e some_bytes))
          ∙ ap reads read
          ∙ gave
          ∙ ap (λ k. some (e', returned (bytes, k))) count
          ∙ ap (λ bs. some (e', returned (bs, length bs))) same,
      ap stream left ∙ rest,
      subst IsValid (sym left) valid,
    )

-- Where bytes wait to be read, a call of recv on a connected stream socket, also one whose connection
-- is lost by now, gives as many off their front as fit, with their number, and leaves the others.
pub recv_lem :
    (w : World) (e : Endpoint) (len : ℕ) (ws : List Wake)
    → IsValid (udt_of e).rcv_buffer
    → (e.setup.sock_type == udt_dgram) ≡ false
    → is_connected e ≡ true
    → 0 < len
    → 0 < length (incoming e)
    → (e' : Endpoint) × (recv w e len ws
        ≡ some (e', returned (take len (incoming e), length (take len (incoming e)))))
      × (incoming e' ≡ drop len (incoming e))
      × IsValid (udt_of e').rcv_buffer
unfolding recv
recv_lem w e len ws v kind there some_room some_bytes =
    let wet = undrained e some_bytes in
    let any : (len == 0) ≡ false = ground arith in
    let (e', gave, left, valid) = recv_awake_lem e len v there some_room some_bytes in
    let late =
      elim (wait_data recv_waits (expiry e.rcv_time_out (w.time 0)) e ws)
        as (λ (_ : Option Endpoint). Reply Received) [ none ↦ none | some f ↦ recv_awake f len ] in
    let goes = λ (b : Bool).
      if not b
      then recv_awake e len
      else if not (udt_of e).syn_recving
      then throws e 6 2
      else late in
    let empty = λ (b : Bool). if b then some (e, returned ([], 0)) else goes (is_drained e) in
    let starts = λ (o : Option ℕ). elim o as (λ (_ : Option ℕ). Reply Received) [
      | some minor ↦ throws e 2 minor
      | none ↦ empty (len == 0)
    ] in
    (
      e',
      ap (λ (b : Bool). if b then throws e 5 10 else starts (unreadable e)) kind
          ∙ ap starts (readable e there wet)
          ∙ ap empty any
          ∙ ap goes wet
          ∙ gave,
      left,
      valid,
    )
