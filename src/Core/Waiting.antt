-- ===== src/Core/Waiting.antt =====
-- The wait of CUDT::connect (src/core.cpp) for an answer.
use udt_server.Base.{
  ℕ, ◌-◌, ◌^◌, ◌≡◌, ◌≢◌, ◌⊎◌, ◌&&◌, not, ◌==◌, arith, inl, inr, refl, ap, Bool, true, false, ◌||◌,
  Option, none, some, List, [], ◌∷◌, ltb, if◌then◌else◌, Bool-cases,
}
use udt_server.Base.Int.{ℤ, pos, negsuc, leb_ℤ}
use udt_server.Base.Outcome.{Outcome, returned, thrown, terminated}
use udt_server.Packet.{Packet, get_flag, get_type}
use udt_server.HandShake.{HandShake, serialize, deserialize}
use udt_server.Core.{World, Udt, happened, sent, words}
use udt_server.Core.Times.{since}
use udt_server.Core.Connect.{Setup, Fresh}
use udt_server.Core.Connect.Answer.{connect_response, post_connect, negotiate, ask_again}
use udt_server.Core.Connect.Call.{Round, await, repeat_request, send_request, verdict}
use udt_server.Core.Agree.{shake_packet_lem, shake_in}

-- Whether a round ends after the deadline.
abbrev pub some_late : ℕ → List Round → Bool
some_late ttl [] = false
some_late ttl (r ∷ rs) = ltb ttl r.time_after || some_late ttl rs

send_request_lem :
    (u : Udt) (req : HandShake) (buf : List ℕ) (id : ℕ)
    → (u' : Udt) × (send_request u req buf id ≡ some u')
send_request_lem u req buf id =
    let out = serialize req buf u.payload_size in
    (
      happened u (sent (shake_in out.buf out.size id)),
      ap
          (λ (o : Option Packet). elim o [
            | none ↦ none
            | some p ↦ some (happened u (sent (record p { id = id })))
          ])
          (shake_packet_lem req buf u.payload_size),
    )

repeat_request_lem :
    (s : Setup) (buf : List ℕ) (r : Round) → (s' : Setup) × (repeat_request s buf r ≡ some s')
unfolding repeat_request
repeat_request_lem s buf r = elim (Bool-cases (ltb 250000 (since r.time s.last_req_time))) [
  | inl due ↦
      let (u, e) =
        send_request_lem s.udt s.conn_req buf (if s.udt.rendezvous then s.conn_res.id else 0) in
      (record s { udt = u; last_req_time = r.time }, rw due (rw e refl))
  | inr recent ↦ (s, rw recent refl)
]

-- How the wait may end: with a request that is not rejected, and in regular mode with an answer that has
-- the caller's initial sequence number; with an exception of connect; or with the program.
abbrev pub IsEnd : Outcome Setup → Type 0
IsEnd (returned s) =
    (s.conn_res.req_type ≢ 1002) × ((s.udt.rendezvous ≡ true) ⊎ (s.udt.isn ≡ s.conn_res.isn))
IsEnd (thrown major minor) =
    (major ≡ pos 1) × (((minor ≡ 0) ⊎ (minor ≡ 1)) ⊎ ((minor ≡ 2) ⊎ (minor ≡ 4)))
IsEnd terminated = Unit {0}

agreed : (r : Bool) (a b : ℕ) → (not r && not (a == b)) ≡ false → (r ≡ true) ⊎ (a ≡ b)
agreed true a b h = inl refl
agreed false a b h = inr (ground arith)

verdict-IsEnd : (s : Setup) (closing : Bool) → IsEnd (verdict s closing)
unfolding verdict
verdict-IsEnd s true = (refl, inl (inl refl))
verdict-IsEnd s false = elim (Bool-cases (s.conn_res.req_type == 1002)) [
  | inl e ↦ rw e (refl, inr (inl refl))
  | inr accepted ↦
      let not_1002 : s.conn_res.req_type ≢ 1002 = ground (arith, accepted) in
      rw accepted (elim (Bool-cases (not s.udt.rendezvous && not (s.udt.isn == s.conn_res.isn))) [
        | inl other ↦ rw other (refl, inr (inr refl))
        | inr same ↦ rw same (not_1002, agreed s.udt.rendezvous s.udt.isn s.conn_res.isn same)
      ])
]

-- An answer is taken or passed over, or ends the program.
data IsAnswer : Outcome (Setup × ℤ) → Type 0 where
  taken : (r : Setup × ℤ) → IsAnswer (returned r)
  ended : IsAnswer terminated

either :
    (b : Bool) (o o' : Outcome (Setup × ℤ))
    → IsAnswer o
    → IsAnswer o'
    → IsAnswer (if b then o else o')
either true o o' h h' = h
either false o o' h h' = h'

post_connect-IsAnswer :
    (w : World) (f : Fresh) (cached : Option (ℤ × ℤ)) (s : Setup)
    → IsAnswer (post_connect w f cached s)
unfolding post_connect
post_connect-IsAnswer w f cached s = either _ _ _ (taken _) ended

negotiate-IsAnswer :
    (w : World) (f : Fresh) (cached : Option (ℤ × ℤ)) (s : Setup)
    → IsAnswer (negotiate w f cached s)
unfolding negotiate
negotiate-IsAnswer w f cached s =
    let go_on = post_connect-IsAnswer w f cached s in
    let first = record s.conn_req { req_type = 2 ^ 32 - 1 } in
    let cookie = record first { cookie = s.conn_res.cookie } in
    let other =
      either (s.conn_req.req_type == 0 || s.conn_res.req_type == 0) (ask_again s first) _ (taken _)
        go_on in
    let is_request = s.conn_res.req_type == 1 in
    either s.udt.rendezvous _ _ (either is_request (returned (s, negsuc 0)) _ (taken _) other)
      (either is_request (ask_again s cookie) _ (taken _) go_on)

connect_response-IsAnswer :
    (w : World) (f : Fresh) (cached : Option (ℤ × ℤ)) (s : Setup) (p : Packet)
    → IsAnswer (connect_response w f cached s p)
unfolding connect_response
connect_response-IsAnswer w f cached s p =
    let refused = returned (s, negsuc 0) in
    let heard = record s { conn_res = (deserialize s.conn_res (words p.content) p.len).shake } in
    let known = (get_flag p == 0 || get_type p == 1) && not (s.conn_res.type == 0) in
    either (not s.connecting) refused _ (taken _) (
      either (s.udt.rendezvous && known) _ _ (post_connect-IsAnswer w f cached s) (
        either (not (get_flag p == 1) || not (get_type p == 0)) refused _ (taken _)
          (negotiate-IsAnswer w f cached heard)))

Outcome-cases :
    (o : Outcome (Setup × ℤ))
    → IsAnswer o
    → ((s : Setup) × (code : ℤ) × (o ≡ returned (s, code))) ⊎ (o ≡ terminated)
Outcome-cases (returned (s, code)) (taken _) = inl (s, code, refl)
Outcome-cases terminated ended = inr refl
Outcome-cases (thrown major minor) a = elim a [ ]

timeout : IsEnd (thrown (pos 1) 1)
timeout = (refl, inl (inr refl))

module _ (w : World) (ttl : ℕ) (buf : List ℕ) (rs : List Round) (f : Fresh)
    (cached : Option (ℤ × ℤ)) (t t' : ℕ) where
  abbrev round : Bool → Bool → Option Packet → Round
  round closing closing_after answer = record {
    closing = closing;
    closing_after = closing_after;
    answer = answer;
    time = t;
    time_after = t';
    fresh = f;
    cached = cached;
  }

  -- One round, where it is the last one or the wait goes on to an end.
  round_ends :
      (closing closing_after : Bool) (answer : Option Packet) (s : Setup)
      → ((ltb ttl t' ≡ false)
          → (s' : Setup) → (o : Outcome Setup) × (await w ttl buf rs s' ≡ some o) × IsEnd o)
      → (o : Outcome Setup) × (await w ttl buf (round closing closing_after answer ∷ rs) s ≡ some o)
        × IsEnd o
  unfolding await
  round_ends true closing_after answer s k = (verdict s true, refl, verdict-IsEnd s true)
  round_ends false closing_after none s k =
      let (s1, e) = repeat_request_lem s buf (round false closing_after none) in
      elim (Bool-cases (ltb ttl t')) [
        | inl late ↦ (thrown (pos 1) 1, rw (await, e, late) refl, timeout)
        | inr early ↦ let (o, rest, end) = k early s1 in (o, rw (await, e, early) rest, end)
      ]
  round_ends false closing_after (some p) s k =
      let (s1, e) = repeat_request_lem s buf (round false closing_after (some p)) in
      elim (Outcome-cases (connect_response w f cached s1 p)
        (connect_response-IsAnswer w f cached s1 p)) [
          | inr h ↦ (terminated, rw (await, e, h) refl, tt)
          | inl (s2, code, h) ↦ elim (Bool-cases (leb_ℤ code (pos 0))) [
            | inl done ↦ (
              verdict s2 closing_after,
              rw (await, e, h, done) refl,
              verdict-IsEnd s2 closing_after,
            )
            | inr more ↦ elim (Bool-cases (ltb ttl t')) [
              | inl late ↦ (thrown (pos 1) 1, rw (await, e, h, more, late) refl, timeout)
              | inr early ↦
                  let (o, rest, end) = k early (record s2 { last_req_time = 0 }) in
                  (o, rw (await, e, h, more, early) rest, end)
            ]
          ]
        ]

-- The wait of connect is over by the first round that ends after the deadline, whatever packets come.
-- It returns with a last answer that does not reject the request and, in regular mode, has the
-- caller's initial sequence number; or it throws (1, 0), (1, 1), (1, 2) or (1, 4); or an exception
-- within connect(const CPacket&) ends the program.
pub await_ends :
    (w : World) (ttl : ℕ) (buf : List ℕ) (rs : List Round) (s : Setup)
    → some_late ttl rs ≡ true
    → (o : Outcome Setup) × (await w ttl buf rs s ≡ some o) × IsEnd o
await_ends w ttl buf [] s h = cc
await_ends w ttl buf (r ∷ rs) s h =
    round_ends w ttl buf rs r.fresh r.cached r.time r.time_after r.closing r.closing_after r.answer
      s (λ early s'. await_ends w ttl buf rs s' (rw early at h))
