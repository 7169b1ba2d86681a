-- ===== src/Core/Rendezvous.antt =====
-- CUDT::connect (src/core.cpp) in rendezvous mode, when the peer connects in the regular way.
use udt_server.Base.{
  ℕ, ◌-◌, ◌^◌, ◌≡◌, refl, ap, ap₂, ◌∙◌, true, false, ◌&&◌, ◌||◌, not, Option, some, List, ◌∷◌, ◌==◌,
  ltb, if◌then◌else◌,
}
use udt_server.Base.Int.{ℤ, pos, negsuc}
use udt_server.Base.Outcome.{Outcome, returned, thrown}
use udt_server.Packet.{Packet, get_flag, get_type}
use udt_server.HandShake.{HandShake, deserialize}
use udt_server.Core.{World, words}
use udt_server.Core.Times.{since}
use udt_server.Core.Connect.{Setup, Fresh}
use udt_server.Core.Connect.Answer.{connect_response, negotiate, post_connect, ask_again}
use udt_server.Core.Connect.Call.{Round, await, repeat_request, verdict}

module _ (w : World) (f : Fresh) (cached : Option (ℤ × ℤ)) (c : Setup) (res : HandShake)
    (p : Packet) (asked : c.connecting ≡ true) (rendezvous : c.udt.rendezvous ≡ true)
    (flag : get_flag p ≡ 1) (type : get_type p ≡ 0)
    (read : (deserialize c.conn_res (words p.content) p.len).shake ≡ res)
    (regular : (res.req_type == 1) ≡ true) where
  abbrev heard_from : Setup
  heard_from = record c { conn_res = res }

  negotiate_refuses : negotiate w f cached heard_from ≡ returned (heard_from, negsuc 0)
  unfolding negotiate
  negotiate_refuses =
      let again = ask_again heard_from (record c.conn_req { req_type = 2 ^ 32 - 1 }) in
      let cookie =
        ask_again heard_from (record c.conn_req { req_type = 2 ^ 32 - 1; cookie = res.cookie }) in
      let go_on = post_connect w f cached heard_from in
      let others = if c.conn_req.req_type == 0 || res.req_type == 0 then again else go_on in
      ap
        (λ b.
          if b
          then (if res.req_type == 1 then returned (heard_from, negsuc 0) else others)
          else if res.req_type == 1
          then cookie
          else go_on)
        rendezvous
      ∙ ap (λ b. if b then returned (heard_from, negsuc 0) else others) regular

  connect_response_refuses : connect_response w f cached c p ≡ returned (heard_from, negsuc 0)
  unfolding connect_response
  connect_response_refuses =
      let give_up : Outcome (Setup × ℤ) = returned (c, negsuc 0) in
      let go_on = λ (r : HandShake). negotiate w f cached (record c { conn_res = r }) in
      let heard = go_on (deserialize c.conn_res (words p.content) p.len).shake in
      let known = λ (a b : ℕ). (a == 0 || b == 1) && not (c.conn_res.type == 0) in
      let recorded = post_connect w f cached c in
      let wrong = λ (a b : ℕ). not (a == 1) || not (b == 0) in
      ap
        (λ b.
          if not b
          then give_up
          else if c.udt.rendezvous && known (get_flag p) (get_type p)
          then recorded
          else if wrong (get_flag p) (get_type p)
          then give_up
          else heard)
        asked
      ∙ ap
          (λ b.
            if b && known (get_flag p) (get_type p)
            then recorded
            else if wrong (get_flag p) (get_type p)
            then give_up
            else heard)
          rendezvous
      ∙ ap₂ (λ a b. if known a b then recorded else if wrong a b then give_up else heard) flag type
      ∙ ap go_on read
      ∙ negotiate_refuses

-- A round with an answer, while the socket is not being closed.
abbrev answered : Packet → ℕ → ℕ → Fresh → Option (ℤ × ℤ) → Round
answered p t t' f cached = record {
  closing = false;
  closing_after = false;
  answer = some p;
  time = t;
  time_after = t';
  fresh = f;
  cached = cached;
}

await_refused :
    (w : World) (ttl t t' : ℕ) (buf : List ℕ) (rs : List Round) (f : Fresh)
    (cached : Option (ℤ × ℤ)) (c c1 c2 : Setup) (p : Packet)
    → repeat_request c buf (answered p t t' f cached) ≡ some c1
    → connect_response w f cached c1 p ≡ returned (c2, negsuc 0)
    → await w ttl buf (answered p t t' f cached ∷ rs) c ≡ some (verdict c2 false)
unfolding await
await_refused w ttl t t' buf rs f cached c c1 c2 p sent refused = rw (await, sent, refused) refl

repeat_recent :
    (c : Setup) (buf : List ℕ) (r : Round)
    → ltb 250000 (since r.time c.last_req_time) ≡ false
    → repeat_request c buf r ≡ some c
unfolding repeat_request
repeat_recent c buf r recent = rw recent refl

verdict_rendezvous :
    (c : Setup)
    → c.udt.rendezvous ≡ true
    → (c.conn_res.req_type == 1002) ≡ false
    → verdict c false ≡ returned c
unfolding verdict
verdict_rendezvous c rendezvous other =
    ap₂
      (λ a b.
        if a
        then thrown (pos 1) 2
        else if not b && not (c.udt.isn == c.conn_res.isn)
        then thrown (pos 1) 4
        else returned c)
      other rendezvous

-- A socket in rendezvous mode that waits for its peer and gets the handshake of a regular caller stops
-- waiting, and connect returns as if all were well: the socket is still connecting, and connected no
-- more than before. The socket is not being closed, and its last request went out within 250 ms.
pub rendezvous_unconnected :
    (w : World) (ttl t t' : ℕ) (buf : List ℕ) (rs : List Round) (f : Fresh)
    (cached : Option (ℤ × ℤ)) (c : Setup) (res : HandShake) (p : Packet)
    → c.connecting ≡ true
    → c.udt.rendezvous ≡ true
    → get_flag p ≡ 1
    → get_type p ≡ 0
    → (deserialize c.conn_res (words p.content) p.len).shake ≡ res
    → res.req_type ≡ 1
    → ltb 250000 (since t c.last_req_time) ≡ false
    → (c' : Setup) × (await w ttl buf (answered p t t' f cached ∷ rs) c ≡ some (returned c'))
      × (c'.connecting ≡ true)
      × (c'.connected ≡ c.connected)
rendezvous_unconnected w ttl t t' buf rs f cached c res p asked rendezvous flag type read regular
      recent =
    let one : (res.req_type == 1) ≡ true = rw regular refl in
    let other : (res.req_type == 1002) ≡ false = rw regular refl in
    let c' = heard_from w f cached c res p asked rendezvous flag type read one in
    (
      c',
      await_refused w ttl t t' buf rs f cached c c c' p
            (repeat_recent c buf (answered p t t' f cached) recent)
            (connect_response_refuses w f cached c res p asked rendezvous flag type read one)
          ∙ ap some (verdict_rendezvous c' rendezvous other),
      asked,
      refl,
    )
