-- ===== src/Core/Sender.antt =====
-- CUDT::processCtrl (src/core.cpp): what ACKs and loss reports do to the sending side.
use udt_server.Base.{
  ℕ, ◌+◌, ◌*◌, ◌%◌, ◌^◌, ◌<◌, ◌≤◌, ◌≡◌, ◌≢◌, refl, sym, ap, ◌∙◌, subst, Bool, true, false, ◌||◌,
  Option, none, some, [], ◌∷◌, inl, inr, arith, ltb, ◌==◌, if◌then◌else◌, drop, get_elem?,
  Bool-cases, ne→==,
}
use udt_server.Base.Int.{pos, ltb_ℤ, leb_ℤ}
use udt_server.SeqNo.{seqcmp, seqoff, incseq, decseq}
use udt_server.Packet.{Packet, create, pack, get_type, get_ack_seq_no, pad}
use udt_server.SndBuffer.{ack_data}
use udt_server.SndLossList.{SndLossList}
use udt_server.SndLossList.Remove.{remove}
use udt_server.SndBuffer.Add.{IsValid, contents}
use udt_server.SndBuffer.Read.{acknowledged}
use udt_server.Core.{World, Udt, cc_update, sent, words, syn_interval}
use udt_server.Core.Times.{since, to_int}
use udt_server.Core.SendCtrl.{send_ctrl}
use udt_server.Core.Receive.{heard}
use udt_server.Core.Ack.{
  break_off, answer_ack, window_taken, drop_acked, react_to_ack, take_data_ack, take_ack,
}
use udt_server.Core.Control.{process_ctrl}
use Prim.Native.Nat.{bit_or}

ack2_packet : Udt → ℕ → Packet
ack2_packet u seq = record {
  seq_no = bit_or 0x8000_0000 (6 * 2 ^ 16 % 2 ^ 32);
  msg_no = seq;
  time_stamp = 0;
  id = u.peer_id;
  content = pad;
  len = 4;
}

abbrev is_answered : World → Udt → ℕ → Bool
is_answered w u seq =
    ltb syn_interval (since (w.tsc 0) u.snd_last_ack2_time) || (seq == u.snd_last_ack2)

-- What the answer to an ACK leaves.
answered : World → Udt → ℕ → Udt
answered w u seq = record u {
  events = if is_answered w u seq then sent (ack2_packet u seq) ∷ u.events else u.events;
  snd_last_ack2 = if is_answered w u seq then seq else u.snd_last_ack2;
  snd_last_ack2_time = if is_answered w u seq then w.time 0 else u.snd_last_ack2_time;
}

answer_ack-answered : (w : World) (u : Udt) (seq : ℕ) → answer_ack w u seq ≡ some (answered w u seq)
unfolding answer_ack send_ctrl create pack answered ack2_packet
answer_ack-answered w u seq = elim (Bool-cases (is_answered w u seq)) [
  | inl e ↦ simp e
  | inr e ↦ simp e
]

-- A full ACK of more than was sent breaks the connection and acknowledges nothing.
pub process_ctrl_breaks :
    (w : World) (u : Udt) (p : Packet) (ack : ℕ)
    → get_type p ≡ 2
    → p.len ≢ 4
    → get_elem? (words p.content) 0 ≡ some ack
    → ltb_ℤ (pos 0) (seqcmp ack (incseq u.snd_curr_seq_no)) ≡ true
    → (t : Udt) × (process_ctrl w u p ≡ some t)
      × (t.broken ≡ true)
      × (t.snd_last_ack ≡ u.snd_last_ack)
      × (t.snd_buffer ≡ u.snd_buffer)
unfolding process_ctrl take_ack take_data_ack answered
process_ctrl_breaks w u p ack kind full first beyond = (
  break_off (answered w (heard w u) (get_ack_seq_no p)),
  simp (
    kind,
    take_ack,
    first,
    ne→== p.len 4 full,
    answer_ack-answered w (heard w u) (get_ack_seq_no p),
    take_data_ack,
    beyond,
  ),
  refl,
  refl,
  refl,
)

-- An ACK of four words, which leaves the rates alone, always gets as far as counting itself.
react_four :
    (w : World) (u : Udt) (ack rtt : ℕ) (rate band : Option ℕ)
    → (t : Udt) × (react_to_ack w u ack rtt rate band 16 ≡ some t)
      × (t.broken ≡ u.broken)
      × (t.snd_buffer ≡ u.snd_buffer)
      × (t.snd_last_ack ≡ u.snd_last_ack)
      × (t.snd_last_data_ack ≡ u.snd_last_data_ack)
      × (t.flow_window_size ≡ u.flow_window_size)
      × (t.snd_loss_list ≡ u.snd_loss_list)
      × (t.recv_ack_total ≡ u.recv_ack_total + 1)
unfolding react_to_ack cc_update
react_four w u ack rtt rate band = (_, refl, refl, refl, refl, refl, refl, refl, refl)

-- What an ACK makes of the socket before the reaction to it.
abbrev acked : World → Udt → Packet → ℕ → ℕ → ℕ → SndLossList → Udt
acked w u p ack n window l = record (answered w (heard w u) (get_ack_seq_no p)) {
  flow_window_size = to_int window;
  snd_last_ack = ack;
  snd_buffer = ack_data u.snd_buffer n;
  snd_duration_total = u.snd_duration_total + since (w.tsc 0) u.snd_duration_counter;
  snd_duration_counter = w.tsc 0;
  snd_last_data_ack = ack;
  snd_loss_list = l;
}

-- A full ACK of four words whose number is not beyond what was sent, not behind the last
-- acknowledged one, and `n` > 0 numbers ahead of the last one that moved the buffer, drops the `n`
-- first blocks of the send buffer, takes the lost numbers before it off the loss list, as
-- CSndLossList::remove does, and sets the flow window to its fourth word. All `n` blocks have been
-- read, and the send buffer is in order before and after. The connection goes on.
pub process_ctrl_acknowledges :
    (w : World) (u : Udt) (p : Packet) (ack rtt var window n : ℕ) (l : SndLossList)
    → get_type p ≡ 2
    → p.len ≡ 16
    → words p.content ≡ ack ∷ rtt ∷ var ∷ window ∷ []
    → ltb_ℤ (pos 0) (seqcmp ack (incseq u.snd_curr_seq_no)) ≡ false
    → leb_ℤ (pos 0) (seqcmp ack u.snd_last_ack) ≡ true
    → seqoff u.snd_last_data_ack ack ≡ pos n
    → 0 < n
    → n ≤ u.snd_buffer.curr
    → IsValid u.snd_buffer
    → remove u.snd_loss_list (decseq ack) ≡ some l
    → (t : Udt) × (process_ctrl w u p ≡ some t)
      × (t.broken ≡ u.broken)
      × IsValid t.snd_buffer
      × (contents t.snd_buffer ≡ drop n (contents u.snd_buffer))
      × (t.snd_loss_list ≡ l)
      × (t.snd_last_ack ≡ ack)
      × (t.snd_last_data_ack ≡ ack)
      × (t.flow_window_size ≡ to_int window)
unfolding process_ctrl take_ack take_data_ack window_taken drop_acked answered
process_ctrl_acknowledges w u p ack rtt var window n l kind len ws within ahead apart some_new read
      v there =
    let seq = get_ack_seq_no p in
    let first : get_elem? (words p.content) 0 ≡ some ack = ap (λ xs. get_elem? xs 0) ws in
    let (t, done, sound, buffer, last, last', flow, losses, total) =
      react_four w (acked w u p ack n window l) ack rtt none none in
    let (valid, kept, _, _) = acknowledged u.snd_buffer n v read in
    let more : leb_ℤ (pos n) (pos 0) ≡ false = ground arith in
    (
      t,
      simp (
        kind,
        take_ack,
        len,
        answer_ack-answered w (heard w u) seq,
        take_data_ack,
        within,
        ws,
        window_taken,
        ahead,
        apart,
        more,
        drop_acked,
        there,
        done,
      ),
      sound,
      subst IsValid (sym buffer) valid,
      ap contents buffer ∙ kept,
      losses,
      last,
      last',
      flow,
    )
