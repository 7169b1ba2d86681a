-- ===== src/Core/Tests/Receiving.antt =====
-- Runs of CUDT::processData and sendCtrl (src/core.cpp), and the theorems about them applied.
use udt_server.LossList.{read}
use udt_server.Base.{
  zero, suc, ℕ, ◌+◌, ◌≡◌, refl, true, false, none, some, List, [], ◌∷◌, ◌++◌, inl, inr, arith,
}
use udt_server.SeqNo.{seqcmp, seqoff, incseq, decseq, incseq_by}
use udt_server.Packet.{Packet}
use udt_server.RcvBuffer.{get_avail_buf_size, get_rcv_data_size}
use udt_server.RcvBuffer.Stream.{stream, slots}
use udt_server.Core.{Udt, Event, sent}
use udt_server.Core.SendCtrl.{send_ctrl, ack_number}
use udt_server.Core.Receive.{process_data}
use udt_server.Core.Deliver.{IsAck, send_ctrl_delivers, deliver_in_order}
use udt_server.Core.Gap.{IsUntouched, IsReport, process_data_refuses, gap_reported}
use udt_server.RcvLossList.Contents.{IsList, IsEmpty}
use udt_server.Core.Tests.{world, socket, rcv, rcv_losses, holes}
use udt_server.RcvBuffer.Stream.{IsValid}

socket-IsValid : IsValid socket.rcv_buffer
unfolding get_rcv_data_size
socket-IsValid = record {
  sized = refl;
  start_in = omega arith;
  ack_in = omega arith;
  filled = ((1, refl), tt);
  notched = omega arith;
}

rcv_losses-IsEmpty : IsEmpty rcv_losses
rcv_losses-IsEmpty = record {
  no_length = refl;
  some_size = omega arith;
  free₁ = all_free;
  free₂ = all_free;
  sized₁ = refl;
  sized₂ = refl;
  sized = refl;
}
  where
    all_free : (i : ℕ) → read holes i ≡ none
    all_free zero = refl
    all_free (suc zero) = refl
    all_free (suc (suc zero)) = refl
    all_free (suc (suc (suc zero))) = refl
    all_free (suc (suc (suc (suc i)))) = refl

-- Packet 5 is there, in unit 3, and the largest number is 5.
abbrev five : Udt
five = record socket {
  rcv_buffer = record rcv { unit = none ∷ some 1 ∷ some 3 ∷ none ∷ none ∷ none ∷ [] };
  rcv_curr_seq_no = 5;
}

five-IsValid : IsValid five.rcv_buffer
unfolding get_rcv_data_size
five-IsValid = record {
  sized = refl;
  start_in = omega arith;
  ack_in = omega arith;
  filled = ((1, refl), tt);
  notched = omega arith;
}

send_ctrl_delivers_example :
    (t : Udt) × (p : Packet) × (es : List Event) × (send_ctrl world five 2 none none 0 ≡ some t)
    × (t.events ≡ sent p ∷ es)
    × IsAck p 6
    × (t.rcv_last_ack ≡ 6)
    × IsValid t.rcv_buffer
    × (stream t.rcv_buffer ≡ stream five.rcv_buffer ++ slots five.rcv_buffer 2 1)
unfolding ack_number incseq seqcmp seqoff get_rcv_data_size
send_ctrl_delivers_example =
    send_ctrl_delivers world five 6 1 refl refl refl refl five-IsValid (omega arith) ((3, refl), tt)

deliver_in_order_example :
    (s : Udt) × (t : Udt) × (p : Packet) × (es : List Event) × (process_data world socket 3 5
      ≡ some (s, true))
    × (send_ctrl world s 2 none none 0 ≡ some t)
    × (t.events ≡ sent p ∷ es)
    × IsAck p (incseq 5)
    × (t.rcv_last_ack ≡ incseq 5)
    × (stream t.rcv_buffer ≡ stream socket.rcv_buffer ++ 3 ∷ 13 ∷ [])
unfolding incseq seqcmp get_avail_buf_size get_rcv_data_size
deliver_in_order_example =
    deliver_in_order world world socket 3 (omega arith) refl refl socket-IsValid (omega arith) refl
      refl

-- Packet 9 is beyond the four free slots but one.
process_data_refuses_example :
    (s : Udt) × (process_data world socket 3 9 ≡ some (s, false)) × IsUntouched socket s
unfolding seqoff get_avail_buf_size get_rcv_data_size
process_data_refuses_example = process_data_refuses world socket 3 9 (inl (inr (omega arith)))

-- Packet 7 arrives where 5 is next.
gap_reported_example :
    (s : Udt) × (p : Packet) × (process_data world socket 3 (incseq_by 4 (1 + 2)) ≡ some (s, true))
    × (s.rcv_curr_seq_no ≡ incseq_by 4 (1 + 2))
    × (s.events ≡ sent p ∷ [])
    × IsReport p (incseq 4) (decseq (incseq_by 4 (1 + 2)))
    × IsList s.rcv_loss_list [] (incseq 4, decseq (incseq_by 4 (1 + 2)))
    × (ack_number s ≡ some (incseq 4))
unfolding seqoff incseq_by get_avail_buf_size get_rcv_data_size
gap_reported_example =
    gap_reported world socket 3 1 2 (omega arith) (omega arith) refl (omega arith) refl
      rcv_losses-IsEmpty
