-- ===== src/Core/Tests/Sending.antt =====
-- Runs of CUDT::packData, processCtrl and checkTimers (src/core.cpp), and the theorems about them
-- applied.
use udt_server.LossList.{read}
use udt_server.Base.{
  zero, suc, ℕ, ◌<◌, ◌≡◌, refl, true, false, none, some, List, [], ◌∷◌, arith, drop,
}
use udt_server.Base.Int.{◌+ℤ◌}
use udt_server.SeqNo.{seqcmp, seqoff, seqlen, incseq, incseq_by}
use udt_server.Packet.{Packet, block, get_type}
use udt_server.SndBuffer.{read_data}
use udt_server.SndLossList.{SndLossList}
use udt_server.SndLossList.Remove.{remove, get_lost_seq}
use udt_server.Core.{Udt, reschedule, cc_update}
use udt_server.Core.Times.{since, times_64, to_int}
use udt_server.Core.Control.{process_ctrl}
use udt_server.Core.Send.{pack_data, send_new, send_block, packed, late}
use udt_server.Core.Timers.{check_timers, check_ack, check_exp, next_exp_time, give_up}
use udt_server.Core.Window.{IsDue, pack_data-IsDue}
use udt_server.Core.Sender.{process_ctrl_acknowledges}
use udt_server.Core.Stall.{light_ack_stalls}
use udt_server.Core.Resend.{report_queued}
use udt_server.Core.Silence.{check_timers_patience}
use udt_server.Core.Tests.{world, socket, snd, snd_losses, holes}
use udt_server.SndBuffer.Add.{IsValid, contents}
use udt_server.SndLossList.Start.{IsEmpty}

snd-IsValid : IsValid snd
snd-IsValid = record {
  ringed = refl;
  counted = refl;
  room = omega arith;
  read_up = omega arith;
  unit = omega arith;
  packet = omega arith;
}

snd_losses-IsEmpty : IsEmpty snd_losses
snd_losses-IsEmpty = record {
  no_length = refl;
  some_size = omega arith;
  free₁ = all_free;
  free₂ = all_free;
  sized₁ = refl;
  sized₂ = refl;
  sized = refl;
}
  where
    all_free : (i : ℕ) → read holes i ≡ none
    all_free zero = refl
    all_free (suc zero) = refl
    all_free (suc (suc zero)) = refl
    all_free (suc (suc (suc zero))) = refl
    all_free (suc (suc (suc (suc i)))) = refl

abbrev control : ℕ → List ℕ → ℕ → Packet
control word ws len = record {
  seq_no = word;
  msg_no = 1;
  time_stamp = 0;
  id = 1;
  content = block ws;
  len = len;
}

abbrev ack_of : ℕ → Packet
ack_of ack = control 0x8002_0000 (ack ∷ 100000 ∷ 50000 ∷ 20 ∷ []) 16

abbrev light_ack_of : ℕ → Packet
light_ack_of ack = control 0x8002_0000 (ack ∷ []) 4

abbrev loss_report : Packet
loss_report = control 0x8003_0000 (0x8000_000a ∷ 11 ∷ []) 8

light_ack_stalls_example :
    ((s : Udt) × (process_ctrl world socket (ack_of 15) ≡ some s) × (s.broken ≡ true))
    × ((t : Udt) × (process_ctrl world socket (light_ack_of 15) ≡ some t)
        × (t.broken ≡ false)
        × ((t' : Udt) × (pack_data world t ≡ some (t', none))))
unfolding get_type seqcmp incseq incseq_by
light_ack_stalls_example =
    light_ack_stalls world world socket (light_ack_of 15) (ack_of 15) 1 (omega arith) (omega arith)
      refl (refl, refl, refl) (refl, omega arith, refl) refl (omega arith)

process_ctrl_acknowledges_example :
    (t : Udt) × (process_ctrl world socket (ack_of 11) ≡ some t)
    × (t.broken ≡ false)
    × IsValid t.snd_buffer
    × (contents t.snd_buffer ≡ drop 1 (contents snd))
    × (t.snd_loss_list ≡ snd_losses)
    × (t.snd_last_ack ≡ 11)
    × (t.snd_last_data_ack ≡ 11)
    × (t.flow_window_size ≡ to_int 20)
unfolding get_type seqcmp seqoff incseq remove
process_ctrl_acknowledges_example =
    process_ctrl_acknowledges world socket (ack_of 11) 11 100000 50000 20 1 snd_losses refl refl
      refl refl refl refl (omega arith) (omega arith) snd-IsValid refl

report_queued_example :
    (t : Udt) × (l : SndLossList) × (process_ctrl world socket loss_report ≡ some t)
    × (t.broken ≡ false)
    × (t.events ≡ reschedule true ∷ [])
    × (get_lost_seq t.snd_loss_list ≡ some (l, some 10))
unfolding get_type seqcmp seqoff
report_queued_example =
    report_queued world socket loss_report 10 11 refl refl snd_losses-IsEmpty (omega arith)
      (omega arith) (omega arith) refl refl refl (omega arith) (omega arith)

abbrev twelve : Packet
twelve = record {
  seq_no = 12;
  msg_no = 0xc000_0003;
  time_stamp = 1000;
  id = 2;
  content = block (12 ∷ []);
  len = 1;
}

pack_data-IsDue_example :
    IsDue socket (send_new world (late world socket)).0 twelve × (twelve.id ≡ 2)
unfolding pack_data get_lost_seq send_new send_block read_data packed late seqlen incseq ◌+ℤ◌
pack_data-IsDue_example =
    pack_data-IsDue world socket (send_new world (late world socket)).0 twelve 20000010 refl

check_timers_patience_example : (16 < 17) × (times_64 5000000 1 < since 20000000 0)
unfolding check_timers check_ack check_exp next_exp_time give_up cc_update ◌+ℤ◌
check_timers_patience_example =
    check_timers_patience world socket (give_up (cc_update world socket)) refl refl refl
