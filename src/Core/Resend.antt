-- ===== src/Core/Resend.antt =====
-- CUDT::processCtrl (src/core.cpp): a loss report of the receiver makes the sender send again.
use udt_server.Base.{
  ℕ, ◌+◌, ◌%◌, ◌^◌, ◌<◌, ◌≡◌, ◌≢◌, refl, sym, ap, ◌∙◌, subst, true, false, none, some, [], ◌∷◌,
  arith, leb, get_or-set_other, ne→==, ==_iff,
}
use udt_server.Base.Int.{pos, pos_part, ltb_ℤ, leb_ℤ, ◌+ℤ◌, ◌≤ℤ◌}
use udt_server.SeqNo.Offset.{seqlen-seqoff}
use udt_server.SeqNo.{IsSeqNo, seq_no_th, seqcmp, seqlen, seqoff}
use udt_server.Packet.{Packet, get_type}
use udt_server.RcvLossList.Report.{bit_or-top}
use udt_server.SndLossList.{SndLossList, insert_first}
use udt_server.SndLossList.Remove.{get_lost_seq}
use udt_server.SndLossList.First.{get_lost_seq_lem}
use udt_server.SndLossList.Start.{IsEmpty, insert-first, insert_first-IsList}
use udt_server.Core.{World, Udt, words, reschedule, cc_update, called, on_loss}
use udt_server.Core.Receive.{heard}
use udt_server.Core.Control.{process_ctrl, take_nak, take_losses, take_run, lost}
use udt_server.Core.Gap.{report_words}
use native.Mathlib.Nat.{mod-eq_of_lt}
use native.Mathlib.Decide.{ℕ_discrete}
use Prim.Native.Nat.{bit_or}

-- What a report of the numbers from `a` to `b` adds to a list without numbers.
abbrev losing : Udt → ℕ → ℕ → Udt
losing u a b = record u {
  snd_loss_list = insert_first u.snd_loss_list a b;
  snd_loss_total = u.snd_loss_total +ℤ pos (u.snd_loss_list.length + pos_part (seqlen a b));
}

module _ (u : Udt) (a b : ℕ) (e : IsEmpty u.snd_loss_list) (ha : IsSeqNo a) (hb : IsSeqNo b)
    (new : leb_ℤ (pos 0) (seqcmp a u.snd_last_ack) ≡ true)
    (sent_b : ltb_ℤ (pos 0) (seqcmp b u.snd_curr_seq_no) ≡ false) where
  lost-first : lost u a b ≡ some (losing u a b)
  lost-first = rw (lost, insert-first u.snd_loss_list a b e) refl

  take_losses-run :
      ltb_ℤ (pos 0) (seqcmp a b) ≡ false
      → take_losses (some u) (bit_or a 0x8000_0000 ∷ b ∷ []) ≡ some (losing u a b, true)
  unfolding take_losses
  take_losses-run up =
      let low : bit_or a 0x8000_0000 % 2 ^ 31 ≡ a =
        ap (λ x. x % 2 ^ 31) (bit_or-top a ha) ∙ omega arith in
      let high : leb (2 ^ 31) (bit_or a 0x8000_0000) ≡ true =
        ap (leb (2 ^ 31)) (bit_or-top a ha) ∙ ground arith in
      rw (take_losses, high, low, up, sent_b, take_run, low, new, lost-first) refl

take_losses-one :
    (u : Udt) (a : ℕ)
    → IsEmpty u.snd_loss_list
    → IsSeqNo a
    → leb_ℤ (pos 0) (seqcmp a u.snd_last_ack) ≡ true
    → ltb_ℤ (pos 0) (seqcmp a u.snd_curr_seq_no) ≡ false
    → take_losses (some u) (a ∷ []) ≡ some (losing u a a, true)
unfolding take_losses
take_losses-one u a e h new sent_a =
    let low : leb (2 ^ 31) a ≡ false = ground arith in
    simp (low, new, sent_a, lost-first u a a e h h new sent_a)

run_positive : (a b : ℕ) → IsSeqNo a → IsSeqNo b → pos 0 ≤ℤ seqoff a b → 0 < pos_part (seqlen a b)
run_positive a b ha hb ahead = rw (seqlen-seqoff a b ha hb ahead) (omega arith)

report_words-one : (a : ℕ) → report_words a a ≡ a ∷ []
report_words-one a = rw ((==_iff a a).1 refl) refl

take_losses-report :
    (u : Udt) (a b : ℕ)
    → IsEmpty u.snd_loss_list
    → IsSeqNo a
    → IsSeqNo b
    → leb_ℤ (pos 0) (seqcmp a u.snd_last_ack) ≡ true
    → ltb_ℤ (pos 0) (seqcmp a b) ≡ false
    → ltb_ℤ (pos 0) (seqcmp b u.snd_curr_seq_no) ≡ false
    → take_losses (some u) (report_words a b) ≡ some (losing u a b, true)
take_losses-report u a b e ha hb new up sent_b = elim (ℕ_discrete a b) [
  | yes same ↦
      subst (λ c. take_losses (some u) (report_words a c) ≡ some (losing u a c, true)) same
        (ap (take_losses (some u)) (report_words-one a)
          ∙ take_losses-one u a e ha new
              (subst (λ c. ltb_ℤ (pos 0) (seqcmp c u.snd_curr_seq_no) ≡ false) (sym same) sent_b))
  | no apart ↦ rw (ne→== a b apart) (take_losses-run u a b e ha hb new sent_b up)
]

-- A loss report as the receiver makes it, of the numbers from `a` to `b`, all of them sent and not
-- acknowledged, to a sender that has no lost numbers: the report is accepted, the sender is put in
-- front of the schedule, and the next call of getLostSeq, with which packData begins, returns `a`.
pub report_queued :
    (w : World) (u : Udt) (p : Packet) (a b : ℕ)
    → get_type p ≡ 3
    → words p.content ≡ report_words a b
    → IsEmpty u.snd_loss_list
    → 1 < u.snd_loss_list.size
    → IsSeqNo a
    → IsSeqNo b
    → leb_ℤ (pos 0) (seqcmp a u.snd_last_ack) ≡ true
    → ltb_ℤ (pos 0) (seqcmp a b) ≡ false
    → ltb_ℤ (pos 0) (seqcmp b u.snd_curr_seq_no) ≡ false
    → pos 0 ≤ℤ seqoff a b
    → pos_part (seqoff a b) < seq_no_th
    → (t : Udt) × (l : SndLossList) × (process_ctrl w u p ≡ some t)
      × (t.broken ≡ u.broken)
      × (t.events ≡ reschedule true ∷ u.events)
      × (get_lost_seq t.snd_loss_list ≡ some (l, some a))
unfolding process_ctrl take_nak cc_update
report_queued w u p a b kind ws e size ha hb new up sent_b ahead near =
    let u' = cc_update w (called (heard w u) (on_loss (words p.content))) in
    let secure : take_losses (some u') (words p.content) ≡ some (losing u' a b, true) =
      ap (take_losses (some u')) ws ∙ take_losses-report u' a b e ha hb new up sent_b in
    let one_apart : 1 % u.snd_loss_list.size ≢ 0 = λ k. absurd (omega (arith, mod-eq_of_lt size)) in
    let (l, got, _, _) =
      get_lost_seq_lem (insert_first u.snd_loss_list a b) 0 a b [] refl
        (insert_first-IsList u.snd_loss_list a b e)
        (omega (arith, e.no_length, run_positive a b ha hb ahead)) ha hb ahead near
        (λ k.
          get_or-set_other u.snd_loss_list.data1 0 (1 % u.snd_loss_list.size) (some a) none
            one_apart
          ∙ e.free₁ (1 % u.snd_loss_list.size)) in
    (
      record (losing u' a b) {
        events = reschedule true ∷ u.events;
        recv_nak_total = u.recv_nak_total + 1;
      },
      l,
      simp (kind, take_nak, secure),
      refl,
      refl,
      got,
    )
