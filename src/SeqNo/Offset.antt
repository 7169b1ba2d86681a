-- ===== src/SeqNo/Offset.antt =====
-- CSeqNo::seqoff, seqcmp and seqlen (src/common.h) against arithmetic modulo 2 ^ 31.
use udt_server.Base.{ℕ, ◌+◌, ◌-◌, ◌%◌, ◌<◌, ◌≤◌, ◌^◌, ◌≡◌, ◌↔◌, arith}
use udt_server.Base.Int.{pos, pos_part, neg_part, ◌≤ℤ◌, ◌<ℤ◌}
use udt_server.SeqNo.{IsSeqNo, seq_no_th, seqcmp, seqlen, seqoff, incseq}

-- `seqoff a b` is the way from `a` to `b` round the circle of 2 ^ 31 numbers: adding it to `a`
-- gives `b` modulo 2 ^ 31, and it is at most half the circle and one step, so it fits an `int`.
pub seqoff_mod :
    (a b : ℕ)
    → IsSeqNo a
    → IsSeqNo b
    → ((a + pos_part (seqoff a b) + (2 ^ 31 - neg_part (seqoff a b))) % 2 ^ 31 ≡ b)
      × (pos_part (seqoff a b) ≤ 2 ^ 30 + 1)
      × (neg_part (seqoff a b) ≤ 2 ^ 30 + 1)
unfolding seqoff
seqoff_mod a b ha hb = ground arith

-- `seqcmp a b` is positive, zero or negative as the offset from `b` to `a` is.
pub seqcmp-seqoff :
    (a b : ℕ)
    → IsSeqNo a
    → IsSeqNo b
    → ((pos 0 <ℤ seqcmp a b) ↔ (pos 0 <ℤ seqoff b a))
      × ((seqcmp a b <ℤ pos 0) ↔ (seqoff b a <ℤ pos 0))
      × ((seqcmp a b ≡ pos 0) ↔ (a ≡ b))
unfolding seqoff seqcmp
seqcmp-seqoff a b ha hb = ground arith

-- `seqlen a b` counts the numbers from `a` to `b`, both included: one more than the offset,
-- wherever the offset is not negative.
pub seqlen-seqoff :
    (a b : ℕ)
    → IsSeqNo a
    → IsSeqNo b
    → pos 0 ≤ℤ seqoff a b
    → seqlen a b ≡ pos (pos_part (seqoff a b) + 1)
unfolding seqoff seqlen
seqlen-seqoff a b ha hb h = ground arith

-- Going on by one on both sides keeps the offset, also across the wrap, while the two numbers are
-- less than CSeqNo::m_iSeqNoTH apart.
pub seqoff-incseq :
    (a b : ℕ)
    → IsSeqNo a
    → IsSeqNo b
    → pos_part (seqoff a b) < seq_no_th
    → neg_part (seqoff a b) < seq_no_th
    → seqoff (incseq a) (incseq b) ≡ seqoff a b
unfolding seqoff incseq
seqoff-incseq a b ha hb h k = ground arith
