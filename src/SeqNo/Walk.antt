-- ===== src/SeqNo/Walk.antt =====
-- CSeqNo::incseq and decseq (src/common.h): single steps, and steps by an increment.
use udt_server.Base.{ℕ, zero, suc, ◌<◌, ◌≤◌, ◌^◌, ◌≡◌, ◌∙◌, ap, arith}
use udt_server.Base.Int.{pos}
use udt_server.SeqNo.{IsSeqNo, seq_no_th, seqoff, incseq, decseq, incseq_by}

-- `n` calls of the one-step incseq.
pub walk : ℕ → ℕ → ℕ
walk zero a = a
walk (suc n) a = incseq (walk n a)

-- Both overloads stay in range, and the one-step functions undo each other.
pub incseq-decseq :
    (a : ℕ)
    → IsSeqNo a
    → IsSeqNo (incseq a) × IsSeqNo (decseq a) × (decseq (incseq a) ≡ a) × (incseq (decseq a) ≡ a)
unfolding incseq decseq
incseq-decseq a h = ground arith

incseq_by-zero : (a : ℕ) → IsSeqNo a → incseq_by a 0 ≡ a
unfolding incseq_by
incseq_by-zero a h = ground arith

incseq_by-suc : (a n : ℕ) → IsSeqNo a → n < 2 ^ 31 → incseq_by a (suc n) ≡ incseq (incseq_by a n)
unfolding incseq_by incseq
incseq_by-suc a n h k = ground arith

-- The overload with an increment does what so many single steps do.
pub incseq_by-walk : (n a : ℕ) → IsSeqNo a → n ≤ 2 ^ 31 → incseq_by a n ≡ walk n a
unfolding walk
incseq_by-walk zero a h k = incseq_by-zero a h
incseq_by-walk (suc n) a h k =
    incseq_by-suc a n h (omega arith) ∙ ap incseq (incseq_by-walk n a h (omega arith))

-- Stepping on by less than CSeqNo::m_iSeqNoTH is what `seqoff` measures.
pub seqoff-incseq_by : (a n : ℕ) → IsSeqNo a → n < seq_no_th → seqoff a (incseq_by a n) ≡ pos n
unfolding seqoff incseq_by
seqoff-incseq_by a n h k = ground arith
