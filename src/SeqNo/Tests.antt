-- ===== src/SeqNo/Tests.antt =====
-- Runs of CSeqNo (src/common.h) at concrete numbers, and the theorems about it applied.
use udt_server.Base.{ℕ, ◌+◌, ◌≡◌, refl, arith}
use udt_server.Base.Int.{pos, negsuc, pos_part}
use udt_server.SeqNo.{IsSeqNo, seqlen, seqoff, incseq, decseq, incseq_by}
use udt_server.SeqNo.Offset.{seqlen-seqoff, seqoff-incseq}
use udt_server.SeqNo.Walk.{walk, incseq-decseq, incseq_by-walk, seqoff-incseq_by}

abbrev last : ℕ
last = 0x7fff_ffff

wraps : (seqoff last 2 ≡ pos 3) × (seqoff 2 last ≡ negsuc 2) × (seqlen last 2 ≡ pos 4)
unfolding seqoff seqlen
wraps = (refl, refl, refl)

seqlen-seqoff_example : seqlen last 2 ≡ pos (pos_part (seqoff last 2) + 1)
unfolding seqoff
seqlen-seqoff_example = seqlen-seqoff last 2 (omega arith) (omega arith) (omega arith)

seqoff-incseq_example : seqoff (incseq last) (incseq 2) ≡ seqoff last 2
unfolding seqoff
seqoff-incseq_example = seqoff-incseq last 2 (omega arith) (omega arith) (omega arith) (omega arith)

incseq-decseq_example :
    IsSeqNo (incseq last)
    × IsSeqNo (decseq last)
    × (decseq (incseq last) ≡ last)
    × (incseq (decseq last) ≡ last)
incseq-decseq_example = incseq-decseq last (omega arith)

incseq_by-walk_example : incseq_by last 3 ≡ walk 3 last
incseq_by-walk_example = incseq_by-walk 3 last (omega arith) (omega arith)

seqoff-incseq_by_example : seqoff last (incseq_by last 3) ≡ pos 3
seqoff-incseq_by_example = seqoff-incseq_by last 3 (omega arith) (omega arith)
