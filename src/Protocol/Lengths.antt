-- ===== src/Protocol/Lengths.antt =====
-- The lengths of blocks.
use mbtest.Prelude.{ℕ, ◌+◌, ◌*◌, ◌≡◌, List, ◌++◌, arith, length, length-append}
use mbtest.Wire.{be32, be16s}
use mbtest.Wire.Laws.{length-be16s}
use mbtest.Interfaces.{AllRegs}
use mbtest.Protocol.{frame, all_payload}

pub length-frame : (payload : List ℕ) → length (frame payload) ≡ length payload + 4
unfolding frame be32
length-frame payload = omega arith

pub length-all_payload :
    (r : AllRegs)
    → length (all_payload r)
      ≡ length r.coils + length r.discrete + length r.inputs * 2 + length r.holding * 2 + 16
unfolding all_payload
length-all_payload r = omega (
  arith,
  length-append {0} (frame r.coils ++ frame r.discrete ++ frame (be16s r.inputs))
      (frame (be16s r.holding)),
  length-append {0} (frame r.coils ++ frame r.discrete) (frame (be16s r.inputs)),
  length-append {0} (frame r.coils) (frame r.discrete),
  length-frame r.coils,
  length-frame r.discrete,
  length-frame (be16s r.inputs),
  length-frame (be16s r.holding),
  length-be16s r.inputs,
  length-be16s r.holding,
)
