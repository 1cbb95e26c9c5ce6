-- ===== src/Arm/Decode/Truncated.antt =====
-- An instruction that the end of the buffer cuts off.
use libunwind.Prelude.{ℕ, ◌+◌, ◌*◌, ◌%◌, ◌^◌, ◌≤◌, ◌≡◌, refl, ◌∙◌, arith, List, [], ◌∷◌, length}
use libunwind.Result.{stop, out_of_bounds}
use libunwind.Arm.{ArmSpace, ArmCursor}
use libunwind.Arm.Decode.{read_offset, decode_op, decode_high, decode_loop, arm_exidx_decode}
use libunwind.Arm.Decode.Instruction.Commands.{read_offset-more}

abbrev pub GoOn : List ℕ → Type 0
GoOn [] = Unit
GoOn (b ∷ bs) = (128 ≤ b) × GoOn bs

read_offset-cut : (bs : List ℕ) → GoOn bs → length bs ≤ 4 → read_offset bs 0 0 ≡ stop out_of_bounds
unfolding read_offset
read_offset-cut [] h short = refl
read_offset-cut (b ∷ []) (hb, h) short =
    read_offset-more b 0 0 (b % 128) [] hb (ground arith) (omega arith) (omega arith)
read_offset-cut (b ∷ c ∷ []) (hb, (hc, h)) short =
    read_offset-more b 0 0 (b % 128) (c ∷ []) hb (ground arith) (omega arith) (omega arith)
    ∙ read_offset-more c (b % 128) 7 (b % 128 + c % 128 * 128) [] hc (ground arith) (omega arith)
        (omega arith)
read_offset-cut (b ∷ c ∷ d ∷ []) (hb, (hc, (hd, h))) short =
    read_offset-more b 0 0 (b % 128) (c ∷ d ∷ []) hb (ground arith) (omega arith) (omega arith)
    ∙ read_offset-more c (b % 128) 7 (b % 128 + c % 128 * 128) (d ∷ []) hc (ground arith)
        (omega arith) (omega arith)
    ∙ read_offset-more d (b % 128 + c % 128 * 128) 14 (b % 128 + c % 128 * 128 + d % 128 * 2 ^ 14)
        [] hd (ground arith) (omega arith) (omega arith)
read_offset-cut (b ∷ c ∷ d ∷ e ∷ []) (hb, (hc, (hd, (he, h)))) short =
    read_offset-more b 0 0 (b % 128) (c ∷ d ∷ e ∷ []) hb (ground arith) (omega arith) (omega arith)
    ∙ read_offset-more c (b % 128) 7 (b % 128 + c % 128 * 128) (d ∷ e ∷ []) hc (ground arith)
        (omega arith) (omega arith)
    ∙ read_offset-more d (b % 128 + c % 128 * 128) 14 (b % 128 + c % 128 * 128 + d % 128 * 2 ^ 14)
        (e ∷ []) hd (ground arith) (omega arith) (omega arith)
    ∙ read_offset-more e (b % 128 + c % 128 * 128 + d % 128 * 2 ^ 14) 21
        (b % 128 + c % 128 * 128 + d % 128 * 2 ^ 14 + e % 128 * 2 ^ 21) [] he (ground arith)
        (omega arith) (omega arith)
read_offset-cut (b ∷ c ∷ d ∷ e ∷ f ∷ bs) h short = absurd (omega arith)

-- Where the buffer ends inside the number of the instruction 0xb2, with at most four bytes of it, the
-- decoder reads behind the end. The closing byte 0xb0 does not help, as its top bit is set.
pub decode-truncated :
    (space : ArmSpace) (bs : List ℕ) (c : ArmCursor)
    → GoOn bs
    → length bs ≤ 4
    → arm_exidx_decode space (0xb2 ∷ bs) c ≡ stop out_of_bounds
unfolding arm_exidx_decode decode_loop decode_op decode_high
decode-truncated space bs c h short = rw (read_offset-cut bs h short)
