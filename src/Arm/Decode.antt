-- ===== src/Arm/Decode.antt =====
-- src/arm/Gex_tables.c, arm_exidx_decode: the unwind instructions of an entry.
pub mod Instruction
pub mod Truncated
use libunwind.Prelude.{
  ℕ, zero, suc, ◌+◌, ◌-◌, ◌*◌, ◌/◌, ◌%◌, ◌^◌, Bool, true, false, ltb, leb, ◌==◌, ◌&&◌, ◌||◌, not,
  if◌then◌else◌, List, [], ◌∷◌, length, bit_or,
}
use libunwind.Prelude.Bits.{test_bit}
use libunwind.Result.{Result, ok, err, stop, aborted, undefined, out_of_bounds, out_of_fuel, ◌>>=◌}
use libunwind.Arm.{ArmSpace, ArmCursor, word32_mod}
use libunwind.Arm.Apply.{Cmd, ExbufData, arm_exidx_apply_cmd}

-- READ_OP. The bytes behind `end` are no instructions: the caller has not filled them.
abbrev pub read_op : List ℕ → Result (ℕ × List ℕ)
read_op [] = stop out_of_bounds
read_op (b ∷ buf) = ok (b, buf)

-- `(byte & 0x7f) << shift` on an int: it is undefined where the result does not fit.
abbrev pub shift_int : ℕ → ℕ → Result ℕ
shift_int v shift =
    if ltb shift 32 && ltb (v * 2 ^ shift) (2 ^ 31) then ok (v * 2 ^ shift) else stop undefined

-- The do loop of the instruction 0xb2; `shift` has 8 bits. Each round takes a byte.
unfoldable pub read_offset : (buf : List ℕ) (offset shift : ℕ) → Result (ℕ × List ℕ)
read_offset [] offset shift = stop out_of_bounds
read_offset (byte ∷ buf) offset shift =
    let rest = read_offset buf in
    (do
      v ← shift_int (byte % 128) shift
      if leb 128 byte
          then rest (bit_or offset v) ((shift + 7) % 256)
          else ok (bit_or offset v, buf))

-- What an instruction comes to: the command, its data, and the bytes behind it. Where it sets no
-- data, those of the instruction before stay.
abbrev pub Decoded : Type 0
Decoded = Result (ExbufData × List ℕ)

abbrev pub command : Cmd → ℕ → List ℕ → Decoded
command cmd value buf = ok (record { cmd = cmd; value = value }, buf)

-- 0x80 to 0x8f
unfoldable pub decode_reg_mask : (op : ℕ) (old : ℕ) (buf : List ℕ) → Decoded
decode_reg_mask op old buf = do
  (op2, buf) ← read_op buf
  if (op == 0x80) && (op2 == 0)
      then command Cmd.refused old buf
      else command Cmd.reg_pop (bit_or (op % 16 * 2 ^ 8) op2 * 2 ^ 4) buf

-- 0xb1 and 0xc7: four bits of registers.
unfoldable pub decode_low_mask : Cmd → (old : ℕ) (buf : List ℕ) → Decoded
decode_low_mask cmd old buf = do
  (op2, buf) ← read_op buf
  if (op2 == 0) || not (op2 / 16 % 16 == 0)
      then command Cmd.reserved old buf
      else command cmd (op2 % 16) buf

-- 0xa0 to 0xaf
abbrev pub reg_range : ℕ → ℕ
reg_range op =
    let range = (2 ^ (op % 8 + 1) - 1) * 2 ^ 4 in
    if test_bit op 3 then bit_or range (2 ^ 14) else range

abbrev pub vfp_shift_16 : ℕ
vfp_shift_16 = 2 ^ 16

abbrev pub vfp_double : ℕ
vfp_double = 2 ^ 17

-- 0xb3, 0xc8 and 0xc9
unfoldable pub decode_vfp : (op : ℕ) (buf : List ℕ) → Decoded
decode_vfp op buf = do
  (value, buf) ← read_op buf
  let value = if op == 0xc8 then bit_or value vfp_shift_16 else value
  command Cmd.vfp_pop (if not (op == 0xb3) then bit_or value vfp_double else value) buf

-- The instructions from 0xb0 on.
unfoldable pub decode_high : (op old : ℕ) (buf : List ℕ) → Decoded
decode_high op old buf =
    if op == 0xb0
    then command Cmd.finish old []
    else if op == 0xb1
    then decode_low_mask Cmd.reg_pop old buf
    else if op == 0xb2
    then (do
      (offset, buf) ← read_offset buf 0 0
      command Cmd.data_pop ((offset * 4 + 0x204) % word32_mod) buf)
    else if (op == 0xb3) || ((op == 0xc8) || (op == 0xc9))
    then decode_vfp op buf
    else if (op / 8 == 0xb8 / 8) || (op / 8 == 0xd0 / 8)
    then command Cmd.vfp_pop
        (if op / 8 == 0xd0 / 8
          then bit_or (bit_or 0x80 (op % 8)) vfp_double
          else bit_or 0x80 (op % 8))
        buf
    else if leb 0xc0 op && leb op 0xc5
    then command Cmd.wreg_pop (bit_or 0xa0 (op % 8)) buf
    else if op == 0xc6
    then (do (value, buf) ← read_op buf; command Cmd.wreg_pop value buf)
    else if op == 0xc7
    then decode_low_mask Cmd.wcgr_pop old buf
    else command Cmd.reserved old buf

-- One instruction, whose first byte is `op`.
unfoldable pub decode_op : (op old : ℕ) (buf : List ℕ) → Decoded
decode_op op old buf =
    if op / 64 == 0
    then command Cmd.data_pop (op % 64 * 4 + 4) buf
    else if op / 64 == 1
    then command Cmd.data_push (op % 64 * 4 + 4) buf
    else if op / 16 == 8
    then decode_reg_mask op old buf
    else if op / 16 == 9
    then if (op == 0x9d) || (op == 0x9f)
      then command Cmd.reserved old buf
      else command Cmd.reg_to_sp (op % 16) buf
    else if op / 16 == 10
    then command Cmd.reg_pop (reg_range op) buf
    else decode_high op old buf

-- The loop, for `fuel` instructions. `edata` is not set before the first.
unfoldable pub decode_loop :
    ArmSpace → (fuel : ℕ) (old : ℕ) (buf : List ℕ) → ArmCursor → Result ArmCursor
decode_loop space fuel old [] c = ok c
decode_loop space zero old (op ∷ buf) c = stop out_of_fuel
decode_loop space (suc fuel) old (op ∷ buf) c = do
  (edata, buf) ← decode_op op old buf
  c ← arm_exidx_apply_cmd space edata c
  decode_loop space fuel edata.value buf c

-- An instruction takes at least a byte, so there are as many rounds as bytes at most.
unfoldable pub arm_exidx_decode : ArmSpace → (buf : List ℕ) → ArmCursor → Result ArmCursor
arm_exidx_decode space [] c = stop aborted
arm_exidx_decode space (op ∷ buf) c = decode_loop space (suc (length buf)) 0 (op ∷ buf) c
