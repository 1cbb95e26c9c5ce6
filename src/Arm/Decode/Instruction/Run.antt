-- ===== src/Arm/Decode/Instruction/Run.antt =====
-- Running a sequence of instructions: the decoder does what the ABI's table says.
use libunwind.Prelude.{
  ℕ, zero, suc, ◌+◌, ◌*◌, ◌/◌, ◌^◌, ◌≤◌, ◌<◌, ◌≡◌, refl, sym, ap, ◌∙◌, arith, true, false,
  Bool-cases, inl, inr, ltb, lt→ltb, not, if◌then◌else◌, List, [], ◌∷◌, ◌++◌, length, length-append,
}
use libunwind.Prelude.Bits.{test_bit}
use mathlib.Core.List.{append_assoc}
use native.Mathlib.Nat.{div-div-eq-div-mul, pow-suc}
use libunwind.Result.{ok, bind_ext, bind_ok}
use libunwind.Dwarf.Leb128.Decode.{groups}
use libunwind.Arm.{ArmSpace, ArmCursor, mem_loc, update, is_null_loc, get_loc, set_loc}
use libunwind.Arm.Apply.{
  reg_sp, reg_pc, reg_s0, add_cfa, exbuf_start, exbuf_count, pop_regs, pop_vfp, load_cfa,
  apply_finish, apply_reg_pop, apply_reg_to_sp, apply_vfp_pop, arm_exidx_apply_cmd,
}
use libunwind.Arm.Decode.{
  reg_range, vfp_double, decode_op, decode_high, decode_loop, arm_exidx_decode,
}
use libunwind.Arm.Decode.Instruction.{
  Instr, add_vsp, sub_vsp, pop_masked, set_vsp, pop_range, pop_low, add_vsp_far, pop_fstmx,
  pop_fstmx8, pop_double, pop_double8, IsValid, tail, masked, from_to, save, read_vsp, pop_core,
  pop_doubles, run, leave, encode, run_all, AreValid,
}
use libunwind.Arm.Decode.Instruction.Masks.{masked-shift, masked-low, masked-range, range_bit}
use libunwind.Arm.Decode.Instruction.Commands.{command_of, decode_op-command}

halve_shift : (m i : ℕ) → m / 2 ^ i / 2 ≡ m / 2 ^ suc i
halve_shift m i = div-div-eq-div-mul m (2 ^ i) 2 ∙ ap (λ (t : ℕ). m / t) (sym (pow-suc 2 i))

pub pop_regs-save :
    (mask n i : ℕ) (c : ArmCursor)
    → i + n ≤ 16
    → pop_regs mask n i c ≡ ok (save 4 (masked n i (mask / 2 ^ i)) c)
unfolding pop_regs set_loc masked save
pop_regs-save mask zero i c h = refl
pop_regs-save mask (suc n) i c h =
    let inside : ltb i 128 ≡ true = ground arith in
    elim (Bool-cases (test_bit mask i)) [
      | inl set ↦
          rw (set, inside, halve_shift mask i)
            (pop_regs-save mask n (suc i)
              (add_cfa (record c { loc = update c.loc i (mem_loc c.cfa) }) 4) (omega arith))
      | inr clear ↦ rw (clear, halve_shift mask i) (pop_regs-save mask n (suc i) c (omega arith))
    ]

pub pop_vfp-save :
    (n i : ℕ) (c : ArmCursor) → i + n ≤ 64 → pop_vfp n i c ≡ ok (save 8 (from_to n (reg_s0 + i)) c)
unfolding pop_vfp set_loc from_to save
pop_vfp-save zero i c h = refl
pop_vfp-save (suc n) i c h =
    let inside : ltb (reg_s0 + i) 128 ≡ true = ground arith in
    let saved : ArmCursor =
      add_cfa (record c { loc = update c.loc (reg_s0 + i) (mem_loc c.cfa) }) 8 in
    let next : reg_s0 + suc i ≡ suc (reg_s0 + i) = omega arith in
    rw inside (
      pop_vfp-save n (suc i) saved (omega arith)
      ∙ ap (λ (r : ℕ). ok (save 8 (from_to n r) saved)) next)

read_back :
    (space : ArmSpace) (c : ArmCursor) → load_cfa space c reg_sp ≡ read_vsp space (c.loc reg_sp) c
unfolding load_cfa get_loc
read_back space c = refl

pop_all : (mask : ℕ) (c : ArmCursor) → pop_regs mask 16 0 c ≡ ok (save 4 (masked 16 0 mask) c)
pop_all mask c =
    let whole : mask / 2 ^ 0 ≡ mask = omega arith in
    pop_regs-save mask 16 0 c (omega arith) ∙ ap (λ (m : ℕ). ok (save 4 (masked 16 0 m) c)) whole

-- Popping the registers of a mask.
reg_pop-core :
    (space : ArmSpace) (mask : ℕ) (c : ArmCursor)
    → apply_reg_pop space mask c ≡ pop_core space (masked 16 0 mask) (test_bit mask 13) c
unfolding apply_reg_pop
reg_pop-core space mask c = elim (Bool-cases (test_bit mask 13)) [
  | inl pops ↦ rw (pop_all mask c, pops) (read_back space (save 4 (masked 16 0 mask) c))
  | inr keeps ↦ rw (pop_all mask c, keeps)
]

vfp_pop-doubles :
    (x : ℕ) (c : ArmCursor)
    → apply_vfp_pop x c
      ≡ ok (
          if not (test_bit x 17)
          then add_cfa (pop_doubles (exbuf_start x) (exbuf_count x) c) 4
          else pop_doubles (exbuf_start x) (exbuf_count x) c)
unfolding apply_vfp_pop
vfp_pop-doubles x c = rw (pop_vfp-save (suc (exbuf_count x)) (exbuf_start x) c (omega arith))

vfp_pop_plain :
    (x first count : ℕ) (c : ArmCursor)
    → exbuf_start x ≡ first
    → exbuf_count x ≡ count
    → x < 2 ^ 17
    → apply_vfp_pop x c ≡ ok (add_cfa (pop_doubles first count c) 4)
vfp_pop_plain x first count c start extent small =
    let bit : test_bit x 17 ≡ false = ground arith in rw (vfp_pop-doubles x c, bit, start, extent)

vfp_pop_double :
    (x first count : ℕ) (c : ArmCursor)
    → exbuf_start x ≡ first
    → exbuf_count x ≡ count
    → x < 2 ^ 17
    → apply_vfp_pop (x + vfp_double) c ≡ ok (pop_doubles first count c)
vfp_pop_double x first count c start extent small =
    let bit : test_bit (x + vfp_double) 17 ≡ true = ground arith in
    let start' : exbuf_start (x + vfp_double) ≡ first = omega arith in
    let extent' : exbuf_count (x + vfp_double) ≡ count = omega arith in
    rw (vfp_pop-doubles (x + vfp_double) c, bit, start', extent')

reg_to_sp-run :
    (space : ArmSpace) (r : ℕ) (c : ArmCursor)
    → r < 16
    → apply_reg_to_sp space r c ≡ run space (set_vsp r) c
unfolding apply_reg_to_sp load_cfa get_loc set_loc
reg_to_sp-run space r c h =
    let small : ltb r 16 ≡ true = lt→ltb r 16 h in
    let inside : ltb r 128 ≡ true = lt→ltb r 128 (omega arith) in rw (small, inside)

pub apply_cmd-run :
    (space : ArmSpace) (i : Instr) (c : ArmCursor)
    → IsValid i
    → arm_exidx_apply_cmd space (command_of i) c ≡ run space i c
unfolding arm_exidx_apply_cmd
apply_cmd-run space (add_vsp n) c h = let same : n * 4 + 4 ≡ 4 * n + 4 = omega arith in rw same
apply_cmd-run space (sub_vsp n) c h = let same : n * 4 + 4 ≡ 4 * n + 4 = omega arith in rw same
apply_cmd-run space (pop_masked m) c h =
    let bit : test_bit (m * 16) 13 ≡ test_bit m 9 = ground arith in
    rw (reg_pop-core space (m * 16) c, masked-shift m, bit)
apply_cmd-run space (set_vsp r) c h = reg_to_sp-run space r c h.0
apply_cmd-run space (pop_range n lr) c h = rw (
  reg_pop-core space (reg_range (if lr then 0xa8 + n else 0xa0 + n)) c,
  masked-range n lr h,
  range_bit n lr h,
)
apply_cmd-run space (pop_low m) c (h, nonzero) =
    let bit : test_bit m 13 ≡ false = ground arith in
    rw (reg_pop-core space m c, masked-low m h, bit)
apply_cmd-run space (add_vsp_far bs) c h =
    let same : groups bs * 4 + 0x204 ≡ 0x204 + 4 * groups bs = omega arith in rw same
apply_cmd-run space (pop_fstmx first count) c (hf, hc) =
    vfp_pop_plain (first * 16 + count) first count c (omega arith) (omega arith) (omega arith)
apply_cmd-run space (pop_fstmx8 n) c h =
    vfp_pop_plain (8 * 16 + n) 8 n c (omega arith) (omega arith) (omega arith)
apply_cmd-run space (pop_double first count) c (hf, hc) =
    vfp_pop_double (first * 16 + count) first count c (omega arith) (omega arith) (omega arith)
apply_cmd-run space (pop_double8 n) c h =
    vfp_pop_double (8 * 16 + n) 8 n c (omega arith) (omega arith) (omega arith)

finish-leave : (space : ArmSpace) (c : ArmCursor) → apply_finish space c ≡ leave space c
unfolding apply_finish get_loc set_loc
finish-leave space c = elim (Bool-cases (is_null_loc (c.loc reg_pc))) [
  | inl unset ↦ rw unset
  | inr set ↦ rw set
]

module _ (space : ArmSpace) (pad : List ℕ) where
  decode_loop-run :
      (is : List Instr) (fuel old : ℕ) (c : ArmCursor)
      → length (encode is ++ pad) ≤ fuel
      → AreValid is
      → decode_loop space fuel old (encode is ++ pad) c ≡ run_all space is c
  unfolding decode_loop decode_op decode_high arm_exidx_apply_cmd
  decode_loop-run [] zero old c enough valid = absurd (omega arith)
  decode_loop-run [] (suc fuel) old c enough valid =
      rw (finish-leave space c) (bind_ok (leave space c))
  decode_loop-run (i ∷ is) zero old c enough valid = absurd (omega arith)
  decode_loop-run (i ∷ is) (suc fuel) old c enough (valid, all) =
      let apart : (tail i ++ encode is) ++ pad ≡ tail i ++ (encode is ++ pad) =
        append_assoc (tail i) (encode is) pad in
      let rest : length (encode is ++ pad) ≤ fuel =
        omega (arith, length-append (tail i) (encode is ++ pad), ap length apart) in
      rw (apart, decode_op-command i old (encode is ++ pad) valid, apply_cmd-run space i c valid)
        (bind_ext (run space i c) (decode_loop space fuel (command_of i).value (encode is ++ pad))
          (run_all space is) (λ c. decode_loop-run is fuel (command_of i).value c rest all))

  -- For a sequence of `Instr` (the ABI's unwind instructions at 0x00 to 0xb3, 0xb8 to 0xbf, 0xc9 and 0xd0
  -- to 0xd7, but for the refused and reserved ones, with a number of at most four bytes at 0xb2; 0xc0 to
  -- 0xc8 are left out), encoded as the ABI gives them and ended by 0xb0, the decoder
  -- changes the cursor as the instructions say, one after the other, and then takes the return address.
  -- What stands behind the 0xb0 does not matter.
  pub decode-run :
      (is : List Instr) (c : ArmCursor)
      → AreValid is
      → arm_exidx_decode space (encode is ++ pad) c ≡ run_all space is c
  unfolding arm_exidx_decode
  decode-run [] c valid = decode_loop-run [] (suc (length pad)) 0 c (omega arith) valid
  decode-run (i ∷ is) c valid =
      decode_loop-run (i ∷ is) (length (encode (i ∷ is) ++ pad)) 0 c (omega arith) valid
