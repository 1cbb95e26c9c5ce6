-- ===== src/Tests/Arm.antt =====
-- Two functions in an .ARM.exidx section: the second one adds 8 to the stack pointer and pops r4, r5 and
-- the return address.
use libunwind.Prelude.{
  ℕ, zero, suc, ◌+◌, ◌*◌, ◌≤◌, ◌<◌, ◌≡◌, refl, arith, true, false, ◌==◌, if◌then◌else◌, List, [],
  ◌∷◌, ◌++◌, Option, none, some,
}
use libunwind.Result.{ok, err, stop, noinfo, out_of_bounds, Gives, ◌>>=◌}
use libunwind.Dwarf.Types.{Format}
use libunwind.Dwarf.Search.{DynInfo}
use libunwind.Arm.{ArmSpace, ArmCursor, ArmProcInfo, null_loc, update, prel31_to_addr}
use libunwind.Arm.Apply.{reg_pc}
use libunwind.Arm.Decode.{arm_exidx_decode}
use libunwind.Arm.Decode.Instruction.{Instr, add_vsp, pop_range, encode, run_all, AreValid}
use libunwind.Arm.Decode.Instruction.Run.{decode-run}
use libunwind.Arm.Decode.Truncated.{decode-truncated}
use libunwind.Arm.Extract.{arm_exidx_extract}
use libunwind.Arm.Extract.Bounds.{Fits, extract-Fits}
use libunwind.Arm.Extract.Stored.{Stored, inline, extract-decode}
use libunwind.Arm.Search.{arm_search_unwind_table}
use libunwind.Arm.Search.Loop.{HoldsIndex}
use libunwind.Arm.Search.Function.{FindsEntry, search-FindsEntry}
use libunwind.Arm.Step.{arm_exidx_step}
use libunwind.Arm.Step.Unwinds.{step_to, step-run_all}

abbrev words : ℕ → Option ℕ
words a =
    if a == 0x1000
    then some 0x7000
    else if a == 0x1004
    then some 0x80a8b0b0
    else if a == 0x1008
    then some 0x70f8
    else if a == 0x100c
    then some 0x8001a9b0
    else if a == 0x2010
    then some 0x9000
    else none

abbrev space : ArmSpace
space = record { access_mem = words; access_reg = λ r. none }

abbrev starts : ℕ → ℕ
starts zero = 0x8000
starts (suc k) = 0x8100

abbrev section : DynInfo
section = record {
  start_ip = 0x8000;
  end_ip = 0x8200;
  gp = 0;
  format = Format.arm_exidx;
  segbase = 0;
  table_len = 16;
  table_data = 0x1000;
}

abbrev nothing : ArmProcInfo
nothing = record {
  start_ip = 0;
  end_ip = 0;
  lsda = 0;
  handler = 0;
  format = Format.dynamic;
  unwind_info_size = 0;
  unwind_info = 0;
}

abbrev frame : ArmCursor
frame = record { ip = 0x8104; cfa = 0x2000; loc = λ i. record { val = i; type = 2 } }

abbrev unsaved_frame : ArmCursor
unsaved_frame = record frame { loc = update frame.loc reg_pc null_loc }

abbrev program : List Instr
program = add_vsp 1 ∷ pop_range 1 true ∷ []

program-AreValid : AreValid program
program-AreValid = (omega arith, (omega arith, tt))

space-reads : (k : ℕ) → k ≤ 1 → prel31_to_addr space (0x1000 + 8 * k) ≡ ok (starts k)
unfolding prel31_to_addr
space-reads zero h = refl
space-reads (suc zero) h = refl
space-reads (suc (suc k)) h = absurd (omega arith)

space-HoldsIndex : HoldsIndex space 0x1000 1 starts
space-HoldsIndex = (omega arith, space-reads)

starts_sorted : (j k : ℕ) → j ≤ k → k ≤ 1 → starts j ≤ starts k
starts_sorted zero zero h inside = omega arith
starts_sorted zero (suc k) h inside = omega arith
starts_sorted (suc j) zero h inside = absurd (omega arith)
starts_sorted (suc j) (suc k) h inside = omega arith

second-Stored : Stored space 0x1008 (encode program ++ [])
second-Stored = inline 0x8100 0x8001a9b0 (0x70f8, refl, refl) refl refl

search-FindsEntry_example :
    FindsEntry 0x8104 section 1 starts true
      (arm_search_unwind_table space 0x8104 section nothing true)
search-FindsEntry_example =
    search-FindsEntry space 0x8104 section nothing true 1 starts space-HoldsIndex refl starts_sorted

decode-run_example :
    arm_exidx_decode space (0x01 ∷ 0xa9 ∷ 0xb0 ∷ []) unsaved_frame
    ≡ run_all space program unsaved_frame
decode-run_example = decode-run space [] program unsaved_frame program-AreValid

extract-decode_example :
    (arm_exidx_extract space 0x1008 >>= (λ buf. arm_exidx_decode space buf unsaved_frame))
    ≡ run_all space program unsaved_frame
extract-decode_example =
    extract-decode space 0x1008 program [] unsaved_frame program-AreValid second-Stored

extract-Fits_example : Gives (Fits 24) (arm_exidx_extract space 0x1008)
extract-Fits_example = extract-Fits space 0x1008

decode-truncated_example :
    arm_exidx_decode space (0xb2 ∷ 0x80 ∷ 0xb0 ∷ []) frame ≡ stop out_of_bounds
decode-truncated_example =
    decode-truncated space (0x80 ∷ 0xb0 ∷ []) frame (omega arith, (omega arith, tt)) (omega arith)

last_function : (j : ℕ) → 1 < j → j ≤ 1 → 0x8104 < starts j
last_function j after within = absurd (omega arith)

step-run_all_example :
    arm_exidx_step space
      (λ ip. err noinfo)
      (λ ip. arm_search_unwind_table space ip section nothing true)
      nothing
      false
      frame
    ≡ (run_all space program unsaved_frame >>= step_to frame)
step-run_all_example =
    step-run_all space section 1 starts (λ ip. err noinfo) nothing false frame space-HoldsIndex refl
      starts_sorted refl 1 program [] (omega arith) (omega arith) last_function program-AreValid
      second-Stored
