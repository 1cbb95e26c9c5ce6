-- ===== src/Arm/Step/Unwinds.antt =====
-- A whole step: the search of the section, the instructions of the entry and their effect.
use libunwind.Prelude.{
  ℕ, ◌+◌, ◌*◌, ◌≤◌, ◌<◌, ◌≡◌, refl, sym, ap, ◌∙◌, arith, Bool, true, inl, inr, Bool-cases, ltb,
  ltb→lt, ◌==◌, ◌&&◌, not, if◌then◌else◌, List, ◌++◌,
}
use libunwind.Result.{Result, ok, err, noinfo, badframe, ◌>>=◌, bind_assoc}
use libunwind.Dwarf.Types.{arm_exidx}
use libunwind.Dwarf.Search.{DynInfo}
use libunwind.Arm.{ArmSpace, ArmCursor, ArmProcInfo, null_loc, update}
use libunwind.Arm.Apply.{reg_pc}
use libunwind.Arm.Extract.{arm_exidx_extract}
use libunwind.Arm.Extract.Stored.{Stored, extract-decode}
use libunwind.Arm.Decode.{arm_exidx_decode}
use libunwind.Arm.Decode.Instruction.{Instr, encode, run_all, AreValid}
use libunwind.Arm.Search.{arm_search_unwind_table}
use libunwind.Arm.Search.Loop.{HoldsIndex}
use libunwind.Arm.Search.Function.{search-FindsEntry}
use libunwind.Arm.Step.{lookup_ip, arm_exidx_step}

-- The caller's frame, unless nothing has changed.
abbrev pub step_to : ArmCursor → ArmCursor → Result (ArmCursor × Bool)
step_to c next =
    if (next.ip == c.ip) && (next.cfa == c.cfa) then err badframe else ok (next, not (next.ip == 0))

module _ (space : ArmSpace) (di : DynInfo) (m : ℕ) (v : ℕ → ℕ)
    (find_dynamic : ℕ → Result ArmProcInfo) (pi : ArmProcInfo) (use_prev_instr : Bool)
    (c : ArmCursor) (holds : HoldsIndex space di.table_data m v) (size : di.table_len ≡ 8 * (m + 1))
    (sorted : (j k : ℕ) → j ≤ k → k ≤ m → v j ≤ v k)
    (no_dynamic : find_dynamic (lookup_ip use_prev_instr c.ip) ≡ err noinfo) where
  -- The program counter counts as not saved.
  abbrev unsaved : ArmCursor
  unsaved = record c { loc = update c.loc reg_pc null_loc }

  step_found :
      (find : ℕ → Result ArmProcInfo) (p : ArmProcInfo) (entry : ℕ)
      → find (lookup_ip use_prev_instr c.ip) ≡ ok p
      → p.format ≡ arm_exidx
      → p.unwind_info ≡ entry
      → arm_exidx_step space find_dynamic find pi use_prev_instr c ≡ (
          (arm_exidx_extract space entry >>= (λ buf. arm_exidx_decode space buf unsaved))
          >>= step_to c)
  unfolding arm_exidx_step
  step_found find p entry found format info =
      rw (no_dynamic, found, format, info)
        (sym (
          bind_assoc (arm_exidx_extract space entry) (λ buf. arm_exidx_decode space buf unsaved)
            (step_to c)))

  -- Only one entry is the last one at or before an address.
  same_entry :
      (k n : ℕ)
      → k ≤ m
      → n ≤ m
      → v k ≤ lookup_ip use_prev_instr c.ip
      → v n ≤ lookup_ip use_prev_instr c.ip
      → ((j : ℕ) → k < j → j ≤ m → lookup_ip use_prev_instr c.ip < v j)
      → ((j : ℕ) → n < j → j ≤ m → lookup_ip use_prev_instr c.ip < v j)
      → n ≡ k
  same_entry k n inside inside' start start' last last' = elim (Bool-cases (ltb k n)) [
    | inl less ↦ absurd (omega (arith, last n (ltb→lt k n less) inside'))
    | inr more ↦ elim (Bool-cases (ltb n k)) [
      | inl less ↦ absurd (omega (arith, last' k (ltb→lt n k less) inside))
      | inr same ↦ ground arith
    ]
  ]

  -- Where memory holds a sorted table below 2^32, the address of the step lies in the function of entry
  -- `k`, nothing is registered for it, and that entry stores a sequence of `Instr` (the ABI's unwind
  -- instructions at 0x00 to 0xb3, 0xb8 to 0xbf, 0xc9 and 0xd0 to 0xd7, but for the refused and reserved
  -- ones, with a number of at most four bytes at 0xb2; 0xc0 to 0xc8 are left out): the step finds them and changes the cursor as they say, one after the other. It
  -- fails with `badframe` where neither the address nor the frame has changed, and tells by an address
  -- of 0 that there is no caller.
  pub step-run_all :
      (k : ℕ) (is : List Instr) (pad : List ℕ)
      → k ≤ m
      → v k ≤ lookup_ip use_prev_instr c.ip
      → ((j : ℕ) → k < j → j ≤ m → lookup_ip use_prev_instr c.ip < v j)
      → AreValid is
      → Stored space (di.table_data + 8 * k) (encode is ++ pad)
      → arm_exidx_step space find_dynamic
          (λ ip. arm_search_unwind_table space ip di pi true)
          pi
          use_prev_instr
          c
        ≡ (run_all space is unsaved >>= step_to c)
  step-run_all k is pad inside start last valid stored =
      elim (search-FindsEntry space (lookup_ip use_prev_instr c.ip) di pi true m v holds size
        sorted) [
          | inl (before, _) ↦ absurd (omega (arith, sorted 0 k (omega arith) inside))
          | inr (n, inside', start', last', (p, found, (_, _, info, format))) ↦
              let same : n ≡ k = same_entry k n inside inside' start start' last last' in
              step_found (λ ip. arm_search_unwind_table space ip di pi true) p
                (di.table_data + 8 * k) found (format refl)
                (info refl ∙ ap (λ (i : ℕ). di.table_data + 8 * i) same)
              ∙ ap (λ r. r >>= step_to c)
                  (extract-decode space (di.table_data + 8 * k) is pad unsaved valid stored)
        ]
