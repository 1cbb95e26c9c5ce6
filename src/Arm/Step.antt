-- ===== src/Arm/Step.antt =====
-- src/arm/Gstep.c, arm_exidx_step: a step to the caller by the exception tables.
pub mod Unwinds
use libunwind.Prelude.{ℕ, ◌+◌, ◌-◌, ◌%◌, Bool, true, false, ◌==◌, ◌&&◌, not, if◌then◌else◌}
use libunwind.Result.{
  Error, unspec, nomem, badreg, readonlyreg, stopunwind, invalidip, badframe, inval, badversion,
  noinfo, Result, ok, err, stop, ◌>>=◌,
}
use libunwind.Dwarf.Types.{
  Format, dynamic, table, remote_table, arm_exidx, ip_offset, remote_table_64,
}
use libunwind.Arm.{ArmSpace, ArmCursor, ArmProcInfo, word32_mod, null_loc, update}
use libunwind.Arm.Apply.{reg_pc}
use libunwind.Arm.Extract.{arm_exidx_extract}
use libunwind.Arm.Decode.{arm_exidx_decode}

abbrev pub is_arm_exidx : Format → Bool
is_arm_exidx arm_exidx = true
is_arm_exidx dynamic = false
is_arm_exidx table = false
is_arm_exidx remote_table = false
is_arm_exidx ip_offset = false
is_arm_exidx remote_table_64 = false

abbrev is_noinfo : Error → Bool
is_noinfo noinfo = true
is_noinfo unspec = false
is_noinfo nomem = false
is_noinfo badreg = false
is_noinfo readonlyreg = false
is_noinfo stopunwind = false
is_noinfo invalidip = false
is_noinfo badframe = false
is_noinfo inval = false
is_noinfo badversion = false

-- The return address is behind the call; the lowest bit of an address stands for the Thumb mode.
abbrev pub lookup_ip : (use_prev_instr : Bool) → ℕ → ℕ
lookup_ip use_prev_instr ip =
    if use_prev_instr then (ip - ip % 2 + word32_mod - 1) % word32_mod else ip

-- `unwi_find_dynamic_proc_info`, and where it knows nothing `tdep_find_proc_info`. Another failure of
-- the first leaves the cursor's `pi` as it was.
abbrev pub find_either : Result ArmProcInfo → Result ArmProcInfo → ArmProcInfo → Result ArmProcInfo
find_either (ok pi) find old = ok pi
find_either (err e) find old = if is_noinfo e then find else ok old
find_either (stop s) find old = stop s

-- The frame of the caller, and whether there is one.
unfoldable pub arm_exidx_step :
    ArmSpace
    → (find_dynamic find : ℕ → Result ArmProcInfo) → (pi : ArmProcInfo) (use_prev_instr : Bool)
    → ArmCursor
    → Result (ArmCursor × Bool)
arm_exidx_step space find_dynamic find pi use_prev_instr c = do
  let ip = lookup_ip use_prev_instr c.ip
  pi ← find_either (find_dynamic ip) (find ip) pi
  if is_arm_exidx pi.format
      then (do
        buf ← arm_exidx_extract space pi.unwind_info
        next ← arm_exidx_decode space buf (record c { loc = update c.loc reg_pc null_loc })
        if (next.ip == c.ip) && (next.cfa == c.cfa)
            then err badframe
            else ok (next, not (next.ip == 0)))
      else err noinfo
