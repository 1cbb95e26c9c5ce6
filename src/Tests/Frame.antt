-- ===== src/Tests/Frame.antt =====
-- A frame with a return address below the CFA, and a target whose map of register numbers swaps two.
use libunwind.Prelude.{ℕ, zero, suc, ◌-◌, ◌<◌, ◌≡◌, refl, arith, true, false, List, [], ◌∷◌}
use libunwind.Prelude.Bits.{word_mod}
use libunwind.Result.{ok, err, badreg, Gives}
use libunwind.Dwarf.Read.{dwarf_readu8}
use libunwind.Dwarf.Read.Bytes.{Holds}
use libunwind.Dwarf.Cfi.State.{Where, Column, RegState, WindowSave}
use libunwind.Dwarf.Frame.{
  Loc, LocType, null_loc, Frame, FrameEnv, eval_location_expr, at_index, compute_cfa, cfa_register,
  apply_columns, apply_column, return_ip, dwarf_get, apply_reg_state,
}
use libunwind.Dwarf.Frame.Applied.{FollowsFrom, Unwound, apply_reg_state-Unwound}
use libunwind.Dwarf.Frame.Plain.{IsPlain, apply_columns-plain}
use libunwind.Dwarf.Frame.Mapped.{eval_location_expr-twice}
use libunwind.Tests.Memory.{memory, stand, stand-Holds}

-- At 0 the expression DW_OP_reg1; at 8 the return address 0x500.
abbrev stack_bytes : List ℕ
stack_bytes = 1 ∷ 0x51 ∷ 0 ∷ 0 ∷ 0 ∷ 0 ∷ 0 ∷ 0 ∷ 0 ∷ 5 ∷ []

abbrev env : FrameEnv
env = record {
  context = record {
    space = memory stack_bytes;
    regnum_map = 0 ∷ 2 ∷ 1 ∷ [];
    get_reg = λ r. err badreg;
  };
  access_reg = λ r. err badreg;
  target = record {
    preserved = 3;
    sp = 1;
    sp_is_cfa = true;
    mips = false;
    arm = false;
    window_save = WindowSave.elsewhere;
  };
  rounds = 4;
}

abbrev frame : Frame
frame = record { ip = 0x400; cfa = 8; loc = null_loc ∷ null_loc ∷ null_loc ∷ [] }

-- CFA = register 1 + 8; the return address, column 2, at CFA - 8; register 0 is kept.
abbrev state : RegState
state = record {
  ret_addr_column = 2;
  columns =
      record { place = Where.same; val = 0 }
      ∷ record { place = Where.undef; val = 0 }
      ∷ record { place = Where.cfarel; val = word_mod - 8 }
      ∷ record { place = Where.reg; val = 1 }
      ∷ record { place = Where.undef; val = 8 }
      ∷ [];
}

abbrev caller : Frame
caller = record {
  ip = 0x500;
  cfa = 16;
  loc = null_loc ∷ null_loc ∷ record { val = 8; type = LocType.mem_type } ∷ [];
}

frame-caller : apply_reg_state env frame state ≡ ok (caller, true)
unfolding apply_reg_state compute_cfa cfa_register apply_columns apply_column return_ip dwarf_get
frame-caller = refl

apply_reg_state-Unwound_example : Gives (Unwound env frame state) (apply_reg_state env frame state)
apply_reg_state-Unwound_example = apply_reg_state-Unwound env frame state

state-IsPlain :
    (j : ℕ) → j < 3 → (c : Column) × (at_index state.columns j ≡ ok c) × IsPlain 3 c.place c.val
state-IsPlain zero h = (record { place = Where.same; val = 0 }, refl, tt)
state-IsPlain (suc zero) h = (record { place = Where.undef; val = 0 }, refl, tt)
state-IsPlain (suc (suc zero)) h = (record { place = Where.cfarel; val = word_mod - 8 }, refl, tt)
state-IsPlain (suc (suc (suc j))) h = absurd (omega arith)

apply_columns-plain_example :
    (new : List Loc) × (apply_columns env 16 state 3 0 frame.loc ≡ ok new)
    × FollowsFrom env 16 state 3 0 frame.loc new
apply_columns-plain_example = apply_columns-plain env 16 state frame.loc state-IsPlain

expression-Holds : Holds (memory stack_bytes) 0 (1 ∷ 0x51 ∷ [])
unfolding dwarf_readu8 stand
expression-Holds = stand-Holds (memory stack_bytes) 0 (1 ∷ 0x51 ∷ []) refl

eval_location_expr-twice_example :
    eval_location_expr env 0 0 ≡ ok (record { val = 1; type = LocType.reg_type })
eval_location_expr-twice_example =
    eval_location_expr-twice env 0 0 1 3 refl (omega arith) (omega arith) expression-Holds
