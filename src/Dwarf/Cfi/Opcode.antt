-- ===== src/Dwarf/Cfi/Opcode.antt =====
-- include/dwarf.h: `dwarf_cfa_t`, the call-frame instructions.
use libunwind.Prelude.{ℕ, ◌/◌, ◌%◌, ◌==◌, ◌||◌, if◌then◌else◌}

-- The three with an operand in the opcode byte hold it. `unexpected` has labels in the `switch`
-- that refuse it, `unlisted` has none: the `switch` does nothing.
pub data Cfa : Type 0 where
  advance_loc offset restore : ℕ → Cfa
  nop set_loc advance_loc1 advance_loc2 advance_loc4 mips_advance_loc8 : Cfa
  offset_extended offset_extended_sf restore_extended undefined_ same_value register_ : Cfa
  remember restore_top def_cfa def_cfa_sf def_cfa_register def_cfa_offset def_cfa_offset_sf : Cfa
  def_cfa_expression expression val_expression args_size negative_offset_extended : Cfa
  window_save unexpected unlisted : Cfa

unfoldable pub decode_low : ℕ → Cfa
decode_low op =
    if op == 0x00
    then nop
    else if op == 0x01
    then set_loc
    else if op == 0x02
    then advance_loc1
    else if op == 0x03
    then advance_loc2
    else if op == 0x04
    then advance_loc4
    else if op == 0x05
    then offset_extended
    else if op == 0x06
    then restore_extended
    else if op == 0x07
    then undefined_
    else if op == 0x08
    then same_value
    else if op == 0x09
    then register_
    else if op == 0x0a
    then remember
    else if op == 0x0b
    then restore_top
    else if op == 0x0c
    then def_cfa
    else if op == 0x0d
    then def_cfa_register
    else if op == 0x0e
    then def_cfa_offset
    else if op == 0x0f
    then def_cfa_expression
    else if op == 0x10
    then expression
    else if op == 0x11
    then offset_extended_sf
    else if op == 0x12
    then def_cfa_sf
    else if op == 0x13
    then def_cfa_offset_sf
    else if op == 0x16
    then val_expression
    else if op == 0x1d
    then mips_advance_loc8
    else if op == 0x2d
    then window_save
    else if op == 0x2e
    then args_size
    else if op == 0x2f
    then negative_offset_extended
    else if op == 0x1c || op == 0x3c
    then unexpected
    else unlisted

-- DWARF_CFA_OPCODE_MASK is the two top bits, DWARF_CFA_OPERAND_MASK the rest.
unfoldable pub decode_cfa : ℕ → Cfa
unfolding decode_low
decode_cfa op =
    if op / 64 == 0
    then decode_low op
    else if op / 64 == 1
    then advance_loc (op % 64)
    else if op / 64 == 2
    then offset (op % 64)
    else restore (op % 64)
