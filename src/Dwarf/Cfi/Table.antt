-- ===== src/Dwarf/Cfi/Table.antt =====
-- The table that call-frame instructions stand for: for each location a row, with the register and
-- offset of the CFA and a rule for each register. Here, what an instruction does to a row, its
-- code, and when a register state stands for a row.
use libunwind.Prelude.{
  ◌++◌, ℕ, ◌+◌, ◌*◌, ◌%◌, ◌<◌, ◌≡◌, ◌==◌, if◌then◌else◌, List, [], ◌∷◌, length, get_elem?, Option,
  none, some,
}
use libunwind.Prelude.Bits.{word_mod}
use libunwind.Dwarf.Leb128.RoundTrip.{uleb128}
use libunwind.Dwarf.Cfi.State.{Column, Where, RegState, Cfi}

pub data Rule : Type 0 where
  undefined same : Rule
  offset register : ℕ → Rule

pub record Row : Type 0 where
  pub cfa_register : ℕ
  pub cfa_offset : ℕ
  pub rules : ℕ → Rule

-- The row that is built, the row after the CIE's instructions, and the remembered rows.
pub record Table : Type 0 where
  pub loc : ℕ
  pub row : Row
  pub initial : ℕ → Rule
  pub saved : List Row

pub data Instr : Type 0 where
  advance_loc : ℕ → Instr
  offset : ℕ → ℕ → Instr
  undefined same : ℕ → Instr
  register : ℕ → ℕ → Instr
  restore : ℕ → Instr
  def_cfa : ℕ → ℕ → Instr
  def_cfa_register def_cfa_offset : ℕ → Instr
  remember_state restore_state : Instr

-- The code of an instruction.
abbrev pub encode : Instr → List ℕ
encode (advance_loc n) = (0x40 + n) ∷ []
encode (offset r v) = (0x80 + r) ∷ uleb128 9 v
encode (undefined r) = 0x07 ∷ uleb128 9 r
encode (same r) = 0x08 ∷ uleb128 9 r
encode (register r v) = 0x09 ∷ uleb128 9 r ++ uleb128 9 v
encode (restore r) = (0xc0 + r) ∷ []
encode (def_cfa r v) = 0x0c ∷ uleb128 9 r ++ uleb128 9 v
encode (def_cfa_register r) = 0x0d ∷ uleb128 9 r
encode (def_cfa_offset v) = 0x0e ∷ uleb128 9 v
encode remember_state = 0x0a ∷ []
encode restore_state = 0x0b ∷ []

-- The registers are the target's, and the numbers fit the code.
abbrev pub Encodes : ℕ → Instr → Type 0
Encodes regs (advance_loc n) = n < 64
Encodes regs (offset r v) = (r < regs) × (r < 64) × (v < word_mod)
Encodes regs (undefined r) = (r < regs) × (r < word_mod)
Encodes regs (same r) = (r < regs) × (r < word_mod)
Encodes regs (register r v) = (r < regs) × (r < word_mod) × (v < word_mod)
Encodes regs (restore r) = (r < regs) × (r < 64)
Encodes regs (def_cfa r v) = (r < regs) × (r < word_mod) × (v < word_mod)
Encodes regs (def_cfa_register r) = (r < regs) × (r < word_mod)
Encodes regs (def_cfa_offset v) = v < word_mod
Encodes regs remember_state = Unit
Encodes regs restore_state = Unit

abbrev pub set_rule : ℕ → Rule → (ℕ → Rule) → ℕ → Rule
set_rule r x rules q = if q == r then x else rules q

abbrev pub with_rule : ℕ → Rule → Table → Table
with_rule r x t = record t { row = record t.row { rules = set_rule r x t.row.rules } }

-- The last remembered row comes back, if there is one.
abbrev pub come_back : Table → List Row → Option Table
come_back t [] = none
come_back t (row ∷ rest) = some (record t { row = row; saved = rest })

-- What an instruction does, at the factors of the CIE.
abbrev pub apply : (code_align data_align : ℕ) → Instr → Table → Option Table
apply ca da (advance_loc n) t = some (record t { loc = (t.loc + n * ca) % word_mod })
apply ca da (offset r v) t = some (with_rule r (offset (v * da % word_mod)) t)
apply ca da (undefined r) t = some (with_rule r undefined t)
apply ca da (same r) t = some (with_rule r same t)
apply ca da (register r v) t = some (with_rule r (register v) t)
apply ca da (restore r) t = some (with_rule r (t.initial r) t)
apply ca da (def_cfa r v) t =
    some (record t { row = record t.row { cfa_register = r; cfa_offset = v } })
apply ca da (def_cfa_register r) t = some (record t { row = record t.row { cfa_register = r } })
apply ca da (def_cfa_offset v) t = some (record t { row = record t.row { cfa_offset = v } })
apply ca da remember_state t = some (record t { saved = t.row ∷ t.saved })
apply ca da restore_state t = come_back t t.saved

-- How a column holds a rule.
abbrev pub column_of : Rule → Column
column_of undefined = record { place = Where.undef; val = 0 }
column_of same = record { place = Where.same; val = 0 }
column_of (offset v) = record { place = Where.cfarel; val = v }
column_of (register v) = record { place = Where.reg; val = v }

-- The columns of the `regs` registers hold the rules.
abbrev pub HoldsRules : ℕ → RegState → (ℕ → Rule) → Type 0
HoldsRules regs rs rules =
    (length rs.columns ≡ regs + 2)
    × ((q : ℕ) → q < regs → get_elem? rs.columns q ≡ some (column_of (rules q)))

abbrev pub HoldsRow : ℕ → RegState → Row → Type 0
HoldsRow regs rs row =
    HoldsRules regs rs row.rules
    × (get_elem? rs.columns regs ≡ some (record { place = Where.reg; val = row.cfa_register }))
    × (get_elem? rs.columns (regs + 1)
        ≡ some (record { place = Where.undef; val = row.cfa_offset }))

abbrev pub HoldsRows : ℕ → List RegState → List Row → Type 0
HoldsRows regs [] [] = Unit
HoldsRows regs (rs ∷ rest) (row ∷ rows) = HoldsRow regs rs row × HoldsRows regs rest rows
HoldsRows regs [] (row ∷ rows) = ⊥
HoldsRows regs (rs ∷ rest) [] = ⊥

-- The state of a run stands for a table.
abbrev pub Stands : ℕ → Cfi → Table → Type 0
Stands regs s t =
    (s.ip ≡ t.loc)
    × HoldsRow regs s.current t.row
    × HoldsRules regs s.initial t.initial
    × HoldsRows regs s.rs_stack t.saved
