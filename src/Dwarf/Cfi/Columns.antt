-- ===== src/Dwarf/Cfi/Columns.antt =====
-- Writing a column changes one rule of the row that a register state holds.
use libunwind.Prelude.{
  ℕ, ◌+◌, ◌<◌, ◌≤◌, ◌≡◌, ◌≢◌, sym, ◌∙◌, arith, Bool-cases, inl, inr, ◌==◌, lt→ltb, length, set,
  get_elem?, length-set, get_elem?-set_self, get_elem?-set_ne, some,
}
use mathlib.Core.Path.{subst}
use libunwind.Result.{ok}
use libunwind.Dwarf.Cfi.State.{Column, Where, RegState, Cfi, set_reg}
use libunwind.Dwarf.Cfi.Table.{Rule, Row, set_rule, column_of, HoldsRules, HoldsRow}

abbrev pub put : RegState → ℕ → Column → RegState
put rs r c = record rs { columns = set rs.columns r c }

pub set_reg-put :
    (s : Cfi) (r : ℕ) (w : Where) (v : ℕ)
    → r < length s.current.columns
    → set_reg s r w v ≡ ok (record s { current = put s.current r (record { place = w; val = v }) })
unfolding set_reg
set_reg-put s r w v h = rw (lt→ltb r (length s.current.columns) h)

module _ (regs : ℕ) where
  pub HoldsRules-put :
      (rs : RegState) (rules : ℕ → Rule) (r : ℕ) (x : Rule)
      → r < regs
      → HoldsRules regs rs rules
      → HoldsRules regs (put rs r (column_of x)) (set_rule r x rules)
  HoldsRules-put rs rules r x h (len, at) = (
    length-set rs.columns r (column_of x) ∙ len,
    λ q below. elim (Bool-cases (q == r)) [
      | inl same ↦
          let e : q ≡ r = ground arith in
          rw same (
            subst (λ p. get_elem? (set rs.columns r (column_of x)) p ≡ some (column_of x)) (sym e)
              (get_elem?-set_self rs.columns r (column_of x) (omega arith)))
      | inr other ↦
          let differ : r ≢ q = ground arith in
          rw other (get_elem?-set_ne rs.columns r q (column_of x) differ ∙ at q below)
    ],
  )

  pub HoldsRow-put :
      (rs : RegState) (row : Row) (r : ℕ) (x : Rule)
      → r < regs
      → HoldsRow regs rs row
      → HoldsRow regs (put rs r (column_of x)) (record row { rules = set_rule r x row.rules })
  HoldsRow-put rs row r x h (rules, cfa, off) = (
    HoldsRules-put rs row.rules r x h rules,
    get_elem?-set_ne rs.columns r regs (column_of x) (omega arith) ∙ cfa,
    get_elem?-set_ne rs.columns r (regs + 1) (column_of x) (omega arith) ∙ off,
  )

  pub HoldsRules-above :
      (rs : RegState) (rules : ℕ → Rule) (r : ℕ) (c : Column)
      → regs ≤ r
      → HoldsRules regs rs rules
      → HoldsRules regs (put rs r c) rules
  HoldsRules-above rs rules r c h (len, at) = (
    length-set rs.columns r c ∙ len,
    λ q below. get_elem?-set_ne rs.columns r q c (omega arith) ∙ at q below,
  )

  pub HoldsRow-cfa_register :
      (rs : RegState) (row : Row) (v : ℕ)
      → HoldsRow regs rs row
      → HoldsRow regs
          (put rs regs (record { place = Where.reg; val = v }))
          (record row { cfa_register = v })
  HoldsRow-cfa_register rs row v (rules, cfa, off) =
      let c : Column = record { place = Where.reg; val = v } in
      (
        HoldsRules-above rs row.rules regs c (omega arith) rules,
        get_elem?-set_self rs.columns regs c (omega (arith, rules.0)),
        get_elem?-set_ne rs.columns regs (regs + 1) c (omega arith) ∙ off,
      )

  pub HoldsRow-cfa_offset :
      (rs : RegState) (row : Row) (v : ℕ)
      → HoldsRow regs rs row
      → HoldsRow regs
          (put rs (regs + 1) (record { place = Where.undef; val = v }))
          (record row { cfa_offset = v })
  HoldsRow-cfa_offset rs row v (rules, cfa, off) =
      let c : Column = record { place = Where.undef; val = v } in
      (
        HoldsRules-above rs row.rules (regs + 1) c (omega arith) rules,
        get_elem?-set_ne rs.columns (regs + 1) regs c (omega arith) ∙ cfa,
        get_elem?-set_self rs.columns (regs + 1) c (omega (arith, rules.0)),
      )
