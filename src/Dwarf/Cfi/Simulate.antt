-- ===== src/Dwarf/Cfi/Simulate.antt =====
-- One round of `run_cfi_program` does to the state what the instruction does to the table.
pub mod Rows
use libunwind.Prelude.{
  ℕ, zero, suc, ◌+◌, ◌-◌, ◌*◌, ◌%◌, ◌<◌, ◌≤◌, ◌≡◌, refl, sym, ap, ◌∙◌, arith, List, [], ◌∷◌, ◌++◌,
  length, length-append, some,
}
use mathlib.Core.Path.{subst}
use libunwind.Prelude.Bits.{word_mod}
use libunwind.Result.{Result, ok}
use libunwind.Dwarf.Read.Bytes.{after, Holds, Holds-front, Holds-back}
use libunwind.Dwarf.Leb128.RoundTrip.{uleb128, read_uleb128-uleb128}
use libunwind.Dwarf.Cfi.State.{
  Column, Where, RegState, Cfi, Env, read_regnum, set_column, set_reg, restore_column,
  remember_state, restore_from,
}
use libunwind.Dwarf.Cfi.Opcode.{Cfa, decode_cfa, decode_low}
use libunwind.Dwarf.Cfi.Step.{
  exec_cfa, exec_offset, exec_reg_val, exec_restore, exec_mark, exec_def_cfa, exec_def_cfa_register,
  exec_def_cfa_offset,
}
use libunwind.Dwarf.Cfi.Run.{step_cfa}
use libunwind.Dwarf.Cfi.Table.{
  Rule, Row, Table, with_rule, come_back, column_of, HoldsRow, HoldsRows, Stands,
}
use libunwind.Dwarf.Cfi.Opcode
use libunwind.Dwarf.Cfi.Columns.{
  put, set_reg-put, HoldsRow-put, HoldsRow-cfa_register, HoldsRow-cfa_offset,
}
use native.Mathlib.Nat.{zero-add, suc-add}

pub after-add : (a m n : ℕ) → after (after a m) n ≡ after a (m + n)
after-add a zero n = ap (λ (k : ℕ). after a k) (sym (zero-add n))
after-add a (suc m) n =
    after-add ((a + 1) % word_mod) m n ∙ ap (λ (k : ℕ). after a k) (sym (suc-add m n))

module _ (env : Env) where
  -- The call returns a state that stands for `t`, `k` bytes further on.
  abbrev pub Does : Cfi → Table → ℕ → Result Cfi → Type 0
  Does s t k m =
      (s' : Cfi) × (m ≡ ok s')
      × Stands env.target.preserved s' t
      × (s'.addr ≡ after s.addr k)
      × (s.pool ≤ s'.pool + 1)

  pub step_cfa-op :
      (s : Cfi) (op : ℕ) (i : Cfa)
      → Holds env.space s.addr (op ∷ [])
      → decode_cfa op ≡ i
      → step_cfa env s ≡ exec_cfa env i (record s { addr = after s.addr 1 })
  unfolding step_cfa
  step_cfa-op s op i (_, e, _) d = rw (e, d)

  pub read_regnum-eq :
      (a r : ℕ)
      → r < env.target.preserved
      → r < word_mod
      → Holds env.space a (uleb128 9 r)
      → read_regnum env a ≡ ok (r, after a (length (uleb128 9 r)))
  unfolding read_regnum
  read_regnum-eq a r h small holds =
      rw (read_uleb128-uleb128 env.space a r small holds) (ground arith)

  -- A rule is set.
  pub set_reg-Does :
      (s : Cfi) (t : Table) (a r : ℕ) (x : Rule)
      → r < env.target.preserved
      → Stands env.target.preserved s t
      → (s' : Cfi) × (set_reg (record s { addr = a }) r (column_of x).place (column_of x).val
          ≡ ok s')
        × Stands env.target.preserved s' (with_rule r x t)
        × (s'.addr ≡ a)
        × (s.pool ≤ s'.pool + 1)
  set_reg-Does s t a r x h (ip, row, init, saved) = (
    record s { addr = a; current = put s.current r (column_of x) },
    set_reg-put (record s { addr = a }) r (column_of x).place (column_of x).val
        (omega (arith, row.0.0)),
    (ip, HoldsRow-put env.target.preserved s.current t.row r x h row, init, saved),
    refl,
    omega arith,
  )

  abbrev regs : ℕ
  regs = env.target.preserved

  module _ (s : Cfi) (t : Table) (stands : Stands env.target.preserved s t) where
    pub advance_loc-Does :
        (n : ℕ)
        → n < 64
        → Holds env.space s.addr ((0x40 + n) ∷ [])
        → Does s (record t { loc = (t.loc + n * env.dci.code_align) % word_mod }) 1 (step_cfa env s)
    advance_loc-Does n h holds = (
      record s { addr = after s.addr 1; ip = (s.ip + n * env.dci.code_align) % word_mod },
      step_cfa-op s (0x40 + n) (Opcode.advance_loc n) holds (unfold decode_cfa in ground arith)
          ∙ unfold exec_cfa in refl,
      (
        ap (λ (i : ℕ). (i + n * env.dci.code_align) % word_mod) stands.0,
        stands.1,
        stands.2,
        stands.3,
      ),
      refl,
      omega arith,
    )

    pub mark-Does :
        (op r : ℕ) (x : Rule) (i : Cfa)
        → decode_cfa op ≡ i
        → ((s : Cfi) → exec_cfa env i s ≡ exec_mark env (column_of x).place s)
        → (column_of x).val ≡ 0
        → r < env.target.preserved
        → r < word_mod
        → Holds env.space s.addr (op ∷ uleb128 9 r)
        → Does s (with_rule r x t) (suc (length (uleb128 9 r))) (step_cfa env s)
    mark-Does op r x i d e zero_val h small (b, read, holds) =
        let a : ℕ = after (after s.addr 1) (length (uleb128 9 r)) in
        let (s', eq, st, at, pool) = set_reg-Does s t a r x h stands in
        (
          s',
          step_cfa-op s op i (b, read, tt) d
              ∙ e (record s { addr = after s.addr 1 })
              ∙ unfold exec_mark in
                rw (read_regnum-eq (after s.addr 1) r h small holds, ← zero_val, eq),
          st,
          at,
          pool,
        )

    pub offset-Does :
        (r v : ℕ)
        → r < env.target.preserved
        → r < 64
        → v < word_mod
        → Holds env.space s.addr ((0x80 + r) ∷ uleb128 9 v)
        → Does s
            (with_rule r (Rule.offset (v * env.dci.data_align % word_mod)) t)
            (suc (length (uleb128 9 v)))
            (step_cfa env s)
    offset-Does r v h low small (b, read, holds) =
        let a : ℕ = after (after s.addr 1) (length (uleb128 9 v)) in
        let (s', eq, st, at, pool) =
          set_reg-Does s t a r (Rule.offset (v * env.dci.data_align % word_mod)) h stands in
        (
          s',
          step_cfa-op s (0x80 + r) (Opcode.offset r) (b, read, tt)
                (unfold decode_cfa in ground arith)
              ∙ unfold exec_cfa exec_offset in
                rw (read_uleb128-uleb128 env.space (after s.addr 1) v small holds)
                  (ground (arith, eq)),
          st,
          at,
          pool,
        )

    pub register-Does :
        (r v : ℕ)
        → r < env.target.preserved
        → r < word_mod
        → v < word_mod
        → Holds env.space s.addr (0x09 ∷ (uleb128 9 r ++ uleb128 9 v))
        → Does s
            (with_rule r (Rule.register v) t)
            (suc (length (uleb128 9 r ++ uleb128 9 v)))
            (step_cfa env s)
    register-Does r v h small small_v (b, read, holds) =
        let a : ℕ = after s.addr 1 in
        let a' : ℕ = after a (length (uleb128 9 r)) in
        let (s', eq, st, at, pool) =
          set_reg-Does s t (after a' (length (uleb128 9 v))) r (Rule.register v) h stands in
        (
          s',
          step_cfa-op s 0x09 Opcode.register_ (b, read, tt) (unfold decode_cfa decode_low in refl)
              ∙ unfold exec_cfa exec_reg_val in
                rw (
                  read_regnum-eq a r h small
                      (Holds-front env.space a (uleb128 9 r) (uleb128 9 v) holds),
                  read_uleb128-uleb128 env.space a' v small_v
                      (Holds-back env.space a (uleb128 9 r) (uleb128 9 v) holds),
                  eq,
                ),
          st,
          at
              ∙ after-add a (length (uleb128 9 r)) (length (uleb128 9 v))
              ∙ ap (λ (k : ℕ). after a k) (sym (length-append (uleb128 9 r) (uleb128 9 v))),
          pool,
        )

    pub restore-Does :
        (r : ℕ)
        → r < env.target.preserved
        → r < 64
        → Holds env.space s.addr ((0xc0 + r) ∷ [])
        → Does s (with_rule r (t.initial r) t) 1 (step_cfa env s)
    restore-Does r h low holds = (
      record s { addr = after s.addr 1; current = put s.current r (column_of (t.initial r)) },
      step_cfa-op s (0xc0 + r) (Opcode.restore r) holds (unfold decode_cfa in ground arith)
          ∙ unfold exec_cfa exec_restore restore_column set_column in
            ground (arith, stands.2.1 r h, stands.1.0.0),
      (stands.0, HoldsRow-put regs s.current t.row r (t.initial r) h stands.1, stands.2, stands.3),
      refl,
      omega arith,
    )
