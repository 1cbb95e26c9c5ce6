-- ===== src/Dwarf/Cfi/Simulate/Rows.antt =====
-- Instructions that set the CFA, or remember and restore a whole row.
use libunwind.Prelude.{
  ℕ, suc, ◌+◌, ◌-◌, ◌<◌, ◌≡◌, refl, sym, ap, ◌∙◌, arith, List, [], ◌∷◌, ◌++◌, length, length-append,
  some,
}
use mathlib.Core.Path.{subst}
use libunwind.Prelude.Bits.{word_mod}
use libunwind.Dwarf.Read.Bytes.{after, Holds, Holds-front, Holds-back}
use libunwind.Dwarf.Leb128.RoundTrip.{uleb128, read_uleb128-uleb128}
use libunwind.Dwarf.Cfi.State.{Column, Where, RegState, Cfi, Env, remember_state, restore_from}
use libunwind.Dwarf.Cfi.Opcode.{Cfa, decode_cfa, decode_low}
use libunwind.Dwarf.Cfi.Step.{exec_cfa, exec_def_cfa, exec_def_cfa_register, exec_def_cfa_offset}
use libunwind.Dwarf.Cfi.Run.{step_cfa}
use libunwind.Dwarf.Cfi.Table.{Row, Table, come_back, HoldsRow, HoldsRows, Stands}
use libunwind.Dwarf.Cfi.Opcode
use libunwind.Dwarf.Cfi.Columns.{put, set_reg-put, HoldsRow-cfa_register, HoldsRow-cfa_offset}
use libunwind.Dwarf.Cfi.Simulate.{after-add, Does, step_cfa-op, read_regnum-eq}

module _ (env : Env) where
  module _ (s : Cfi) (t : Table) (stands : Stands env.target.preserved s t) where
    pub def_cfa_register-Does :
        (r : ℕ)
        → r < env.target.preserved
        → r < word_mod
        → Holds env.space s.addr (0x0d ∷ uleb128 9 r)
        → Does env s
            (record t { row = record t.row { cfa_register = r } })
            (suc (length (uleb128 9 r)))
            (step_cfa env s)
    def_cfa_register-Does r h small (b, read, holds) =
        let c : Column = record { place = Where.reg; val = r } in
        let a : ℕ = after (after s.addr 1) (length (uleb128 9 r)) in
        (
          record s { addr = a; current = put s.current env.target.preserved c },
          step_cfa-op env s 0x0d Opcode.def_cfa_register (b, read, tt)
                (unfold decode_cfa decode_low in refl)
              ∙ unfold exec_cfa exec_def_cfa_register in
                rw (read_regnum-eq env (after s.addr 1) r h small holds) (
                  set_reg-put (record s { addr = a }) env.target.preserved Where.reg r
                    (omega (arith, stands.1.0.0))),
          (
            stands.0,
            HoldsRow-cfa_register env.target.preserved s.current t.row r stands.1,
            stands.2,
            stands.3,
          ),
          refl,
          omega arith,
        )

    pub def_cfa_offset-Does :
        (v : ℕ)
        → v < word_mod
        → Holds env.space s.addr (0x0e ∷ uleb128 9 v)
        → Does env s
            (record t { row = record t.row { cfa_offset = v } })
            (suc (length (uleb128 9 v)))
            (step_cfa env s)
    def_cfa_offset-Does v small (b, read, holds) =
        let c : Column = record { place = Where.undef; val = v } in
        let a : ℕ = after (after s.addr 1) (length (uleb128 9 v)) in
        (
          record s { addr = a; current = put s.current (env.target.preserved + 1) c },
          step_cfa-op env s 0x0e Opcode.def_cfa_offset (b, read, tt)
                (unfold decode_cfa decode_low in refl)
              ∙ unfold exec_cfa exec_def_cfa_offset in
                rw (read_uleb128-uleb128 env.space (after s.addr 1) v small holds) (
                  set_reg-put (record s { addr = a }) (env.target.preserved + 1) Where.undef v
                    (omega (arith, stands.1.0.0))),
          (
            stands.0,
            HoldsRow-cfa_offset env.target.preserved s.current t.row v stands.1,
            stands.2,
            stands.3,
          ),
          refl,
          omega arith,
        )

    pub def_cfa-Does :
        (r v : ℕ)
        → r < env.target.preserved
        → r < word_mod
        → v < word_mod
        → Holds env.space s.addr (0x0c ∷ (uleb128 9 r ++ uleb128 9 v))
        → Does env s
            (record t { row = record t.row { cfa_register = r; cfa_offset = v } })
            (suc (length (uleb128 9 r ++ uleb128 9 v)))
            (step_cfa env s)
    def_cfa-Does r v h small small_v (b, read, holds) =
        let a : ℕ = after s.addr 1 in
        let a' : ℕ = after a (length (uleb128 9 r)) in
        let a'' : ℕ = after a' (length (uleb128 9 v)) in
        let c : Column = record { place = Where.reg; val = r } in
        let mid : RegState = put s.current env.target.preserved c in
        let row : HoldsRow env.target.preserved mid (record t.row { cfa_register = r }) =
          HoldsRow-cfa_register env.target.preserved s.current t.row r stands.1 in
        (
          record s {
            addr = a'';
            current = put mid (env.target.preserved + 1) (record { place = Where.undef; val = v });
          },
          step_cfa-op env s 0x0c Opcode.def_cfa (b, read, tt) (unfold decode_cfa decode_low in refl)
              ∙ unfold exec_cfa exec_def_cfa in
                rw
                  (
                    read_regnum-eq env a r h small
                        (Holds-front env.space a (uleb128 9 r) (uleb128 9 v) holds),
                    read_uleb128-uleb128 env.space a' v small_v
                        (Holds-back env.space a (uleb128 9 r) (uleb128 9 v) holds),
                    set_reg-put (record s { addr = a'' }) env.target.preserved Where.reg r
                        (omega (arith, stands.1.0.0)),
                  )
                  (set_reg-put (record s { addr = a''; current = mid }) (env.target.preserved + 1)
                    Where.undef v (omega (arith, row.0.0))),
          (
            stands.0,
            HoldsRow-cfa_offset env.target.preserved mid (record t.row { cfa_register = r }) v row,
            stands.2,
            stands.3,
          ),
          after-add a (length (uleb128 9 r)) (length (uleb128 9 v))
              ∙ ap (λ (k : ℕ). after a k) (sym (length-append (uleb128 9 r) (uleb128 9 v))),
          omega arith,
        )

    pub remember_state-Does :
        0 < s.pool
        → Holds env.space s.addr (0x0a ∷ [])
        → Does env s (record t { saved = t.row ∷ t.saved }) 1 (step_cfa env s)
    remember_state-Does room holds = (
      record s { addr = after s.addr 1; rs_stack = s.current ∷ s.rs_stack; pool = s.pool - 1 },
      step_cfa-op env s 0x0a Opcode.remember holds (unfold decode_cfa decode_low in refl)
          ∙ unfold exec_cfa remember_state in ground arith,
      (stands.0, stands.1, stands.2, (stands.1, stands.3)),
      refl,
      omega arith,
    )

  pub restore_from-Does :
      (s : Cfi) (t t' : Table) (stack : List RegState) (saved : List Row)
      → HoldsRows env.target.preserved stack saved
      → Stands env.target.preserved s t
      → come_back t saved ≡ some t'
      → Does env s t' 1 (restore_from (record s { addr = after s.addr 1 }) stack)
  unfolding restore_from
  restore_from-Does s t t' [] [] h stands e = absurd cc
  restore_from-Does s t t' [] (row ∷ rows) h stands e = absurd h
  restore_from-Does s t t' (rs ∷ rest) [] h stands e = absurd h
  restore_from-Does s t t' (rs ∷ rest) (row ∷ rows) h stands e =
      let same : record t { row = row; saved = rows } ≡ t' = cc in
      subst (λ u. Does env s u 1 (restore_from (record s { addr = after s.addr 1 }) (rs ∷ rest)))
        same
        (
          record s { addr = after s.addr 1; current = rs; rs_stack = rest; pool = s.pool + 1 },
          refl,
          (stands.0, h.0, stands.2, h.1),
          refl,
          omega arith,
        )
