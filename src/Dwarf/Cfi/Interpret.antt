-- ===== src/Dwarf/Cfi/Interpret.antt =====
-- `run_cfi_program` on the code of a list of instructions builds the row that they stand for.
use libunwind.Prelude.{
  ℕ, suc, ◌+◌, ◌<◌, ◌≤◌, ◌≡◌, refl, sym, ◌∙◌, arith, Bool-cases, inl, inr, leb, if◌then◌else◌, List,
  [], ◌∷◌, ◌++◌, length, length-append, Option, none, some, true, false,
}
use mathlib.Core.Path.{subst}
use libunwind.Prelude.Bits.{word_mod}
use libunwind.Result.{Result, ok}
use libunwind.Dwarf.Read.Bytes.{after, after-eq, Holds, Holds-front, Holds-back}
use libunwind.Dwarf.Cfi.State.{Cfi, Env}
use libunwind.Dwarf.Cfi.Opcode.{decode_cfa, decode_low}
use libunwind.Dwarf.Cfi.Opcode
use libunwind.Dwarf.Cfi.Step.{exec_cfa}
use libunwind.Dwarf.Cfi.State.{restore_state as pop_state}
use libunwind.Dwarf.Cfi.Run.{step_cfa, go_on, run_cfi_program}
use libunwind.Dwarf.Cfi.Table.{
  Rule, Table, Instr, encode, Encodes, apply, Stands, advance_loc, offset, undefined, same,
  register, restore, def_cfa, def_cfa_register, def_cfa_offset, remember_state, restore_state,
}
use libunwind.Dwarf.Cfi.Simulate.{
  Does, step_cfa-op, advance_loc-Does, mark-Does, offset-Does, register-Does, restore-Does,
}
use libunwind.Dwarf.Cfi.Simulate.Rows.{
  def_cfa_register-Does, def_cfa_offset-Does, def_cfa-Does, remember_state-Does, restore_from-Does,
}
use libunwind.Dwarf.Cfi.Rounds.{goes, run-goes, run-stops}

abbrev pub codes : List Instr → List ℕ
codes [] = []
codes (i ∷ is) = encode i ++ codes is

abbrev pub AllEncode : ℕ → List Instr → Type 0
AllEncode regs [] = Unit
AllEncode regs (i ∷ is) = Encodes regs i × AllEncode regs is

abbrev pub and_then : Option Table → (Table → Option Table) → Option Table
and_then none f = none
and_then (some t) f = f t

-- The row at `end_ip`: the instructions up to the first location behind it.
abbrev pub interpret : (code_align data_align end_ip : ℕ) → List Instr → Table → Option Table
interpret ca da end_ip [] t = some t
interpret ca da end_ip (i ∷ is) t =
    if leb t.loc end_ip then and_then (apply ca da i t) (interpret ca da end_ip is) else some t

module _ (env : Env) where
  abbrev align : ℕ
  align = env.dci.code_align

  as_table :
      (i : Instr) (s : Cfi) (t t' : Table) (m : Result Cfi)
      → some t ≡ some t'
      → Does env s t (length (encode i)) m
      → Does env s t' (length (encode i)) m
  as_table i s t t' m e h =
      let same : t ≡ t' = cc in subst (λ u. Does env s u (length (encode i)) m) same h

  instr-Does :
      (i : Instr) (s : Cfi) (t t' : Table)
      → Encodes env.target.preserved i
      → Holds env.space s.addr (encode i)
      → Stands env.target.preserved s t
      → 0 < s.pool
      → apply env.dci.code_align env.dci.data_align i t ≡ some t'
      → Does env s t' (length (encode i)) (step_cfa env s)
  instr-Does (advance_loc n) s t t' fits holds st room e =
      as_table (advance_loc n) s _ t' _ e (advance_loc-Does env s t st n fits holds)
  instr-Does (offset r v) s t t' fits holds st room e =
      as_table (offset r v) s _ t' _ e (offset-Does env s t st r v fits.0 fits.1 fits.2 holds)
  instr-Does (undefined r) s t t' fits holds st room e = as_table (undefined r) s _ t' _ e (
      mark-Does env s t st 0x07 r Rule.undefined Opcode.undefined_
        (unfold decode_cfa decode_low in refl) (λ s. unfold exec_cfa in refl) refl fits.0 fits.1
        holds)
  instr-Does (same r) s t t' fits holds st room e = as_table (same r) s _ t' _ e (
      mark-Does env s t st 0x08 r Rule.same Opcode.same_value (unfold decode_cfa decode_low in refl)
        (λ s. unfold exec_cfa in refl) refl fits.0 fits.1 holds)
  instr-Does (register r v) s t t' fits holds st room e =
      as_table (register r v) s _ t' _ e (register-Does env s t st r v fits.0 fits.1 fits.2 holds)
  instr-Does (restore r) s t t' fits holds st room e =
      as_table (restore r) s _ t' _ e (restore-Does env s t st r fits.0 fits.1 holds)
  instr-Does (def_cfa r v) s t t' fits holds st room e =
      as_table (def_cfa r v) s _ t' _ e (def_cfa-Does env s t st r v fits.0 fits.1 fits.2 holds)
  instr-Does (def_cfa_register r) s t t' fits holds st room e =
      as_table (def_cfa_register r) s _ t' _ e
        (def_cfa_register-Does env s t st r fits.0 fits.1 holds)
  instr-Does (def_cfa_offset v) s t t' fits holds st room e =
      as_table (def_cfa_offset v) s _ t' _ e (def_cfa_offset-Does env s t st v fits holds)
  instr-Does remember_state s t t' fits holds st room e =
      as_table remember_state s _ t' _ e (remember_state-Does env s t st room holds)
  instr-Does restore_state s t t' fits holds st room e =
      let (s', eq, st', at, pool) = restore_from-Does env s t t' s.rs_stack t.saved st.3 st e in
      (
        s',
        step_cfa-op env s 0x0b Opcode.restore_top holds (unfold decode_cfa decode_low in refl)
            ∙ unfold exec_cfa pop_state in eq,
        st',
        at,
        pool,
      )

  -- The table at the end, in a state that stands for it.
  abbrev Builds : Table → Cfi × Result (Unit {0}) → Type 0
  Builds t m = (s : Cfi) × (m ≡ (s, ok tt)) × Stands env.target.preserved s t

  go_on-Builds :
      (fuel end_ip end_addr : ℕ) (s s' : Cfi) (t : Table) (m : Result Cfi)
      → m ≡ ok s'
      → Builds t (run_cfi_program env fuel end_ip end_addr s')
      → Builds t (go_on s m (run_cfi_program env fuel end_ip end_addr))
  go_on-Builds fuel end_ip end_addr s s' t m e h = let (last, run, st) = h in (last, rw e run, st)

  -- The instruction makes a table `m`, and the rest is done from there.
  round-Builds :
      (i : Instr) (s : Cfi) (t t' : Table) (m : Option Table) (rest : Table → Option Table)
      (fuel end_ip end_addr : ℕ)
      → Encodes env.target.preserved i
      → Holds env.space s.addr (encode i)
      → Stands env.target.preserved s t
      → 0 < s.pool
      → apply env.dci.code_align env.dci.data_align i t ≡ m
      → and_then m rest ≡ some t'
      → ((s' : Cfi) (u : Table)
          → Stands env.target.preserved s' u
          → s'.addr ≡ after s.addr (length (encode i))
          → s.pool ≤ s'.pool + 1
          → rest u ≡ some t'
          → Builds t' (run_cfi_program env fuel end_ip end_addr s'))
      → Builds t' (go_on s (step_cfa env s) (run_cfi_program env fuel end_ip end_addr))
  round-Builds i s t t' none rest fuel end_ip end_addr fits holds st room e h k = absurd cc
  round-Builds i s t t' (some u) rest fuel end_ip end_addr fits holds st room e h k =
      let (s', eq, st', at, pool) = instr-Does i s t u fits holds st room e in
      go_on-Builds fuel end_ip end_addr s s' t' (step_cfa env s) eq (k s' u st' at pool h)

  interpret-early :
      (ca da end_ip : ℕ) (i : Instr) (is : List Instr) (t : Table)
      → leb t.loc end_ip ≡ true
      → interpret ca da end_ip (i ∷ is) t ≡ and_then (apply ca da i t) (interpret ca da end_ip is)
  interpret-early ca da end_ip i is t h = rw h

  interpret-late :
      (ca da end_ip : ℕ) (i : Instr) (is : List Instr) (t : Table)
      → leb t.loc end_ip ≡ false
      → interpret ca da end_ip (i ∷ is) t ≡ some t
  interpret-late ca da end_ip i is t h = rw h

  stopped-Builds :
      (s : Cfi) (t t' : Table) (fuel end_ip end_addr : ℕ)
      → Stands env.target.preserved s t
      → some t ≡ some t'
      → goes s end_ip end_addr ≡ false
      → Builds t' (run_cfi_program env (suc fuel) end_ip end_addr s)
  stopped-Builds s t t' fuel end_ip end_addr st e h =
      let same : t ≡ t' = cc in
      (
        s,
        run-stops env end_addr fuel end_ip s h,
        subst (λ u. Stands env.target.preserved s u) same st,
      )

  encode_pos : (i : Instr) → 0 < length (encode i)
  encode_pos (advance_loc n) = omega arith
  encode_pos (offset r v) = omega arith
  encode_pos (undefined r) = omega arith
  encode_pos (same r) = omega arith
  encode_pos (register r v) = omega arith
  encode_pos (restore r) = omega arith
  encode_pos (def_cfa r v) = omega arith
  encode_pos (def_cfa_register r) = omega arith
  encode_pos (def_cfa_offset v) = omega arith
  encode_pos remember_state = omega arith
  encode_pos restore_state = omega arith

  run-Builds :
      (is : List Instr) (s : Cfi) (t t' : Table) (end_ip end_addr : ℕ)
      → AllEncode env.target.preserved is
      → Holds env.space s.addr (codes is)
      → s.addr + length (codes is) ≡ end_addr
      → end_addr < word_mod
      → Stands env.target.preserved s t
      → length is ≤ s.pool
      → interpret env.dci.code_align env.dci.data_align end_ip is t ≡ some t'
      → Builds t' (run_cfi_program env (suc (length is)) end_ip end_addr s)
  run-Builds [] s t t' end_ip end_addr fits holds place h st room e =
      stopped-Builds s t t' 0 end_ip end_addr st e (ground arith)
  run-Builds (i ∷ is) s t t' end_ip end_addr fits holds place h st room e =
      let ca : ℕ = env.dci.code_align in
      let da : ℕ = env.dci.data_align in
      let len : length (encode i ++ codes is) ≡ length (encode i) + length (codes is) =
        length-append (encode i) (codes is) in
      elim (Bool-cases (leb t.loc end_ip)) [
        | inr late ↦
            stopped-Builds s t t' (suc (length is)) end_ip end_addr st
              (sym (interpret-late ca da end_ip i is t late) ∙ e) (ground (arith, st.0))
        | inl early ↦
            let going : goes s end_ip end_addr ≡ true = ground (arith, st.0, encode_pos i) in
            subst (λ m. Builds t' m) (sym (run-goes env end_addr (suc (length is)) end_ip s going))
              (round-Builds i s t t' (apply ca da i t) (interpret ca da end_ip is) (suc (length is))
                end_ip end_addr fits.0 (Holds-front env.space s.addr (encode i) (codes is) holds) st
                (omega arith) refl (sym (interpret-early ca da end_ip i is t early) ∙ e)
                (λ s' u st' at pool e'.
                  let next : s'.addr ≡ s.addr + length (encode i) =
                    omega (arith, at, after-eq s.addr (length (encode i)) (omega arith), len) in
                  run-Builds is s' u t' end_ip end_addr fits.1
                    (subst (λ a. Holds env.space a (codes is)) (sym at)
                      (Holds-back env.space s.addr (encode i) (codes is) holds))
                    (omega arith) h st' (omega arith) e'))
      ]

  -- Where memory holds the code of a list of instructions, of the kinds and with the numbers that
  -- the encoding has, at the address of a state that stands for a table, the code ends within the
  -- address space, and the pool has a register state for each instruction: if the instructions up
  -- to the first location behind `end_ip` have a table `t'`, `run_cfi_program` on the code
  -- succeeds within one round for each instruction and one more, in a state that stands for `t'`.
  pub run_cfi_program-interpret :
      (is : List Instr) (s : Cfi) (t t' : Table) (end_ip : ℕ)
      → AllEncode env.target.preserved is
      → Holds env.space s.addr (codes is)
      → s.addr + length (codes is) < word_mod
      → Stands env.target.preserved s t
      → length is ≤ s.pool
      → interpret env.dci.code_align env.dci.data_align end_ip is t ≡ some t'
      → (s' : Cfi) × (run_cfi_program env (suc (length is)) end_ip (s.addr + length (codes is)) s
          ≡ (s', ok tt))
        × Stands env.target.preserved s' t'
  run_cfi_program-interpret is s t t' end_ip fits holds h st room e =
      run-Builds is s t t' end_ip (s.addr + length (codes is)) fits holds refl h st room e
