-- ===== src/Dwarf/Cfi/Forward.antt =====
-- A call-frame instruction leads forward, if no block runs past the end of the address space.
use libunwind.Prelude.{
  ℕ, ◌+◌, ◌≤◌, ◌<◌, ◌≡◌, refl, arith, leb, true, false, Bool, if◌then◌else◌, List, [], ◌∷◌,
}
use libunwind.Prelude.Bits.{word_mod}
use libunwind.Result.{Result, ok, err, stop, ◌>>=◌, Gives, Gives-eq}
use libunwind.Dwarf.Read.{Reader}
use libunwind.Dwarf.Leb128.{dwarf_read_uleb128}
use libunwind.Dwarf.Lands.{Lands, next_of, Moves, Lands-bind, Lands-if, uleb128-Moves}
use libunwind.Dwarf.Pointer.{dwarf_read_encoded_pointer}
use libunwind.Dwarf.Pointer.Lands.{read_encoded_pointer-Moves}
use libunwind.Dwarf.Cfi.State.{
  Cfi, Env, Where, RegState, set_column, set_reg, restore_column, read_regnum, remember_state,
  restore_from, cfa_reg_column, cfa_off_column, cfarel, reg, undef,
}
use libunwind.Dwarf.Cfi.Step.{
  exec_advance, exec_offset, exec_reg_val, exec_restore, exec_set_loc, exec_mark, exec_def_cfa,
  exec_def_cfa_register, exec_def_cfa_offset, skip_block, exec_args_size,
}

-- What an instruction returns, if anything, goes on from `lo` or later.
abbrev pub From : ℕ → Result Cfi → Type 0
From lo (ok s) = lo ≤ s.addr
From lo (err e) = Unit
From lo (stop x) = Unit

-- The length of a block at an address does not lead past the end of the address space.
abbrev pub BlockFits : Env → (addr : ℕ) → Type 0
BlockFits env addr = Gives (λ (r : ℕ × ℕ). r.1 + r.0 < word_mod) (dwarf_read_uleb128 env.space addr)

pub set_reg-From :
    (s : Cfi) (regnum : ℕ) (w : Where) (v lo : ℕ) → lo ≤ s.addr → From lo (set_reg s regnum w v)
unfolding set_reg
set_reg-From s regnum w v lo h = ground arith

pub restore_column-From :
    (s : Cfi) (regnum lo : ℕ) → lo ≤ s.addr → From lo (restore_column s regnum)
unfolding restore_column set_column
restore_column-From s regnum lo h = ground arith

pub remember_state-From : (s : Cfi) (lo : ℕ) → lo ≤ s.addr → From lo (remember_state s)
unfolding remember_state
remember_state-From s lo h = ground arith

pub restore_from-From :
    (s : Cfi) (stack : List RegState) (lo : ℕ) → lo ≤ s.addr → From lo (restore_from s stack)
unfolding restore_from
restore_from-From s [] lo h = tt
restore_from-From s (rs ∷ rest) lo h = h

abbrev pub Stays : ℕ → Result Cfi → Type 0
Stays a (ok s) = s.addr ≡ a
Stays a (err e) = Unit
Stays a (stop x) = Unit

pub set_reg-Stays : (s : Cfi) (regnum : ℕ) (w : Where) (v : ℕ) → Stays s.addr (set_reg s regnum w v)
unfolding set_reg
set_reg-Stays s regnum w v = ground arith

pub From-stay :
    (lo a : ℕ) (m : Result Cfi) (f : Cfi → Result Cfi)
    → Stays a m
    → ((s : Cfi) → s.addr ≡ a → From lo (f s))
    → From lo (m >>= f)
From-stay lo a (ok s) f h k = k s h
From-stay lo a (err e) f h k = tt
From-stay lo a (stop x) f h k = tt

pub From-if :
    (lo : ℕ) (b : Bool) (m n : Result Cfi) → From lo m → From lo n → From lo (if b then m else n)
From-if lo true m n h k = h
From-if lo false m n h k = k

-- A read, and what follows from where it leaves the address.
pub From-read :
    (lo k : ℕ) (reader : Reader) (addr : ℕ) (f : ℕ × ℕ → Result Cfi)
    → Moves k reader
    → addr + k < word_mod
    → ((v next : ℕ)
        → reader addr ≡ ok (v, next)
        → addr ≤ next
        → next ≤ addr + k
        → From lo (f (v, next)))
    → From lo (reader addr >>= f)
From-read lo k reader addr f m room h = go (reader addr) refl (m addr room)
  where
    go :
        (r : Result (ℕ × ℕ)) → reader addr ≡ r → Lands next_of addr (addr + k) r → From lo (r >>= f)
    go (ok (v, next)) e p = h v next e p.0 p.1
    go (err e) q p = tt
    go (stop x) q p = tt

pub read_regnum-Moves : (env : Env) → Moves 11 (read_regnum env)
unfolding read_regnum
read_regnum-Moves env addr h =
    Lands-bind next_of next_of addr (addr + 11) addr (addr + 11) (dwarf_read_uleb128 env.space addr)
      _ (uleb128-Moves env.space addr h)
      (λ r lo hi. Lands-if next_of addr (addr + 11) (leb env.target.preserved r.0) _ _ tt (lo, hi))

module _ (env : Env) (limit : ℕ) (room : limit + 64 < word_mod) where
  module _ (s : Cfi) (lo : ℕ) (h : lo ≤ s.addr) (near : s.addr ≤ limit + 16) where
    pub exec_advance-From :
        (k : ℕ) (reader : Reader) → Moves k reader → k ≤ 15 → From lo (exec_advance env reader s)
    unfolding exec_advance
    exec_advance-From k reader m hk =
        From-read lo k reader s.addr _ m (omega arith) (λ v next e p q. omega arith)

    pub exec_offset-From : (regnum : ℕ) → From lo (exec_offset env regnum s)
    unfolding exec_offset
    exec_offset-From regnum = From-if lo (leb env.target.preserved regnum) _ _ tt (
        From-read lo 11 (dwarf_read_uleb128 env.space) s.addr _ (uleb128-Moves env.space)
          (omega arith)
          (λ v next e p q.
            set_reg-From (record s { addr = next }) regnum cfarel _ lo (omega arith)))

    pub exec_reg_val-From :
        (reader : Reader) (w : Where) (f : ℕ → ℕ)
        → Moves 11 reader
        → From lo (exec_reg_val env reader w f s)
    unfolding exec_reg_val
    exec_reg_val-From reader w f m =
        From-read lo 11 (read_regnum env) s.addr _ (read_regnum-Moves env) (omega arith)
          (λ regnum next e p q. From-read lo 11 reader next _ m (omega arith) (λ v last e' p' q'.
            set_reg-From (record s { addr = last }) regnum w (f v) lo (omega arith)))

    pub exec_restore-From : (regnum : ℕ) → From lo (exec_restore env regnum s)
    unfolding exec_restore
    exec_restore-From regnum =
        From-if lo (leb env.target.preserved regnum) _ _ tt (restore_column-From s regnum lo h)

    pub exec_set_loc-From : From lo (exec_set_loc env s)
    unfolding exec_set_loc
    exec_set_loc-From =
        From-read lo 15 (dwarf_read_encoded_pointer env.space env.dci.fde_encoding env.pi) s.addr _
          (read_encoded_pointer-Moves env.space env.dci.fde_encoding env.pi) (omega arith)
          (λ v next e p q. omega arith)

    pub exec_mark-From : (w : Where) → From lo (exec_mark env w s)
    unfolding exec_mark
    exec_mark-From w =
        From-read lo 11 (read_regnum env) s.addr _ (read_regnum-Moves env) (omega arith)
          (λ regnum next e p q. set_reg-From (record s { addr = next }) regnum w 0 lo (omega arith))

    pub exec_def_cfa-From :
        (reader : Reader) (f : ℕ → ℕ) → Moves 11 reader → From lo (exec_def_cfa env reader f s)
    unfolding exec_def_cfa
    exec_def_cfa-From reader f m =
        From-read lo 11 (read_regnum env) s.addr _ (read_regnum-Moves env) (omega arith)
          (λ regnum next e p q. From-read lo 11 reader next _ m (omega arith) (λ v last e' p' q'.
            From-stay lo last
              (set_reg (record s { addr = last }) (cfa_reg_column env.target) reg regnum) _
              (set_reg-Stays (record s { addr = last }) (cfa_reg_column env.target) reg regnum)
              (λ s' at. set_reg-From s' (cfa_off_column env.target) undef (f v) lo (omega arith))))

    pub exec_def_cfa_register-From : From lo (exec_def_cfa_register env s)
    unfolding exec_def_cfa_register
    exec_def_cfa_register-From =
        From-read lo 11 (read_regnum env) s.addr _ (read_regnum-Moves env) (omega arith)
          (λ regnum next e p q.
            set_reg-From (record s { addr = next }) (cfa_reg_column env.target) reg regnum lo
              (omega arith))

    pub exec_def_cfa_offset-From :
        (reader : Reader) (f : ℕ → ℕ)
        → Moves 11 reader
        → From lo (exec_def_cfa_offset env reader f s)
    unfolding exec_def_cfa_offset
    exec_def_cfa_offset-From reader f m =
        From-read lo 11 reader s.addr _ m (omega arith) (λ v next e p q.
          set_reg-From (record s { addr = next }) (cfa_off_column env.target) undef (f v) lo
            (omega arith))

    pub skip_block-From : BlockFits env s.addr → From lo (skip_block env s)
    skip_block-From fits =
        From-read lo 11 (dwarf_read_uleb128 env.space) s.addr _ (uleb128-Moves env.space)
          (omega arith)
          (λ n next e p q.
            let below : next + n < word_mod =
              Gives-eq (λ (r : ℕ × ℕ). r.1 + r.0 < word_mod) (dwarf_read_uleb128 env.space s.addr)
                (n, next) fits e in
            omega (arith, below))

    pub exec_args_size-From : From lo (exec_args_size env s)
    unfolding exec_args_size
    exec_args_size-From =
        From-read lo 11 (dwarf_read_uleb128 env.space) s.addr _ (uleb128-Moves env.space)
          (omega arith) (λ v next e p q. omega arith)
