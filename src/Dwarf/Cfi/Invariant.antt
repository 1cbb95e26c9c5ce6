-- ===== src/Dwarf/Cfi/Invariant.antt =====
-- What every call-frame instruction keeps: the arrays of columns have their full length and are not
-- written past their end, and the remembered states are accounted for.
use libunwind.Prelude.{
  ℕ, ◌+◌, ◌≤◌, ◌<◌, ◌≡◌, refl, arith, List, [], ◌∷◌, length, length-set, get_elem?-lt, Bool, true,
  false, if◌then◌else◌,
}
use libunwind.Result.{
  Result, ok, err, stop, aborted, undefined, out_of_bounds, out_of_fuel, ◌>>=◌, Safe,
}
use libunwind.Dwarf.Cfi.State.{
  RegState, Cfi, Target, Where, set_column, set_reg, restore_column, remember_state, restore_from,
  restore_state, WindowSave, sparc, aarch64, elsewhere,
}

-- DWARF_NUM_PRESERVED_REGS columns and two for the CFA.
abbrev pub columns_of : Target → ℕ
columns_of t = t.preserved + 2

abbrev pub Full : Target → RegState → Type 0
Full t rs = length rs.columns ≡ columns_of t

abbrev pub AllFull : Target → List RegState → Type 0
AllFull t [] = Unit
AllFull t (rs ∷ rest) = Full t rs × AllFull t rest

-- The states that the pool holds and that the run holds.
abbrev pub states : Cfi → ℕ
states s = s.pool + length s.rs_stack

-- The state is well formed, and `total` register states are accounted for.
abbrev pub IsWf : Target → ℕ → Cfi → Type 0
IsWf t total s = Full t s.current × Full t s.initial × AllFull t s.rs_stack × (states s ≡ total)

-- The target's own columns are columns.
abbrev pub WindowFits : Target → WindowSave → Type 0
WindowFits t sparc = 32 ≤ columns_of t
WindowFits t (aarch64 column) = column < columns_of t
WindowFits t elsewhere = Unit

abbrev pub TargetFits : Target → Type 0
TargetFits t = (t.sp < columns_of t) × WindowFits t t.window_save

-- A result, if there is one, is well formed; there is no write out of bounds and no endless loop.
abbrev pub Ensures : Target → ℕ → Result Cfi → Type 0
Ensures t total (ok s) = IsWf t total s
Ensures t total (err e) = Unit
Ensures t total (stop aborted) = Unit
Ensures t total (stop undefined) = Unit
Ensures t total (stop out_of_bounds) = ⊥
Ensures t total (stop out_of_fuel) = ⊥

pub Ensures-bind {ℓ} :
    {A : Type ℓ} (t : Target) (total : ℕ) (m : Result A) (f : A → Result Cfi)
    → Safe m
    → ((a : A) → m ≡ ok a → Ensures t total (f a))
    → Ensures t total (m >>= f)
Ensures-bind t total (ok a) f h k = k a refl
Ensures-bind t total (err e) f h k = tt
Ensures-bind t total (stop aborted) f h k = tt
Ensures-bind t total (stop undefined) f h k = tt
Ensures-bind t total (stop out_of_bounds) f h k = h
Ensures-bind t total (stop out_of_fuel) f h k = h

pub Ensures-then :
    (t : Target) (total : ℕ) (m : Result Cfi) (f : Cfi → Result Cfi)
    → Ensures t total m
    → ((s : Cfi) → IsWf t total s → Ensures t total (f s))
    → Ensures t total (m >>= f)
Ensures-then t total (ok s) f h k = k s h
Ensures-then t total (err e) f h k = tt
Ensures-then t total (stop aborted) f h k = tt
Ensures-then t total (stop undefined) f h k = tt
Ensures-then t total (stop out_of_bounds) f h k = h
Ensures-then t total (stop out_of_fuel) f h k = h

pub Ensures-if :
    (t : Target) (total : ℕ) (b : Bool) (m n : Result Cfi)
    → Ensures t total m
    → (b ≡ false → Ensures t total n)
    → Ensures t total (if b then m else n)
Ensures-if t total true m n h k = h
Ensures-if t total false m n h k = k refl

module _ (t : Target) (total : ℕ) (s : Cfi) (wf : IsWf t total s) where
  pub set_reg-Ensures :
      (regnum : ℕ) (w : Where) (v : ℕ)
      → regnum < columns_of t
      → Ensures t total (set_reg s regnum w v)
  unfolding set_reg
  set_reg-Ensures regnum w v h =
      ground (arith, length-set s.current.columns regnum (record { place = w; val = v }))

  pub restore_column-Ensures :
      (regnum : ℕ) → regnum < columns_of t → Ensures t total (restore_column s regnum)
  unfolding restore_column set_column
  restore_column-Ensures regnum h =
      let (c, e) = get_elem?-lt s.initial.columns regnum (omega arith) in
      ground (arith, e, length-set s.current.columns regnum c)

  pub remember_state-Ensures : Ensures t total (remember_state s)
  unfolding remember_state
  remember_state-Ensures = ground arith

restore_from-Ensures :
    (t : Target) (total : ℕ) (s : Cfi) (stack : List RegState)
    → Full t s.initial
    → AllFull t stack
    → s.pool + length stack ≡ total
    → Ensures t total (restore_from s stack)
unfolding restore_from
restore_from-Ensures t total s [] h k e = tt
restore_from-Ensures t total s (rs ∷ rest) h k e = (k.0, h, k.1, omega arith)

pub restore_state-Ensures :
    (t : Target) (total : ℕ) (s : Cfi) → IsWf t total s → Ensures t total (restore_state s)
unfolding restore_state
restore_state-Ensures t total s wf = restore_from-Ensures t total s s.rs_stack wf.1 wf.2 wf.3
