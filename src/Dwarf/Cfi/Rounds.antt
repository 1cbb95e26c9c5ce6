-- ===== src/Dwarf/Cfi/Rounds.antt =====
-- One round of `run_cfi_program`.
use libunwind.Prelude.{ℕ, suc, ◌≡◌, Bool, true, false, ltb, leb, ◌&&◌}
use libunwind.Result.{ok}
use libunwind.Dwarf.Cfi.State.{Cfi, Env}
use libunwind.Dwarf.Cfi.Run.{step_cfa, go_on, run_cfi_program}

-- The loop's test.
abbrev pub goes : Cfi → (end_ip end_addr : ℕ) → Bool
goes s end_ip end_addr = leb s.ip end_ip && ltb s.addr end_addr

module _ (env : Env) (end_addr : ℕ) where
  pub run-goes :
      (fuel end_ip : ℕ) (s : Cfi)
      → goes s end_ip end_addr ≡ true
      → run_cfi_program env (suc fuel) end_ip end_addr s
        ≡ go_on s (step_cfa env s) (run_cfi_program env fuel end_ip end_addr)
  unfolding run_cfi_program
  run-goes fuel end_ip s h = rw h

  pub run-stops :
      (fuel end_ip : ℕ) (s : Cfi)
      → goes s end_ip end_addr ≡ false
      → run_cfi_program env (suc fuel) end_ip end_addr s ≡ (s, ok tt)
  unfolding run_cfi_program
  run-stops fuel end_ip s h = rw h
