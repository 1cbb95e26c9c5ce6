-- ===== src/Dwarf/Cfi/Ending.antt =====
-- `run_cfi_program` ends.
use libunwind.Prelude.{
  ℕ, zero, suc, ◌+◌, ◌≤◌, ◌<◌, ◌≡◌, ◌≢◌, ◌&&◌, refl, arith, leb, ltb, true, false, Bool,
  if◌then◌else◌,
}
use libunwind.Prelude.Bits.{word_mod}
use libunwind.Result.{
  Result, ok, err, stop, aborted, undefined, out_of_bounds, out_of_fuel, Gives, Gives-eq,
}
use libunwind.Dwarf.Cfi.State.{Cfi, Env}
use libunwind.Dwarf.Cfi.Run.{step_cfa}
use libunwind.Dwarf.Cfi.Run.{go_on, run_cfi_program}
use libunwind.Dwarf.Cfi.Forward.{From}
use libunwind.Dwarf.Read.Safe.{Answers}
use libunwind.Dwarf.Cfi.Rounds.{goes}
use libunwind.Dwarf.Cfi.Onward.{InstructionFits}
use libunwind.Dwarf.Cfi.Invariant.{IsWf, TargetFits, Ensures}
use libunwind.Dwarf.Cfi.Pool.{step_cfa-Ensures}
use libunwind.Dwarf.Cfi.Onward.{step_cfa-From}

-- In the first rounds of a run, no block of an instruction that is executed leads past the end of the
-- address space.
abbrev pub BlocksFit : Env → (end_ip limit rounds : ℕ) → Cfi → Type 0
BlocksFit env end_ip limit zero s = Unit
BlocksFit env end_ip limit (suc n) s =
    goes s end_ip limit ≡ true
    → InstructionFits env s × Gives (BlocksFit env end_ip limit n) (step_cfa env s)

module _ (env : Env) (limit : ℕ) (room : limit + 64 < word_mod) where
  module _ (answers : Answers env.space) (fits : TargetFits env.target) (total : ℕ) where
    Ends : Cfi × Result (Unit {0}) → Type 0
    Ends (s, r) = r ≢ stop out_of_fuel

    go_on-Ends :
        (s : Cfi) (m : Result Cfi) (rest : Cfi → Cfi × Result (Unit {0}))
        → Ensures env.target total m
        → From (s.addr + 1) m
        → ((s' : Cfi)
            → m ≡ ok s'
            → IsWf env.target total s'
            → s.addr + 1 ≤ s'.addr
            → Ends (rest s'))
        → Ends (go_on s m rest)
    unfolding Ends
    go_on-Ends s (ok s') rest h p k = k s' refl h p
    go_on-Ends s (err e) rest h p k = λ q. cc
    go_on-Ends s (stop aborted) rest h p k = λ q. cc
    go_on-Ends s (stop undefined) rest h p k = λ q. cc
    go_on-Ends s (stop out_of_bounds) rest h p k = absurd h
    go_on-Ends s (stop out_of_fuel) rest h p k = absurd h

    if-Ends :
        (a b : Bool) (x y : Cfi × Result (Unit {0}))
        → ((a && b) ≡ true → Ends x)
        → Ends y
        → Ends (if a && b then x else y)
    if-Ends true true x y h k = h refl
    if-Ends true false x y h k = k
    if-Ends false b x y h k = k

    -- Where `access_mem` always answers, the target's own columns are columns, the program ends
    -- more than 64 bytes before the end of the address space, and of the instructions that the run
    -- executes none has a block whose length leads past that end: `run_cfi_program` from a well-formed state ends within one round for each
    -- byte of the program and one more. It returns success or an error, or stops at an operation
    -- that C leaves undefined or aborts.
    pub run_cfi_program_ends :
        (fuel end_ip : ℕ) (s : Cfi)
        → IsWf env.target total s
        → limit ≤ s.addr + fuel
        → BlocksFit env end_ip limit fuel s
        → (run_cfi_program env (suc fuel) end_ip limit s).1 ≢ stop out_of_fuel
    unfolding run_cfi_program Ends
    run_cfi_program_ends zero end_ip s wf h blocks =
        if-Ends (leb s.ip end_ip) (ltb s.addr limit) _ _ (λ t. absurd (ground arith)) (λ q. cc)
    run_cfi_program_ends (suc fuel) end_ip s wf h blocks =
        if-Ends (leb s.ip end_ip) (ltb s.addr limit) _ _
          (λ t.
            go_on-Ends s (step_cfa env s) (run_cfi_program env (suc fuel) end_ip limit)
              (step_cfa-Ensures env answers fits total s wf)
              (step_cfa-From env limit room s (ground arith) (blocks t).0)
              (λ s' e wf' p.
                run_cfi_program_ends fuel end_ip s' wf' (omega arith)
                  (Gives-eq (BlocksFit env end_ip limit fuel) (step_cfa env s) s' (blocks t).1 e)))
          (λ q. cc)
