-- ===== src/Dwarf/Expr/Runs.antt =====
-- Runs of the evaluation loop: a number of its rounds, all before the end address.
use libunwind.Prelude.{ℕ, zero, suc, ◌+◌, ◌<◌, ◌≡◌, refl, sym, lt→ltb}
use mathlib.Core.Path.{subst}
use native.Mathlib.Nat.{zero-add, suc-add}
use libunwind.Result.{ok}
use libunwind.Dwarf.Expr.Machine.{Context, Machine, next}
use libunwind.Dwarf.Expr.Eval.{step, eval_loop}

module _ (cx : Context) (end_addr : ℕ) where
  -- `n` rounds lead from the one state to the other.
  abbrev pub Runs : ℕ → Machine → Machine → Type 0
  Runs zero m m' = m ≡ m'
  Runs (suc n) m m' =
      (mid : Machine) × (m.addr < end_addr) × (step cx m ≡ ok (next mid)) × Runs n mid m'

  pub Runs-one : (m m' : Machine) → m.addr < end_addr → step cx m ≡ ok (next m') → Runs 1 m m'
  Runs-one m m' h e = (m', h, e, refl)

  pub Runs-append :
      (n k : ℕ) (m mid m' : Machine) → Runs n m mid → Runs k mid m' → Runs (n + k) m m'
  Runs-append zero k m mid m' p q =
      subst (λ t. Runs t m m') (sym (zero-add k)) (subst (λ t. Runs k t m') (sym p) q)
  Runs-append (suc n) k m mid m' (next_one, h, e, p) q =
      subst (λ t. Runs t m m') (sym (suc-add n k))
        (next_one, h, e, Runs-append n k next_one mid m' p q)

  -- The loop makes these rounds, and goes on from where they lead.
  pub eval_loop-Runs :
      (n k : ℕ) (m m' : Machine)
      → Runs n m m'
      → eval_loop cx (n + k) end_addr m ≡ eval_loop cx k end_addr m'
  unfolding eval_loop
  eval_loop-Runs zero k m m' p = rw (zero-add, p)
  eval_loop-Runs (suc n) k m m' (mid, h, e, p) =
      rw (suc-add, lt→ltb m.addr end_addr h, e) (eval_loop-Runs n k mid m' p)
