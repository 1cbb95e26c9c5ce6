-- ===== src/Dwarf/Frame/Plain.antt =====
-- Rules without expressions always give a location.
use libunwind.Prelude.{
  ℕ, zero, suc, ◌+◌, ◌%◌, ◌≤◌, ◌<◌, ◌≡◌, refl, sym, ap, ◌∙◌, arith, lt→ltb, List, length, set,
  get_elem?, get_elem?-lt, some, length-set,
}
use mathlib.Core.Path.{subst}
use libunwind.Prelude.Bits.{word_mod}
use libunwind.Result.{Result, ok, ◌>>=◌}
use libunwind.Dwarf.Cfi.State.{
  Where, undef, same, cfarel, reg, expr, val_expr, cfa, Column, RegState,
}
use libunwind.Dwarf.Frame.{
  Loc, mem_type, val_type, null_loc, FrameEnv, at_index, write_loc, apply_column, apply_columns,
}
use libunwind.Dwarf.Frame.Applied.{FollowsFrom, apply_columns-FollowsFrom}

-- No expression, and a register that the array of locations has.
abbrev pub IsPlain : (n : ℕ) → Where → (val : ℕ) → Type 0
IsPlain n undef val = Unit
IsPlain n same val = Unit
IsPlain n cfarel val = Unit
IsPlain n cfa val = Unit
IsPlain n reg val = val < n
IsPlain n expr val = ⊥
IsPlain n val_expr val = ⊥

abbrev Writes : Result (List Loc) → (n : ℕ) → Type 0
Writes r n = (ys : List Loc) × (r ≡ ok ys) × (length ys ≡ n)

write_loc-Writes :
    (xs : List Loc) (i : ℕ) (l : Loc) → i < length xs → Writes (write_loc xs i l) (length xs)
write_loc-Writes xs i l h = (set xs i l, rw (lt→ltb i (length xs) h), length-set xs i l)

apply_column-Writes :
    (env : FrameEnv) (cfa_val i val : ℕ) (place : Where) (xs : List Loc)
    → i < length xs
    → IsPlain (length xs) place val
    → Writes (apply_column env cfa_val i (record { place = place; val = val }) xs) (length xs)
unfolding apply_column
apply_column-Writes env cfa_val i val undef xs h plain = write_loc-Writes xs i null_loc h
apply_column-Writes env cfa_val i val same xs h plain = (xs, refl, refl)
apply_column-Writes env cfa_val i val cfa xs h plain =
    write_loc-Writes xs i (record { val = cfa_val; type = val_type }) h
apply_column-Writes env cfa_val i val cfarel xs h plain =
    write_loc-Writes xs i (record { val = (cfa_val + val) % word_mod; type = mem_type }) h
apply_column-Writes env cfa_val i val reg xs h plain =
    let (l, at) = get_elem?-lt xs val plain in
    let (ys, wrote, len) = write_loc-Writes xs i l h in
    (ys, ap (λ r. r >>= write_loc xs i) (read_at l at) ∙ wrote, len)
  where
    read_at : (l : Loc) → get_elem? xs val ≡ some l → at_index xs val ≡ ok l
    read_at l at = rw (at, at_index)
apply_column-Writes env cfa_val i val expr xs h plain = absurd plain
apply_column-Writes env cfa_val i val val_expr xs h plain = absurd plain

module _ (env : FrameEnv) (cfa_val : ℕ) (rs : RegState) where
  apply_columns-Writes :
      (n i : ℕ) (xs : List Loc)
      → i + n ≤ length xs
      → ((j : ℕ)
          → j < i + n
          → (c : Column) × (at_index rs.columns j ≡ ok c) × IsPlain (length xs) c.place c.val)
      → Writes (apply_columns env cfa_val rs n i xs) (length xs)
  unfolding apply_columns
  apply_columns-Writes zero i xs h plain = (xs, refl, refl)
  apply_columns-Writes (suc n) i xs h plain =
      let (c, at, ok_c) = plain i (omega arith) in
      let (ys, wrote, len) =
        apply_column-Writes env cfa_val i c.val c.place xs (omega arith) ok_c in
      let (zs, wrote', len') = apply_columns-Writes n (suc i) ys (omega (arith, len)) (λ j less.
        let (d, at_d, ok_d) = plain j (omega arith) in
        (d, at_d, subst (λ (m : ℕ). IsPlain m d.place d.val) (sym len) ok_d)) in
      (zs, rw (at, wrote) wrote', len' ∙ len)

  -- Where the rules of all columns have no expression and name only registers that have a location, the
  -- loop of `apply_reg_state` gives an array of locations of the same length, each the one of its rule.
  pub apply_columns-plain :
      (old : List Loc)
      → ((j : ℕ)
          → j < length old
          → (c : Column) × (at_index rs.columns j ≡ ok c) × IsPlain (length old) c.place c.val)
      → (new : List Loc) × (apply_columns env cfa_val rs (length old) 0 old ≡ ok new)
        × FollowsFrom env cfa_val rs (length old) 0 old new
  apply_columns-plain old plain =
      let (new, wrote, len) =
        apply_columns-Writes (length old) 0 old (omega arith) (λ j less. plain j (omega arith)) in
      (new, wrote, apply_columns-FollowsFrom env cfa_val rs (length old) 0 old new wrote)
