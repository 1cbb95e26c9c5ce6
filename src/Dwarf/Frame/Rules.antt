-- ===== src/Dwarf/Frame/Rules.antt =====
-- The loop of `apply_reg_state` gives each column the location of its rule.
use libunwind.Prelude.{
  ℕ, ◌+◌, ◌%◌, ◌≡◌, ◌≢◌, refl, sym, ◌∙◌, Bool, true, false, ltb, ltb→lt, if◌then◌else◌, List,
  length, set, get_elem?, length-set, get_elem?-set_self, get_elem?-set_ne, Option, none, some,
}
use mathlib.Core.Path.{subst}
use libunwind.Prelude.Bits.{word_mod}
use libunwind.Result.{Result, ok, stop, out_of_bounds, >>=-eq-ok}
use libunwind.Dwarf.Cfi.State.{Where, undef, same, cfarel, reg, expr, val_expr, cfa, Column}
use libunwind.Dwarf.Frame.{
  Loc, mem_type, val_type, null_loc, FrameEnv, eval_location_expr, at_index, write_loc,
  apply_column,
}

-- What a column's rule makes of the location that the register had before, and of the one of the
-- register that the rule names.
abbrev pub Rule : FrameEnv → (cfa_val : ℕ) → Column → (before source after : Option Loc) → Type 0
Rule env cfa_val c before source after = elim c.place [
  | undef ↦ after ≡ some null_loc
  | same ↦ after ≡ before
  | cfa ↦ after ≡ some (record { val = cfa_val; type = val_type })
  | cfarel ↦ after ≡ some (record { val = (cfa_val + c.val) % word_mod; type = mem_type })
  | reg ↦ after ≡ source
  | expr ↦ (l : Loc) × (eval_location_expr env cfa_val c.val ≡ ok l) × (after ≡ some l)
  | val_expr ↦
      (l : Loc) × (eval_location_expr env cfa_val c.val ≡ ok l)
      × (after ≡ some (record { val = l.val; type = val_type }))
]

-- An array of which element `i` alone may have changed.
abbrev pub Differs : List Loc → ℕ → List Loc → Type 0
Differs xs i ys = (length ys ≡ length xs) × ((j : ℕ) → j ≢ i → get_elem? ys j ≡ get_elem? xs j)

chosen :
    (b : Bool) (m ys : List Loc)
    → (if b then ok m else stop out_of_bounds) ≡ ok ys
    → (b ≡ true) × (m ≡ ys)
chosen true m ys h = (refl, cc)
chosen false m ys h = cc

write_loc-Differs :
    (xs ys : List Loc) (i : ℕ) (l : Loc)
    → write_loc xs i l ≡ ok ys
    → Differs xs i ys × (get_elem? ys i ≡ some l)
write_loc-Differs xs ys i l h =
    let (inside, same_list) = chosen (ltb i (length xs)) (set xs i l) ys h in
    subst (λ (zs : List Loc). Differs xs i zs × (get_elem? zs i ≡ some l)) same_list
      (
        (length-set xs i l, (λ j other. get_elem?-set_ne xs i j l (λ e. other (sym e)))),
        get_elem?-set_self xs i l (ltb→lt i (length xs) inside),
      )

option_at :
    (o : Option Loc) (a : Loc)
    → elim o as (λ _. Result Loc) [ none ↦ stop out_of_bounds | some b ↦ ok b ] ≡ ok a
    → o ≡ some a
option_at none a h = cc
option_at (some b) a h = cc

at_index-some : (xs : List Loc) (i : ℕ) (a : Loc) → at_index xs i ≡ ok a → get_elem? xs i ≡ some a
at_index-some xs i a h = option_at (get_elem? xs i) a h

-- One column: its own element alone changes, by its rule.
pub apply_column-Rule :
    (env : FrameEnv) (cfa_val i val : ℕ) (place : Where) (xs ys : List Loc)
    → apply_column env cfa_val i (record { place = place; val = val }) xs ≡ ok ys
    → Differs xs i ys
      × Rule env cfa_val
          (record { place = place; val = val })
          (get_elem? xs i)
          (get_elem? xs val)
          (get_elem? ys i)
unfolding apply_column
apply_column-Rule env cfa_val i val undef xs ys h = write_loc-Differs xs ys i null_loc h
apply_column-Rule env cfa_val i val same xs ys h =
    let same_list : xs ≡ ys = cc in
    subst (λ (zs : List Loc). Differs xs i zs × (get_elem? zs i ≡ get_elem? xs i)) same_list
      ((refl, (λ j other. refl)), refl)
apply_column-Rule env cfa_val i val cfa xs ys h =
    write_loc-Differs xs ys i (record { val = cfa_val; type = val_type }) h
apply_column-Rule env cfa_val i val cfarel xs ys h =
    write_loc-Differs xs ys i (record { val = (cfa_val + val) % word_mod; type = mem_type }) h
apply_column-Rule env cfa_val i val reg xs ys h =
    let (l, read, h') = >>=-eq-ok (at_index xs val) (write_loc xs i) h in
    let (differs, after) = write_loc-Differs xs ys i l h' in
    (differs, after ∙ sym (at_index-some xs val l read))
apply_column-Rule env cfa_val i val expr xs ys h =
    let (l, read, h') = >>=-eq-ok (eval_location_expr env cfa_val val) (write_loc xs i) h in
    let (differs, after) = write_loc-Differs xs ys i l h' in (differs, (l, read, after))
apply_column-Rule env cfa_val i val val_expr xs ys h =
    let (l, read, h') =
      >>=-eq-ok (eval_location_expr env cfa_val val)
        (λ l. write_loc xs i (record { val = l.val; type = val_type })) h in
    let (differs, after) = write_loc-Differs xs ys i (record { val = l.val; type = val_type }) h' in
    (differs, (l, read, after))
