-- ===== src/Dwarf/Frame/Applied.antt =====
-- The whole of `apply_reg_state`: every column at its rule.
use libunwind.Prelude.{
  ℕ, zero, suc, ◌+◌, ◌≤◌, ◌<◌, ◌≡◌, ◌≢◌, refl, sym, ap, ◌∙◌, arith, Bool, false, Bool-cases, inl,
  inr, ltb, leb, ltb→lt, ◌==◌, ◌&&◌, not, if◌then◌else◌, List, length, get_elem?, Option,
}
use mathlib.Core.Path.{subst}
use libunwind.Result.{ok, ◌>>=◌, >>=-eq-ok, Gives, Gives-if, Gives-bind_eq}
use libunwind.Dwarf.Cfi.State.{Column, RegState}
use libunwind.Dwarf.Frame.{
  Loc, FrameEnv, Frame, at_index, compute_cfa, apply_column, apply_columns, return_ip,
  apply_reg_state,
}
use libunwind.Dwarf.Frame.Rules.{Rule, apply_column-Rule}

-- Where a rule names a register, the location is the one that this register has by then: its new one
-- where its column comes first, and its old one otherwise.
abbrev pub source_of : (i : ℕ) → Column → (old new : List Loc) → Option Loc
source_of i c old new = if ltb c.val i then get_elem? new c.val else get_elem? old c.val

abbrev pub AtRule : FrameEnv → (cfa_val : ℕ) → RegState → (old new : List Loc) → (i : ℕ) → Type 0
AtRule env cfa_val rs old new i =
    (c : Column) × (at_index rs.columns i ≡ ok c)
    × Rule env cfa_val c (get_elem? old i) (source_of i c old new) (get_elem? new i)

-- The columns from `i` on are at their rules, the others as they were.
abbrev pub FollowsFrom :
    FrameEnv → (cfa_val : ℕ) → RegState → (n i : ℕ) (old new : List Loc) → Type 0
FollowsFrom env cfa_val rs n i old new =
    (length new ≡ length old)
    × ((j : ℕ) → j < i → get_elem? new j ≡ get_elem? old j)
    × ((j : ℕ) → i ≤ j → j < i + n → AtRule env cfa_val rs old new j)

module _ (env : FrameEnv) (cfa_val : ℕ) (rs : RegState) where
  Rule-cong :
      (c : Column) (b b' s s' a a' : Option Loc)
      → b ≡ b'
      → s ≡ s'
      → a ≡ a'
      → Rule env cfa_val c b s a
      → Rule env cfa_val c b' s' a'
  Rule-cong c b b' s s' a a' eb es ea h =
      subst (λ (x : Option Loc). Rule env cfa_val c b' s' x) ea
        (subst (λ (x : Option Loc). Rule env cfa_val c b' x a) es
          (subst (λ (x : Option Loc). Rule env cfa_val c x s a) eb h))

  at_first :
      (i : ℕ) (c : Column) (old mid new : List Loc)
      → at_index rs.columns i ≡ ok c
      → ((j : ℕ) → j < i → get_elem? new j ≡ get_elem? old j)
      → get_elem? new i ≡ get_elem? mid i
      → Rule env cfa_val c (get_elem? old i) (get_elem? old c.val) (get_elem? mid i)
      → AtRule env cfa_val rs old new i
  at_first i c old mid new at before after rule =
      let source : get_elem? old c.val ≡ source_of i c old new = elim (Bool-cases (ltb c.val i)) [
        | inl less ↦ rw less (sym (before c.val (ltb→lt c.val i less)))
        | inr other ↦ rw other
      ] in
      (
        c,
        at,
        Rule-cong c (get_elem? old i) (get_elem? old i) (get_elem? old c.val)
            (source_of i c old new) (get_elem? mid i) (get_elem? new i) refl source (sym after)
            rule,
      )

  at_later :
      (i j : ℕ) (old mid new : List Loc)
      → i < j
      → ((k : ℕ) → k ≢ i → get_elem? mid k ≡ get_elem? old k)
      → AtRule env cfa_val rs mid new j
      → AtRule env cfa_val rs old new j
  at_later i j old mid new after others (c, at, rule) =
      let source : source_of j c mid new ≡ source_of j c old new = elim (Bool-cases (ltb c.val j)) [
        | inl less ↦ rw less
        | inr other ↦ rw other (others c.val (ground arith))
      ] in
      (
        c,
        at,
        Rule-cong c (get_elem? mid j) (get_elem? old j) (source_of j c mid new)
            (source_of j c old new) (get_elem? new j) (get_elem? new j) (others j (omega arith))
            source refl rule,
      )

  pub apply_columns-FollowsFrom :
      (n i : ℕ) (old new : List Loc)
      → apply_columns env cfa_val rs n i old ≡ ok new
      → FollowsFrom env cfa_val rs n i old new
  unfolding apply_columns
  apply_columns-FollowsFrom zero i old new h =
      let same : old ≡ new = cc in
      (
        ap length (sym same),
        (λ j less. ap (λ xs. get_elem? xs j) (sym same)),
        (λ j from below. absurd (omega arith)),
      )
  apply_columns-FollowsFrom (suc n) i old new h =
      let (c, at, h1) =
        >>=-eq-ok (at_index rs.columns i)
          (λ c. do
            new_loc ← apply_column env cfa_val i c old
            apply_columns env cfa_val rs n (suc i) new_loc)
          h in
      let (mid, applied, h2) =
        >>=-eq-ok (apply_column env cfa_val i c old) (apply_columns env cfa_val rs n (suc i)) h1 in
      let ((len, others), rule) = apply_column-Rule env cfa_val i c.val c.place old mid applied in
      let (len', before, later) = apply_columns-FollowsFrom n (suc i) mid new h2 in
      (
        len' ∙ len,
        (λ j less. before j (omega arith) ∙ others j (omega arith)),
        (λ j from below. elim (Bool-cases (ltb i j)) [
          | inl behind ↦
              let after : i < j = ltb→lt i j behind in
              at_later i j old mid new after others (later j (omega arith) (omega arith))
          | inr first ↦
              let here : i ≡ j = ground arith in
              subst (AtRule env cfa_val rs old new) here (
                at_first i c old mid new at
                  (λ k less. before k (omega arith) ∙ others k (omega arith))
                  (before i (omega arith)) rule)
        ]),
      )

  -- The state after all columns: the locations of the rules.
  abbrev pub Applied : Frame → (Frame × Bool) → Type 0
  Applied c (next, more) =
      (length next.loc ≡ length c.loc)
      × (next.cfa ≡ cfa_val)
      × ((i : ℕ) → i < env.target.preserved → AtRule env cfa_val rs c.loc next.loc i)
      × ((l : Loc) × (at_index next.loc rs.ret_addr_column ≡ ok l) × (return_ip env l ≡ ok next.ip))
      × (more ≡ not (next.ip == 0))
      × (((next.ip == c.ip) && (next.cfa == c.cfa)) ≡ false)

-- The CFA that is computed, and the frame that the rules make with it.
abbrev pub Unwound : FrameEnv → Frame → RegState → (Frame × Bool) → Type 0
Unwound env c rs r =
    (cfa_val : ℕ) × (compute_cfa env c rs ≡ ok cfa_val) × Applied env cfa_val rs c r

-- Where `apply_reg_state` returns a frame, its CFA is the one computed, the location of every register
-- is the one of its rule, the address is read from the location of the return address or 0 where that
-- is undefined, and the frame differs from the one before in the address or the CFA. A rule that names a
-- register of a lower column takes that register's new location.
pub apply_reg_state-Unwound :
    (env : FrameEnv) (c : Frame) (rs : RegState)
    → Gives (Unwound env c rs) (apply_reg_state env c rs)
unfolding apply_reg_state
apply_reg_state-Unwound env c rs =
    Gives-if (Unwound env c rs) (leb env.target.preserved rs.ret_addr_column) _ _ (λ _. tt)
      (λ inside. Gives-bind_eq (Unwound env c rs) (compute_cfa env c rs) _ (λ cfa_val computed.
        Gives-bind_eq (Unwound env c rs) (apply_columns env cfa_val rs env.target.preserved 0 c.loc)
          _
          (λ locs applied.
            Gives-bind_eq (Unwound env c rs) (at_index locs rs.ret_addr_column) _ (λ l read.
              Gives-bind_eq (Unwound env c rs) (return_ip env l) _ (λ ip got.
                Gives-if (Unwound env c rs) ((ip == c.ip) && (cfa_val == c.cfa)) _ _ (λ _. tt)
                  (λ moved.
                    let (len, before, rules) =
                      apply_columns-FollowsFrom env cfa_val rs env.target.preserved 0 c.loc locs
                        applied in
                    (
                      cfa_val,
                      computed,
                      (
                        len,
                        refl,
                        (λ i less. rules i (omega arith) (omega arith)),
                        (l, read, got),
                        refl,
                        moved,
                      ),
                    )))))))
