-- ===== src/Arm/Search/Function.antt =====
-- What the search of the .ARM.exidx section returns.
use libunwind.Prelude.{
  ℕ, ◌+◌, ◌-◌, ◌*◌, ◌%◌, ◌≤◌, ◌<◌, ◌≡◌, ap, ◌∙◌, arith, Bool, true, false, Bool-cases, ◌⊎◌, inl,
  inr, ltb, leb, leb→le, ltb→lt, lt→ltb, if◌then◌else◌,
}
use mathlib.Core.Path.{subst}
use libunwind.Result.{Result, ok, err, noinfo}
use libunwind.Dwarf.Types.{arm_exidx}
use libunwind.Dwarf.Search.{DynInfo}
use libunwind.Arm.{ArmSpace, ArmProcInfo, word32_mod, prel31_to_addr}
use libunwind.Arm.Search.{
  search_loop, search_rounds, find_entry, attach_entry, attach_handler, arm_search_unwind_table,
}
use libunwind.Arm.Search.Handler.{attach_handler-Keeps, attach_entry-bounds}
use libunwind.Arm.Search.Loop.{HoldsIndex, search_loop-neighbours}

-- Where entry `k`'s function ends: at the next one, or with the table's range.
abbrev pub end_of : (di : DynInfo) (m : ℕ) (v : ℕ → ℕ) (k : ℕ) → ℕ
end_of di m v k = if ltb k m then v (k + 1) else di.end_ip

-- The bounds of the function of entry `k`, whose end is one less than the next function's start, and
-- the entry's address.
abbrev pub Describes : DynInfo → (m : ℕ) (v : ℕ → ℕ) (need : Bool) (k : ℕ) → ArmProcInfo → Type 0
Describes di m v need k p =
    (p.start_ip ≡ v k)
    × (p.end_ip ≡ (end_of di m v k + word32_mod - 1) % word32_mod)
    × (need ≡ true → p.unwind_info ≡ di.table_data + 8 * k)
    × (need ≡ true → p.format ≡ arm_exidx)

-- Either the address lies before every entry, or the answer is the last entry at or before it.
abbrev pub FindsEntry :
    (ip : ℕ) → DynInfo → (m : ℕ) (v : ℕ → ℕ) (need : Bool) → Result ArmProcInfo → Type 0
FindsEntry ip di m v need r =
    ((ip < v 0) × (r ≡ err noinfo))
    ⊎ ((k : ℕ) × (k ≤ m)
        × (v k ≤ ip)
        × ((j : ℕ) → k < j → j ≤ m → ip < v j)
        × ((p : ArmProcInfo) × (r ≡ ok p) × Describes di m v need k p))

module _ (space : ArmSpace) (ip : ℕ) (di : DynInfo) (pi : ArmProcInfo) (need : Bool) (m : ℕ)
    (v : ℕ → ℕ) (holds : HoldsIndex space di.table_data m v) (size : di.table_len ≡ 8 * (m + 1))
    (sorted : (j k : ℕ) → j ≤ k → k ≤ m → v j ≤ v k) where
  last-eq : (di.table_data + di.table_len + word32_mod - 8) % word32_mod ≡ di.table_data + 8 * m
  last-eq = omega (arith, size, holds.0)

  read_first : prel31_to_addr space di.table_data ≡ ok (v 0)
  read_first =
      let same : di.table_data + 8 * 0 ≡ di.table_data = omega arith in
      subst (λ (a : ℕ). prel31_to_addr space a ≡ ok (v 0)) same (holds.1 0 (omega arith))

  -- The entry, the start and the end that are found.
  with_bounds : (start end : ℕ) → ArmProcInfo
  with_bounds start end = record pi {
    start_ip = start;
    end_ip = (end + word32_mod - 1) % word32_mod;
  }

  find_before : ip < v 0 → find_entry space ip di pi ≡ err noinfo
  unfolding find_entry
  find_before less = rw (read_first, lt→ltb ip (v 0) less)

  find_last :
      ltb ip (v 0) ≡ false
      → leb (v m) ip ≡ true
      → find_entry space ip di pi ≡ ok (di.table_data + 8 * m, with_bounds (v m) di.end_ip)
  unfolding find_entry with_bounds
  find_last started behind = rw (read_first, started, last-eq, holds.1 m (omega arith), behind)

  find_inside :
      (k : ℕ)
      → ltb ip (v 0) ≡ false
      → leb (v m) ip ≡ false
      → k + 1 ≤ m
      → search_loop space ip search_rounds di.table_data (di.table_data + 8 * m)
        ≡ ok (di.table_data + 8 * k)
      → find_entry space ip di pi ≡ ok (di.table_data + 8 * k, with_bounds (v k) (v (k + 1)))
  unfolding find_entry with_bounds
  find_inside k started before inside found =
      let next : (di.table_data + 8 * k + 8) % word32_mod ≡ di.table_data + 8 * (k + 1) =
        omega (arith, holds.0) in
      rw (
        read_first,
        started,
        last-eq,
        holds.1 m (omega arith),
        before,
        found,
        holds.1 k (omega arith),
        next,
        holds.1 (k + 1) inside,
      )

  -- From an entry and its bounds to the answer.
  described :
      (k end : ℕ)
      → end ≡ end_of di m v k
      → Describes di m v need k (
          attach_handler space
            (di.table_data + 8 * k)
            (attach_entry need (di.table_data + 8 * k) (with_bounds (v k) end)))
  unfolding with_bounds
  described k end same =
      let entry : ℕ = di.table_data + 8 * k in
      let (start, end_ip, info, format) =
        attach_handler-Keeps space entry (attach_entry need entry (with_bounds (v k) end)) in
      let (start', end_ip', info', format') =
        attach_entry-bounds need entry (with_bounds (v k) end) in
      (
        start ∙ start',
        end_ip ∙ end_ip' ∙ ap (λ (e : ℕ). (e + word32_mod - 1) % word32_mod) same,
        (λ wanted. info ∙ info' wanted),
        (λ wanted. format ∙ format' wanted),
      )

  answer :
      (k end : ℕ)
      → find_entry space ip di pi ≡ ok (di.table_data + 8 * k, with_bounds (v k) end)
      → end ≡ end_of di m v k
      → (p : ArmProcInfo) × (arm_search_unwind_table space ip di pi need ≡ ok p)
        × Describes di m v need k p
  unfolding arm_search_unwind_table
  answer k end found same = (
    attach_handler space (di.table_data + 8 * k)
        (attach_entry need (di.table_data + 8 * k) (with_bounds (v k) end)),
    rw found,
    described k end same,
  )

  in_between :
      ltb ip (v 0) ≡ false
      → leb (v m) ip ≡ false
      → FindsEntry ip di m v need (arm_search_unwind_table space ip di pi need)
  in_between started inside =
      let below : v 0 ≤ ip = ground arith in
      let above : ip < v m = ground arith in
      let nonempty : 0 < m = elim (Bool-cases (ltb 0 m)) [
        | inl more ↦ ltb→lt 0 m more
        | inr single_entry ↦
            let single : m ≡ 0 = ground arith in
            let same : ip < v 0 = subst (λ (n : ℕ). ip < v n) single above in absurd (omega arith)
      ] in
      let (k, found, next, start, end) =
        search_loop-neighbours space ip di.table_data m v holds search_rounds 0 m nonempty
          (omega (arith, holds.0)) (omega arith) below above in
      let from_start : di.table_data + 8 * 0 ≡ di.table_data = omega arith in
      let found' : search_loop space ip search_rounds di.table_data (di.table_data + 8 * m)
          ≡ ok (di.table_data + 8 * k) =
        subst
          (λ (a : ℕ).
            search_loop space ip search_rounds a (di.table_data + 8 * m)
            ≡ ok (di.table_data + 8 * k))
          from_start found in
      let more : ltb k m ≡ true = ground arith in
      inr (
        k,
        omega arith,
        start,
        (λ j after within. omega (arith, end, sorted (k + 1) j (omega arith) within)),
        answer k (v (k + 1)) (find_inside k started inside next found') (rw more),
      )

  -- In a sorted table of the section, of entries that memory holds below 2^32, the search returns
  -- `noinfo` for an address before the first function, and otherwise the last entry that starts at or
  -- before it. The end of the function is set to one less than the next function's start.
  pub search-FindsEntry : FindsEntry ip di m v need (arm_search_unwind_table space ip di pi need)
  unfolding arm_search_unwind_table
  search-FindsEntry = elim (Bool-cases (ltb ip (v 0))) [
    | inl before ↦ let less : ip < v 0 = ltb→lt ip (v 0) before in inl (less, rw (find_before less))
    | inr started ↦ elim (Bool-cases (leb (v m) ip)) [
      | inl behind ↦
          let last : ltb m m ≡ false = ground arith in
          inr (
            m,
            omega arith,
            leb→le (v m) ip behind,
            (λ j after within. absurd (omega arith)),
            answer m di.end_ip (find_last started behind) (rw last),
          )
      | inr inside ↦ in_between started inside
    ]
  ]
