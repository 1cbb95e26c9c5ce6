-- ===== src/Dwarf/Search/Find.antt =====
-- `dwarf_search_unwind_table` on a table in memory.
use libunwind.Prelude.{
  ℕ, ◌+◌, ◌-◌, ◌*◌, ◌/◌, ◌%◌, ◌^◌, ◌≤◌, ◌<◌, ◌≡◌, refl, sym, ◌∙◌, arith, Bool, true, false, ◌⊎◌,
  inl, inr, Bool-cases, ltb, leb, ltb→lt, lt→ltb, ◌==◌, ◌&&◌, Option, none, some,
}
use mathlib.Core.Path.{subst}
use libunwind.Prelude.Bits.{word_mod}
use libunwind.Prelude.Int.{ltb_ℤ, signed}
use libunwind.Result.{Result, ok, err, noinfo}
use libunwind.Dwarf.Read.{AddrSpace}
use libunwind.Dwarf.Types.{ProcInfo}
use libunwind.Dwarf.Fde.{dwarf_extract_proc_info_from_fde}
use libunwind.Dwarf.Search.{
  entry_size, Found, DynInfo, is_remote_table, is_table64, ip_base, extract_found,
  dwarf_search_unwind_table,
}
use libunwind.Dwarf.Search.Bisect.{Splits}
use libunwind.Dwarf.Search.Remote.{HoldsTable, Entry, remote_lookup-Splits}

-- What the search comes to: the function that holds `ip`, or `noinfo` where none does.
abbrev pub Answers : (ip n : ℕ) (procs : ℕ → ProcInfo) → Result ProcInfo → Type 0
Answers ip n procs r =
    ((k : ℕ) × (k < n) × ((procs k).start_ip ≤ ip) × (ip < (procs k).end_ip) × (r ≡ ok (procs k)))
    ⊎ ((r ≡ err noinfo) × ((k : ℕ) → k < n → (procs k).start_ip ≤ ip → ip < (procs k).end_ip → ⊥))

-- Of addresses below 2^63 the distances from a base compare as the addresses do.
relative_order :
    (a b base : ℕ)
    → a < 2 ^ 63
    → b < 2 ^ 63
    → base < 2 ^ 63
    → ltb_ℤ
        (signed 64 ((a + word_mod - base) % word_mod))
        (signed 64 ((b + word_mod - base) % word_mod))
      ≡ ltb a b
relative_order a b base ha hb hbase = ground arith

module _ (space : AddrSpace) (fuel ip : ℕ) (di : DynInfo) (pi : ProcInfo) (need alloc : Bool)
    (size : ℕ) (n : ℕ) (fdes ends : ℕ → ℕ) (procs : ℕ → ProcInfo)
    (extracts : (k : ℕ)
      → k < n
      → dwarf_extract_proc_info_from_fde space fuel
          ((fdes k + di.segbase) % word_mod)
          pi
          di.segbase
          need
          alloc
          false
          size
        ≡ ok (procs k, ends k))
    (bounds : (k : ℕ)
      → k < n
      → ((procs k).start_ip ≤ (procs k).end_ip) × ((procs k).end_ip < 2 ^ 63))
    (ordered : (j k : ℕ) → j < k → k < n → (procs j).end_ip ≤ (procs k).start_ip) where
  starts_in_order : (j k : ℕ) → j ≤ k → k < n → (procs j).start_ip ≤ (procs k).start_ip
  starts_in_order j k h less = elim (Bool-cases (j == k)) [
    | inl same ↦ let eq : j ≡ k = ground arith in rw eq (omega arith)
    | inr differ ↦
        let before : j < k = ground arith in
        omega (arith, bounds j (omega arith), ordered j k before less)
  ]

  none_behind :
      (k : ℕ)
      → (procs k).start_ip ≤ ip
      → (procs k).end_ip ≤ ip
      → ((j : ℕ) → k + 1 ≤ j → j < n → ltb ip (procs j).start_ip ≡ true)
      → k < n
      → (j : ℕ) → j < n
      → (procs j).start_ip ≤ ip
      → ip < (procs j).end_ip
      → ⊥
  none_behind k started ended from h j less start end = elim (Bool-cases (ltb j k)) [
    | inl before ↦ omega (arith, ordered j k (ltb→lt j k before) h)
    | inr not_before ↦ elim (Bool-cases (ltb k j)) [
      | inl behind ↦
          let lt : k < j = ltb→lt k j behind in
          omega (arith, ltb→lt ip (procs j).start_ip (from j (omega arith) less))
      | inr not_behind ↦
          let eq : j ≡ k = ground arith in
          let at_k : ip < (procs k).end_ip = subst (λ (i : ℕ). ip < (procs i).end_ip) eq end in
          omega arith
    ]
  ]

  extract_found-Answers :
      (r : ℕ) (o : Option Found)
      → Splits (λ k. ltb ip (procs k).start_ip) n r
      → Entry fdes r o
      → Answers ip n procs (extract_found space fuel ip di.segbase pi need alloc size o)
  unfolding extract_found
  extract_found-Answers r none (in_range, below, from) none_before =
      inr (
        refl,
        λ k h start end. omega (arith, ltb→lt ip (procs k).start_ip (from k (omega arith) h)),
      )
  extract_found-Answers r (some f) (in_range, below, from) (k, at, fde) =
      let here : k < n = omega arith in
      let started : ltb ip (procs k).start_ip ≡ false = below k (omega arith) in
      let start_le : (procs k).start_ip ≤ ip = ground arith in
      let behind : (j : ℕ) → k + 1 ≤ j → j < n → ltb ip (procs j).start_ip ≡ true =
        λ j h less. from j (omega arith) less in
      elim (Bool-cases (leb (procs k).end_ip ip)) [
        | inl ended ↦ inr (
          rw (fde, extracts k here, started, ended),
          none_behind k start_le (ground arith) behind here,
        )
        | inr holds ↦
            inl (k, here, start_le, ground arith, rw (fde, extracts k here, started, holds))
      ]

  -- Where memory holds the table of functions that stand in order, do not overlap and lie below 2^63,
  -- and extracting an entry's FDE gives its function: for an address in the table's range the search
  -- returns the function that holds the address, and `noinfo` where none does.
  pub search-Answers :
      is_remote_table di.format && (leb di.start_ip ip && ltb ip di.end_ip) ≡ true
      → di.table_len * 8 % word_mod / entry_size (is_table64 di.format) ≡ n
      → n < word_mod
      → ip < 2 ^ 63
      → ip_base di di.format < 2 ^ 63
      → HoldsTable space di.table_data
          (is_table64 di.format)
          n
          (λ k. ((procs k).start_ip + word_mod - ip_base di di.format) % word_mod)
          fdes
      → Answers ip n procs (dwarf_search_unwind_table space fuel ip di pi need alloc size)
  unfolding dwarf_search_unwind_table
  search-Answers inside fits small low base_low holds =
      let rel : ℕ → ℕ = λ a. (a + word_mod - ip_base di di.format) % word_mod in
      let start_small : (k : ℕ) → k < n → (procs k).start_ip < 2 ^ 63 =
        λ k h. omega (arith, bounds k h) in
      let as_addresses : (k : ℕ)
          → k < n
          → ltb_ℤ (signed 64 (rel ip)) (signed 64 (rel (procs k).start_ip))
            ≡ ltb ip (procs k).start_ip =
        λ k h.
          relative_order ip (procs k).start_ip (ip_base di di.format) low (start_small k h)
            base_low in
      let sorted : (j k : ℕ)
          → j ≤ k
          → k < n
          → ltb_ℤ (signed 64 (rel ip)) (signed 64 (rel (procs j).start_ip)) ≡ true
          → ltb_ℤ (signed 64 (rel ip)) (signed 64 (rel (procs k).start_ip)) ≡ true =
        λ j k h less above.
          as_addresses k less
          ∙ lt→ltb ip (procs k).start_ip (
              omega (
                arith,
                ltb→lt ip (procs j).start_ip (sym (as_addresses j (omega arith)) ∙ above),
                starts_in_order j k h less,
              )) in
      let (r, (in_range, below, from), (o, found, entry)) =
        remote_lookup-Splits space di.table_data n (is_table64 di.format)
          (λ k. rel (procs k).start_ip) fdes holds (rel ip) (rel di.end_ip)
          (di.table_len * 8 % word_mod) fits small sorted in
      let split : Splits (λ k. ltb ip (procs k).start_ip) n r = (
        in_range,
        (λ k h. sym (as_addresses k (omega arith)) ∙ below k h),
        (λ k h less. sym (as_addresses k less) ∙ from k h less),
      ) in
      rw (inside, found) (extract_found-Answers r o split entry)
