-- ===== src/Dwarf/Search/Remote.antt =====
-- `remote_lookup` on a table in memory.
use libunwind.Prelude.{
  ℕ, zero, suc, ◌+◌, ◌-◌, ◌/◌, ◌≤◌, ◌<◌, ◌≡◌, refl, arith, Bool, true, false, inl, inr, Bool-cases,
  ltb, ltb→lt, ◌==◌, if◌then◌else◌, Option, none, some,
}
use libunwind.Prelude.Bits.{word_mod}
use libunwind.Prelude.Int.{ltb_ℤ, signed}
use libunwind.Result.{ok, ◌>>=◌}
use libunwind.Dwarf.Read.{AddrSpace}
use libunwind.Dwarf.Search.{
  entry_size, entry_address, remote_read_entry, Found, remote_above, read_found, remote_lookup,
}
use libunwind.Dwarf.Search.Bisect.{Splits, bisect_all}

-- The memory at `base` holds `n` entries, of the starts and the offsets given.
abbrev pub HoldsTable : AddrSpace → (base : ℕ) → Bool → (n : ℕ) (starts fdes : ℕ → ℕ) → Type 0
HoldsTable space base is_64bit n starts fdes =
    (k : ℕ)
    → k < n
    → (a : ℕ) × (remote_read_entry space is_64bit (entry_address base is_64bit k)
        ≡ ok (starts k, a))
      × (remote_read_entry space is_64bit a ≡ ok (fdes k, entry_address base is_64bit (k + 1)))

-- The entry that a lookup hands out: the one before the `r`-th.
abbrev pub Entry : (fdes : ℕ → ℕ) (r : ℕ) → Option Found → Type 0
Entry fdes r none = r ≡ 0
Entry fdes r (some f) = (k : ℕ) × (r ≡ k + 1) × (f.fde_offset ≡ fdes k)

module _ (space : AddrSpace) (base n : ℕ) (is_64bit : Bool) (starts fdes : ℕ → ℕ)
    (holds : HoldsTable space base is_64bit n starts fdes) where
  above-eq :
      (rel_ip k : ℕ)
      → k < n
      → remote_above space base rel_ip is_64bit k
        ≡ ok (ltb_ℤ (signed 64 rel_ip) (signed 64 (starts k)))
  unfolding remote_above
  above-eq rel_ip k h = let (a, start, fde) = holds k h in rw start

  read_found-eq :
      (k last : ℕ)
      → k < n
      → (next : ℕ) × (read_found space base n last (k + 1) is_64bit
          ≡ ok (record { start_ip_offset = starts k; fde_offset = fdes k; last_ip_offset = next }))
  unfolding read_found
  read_found-eq k last h =
      let (a, start, fde) = holds k h in
      let same : k + 1 - 1 ≡ k = omega arith in
      elim (Bool-cases (ltb (k + 1) n)) [
        | inl more ↦
            let (next, start_next, fde_next) = holds (k + 1) (ltb→lt (k + 1) n more) in
            (starts (k + 1), rw (same, start, fde, more, start_next))
        | inr done ↦ (last, rw (same, start, fde, done))
      ]

  module _ (rel_ip last table_size : ℕ) (fits : table_size / entry_size is_64bit ≡ n)
      (small : n < word_mod)
      (sorted : (j k : ℕ)
        → j ≤ k
        → k < n
        → ltb_ℤ (signed 64 rel_ip) (signed 64 (starts j)) ≡ true
        → ltb_ℤ (signed 64 rel_ip) (signed 64 (starts k)) ≡ true) where
    found_at :
        (r : ℕ)
        → r ≤ n
        → (o : Option Found) × ((if r == 0
              then ok none
              else (do f ← read_found space base n last r is_64bit; ok (some f)))
            ≡ ok o)
          × Entry fdes r o
    found_at zero h = (none, refl, refl)
    found_at (suc r) h =
        let (next, e) = read_found-eq r last (omega arith) in
        let some_entry : (suc r == 0) ≡ false = ground arith in
        let count : suc r ≡ r + 1 = omega arith in
        (
          some (record { start_ip_offset = starts r; fde_offset = fdes r; last_ip_offset = next }),
          rw (some_entry, count, e),
          (r, count, refl),
        )

    -- Nothing, or the entry before the first one behind the address.
    pub remote_lookup-Splits :
        (r : ℕ) × Splits (λ k. ltb_ℤ (signed 64 rel_ip) (signed 64 (starts k))) n r
        × ((o : Option Found) × (remote_lookup space base table_size rel_ip last is_64bit ≡ ok o)
            × Entry fdes r o)
    unfolding remote_lookup
    remote_lookup-Splits =
        let (r, e, split) =
          bisect_all (remote_above space base rel_ip is_64bit)
            (λ k. ltb_ℤ (signed 64 rel_ip) (signed 64 (starts k))) n (above-eq rel_ip) sorted
            small in
        let (o, found, entry) = found_at r split.0 in (r, split, (o, rw (fits, e) found, entry))
