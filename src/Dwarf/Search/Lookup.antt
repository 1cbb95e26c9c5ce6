-- ===== src/Dwarf/Search/Lookup.antt =====
-- `lookup` and `remote_lookup` find the last entry that does not start behind the address.
use libunwind.Prelude.{
  ℕ, zero, suc, ◌-◌, ◌≤◌, ◌<◌, ◌≡◌, refl, sym, ◌∙◌, arith, Bool, true, false, ◌==◌, if◌then◌else◌,
  List, [], ◌∷◌, length, get_elem?, get_elem?-lt, Option, none, some,
}
use libunwind.Prelude.Bits.{word_mod}
use libunwind.Prelude.Int.{ℤ, ltb_ℤ, leb_ℤ}
use libunwind.Result.{ok}
use libunwind.Dwarf.Search.{TableEntry, starts_above, lookup}
use libunwind.Dwarf.Search.Bisect.{Splits, bisect_all}

-- The starts do not fall.
abbrev pub IsSortedTable : List TableEntry → Type 0
IsSortedTable entries =
    (j k : ℕ) (a b : TableEntry)
    → j ≤ k
    → get_elem? entries j ≡ some a
    → get_elem? entries k ≡ some b
    → leb_ℤ a.start_ip_offset b.start_ip_offset ≡ true

-- What a lookup may return: the last entry that starts at or before `rel_ip`, or nothing where every
-- entry starts behind it.
abbrev pub Finds : List TableEntry → ℤ → Option TableEntry → Type 0
Finds entries rel_ip none =
    (j : ℕ) (b : TableEntry) → get_elem? entries j ≡ some b → ltb_ℤ rel_ip b.start_ip_offset ≡ true
Finds entries rel_ip (some e) =
    (k : ℕ) × (get_elem? entries k ≡ some e)
    × (ltb_ℤ rel_ip e.start_ip_offset ≡ false)
    × ((j : ℕ) (b : TableEntry)
        → k < j
        → get_elem? entries j ≡ some b
        → ltb_ℤ rel_ip b.start_ip_offset ≡ true)

abbrev is_above : List TableEntry → ℤ → ℕ → Bool
is_above entries rel_ip k = elim (get_elem? entries k) [
  | none ↦ true
  | some e ↦ ltb_ℤ rel_ip e.start_ip_offset
]

get_elem?-in_range :
    (entries : List TableEntry) (k : ℕ) (e : TableEntry)
    → get_elem? entries k ≡ some e
    → k < length entries
get_elem?-in_range [] k e h = absurd cc
get_elem?-in_range (x ∷ xs) zero e h = omega arith
get_elem?-in_range (x ∷ xs) (suc k) e h = omega (arith, get_elem?-in_range xs k e h)

ltb-leb_trans : (x y z : ℤ) → ltb_ℤ x y ≡ true → leb_ℤ y z ≡ true → ltb_ℤ x z ≡ true
ltb-leb_trans x y z p q = ground arith

module _ (entries : List TableEntry) (rel_ip : ℤ) where
  is_above-at :
      (k : ℕ) (e : TableEntry)
      → get_elem? entries k ≡ some e
      → is_above entries rel_ip k ≡ ltb_ℤ rel_ip e.start_ip_offset
  is_above-at k e h = rw (h, is_above)

  starts_above-is_above :
      (k : ℕ) → k < length entries → starts_above entries rel_ip k ≡ ok (is_above entries rel_ip k)
  starts_above-is_above k h =
      let (e, at) = get_elem?-lt entries k h in rw (at, starts_above, is_above)

  is_above_sorted :
      IsSortedTable entries
      → (j k : ℕ) → j ≤ k
      → k < length entries
      → is_above entries rel_ip j ≡ true
      → is_above entries rel_ip k ≡ true
  is_above_sorted sorted j k h less above =
      let (a, at_j) = get_elem?-lt entries j (omega arith) in
      let (b, at_k) = get_elem?-lt entries k less in
      is_above-at k b at_k
      ∙ ltb-leb_trans rel_ip a.start_ip_offset b.start_ip_offset
          (sym (is_above-at j a at_j) ∙ above) (sorted j k a b h at_j at_k)

  all_above :
      (r : ℕ)
      → ((k : ℕ) → r ≤ k → k < length entries → is_above entries rel_ip k ≡ true)
      → (j : ℕ) (b : TableEntry) → r ≤ j
      → get_elem? entries j ≡ some b
      → ltb_ℤ rel_ip b.start_ip_offset ≡ true
  all_above r from j b h at =
      sym (is_above-at j b at) ∙ from j h (get_elem?-in_range entries j b at)

  found :
      (r : ℕ)
      → Splits (is_above entries rel_ip) (length entries) r
      → (o : Option TableEntry) × ((if r == 0 then ok none else ok (get_elem? entries (r - 1)))
          ≡ ok o)
        × Finds entries rel_ip o
  found zero (in_range, below, from) =
      (none, refl, (λ j b at. all_above 0 from j b (omega arith) at))
  found (suc r) (in_range, below, from) =
      let (e, at) = get_elem?-lt entries r (omega arith) in
      let some_entry : (suc r == 0) ≡ false = ground arith in
      let last : suc r - 1 ≡ r = omega arith in
      (
        some e,
        rw (some_entry, last, at),
        (
          r,
          at,
          sym (is_above-at r e at) ∙ below r (omega arith),
          (λ j b h at_j. all_above (suc r) from j b (omega arith) at_j),
        ),
      )

  -- In a sorted table of fewer than 2^64 entries `lookup` returns the last entry that starts at or
  -- before `rel_ip`, and nothing where there is none.
  pub lookup-Finds :
      IsSortedTable entries
      → length entries < word_mod
      → (o : Option TableEntry) × (lookup entries rel_ip ≡ ok o) × Finds entries rel_ip o
  unfolding lookup
  lookup-Finds sorted small =
      let (r, e, split) =
        bisect_all (starts_above entries rel_ip) (is_above entries rel_ip) (length entries)
          starts_above-is_above (is_above_sorted sorted) small in
      let (o, found_o, finds) = found r split in (o, rw e found_o, finds)
