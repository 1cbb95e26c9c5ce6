-- ===== src/Dwarf/Find/Flushed.antt =====
-- A flushed cache: all its chains are empty.
use libunwind.Prelude.{
  ℕ, zero, suc, ◌+◌, ◌^◌, ◌≤◌, ◌≡◌, refl, ap, ◌∙◌, arith, true, false, ◌==◌, Bool-cases, inl, inr,
  ◌||◌, List, [], ◌∷◌, length,
}
use libunwind.Prelude.Power.{pow_pos}
use native.Mathlib.Nat.{pow-le-pow_right}
use libunwind.Result.{ok}
use libunwind.Dwarf.Frame.{at_index}
use libunwind.Dwarf.Cache.{Link, cache_size}
use libunwind.Dwarf.Cache.Kept.{IsWf}
use libunwind.Dwarf.Find.{
  Arrays, Memory, mapped, Cached, clear_links, clear_hash, install, default_log_size, no_index,
  install_memory, dwarf_flush_rs_cache,
}

clear_links-length :
    (n : ℕ) (ls : List Link)
    → n ≤ length ls
    → (r : List Link) × (clear_links n ls ≡ ok r) × (length r ≡ length ls)
unfolding clear_links
clear_links-length zero ls h = (ls, refl, refl)
clear_links-length (suc n) [] h = absurd (omega arith)
clear_links-length (suc n) (l ∷ ls) h =
    let (r, clears, same) = clear_links-length n ls (omega arith) in
    (record l { coll_chain = no_index; ip = 0; valid = false } ∷ r, rw clears, ap suc same)

abbrev AllEmpty : List ℕ → Type 0
AllEmpty xs = (i first : ℕ) → at_index xs i ≡ ok first → first ≡ no_index

clear_hash-AllEmpty :
    (n : ℕ) (xs : List ℕ)
    → length xs ≡ n
    → (r : List ℕ) × (clear_hash n xs ≡ ok r) × (length r ≡ n) × AllEmpty r
unfolding clear_hash
clear_hash-AllEmpty zero [] h = ([], refl, refl, λ i first at. cc)
clear_hash-AllEmpty zero (x ∷ xs) h = absurd (omega arith)
clear_hash-AllEmpty (suc n) [] h = absurd (omega arith)
clear_hash-AllEmpty (suc n) (x ∷ xs) h =
    let (r, clears, same, empty) = clear_hash-AllEmpty n xs (omega arith) in
    (no_index ∷ r, rw clears, ap suc same, cleared r empty)
  where
    cleared : (r : List ℕ) → AllEmpty r → AllEmpty (no_index ∷ r)
    cleared r empty zero first at = ground arith
    cleared r empty (suc i) first at = empty i first at

-- The arrays have the sizes of the table.
abbrev pub Fits : (log_size : ℕ) → Arrays → Type 0
Fits n a = (n ≤ 15) × (length a.link_array ≡ cache_size n) × (length a.hash_array ≡ 2 ^ (n + 1))

install-IsWf :
    (n : ℕ) (a : Arrays) (c : Cached)
    → Fits n a
    → (r : Cached) × (install n a c ≡ ok r) × IsWf r.table × (r.hash_null ≡ false)
unfolding install
install-IsWf n a c (bound, links, hashes) =
    let (ls, clears, same) = clear_links-length (cache_size n) a.link_array (omega arith) in
    let (h, clears', same', empty) = clear_hash-AllEmpty (2 ^ (n + 1)) a.hash_array hashes in
    (
      record c {
        table = record { rr_head = 0; log_size = n; hash = h; links = ls };
        buckets = a.bucket_array;
        hints = a.hint_array;
        hash_null = false;
      },
      rw (clears, clears'),
      (
        record {
          log_bound = bound;
          links_length = same ∙ links;
          hash_length = same';
          head_inside = pow_pos n;
        },
        λ slot first at.
            ([], omega (arith, empty slot first at, pow-le-pow_right {n = 2} (omega arith) bound)),
      ),
      refl,
    )

-- Where the arrays in place after it have the table's sizes, a flush empties every chain, so that all
-- of them end.
pub dwarf_flush_rs_cache-IsWf :
    (defaults a : Arrays) (memory : ℕ → Memory) (c : Cached)
    → Fits default_log_size defaults
    → memory c.table.log_size ≡ mapped a
    → Fits c.table.log_size a
    → (r : Cached) × (dwarf_flush_rs_cache defaults memory c ≡ ok (r, true))
      × IsWf r.table
      × (r.hash_null ≡ false)
unfolding dwarf_flush_rs_cache install_memory
dwarf_flush_rs_cache-IsWf defaults a memory c fits gives fits' =
    elim (Bool-cases ((c.table.log_size == default_log_size) || c.hash_null)) [
      | inl usual ↦
          let (r, installs, wf, null) = install-IsWf default_log_size defaults c fits in
          (r, rw (usual, installs), wf, null)
      | inr sized ↦
          let (r, installs, wf, null) = install-IsWf c.table.log_size a c fits' in
          (r, rw (sized, gives, installs), wf, null)
    ]
