-- ===== src/Dwarf/Find/Faithful.antt =====
-- The cache stays faithful to parsing when it is opened or flushed.
use libunwind.Prelude.{
  ℕ, zero, suc, ◌+◌, ◌%◌, ◌^◌, ◌≡◌, arith, Bool, true, false, not, ◌==◌, ◌||◌, if◌then◌else◌, List,
  [], ◌∷◌, length,
}
use libunwind.Result.{ok, Gives, Gives-bind, Gives-bind_any, Gives-if}
use libunwind.Dwarf.Cfi.State.{RegState}
use libunwind.Dwarf.Frame.{at_index}
use libunwind.Dwarf.Cache.{Link, cache_size, write_at}
use libunwind.Dwarf.Find.{
  Arrays, Memory, mapped, failed, Cached, clear_links, clear_hash, install, default_log_size,
  dwarf_flush_rs_cache, Space, get_rs_cache, Finder, Outcome, leave_hint, install_memory,
}

-- What parsing at this address gives, for one of the two ways to take the address.
abbrev pub IsParse : (parse : (ip : ℕ) → (use_prev_instr : Bool) → Outcome) → ℕ → RegState → Type 0
IsParse parse ip rs = (b : Bool) × ((parse ip b).state ≡ ok rs)

-- Every valid entry has the state that parsing at its address gives.
abbrev pub IsFaithful : (parse : (ip : ℕ) → (use_prev_instr : Bool) → Outcome) → Cached → Type 0
IsFaithful parse c =
    (y : ℕ) (l : Link)
    → at_index c.table.links y ≡ ok l
    → l.valid ≡ true
    → (rs : RegState) × (at_index c.buckets y ≡ ok rs) × IsParse parse l.ip rs

-- The link arrays that a flush can put in place have the size that it clears.
abbrev pub HasLinks : (log_size : ℕ) → Memory → Type 0
HasLinks log_size (mapped a) = length a.link_array ≡ cache_size log_size
HasLinks log_size (failed hash_null) = Unit

abbrev AllInvalid : List Link → Type 0
AllInvalid ls = (y : ℕ) (l : Link) → at_index ls y ≡ ok l → l.valid ≡ false

clear_links-AllInvalid :
    (n : ℕ) (ls : List Link) → length ls ≡ n → Gives AllInvalid (clear_links n ls)
unfolding clear_links
clear_links-AllInvalid zero [] h = λ y l at. cc
clear_links-AllInvalid zero (k ∷ ls) h = absurd (omega arith)
clear_links-AllInvalid (suc n) [] h = tt
clear_links-AllInvalid (suc n) (k ∷ ls) h =
    Gives-bind AllInvalid AllInvalid (clear_links n ls) _
      (clear_links-AllInvalid n ls (omega arith)) (λ rest invalid. cleared rest invalid)
  where
    cleared :
        (rest : List Link)
        → AllInvalid rest
        → AllInvalid (record k { coll_chain = 0xffff; ip = 0; valid = false } ∷ rest)
    cleared rest invalid zero l at = ground arith
    cleared rest invalid (suc y) l at = invalid y l at

module _ (parse : (ip : ℕ) → (use_prev_instr : Bool) → Outcome) where
  install-IsFaithful :
      (n : ℕ) (a : Arrays) (c : Cached)
      → length a.link_array ≡ cache_size n
      → Gives (IsFaithful parse) (install n a c)
  unfolding install
  install-IsFaithful n a c h =
      Gives-bind AllInvalid (IsFaithful parse) (clear_links (cache_size n) a.link_array) _
        (clear_links-AllInvalid (cache_size n) a.link_array h)
        (λ ls invalid.
          Gives-bind_any (IsFaithful parse) (clear_hash (2 ^ (n + 1)) a.hash_array) _
            (λ h y l at valid. let no : l.valid ≡ false = invalid y l at in cc))

  module _ (defaults : Arrays) (memory : ℕ → Memory)
      (defaults_fit : length defaults.link_array ≡ cache_size default_log_size)
      (memory_fits : (n : ℕ) → HasLinks n (memory n)) where
    flush-IsFaithful :
        (c : Cached)
        → IsFaithful parse c
        → Gives (λ r. IsFaithful parse r.0) (dwarf_flush_rs_cache defaults memory c)
    unfolding dwarf_flush_rs_cache install_memory
    flush-IsFaithful c faithful =
        let P : (Cached × Bool) → Type 0 = λ r. IsFaithful parse r.0 in
        Gives-if P ((c.table.log_size == default_log_size) || c.hash_null) _ _
          (λ _.
            Gives-bind (IsFaithful parse) P (install default_log_size defaults c) _
              (install-IsFaithful default_log_size defaults c defaults_fit) (λ r f. f))
          (λ _. by_memory (memory c.table.log_size) (memory_fits c.table.log_size))
      where
        by_memory :
            (m : Memory)
            → HasLinks c.table.log_size m
            → Gives (λ (r : Cached × Bool). IsFaithful parse r.0) (install_memory m c)
        by_memory (mapped a) h =
            Gives-bind (IsFaithful parse) (λ r. IsFaithful parse r.0) (install c.table.log_size a c)
              _ (install-IsFaithful c.table.log_size a c h) (λ r f. f)
        by_memory (failed hash_null) h = faithful

    pub get_rs_cache-IsFaithful :
        (space : Space)
        → IsFaithful parse space.global_cache
        → Gives (λ r. IsFaithful parse r.0.global_cache) (get_rs_cache defaults memory space)
    unfolding get_rs_cache
    get_rs_cache-IsFaithful space faithful =
        let P : (Space × Bool) → Type 0 = λ r. IsFaithful parse r.0.global_cache in
        Gives-if P (not space.caching) _ _ (λ _. faithful)
          (λ _.
            Gives-if P
              (not (space.cache_generation == space.global_cache.generation)
                || space.global_cache.hash_null)
              _ _
              (λ _.
                Gives-bind (λ r. IsFaithful parse r.0) P
                  (dwarf_flush_rs_cache defaults memory space.global_cache) _
                  (flush-IsFaithful space.global_cache faithful) (λ (r, done) f. kept r done f))
              (λ _. faithful))
      where
        kept :
            (r : Cached) (done : Bool)
            → IsFaithful parse r
            → IsFaithful parse
                (if done then record r { generation = space.cache_generation } else r)
        kept r true f = f
        kept r false f = f

  pub leave_hint-IsFaithful :
      (space : Space) (c : Finder) (index : ℕ)
      → IsFaithful parse space.global_cache
      → Gives (λ r. IsFaithful parse r.0.global_cache) (leave_hint space c index)
  unfolding leave_hint
  leave_hint-IsFaithful space c index faithful =
      let P : (Space × Finder) → Type 0 = λ r. IsFaithful parse r.0.global_cache in
      Gives-bind_any P (at_index space.global_cache.hints index) _ (λ hint.
        Gives-bind_any P (write_at space.global_cache.hints c.prev_rs ((index + 1) % 0x10000)) _
          (λ hints. faithful))
