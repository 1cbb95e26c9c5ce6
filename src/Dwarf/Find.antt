-- ===== src/Dwarf/Find.antt =====
-- src/dwarf/Gparser.c: `find_reg_state`, which looks for the register state of an address in the cache
-- and parses it otherwise, with the cache's flushing (`dwarf_flush_rs_cache`) and opening
-- (`get_rs_cache`, for the policies none and global).
pub mod Faithful
pub mod Flushed
pub mod Parsed
use libunwind.Prelude.{
  ℕ, zero, suc, ◌+◌, ◌%◌, ◌^◌, Bool, true, false, not, ltb, ◌==◌, ◌||◌, if◌then◌else◌, List, [],
  ◌∷◌, Option, none, some,
}
use libunwind.Result.{Result, ok, err, stop, out_of_bounds, ◌>>=◌}
use libunwind.Dwarf.Cfi.State.{RegState}
use libunwind.Dwarf.Frame.{at_index}
use libunwind.Dwarf.Cache.{Link, RsCache, cache_size, rs_lookup, rs_new, write_at}

abbrev pub default_log_size : ℕ
default_log_size = 7

-- The value -1 of an `unsigned short`.
abbrev pub no_index : ℕ
no_index = 0xffff

-- The arrays of a cache; the fields `hint` of the links stand in a list of their own.
pub record Arrays : Type 0 where
  pub hash_array : List ℕ
  pub link_array : List Link
  pub bucket_array : List RegState
  pub hint_array : List ℕ

-- What GET_MEMORY gives for the three arrays of a size: all of them, or not, and then whether the
-- pointer to the hash array is NULL.
pub data Memory : Type 0 where
  mapped : Arrays → Memory
  failed : (hash_null : Bool) → Memory

-- `struct dwarf_rs_cache`; `hash_null` tells that `hash` is NULL.
pub record Cached : Type 0 where
  pub table : RsCache
  pub buckets : List RegState
  pub hints : List ℕ
  pub generation : ℕ
  pub hash_null : Bool

unfoldable pub clear_links : ℕ → List Link → Result (List Link)
clear_links zero ls = ok ls
clear_links (suc n) [] = stop out_of_bounds
clear_links (suc n) (l ∷ ls) = do
  rest ← clear_links n ls
  ok (record l { coll_chain = no_index; ip = 0; valid = false } ∷ rest)

unfoldable pub clear_hash : ℕ → List ℕ → Result (List ℕ)
clear_hash zero xs = ok xs
clear_hash (suc n) [] = stop out_of_bounds
clear_hash (suc n) (x ∷ xs) = do rest ← clear_hash n xs; ok (no_index ∷ rest)

-- The table on these arrays, with no entry.
unfoldable pub install : (log_size : ℕ) → Arrays → Cached → Result Cached
install log_size a c = do
  ls ← clear_links (cache_size log_size) a.link_array
  h ← clear_hash (2 ^ (log_size + 1)) a.hash_array
  ok (record c {
    table = record { rr_head = 0; log_size = log_size; hash = h; links = ls };
    buckets = a.bucket_array;
    hints = a.hint_array;
    hash_null = false;
  })

-- With `false`: -UNW_ENOMEM.
unfoldable pub install_memory : Memory → Cached → Result (Cached × Bool)
install_memory (mapped a) c = do r ← install c.table.log_size a c; ok (r, true)
install_memory (failed hash_null) c = ok (record c { hash_null = hash_null }, false)

unfoldable pub dwarf_flush_rs_cache :
    (defaults : Arrays) → (memory : ℕ → Memory) → Cached → Result (Cached × Bool)
dwarf_flush_rs_cache defaults memory c =
    if (c.table.log_size == default_log_size) || c.hash_null
    then (do r ← install default_log_size defaults c; ok (r, true))
    else install_memory (memory c.table.log_size) c

-- What an address space keeps for its cache; `caching` is false for UNW_CACHE_NONE.
pub record Space : Type 0 where
  pub caching : Bool
  pub cache_generation : ℕ
  pub global_cache : Cached

-- With `false` the space has no cache.
unfoldable pub get_rs_cache :
    (defaults : Arrays) → (memory : ℕ → Memory) → Space → Result (Space × Bool)
get_rs_cache defaults memory space =
    if not space.caching
    then ok (space, false)
    else (let c = space.global_cache in
        if not (space.cache_generation == c.generation) || c.hash_null
        then (do
          (r, done) ← dwarf_flush_rs_cache defaults memory c
          let kept : Cached = if done then record r { generation = space.cache_generation } else r
          ok (record space { global_cache = kept }, done))
        else ok (space, true))

-- The fields of the cursor that `find_reg_state` reads and writes; `hint` is the pattern of a `short`.
pub record Finder : Type 0 where
  pub ip : ℕ
  pub hint : ℕ
  pub prev_rs : ℕ
  pub use_prev_instr : Bool

-- A `short`, where only the numbers above 0 matter.
abbrev pub positive_short : ℕ → ℕ
positive_short h = if ltb h 0x8000 then h else 0

-- What `fetch_proc_info` and `create_state_record_for` come to: whether the CIE found has the signal
-- frame mark, where one is found, and the register state or the error.
pub record Outcome : Type 0 where
  pub signal_frame : Option Bool
  pub state : Result RegState

pub record Located : Type 0 where
  pub space : Space
  pub cursor : Finder
  pub answer : Result RegState

-- The end of the function: the hint for the next lookup goes to the entry used last.
unfoldable pub leave_hint : Space → Finder → (index : ℕ) → Result (Space × Finder)
leave_hint space c index = do
  let cache = space.global_cache
  hint ← at_index cache.hints index
  hints ← write_at cache.hints c.prev_rs ((index + 1) % 0x10000)
  ok (
    record space { global_cache = record cache { hints = hints } },
    record c { hint = hint; prev_rs = index },
  )

-- The entry that the address has by now, or a new one with the parsed state.
unfoldable pub store_answer :
    Space
    → Finder
    → (fuel : ℕ) → (cache_frame : Bool) → RegState
    → Option ℕ
    → Result (Space × ℕ × RegState)
store_answer space c fuel cache_frame rs (some index) = do
  kept ← at_index space.global_cache.buckets index
  ok (space, index, kept)
store_answer space c fuel cache_frame rs none = do
  let cache = space.global_cache
  (table, index) ← rs_new cache.table c.ip fuel cache_frame
  hints ← write_at cache.hints index 0
  buckets ← write_at cache.buckets index rs
  let renewed : Cached = record cache { table = table; hints = hints; buckets = buckets }
  ok (record space { global_cache = renewed }, index, rs)

unfoldable pub store_state :
    Space → Finder → (fuel : ℕ) → (cache_frame : Bool) → RegState → Result (Space × ℕ × RegState)
store_state space c fuel cache_frame rs = do
  found ← rs_lookup space.global_cache.table c.ip (positive_short c.hint) fuel
  store_answer space c fuel cache_frame rs found

-- On a hit.
unfoldable pub found_state : Space → Finder → (index : ℕ) → Result Located
found_state space c index = do
  rs ← at_index space.global_cache.buckets index
  l ← at_index space.global_cache.table.links index
  (opened, c') ← leave_hint space (record c { use_prev_instr = not l.signal_frame }) index
  ok (record { space = opened; cursor = c'; answer = ok rs })

-- `parse` stands for the two calls on a miss, `cache_frame` for what `tdep_cache_frame` tells, and
-- `interlude` for what else happens to the cache while its lock is released.
module _ (parse : (ip : ℕ) → (use_prev_instr : Bool) → Outcome) (cache_frame : Bool)
    (interlude : Space → Space) (defaults : Arrays) (memory : ℕ → Memory) (fuel : ℕ) where
  unfoldable pub parsed_state : Space → Finder → RegState → Result Located
  parsed_state space c rs = do
    (opened, cache) ← get_rs_cache defaults memory space
    if cache
        then (do
          (stored, index, kept) ← store_state opened c fuel cache_frame rs
          (left, c') ← leave_hint stored c index
          ok (record { space = left; cursor = c'; answer = ok kept }))
        else ok (record { space = opened; cursor = c; answer = ok rs })

  unfoldable pub parsed_answer : Space → Finder → Result RegState → Result Located
  parsed_answer space c (stop s) = stop s
  parsed_answer space c (err e) = ok (record { space = space; cursor = c; answer = err e })
  parsed_answer space c (ok rs) = parsed_state space c rs

  unfoldable pub parse_state : Space → Finder → Result Located
  parse_state space c =
      let o = parse c.ip c.use_prev_instr in
      let use_prev_instr : Bool = elim o.signal_frame [
        | none ↦ c.use_prev_instr
        | some mark ↦ not mark
      ] in
      parsed_answer space (record c { use_prev_instr = use_prev_instr }) o.state

  unfoldable pub answer_state : Space → Finder → Option ℕ → Result Located
  answer_state space c (some index) = found_state space c index
  answer_state space c none = parse_state (interlude space) c

  unfoldable pub find_reg_state : Space → Finder → Result Located
  find_reg_state space c = do
    (opened, cache) ← get_rs_cache defaults memory space
    if cache
        then (do
          found ← rs_lookup opened.global_cache.table c.ip (positive_short c.hint) fuel
          answer_state opened c found)
        else parse_state (interlude opened) c
