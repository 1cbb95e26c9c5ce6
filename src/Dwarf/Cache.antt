-- ===== src/Dwarf/Cache.antt =====
-- src/dwarf/Gparser.c: the cache of register states, a hash table from instruction pointers with chains
-- of entries, of which the oldest is replaced.
pub mod Chains
pub mod Ends
pub mod Entries
pub mod Entered
pub mod Kept
pub mod Looping
pub mod Removed
pub mod Renewed
use libunwind.Prelude.{
  ℕ, zero, suc, ◌+◌, ◌-◌, ◌*◌, ◌/◌, ◌%◌, ◌^◌, Bool, true, false, ltb, ◌==◌, ◌&&◌, if◌then◌else◌,
  List, length, set, map, replicate, Option, none, some,
}
use libunwind.Prelude.Bits.{word_mod}
use libunwind.Result.{Result, ok, stop, out_of_bounds, out_of_fuel, ◌>>=◌}
use libunwind.Dwarf.Frame.{at_index}

-- `dwarf_reg_cache_entry_t`, without its hint.
pub record Link : Type 0 where
  pub ip : ℕ
  pub coll_chain : ℕ
  pub valid : Bool
  pub signal_frame : Bool

-- The fields of `struct dwarf_rs_cache` that the table is made of. A pointer into `buckets` is its index.
pub record RsCache : Type 0 where
  pub rr_head : ℕ
  pub log_size : ℕ
  pub hash : List ℕ
  pub links : List Link

abbrev pub cache_size : ℕ → ℕ
cache_size log_size = 2 ^ log_size

-- The result has the 8 bits of `unw_hash_index_t`.
unfoldable pub hash_index : (ip log_size : ℕ) → ℕ
hash_index ip log_size = ip * 0x9e3779b97f4a7c16 % word_mod / 2 ^ (64 - (log_size + 1)) % 256

abbrev pub is_match : Link → ℕ → Bool
is_match l ip = l.valid && (ip == l.ip)

-- The loop of `rs_lookup` along a chain.
unfoldable pub lookup_chain : RsCache → (ip fuel index : ℕ) → Result (Option ℕ)
lookup_chain cache ip zero index = stop out_of_fuel
lookup_chain cache ip (suc fuel) index =
    if ltb index (cache_size cache.log_size)
    then (do
      l ← at_index cache.links index
      if is_match l ip then ok (some index) else lookup_chain cache ip fuel l.coll_chain)
    else ok none

unfoldable pub lookup_hash : RsCache → (ip fuel : ℕ) → Result (Option ℕ)
lookup_hash cache ip fuel = do
  index ← at_index cache.hash (hash_index ip cache.log_size)
  lookup_chain cache ip fuel index

unfoldable pub rs_lookup : RsCache → (ip hint fuel : ℕ) → Result (Option ℕ)
rs_lookup cache ip hint fuel =
    if ltb 0 hint
    then (do
      l ← at_index cache.links (hint - 1)
      if is_match l ip then ok (some (hint - 1)) else lookup_hash cache ip fuel)
    else lookup_hash cache ip fuel

abbrev pub write_at {ℓ} : {A : Type ℓ} → List A → ℕ → A → Result (List A)
write_at xs i a = if ltb i (length xs) then ok (set xs i a) else stop out_of_bounds

-- What `pindex` points to: a slot of the hash table or the chain of an entry.
pub data Place : Type 0 where
  slot_place : ℕ → Place
  link_place : ℕ → Place

unfoldable pub read_place : RsCache → Place → Result ℕ
read_place cache (slot_place i) = at_index cache.hash i
read_place cache (link_place i) = do l ← at_index cache.links i; ok l.coll_chain

unfoldable pub write_place : RsCache → Place → ℕ → Result RsCache
write_place cache (slot_place i) v = do h ← write_at cache.hash i v; ok (record cache { hash = h })
write_place cache (link_place i) v = do
  l ← at_index cache.links i
  ls ← write_at cache.links i (record l { coll_chain = v })
  ok (record cache { links = ls })

-- The loop that takes `head` out of a chain.
unfoldable pub remove_head : (head fuel : ℕ) → Place → RsCache → Result RsCache
remove_head head zero place cache = stop out_of_fuel
remove_head head (suc fuel) place cache = do
  index ← read_place cache place
  if ltb index (cache_size cache.log_size)
      then if index == head
        then (do next ← read_place cache (link_place index); write_place cache place next)
        else remove_head head fuel (link_place index) cache
      else ok cache

-- The new entry goes to the front of its chain.
unfoldable pub enter : RsCache → (head ip : ℕ) → (signal_frame : Bool) → Result RsCache
enter cache head ip signal_frame = do
  let index = hash_index ip cache.log_size
  first ← at_index cache.hash index
  ls ←
      write_at cache.links head
        (record { ip = ip; coll_chain = first; valid = true; signal_frame = signal_frame })
  h ← write_at cache.hash index head
  ok (record cache { hash = h; links = ls })

-- `signal_frame` is what `tdep_cache_frame` tells.
unfoldable pub rs_new : RsCache → (ip fuel : ℕ) → (signal_frame : Bool) → Result (RsCache × ℕ)
rs_new cache ip fuel signal_frame = do
  let head = cache.rr_head
  old ← at_index cache.links head
  let moved : RsCache = record cache { rr_head = (head + 1) % cache_size cache.log_size }
  removed ←
      (if old.ip == 0
        then ok moved
        else remove_head head fuel (slot_place (hash_index old.ip cache.log_size)) moved)
  entered ← enter removed head ip signal_frame
  ok (entered, head)
