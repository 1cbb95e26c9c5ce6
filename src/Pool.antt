-- ===== src/Pool.antt =====
-- src/mi/mempool.c: pools of objects of one size, and the emergency memory behind them. The lock of a
-- pool makes each operation one step.
pub mod Objects
pub mod Kept
use libunwind.Prelude.{
  ℕ, zero, suc, ◌+◌, ◌-◌, ◌*◌, ◌/◌, Bool, true, false, ltb, leb, ◌==◌, if◌then◌else◌, Option, none,
  some,
}
use libunwind.Result.{Result, ok, stop, aborted, out_of_fuel, ◌>>=◌}

-- `struct mempool`; a pointer is an address, and 0 is NULL.
pub record Mempool : Type 0 where
  pub obj_size : ℕ
  pub chunk_size : ℕ
  pub reserve : ℕ
  pub num_free : ℕ
  pub free_list : ℕ

-- A pool with the words `next` of the objects in memory and `sos_memory_freepos`.
pub record World : Type 0 where
  pub pool : Mempool
  pub cells : ℕ → ℕ
  pub freepos : ℕ

abbrev pub max_align : ℕ
max_align = 16

abbrev pub sos_memory_size : ℕ
sos_memory_size = 16384

-- UNW_ALIGN for a power of two.
abbrev pub align : ℕ → ℕ → ℕ
align x a = (x + a - 1) / a * a

unfoldable pub free_object : World → (obj : ℕ) → World
free_object w obj = record {
  pool = record (w.pool) { free_list = obj; num_free = w.pool.num_free + 1 };
  cells = λ a. if obj == a then w.pool.free_list else w.cells a;
  freepos = w.freepos;
}

-- The loop of `add_memory`, up to the last address `limit` at which an object fits.
unfoldable pub add_objects : (obj_size limit fuel obj : ℕ) → World → Result World
add_objects obj_size limit zero obj w = stop out_of_fuel
add_objects obj_size limit (suc fuel) obj w =
    let more = add_objects obj_size limit fuel (obj + obj_size) (free_object w obj) in
    if leb obj limit then more else ok w

unfoldable pub add_memory : World → (mem size obj_size : ℕ) → Result World
add_memory w mem size obj_size = add_objects obj_size (mem + size - obj_size) (size + 1) mem w

-- The first free object.
unfoldable pub take_object : World → Result (World × ℕ)
take_object w =
    if ltb 0 w.pool.num_free
    then ok (
      record w {
        pool = record (w.pool) {
          num_free = w.pool.num_free - 1;
          free_list = w.cells w.pool.free_list;
        };
      },
      w.pool.free_list,
    )
    else stop aborted

-- `sos_memory` is the address of the array.
module _ (sos_memory unw_page_size : ℕ) where
  unfoldable pub sos_alloc : World → (size : ℕ) → Result (World × ℕ)
  sos_alloc w size =
      let aligned : ℕ = align size max_align in
      if leb (w.freepos + aligned) sos_memory_size
      then ok (record w { freepos = w.freepos + aligned }, sos_memory + w.freepos)
      else stop aborted

  unfoldable pub expand_sos : World → Result World
  expand_sos w = do
    (taken, mem) ← sos_alloc w w.pool.obj_size
    add_memory taken mem w.pool.obj_size w.pool.obj_size

  unfoldable pub expand_page : World → (page : Option ℕ) → Result World
  expand_page w (some mem) = add_memory w mem (align w.pool.obj_size unw_page_size) w.pool.obj_size
  expand_page w none = expand_sos w

  -- What GET_MEMORY gives is passed in: for the chunk, and where that fails for the pages of one object.
  unfoldable pub expand : World → (chunk page : Option ℕ) → Result World
  expand w (some mem) page = add_memory w mem w.pool.chunk_size w.pool.obj_size
  expand w none page = expand_page w page

  unfoldable pub mempool_init :
      World → (obj_size reserve : ℕ) → (chunk page : Option ℕ) → Result World
  mempool_init w obj_size reserve chunk page =
      let size : ℕ = align obj_size max_align in
      let share : ℕ = unw_page_size / size / 4 in
      let kept : ℕ = if reserve == 0 then (if share == 0 then 16 else share) else reserve in
      expand
        (record w {
          pool = record {
            obj_size = size;
            chunk_size = align (2 * kept * size) unw_page_size;
            reserve = kept;
            num_free = 0;
            free_list = 0;
          };
        })
        chunk page

  unfoldable pub mempool_alloc : World → (chunk page : Option ℕ) → Result (World × ℕ)
  mempool_alloc w chunk page = do
    expanded ← (if leb w.pool.num_free w.pool.reserve then expand w chunk page else ok w)
    take_object expanded

unfoldable pub mempool_free : World → (object : ℕ) → World
mempool_free w object = free_object w object
