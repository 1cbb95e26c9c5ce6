-- ===== src/Tests/Pool.antt =====
-- A pool of objects of 32 bytes, with the emergency memory at 0x10000 and pages of 4096 bytes.
use libunwind.Prelude.{ℕ, ◌≤◌, ◌≡◌, refl, arith, inl, ◌⊎◌, List, [], ◌∷◌, Option, none, some}
use libunwind.Result.{Result, ok, stop, aborted, ◌>>=◌}
use libunwind.Pool.{
  World, free_object, add_objects, add_memory, sos_alloc, expand_sos, expand_page, expand,
  mempool_init, take_object, mempool_alloc, mempool_free,
}
use libunwind.Pool.Objects.{IsPool}
use libunwind.Pool.Kept.{IsExhausted, mempool_alloc-IsPool}

-- One free object, at 0x1000, and the reserve is one object.
abbrev world : (freepos : ℕ) → World
world freepos = record {
  pool = record { obj_size = 32; chunk_size = 4096; reserve = 1; num_free = 1; free_list = 0x1000 };
  cells = λ a. 0;
  freepos = freepos;
}

world-IsPool : IsPool 0x10000 (world 0) (0x1000 ∷ []) (0x1020 ∷ [])
world-IsPool = record {
  size_pos = omega arith;
  free = (refl, tt);
  count = refl;
  apart = ((inl (omega arith), tt), (tt, tt));
  clear = (inl (omega arith), (inl (omega arith), tt));
}

mempool_alloc-IsPool_example :
    ((r : World) × (obj : ℕ) × (mempool_alloc 0x10000 4096 (world 0) none none ≡ ok (r, obj))
      × ((ys : List ℕ) × IsPool 0x10000 r ys (obj ∷ 0x1020 ∷ [])))
    ⊎ ((mempool_alloc 0x10000 4096 (world 0) none none ≡ stop aborted)
        × (1 ≤ 1)
        × (◌≡◌ {A = Option ℕ} none none)
        × (◌≡◌ {A = Option ℕ} none none)
        × IsExhausted (world 0))
mempool_alloc-IsPool_example =
    mempool_alloc-IsPool 0x10000 4096 (0x1020 ∷ []) (world 0) (0x1000 ∷ []) world-IsPool
      (omega arith) (omega arith) none none tt tt

-- The address of the object that is handed out.
abbrev object : Result (World × ℕ) → Result ℕ
object m = m >>= (λ r. ok r.1)

-- The system gives no memory: the object comes from the emergency memory, though one is free.
emergency : object (mempool_alloc 0x10000 4096 (world 0) none none) ≡ ok 0x10000
unfolding mempool_alloc expand expand_page expand_sos sos_alloc add_memory add_objects free_object
    take_object
emergency = refl

-- With the emergency memory used up the call aborts, though one object is free.
reserve_lost : mempool_alloc 0x10000 4096 (world 16384) none none ≡ stop aborted
unfolding mempool_alloc expand expand_page expand_sos sos_alloc
reserve_lost = refl

-- A pool of one page: the last object of the chunk is handed out first.
initial :
    object (
      mempool_init 0x10000 4096 (world 0) 20 32 (some 0x20000) none
      >>= (λ w. mempool_alloc 0x10000 4096 w none none))
    ≡ ok 0x20fe0
unfolding mempool_init mempool_alloc expand expand_page expand_sos sos_alloc add_memory add_objects
    free_object take_object
initial = refl

-- What is given back is handed out next.
again : object (take_object (mempool_free (world 0) 0x1020)) ≡ ok 0x1020
unfolding mempool_free free_object take_object
again = refl
