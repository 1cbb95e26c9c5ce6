-- ===== src/Pool/Kept.antt =====
-- The objects of a pool are apart, and a free one is handed out once.
use libunwind.Prelude.{
  ℕ, zero, suc, ◌+◌, ◌-◌, ◌≤◌, ◌<◌, ◌≡◌, refl, arith, true, ltb, leb, leb→le, ==_iff, Bool-cases,
  ◌⊎◌, inl, inr, List, [], ◌∷◌, ◌++◌, length, Option, none, some,
}
use mathlib.Core.List.{append_assoc}
use native.Mathlib.Nat.{lt-div-mul-add}
use libunwind.Result.{ok, stop, aborted}
use libunwind.Pool.{
  World, max_align, sos_memory_size, align, free_object, add_objects, add_memory, sos_alloc,
  expand_sos, expand_page, expand, take_object, mempool_alloc, mempool_free,
}
use libunwind.Pool.Objects.{
  OffAll, Clear, IsPool, Free-frame, OffAll-append, AllApart-to_front, AllApart-from_front,
  Clear-to_front, Clear-from_front, OffRegion, OffRegion-OffAll, OffRegion-later,
}

free_object-IsPool :
    (sos obj : ℕ) (w : World) (xs used : List ℕ)
    → IsPool sos w xs used
    → OffAll w.pool.obj_size obj (xs ++ used)
    → (obj + w.pool.obj_size ≤ sos + w.freepos) ⊎ (sos + sos_memory_size ≤ obj)
    → IsPool sos (free_object w obj) (obj ∷ xs) used
unfolding free_object
free_object-IsPool sos obj w xs used p off clear = record {
  size_pos = p.size_pos;
  free = (
    refl,
    rw ((==_iff obj obj).1 refl) (
        Free-frame w.cells w.pool.obj_size obj w.pool.free_list w.pool.free_list xs p.size_pos
          (OffAll-append w.pool.obj_size obj xs used off).0 p.free),
  );
  count = omega (arith, p.count);
  apart = (off, p.apart);
  clear = (clear, p.clear);
}

-- What an expansion leaves as it was.
abbrev pub SameShape : World → World → Type 0
SameShape r w =
    (r.pool.obj_size ≡ w.pool.obj_size)
    × (r.pool.chunk_size ≡ w.pool.chunk_size)
    × (r.pool.reserve ≡ w.pool.reserve)

-- The pool has free objects, some at least, and the same have been handed out.
abbrev pub Grown : (sos : ℕ) → World → List ℕ → World → Type 0
Grown sos w used r = (xs : List ℕ) × IsPool sos r xs used × SameShape r w × (0 < length xs)

module _ (sos : ℕ) (used : List ℕ) where
  add_objects-Grown :
      (limit fuel obj : ℕ) (w : World) (xs : List ℕ)
      → IsPool sos w xs used
      → obj ≤ limit + w.pool.obj_size
      → limit + w.pool.obj_size < obj + fuel
      → OffRegion w.pool.obj_size obj (limit + w.pool.obj_size) (xs ++ used)
      → (limit + w.pool.obj_size ≤ sos + w.freepos) ⊎ (sos + sos_memory_size ≤ obj)
      → (0 < length xs) ⊎ (obj ≤ limit)
      → (r : World) × (add_objects w.pool.obj_size limit fuel obj w ≡ ok r) × Grown sos w used r
  unfolding add_objects free_object
  add_objects-Grown limit zero obj w xs p reached enough off clear reaches = absurd (omega arith)
  add_objects-Grown limit (suc fuel) obj w xs p reached enough off clear reaches =
      elim (Bool-cases (leb obj limit)) [
        | inl inside ↦
            let fits : obj ≤ limit = leb→le obj limit inside in
            let size : ℕ = w.pool.obj_size in
            let (r, runs, (ys, p', shape, nonempty')) =
              add_objects-Grown limit fuel (obj + size) (free_object w obj) (obj ∷ xs)
                (free_object-IsPool sos obj w xs used p
                  (OffRegion-OffAll size obj (limit + size) (xs ++ used) (omega arith) off)
                  (in_region clear fits))
                (omega arith) (omega (arith, p.size_pos))
                (
                  inl (omega arith),
                  OffRegion-later size obj (obj + size) (limit + size) (xs ++ used) (omega arith)
                      off,
                )
                (later clear) (inl (omega arith)) in
            (r, rw inside runs, (ys, p', shape, nonempty'))
        | inr outside ↦ (w, rw outside, (xs, p, (refl, refl, refl), ground arith))
      ]
    where
      in_region :
          (limit + w.pool.obj_size ≤ sos + w.freepos) ⊎ (sos + sos_memory_size ≤ obj)
          → obj ≤ limit
          → (obj + w.pool.obj_size ≤ sos + w.freepos) ⊎ (sos + sos_memory_size ≤ obj)
      in_region (inl h) fits = inl (omega arith)
      in_region (inr h) fits = inr h

      later :
          (limit + w.pool.obj_size ≤ sos + w.freepos) ⊎ (sos + sos_memory_size ≤ obj)
          → (limit + w.pool.obj_size ≤ sos + w.freepos)
            ⊎ (sos + sos_memory_size ≤ obj + w.pool.obj_size)
      later (inl h) = inl h
      later (inr h) = inr (omega arith)

  add_memory-Grown :
      (mem size : ℕ) (w : World) (xs : List ℕ)
      → IsPool sos w xs used
      → w.pool.obj_size ≤ size
      → OffRegion w.pool.obj_size mem (mem + size) (xs ++ used)
      → (mem + size ≤ sos + w.freepos) ⊎ (sos + sos_memory_size ≤ mem)
      → (r : World) × (add_memory w mem size w.pool.obj_size ≡ ok r) × Grown sos w used r
  unfolding add_memory
  add_memory-Grown mem size w xs p fits off clear =
      let limit : ℕ = mem + size - w.pool.obj_size in
      let e : limit + w.pool.obj_size ≡ mem + size = omega arith in
      add_objects-Grown limit (size + 1) mem w xs p (omega arith) (omega arith) (rw e off)
        (rw e clear) (inr (omega arith))

-- A region of memory that the system gives: off all objects, and off the emergency memory.
abbrev pub IsFresh : (sos : ℕ) → World → List ℕ → (size : ℕ) → Option ℕ → Type 0
IsFresh sos w objects size none = Unit
IsFresh sos w objects size (some mem) =
    OffRegion w.pool.obj_size mem (mem + size) objects
    × ((mem + size ≤ sos) ⊎ (sos + sos_memory_size ≤ mem))

-- The emergency memory has no room for another object.
abbrev pub IsExhausted : World → Type 0
IsExhausted w = sos_memory_size < w.freepos + align w.pool.obj_size max_align

le-align : (x a : ℕ) → 0 < a → x ≤ align x a
le-align x a h = omega (arith, lt-div-mul-add {a = x + a - 1} h)

module _ (sos page_size : ℕ) (used : List ℕ) (w : World) (xs : List ℕ) (p : IsPool sos w xs used)
    (chunk_fits : w.pool.obj_size ≤ w.pool.chunk_size) (page_pos : 0 < page_size) where
  expand_sos-Grown :
      ((r : World) × (expand_sos sos page_size w ≡ ok r) × Grown sos w used r)
      ⊎ ((expand_sos sos page_size w ≡ stop aborted) × IsExhausted w)
  unfolding expand_sos sos_alloc
  expand_sos-Grown =
      let size : ℕ = w.pool.obj_size in
      let aligned : ℕ = align size max_align in
      elim (Bool-cases (leb (w.freepos + aligned) sos_memory_size)) [
        | inl room ↦
            let fits : w.freepos + aligned ≤ sos_memory_size = leb→le _ _ room in
            let taken : World = record w { freepos = w.freepos + aligned } in
            let (r, runs, grown) =
              add_memory-Grown sos used (sos + w.freepos) size taken xs
                (record {
                  size_pos = p.size_pos;
                  free = p.free;
                  count = p.count;
                  apart = p.apart;
                  clear = clear_more (xs ++ used) p.clear;
                })
                (omega arith) (off (xs ++ used) fits p.clear) (inl (omega arith)) in
            inl (r, rw room runs, grown)
        | inr full ↦ inr (rw full, ground arith)
      ]
    where
      clear_more :
          (ys : List ℕ)
          → Clear sos w.freepos w.pool.obj_size ys
          → Clear sos (w.freepos + align w.pool.obj_size max_align) w.pool.obj_size ys
      clear_more [] h = tt
      clear_more (y ∷ ys) (inl below, rest) = (inl (omega arith), clear_more ys rest)
      clear_more (y ∷ ys) (inr above, rest) = (inr above, clear_more ys rest)

      off :
          (ys : List ℕ)
          → w.freepos + align w.pool.obj_size max_align ≤ sos_memory_size
          → Clear sos w.freepos w.pool.obj_size ys
          → OffRegion w.pool.obj_size (sos + w.freepos) (sos + w.freepos + w.pool.obj_size) ys
      off [] fits h = tt
      off (y ∷ ys) fits (inl below, rest) = (inl below, off ys fits rest)
      off (y ∷ ys) fits (inr above, rest) = (inr (omega arith), off ys fits rest)

  -- An expansion gives the pool free objects, unless neither the system nor the emergency memory has
  -- any for it.
  expand-Grown :
      (chunk page : Option ℕ)
      → IsFresh sos w (xs ++ used) w.pool.chunk_size chunk
      → IsFresh sos w (xs ++ used) (align w.pool.obj_size page_size) page
      → ((r : World) × (expand sos page_size w chunk page ≡ ok r) × Grown sos w used r)
        ⊎ ((expand sos page_size w chunk page ≡ stop aborted)
            × (chunk ≡ none)
            × (page ≡ none)
            × IsExhausted w)
  unfolding expand expand_page
  expand-Grown (some mem) page (off, clear) fresh = inl (
      add_memory-Grown sos used mem w.pool.chunk_size w xs p chunk_fits off
        (elim clear [ inl below ↦ inl (omega arith) | inr above ↦ inr above ]))
  expand-Grown none (some mem) fresh (off, clear) = inl (
      add_memory-Grown sos used mem (align w.pool.obj_size page_size) w xs p
        (le-align w.pool.obj_size page_size page_pos) off
        (elim clear [ inl below ↦ inl (omega arith) | inr above ↦ inr above ]))
  expand-Grown none none fresh fresh' = elim expand_sos-Grown [
    | inl grown ↦ inl grown
    | inr (aborts, full) ↦ inr (aborts, refl, refl, full)
  ]

take_object-IsPool :
    (sos : ℕ) (w : World) (xs used : List ℕ)
    → IsPool sos w xs used
    → 0 < length xs
    → (r : World) × (obj : ℕ) × (take_object w ≡ ok (r, obj))
      × ((ys : List ℕ) × IsPool sos r ys (obj ∷ used))
unfolding take_object
take_object-IsPool sos w [] used p nonempty = absurd (omega arith)
take_object-IsPool sos w (x ∷ xs) used p nonempty =
    let (first, rest) = p.free in
    let any : ltb 0 w.pool.num_free ≡ true = ground (arith, p.count) in
    let left : World = record w {
      pool = record (w.pool) {
        num_free = w.pool.num_free - 1;
        free_list = w.cells w.pool.free_list;
      };
    } in
    (
      left,
      w.pool.free_list,
      rw any,
      (
        xs,
        record {
          size_pos = p.size_pos;
          free = rw first rest;
          count = omega (arith, p.count);
          apart = rw first (AllApart-from_front w.pool.obj_size x xs used p.apart);
          clear = rw first (Clear-from_front sos w.freepos w.pool.obj_size x xs used p.clear);
        },
      ),
    )

module _ (sos page_size : ℕ) (used : List ℕ) (w : World) (xs : List ℕ) (p : IsPool sos w xs used)
    (chunk_fits : w.pool.obj_size ≤ w.pool.chunk_size) (page_pos : 0 < page_size) where
  -- In a pool of which no two objects overlap, and where what the system gives lies off them and off
  -- the emergency memory: `mempool_alloc` hands out an object that was free, and no two objects,
  -- free or handed out, overlap in the pool that it leaves; or it aborts, and then there were no more
  -- free objects than the reserve, the system gave nothing, and the emergency memory had no room.
  pub mempool_alloc-IsPool :
      (chunk page : Option ℕ)
      → IsFresh sos w (xs ++ used) w.pool.chunk_size chunk
      → IsFresh sos w (xs ++ used) (align w.pool.obj_size page_size) page
      → ((r : World) × (obj : ℕ) × (mempool_alloc sos page_size w chunk page ≡ ok (r, obj))
          × ((ys : List ℕ) × IsPool sos r ys (obj ∷ used)))
        ⊎ ((mempool_alloc sos page_size w chunk page ≡ stop aborted)
            × (w.pool.num_free ≤ w.pool.reserve)
            × (chunk ≡ none)
            × (page ≡ none)
            × IsExhausted w)
  unfolding mempool_alloc
  mempool_alloc-IsPool chunk page fresh fresh' =
      elim (Bool-cases (leb w.pool.num_free w.pool.reserve)) [
        | inl few ↦
            elim (expand-Grown sos page_size used w xs p chunk_fits page_pos chunk page fresh
              fresh') [
                | inl (e, expands, (zs, q, shape, nonempty)) ↦
                    let (r, obj, takes, kept) = take_object-IsPool sos e zs used q nonempty in
                    inl (r, obj, rw (few, expands) takes, kept)
                | inr (aborts, no_chunk, no_page, full) ↦
                    inr (rw (few, aborts), leb→le _ _ few, no_chunk, no_page, full)
              ]
        | inr enough ↦
            let nonempty : 0 < length xs = ground (arith, p.count) in
            let (r, obj, takes, kept) = take_object-IsPool sos w xs used p nonempty in
            inl (r, obj, rw enough takes, kept)
      ]

-- Giving back an object that was handed out makes it free again, and no two objects overlap.
pub mempool_free-IsPool :
    (sos obj : ℕ) (w : World) (xs before after : List ℕ)
    → IsPool sos w xs (before ++ obj ∷ after)
    → IsPool sos (mempool_free w obj) (obj ∷ xs) (before ++ after)
unfolding mempool_free
mempool_free-IsPool sos obj w xs before after p =
    let size : ℕ = w.pool.obj_size in
    let (off, apart) =
      AllApart-to_front size obj (xs ++ before) after
        (rw (append_assoc xs before (obj ∷ after)) p.apart) in
    let (clear_obj, clear) =
      Clear-to_front sos w.freepos size obj (xs ++ before) after
        (rw (append_assoc xs before (obj ∷ after)) p.clear) in
    let e : ((xs ++ before) ++ after) ≡ (xs ++ (before ++ after)) = append_assoc xs before after in
    free_object-IsPool sos obj w xs (before ++ after)
      (record {
        size_pos = p.size_pos;
        free = p.free;
        count = p.count;
        apart = rw (← e) apart;
        clear = rw (← e) clear;
      })
      (rw (← e) off) clear_obj
