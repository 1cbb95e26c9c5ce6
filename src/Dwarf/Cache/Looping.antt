-- ===== src/Dwarf/Cache/Looping.antt =====
-- An entry for address 0 is not taken out of its chain when it is replaced, and may close the chain to
-- a loop.
use libunwind.Prelude.{
  ℕ, zero, suc, ◌+◌, ◌%◌, ◌<◌, ◌≡◌, ◌≢◌, refl, arith, Bool, true, false, lt→ltb, ◌==◌, length, set,
}
use libunwind.Result.{ok, stop, out_of_fuel}
use libunwind.Dwarf.Frame.{at_index}
use libunwind.Dwarf.Cache.{
  Link, RsCache, cache_size, hash_index, is_match, lookup_chain, lookup_hash, rs_lookup, enter,
  rs_new,
}
use libunwind.Dwarf.Cache.Removed.{lt-at_index, at_index-set_self, write_at-set}

-- An entry that is its own successor is never left.
lookup_chain-loops :
    (c : RsCache) (ip head fuel : ℕ) (l : Link)
    → head < cache_size c.log_size
    → at_index c.links head ≡ ok l
    → l.coll_chain ≡ head
    → is_match l ip ≡ false
    → lookup_chain c ip fuel head ≡ stop out_of_fuel
unfolding lookup_chain
lookup_chain-loops c ip head zero l inside at loop other = refl
lookup_chain-loops c ip head (suc fuel) l inside at loop other =
    rw (lt→ltb head (cache_size c.log_size) inside, at, other, loop)
      (lookup_chain-loops c ip head fuel l inside at loop other)

-- Where the entry to be replaced is for address 0 and stands first in the chain of the slot of `ip`,
-- `rs_new` makes it its own successor: a later lookup, without a hint, of any other address of the
-- slot does not end in any number of rounds.
pub rs_new_zero_loops :
    (c : RsCache) (ip other fuel : ℕ) (signal_frame : Bool) (old : Link)
    → c.rr_head < cache_size c.log_size
    → at_index c.links c.rr_head ≡ ok old
    → old.ip ≡ 0
    → at_index c.hash (hash_index ip c.log_size) ≡ ok c.rr_head
    → hash_index other c.log_size ≡ hash_index ip c.log_size
    → other ≢ ip
    → (r : RsCache) × (rs_new c ip fuel signal_frame ≡ ok (r, c.rr_head))
      × ((rounds : ℕ) → rs_lookup r other 0 rounds ≡ stop out_of_fuel)
unfolding rs_new enter rs_lookup lookup_hash
rs_new_zero_loops c ip other fuel signal_frame old inside at blank first collide differ =
    let head : ℕ = c.rr_head in
    let index : ℕ = hash_index ip c.log_size in
    let l : Link = record {
      ip = ip;
      coll_chain = head;
      valid = true;
      signal_frame = signal_frame;
    } in
    let link_inside : head < length c.links = lt-at_index c.links head old at in
    let slot_inside : index < length c.hash = lt-at_index c.hash index head first in
    let r : RsCache = record c {
      rr_head = (head + 1) % cache_size c.log_size;
      hash = set c.hash index head;
      links = set c.links head l;
    } in
    let none_left : (old.ip == 0) ≡ true = ground arith in
    (
      r,
      rw (
        at,
        none_left,
        first,
        write_at-set c.links head l link_inside,
        write_at-set c.hash index head slot_inside,
      ),
      λ rounds.
          rw (collide, at_index-set_self c.hash index head slot_inside)
            (lookup_chain-loops r other head rounds l inside
              (at_index-set_self c.links head l link_inside) refl (ground arith)),
    )
