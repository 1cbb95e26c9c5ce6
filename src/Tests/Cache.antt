-- ===== src/Tests/Cache.antt =====
-- A cache of two entries.
use libunwind.Prelude.{◌≡◌, refl, arith, true, false, [], ◌∷◌, none, some}
use libunwind.Result.{ok, Gives, ◌>>=◌}
use libunwind.Dwarf.Cache.{
  Link, RsCache, hash_index, lookup_chain, lookup_hash, rs_lookup, read_place, write_place,
  remove_head, enter, rs_new,
}
use libunwind.Dwarf.Cache.Renewed.{Renewed, rs_new-Renewed}

abbrev blank : Link
blank = record { ip = 0; coll_chain = 0; valid = false; signal_frame = false }

-- The second entry, for 0x400, is the only one and the next to be replaced.
abbrev cache : RsCache
cache = record {
  rr_head = 1;
  log_size = 1;
  hash = 0xffff ∷ 0xffff ∷ 0xffff ∷ 1 ∷ [];
  links =
      blank ∷ record { ip = 0x400; coll_chain = 0xffff; valid = true; signal_frame = false } ∷ [];
}

-- 0x400 hashes to the slot 3, where it is found, and its entry makes room for 0x500.
present : rs_lookup cache 0x400 0 3 ≡ ok (some 1)
unfolding hash_index rs_lookup lookup_hash lookup_chain
present = refl

replaced : (rs_new cache 0x500 3 false >>= (λ r. rs_lookup r.0 0x400 0 3)) ≡ ok none
unfolding rs_new remove_head read_place write_place enter hash_index rs_lookup lookup_hash
    lookup_chain
replaced = refl

rs_new-Renewed_example : Gives (Renewed cache 0x500) (rs_new cache 0x500 3 false)
rs_new-Renewed_example = rs_new-Renewed cache 0x500 3 false (omega arith)
