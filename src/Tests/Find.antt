-- ===== src/Tests/Find.antt =====
-- `find_reg_state` on a cache of two entries, and the invariant of an empty one.
use libunwind.Prelude.{
  ℕ, zero, suc, ◌≡◌, refl, arith, Bool, true, false, [], ◌∷◌, replicate, some, Option,
}
use libunwind.Result.{Result, ok, stop, out_of_fuel, Gives, ◌>>=◌}
use libunwind.Dwarf.Cfi.State.{RegState}
use libunwind.Dwarf.Cache.{
  Link, RsCache, hash_index, lookup_chain, lookup_hash, rs_lookup, read_place, write_place,
  remove_head, enter, rs_new,
}
use libunwind.Dwarf.Cache.Kept.{AllEnd, IsWf}
use libunwind.Dwarf.Cache.Ends.{rs_lookup_ends}
use libunwind.Dwarf.Cache.Looping.{rs_new_zero_loops}
use libunwind.Dwarf.Find.{
  Arrays, Memory, failed, Cached, Space, get_rs_cache, Finder, Outcome, Located, leave_hint,
  found_state, parsed_state, parsed_answer, parse_state, store_state, store_answer, answer_state,
  find_reg_state, no_index,
}
use libunwind.Dwarf.Find.Faithful.{IsFaithful}
use libunwind.Dwarf.Find.Parsed.{IsFound, find_reg_state-IsFound}

abbrev blank : Link
blank = record { ip = 0; coll_chain = no_index; valid = false; signal_frame = false }

abbrev empty : RsCache
empty = record {
  rr_head = 0;
  log_size = 1;
  hash = replicate 4 no_index;
  links = blank ∷ blank ∷ [];
}

empty-AllEnd : AllEnd empty
empty-AllEnd zero first at = ([], ground arith)
empty-AllEnd (suc zero) first at = ([], ground arith)
empty-AllEnd (suc (suc zero)) first at = ([], ground arith)
empty-AllEnd (suc (suc (suc zero))) first at = ([], ground arith)
empty-AllEnd (suc (suc (suc (suc slot)))) first at = cc

empty-IsWf : IsWf empty
empty-IsWf = (
  record {
    log_bound = omega arith;
    links_length = refl;
    hash_length = refl;
    head_inside = omega arith;
  },
  empty-AllEnd,
)

rs_lookup_ends_example : (o : Option ℕ) × (rs_lookup empty 0x400 2 3 ≡ ok o)
rs_lookup_ends_example = rs_lookup_ends empty 0x400 2 3 empty-IsWf (omega arith) (omega arith)

-- An entry for address 0, first in the chain of the slot 0, to which 2 and 5 hash as well.
abbrev zero_entry : RsCache
zero_entry = record empty {
  hash = 0 ∷ no_index ∷ no_index ∷ no_index ∷ [];
  links = record blank { valid = true } ∷ blank ∷ [];
}

rs_new_zero_loops_example :
    (r : RsCache) × (rs_new zero_entry 2 3 false ≡ ok (r, 0))
    × ((rounds : ℕ) → rs_lookup r 5 0 rounds ≡ stop out_of_fuel)
unfolding hash_index
rs_new_zero_loops_example =
    rs_new_zero_loops zero_entry 2 5 3 false (record blank { valid = true }) (omega arith) refl refl
      refl refl (ground arith)

abbrev state : ℕ → RegState
state n = record { ret_addr_column = n; columns = [] }

-- Parsing at an address gives a state that tells the address.
abbrev parse : ℕ → Bool → Outcome
parse ip use_prev_instr = record { signal_frame = some false; state = ok (state ip) }

abbrev cached : Cached
cached = record {
  table = record {
    rr_head = 1;
    log_size = 1;
    hash = no_index ∷ no_index ∷ no_index ∷ 1 ∷ [];
    links =
        blank
        ∷ record { ip = 0x400; coll_chain = no_index; valid = true; signal_frame = false }
        ∷ [];
  };
  buckets = state 0 ∷ state 0x400 ∷ [];
  hints = 0 ∷ 0 ∷ [];
  generation = 5;
  hash_null = false;
}

abbrev arrays : (links hashes : ℕ) → Arrays
arrays links hashes = record {
  hash_array = replicate hashes 0;
  link_array = replicate links blank;
  bucket_array = replicate links (state 0);
  hint_array = replicate links 0;
}

abbrev memory : ℕ → Memory
memory n = failed true

abbrev space : Space
space = record { caching = true; cache_generation = 5; global_cache = cached }

abbrev finder : ℕ → Finder
finder ip = record { ip = ip; hint = 0; prev_rs = 0; use_prev_instr = true }

abbrev answers : Result Located → Result RegState
answers m = m >>= (λ f. f.answer)

-- A hit, a miss, and a miss after a flush.
hit :
    answers (find_reg_state parse false (λ s. s) (arrays 128 256) memory 3 space (finder 0x400))
    ≡ ok (state 0x400)
unfolding find_reg_state get_rs_cache rs_lookup lookup_hash lookup_chain hash_index answer_state
    found_state leave_hint
hit = refl

miss :
    answers (find_reg_state parse false (λ s. s) (arrays 128 256) memory 3 space (finder 0x500))
    ≡ ok (state 0x500)
unfolding find_reg_state get_rs_cache rs_lookup lookup_hash lookup_chain hash_index answer_state
    parse_state parsed_answer parsed_state store_state store_answer rs_new remove_head read_place
    write_place enter leave_hint
miss = refl

cached-IsFaithful : IsFaithful parse cached
cached-IsFaithful zero l at valid = ground arith
cached-IsFaithful (suc zero) l at valid = (state 0x400, refl, (true, ground arith))
cached-IsFaithful (suc (suc y)) l at valid = cc

find_reg_state-IsFound_example :
    Gives
      (IsFound parse 0x500)
      (find_reg_state parse false (λ s. s) (arrays 128 256) memory 3 space (finder 0x500))
find_reg_state-IsFound_example =
    find_reg_state-IsFound parse false (λ s. s) (arrays 128 256) memory 3 (λ s f. f) refl (λ n. tt)
      space (finder 0x500) cached-IsFaithful
