-- ===== src/Dwarf/Cache/Ends.antt =====
-- A lookup in a cache of which every chain ends.
use libunwind.Prelude.{
  ℕ, zero, suc, ◌-◌, ◌≤◌, ◌<◌, ◌≡◌, arith, true, false, ltb, lt→ltb, Bool-cases, inl, inr, List, [],
  ◌∷◌, length, Option, none, some,
}
use libunwind.Result.{ok}
use libunwind.Dwarf.Cache.{
  RsCache, cache_size, hash_index, is_match, lookup_chain, lookup_hash, rs_lookup,
}
use libunwind.Dwarf.Cache.Chains.{Chain, length-Chain}
use libunwind.Dwarf.Cache.Removed.{at_index-lt}
use libunwind.Dwarf.Cache.Kept.{IsWf, hash_index-lt}

lookup_chain_ends :
    (c : RsCache) (ip fuel slot i : ℕ) (xs : List ℕ)
    → length xs < fuel
    → Chain c.links c.log_size slot i xs
    → (o : Option ℕ) × (lookup_chain c ip fuel i ≡ ok o)
unfolding lookup_chain
lookup_chain_ends c ip zero slot i xs enough chain = absurd (omega arith)
lookup_chain_ends c ip (suc fuel) slot i [] enough chain =
    let outside : ltb i (cache_size c.log_size) ≡ false = ground arith in (none, rw outside)
lookup_chain_ends c ip (suc fuel) slot i (x ∷ xs) enough
      (at_x, inside, new, (l, at, here, live, rest)) =
    let below : ltb x (cache_size c.log_size) ≡ true = lt→ltb x _ inside in
    elim (Bool-cases (is_match l ip)) [
      | inl found ↦ (some i, rw (at_x, below, at, found))
      | inr other ↦
          let (o, ends) = lookup_chain_ends c ip fuel slot l.coll_chain xs (omega arith) rest in
          (o, rw (at_x, below, at, other) ends)
    ]

-- Where every chain ends, the hint names an entry of the table or none, and there is a round for each
-- entry, a lookup ends.
pub rs_lookup_ends :
    (c : RsCache) (ip hint fuel : ℕ)
    → IsWf c
    → hint ≤ cache_size c.log_size
    → cache_size c.log_size < fuel
    → (o : Option ℕ) × (rs_lookup c ip hint fuel ≡ ok o)
unfolding rs_lookup lookup_hash
rs_lookup_ends c ip hint fuel (z, all) hinted enough =
    let index : ℕ = hash_index ip c.log_size in
    let (first, here) =
      at_index-lt c.hash index
        (omega (arith, z.hash_length, hash_index-lt ip c.log_size z.log_bound)) in
    let (xs, chain) = all index first here in
    let (o, ends) =
      lookup_chain_ends c ip fuel index first xs
        (omega (arith, length-Chain c.links c.log_size index first xs chain)) chain in
    elim (Bool-cases (ltb 0 hint)) [
      | inl given ↦
          let (l, at) = at_index-lt c.links (hint - 1) (ground (arith, z.links_length)) in
          elim (Bool-cases (is_match l ip)) [
            | inl found ↦ (some (hint - 1), rw (given, at, found))
            | inr other ↦ (o, rw (given, at, other, here) ends)
          ]
      | inr no_hint ↦ (o, rw (no_hint, here) ends)
    ]
