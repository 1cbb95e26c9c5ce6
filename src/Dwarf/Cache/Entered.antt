-- ===== src/Dwarf/Cache/Entered.antt =====
-- What is entered in the cache is found in it.
use libunwind.Prelude.{ℕ, zero, suc, ◌-◌, ◌≡◌, true, ltb, Option, none, some}
use libunwind.Result.{ok, Gives, Gives-bind_eq, Gives-if}
use libunwind.Dwarf.Frame.{at_index}
use libunwind.Dwarf.Cache.{
  Link, RsCache, cache_size, hash_index, is_match, lookup_chain, lookup_hash, rs_lookup,
}

-- An entry of the cache for this address.
abbrev pub IsEntry : RsCache → (ip index : ℕ) → Type 0
IsEntry cache ip index = (l : Link) × (at_index cache.links index ≡ ok l) × (is_match l ip ≡ true)

abbrev pub AnswersFor : RsCache → (ip : ℕ) → Option ℕ → Type 0
AnswersFor cache ip none = Unit
AnswersFor cache ip (some index) = IsEntry cache ip index

lookup_chain-AnswersFor :
    (cache : RsCache) (ip fuel index : ℕ)
    → Gives (AnswersFor cache ip) (lookup_chain cache ip fuel index)
unfolding lookup_chain
lookup_chain-AnswersFor cache ip zero index = tt
lookup_chain-AnswersFor cache ip (suc fuel) index =
    Gives-if (AnswersFor cache ip) (ltb index (cache_size cache.log_size)) _ _
      (λ inside. Gives-bind_eq (AnswersFor cache ip) (at_index cache.links index) _ (λ l at.
        Gives-if (AnswersFor cache ip) (is_match l ip) _ _ (λ matches. (l, at, matches))
          (λ _. lookup_chain-AnswersFor cache ip fuel l.coll_chain)))
      (λ _. tt)

-- Whatever the chains and the hint are, an entry that `rs_lookup` finds is valid and is for the address.
pub rs_lookup-AnswersFor :
    (cache : RsCache) (ip hint fuel : ℕ)
    → Gives (AnswersFor cache ip) (rs_lookup cache ip hint fuel)
unfolding rs_lookup lookup_hash
rs_lookup-AnswersFor cache ip hint fuel =
    Gives-if (AnswersFor cache ip) (ltb 0 hint) _ _
      (λ _. Gives-bind_eq (AnswersFor cache ip) (at_index cache.links (hint - 1)) _ (λ l at.
        Gives-if (AnswersFor cache ip) (is_match l ip) _ _ (λ matches. (l, at, matches))
          (λ _. by_hash)))
      (λ _. by_hash)
  where
    by_hash : Gives (AnswersFor cache ip) (lookup_hash cache ip fuel)
    by_hash =
        Gives-bind_eq (AnswersFor cache ip) (at_index cache.hash (hash_index ip cache.log_size)) _
          (λ index at. lookup_chain-AnswersFor cache ip fuel index)
