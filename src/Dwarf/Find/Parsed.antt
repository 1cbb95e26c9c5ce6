-- ===== src/Dwarf/Find/Parsed.antt =====
-- The cache answers with what parsing gives.
use libunwind.Prelude.{
  ℕ, ◌<◌, ◌≡◌, refl, sym, ◌∙◌, arith, Bool, true, not, inl, inr, List, length, set, Option, none,
  some,
}
use libunwind.Result.{
  Result, ok, err, stop, Gives, Gives-bind, Gives-bind_any, Gives-bind_eq, Gives-if,
}
use libunwind.Dwarf.Cfi.State.{RegState}
use libunwind.Dwarf.Frame.{at_index}
use libunwind.Dwarf.Cache.{Link, RsCache, cache_size, is_match, rs_lookup, rs_new, write_at}
use libunwind.Dwarf.Cache.Entered.{AnswersFor, rs_lookup-AnswersFor}
use libunwind.Dwarf.Cache.Entries.{write_at-is, NewOrOld, rs_new-NewOrOld}
use libunwind.Dwarf.Cache.Removed.{at_index-set_self, at_index-set_ne}
use libunwind.Dwarf.Find.{
  Arrays, Memory, Cached, default_log_size, Space, get_rs_cache, Finder, positive_short, Outcome,
  Located, leave_hint, store_answer, store_state, found_state, parsed_state, parsed_answer,
  parse_state, answer_state, find_reg_state,
}
use libunwind.Dwarf.Find.Faithful.{
  IsParse, IsFaithful, HasLinks, get_rs_cache-IsFaithful, leave_hint-IsFaithful,
}

module _ (parse : (ip : ℕ) → (use_prev_instr : Bool) → Outcome) where
  -- The cache stays faithful, and a state that is found is the one that parsing gives.
  abbrev pub IsFound : (ip : ℕ) → Located → Type 0
  IsFound ip f = IsFaithful parse f.space.global_cache × Gives (IsParse parse ip) f.answer

  -- An entry for this address has a state that parsing gives.
  matched :
      (c : Cached) (ip index : ℕ) (l : Link) (rs : RegState)
      → IsFaithful parse c
      → at_index c.table.links index ≡ ok l
      → is_match l ip ≡ true
      → at_index c.buckets index ≡ ok rs
      → IsParse parse ip rs
  matched c ip index l rs faithful at_l matches at_rs =
      let valid : l.valid ≡ true = ground arith in
      let same : ip ≡ l.ip = ground arith in
      let (kept, at_kept, (b, parsed)) = faithful index l at_l valid in
      let equal : ok kept ≡ ok rs = sym at_kept ∙ at_rs in
      let kept_is : kept ≡ rs = cc in (b, rw (same, ← kept_is) parsed)

  found_state-IsFound :
      (space : Space) (c : Finder) (index : ℕ)
      → IsFaithful parse space.global_cache
      → AnswersFor space.global_cache.table c.ip (some index)
      → Gives (IsFound c.ip) (found_state space c index)
  unfolding found_state
  found_state-IsFound space c index faithful (l, at_l, matches) =
      let cache = space.global_cache in
      Gives-bind_eq (IsFound c.ip) (at_index cache.buckets index) _ (λ rs at_rs.
        Gives-bind_any (IsFound c.ip) (at_index cache.table.links index) _ (λ k.
          Gives-bind (λ r. IsFaithful parse r.0.global_cache) (IsFound c.ip)
            (leave_hint space (record c { use_prev_instr = not k.signal_frame }) index) _
            (leave_hint-IsFaithful parse space (record c { use_prev_instr = not k.signal_frame })
              index faithful)
            (λ r f. (f, matched cache c.ip index l rs faithful at_l matches at_rs))))

  abbrev Stored : ℕ → (Space × ℕ × RegState) → Type 0
  Stored ip r = IsFaithful parse r.0.global_cache × IsParse parse ip r.2

  -- The new entry has the state that was parsed, and the others have theirs.
  entered :
      (c : Cached) (ip : ℕ) (rs : RegState) (r : RsCache × ℕ) (buckets : List RegState)
      (hints : List ℕ)
      → IsFaithful parse c
      → IsParse parse ip rs
      → NewOrOld ip c.table r
      → r.1 < length c.buckets
      → buckets ≡ set c.buckets r.1 rs
      → IsFaithful parse (record c { table = r.0; hints = hints; buckets = buckets })
  entered c ip rs (table, index) buckets hints faithful (b, parsed) new inside is y l at valid =
      elim (new y l at valid) [
        | inl (same, for_ip) ↦
            (rs, rw (is, same) (at_index-set_self c.buckets index rs inside), (b, rw for_ip parsed))
        | inr (other, (k, at_k, ip_k, valid_k)) ↦
            let (kept, at_kept, (b', parsed')) = faithful y k at_k valid_k in
            (
              kept,
              rw is (at_index-set_ne c.buckets index y rs other ∙ at_kept),
              (b', rw (← ip_k) parsed'),
            )
      ]

  store_answer-Stored :
      (space : Space) (c : Finder) (fuel : ℕ) (cache_frame : Bool) (rs : RegState) (o : Option ℕ)
      → IsFaithful parse space.global_cache
      → IsParse parse c.ip rs
      → AnswersFor space.global_cache.table c.ip o
      → Gives (Stored c.ip) (store_answer space c fuel cache_frame rs o)
  unfolding store_answer
  store_answer-Stored space c fuel cache_frame rs (some index) faithful parsed (l, at_l, matches) =
      let cache = space.global_cache in
      Gives-bind_eq (Stored c.ip) (at_index cache.buckets index) _
        (λ kept at_kept. (faithful, matched cache c.ip index l kept faithful at_l matches at_kept))
  store_answer-Stored space c fuel cache_frame rs none faithful parsed h =
      let cache = space.global_cache in
      Gives-bind (NewOrOld c.ip cache.table) (Stored c.ip)
        (rs_new cache.table c.ip fuel cache_frame) _
        (rs_new-NewOrOld cache.table c.ip fuel cache_frame)
        (λ r new. Gives-bind_any (Stored c.ip) (write_at cache.hints r.1 0) _ (λ hints.
          Gives-bind _ (Stored c.ip) (write_at cache.buckets r.1 rs) _
            (write_at-is cache.buckets r.1 rs)
            (λ buckets (inside, is).
              (entered cache c.ip rs r buckets hints faithful parsed new inside is, parsed))))

  store_state-Stored :
      (space : Space) (c : Finder) (fuel : ℕ) (cache_frame : Bool) (rs : RegState)
      → IsFaithful parse space.global_cache
      → IsParse parse c.ip rs
      → Gives (Stored c.ip) (store_state space c fuel cache_frame rs)
  unfolding store_state
  store_state-Stored space c fuel cache_frame rs faithful parsed =
      let table = space.global_cache.table in
      Gives-bind (AnswersFor table c.ip) (Stored c.ip)
        (rs_lookup table c.ip (positive_short c.hint) fuel) _
        (rs_lookup-AnswersFor table c.ip (positive_short c.hint) fuel)
        (λ o h. store_answer-Stored space c fuel cache_frame rs o faithful parsed h)

  module _ (cache_frame : Bool) (interlude : Space → Space) (defaults : Arrays)
      (memory : ℕ → Memory) (fuel : ℕ)
      (interlude_keeps : (s : Space)
        → IsFaithful parse s.global_cache
        → IsFaithful parse (interlude s).global_cache)
      (defaults_fit : length defaults.link_array ≡ cache_size default_log_size)
      (memory_fits : (n : ℕ) → HasLinks n (memory n)) where
    parsed_state-IsFound :
        (space : Space) (c : Finder) (rs : RegState)
        → IsFaithful parse space.global_cache
        → IsParse parse c.ip rs
        → Gives
            (IsFound c.ip)
            (parsed_state parse cache_frame interlude defaults memory fuel space c rs)
    unfolding parsed_state
    parsed_state-IsFound space c rs faithful parsed =
        Gives-bind (λ r. IsFaithful parse r.0.global_cache) (IsFound c.ip)
          (get_rs_cache defaults memory space) _
          (get_rs_cache-IsFaithful parse defaults memory defaults_fit memory_fits space faithful)
          (λ (opened, cache) f.
            Gives-if (IsFound c.ip) cache _ _
              (λ _.
                Gives-bind (Stored c.ip) (IsFound c.ip) (store_state opened c fuel cache_frame rs) _
                  (store_state-Stored opened c fuel cache_frame rs f parsed)
                  (λ (stored, index, kept) (f', parsed').
                    Gives-bind (λ r. IsFaithful parse r.0.global_cache) (IsFound c.ip)
                      (leave_hint stored c index) _ (leave_hint-IsFaithful parse stored c index f')
                      (λ r f''. (f'', parsed'))))
              (λ _. (f, parsed)))

    parse_state-IsFound :
        (space : Space) (c : Finder)
        → IsFaithful parse space.global_cache
        → Gives
            (IsFound c.ip)
            (parse_state parse cache_frame interlude defaults memory fuel space c)
    unfolding parse_state parsed_answer
    parse_state-IsFound space c faithful = by_outcome (parse c.ip c.use_prev_instr).state refl _
      where
        by_outcome :
            (m : Result RegState)
            → (parse c.ip c.use_prev_instr).state ≡ m
            → (u : Bool)
            → Gives (IsFound c.ip) (
                parsed_answer parse cache_frame interlude defaults memory fuel space
                  (record c { use_prev_instr = u })
                  m)
        by_outcome (ok rs) e u =
            parsed_state-IsFound space (record c { use_prev_instr = u }) rs faithful
              (c.use_prev_instr, e)
        by_outcome (err q) e u = (faithful, tt)
        by_outcome (stop q) e u = tt

    -- From a cache whose valid entries have the states that parsing at their addresses gives,
    -- whatever the cursor's hint is, and where what happens while the lock is released keeps the
    -- cache so: if `find_reg_state` answers with a state it is one that parsing at the cursor's
    -- address gives, for one of the two values of `use_prev_instr`, and the cache that it leaves has
    -- such entries again, after a flush as well.
    pub find_reg_state-IsFound :
        (space : Space) (c : Finder)
        → IsFaithful parse space.global_cache
        → Gives
            (IsFound c.ip)
            (find_reg_state parse cache_frame interlude defaults memory fuel space c)
    unfolding find_reg_state answer_state
    find_reg_state-IsFound space c faithful =
        Gives-bind (λ r. IsFaithful parse r.0.global_cache) (IsFound c.ip)
          (get_rs_cache defaults memory space) _
          (get_rs_cache-IsFaithful parse defaults memory defaults_fit memory_fits space faithful)
          (λ (opened, cache) f.
            Gives-if (IsFound c.ip) cache _ _
              (λ _.
                Gives-bind (AnswersFor opened.global_cache.table c.ip) (IsFound c.ip)
                  (rs_lookup opened.global_cache.table c.ip (positive_short c.hint) fuel) _
                  (rs_lookup-AnswersFor opened.global_cache.table c.ip (positive_short c.hint) fuel)
                  (λ o h. by_answer opened f o h))
              (λ _. parse_state-IsFound (interlude opened) c (interlude_keeps opened f)))
      where
        by_answer :
            (opened : Space)
            → IsFaithful parse opened.global_cache
            → (o : Option ℕ) → AnswersFor opened.global_cache.table c.ip o
            → Gives
                (IsFound c.ip)
                (answer_state parse cache_frame interlude defaults memory fuel opened c o)
        by_answer opened f (some index) h = found_state-IsFound opened c index f h
        by_answer opened f none h =
            parse_state-IsFound (interlude opened) c (interlude_keeps opened f)
