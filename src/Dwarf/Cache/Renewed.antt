-- ===== src/Dwarf/Cache/Renewed.antt =====
-- The entry that `rs_new` makes is the one that `rs_lookup` finds.
use libunwind.Prelude.{
  ℕ, zero, suc, ◌+◌, ◌%◌, ◌<◌, ◌≡◌, refl, ap, ◌∙◌, arith, Bool, true, ltb, ltb→lt, lt→ltb, ◌==◌,
  List, length, get_elem?-set_self, some,
}
use native.Mathlib.Nat.{mod-lt}
use libunwind.Prelude.Power.{pow_pos}
use libunwind.Result.{ok, Gives, Gives-bind, Gives-bind_any, Gives-if}
use libunwind.Dwarf.Frame.{at_index}
use libunwind.Dwarf.Cache.{
  Link, RsCache, cache_size, hash_index, is_match, lookup_chain, lookup_hash, rs_lookup, write_at,
  Place, slot_place, link_place, read_place, write_place, remove_head, enter, rs_new,
}

write_at-reads {ℓ} :
    {A : Type ℓ} (xs : List A) (i : ℕ) (a : A)
    → Gives (λ ys. at_index ys i ≡ ok a) (write_at xs i a)
write_at-reads xs i a =
    Gives-if (λ ys. at_index ys i ≡ ok a) (ltb i (length xs)) _ _
      (λ inside. rw (get_elem?-set_self xs i a (ltb→lt i (length xs) inside), at_index)) (λ _. tt)

-- Taking an entry out of a chain changes neither the size nor the next entry to be replaced.
abbrev Keeps : RsCache → RsCache → Type 0
Keeps c r = (r.log_size ≡ c.log_size) × (r.rr_head ≡ c.rr_head)

write_place-Keeps : (c : RsCache) (p : Place) (v : ℕ) → Gives (Keeps c) (write_place c p v)
unfolding write_place
write_place-Keeps c (slot_place i) v =
    Gives-bind_any (Keeps c) (write_at c.hash i v) _ (λ h. (refl, refl))
write_place-Keeps c (link_place i) v = Gives-bind_any (Keeps c) (at_index c.links i) _ (λ l.
    Gives-bind_any (Keeps c) (write_at c.links i (record l { coll_chain = v })) _
      (λ ls. (refl, refl)))

remove_head-Keeps :
    (head fuel : ℕ) (p : Place) (c : RsCache) → Gives (Keeps c) (remove_head head fuel p c)
unfolding remove_head
remove_head-Keeps head zero p c = tt
remove_head-Keeps head (suc fuel) p c = Gives-bind_any (Keeps c) (read_place c p) _ (λ index.
    Gives-if (Keeps c) (ltb index (cache_size c.log_size)) _ _
      (λ _.
        Gives-if (Keeps c) (index == head) _ _
          (λ _.
            Gives-bind_any (Keeps c) (read_place c (link_place index)) _
              (λ next. write_place-Keeps c p next))
          (λ _. remove_head-Keeps head fuel (link_place index) c))
      (λ _. (refl, refl)))

-- At the front of its chain, and valid for the address.
abbrev InFront : (head ip : ℕ) → RsCache → RsCache → Type 0
InFront head ip c r =
    Keeps c r
    × (at_index r.hash (hash_index ip r.log_size) ≡ ok head)
    × ((l : Link) × (at_index r.links head ≡ ok l) × (is_match l ip ≡ true))

enter-InFront :
    (c : RsCache) (head ip : ℕ) (signal_frame : Bool)
    → Gives (InFront head ip c) (enter c head ip signal_frame)
unfolding enter
enter-InFront c head ip signal_frame =
    Gives-bind_any (InFront head ip c) (at_index c.hash (hash_index ip c.log_size)) _ (λ first.
      let l : Link = record {
        ip = ip;
        coll_chain = first;
        valid = true;
        signal_frame = signal_frame;
      } in
      Gives-bind (λ ls. at_index ls head ≡ ok l) (InFront head ip c) (write_at c.links head l) _
        (write_at-reads c.links head l)
        (λ ls link.
          Gives-bind (λ h. at_index h (hash_index ip c.log_size) ≡ ok head) (InFront head ip c)
            (write_at c.hash (hash_index ip c.log_size) head) _
            (write_at-reads c.hash (hash_index ip c.log_size) head)
            (λ h slot. ((refl, refl), slot, (l, link, ground arith)))))

-- The index returned is that of the oldest entry, the next one to be replaced lies in the table again,
-- and a lookup of the address finds the entry at once.
abbrev pub Renewed : RsCache → (ip : ℕ) → (RsCache × ℕ) → Type 0
Renewed c ip (r, index) =
    (index ≡ c.rr_head)
    × (r.log_size ≡ c.log_size)
    × (r.rr_head < cache_size r.log_size)
    × ((fuel : ℕ) → rs_lookup r ip 0 (suc fuel) ≡ ok (some index))

found_first :
    (r : RsCache) (head ip fuel : ℕ) (l : Link)
    → head < cache_size r.log_size
    → at_index r.hash (hash_index ip r.log_size) ≡ ok head
    → at_index r.links head ≡ ok l
    → is_match l ip ≡ true
    → rs_lookup r ip 0 (suc fuel) ≡ ok (some head)
unfolding rs_lookup lookup_hash lookup_chain
found_first r head ip fuel l inside slot link matches =
    rw (slot, lt→ltb head (cache_size r.log_size) inside, link, matches)

-- Where the entry to be replaced lies in the table and `rs_new` returns, the address is found at once
-- in the entry that it returns, whatever stood in the chains before.
pub rs_new-Renewed :
    (c : RsCache) (ip fuel : ℕ) (signal_frame : Bool)
    → c.rr_head < cache_size c.log_size
    → Gives (Renewed c ip) (rs_new c ip fuel signal_frame)
unfolding rs_new
rs_new-Renewed c ip fuel signal_frame inside =
    let moved : RsCache = record c { rr_head = (c.rr_head + 1) % cache_size c.log_size } in
    Gives-bind_any (Renewed c ip) (at_index c.links c.rr_head) _ (λ old.
      Gives-bind (Keeps moved) (Renewed c ip) _ _
        (Gives-if (Keeps moved) (old.ip == 0) _ _ (λ _. (refl, refl))
          (λ _. remove_head-Keeps c.rr_head fuel (slot_place (hash_index old.ip c.log_size)) moved))
        (λ removed (size, next).
          Gives-bind (InFront c.rr_head ip removed) (Renewed c ip)
            (enter removed c.rr_head ip signal_frame) _
            (enter-InFront removed c.rr_head ip signal_frame)
            (λ r ((size', next'), slot, (l, link, matches)).
              renewed r (size' ∙ size) (next' ∙ next) slot l link matches)))
  where
    renewed :
        (r : RsCache)
        → r.log_size ≡ c.log_size
        → r.rr_head ≡ (c.rr_head + 1) % cache_size c.log_size
        → at_index r.hash (hash_index ip r.log_size) ≡ ok c.rr_head
        → (l : Link) → at_index r.links c.rr_head ≡ ok l
        → is_match l ip ≡ true
        → Renewed c ip (r, c.rr_head)
    renewed r size next slot l link matches =
        let below : (c.rr_head + 1) % cache_size c.log_size < cache_size c.log_size =
          mod-lt (c.rr_head + 1) (pow_pos c.log_size) in
        let same : cache_size r.log_size ≡ cache_size c.log_size = ap cache_size size in
        (
          refl,
          size,
          omega (arith, next, same, below),
          (λ fuel.
              found_first r c.rr_head ip fuel l (omega (arith, same, inside)) slot link matches),
        )
