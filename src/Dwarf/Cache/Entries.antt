-- ===== src/Dwarf/Cache/Entries.antt =====
-- Which entries a cache has after `rs_new`: the new one and old ones.
use libunwind.Prelude.{
  ℕ, zero, suc, ◌+◌, ◌%◌, ◌<◌, ◌≡◌, refl, ap, sym, ◌∙◌, arith, Bool, true, false, ltb, ltb→lt, ◌==◌,
  ==_iff, Bool-cases, inl, inr, ◌⊎◌, List, length, set,
}
use libunwind.Result.{ok, Gives, Gives-bind, Gives-bind_any, Gives-bind_eq, Gives-if}
use libunwind.Dwarf.Frame.{at_index}
use libunwind.Dwarf.Cache.{
  Link, RsCache, cache_size, hash_index, rs_new, write_at, Place, slot_place, link_place,
  read_place, write_place, remove_head, enter,
}
use libunwind.Dwarf.Cache.Removed.{at_index-set_self, at_index-set_ne, lt-at_index}

pub write_at-is {ℓ} :
    {A : Type ℓ} (xs : List A) (i : ℕ) (a : A)
    → Gives (λ ys. (i < length xs) × (ys ≡ set xs i a)) (write_at xs i a)
write_at-is xs i a =
    Gives-if (λ ys. (i < length xs) × (ys ≡ set xs i a)) (ltb i (length xs)) _ _
      (λ inside. (ltb→lt i (length xs) inside, refl)) (λ _. tt)

-- Every entry of the new links is one of the old, but for its chain.
abbrev SameEntry : List Link → List Link → Type 0
SameEntry new old =
    (y : ℕ) (l : Link)
    → at_index new y ≡ ok l
    → (k : Link) × (at_index old y ≡ ok k) × (k.ip ≡ l.ip) × (k.valid ≡ l.valid)

SameEntry-refl : (ls : List Link) → SameEntry ls ls
SameEntry-refl ls y l at = (l, at, refl, refl)

chained-SameEntry :
    (ls : List Link) (x v : ℕ) (k : Link)
    → at_index ls x ≡ ok k
    → SameEntry (set ls x (record k { coll_chain = v })) ls
chained-SameEntry ls x v k at y l at' = elim (Bool-cases (x == y)) [
  | inl same ↦
      let e : x ≡ y = (==_iff x y).0 same in
      let stored : ok (record k { coll_chain = v }) ≡ ok l =
        sym (at_index-set_self ls x (record k { coll_chain = v }) (lt-at_index ls x k at))
        ∙ ap (λ (t : ℕ). at_index (set ls x (record k { coll_chain = v })) t) e
        ∙ at' in
      (k, ap (λ (t : ℕ). at_index ls t) (sym e) ∙ at, ground (arith), ground (arith))
  | inr other ↦
      (l, sym (at_index-set_ne ls x y (record k { coll_chain = v }) other) ∙ at', refl, refl)
]

write_place-SameEntry :
    (c : RsCache) (p : Place) (v : ℕ) → Gives (λ r. SameEntry r.links c.links) (write_place c p v)
unfolding write_place
write_place-SameEntry c (slot_place i) v =
    Gives-bind_any (λ r. SameEntry r.links c.links) (write_at c.hash i v) _
      (λ h. SameEntry-refl c.links)
write_place-SameEntry c (link_place i) v =
    Gives-bind_eq (λ r. SameEntry r.links c.links) (at_index c.links i) _
      (λ l at.
        Gives-bind _ (λ r. SameEntry r.links c.links)
          (write_at c.links i (record l { coll_chain = v })) _
          (write_at-is c.links i (record l { coll_chain = v }))
          (λ ls (inside, is). rw is (chained-SameEntry c.links i v l at)))

remove_head-SameEntry :
    (head fuel : ℕ) (p : Place) (c : RsCache)
    → Gives (λ r. SameEntry r.links c.links) (remove_head head fuel p c)
unfolding remove_head
remove_head-SameEntry head zero p c = tt
remove_head-SameEntry head (suc fuel) p c =
    let P : RsCache → Type 0 = λ r. SameEntry r.links c.links in
    Gives-bind_any P (read_place c p) _ (λ index.
      Gives-if P (ltb index (cache_size c.log_size)) _ _
        (λ _.
          Gives-if P (index == head) _ _
            (λ _.
              Gives-bind_any P (read_place c (link_place index)) _
                (λ next. write_place-SameEntry c p next))
            (λ _. remove_head-SameEntry head fuel (link_place index) c))
        (λ _. SameEntry-refl c.links))

-- A valid entry of the new cache is the one for this address, or is an old one.
abbrev pub NewOrOld : (ip : ℕ) → RsCache → (RsCache × ℕ) → Type 0
NewOrOld ip c (r, index) =
    (y : ℕ) (l : Link)
    → at_index r.links y ≡ ok l
    → l.valid ≡ true
    → ((y ≡ index) × (l.ip ≡ ip))
      ⊎ (((index == y) ≡ false)
          × ((k : Link) × (at_index c.links y ≡ ok k) × (k.ip ≡ l.ip) × (k.valid ≡ true)))

enter-NewOrOld :
    (c : RsCache) (head ip : ℕ) (signal_frame : Bool)
    → Gives (λ r. NewOrOld ip c (r, head)) (enter c head ip signal_frame)
unfolding enter
enter-NewOrOld c head ip signal_frame =
    let P : RsCache → Type 0 = λ r. NewOrOld ip c (r, head) in
    Gives-bind_any P (at_index c.hash (hash_index ip c.log_size)) _ (λ first.
      let new : Link = record {
        ip = ip;
        coll_chain = first;
        valid = true;
        signal_frame = signal_frame;
      } in
      Gives-bind _ P (write_at c.links head new) _ (write_at-is c.links head new)
        (λ ls (inside, is).
          Gives-bind_any P (write_at c.hash (hash_index ip c.log_size) head) _ (λ h y l at valid.
            elim (Bool-cases (head == y)) [
              | inl same ↦
                  let e : head ≡ y = (==_iff head y).0 same in
                  let stored : ok new ≡ ok l =
                    sym (at_index-set_self c.links head new inside)
                    ∙ ap (λ (t : ℕ). at_index (set c.links head new) t) e
                    ∙ ap (λ (t : List Link). at_index t y) (sym is)
                    ∙ at in
                  inl (sym e, ground arith)
              | inr other ↦ inr (
                other,
                (
                  l,
                  sym (at_index-set_ne c.links head y new other)
                      ∙ ap (λ (t : List Link). at_index t y) (sym is)
                      ∙ at,
                  refl,
                  valid,
                ),
              )
            ])))

pub rs_new-NewOrOld :
    (c : RsCache) (ip fuel : ℕ) (signal_frame : Bool)
    → Gives (NewOrOld ip c) (rs_new c ip fuel signal_frame)
unfolding rs_new
rs_new-NewOrOld c ip fuel signal_frame =
    let moved : RsCache = record c { rr_head = (c.rr_head + 1) % cache_size c.log_size } in
    Gives-bind_any (NewOrOld ip c) (at_index c.links c.rr_head) _ (λ old.
      Gives-bind (λ r. SameEntry r.links c.links) (NewOrOld ip c) _ _
        (Gives-if (λ (r : RsCache). SameEntry r.links c.links) (old.ip == 0) _ _
          (λ _. SameEntry-refl c.links)
          (λ _.
            remove_head-SameEntry c.rr_head fuel (slot_place (hash_index old.ip c.log_size)) moved))
        (λ removed same.
          Gives-bind (λ r. NewOrOld ip removed (r, c.rr_head)) (NewOrOld ip c)
            (enter removed c.rr_head ip signal_frame) _
            (enter-NewOrOld removed c.rr_head ip signal_frame)
            (λ r new y l at valid. elim (new y l at valid) [
              | inl this ↦ inl this
              | inr (other, (k, at_k, ip_k, valid_k)) ↦
                  let (q, at_q, ip_q, valid_q) = same y k at_k in
                  inr (other, (q, at_q, ip_q ∙ ip_k, valid_q ∙ valid_k))
            ])))
