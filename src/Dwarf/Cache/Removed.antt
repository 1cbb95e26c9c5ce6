-- ===== src/Dwarf/Cache/Removed.antt =====
-- Taking an entry out of its chain: `remove_head` ends, and leaves the chain without the entry.
use libunwind.Prelude.{
  ℕ, zero, suc, ◌<◌, ◌≡◌, refl, sym, ◌∙◌, arith, Bool, true, false, ltb, lt→ltb, ◌==◌, ==_iff,
  Bool-cases, inl, inr, List, [], ◌∷◌, length, length-set, set, get_elem?-lt, get_elem?-set_self,
  get_elem?-set_ne,
}
use libunwind.Result.{Result, ok, err, stop, ◌>>=◌}
use libunwind.Dwarf.Frame.{at_index}
use libunwind.Dwarf.Cache.{
  Link, RsCache, cache_size, write_at, Place, slot_place, link_place, read_place, write_place,
  remove_head,
}
use libunwind.Dwarf.Cache.Chains.{has, Chain, Chain-frame}

pub at_index-lt {ℓ} :
    {A : Type ℓ} (xs : List A) (i : ℕ) → i < length xs → (a : A) × (at_index xs i ≡ ok a)
at_index-lt xs i h = let (a, e) = get_elem?-lt xs i h in (a, rw (e, at_index))

pub lt-at_index {ℓ} :
    {A : Type ℓ} (xs : List A) (i : ℕ) (a : A) → at_index xs i ≡ ok a → i < length xs
lt-at_index [] i a h = cc
lt-at_index (x ∷ xs) zero a h = omega arith
lt-at_index (x ∷ xs) (suc i) a h = omega (arith, lt-at_index xs i a h)

pub at_index-set_self {ℓ} :
    {A : Type ℓ} (xs : List A) (i : ℕ) (a : A) → i < length xs → at_index (set xs i a) i ≡ ok a
at_index-set_self xs i a h = rw (get_elem?-set_self xs i a h, at_index)

pub at_index-set_ne {ℓ} :
    {A : Type ℓ} (xs : List A) (i j : ℕ) (a : A)
    → (i == j) ≡ false
    → at_index (set xs i a) j ≡ at_index xs j
at_index-set_ne xs i j a h = rw (get_elem?-set_ne xs i j a (ground arith), at_index)

pub write_at-set {ℓ} :
    {A : Type ℓ} (xs : List A) (i : ℕ) (a : A) → i < length xs → write_at xs i a ≡ ok (set xs i a)
write_at-set xs i a h = rw (lt→ltb i (length xs) h)

-- The place is the chain of this entry.
abbrev pub is_link : Place → ℕ → Bool
is_link (slot_place s) y = false
is_link (link_place x) y = x == y

abbrev pub is_slot : Place → ℕ → Bool
is_slot (slot_place s) t = s == t
is_slot (link_place x) t = false

-- What a write to one place leaves as it was.
pub record Agrees (p : Place) (xs : List ℕ) (c r : RsCache) : Type 0 where
  pub size : r.log_size ≡ c.log_size
  pub next : r.rr_head ≡ c.rr_head
  pub hash_length : length r.hash ≡ length c.hash
  pub links_length : length r.links ≡ length c.links
  pub others :
      (y : ℕ) → is_link p y ≡ false → has y xs ≡ false → at_index r.links y ≡ at_index c.links y
  pub slots : (s : ℕ) → is_slot p s ≡ false → at_index r.hash s ≡ at_index c.hash s

-- The entry at this place keeps its address.
abbrev pub KeepsLink : Place → (i : ℕ) → RsCache → RsCache → Type 0
KeepsLink (slot_place s) i c r = Unit
KeepsLink (link_place x) i c r =
    (l : Link) → at_index c.links x ≡ ok l → at_index r.links x ≡ ok (record l { coll_chain = i })

-- After the removal: the place leads to `first`, and from there goes the chain `ys` without the entry.
pub record Removed (head : ℕ) (p : Place) (slot : ℕ) (xs : List ℕ) (c r : RsCache) : Type 0 where
  pub first : ℕ
  pub ys : List ℕ
  pub agrees : Agrees p xs c r
  pub kept : KeepsLink p first c r
  pub value : read_place r p ≡ ok first
  pub chain : Chain r.links c.log_size slot first ys
  pub gone : has head ys ≡ false
  pub fewer : (y : ℕ) → has y xs ≡ false → has y ys ≡ false

pub write_place-Agrees :
    (c : RsCache) (p : Place) (i v : ℕ) (xs : List ℕ)
    → read_place c p ≡ ok i
    → (r : RsCache) × (write_place c p v ≡ ok r)
      × Agrees p xs c r
      × KeepsLink p v c r
      × (read_place r p ≡ ok v)
unfolding write_place read_place
write_place-Agrees c (slot_place s) i v xs at =
    let inside : s < length c.hash = lt-at_index c.hash s i at in
    (
      record c { hash = set c.hash s v },
      rw (write_at-set c.hash s v inside),
      record {
        size = refl;
        next = refl;
        hash_length = length-set c.hash s v;
        links_length = refl;
        others = λ y _ _. refl;
        slots = λ t e. at_index-set_ne c.hash s t v e;
      },
      tt,
      at_index-set_self c.hash s v inside,
    )
write_place-Agrees c (link_place x) i v xs at = at_link (at_index c.links x) refl at
  where
    at_link :
        (m : Result Link)
        → at_index c.links x ≡ m
        → (m >>= (λ l. ok l.coll_chain)) ≡ ok i
        → (r : RsCache) × (write_place c (link_place x) v ≡ ok r)
          × Agrees (link_place x) xs c r
          × KeepsLink (link_place x) v c r
          × (read_place r (link_place x) ≡ ok v)
    at_link (ok l) e h =
        let inside : x < length c.links = lt-at_index c.links x l e in
        let l' : Link = record l { coll_chain = v } in
        let self : at_index (set c.links x l') x ≡ ok l' = at_index-set_self c.links x l' inside in
        (
          record c { links = set c.links x l' },
          rw (e, write_at-set c.links x l' inside),
          record {
            size = refl;
            next = refl;
            hash_length = refl;
            links_length = length-set c.links x l';
            others = λ y n _. at_index-set_ne c.links x y l' n;
            slots = λ t _. refl;
          },
          (λ k at_k. let k_l : l ≡ k = cc in rw (sym k_l) self),
          rw self,
        )
    at_link (err q) e h = cc
    at_link (stop q) e h = cc

reads_itself :
    (m : Result Link) (i : ℕ) (l : Link)
    → (m >>= (λ l. ok l.coll_chain)) ≡ ok i
    → m ≡ ok l
    → m ≡ ok (record l { coll_chain = i })
reads_itself (ok k) i l h e = ground arith
reads_itself (err q) i l h e = cc
reads_itself (stop q) i l h e = cc

-- A place that nothing has written leads where it led.
same_place :
    (p : Place) (i : ℕ) (c r : RsCache) (x : ℕ) (xs : List ℕ)
    → Agrees (link_place x) xs c r
    → ((y : ℕ) → is_link p y ≡ true → has y (x ∷ xs) ≡ false)
    → read_place c p ≡ ok i
    → (read_place r p ≡ ok i) × KeepsLink p i c r
unfolding read_place
same_place (slot_place s) i c r x xs a out at = (a.slots s refl ∙ at, tt)
same_place (link_place q) i c r x xs a out at =
    let apart : has q (x ∷ xs) ≡ false = out q (ground arith) in
    let same : at_index r.links q ≡ at_index c.links q = a.others q (ground arith) (ground arith) in
    (rw same at, (λ l at_q. same ∙ reads_itself (at_index c.links q) i l at at_q))

keeps_itself : (p : Place) (i : ℕ) (c : RsCache) → read_place c p ≡ ok i → KeepsLink p i c c
unfolding read_place
keeps_itself (slot_place s) i c at = tt
keeps_itself (link_place q) i c at = λ l at_q. reads_itself (at_index c.links q) i l at at_q

read_link :
    (c : RsCache) (x : ℕ) (l : Link)
    → at_index c.links x ≡ ok l
    → read_place c (link_place x) ≡ ok l.coll_chain
unfolding read_place
read_link c x l at = rw at

apart :
    (p : Place) (x : ℕ) (xs : List ℕ)
    → ((y : ℕ) → is_link p y ≡ true → has y (x ∷ xs) ≡ false)
    → (y : ℕ) → has y (x ∷ xs) ≡ true
    → is_link p y ≡ false
apart p x xs out y m = elim (Bool-cases (is_link p y)) [
  | inl at ↦ let no : has y (x ∷ xs) ≡ false = out y at in cc
  | inr other ↦ other
]

pub remove_head-Removed :
    (head fuel : ℕ) (p : Place) (c : RsCache) (slot i : ℕ) (xs : List ℕ)
    → length xs < fuel
    → read_place c p ≡ ok i
    → Chain c.links c.log_size slot i xs
    → ((y : ℕ) → is_link p y ≡ true → has y xs ≡ false)
    → (r : RsCache) × (remove_head head fuel p c ≡ ok r) × Removed head p slot xs c r
unfolding remove_head
remove_head-Removed head zero p c slot i xs enough at chain out = absurd (omega arith)
remove_head-Removed head (suc fuel) p c slot i [] enough at chain out =
    let outside : ltb i (cache_size c.log_size) ≡ false = ground arith in
    (
      c,
      rw (at, outside),
      record {
        first = i;
        ys = [];
        agrees = record {
          size = refl;
          next = refl;
          hash_length = refl;
          links_length = refl;
          others = λ y _ _. refl;
          slots = λ s _. refl;
        };
        kept = keeps_itself p i c at;
        value = at;
        chain = chain;
        gone = refl;
        fewer = λ y _. refl;
      },
    )
remove_head-Removed head (suc fuel) p c slot i (x ∷ xs) enough at
      (at_x, inside, new, (l, at_l, here, live, rest)) out =
    let below : ltb x (cache_size c.log_size) ≡ true = lt→ltb x _ inside in
    let next : read_place c (link_place x) ≡ ok l.coll_chain = read_link c x l at_l in
    elim (Bool-cases (x == head)) [
      | inl found ↦
          let (r, writes, a, kept, value) = write_place-Agrees c p i l.coll_chain [] at in
          (
            r,
            rw (at, at_x, below, found, next) writes,
            record {
              first = l.coll_chain;
              ys = xs;
              agrees = record {
                size = a.size;
                next = a.next;
                hash_length = a.hash_length;
                links_length = a.links_length;
                others = λ y e _. a.others y e refl;
                slots = a.slots;
              };
              kept = kept;
              value = value;
              chain =
                  Chain-frame c.links r.links c.log_size slot l.coll_chain xs
                    (λ y m. a.others y (apart p x xs out y (ground arith)) refl) rest;
              gone = rw (← (==_iff x head).0 found) new;
              fewer = λ y e. ground arith;
            },
          )
      | inr other ↦
          let (r, runs, d) =
            remove_head-Removed head fuel (link_place x) c slot l.coll_chain xs (omega arith) next
              rest (λ y e. rw (← (==_iff x y).0 e) new) in
          let (value, kept) = same_place p i c r x xs d.agrees out at in
          (
            r,
            rw (at, at_x, below, other) runs,
            record {
              first = i;
              ys = x ∷ d.ys;
              agrees = record {
                size = d.agrees.size;
                next = d.agrees.next;
                hash_length = d.agrees.hash_length;
                links_length = d.agrees.links_length;
                others = λ y _ e. d.agrees.others y (ground arith) (ground arith);
                slots = λ s _. d.agrees.slots s refl;
              };
              kept = kept;
              value = value;
              chain = (
                at_x,
                inside,
                d.fewer x new,
                (record l { coll_chain = d.first }, d.kept l at_l, here, live, d.chain),
              );
              gone = ground (arith, d.gone);
              fewer = λ y e. ground (arith, d.fewer y);
            },
          )
    ]
