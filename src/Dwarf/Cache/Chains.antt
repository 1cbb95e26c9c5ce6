-- ===== src/Dwarf/Cache/Chains.antt =====
-- The chains of the cache: each ends, visits an entry once, and holds the entries of its slot.
use libunwind.Prelude.{
  ℕ, zero, suc, ◌≤◌, ◌<◌, ◌≡◌, ◌≢◌, refl, ap, sym, ◌∙◌, arith, Bool, true, false, ◌==◌, ==_iff,
  Bool-cases, inl, inr, ◌||◌, if◌then◌else◌, List, [], ◌∷◌, length,
}
use libunwind.Result.{ok}
use libunwind.Dwarf.Frame.{at_index}
use libunwind.Dwarf.Cache.{Link, cache_size, hash_index}

abbrev pub has : ℕ → List ℕ → Bool
has x [] = false
has x (y ∷ ys) = (x == y) || has x ys

-- From `i` the chain visits the entries of the list, all of them of this slot and for addresses that
-- are not 0, and then leaves the table.
abbrev pub Chain : List Link → (log_size slot i : ℕ) → List ℕ → Type 0
Chain links n slot i [] = cache_size n ≤ i
Chain links n slot i (x ∷ xs) =
    (i ≡ x)
    × (x < cache_size n)
    × (has x xs ≡ false)
    × ((l : Link) × (at_index links x ≡ ok l)
        × (hash_index l.ip n ≡ slot)
        × (l.ip ≢ 0)
        × Chain links n slot l.coll_chain xs)

-- A chain is what its own entries make it.
pub Chain-frame :
    (links links' : List Link) (n slot i : ℕ) (xs : List ℕ)
    → ((y : ℕ) → has y xs ≡ true → at_index links' y ≡ at_index links y)
    → Chain links n slot i xs
    → Chain links' n slot i xs
Chain-frame links links' n slot i [] same h = h
Chain-frame links links' n slot i (x ∷ xs) same (at_x, inside, new, (l, at, here, live, rest)) = (
  at_x,
  inside,
  new,
  (
    l,
    same x (ground arith) ∙ at,
    here,
    live,
    Chain-frame links links' n slot l.coll_chain xs (λ y m. same y (ground arith)) rest,
  ),
)

-- An entry of a chain hashes to its slot, and is not for address 0.
pub Chain-entry :
    (links : List Link) (n slot i : ℕ) (xs : List ℕ) (y : ℕ) (l : Link)
    → Chain links n slot i xs
    → has y xs ≡ true
    → at_index links y ≡ ok l
    → (hash_index l.ip n ≡ slot) × (l.ip ≢ 0)
Chain-entry links n slot i [] y l h m at = cc
Chain-entry links n slot i (x ∷ xs) y l (at_x, inside, new, (k, at', here, live, rest)) m at =
    elim (Bool-cases (y == x)) [
      | inl same ↦
          let e : at_index links x ≡ ok l = ap (at_index links) (sym ((==_iff y x).0 same)) ∙ at in
          let k_l : k ≡ l = cc in
          (ap (λ (q : Link). hash_index q.ip n) (sym k_l) ∙ here, rw (sym k_l) live)
      | inr other ↦ Chain-entry links n slot k.coll_chain xs y l rest (ground arith) at
    ]

-- Distinct numbers below a bound are no more than the bound.
abbrev pub Distinct : ℕ → List ℕ → Type 0
Distinct n [] = Unit
Distinct n (x ∷ xs) = (x < n) × (has x xs ≡ false) × Distinct n xs

pub Chain-Distinct :
    (links : List Link) (n slot i : ℕ) (xs : List ℕ)
    → Chain links n slot i xs
    → Distinct (cache_size n) xs
Chain-Distinct links n slot i [] h = tt
Chain-Distinct links n slot i (x ∷ xs) (at_x, inside, new, (l, at, here, live, rest)) =
    (inside, new, Chain-Distinct links n slot l.coll_chain xs rest)

without : ℕ → List ℕ → List ℕ
without y [] = []
without y (x ∷ xs) = if x == y then xs else x ∷ without y xs

has-without : (z y : ℕ) (xs : List ℕ) → has z xs ≡ false → has z (without y xs) ≡ false
unfolding without
has-without z y [] h = refl
has-without z y (x ∷ xs) h = ground (arith, has-without z y xs)

without-Distinct : (n : ℕ) (xs : List ℕ) → Distinct (suc n) xs → Distinct n (without n xs)
unfolding without
without-Distinct n [] h = tt
without-Distinct n (x ∷ xs) (below, new, rest) = elim (Bool-cases (x == n)) [
  | inl last ↦ rw last (lower xs rest (rw (sym ((==_iff x n).0 last)) new))
  | inr other ↦ rw other (ground arith, has-without x n xs new, without-Distinct n xs rest)
]
  where
    lower : (ys : List ℕ) → Distinct (suc n) ys → has n ys ≡ false → Distinct n ys
    lower [] h out = tt
    lower (y ∷ ys) (b, e, r) out = (ground arith, e, lower ys r (ground arith))

length-without : (y : ℕ) (xs : List ℕ) → length xs ≤ suc (length (without y xs))
unfolding without
length-without y [] = omega arith
length-without y (x ∷ xs) = ground (arith, length-without y xs)

pub length-Distinct : (n : ℕ) (xs : List ℕ) → Distinct n xs → length xs ≤ n
length-Distinct zero [] h = omega arith
length-Distinct zero (x ∷ xs) (below, new, rest) = absurd (omega arith)
length-Distinct (suc n) xs h =
    omega (arith, length-without n xs, length-Distinct n (without n xs) (without-Distinct n xs h))

-- No chain is longer than the table.
pub length-Chain :
    (links : List Link) (n slot i : ℕ) (xs : List ℕ)
    → Chain links n slot i xs
    → length xs ≤ cache_size n
length-Chain links n slot i xs h =
    length-Distinct (cache_size n) xs (Chain-Distinct links n slot i xs h)

Chain-link :
    (links : List Link) (n slot i : ℕ) (xs : List ℕ) (y : ℕ)
    → Chain links n slot i xs
    → has y xs ≡ true
    → (l : Link) × (at_index links y ≡ ok l)
Chain-link links n slot i [] y h m = cc
Chain-link links n slot i (x ∷ xs) y (at_x, inside, new, (k, at, here, live, rest)) m =
    elim (Bool-cases (y == x)) [
      | inl same ↦ (k, ap (at_index links) ((==_iff y x).0 same) ∙ at)
      | inr other ↦ Chain-link links n slot k.coll_chain xs y rest (ground arith)
    ]

-- The chains of two slots share no entry.
pub Chain-apart :
    (links : List Link) (n slot other i j : ℕ) (xs ys : List ℕ) (y : ℕ)
    → slot ≢ other
    → Chain links n slot i xs
    → Chain links n other j ys
    → has y ys ≡ true
    → has y xs ≡ false
Chain-apart links n slot other i j xs ys y apart h k m = elim (Bool-cases (has y xs)) [
  | inl on ↦
      let (l, at) = Chain-link links n slot i xs y h on in
      absurd (
        apart (
          sym (Chain-entry links n slot i xs y l h on at).0
          ∙ (Chain-entry links n other j ys y l k m at).0))
  | inr off ↦ off
]
