-- ===== src/Pool/Objects.antt =====
-- Lists of objects that do not overlap.
use libunwind.Prelude.{
  ℕ, ◌+◌, ◌≤◌, ◌<◌, ◌≡◌, arith, false, ◌==◌, ◌⊎◌, inl, inr, if◌then◌else◌, List, [], ◌∷◌, ◌++◌,
  length,
}
use libunwind.Pool.{World, sos_memory_size}

-- Two objects of this size do not overlap.
abbrev pub Apart : ℕ → ℕ → ℕ → Type 0
Apart size x y = (x + size ≤ y) ⊎ (y + size ≤ x)

abbrev pub OffAll : ℕ → ℕ → List ℕ → Type 0
OffAll size x [] = Unit
OffAll size x (y ∷ ys) = Apart size x y × OffAll size x ys

abbrev pub AllApart : ℕ → List ℕ → Type 0
AllApart size [] = Unit
AllApart size (x ∷ xs) = OffAll size x xs × AllApart size xs

-- The `next` words lead through the free objects.
abbrev pub Free : (ℕ → ℕ) → (head : ℕ) → List ℕ → Type 0
Free cells head [] = Unit
Free cells head (x ∷ xs) = (head ≡ x) × Free cells (cells x) xs

-- No object lies in the part of the emergency memory that has not been given away.
abbrev pub Clear : (sos_memory freepos size : ℕ) → List ℕ → Type 0
Clear sos_memory freepos size [] = Unit
Clear sos_memory freepos size (x ∷ xs) =
    ((x + size ≤ sos_memory + freepos) ⊎ (sos_memory + sos_memory_size ≤ x))
    × Clear sos_memory freepos size xs

-- The free objects `xs` and the objects handed out `used`.
pub record IsPool (sos_memory : ℕ) (w : World) (xs used : List ℕ) : Type 0 where
  pub size_pos : 0 < w.pool.obj_size
  pub free : Free w.cells w.pool.free_list xs
  pub count : w.pool.num_free ≡ length xs
  pub apart : AllApart w.pool.obj_size (xs ++ used)
  pub clear : Clear sos_memory w.freepos w.pool.obj_size (xs ++ used)

pub Free-frame :
    (cells : ℕ → ℕ) (size obj v head : ℕ) (xs : List ℕ)
    → 0 < size
    → OffAll size obj xs
    → Free cells head xs
    → Free (λ a. if obj == a then v else cells a) head xs
Free-frame cells size obj v head [] pos off h = tt
Free-frame cells size obj v head (x ∷ xs) pos (here, off) (at, rest) =
    let other : (obj == x) ≡ false = ground arith in
    (at, rw other (Free-frame cells size obj v (cells x) xs pos off rest))

pub OffAll-append :
    (size x : ℕ) (xs ys : List ℕ) → OffAll size x (xs ++ ys) → OffAll size x xs × OffAll size x ys
OffAll-append size x [] ys h = (tt, h)
OffAll-append size x (z ∷ xs) ys (here, rest) =
    let (a, b) = OffAll-append size x xs ys rest in ((here, a), b)

OffAll-join :
    (size x : ℕ) (xs ys : List ℕ) → OffAll size x xs → OffAll size x ys → OffAll size x (xs ++ ys)
OffAll-join size x [] ys h k = k
OffAll-join size x (z ∷ xs) ys (here, rest) k = (here, OffAll-join size x xs ys rest k)

flip : (size x y : ℕ) → Apart size x y → Apart size y x
flip size x y (inl h) = inr h
flip size x y (inr h) = inl h

-- An object may change its place in the list.
pub AllApart-to_front :
    (size x : ℕ) (xs ys : List ℕ) → AllApart size (xs ++ x ∷ ys) → AllApart size (x ∷ xs ++ ys)
AllApart-to_front size x [] ys h = h
AllApart-to_front size x (z ∷ xs) ys (off, rest) =
    let (off_x, apart) = AllApart-to_front size x xs ys rest in
    let (off_xs, (z_x, off_ys)) = OffAll-append size z xs (x ∷ ys) off in
    ((flip size z x z_x, off_x), (OffAll-join size z xs ys off_xs off_ys, apart))

pub AllApart-from_front :
    (size x : ℕ) (xs ys : List ℕ) → AllApart size (x ∷ xs ++ ys) → AllApart size (xs ++ x ∷ ys)
AllApart-from_front size x [] ys h = h
AllApart-from_front size x (z ∷ xs) ys ((x_z, off_x), (off_z, rest)) =
    let (off_xs, off_ys) = OffAll-append size z xs ys off_z in
    (
      OffAll-join size z xs (x ∷ ys) off_xs (flip size x z x_z, off_ys),
      AllApart-from_front size x xs ys (off_x, rest),
    )

pub Clear-to_front :
    (s p size x : ℕ) (xs ys : List ℕ)
    → Clear s p size (xs ++ x ∷ ys)
    → Clear s p size (x ∷ xs ++ ys)
Clear-to_front s p size x [] ys h = h
Clear-to_front s p size x (z ∷ xs) ys (here, rest) =
    let (at_x, others) = Clear-to_front s p size x xs ys rest in (at_x, (here, others))

pub Clear-from_front :
    (s p size x : ℕ) (xs ys : List ℕ)
    → Clear s p size (x ∷ xs ++ ys)
    → Clear s p size (xs ++ x ∷ ys)
Clear-from_front s p size x [] ys h = h
Clear-from_front s p size x (z ∷ xs) ys (at_x, (here, rest)) =
    (here, Clear-from_front s p size x xs ys (at_x, rest))

-- The region lies off all objects.
abbrev pub OffRegion : (size from to : ℕ) → List ℕ → Type 0
OffRegion size from to [] = Unit
OffRegion size from to (y ∷ ys) = ((y + size ≤ from) ⊎ (to ≤ y)) × OffRegion size from to ys

pub OffRegion-OffAll :
    (size from to : ℕ) (ys : List ℕ)
    → from + size ≤ to
    → OffRegion size from to ys
    → OffAll size from ys
OffRegion-OffAll size from to [] h k = tt
OffRegion-OffAll size from to (y ∷ ys) h (inl below, rest) =
    (inr below, OffRegion-OffAll size from to ys h rest)
OffRegion-OffAll size from to (y ∷ ys) h (inr above, rest) =
    (inl (omega arith), OffRegion-OffAll size from to ys h rest)

pub OffRegion-later :
    (size from later to : ℕ) (ys : List ℕ)
    → from ≤ later
    → OffRegion size from to ys
    → OffRegion size later to ys
OffRegion-later size from later to [] h k = tt
OffRegion-later size from later to (y ∷ ys) h (inl below, rest) =
    (inl (omega arith), OffRegion-later size from later to ys h rest)
OffRegion-later size from later to (y ∷ ys) h (inr above, rest) =
    (inr above, OffRegion-later size from later to ys h rest)
