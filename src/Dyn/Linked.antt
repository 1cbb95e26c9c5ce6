-- ===== src/Dyn/Linked.antt =====
-- The registered procedures as a doubly linked list.
use libunwind.Prelude.{
  ℕ, ◌≡◌, ◌≢◌, refl, sym, ap, ◌∙◌, arith, Bool, true, false, ◌==◌, ==_iff, Bool-cases, inl, inr,
  ◌||◌, if◌then◌else◌, List, [], ◌∷◌,
}
use libunwind.Dyn.{Node, DynList, update, set_next, set_prev, set_prev_if, dyn_register}

abbrev pub has : ℕ → List ℕ → Bool
has x [] = false
has x (y ∷ ys) = (x == y) || has x ys

abbrev pub without : ℕ → List ℕ → List ℕ
without x [] = []
without x (y ∷ ys) = if x == y then ys else y ∷ without x ys

-- From `p` the `next` fields lead through these structures, each met once, to NULL; each `prev`
-- field names the structure before it, the first one's `prev`.
abbrev pub Linked : (ℕ → Node) → (prev p : ℕ) → List ℕ → Type 0
Linked nodes prev p [] = p ≡ 0
Linked nodes prev p (x ∷ xs) =
    (p ≡ x)
    × (x ≢ 0)
    × ((nodes x).prev ≡ prev)
    × (has x xs ≡ false)
    × Linked nodes x (nodes x).next xs

abbrev pub Registered : DynList → List ℕ → Type 0
Registered l xs = Linked l.nodes 0 l.first xs

-- Only the links of the structures matter.
pub Linked-frame :
    (nodes nodes' : ℕ → Node) (prev p : ℕ) (xs : List ℕ)
    → ((y : ℕ)
        → has y xs ≡ true
        → ((nodes' y).next ≡ (nodes y).next) × ((nodes' y).prev ≡ (nodes y).prev))
    → Linked nodes prev p xs
    → Linked nodes' prev p xs
Linked-frame nodes nodes' prev p [] same h = h
Linked-frame nodes nodes' prev p (x ∷ xs) same (at, valid, back, new, rest) =
    let (next_same, prev_same) = same x (ground arith) in
    (
      at,
      valid,
      prev_same ∙ back,
      new,
      rw next_same
          (Linked-frame nodes nodes' x (nodes x).next xs (λ y m. same y (ground arith)) rest),
    )

-- What a write of one link leaves in every structure.
pub set_prev_fields :
    (p v y : ℕ) (nodes : ℕ → Node)
    → ((set_prev p v nodes y).next ≡ (nodes y).next)
      × ((set_prev p v nodes y).prev ≡ (if p == y then v else (nodes y).prev))
      × ((set_prev p v nodes y).proc ≡ (nodes y).proc)
unfolding set_prev update
set_prev_fields p v y nodes = elim (Bool-cases (p == y)) [
  | inl same ↦
      let e : p ≡ y = (==_iff p y).0 same in
      rw same (ap (λ (t : ℕ). (nodes t).next) e, refl, ap (λ (t : ℕ). (nodes t).proc) e)
  | inr other ↦ rw other (refl, refl, refl)
]

pub set_next_fields :
    (p v y : ℕ) (nodes : ℕ → Node)
    → ((set_next p v nodes y).next ≡ (if p == y then v else (nodes y).next))
      × ((set_next p v nodes y).prev ≡ (nodes y).prev)
      × ((set_next p v nodes y).proc ≡ (nodes y).proc)
unfolding set_next update
set_next_fields p v y nodes = elim (Bool-cases (p == y)) [
  | inl same ↦
      let e : p ≡ y = (==_iff p y).0 same in
      rw same (refl, ap (λ (t : ℕ). (nodes t).prev) e, ap (λ (t : ℕ). (nodes t).proc) e)
  | inr other ↦ rw other (refl, refl, refl)
]

pub set_prev_if_fields :
    (p v y : ℕ) (nodes : ℕ → Node)
    → y ≢ 0
    → ((set_prev_if p v nodes y).next ≡ (nodes y).next)
      × ((set_prev_if p v nodes y).prev ≡ (if p == y then v else (nodes y).prev))
      × ((set_prev_if p v nodes y).proc ≡ (nodes y).proc)
unfolding set_prev_if
set_prev_if_fields p v y nodes h = elim (Bool-cases (p == 0)) [
  | inl null ↦ let other : (p == y) ≡ false = ground arith in rw (null, other) (refl, refl, refl)
  | inr some ↦ rw some (set_prev_fields p v y nodes)
]

pub apart : (x y : ℕ) (xs : List ℕ) → has x xs ≡ false → has y xs ≡ true → (x == y) ≡ false
apart x y xs out m = elim (Bool-cases (x == y)) [
  | inl same ↦
      let no : has y xs ≡ false = ap (λ (t : ℕ). has t xs) (sym ((==_iff x y).0 same)) ∙ out in cc
  | inr other ↦ other
]

pub Linked-ne_zero :
    (nodes : ℕ → Node) (prev p : ℕ) (xs : List ℕ) (y : ℕ)
    → Linked nodes prev p xs
    → has y xs ≡ true
    → y ≢ 0
Linked-ne_zero nodes prev p [] y h m = cc
Linked-ne_zero nodes prev p (x ∷ xs) y (at, valid, back, new, rest) m = elim (Bool-cases (y == x)) [
  | inl same ↦ rw ((==_iff y x).0 same) valid
  | inr other ↦ Linked-ne_zero nodes x (nodes x).next xs y rest (ground arith)
]

-- The list with another structure before it.
pub Linked-set_prev :
    (nodes : ℕ → Node) (prev v p : ℕ) (xs : List ℕ)
    → Linked nodes prev p xs
    → Linked (set_prev_if p v nodes) v p xs
Linked-set_prev nodes prev v p [] h = h
Linked-set_prev nodes prev v p (x ∷ xs) (at, valid, back, new, rest) =
    let (next_x, prev_x, proc_x) = set_prev_if_fields p v x nodes valid in
    let same : (p == x) ≡ true = (==_iff p x).1 at in
    (
      at,
      valid,
      prev_x ∙ ap (λ (b : Bool). if b then v else (nodes x).prev) same,
      new,
      rw next_x (
          Linked-frame nodes (set_prev_if p v nodes) x (nodes x).next xs
            (λ y m.
              let (next_y, prev_y, proc_y) =
                set_prev_if_fields p v y nodes
                  (Linked-ne_zero nodes x (nodes x).next xs y rest m) in
              let other : (p == y) ≡ false = rw at (apart x y xs new m) in
              (next_y, prev_y ∙ ap (λ (b : Bool). if b then v else (nodes y).prev) other))
            rest),
    )

-- Registering puts a structure that is not in the list in front of it.
pub register-Registered :
    (di : ℕ) (l : DynList) (xs : List ℕ)
    → di ≢ 0
    → has di xs ≡ false
    → Registered l xs
    → Registered (dyn_register di l) (di ∷ xs)
unfolding dyn_register
register-Registered di l xs valid new h =
    let N : (ℕ → Node) = set_next di l.first l.nodes in
    let M : (ℕ → Node) = set_prev di 0 N in
    let spared : Linked M 0 l.first xs =
      Linked-frame l.nodes M 0 l.first xs
        (λ y m.
          let other : (di == y) ≡ false = apart di y xs new m in
          let (next_n, prev_n, proc_n) = set_next_fields di l.first y l.nodes in
          let (next_m, prev_m, proc_m) = set_prev_fields di 0 y N in
          (
            next_m ∙ next_n ∙ ap (λ (b : Bool). if b then l.first else (l.nodes y).next) other,
            prev_m ∙ ap (λ (b : Bool). if b then 0 else (N y).prev) other ∙ prev_n,
          ))
        h in
    let self : (di == di) ≡ true = (==_iff di di).1 refl in
    let (next_d, prev_d, proc_d) = set_prev_if_fields l.first di di M valid in
    let not_first : (l.first == di) ≡ false = first_ne l.nodes 0 l.first xs h valid new in
    let (next_n, prev_n, proc_n) = set_next_fields di l.first di l.nodes in
    let (next_m, prev_m, proc_m) = set_prev_fields di 0 di N in
    let leads : (set_prev_if l.first di M di).next ≡ l.first =
      next_d ∙ next_m ∙ next_n ∙ ap (λ (b : Bool). if b then l.first else (l.nodes di).next) self in
    (
      refl,
      valid,
      prev_d
          ∙ ap (λ (b : Bool). if b then di else (M di).prev) not_first
          ∙ prev_m
          ∙ ap (λ (b : Bool). if b then 0 else (N di).prev) self,
      new,
      rw leads (Linked-set_prev M 0 di l.first xs spared),
    )
  where
    first_ne :
        (nodes : ℕ → Node) (prev p : ℕ) (ys : List ℕ)
        → Linked nodes prev p ys
        → di ≢ 0
        → has di ys ≡ false
        → (p == di) ≡ false
    first_ne nodes prev p [] e ne out = ground arith
    first_ne nodes prev p (y ∷ ys) (e, v, b, n, rest) ne out = ground arith
