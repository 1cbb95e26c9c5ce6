-- ===== src/Dyn/Unlinked.antt =====
-- Taking a structure out of the list of registered procedures.
use mathlib.Core.Path.{subst}
use libunwind.Prelude.{
  ℕ, ◌≡◌, ◌≢◌, refl, sym, ap, ◌∙◌, arith, Bool, true, false, ◌==◌, ==_iff, Bool-cases, inl, inr,
  ◌⊎◌, if◌then◌else◌, List, [], ◌∷◌,
}
use libunwind.Dyn.{Node, DynList, set_next, set_prev, set_prev_if, dyn_register, dyn_cancel}
use libunwind.Dyn.Linked.{
  has, without, Linked, Registered, Linked-frame, set_prev_fields, set_next_fields,
  set_prev_if_fields, apart, Linked-ne_zero, Linked-set_prev,
}

-- The `prev` field of a structure of the list.
prev_of :
    (nodes : ℕ → Node) (di prev p : ℕ) (xs : List ℕ)
    → Linked nodes prev p xs
    → has di xs ≡ true
    → ((p ≡ di) × ((nodes di).prev ≡ prev))
      ⊎ (((p == di) ≡ false) × (has (nodes di).prev xs ≡ true))
prev_of nodes di prev p [] h m = cc
prev_of nodes di prev p (x ∷ xs) (at, valid, back, new, rest) m = elim (Bool-cases (di == x)) [
  | inl same ↦
      let e : di ≡ x = (==_iff di x).0 same in
      inl (at ∙ sym e, ap (λ (t : ℕ). (nodes t).prev) e ∙ back)
  | inr other ↦ elim (prev_of nodes di x (nodes x).next xs rest (ground arith)) [
    | inl (first, prev_x) ↦ inr (ground arith, ground arith)
    | inr (later, inside) ↦ inr (ground arith, ground arith)
  ]
]

-- The `next` field of a structure of the list is NULL or leads on in the list.
next_of :
    (nodes : ℕ → Node) (di prev p : ℕ) (xs : List ℕ)
    → Linked nodes prev p xs
    → has di xs ≡ true
    → ((nodes di).next ≡ 0) ⊎ (has (nodes di).next xs ≡ true)
next_of nodes di prev p [] h m = cc
next_of nodes di prev p (x ∷ xs) (at, valid, back, new, rest) m = elim (Bool-cases (di == x)) [
  | inl same ↦
      let e : di ≡ x = (==_iff di x).0 same in
      elim (leads xs x (nodes x).next rest) [
        | inl null ↦ inl (ap (λ (t : ℕ). (nodes t).next) e ∙ null)
        | inr inside ↦
            let e' : (nodes di).next ≡ (nodes x).next = ap (λ (t : ℕ). (nodes t).next) e in
            inr (ap (λ (t : ℕ). has t (x ∷ xs)) e' ∙ weaken (nodes x).next inside)
      ]
  | inr other ↦ elim (next_of nodes di x (nodes x).next xs rest (ground arith)) [
    | inl null ↦ inl null
    | inr inside ↦ inr (ground arith)
  ]
]
  where
    weaken : (i : ℕ) → has i xs ≡ true → has i (x ∷ xs) ≡ true
    weaken i h = ground arith

    leads : (ys : List ℕ) (q i : ℕ) → Linked nodes q i ys → (i ≡ 0) ⊎ (has i ys ≡ true)
    leads [] q i h = inl h
    leads (y ∷ ys) q i (e, v, b, n, r) = inr (ground arith)

has-without : (z y : ℕ) (xs : List ℕ) → has z xs ≡ false → has z (without y xs) ≡ false
has-without z y [] h = refl
has-without z y (x ∷ xs) h = ground (arith, has-without z y xs)

pub not_has-without :
    (nodes : ℕ → Node) (prev p di : ℕ) (xs : List ℕ)
    → Linked nodes prev p xs
    → has di (without di xs) ≡ false
not_has-without nodes prev p di [] h = refl
not_has-without nodes prev p di (x ∷ xs) (at, valid, back, new, rest) =
    elim (Bool-cases (di == x)) [
      | inl same ↦ rw (same, (==_iff di x).0 same) new
      | inr other ↦ rw (other, other) (not_has-without nodes x (nodes x).next di xs rest)
    ]

-- Unlinking one structure, by its neighbours.
skipped : ℕ → (ℕ → Node) → ℕ → Node
skipped di nodes =
    if (nodes di).prev == 0 then nodes else set_next (nodes di).prev (nodes di).next nodes

unfoldable pub unlinked : ℕ → (ℕ → Node) → ℕ → Node
unfolding skipped
unlinked di nodes = set_prev_if (nodes di).next (nodes di).prev (skipped di nodes)

skipped_fields :
    (di y : ℕ) (nodes : ℕ → Node)
    → y ≢ 0
    → ((skipped di nodes y).next
        ≡ (if (nodes di).prev == y then (nodes di).next else (nodes y).next))
      × ((skipped di nodes y).prev ≡ (nodes y).prev)
      × ((skipped di nodes y).proc ≡ (nodes y).proc)
unfolding skipped
skipped_fields di y nodes h = elim (Bool-cases ((nodes di).prev == 0)) [
  | inl null ↦
      let other : ((nodes di).prev == y) ≡ false = ground arith in
      rw (null, other) (refl, refl, refl)
  | inr some ↦ rw some (set_next_fields (nodes di).prev (nodes di).next y nodes)
]

unlinked_fields :
    (di y : ℕ) (nodes : ℕ → Node)
    → y ≢ 0
    → ((unlinked di nodes y).next
        ≡ (if (nodes di).prev == y then (nodes di).next else (nodes y).next))
      × ((unlinked di nodes y).prev
          ≡ (if (nodes di).next == y then (nodes di).prev else (nodes y).prev))
      × ((unlinked di nodes y).proc ≡ (nodes y).proc)
unfolding unlinked
unlinked_fields di y nodes h =
    let (next_s, prev_s, proc_s) = skipped_fields di y nodes h in
    let (next_u, prev_u, proc_u) =
      set_prev_if_fields (nodes di).next (nodes di).prev y (skipped di nodes) h in
    (
      next_u ∙ next_s,
      prev_u ∙ ap (λ (v : ℕ). if (nodes di).next == y then (nodes di).prev else v) prev_s,
      proc_u ∙ proc_s,
    )

Linked-unlinked :
    (nodes : ℕ → Node) (di prev p : ℕ) (xs : List ℕ)
    → has di xs ≡ true
    → has prev xs ≡ false
    → Linked nodes prev p xs
    → Linked (unlinked di nodes) prev (if p == di then (nodes di).next else p) (without di xs)
unfolding unlinked
Linked-unlinked nodes di prev p [] m out h = cc
Linked-unlinked nodes di prev p (x ∷ xs) m out (at, valid, back, new, rest) =
    elim (Bool-cases (di == x)) [
      | inl same ↦
          let e : di ≡ x = (==_iff di x).0 same in
          let here : (p == di) ≡ true = (==_iff p di).1 (at ∙ sym e) in
          let back' : (nodes di).prev ≡ prev = ap (λ (t : ℕ). (nodes t).prev) e ∙ back in
          let next' : (nodes di).next ≡ (nodes x).next = ap (λ (t : ℕ). (nodes t).next) e in
          let spared : Linked (skipped di nodes) x (nodes x).next xs =
            Linked-frame nodes (skipped di nodes) x (nodes x).next xs
              (λ y m.
                let (next_y, prev_y, proc_y) =
                  skipped_fields di y nodes (Linked-ne_zero nodes x (nodes x).next xs y rest m) in
                let other : (prev == y) ≡ false = apart prev y xs (ground arith) m in
                (
                  next_y
                      ∙ ap (λ (v : ℕ). if v == y then (nodes di).next else (nodes y).next) back'
                      ∙ ap (λ (b : Bool). if b then (nodes di).next else (nodes y).next) other,
                  prev_y,
                ))
              rest in
          rw (same, here)
            (subst (λ (v : ℕ). Linked (unlinked di nodes) v (nodes di).next xs) back'
              (Linked-set_prev (skipped di nodes) x (nodes di).prev (nodes di).next xs
                (subst (λ (v : ℕ). Linked (skipped di nodes) x v xs) (sym next') spared)))
      | inr other ↦
          let m' : has di xs ≡ true = ground arith in
          let later : (p == di) ≡ false = ground arith in
          let ih = Linked-unlinked nodes di x (nodes x).next xs m' new rest in
          let (next_x, prev_x, proc_x) = unlinked_fields di x nodes valid in
          let not_next : ((nodes di).next == x) ≡ false =
            not_next_of xs (nodes x).next rest m' new valid in
          rw (other, later)
            (
              at,
              valid,
              prev_x
                  ∙ ap (λ (b : Bool). if b then (nodes di).prev else (nodes x).prev) not_next
                  ∙ back,
              has-without x di xs new,
              rw (next_x, next_agrees (prev_of nodes di x (nodes x).next xs rest m')) ih,
            )
    ]
  where
    not_next_of :
        (ys : List ℕ) (q : ℕ)
        → Linked nodes x q ys
        → has di ys ≡ true
        → has x ys ≡ false
        → x ≢ 0
        → ((nodes di).next == x) ≡ false
    not_next_of ys q h m n v = elim (next_of nodes di x q ys h m) [
      | inl null ↦ ground arith
      | inr inside ↦ ground (arith, apart x (nodes di).next ys n inside)
    ]

    next_agrees :
        (((nodes x).next ≡ di) × ((nodes di).prev ≡ x))
          ⊎ ((((nodes x).next == di) ≡ false) × (has (nodes di).prev xs ≡ true))
        → (if (nodes di).prev == x then (nodes di).next else (nodes x).next)
          ≡ (if (nodes x).next == di then (nodes di).next else (nodes x).next)
    next_agrees (inl (e, back)) = ground arith
    next_agrees (inr (differ, inside)) = ground (arith, apart x (nodes di).prev xs new inside)

-- Cancelling takes a structure of the list out of it.
pub cancel-Registered :
    (di : ℕ) (l : DynList) (xs : List ℕ)
    → has di xs ≡ true
    → Registered l xs
    → Registered (dyn_cancel di l) (without di xs)
unfolding dyn_cancel unlinked skipped
cancel-Registered di l xs m h =
    let U : (ℕ → Node) = unlinked di l.nodes in
    let M : (ℕ → Node) = set_prev di 0 U in
    let first_is : (if (l.nodes di).prev == 0 then (l.nodes di).next else l.first)
        ≡ (if l.first == di then (l.nodes di).next else l.first) =
      first_agrees (prev_of l.nodes di 0 l.first xs h m) in
    rw first_is (
      Linked-frame U (set_next di 0 M) 0 (if l.first == di then (l.nodes di).next else l.first)
        (without di xs)
        (λ y n.
          let other : (di == y) ≡ false =
            apart di y (without di xs) (not_has-without l.nodes 0 l.first di xs h) n in
          let (next_n, prev_n, proc_n) = set_next_fields di 0 y M in
          let (next_m, prev_m, proc_m) = set_prev_fields di 0 y U in
          (
            next_n ∙ ap (λ (b : Bool). if b then 0 else (M y).next) other ∙ next_m,
            prev_n ∙ prev_m ∙ ap (λ (b : Bool). if b then 0 else (U y).prev) other,
          ))
        (Linked-unlinked l.nodes di 0 l.first xs m no_null h))
  where
    no_null : has 0 xs ≡ false
    no_null = elim (Bool-cases (has 0 xs)) [
      | inl inside ↦ absurd (Linked-ne_zero l.nodes 0 l.first xs 0 h inside refl)
      | inr out ↦ out
    ]

    first_agrees :
        ((l.first ≡ di) × ((l.nodes di).prev ≡ 0))
          ⊎ (((l.first == di) ≡ false) × (has (l.nodes di).prev xs ≡ true))
        → (if (l.nodes di).prev == 0 then (l.nodes di).next else l.first)
          ≡ (if l.first == di then (l.nodes di).next else l.first)
    first_agrees (inl (at, back)) = ground arith
    first_agrees (inr (later, inside)) = ground (arith, apart 0 (l.nodes di).prev xs no_null inside)

-- Neither changes what a structure describes.
pub register-proc :
    (di y : ℕ) (l : DynList) → y ≢ 0 → ((dyn_register di l).nodes y).proc ≡ (l.nodes y).proc
unfolding dyn_register
register-proc di y l h =
    let N : (ℕ → Node) = set_next di l.first l.nodes in
    (set_prev_if_fields l.first di y (set_prev di 0 N) h).2
    ∙ (set_prev_fields di 0 y N).2
    ∙ (set_next_fields di l.first y l.nodes).2

pub cancel-proc :
    (di y : ℕ) (l : DynList) → y ≢ 0 → ((dyn_cancel di l).nodes y).proc ≡ (l.nodes y).proc
unfolding dyn_cancel unlinked skipped
cancel-proc di y l h =
    let U : (ℕ → Node) = unlinked di l.nodes in
    (set_next_fields di 0 y (set_prev di 0 U)).2
    ∙ (set_prev_fields di 0 y U).2
    ∙ (unlinked_fields di y l.nodes h).2
