-- ===== src/Dyn/Runs.antt =====
-- Runs of registrations and cancellations, and what the search finds after them.
use libunwind.Prelude.{
  ℕ, zero, suc, ◌<◌, ◌≡◌, ◌≢◌, refl, ◌∙◌, arith, Bool, true, false, ◌==◌, if◌then◌else◌, List, [],
  ◌∷◌, length,
}
use libunwind.Result.{Result, err, noinfo}
use libunwind.Dyn.{
  DynProc, Node, DynList, DynFound, covers, dyn_register, dyn_cancel, extract_dynamic_proc_info,
  find_from, local_find_proc_info,
}
use libunwind.Dyn.Linked.{has, without, Linked, Registered, register-Registered}
use libunwind.Dyn.Unlinked.{cancel-Registered, register-proc, cancel-proc}

pub data Op : Type 0 where
  register cancel : ℕ → Op

unfoldable pub run : List Op → DynList → DynList
run [] l = l
run (register di ∷ ops) l = run ops (dyn_register di l)
run (cancel di ∷ ops) l = run ops (dyn_cancel di l)

-- What is registered after the operations, the latest first.
unfoldable pub run_list : List Op → List ℕ → List ℕ
run_list [] xs = xs
run_list (register di ∷ ops) xs = run_list ops (di ∷ xs)
run_list (cancel di ∷ ops) xs = run_list ops (without di xs)

-- The caller registers what is not registered, and cancels what is.
abbrev pub IsProper : List Op → List ℕ → Type 0
IsProper [] xs = Unit
IsProper (register di ∷ ops) xs = (di ≢ 0) × (has di xs ≡ false) × IsProper ops (di ∷ xs)
IsProper (cancel di ∷ ops) xs = (has di xs ≡ true) × IsProper ops (without di xs)

run-Registered :
    (ops : List Op) (l : DynList) (xs : List ℕ)
    → Registered l xs
    → IsProper ops xs
    → Registered (run ops l) (run_list ops xs)
      × ((y : ℕ) → y ≢ 0 → ((run ops l).nodes y).proc ≡ (l.nodes y).proc)
unfolding run run_list
run-Registered [] l xs h proper = (h, λ y _. refl)
run-Registered (register di ∷ ops) l xs h (valid, new, proper) =
    let (r, same) =
      run-Registered ops (dyn_register di l) (di ∷ xs) (register-Registered di l xs valid new h)
        proper in
    (r, λ y v. same y v ∙ register-proc di y l v)
run-Registered (cancel di ∷ ops) l xs h (inside, proper) =
    let (r, same) =
      run-Registered ops (dyn_cancel di l) (without di xs) (cancel-Registered di l xs inside h)
        proper in
    (r, λ y v. same y v ∙ cancel-proc di y l v)

module _
    (search : (di : ℕ) → DynProc → (ip : ℕ) → (need_unwind_info : Bool) → Result DynFound) where
  -- The first of these procedures that covers the address.
  unfoldable pub find_in :
      (procs : ℕ → DynProc) → (ip : ℕ) → (need_unwind_info : Bool) → List ℕ → Result DynFound
  find_in procs ip need [] = err noinfo
  find_in procs ip need (x ∷ xs) =
      if covers (procs x) ip
      then extract_dynamic_proc_info search ip x (procs x) need
      else find_in procs ip need xs

  find_from-find_in :
      (nodes : ℕ → Node) (procs : ℕ → DynProc) (ip : ℕ) (need : Bool) (fuel prev p : ℕ)
      (xs : List ℕ)
      → length xs < fuel
      → ((y : ℕ) → y ≢ 0 → (nodes y).proc ≡ procs y)
      → Linked nodes prev p xs
      → find_from search nodes ip need fuel p ≡ find_in procs ip need xs
  unfolding find_from find_in
  find_from-find_in nodes procs ip need zero prev p xs enough same h = absurd (omega arith)
  find_from-find_in nodes procs ip need (suc fuel) prev p [] enough same h =
      let null : (p == 0) ≡ true = ground arith in rw null
  find_from-find_in nodes procs ip need (suc fuel) prev p (x ∷ xs) enough same
        (at, valid, back, new, rest) =
      let some : (x == 0) ≡ false = ground arith in
      rw (
        at,
        some,
        same x valid,
        find_from-find_in nodes procs ip need fuel x (nodes x).next xs (omega arith) same rest,
      )

  -- From a list of registered procedures, registering others and cancelling registered ones, in any
  -- order, leaves the list of those that are registered then, the latest first; and with a round for
  -- each of them the search answers with the latest registered procedure that covers the address.
  pub run-finds :
      (ops : List Op) (l : DynList) (xs : List ℕ) (ip fuel : ℕ) (need : Bool)
      → Registered l xs
      → IsProper ops xs
      → length (run_list ops xs) < fuel
      → Registered (run ops l) (run_list ops xs)
        × (local_find_proc_info search (run ops l) ip need fuel
            ≡ find_in (λ y. (l.nodes y).proc) ip need (run_list ops xs))
  unfolding local_find_proc_info
  run-finds ops l xs ip fuel need h proper enough =
      let (registered, same) = run-Registered ops l xs h proper in
      (
        registered,
        find_from-find_in (run ops l).nodes (λ y. (l.nodes y).proc) ip need fuel 0 (run ops l).first
            (run_list ops xs) enough same registered,
      )
