-- ===== src/Result.antt =====
-- What a call comes to: include/libunwind-common.h.in (`unw_error_t`), and the ends of a run that
-- C gives no value.
use mathlib.Core.Path.{subst}
use libunwind.Prelude.{◌≡◌, refl, Bool, true, false, if◌then◌else◌}

-- `UNW_ESUCCESS` is the constructor `ok` below.
pub data Error : Type 0 where
  unspec nomem badreg readonlyreg stopunwind invalidip badframe inval badversion noinfo : Error

-- `aborted`: `abort ()` or a failed `assert`. `undefined`: C leaves the operation undefined, as a
-- shift by the word's width or a division that traps. `out_of_bounds`: an array index past the
-- end. `out_of_fuel`: the loop has not ended within the rounds that the model was given.
pub data Stop : Type 0 where
  aborted undefined out_of_bounds out_of_fuel : Stop

pub data Result {ℓ} (A : Type ℓ) : Type ℓ where
  ok : A → Result A
  err : Error → Result A
  stop : Stop → Result A

-- The rest of a function runs on a value only.
infixl 5 ◌>>=◌
abbrev pub ◌>>=◌ {ℓ κ} : {A : Type ℓ} {B : Type κ} → Result A → (A → Result B) → Result B
stop s >>= k = stop s
err e >>= k = err e
ok a >>= k = k a

-- What came before a value.
pub >>=-eq-ok {ℓ κ} :
    {A : Type ℓ} {B : Type κ} (m : Result A) (k : A → Result B) {v : B}
    → (m >>= k) ≡ ok v
    → (a : A) × (m ≡ ok a) × (k a ≡ ok v)
>>=-eq-ok (stop s) k h = cc
>>=-eq-ok (err e) k h = cc
>>=-eq-ok (ok a) k h = (a, refl, h)

-- The call neither runs out of fuel nor leaves an array.
abbrev pub Safe {ℓ} : {A : Type ℓ} → Result A → Type 0
Safe (stop out_of_fuel) = ⊥
Safe (stop aborted) = Unit
Safe (stop undefined) = Unit
Safe (stop out_of_bounds) = ⊥
Safe (ok a) = Unit
Safe (err e) = Unit

pub Safe-bind {ℓ κ} :
    {A : Type ℓ} {B : Type κ} (m : Result A) (f : A → Result B)
    → Safe m
    → ((a : A) → Safe (f a))
    → Safe (m >>= f)
Safe-bind (ok a) f h k = k a
Safe-bind (err e) f h k = tt
Safe-bind (stop aborted) f h k = tt
Safe-bind (stop undefined) f h k = tt
Safe-bind (stop out_of_bounds) f h k = h
Safe-bind (stop out_of_fuel) f h k = h

pub Safe-if {ℓ} :
    {A : Type ℓ} (b : Bool) (m n : Result A) → Safe m → Safe n → Safe (if b then m else n)
Safe-if true m n h k = h
Safe-if false m n h k = k

-- The rest of a function matters only at what the first part returns.
pub bind_ext {ℓ κ} :
    {A : Type ℓ} {B : Type κ} (m : Result A) (f g : A → Result B)
    → ((a : A) → f a ≡ g a)
    → (m >>= f) ≡ (m >>= g)
bind_ext (ok a) f g h = h a
bind_ext (err e) f g h = refl
bind_ext (stop s) f g h = refl

pub bind_ok {ℓ} : {A : Type ℓ} (m : Result A) → (m >>= ok) ≡ m
bind_ok (ok a) = refl
bind_ok (err e) = refl
bind_ok (stop s) = refl

pub bind_assoc {ℓ κ μ} :
    {A : Type ℓ} {B : Type κ} {C : Type μ} (m : Result A) (f : A → Result B) (g : B → Result C)
    → ((m >>= f) >>= g) ≡ (m >>= (λ a. f a >>= g))
bind_assoc (ok a) f g = refl
bind_assoc (err e) f g = refl
bind_assoc (stop s) f g = refl

-- What holds of the value, where the call gives one.
abbrev pub Gives {ℓ κ} : {A : Type ℓ} → (A → Type κ) → Result A → Type κ
Gives P (ok a) = P a
Gives P (err e) = Unit
Gives P (stop s) = Unit

pub Gives-bind {ℓ κ μ ν} :
    {A : Type ℓ} {B : Type κ} (P : A → Type μ) (Q : B → Type ν) (m : Result A) (k : A → Result B)
    → Gives P m
    → ((a : A) → P a → Gives Q (k a))
    → Gives Q (m >>= k)
Gives-bind P Q (ok a) k h f = f a h
Gives-bind P Q (err e) k h f = tt
Gives-bind P Q (stop s) k h f = tt

-- Where nothing need be known of the first value.
pub Gives-bind_any {ℓ κ ν} :
    {A : Type ℓ} {B : Type κ} (Q : B → Type ν) (m : Result A) (k : A → Result B)
    → ((a : A) → Gives Q (k a))
    → Gives Q (m >>= k)
Gives-bind_any Q (ok a) k f = f a
Gives-bind_any Q (err e) k f = tt
Gives-bind_any Q (stop s) k f = tt

pub Gives-if {ℓ κ} :
    {A : Type ℓ} (P : A → Type κ) (b : Bool) (m n : Result A)
    → (b ≡ true → Gives P m)
    → (b ≡ false → Gives P n)
    → Gives P (if b then m else n)
Gives-if P true m n h k = h refl
Gives-if P false m n h k = k refl

pub Gives-eq {ℓ κ} :
    {A : Type ℓ} (P : A → Type κ) (m : Result A) (a : A) → Gives P m → m ≡ ok a → P a
Gives-eq P m a h e = subst (Gives P) e h

-- The rest knows what the first part returned.
pub Gives-bind_eq {ℓ κ ν} :
    {A : Type ℓ} {B : Type κ} (Q : B → Type ν) (m : Result A) (k : A → Result B)
    → ((a : A) → m ≡ ok a → Gives Q (k a))
    → Gives Q (m >>= k)
Gives-bind_eq Q (ok a) k f = f a refl
Gives-bind_eq Q (err e) k f = tt
Gives-bind_eq Q (stop s) k f = tt
