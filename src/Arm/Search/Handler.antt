-- ===== src/Arm/Search/Handler.antt =====
-- What the search adds to the bounds of a function.
use libunwind.Prelude.{
  ℕ, ◌+◌, ◌%◌, ◌≡◌, refl, Bool, true, false, ◌==◌, if◌then◌else◌, Option, none, some,
}
use libunwind.Result.{Result, ok, err, stop}
use libunwind.Dwarf.Types.{arm_exidx}
use libunwind.Arm.{ArmSpace, ArmProcInfo, word32_mod, prel31_to_addr}
use libunwind.Arm.Extract.{is_compact}
use libunwind.Arm.Search.{attach_entry, if_ok, if_read, attach_handler}

-- The handler changes neither the bounds nor the entry.
abbrev pub Keeps : ArmProcInfo → ArmProcInfo → Type 0
Keeps pi p =
    (p.start_ip ≡ pi.start_ip)
    × (p.end_ip ≡ pi.end_ip)
    × (p.unwind_info ≡ pi.unwind_info)
    × (p.format ≡ pi.format)

if_read-Keeps :
    (o : Option ℕ) (pi : ArmProcInfo) (f : ℕ → ArmProcInfo)
    → ((v : ℕ) → Keeps pi (f v))
    → Keeps pi (if_read o pi f)
if_read-Keeps none pi f h = (refl, refl, refl, refl)
if_read-Keeps (some v) pi f h = h v

if_ok-Keeps :
    (r : Result ℕ) (pi : ArmProcInfo) (f : ℕ → ArmProcInfo)
    → ((v : ℕ) → Keeps pi (f v))
    → Keeps pi (if_ok r pi f)
if_ok-Keeps (ok v) pi f h = h v
if_ok-Keeps (err e) pi f h = (refl, refl, refl, refl)
if_ok-Keeps (stop s) pi f h = (refl, refl, refl, refl)

if-Keeps :
    (b : Bool) (pi : ArmProcInfo) (p : ArmProcInfo) → Keeps pi p → Keeps pi (if b then pi else p)
if-Keeps true pi p h = (refl, refl, refl, refl)
if-Keeps false pi p h = h

pub attach_handler-Keeps :
    (space : ArmSpace) (entry : ℕ) (pi : ArmProcInfo) → Keeps pi (attach_handler space entry pi)
unfolding attach_handler
attach_handler-Keeps space entry pi =
    if_read-Keeps (space.access_mem ((entry + 4) % word32_mod)) pi _ (λ word.
      if-Keeps (word == 1) pi _ (
        if-Keeps (is_compact word) pi _ (
          if_ok-Keeps (prel31_to_addr space ((entry + 4) % word32_mod)) pi _ (λ extbl.
            if_read-Keeps (space.access_mem extbl) pi _ (λ first. if-Keeps (is_compact first) pi _ (
              if_ok-Keeps (prel31_to_addr space extbl) pi _ (λ pers. (refl, refl, refl, refl))))))))

pub attach_entry-bounds :
    (need : Bool) (entry : ℕ) (pi : ArmProcInfo)
    → ((attach_entry need entry pi).start_ip ≡ pi.start_ip)
      × ((attach_entry need entry pi).end_ip ≡ pi.end_ip)
      × (need ≡ true → (attach_entry need entry pi).unwind_info ≡ entry)
      × (need ≡ true → (attach_entry need entry pi).format ≡ arm_exidx)
attach_entry-bounds true entry pi = (refl, refl, (λ wanted. refl), (λ wanted. refl))
attach_entry-bounds false entry pi = (refl, refl, (λ wanted. cc), (λ wanted. cc))
