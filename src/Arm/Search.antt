-- ===== src/Arm/Search.antt =====
-- src/arm/Gex_tables.c, arm_search_unwind_table: the search of the .ARM.exidx section.
pub mod Loop
pub mod Handler
pub mod Function
use libunwind.Prelude.{
  ℕ, zero, suc, ◌+◌, ◌-◌, ◌*◌, ◌/◌, ◌%◌, ◌^◌, Bool, true, false, ltb, leb, ◌==◌, if◌then◌else◌,
  Option, none, some,
}
use libunwind.Result.{Result, ok, err, stop, noinfo, out_of_fuel, ◌>>=◌}
use libunwind.Dwarf.Types.{Format}
use libunwind.Dwarf.Search.{DynInfo}
use libunwind.Arm.{ArmSpace, ArmProcInfo, word32_mod, prel31_to_addr}
use libunwind.Arm.Extract.{is_compact}

-- The middle of the loop, in 32 bits.
unfoldable pub middle : (first last : ℕ) → ℕ
middle first last =
    (first + (((last + word32_mod - first) % word32_mod) / 8 + 1) / 2 * 8) % word32_mod

-- `while (first < last - 8)`
unfoldable pub search_loop : ArmSpace → (ip fuel first last : ℕ) → Result ℕ
search_loop space ip zero first last =
    if ltb first ((last + word32_mod - 8) % word32_mod) then stop out_of_fuel else ok first
search_loop space ip (suc fuel) first last =
    let entry = middle first last in
    let rest = search_loop space ip fuel in
    if ltb first ((last + word32_mod - 8) % word32_mod)
    then (do
      val ← prel31_to_addr space entry
      rest (if ltb ip val then first else entry) (if ltb ip val then entry else last))
    else ok first

-- Fewer than 2^29 entries of 8 bytes have addresses of 32 bits, and a round halves their number.
abbrev pub search_rounds : ℕ
search_rounds = 32

-- A failure of the first read is `-UNW_ENOINFO`.
abbrev pub below_table : Result ℕ → Result ℕ
below_table (ok v) = ok v
below_table (err e) = err noinfo
below_table (stop s) = stop s

-- The entry and the bounds of its function.
unfoldable pub find_entry : ArmSpace → (ip : ℕ) → DynInfo → ArmProcInfo → Result (ℕ × ArmProcInfo)
find_entry space ip di pi = do
  let first = di.table_data
  let last = (di.table_data + di.table_len + word32_mod - 8) % word32_mod
  val ← below_table (prel31_to_addr space first)
  if ltb ip val then err noinfo else do
    val ← prel31_to_addr space last
    if leb val ip
        then (do
          start ← prel31_to_addr space last
          ok (
            last,
            record pi { start_ip = start; end_ip = (di.end_ip + word32_mod - 1) % word32_mod },
          ))
        else (do
          entry ← search_loop space ip search_rounds first last
          start ← prel31_to_addr space entry
          end ← prel31_to_addr space ((entry + 8) % word32_mod)
          ok (entry, record pi { start_ip = start; end_ip = (end + word32_mod - 1) % word32_mod }))

abbrev pub attach_entry : (need : Bool) → (entry : ℕ) → ArmProcInfo → ArmProcInfo
attach_entry need entry pi =
    if need
    then record pi { unwind_info_size = 8; unwind_info = entry; format = Format.arm_exidx }
    else pi

-- A failed read here is no error: the call leaves the rest as it is.
abbrev pub if_ok : Result ℕ → ArmProcInfo → (ℕ → ArmProcInfo) → ArmProcInfo
if_ok (ok v) pi f = f v
if_ok (err e) pi f = pi
if_ok (stop s) pi f = pi

abbrev pub if_read : Option ℕ → ArmProcInfo → (ℕ → ArmProcInfo) → ArmProcInfo
if_read none pi f = pi
if_read (some v) pi f = f v

-- The personality routine and its data, of an entry of the generic model.
unfoldable pub attach_handler : ArmSpace → (entry : ℕ) → ArmProcInfo → ArmProcInfo
attach_handler space entry pi = if_read (space.access_mem ((entry + 4) % word32_mod)) pi (λ word.
    if word == 1
    then pi
    else if is_compact word
    then pi
    else if_ok (prel31_to_addr space ((entry + 4) % word32_mod)) pi (λ extbl.
      if_read (space.access_mem extbl) pi (λ first.
        if is_compact first
        then pi
        else record (if_ok (prel31_to_addr space extbl) pi (λ pers. record pi { handler = pers })) {
          lsda = extbl;
        })))

unfoldable pub arm_search_unwind_table :
    ArmSpace → (ip : ℕ) → DynInfo → ArmProcInfo → (need : Bool) → Result ArmProcInfo
arm_search_unwind_table space ip di pi need = do
  (entry, pi) ← find_entry space ip di pi
  ok (attach_handler space entry (attach_entry need entry pi))
