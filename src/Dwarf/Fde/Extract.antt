-- ===== src/Dwarf/Fde/Extract.antt =====
-- Extracting the procedure's data from an FDE of an .eh_frame section.
use libunwind.Prelude.{
  ℕ, ◌+◌, ◌-◌, ◌%◌, ◌^◌, ◌≤◌, ◌<◌, ◌≡◌, ◌≢◌, Bool, refl, sym, ap, ◌∙◌, arith, ◌==◌, List, [], ◌∷◌,
  length, true, false, some,
}
use mathlib.Core.Path.{subst}
use libunwind.Prelude.Bits.{word_mod}
use libunwind.Prelude.Int.{signed, to_word}
use libunwind.Result.{ok}
use libunwind.Dwarf.Read.{AddrSpace}
use libunwind.Dwarf.Read.Bytes.{after, Holds, number, readu32-number}
use libunwind.Dwarf.Leb128.{dwarf_read_uleb128}
use libunwind.Dwarf.Leb128.Decode.{IsLeb128, groups, read_uleb128-groups}
use libunwind.Dwarf.Types.{CieInfo, ProcInfo, Format}
use libunwind.Dwarf.Pointer.{
  dw_eh_pe_omit, dwarf_read_encoded_pointer, read_encoded, read_format, apply_base, trim, follow,
}
use libunwind.Dwarf.Pointer.Relative.{reads32-number, read_encoded_pointer-pcrel_sdata4}
use libunwind.Dwarf.Fde.{
  is_cie_id, FdeHead, fde_head, cie_address, augmentation_end, read_marker, attach_info, fde_body,
  parse_cie, dwarf_extract_proc_info_from_fde,
}
use libunwind.Dwarf.Fde.Cie.{Holds-split}

-- A distance of less than 2 GB, subtracted.
cie_back :
    (from cie : ℕ)
    → from < word_mod
    → cie < word_mod
    → from < cie + 2 ^ 31
    → cie ≤ from + 2 ^ 31 - 1
    → (from + word_mod - to_word (signed 32 ((from + word_mod - cie) % 2 ^ 32))) % word_mod ≡ cie
cie_back from cie hf hc above below = ground arith

cie_back_nonzero :
    (from cie : ℕ)
    → from < word_mod
    → cie < word_mod
    → from < cie + 2 ^ 31
    → cie ≤ from + 2 ^ 31 - 1
    → from ≢ cie
    → to_word (signed 32 ((from + word_mod - cie) % 2 ^ 32)) ≢ 0
cie_back_nonzero from cie hf hc above below differ = ground arith

not_zero : (n : ℕ) → n ≢ 0 → (n == 0) ≡ false
not_zero n h = ground arith

module _ (space : AddrSpace) where
  fde_head-eh_frame :
      (addr n0 n1 n2 n3 o0 o1 o2 o3 : ℕ)
      → number space.big_endian (n0 ∷ n1 ∷ n2 ∷ n3 ∷ []) ≢ 0xffffffff
      → number space.big_endian (n0 ∷ n1 ∷ n2 ∷ n3 ∷ []) ≢ 0
      → Holds space addr (n0 ∷ n1 ∷ n2 ∷ n3 ∷ [])
      → Holds space (after addr 4) (o0 ∷ o1 ∷ o2 ∷ o3 ∷ [])
      → fde_head space addr
        ≡ ok (record {
          end = (after addr 4 + number space.big_endian (n0 ∷ n1 ∷ n2 ∷ n3 ∷ [])) % word_mod;
          offset_addr = after addr 4;
          cie_offset = to_word (signed 32 (number space.big_endian (o0 ∷ o1 ∷ o2 ∷ o3 ∷ [])));
          addr = after addr 8;
        })
  unfolding fde_head
  fde_head-eh_frame addr n0 n1 n2 n3 o0 o1 o2 o3 short nonzero h_len h_offset =
      let len : ℕ = number space.big_endian (n0 ∷ n1 ∷ n2 ∷ n3 ∷ []) in
      let no_escape : (len == 0xffffffff) ≡ Bool.false = ground arith in
      let no_end : (len == 0) ≡ Bool.false = ground arith in
      rw (
        readu32-number space addr n0 n1 n2 n3 h_len,
        no_escape,
        no_end,
        reads32-number space (after addr 4) o0 o1 o2 o3 h_offset,
      )

  -- A range is a number below 2^31, as it is stored.
  range-eq :
      (pi : ProcInfo) (a r0 r1 r2 r3 : ℕ)
      → space.addr_size ≡ 8
      → number space.big_endian (r0 ∷ r1 ∷ r2 ∷ r3 ∷ []) < 2 ^ 31
      → Holds space a (r0 ∷ r1 ∷ r2 ∷ r3 ∷ [])
      → dwarf_read_encoded_pointer space 0x0b pi a
        ≡ ok (number space.big_endian (r0 ∷ r1 ∷ r2 ∷ r3 ∷ []), after a 4)
  unfolding dwarf_read_encoded_pointer read_encoded read_format apply_base trim follow
  range-eq pi a r0 r1 r2 r3 size small holds =
      ground (arith, reads32-number space a r0 r1 r2 r3 holds)

  omitted :
      (pi : ProcInfo) (a : ℕ) → dwarf_read_encoded_pointer space dw_eh_pe_omit pi a ≡ ok (0, a)
  unfolding dwarf_read_encoded_pointer
  omitted pi a = refl

  -- The body of such an entry, from what each read returns.
  fde_body-eq :
      (pi : ProcInfo) (dci : CieInfo) (h : FdeHead)
      (fuel base size target range a1 a2 a3 aug_size : ℕ)
      → parse_cie space fuel (cie_address h base false) pi false ≡ ok dci
      → dci.fde_encoding ≡ 0x1b
      → dci.lsda_encoding ≡ dw_eh_pe_omit
      → dci.sized_augmentation ≡ true
      → dci.have_abi_marker ≡ false
      → dwarf_read_encoded_pointer space 0x1b pi h.addr ≡ ok (target, a1)
      → dwarf_read_encoded_pointer space 0x0b pi a1 ≡ ok (range, a2)
      → dwarf_read_uleb128 space a2 ≡ ok (aug_size, a3)
      → fde_body space fuel h base true true false size pi
        ≡ ok (record pi {
          start_ip = target;
          end_ip = (target + range) % word_mod;
          lsda = 0;
          handler = dci.handler;
          format = Format.table;
          unwind_info_size = size;
          unwind_info =
              some (record dci {
                fde_instr_start = (a3 + aug_size) % word_mod;
                fde_instr_end = h.end;
              });
        })
  unfolding fde_body augmentation_end attach_info read_marker
  fde_body-eq pi dci h fuel base size target range a1 a2 a3 aug_size parsed enc lsda sized marker e1
        e2 e3 =
      rw (parsed, enc, e1, e2, sized, e3, lsda, omitted, marker)

  -- Where memory of a 64-bit space holds an .eh_frame FDE with a 32-bit length, less than 2 GB from
  -- its CIE and from its function, and the CIE parses to one with the encoding of relative 32-bit
  -- pointers, sized augmentation data, no LSDA and no ABI marker: where
  -- unwind information is asked for and there is an object for it, the function returns the bounds of
  -- the function, the CIE with the place of the FDE's program, and the end of the entry.
  pub extract_proc_info-eh_frame :
      (pi : ProcInfo) (dci : CieInfo) (fuel addr cie target base size : ℕ)
      (n0 n1 n2 n3 o0 o1 o2 o3 p0 p1 p2 p3 r0 r1 r2 r3 : ℕ) (aug : List ℕ)
      → space.addr_size ≡ 8
      → number space.big_endian (n0 ∷ n1 ∷ n2 ∷ n3 ∷ []) ≢ 0xffffffff
      → number space.big_endian (n0 ∷ n1 ∷ n2 ∷ n3 ∷ []) ≢ 0
      → number space.big_endian (o0 ∷ o1 ∷ o2 ∷ o3 ∷ []) ≡ (after addr 4 + word_mod - cie) % 2 ^ 32
      → number space.big_endian (p0 ∷ p1 ∷ p2 ∷ p3 ∷ [])
        ≡ (target + word_mod - after addr 8) % 2 ^ 32
      → number space.big_endian (r0 ∷ r1 ∷ r2 ∷ r3 ∷ []) < 2 ^ 31
      → cie < word_mod
      → after addr 4 < cie + 2 ^ 31
      → cie ≤ after addr 4 + 2 ^ 31 - 1
      → after addr 4 ≢ cie
      → target < word_mod
      → target < after addr 8 + 2 ^ 31
      → after addr 8 ≤ target + 2 ^ 31
      → target ≢ after addr 8
      → IsLeb128 aug
      → length aug ≤ 10
      → parse_cie space fuel cie pi false ≡ ok dci
      → dci.fde_encoding ≡ 0x1b
      → dci.lsda_encoding ≡ dw_eh_pe_omit
      → dci.sized_augmentation ≡ true
      → dci.have_abi_marker ≡ false
      → Holds space addr
          (n0 ∷ n1 ∷ n2 ∷ n3 ∷ o0 ∷ o1 ∷ o2 ∷ o3 ∷ p0 ∷ p1 ∷ p2 ∷ p3 ∷ r0 ∷ r1 ∷ r2 ∷ r3 ∷ aug)
      → dwarf_extract_proc_info_from_fde space fuel addr pi base true true false size
        ≡ ok (
          record pi {
            start_ip = target;
            end_ip = (target + number space.big_endian (r0 ∷ r1 ∷ r2 ∷ r3 ∷ [])) % word_mod;
            lsda = 0;
            handler = dci.handler;
            format = Format.table;
            unwind_info_size = size;
            unwind_info = some (record dci {
              fde_instr_start =
                  (after (after addr 16) (length aug) + groups aug % word_mod) % word_mod;
              fde_instr_end =
                  (after addr 4 + number space.big_endian (n0 ∷ n1 ∷ n2 ∷ n3 ∷ [])) % word_mod;
            });
          },
          (after addr 4 + number space.big_endian (n0 ∷ n1 ∷ n2 ∷ n3 ∷ [])) % word_mod,
        )
  unfolding dwarf_extract_proc_info_from_fde is_cie_id
  extract_proc_info-eh_frame pi dci fuel addr cie target base size n0 n1 n2 n3 o0 o1 o2 o3 p0 p1 p2
        p3 r0 r1 r2 r3 aug width short nonzero offset pointer range cie_word above below differ
        target_word t_above t_below t_differ aug_ok aug_short parsed enc lsda sized marker holds =
      let len : ℕ = number space.big_endian (n0 ∷ n1 ∷ n2 ∷ n3 ∷ []) in
      let extent : ℕ = number space.big_endian (r0 ∷ r1 ∷ r2 ∷ r3 ∷ []) in
      let head : FdeHead = record {
        end = (after addr 4 + len) % word_mod;
        offset_addr = after addr 4;
        cie_offset = to_word (signed 32 (number space.big_endian (o0 ∷ o1 ∷ o2 ∷ o3 ∷ [])));
        addr = after addr 8;
      } in
      let (h_n, rest) =
        Holds-split space addr (n0 ∷ n1 ∷ n2 ∷ n3 ∷ [])
          (o0 ∷ o1 ∷ o2 ∷ o3 ∷ p0 ∷ p1 ∷ p2 ∷ p3 ∷ r0 ∷ r1 ∷ r2 ∷ r3 ∷ aug) holds in
      let (h_o, rest1) =
        Holds-split space (after addr 4) (o0 ∷ o1 ∷ o2 ∷ o3 ∷ [])
          (p0 ∷ p1 ∷ p2 ∷ p3 ∷ r0 ∷ r1 ∷ r2 ∷ r3 ∷ aug) rest in
      let (h_p, rest2) =
        Holds-split space (after addr 8) (p0 ∷ p1 ∷ p2 ∷ p3 ∷ []) (r0 ∷ r1 ∷ r2 ∷ r3 ∷ aug) rest1 in
      let (h_r, h_aug) = Holds-split space (after addr 12) (r0 ∷ r1 ∷ r2 ∷ r3 ∷ []) aug rest2 in
      let from_small : after addr 4 < word_mod = omega arith in
      let at_cie : cie_address head base false ≡ cie =
        ap (λ (o : ℕ). (after addr 4 + word_mod - to_word (signed 32 o)) % word_mod) offset
        ∙ cie_back (after addr 4) cie from_small cie_word above below in
      let offset_nonzero : head.cie_offset ≢ 0 =
        subst (λ (o : ℕ). to_word (signed 32 o) ≢ 0) (sym offset)
          (cie_back_nonzero (after addr 4) cie from_small cie_word above below differ) in
      let no_cie_id : (head.cie_offset == 0) ≡ false = not_zero head.cie_offset offset_nonzero in
      rw (
        fde_head-eh_frame addr n0 n1 n2 n3 o0 o1 o2 o3 short nonzero h_n h_o,
        no_cie_id,
        fde_body-eq pi dci head fuel base size target extent (after addr 12) (after addr 16)
            (after (after addr 16) (length aug)) (groups aug % word_mod)
            (ap (λ (a : ℕ). parse_cie space fuel a pi false) at_cie ∙ parsed) enc lsda sized marker
            (read_encoded_pointer-pcrel_sdata4 space pi (after addr 8) target p0 p1 p2 p3 width
              (omega arith) target_word t_above t_below t_differ h_p pointer)
            (range-eq pi (after addr 12) r0 r1 r2 r3 width range h_r)
            (read_uleb128-groups space (after addr 16) aug aug_ok aug_short h_aug),
      )
