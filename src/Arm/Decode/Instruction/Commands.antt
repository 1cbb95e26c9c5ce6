-- ===== src/Arm/Decode/Instruction/Commands.antt =====
-- The decoder reads the encoding of an instruction as its command.
use libunwind.Prelude.{
  ℕ, zero, suc, ◌+◌, ◌*◌, ◌/◌, ◌%◌, ◌^◌, ◌≤◌, ◌<◌, ◌≡◌, refl, ap, ◌∙◌, arith, true, false, ltb, leb,
  ◌&&◌, if◌then◌else◌, List, [], ◌∷◌, ◌++◌, length, bit_or,
}
use libunwind.Prelude.Bits.{bit_or-disjoint, bit_or_comm}
use libunwind.Result.{ok}
use libunwind.Dwarf.Leb128.Decode.{IsLeb128, groups}
use libunwind.Arm.{word32_mod}
use libunwind.Arm.Apply.{Cmd, ExbufData}
use libunwind.Arm.Decode.{
  read_offset, decode_reg_mask, decode_low_mask, reg_range, vfp_double, decode_vfp, decode_high,
  decode_op,
}
use libunwind.Arm.Decode.Instruction.{
  Instr, add_vsp, sub_vsp, pop_masked, set_vsp, pop_range, pop_low, add_vsp_far, pop_fstmx,
  pop_fstmx8, pop_double, pop_double8, IsValid, head, tail,
}

abbrev pub command_of : Instr → ExbufData
command_of (add_vsp n) = record { cmd = Cmd.data_pop; value = n * 4 + 4 }
command_of (sub_vsp n) = record { cmd = Cmd.data_push; value = n * 4 + 4 }
command_of (pop_masked m) = record { cmd = Cmd.reg_pop; value = m * 16 }
command_of (set_vsp r) = record { cmd = Cmd.reg_to_sp; value = r }
command_of (pop_range n lr) = record {
  cmd = Cmd.reg_pop;
  value = reg_range (if lr then 0xa8 + n else 0xa0 + n);
}
command_of (pop_low m) = record { cmd = Cmd.reg_pop; value = m }
command_of (add_vsp_far bs) = record {
  cmd = Cmd.data_pop;
  value = (groups bs * 4 + 0x204) % word32_mod;
}
command_of (pop_fstmx first count) = record { cmd = Cmd.vfp_pop; value = first * 16 + count }
command_of (pop_fstmx8 n) = record { cmd = Cmd.vfp_pop; value = 8 * 16 + n }
command_of (pop_double first count) = record {
  cmd = Cmd.vfp_pop;
  value = first * 16 + count + vfp_double;
}
command_of (pop_double8 n) = record { cmd = Cmd.vfp_pop; value = 8 * 16 + n + vfp_double }

or_eight : (n : ℕ) → n < 8 → bit_or 0x80 n ≡ 0x80 + n
or_eight zero h = refl
or_eight (suc zero) h = refl
or_eight (suc (suc zero)) h = refl
or_eight (suc (suc (suc zero))) h = refl
or_eight (suc (suc (suc (suc zero)))) h = refl
or_eight (suc (suc (suc (suc (suc zero))))) h = refl
or_eight (suc (suc (suc (suc (suc (suc zero)))))) h = refl
or_eight (suc (suc (suc (suc (suc (suc (suc zero))))))) h = refl
or_eight (suc (suc (suc (suc (suc (suc (suc (suc n)))))))) h = absurd (omega arith)

or_double : (x : ℕ) → x < 2 ^ 17 → bit_or x vfp_double ≡ x + vfp_double
or_double x h = bit_or-disjoint 17 x 1 h

-- A round of the loop at shift `s`, with a byte before the last one and with the last one.
pub read_offset-more :
    (b offset s next : ℕ) (buf : List ℕ)
    → 128 ≤ b
    → ltb s 32 && ltb (b % 128 * 2 ^ s) (2 ^ 31) ≡ true
    → offset < 2 ^ s
    → offset + b % 128 * 2 ^ s ≡ next
    → read_offset (b ∷ buf) offset s ≡ read_offset buf next ((s + 7) % 256)
unfolding read_offset
read_offset-more b offset s next buf h fits low sum =
    let more : leb 128 b ≡ true = ground arith in
    rw (fits, more, bit_or-disjoint s offset (b % 128) low, sum)

read_offset-last :
    (b offset s next : ℕ) (buf : List ℕ)
    → b < 128
    → ltb s 32 && ltb (b % 128 * 2 ^ s) (2 ^ 31) ≡ true
    → offset < 2 ^ s
    → offset + b % 128 * 2 ^ s ≡ next
    → read_offset (b ∷ buf) offset s ≡ ok (next, buf)
unfolding read_offset
read_offset-last b offset s next buf h fits low sum =
    let done : leb 128 b ≡ false = ground arith in
    rw (fits, done, bit_or-disjoint s offset (b % 128) low, sum)

pub read_offset-groups :
    (bs rest : List ℕ)
    → IsLeb128 bs
    → length bs ≤ 4
    → read_offset (bs ++ rest) 0 0 ≡ ok (groups bs, rest)
read_offset-groups [] rest h short = absurd h
read_offset-groups (b ∷ []) rest h short =
    read_offset-last b 0 0 (groups (b ∷ [])) rest h (ground arith) (omega arith) (omega arith)
read_offset-groups (b ∷ c ∷ []) rest (hb, hc) short =
    read_offset-more b 0 0 (b % 128) (c ∷ rest) hb (ground arith) (omega arith) (omega arith)
    ∙ read_offset-last c (b % 128) 7 (groups (b ∷ c ∷ [])) rest hc (ground arith) (omega arith)
        (omega arith)
read_offset-groups (b ∷ c ∷ d ∷ []) rest (hb, (hc, hd)) short =
    let two : ℕ = groups (b ∷ c ∷ []) in
    read_offset-more b 0 0 (b % 128) (c ∷ d ∷ rest) hb (ground arith) (omega arith) (omega arith)
    ∙ read_offset-more c (b % 128) 7 two (d ∷ rest) hc (ground arith) (omega arith) (omega arith)
    ∙ read_offset-last d two 14 (groups (b ∷ c ∷ d ∷ [])) rest hd (ground arith) (omega arith)
        (omega arith)
read_offset-groups (b ∷ c ∷ d ∷ e ∷ []) rest (hb, (hc, (hd, he))) short =
    let two : ℕ = groups (b ∷ c ∷ []) in
    let three : ℕ = groups (b ∷ c ∷ d ∷ []) in
    read_offset-more b 0 0 (b % 128) (c ∷ d ∷ e ∷ rest) hb (ground arith) (omega arith)
      (omega arith)
    ∙ read_offset-more c (b % 128) 7 two (d ∷ e ∷ rest) hc (ground arith) (omega arith)
        (omega arith)
    ∙ read_offset-more d two 14 three (e ∷ rest) hd (ground arith) (omega arith) (omega arith)
    ∙ read_offset-last e three 21 (groups (b ∷ c ∷ d ∷ e ∷ [])) rest he (ground arith) (omega arith)
        (omega arith)
read_offset-groups (b ∷ c ∷ d ∷ e ∷ f ∷ bs) rest h short = absurd (omega arith)

pub decode_op-command :
    (i : Instr) (old : ℕ) (rest : List ℕ)
    → IsValid i
    → decode_op (head i) old (tail i ++ rest) ≡ ok (command_of i, rest)
unfolding decode_op decode_high decode_vfp decode_reg_mask decode_low_mask
decode_op-command (add_vsp n) old rest h = ground arith
decode_op-command (sub_vsp n) old rest h = ground arith
decode_op-command (pop_masked m) old rest (h, nonzero) =
    let joined : bit_or (m / 256 * 2 ^ 8) (m % 256) ≡ m =
      bit_or_comm (m / 256 * 2 ^ 8) (m % 256)
      ∙ bit_or-disjoint 8 (m % 256) (m / 256) (omega arith)
      ∙ omega arith in
    let high : (0x80 + m / 256) % 16 ≡ m / 256 = omega arith in
    ground (arith, ap (λ (x : ℕ). bit_or (x * 2 ^ 8) (m % 256)) high, joined)
decode_op-command (set_vsp r) old rest h = ground arith
decode_op-command (pop_range n true) old rest h = ground arith
decode_op-command (pop_range n false) old rest h = ground arith
decode_op-command (pop_low m) old rest h = ground arith
decode_op-command (add_vsp_far bs) old rest (wf, short) = rw (read_offset-groups bs rest wf short)
decode_op-command (pop_fstmx first count) old rest h = ground arith
decode_op-command (pop_fstmx8 n) old rest h =
    let low : (0xb8 + n) % 8 ≡ n = omega arith in
    ground (arith, ap (λ (x : ℕ). bit_or 0x80 x) low, or_eight n h)
decode_op-command (pop_double first count) old rest h =
    ground (arith, or_double (first * 16 + count) (omega arith))
decode_op-command (pop_double8 n) old rest h =
    let low : (0xd0 + n) % 8 ≡ n = omega arith in
    let eight : bit_or 0x80 ((0xd0 + n) % 8) ≡ 0x80 + n =
      ap (λ (x : ℕ). bit_or 0x80 x) low ∙ or_eight n h in
    ground (arith, ap (λ (x : ℕ). bit_or x vfp_double) eight, or_double (0x80 + n) (omega arith))
