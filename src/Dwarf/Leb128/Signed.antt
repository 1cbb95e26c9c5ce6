-- ===== src/Dwarf/Leb128/Signed.antt =====
-- What `dwarf_read_sleb128` returns: the groups as a number in two's complement.
use libunwind.Prelude.{
  ℕ, suc, ◌+◌, ◌-◌, ◌*◌, ◌%◌, ◌^◌, ◌≤◌, ◌<◌, ◌≡◌, sym, ap, ◌∙◌, Bool, true, false, arith, List, [],
  ◌∷◌, length, if◌then◌else◌, leb, ltb, ◌&&◌,
}
use libunwind.Prelude.Bits.{word_mod, test_bit}
use libunwind.Prelude.Power.{bit_or-shl, shift_seven}
use libunwind.Prelude.Int.{signed, to_word}
use libunwind.Result.{ok}
use libunwind.Dwarf.Read.{AddrSpace}
use libunwind.Dwarf.Read.Bytes.{after, Holds}
use libunwind.Dwarf.Leb128.{extend, dwarf_read_sleb128}
use libunwind.Dwarf.Leb128.Decode.{IsLeb128, groups, last, read_leb128_loop-start}
use native.Mathlib.Nat.{pow-suc, mod-eq_of_lt, pow-le-pow_right}

-- The width of `bs`, in bits.
abbrev pub width : List ℕ → ℕ
width bs = 7 * length bs

pow_next : (m : ℕ) → 2 ^ (7 * suc m) ≡ 128 * 2 ^ (7 * m)
pow_next m =
    let e : 7 * suc m ≡ 7 * m + 7 = omega arith in ap (λ (t : ℕ). 2 ^ t) e ∙ shift_seven (7 * m)

pow_half : (m : ℕ) → 2 ^ (7 * suc m - 1) ≡ 64 * 2 ^ (7 * m)
pow_half m =
    let e : 7 * suc m ≡ suc (7 * suc m - 1) = omega arith in
    omega (arith, ap (λ (t : ℕ). 2 ^ t) e, pow_next m, pow-suc 2 (7 * suc m - 1))

pub groups-width : (bs : List ℕ) → groups bs < 2 ^ width bs
groups-width [] = omega arith
groups-width (b ∷ bs) = omega (arith, groups-width bs, pow_next (length bs))

-- Bit 6 of the last byte is the top bit of the groups.
top_bit :
    (b : ℕ) (bs : List ℕ)
    → IsLeb128 (b ∷ bs)
    → test_bit (last (b ∷ bs)) 6 ≡ leb (64 * 2 ^ (7 * length bs)) (groups (b ∷ bs))
top_bit b [] h = ground arith
top_bit b (c ∷ bs) h = ground (arith, top_bit c bs h.1, pow_next (length bs))

-- Sign extension of `n < 2^s` from bit `s`.
extend-eq : (s n : ℕ) → s ≤ 64 → n < 2 ^ s → extend n s ≡ (n + (word_mod - 1) * 2 ^ s) % word_mod
extend-eq s n hs hn = bit_or-shl s n (word_mod - 1) hs hn

-- 2^s * (2^64 - 1) is -2^s modulo 2^64.
minus_pow :
    (s n : ℕ)
    → s ≤ 63
    → n < 2 ^ s
    → (n + (word_mod - 1) * 2 ^ s) % word_mod ≡ word_mod - 1 - (2 ^ s - 1 - n)
minus_pow s n hs hn =
    let small : 2 ^ s ≤ 2 ^ 63 = pow-le-pow_right (omega arith) hs in omega (arith, small)

-- What the function makes of `s` bits whose top bit is `b`.
sign_extend-signed :
    (s g : ℕ) (b : Bool)
    → s ≤ 63
    → g < 2 ^ s
    → b ≡ leb (2 ^ (s - 1)) g
    → (if ltb s 64 && b then extend (g % word_mod) s else g % word_mod) ≡ to_word (signed s g)
sign_extend-signed s g true hs hg hb =
    let small : 2 ^ s ≤ 2 ^ 63 = pow-le-pow_right (omega arith) hs in
    let low : g % word_mod ≡ g = omega arith in
    let low' : g % 2 ^ s ≡ g = mod-eq_of_lt hg in
    rw (low, low') (ground (arith, extend-eq s g, minus_pow s g))
sign_extend-signed s g false hs hg hb =
    let low' : g % 2 ^ s ≡ g = mod-eq_of_lt hg in rw low' (ground arith)

module _ (space : AddrSpace) where
  -- `dwarf_read_sleb128` reads any LEB128 number of `n` bytes, up to nine: it returns, as a 64-bit
  -- word, the number that the 7 * n bits of the groups stand for in two's complement, and the
  -- address behind the last byte.
  pub read_sleb128-signed :
      (addr : ℕ) (bs : List ℕ)
      → IsLeb128 bs
      → length bs ≤ 9
      → Holds space addr bs
      → dwarf_read_sleb128 space addr
        ≡ ok (to_word (signed (7 * length bs) (groups bs)), after addr (length bs))
  unfolding dwarf_read_sleb128
  read_sleb128-signed addr [] wf h holds = absurd wf
  read_sleb128-signed addr (b ∷ bs) wf h holds = rw (
    read_leb128_loop-start space addr (b ∷ bs) wf (omega arith) holds,
    ← sign_extend-signed (7 * length (b ∷ bs)) (groups (b ∷ bs)) (test_bit (last (b ∷ bs)) 6)
        (omega arith) (groups-width (b ∷ bs))
        (top_bit b bs wf ∙ ap (λ (t : ℕ). leb t (groups (b ∷ bs))) (sym (pow_half (length bs)))),
  )
