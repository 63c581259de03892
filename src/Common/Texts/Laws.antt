-- ===== src/Common/Texts/Laws.antt =====
-- Reading back a printed number, and what a stripped prefix says.
use Prim.Native.Nat.{ℕ, zero, suc, ◌+◌, ◌*◌, ◌/◌, ◌%◌, ◌≤◌, ◌<◌, ◌^◌}
use mathlib.Core.Path.{◌≡◌, refl, ◌∙◌}
use mathlib.Core.Logic.{inl, inr}
use mathlib.Core.Option.{some}
use mathlib.Core.List.{List, [], ◌∷◌, ◌++◌}
use native.Mathlib.Omega.{arith}
use myc.Common.Tests.{ltb, Bool-cases}
use myc.Common.Texts.{digits, u32_to_string, parse_digits, parse_u32, strip_prefix}

-- The digits of a number are read back in front of any others.
parse_digits-digits :
    (fuel n : ℕ) (rest : List ℕ)
    → n < 10 ^ fuel
    → n ≤ 4_294_967_295
    → parse_digits (digits fuel n rest) 0 ≡ parse_digits rest n
unfolding digits parse_digits
parse_digits-digits zero n rest h b = ground arith
parse_digits-digits (suc fuel) n rest h b = elim (Bool-cases (ltb n 10)) [
  | inl small ↦ ground arith
  | inr large ↦
      let low : n % 10 < 10 = omega arith in
      let whole : n / 10 * 10 + n % 10 ≡ n = omega arith in
      let smaller : n / 10 < 10 ^ fuel = omega arith in
      ground (arith, parse_digits-digits fuel (n / 10) ((b'0' + n % 10) ∷ rest) smaller)
]

abbrev StartsWithDigit : List ℕ → Type 0
StartsWithDigit [] = ⊥
StartsWithDigit (c ∷ cs) = (48 ≤ c)

digits-digit :
    (fuel n : ℕ) (rest : List ℕ) → StartsWithDigit rest → StartsWithDigit (digits fuel n rest)
unfolding digits
digits-digit zero n rest v = v
digits-digit (suc fuel) n rest v =
    ground (arith, digits-digit fuel (n / 10) ((b'0' + n % 10) ∷ rest))

u32_to_string-digit : (n : ℕ) → StartsWithDigit (u32_to_string n)
unfolding u32_to_string digits
u32_to_string-digit n = ground (arith, digits-digit 9 (n / 10) ((b'0' + n % 10) ∷ []))

parse_u32_digit : (s : List ℕ) → StartsWithDigit s → parse_u32 s ≡ parse_digits s 0
unfolding parse_u32
parse_u32_digit [] v = absurd v
parse_u32_digit (c ∷ []) v = ground arith
parse_u32_digit (c ∷ d ∷ cs) v = ground arith

-- `parse::<u32>` reads what `to_string` writes.
pub parse_u32-u32_to_string : (n : ℕ) → n ≤ 4_294_967_295 → parse_u32 (u32_to_string n) ≡ some n
unfolding u32_to_string parse_digits
parse_u32-u32_to_string n b =
    let e = parse_digits-digits 10 n [] (omega arith) b in
    parse_u32_digit (u32_to_string n) (u32_to_string-digit n) ∙ e ∙ refl

pub strip_prefix-eq-some :
    (prefix text rest : List ℕ) → strip_prefix prefix text ≡ some rest → prefix ++ rest ≡ text
unfolding strip_prefix
strip_prefix-eq-some [] text rest h = ground arith
strip_prefix-eq-some (p ∷ ps) [] rest h = ground arith
strip_prefix-eq-some (p ∷ ps) (c ∷ cs) rest h = ground (arith, strip_prefix-eq-some ps cs rest)
