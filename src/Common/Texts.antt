-- ===== src/Common/Texts.antt =====
-- The bytes of an ASCII literal, and unsigned numbers in decimal.
pub mod Laws
use Prim.Native.Char.{code}
use Prim.Native.Nat.{ℕ, zero, suc, ◌+◌, ◌-◌, ◌*◌, ◌/◌, ◌%◌}
use Prim.Native.String.{String}
use mathlib.Core.Bool.{◌||◌}
use mathlib.Core.Option.{Option, none, some}
use mathlib.Core.List.{List, [], ◌∷◌}
use myc.Common.Tests.{ltb, ◌==◌, if◌then◌else◌}

-- The bytes of an ASCII literal.
abbrev pub bytes_of : String → List ℕ
bytes_of String.[] = []
bytes_of (String.◌∷◌ c s) = code c ∷ bytes_of s

-- The digits of a number of at most as many as the fuel, before `rest`.
unfoldable pub digits : ℕ → ℕ → List ℕ → List ℕ
digits zero n rest = rest
digits (suc fuel) n rest =
    let more = digits fuel (n / 10) ((b'0' + n % 10) ∷ rest) in
    if ltb n 10 then (b'0' + n) ∷ rest else more

-- `u32::to_string`: ten digits are enough.
unfoldable pub u32_to_string : ℕ → List ℕ
unfolding digits
u32_to_string n = digits 10 n []

-- The digits of `str::parse::<u32>` behind the number read so far.
unfoldable pub parse_digits : List ℕ → ℕ → Option ℕ
parse_digits [] n = some n
parse_digits (c ∷ cs) n =
    let rest = parse_digits cs (n * 10 + (c - b'0')) in
    if ltb c b'0' || ltb b'9' c
    then none
    else (if ltb 4_294_967_295 (n * 10 + (c - b'0')) then none else rest)

-- `str::parse::<u32>`: an optional plus sign, and one digit at least.
unfoldable pub parse_u32 : List ℕ → Option ℕ
unfolding parse_digits
parse_u32 [] = none
parse_u32 (c ∷ []) = if c == b'+' then none else parse_digits (c ∷ []) 0
parse_u32 (c ∷ d ∷ cs) = if c == b'+' then parse_digits (d ∷ cs) 0 else parse_digits (c ∷ d ∷ cs) 0

-- `str::strip_prefix`.
unfoldable pub strip_prefix : List ℕ → List ℕ → Option (List ℕ)
strip_prefix [] s = some s
strip_prefix (p ∷ ps) [] = none
strip_prefix (p ∷ ps) (c ∷ cs) = if p == c then strip_prefix ps cs else none
