-- ===== src/Common/Words.antt =====
-- 64-bit unsigned arithmetic, as Rust's checked and saturating operations, and SQLite's integers.
use Prim.Native.Nat.{ℕ, ◌+◌, ◌-◌, ◌*◌, ◌^◌, min}
use mathlib.Core.Bool.{Bool, ◌&&◌}
use mathlib.Core.Option.{Option, none, some}
use myc.Common.Tests.{ltb, leb, if◌then◌else◌}

abbrev pub u64_max : ℕ
u64_max = 0xffff_ffff_ffff_ffff

abbrev pub i64_max : ℕ
i64_max = 0x7fff_ffff_ffff_ffff

-- 32 bytes, read as a number: a digest, an id or a nonce.
abbrev pub Digest : Type 0
Digest = ℕ

-- `a.checked_add(b)` on u64.
abbrev pub checked_add : ℕ → ℕ → Option ℕ
checked_add a b = if leb (a + b) u64_max then some (a + b) else none

-- `a.checked_sub(b)` on u64.
abbrev pub checked_sub : ℕ → ℕ → Option ℕ
checked_sub a b = if leb b a then some (a - b) else none

-- `a.saturating_mul(b)` on u64.
abbrev pub saturating_mul : ℕ → ℕ → ℕ
saturating_mul a b = min (a * b) u64_max

-- `1_u64.checked_shl(e)`: no bit of 1 is lost below 64 places.
abbrev pub checked_shl_one : ℕ → Option ℕ
checked_shl_one e = if ltb e 64 then some (2 ^ e) else none

abbrev pub unwrap_or : Option ℕ → ℕ → ℕ
unwrap_or none d = d
unwrap_or (some n) d = n

-- A positive instant that SQLite can hold.
abbrev pub valid_time : ℕ → Bool
valid_time t = leb 1 t && leb t i64_max
