-- ===== src/Prelude/Bits.antt =====
-- Powers of two of the C integer types.
use Prim.Native.Nat.{ℕ, ◌^◌}

abbrev pub u32_mod : ℕ
u32_mod = 2 ^ 32

abbrev pub u64_mod : ℕ
u64_mod = 2 ^ 64
