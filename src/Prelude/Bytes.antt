-- ===== src/Prelude/Bytes.antt =====
-- `std::string` and raw memory as lists of bytes, with the C library's `memcmp`.
use Prim.Native.Nat.{ℕ, compare, Ordering}
use Prim.Native.Nat.Ordering.{lt, eq, gt}
use Prim.Native.Char.{code}
use Prim.Native.String.{String}
use mathlib.Core.Path.{◌≡◌, refl}
use mathlib.Core.Bool.{Bool, true, false, ◌&&◌}
use mathlib.Core.List.{List, [], ◌∷◌}
use native.Mathlib.Omega.{arith}
use mws.Prelude.Lists.{length}
use mws.Prelude.Tests.{◌==◌}

abbrev pub Bytes : Type 0
Bytes = List ℕ

-- The bytes of an ASCII literal.
abbrev pub codes : String → Bytes
codes String.[] = []
codes (String.◌∷◌ c s) = code c ∷ codes s

-- The sign of `memcmp(a, b, n)`, for two blocks of the same size.
unfoldable pub memcmp : Bytes → Bytes → Ordering
memcmp [] _ = eq
memcmp (a ∷ as') [] = eq
memcmp (a ∷ as') (b ∷ bs) = elim (compare a b) [ lt ↦ lt | gt ↦ gt | eq ↦ memcmp as' bs ]

pub memcmp_refl : (a : Bytes) → memcmp a a ≡ eq
unfolding memcmp
memcmp_refl [] = refl
memcmp_refl (x ∷ a) = ground (arith, memcmp_refl a)

pub eq_of_memcmp : (a b : Bytes) → length a ≡ length b → memcmp a b ≡ eq → a ≡ b
unfolding memcmp
eq_of_memcmp [] [] n h = refl
eq_of_memcmp [] (y ∷ b) n h = absurd (omega arith)
eq_of_memcmp (x ∷ a) [] n h = absurd (omega arith)
eq_of_memcmp (x ∷ a) (y ∷ b) n h = ground (arith, eq_of_memcmp a b)

pub gt_of_memcmp : (a b : Bytes) → memcmp a b ≡ lt → memcmp b a ≡ gt
unfolding memcmp
gt_of_memcmp [] b h = cc
gt_of_memcmp (x ∷ a) [] h = cc
gt_of_memcmp (x ∷ a) (y ∷ b) h = ground (arith, gt_of_memcmp a b)

pub lt_of_memcmp : (a b : Bytes) → memcmp a b ≡ gt → memcmp b a ≡ lt
unfolding memcmp
lt_of_memcmp [] b h = cc
lt_of_memcmp (x ∷ a) [] h = cc
lt_of_memcmp (x ∷ a) (y ∷ b) h = ground (arith, lt_of_memcmp a b)

pub memcmp_trans : (a b c : Bytes) → memcmp a b ≡ lt → memcmp b c ≡ lt → memcmp a c ≡ lt
unfolding memcmp
memcmp_trans [] b c h k = cc
memcmp_trans (x ∷ a) [] c h k = cc
memcmp_trans (x ∷ a) (y ∷ b) [] h k = cc
memcmp_trans (x ∷ a) (y ∷ b) (z ∷ c) h k = ground (arith, memcmp_trans a b c)

-- `==` of strings.
unfoldable pub bytes_eq : Bytes → Bytes → Bool
bytes_eq [] [] = true
bytes_eq [] (y ∷ b) = false
bytes_eq (x ∷ a) [] = false
bytes_eq (x ∷ a) (y ∷ b) = (x == y) && bytes_eq a b

pub eq_of_bytes_eq : (a b : Bytes) → bytes_eq a b ≡ true → a ≡ b
unfolding bytes_eq
eq_of_bytes_eq [] [] h = refl
eq_of_bytes_eq [] (y ∷ b) h = cc
eq_of_bytes_eq (x ∷ a) [] h = cc
eq_of_bytes_eq (x ∷ a) (y ∷ b) h = ground (arith, eq_of_bytes_eq a b)

pub bytes_eq_refl : (a : Bytes) → bytes_eq a a ≡ true
unfolding bytes_eq
bytes_eq_refl [] = refl
bytes_eq_refl (x ∷ a) = ground (arith, bytes_eq_refl a)

pub bytes_eq_comm : (a b : Bytes) → bytes_eq a b ≡ bytes_eq b a
unfolding bytes_eq
bytes_eq_comm [] [] = refl
bytes_eq_comm [] (y ∷ b) = refl
bytes_eq_comm (x ∷ a) [] = refl
bytes_eq_comm (x ∷ a) (y ∷ b) = ground (arith, bytes_eq_comm a b)
