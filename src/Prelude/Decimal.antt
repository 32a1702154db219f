-- ===== src/Prelude/Decimal.antt =====
-- `std::to_string` and `<<` of an unsigned number, and `>>` into one: decimal digits.
use Prim.Native.Nat.{ℕ, zero, suc, ◌+◌, ◌-◌, ◌*◌, ◌/◌, ◌%◌, ◌<◌}
use mathlib.Core.Path.{◌≡◌, refl, ◌∙◌, ap}
use mathlib.Core.Logic.{inl, inr}
use mathlib.Core.Bool.{Bool, true, false, ◌&&◌}
use mathlib.Core.List.{[], ◌∷◌, ◌++◌}
use mathlib.Core.Option.{Option, none, some}
use native.Mathlib.Omega.{arith}
use mws.Prelude.Tests.{ltb, leb, Bool-cases, if◌then◌else◌}
use mws.Prelude.Bytes.{Bytes, codes}

digits_loop : ℕ → ℕ → Bytes → Bytes
digits_loop zero n out = out
digits_loop (suc fuel) n out = elim (ltb n 10) [
  | true ↦ (48 + n) ∷ out
  | false ↦ digits_loop fuel (n / 10) ((48 + n % 10) ∷ out)
]

unfoldable pub to_string : ℕ → Bytes
unfolding digits_loop
to_string n = digits_loop (suc n) n []

abbrev pub is_digit : ℕ → Bool
is_digit c = leb 48 c && leb c 57

-- The digits at the front, as a number, and what follows them.
unfoldable pub scan_digits : ℕ → Bytes → ℕ × Bytes
scan_digits value [] = (value, [])
scan_digits value (c ∷ rest) =
    let more = scan_digits (value * 10 + (c - 48)) rest in
    if is_digit c then more else (value, c ∷ rest)

abbrev pub starts_with_digit : Bytes → Bool
starts_with_digit [] = false
starts_with_digit (c ∷ rest) = is_digit c

-- `stream >> number`; `none` is the failure of an extraction that meets no digit.
unfoldable pub read_number : Bytes → Option (ℕ × Bytes)
unfolding scan_digits
read_number input = if starts_with_digit input then some (scan_digits 0 input) else none

scan_digit :
    (value d : ℕ) (rest : Bytes)
    → d < 10
    → scan_digits value ((48 + d) ∷ rest) ≡ scan_digits (value * 10 + d) rest
unfolding scan_digits
scan_digit value d rest h =
    let test : is_digit (48 + d) ≡ true = ground arith in
    let cancel : value * 10 + (48 + d - 48) ≡ value * 10 + d = omega arith in
    ground (arith, ap (λ (x : ℕ). scan_digits x rest) cancel)

digits_loop_last :
    (fuel n : ℕ) (out : Bytes) → ltb n 10 ≡ true → digits_loop (suc fuel) n out ≡ (48 + n) ∷ out
unfolding digits_loop
digits_loop_last fuel n out h = rw (h, digits_loop)

digits_loop_step :
    (fuel n : ℕ) (out : Bytes)
    → ltb n 10 ≡ false
    → digits_loop (suc fuel) n out ≡ digits_loop fuel (n / 10) ((48 + n % 10) ∷ out)
unfolding digits_loop
digits_loop_step fuel n out h = rw (h, digits_loop)

scan-digits_loop :
    (fuel n : ℕ) (out rest : Bytes)
    → n < fuel
    → scan_digits 0 (digits_loop fuel n out ++ rest) ≡ scan_digits n (out ++ rest)
scan-digits_loop zero n out rest h = absurd (omega arith)
scan-digits_loop (suc fuel) n out rest h = elim (Bool-cases (ltb n 10)) [
  | inl small ↦ rw (digits_loop_last fuel n out small) (
      let e : 0 * 10 + n ≡ n = omega arith in
      scan_digit 0 n (out ++ rest) (ground arith) ∙ ap (λ (x : ℕ). scan_digits x (out ++ rest)) e)
  | inr large ↦ rw (digits_loop_step fuel n out large) (
      let e : n / 10 * 10 + n % 10 ≡ n = omega arith in
      scan-digits_loop fuel (n / 10) ((48 + n % 10) ∷ out) rest (ground arith)
      ∙ scan_digit (n / 10) (n % 10) (out ++ rest) (omega arith)
      ∙ ap (λ (x : ℕ). scan_digits x (out ++ rest)) e)
]

digits_loop-starts :
    (fuel n : ℕ) (out rest : Bytes)
    → n < fuel
    → starts_with_digit (digits_loop fuel n out ++ rest) ≡ true
digits_loop-starts zero n out rest h = absurd (omega arith)
digits_loop-starts (suc fuel) n out rest h = elim (Bool-cases (ltb n 10)) [
  | inl small ↦ rw (digits_loop_last fuel n out small) (ground arith)
  | inr large ↦
      rw (digits_loop_step fuel n out large)
        (digits_loop-starts fuel (n / 10) ((48 + n % 10) ∷ out) rest (ground arith))
]

scan_digits_stop :
    (n : ℕ) (rest : Bytes) → starts_with_digit rest ≡ false → scan_digits n rest ≡ (n, rest)
unfolding scan_digits
scan_digits_stop n [] h = refl
scan_digits_stop n (c ∷ rest) h = ground arith

pub starts_with_digit-to_string :
    (n : ℕ) (rest : Bytes) → starts_with_digit (to_string n ++ rest) ≡ true
unfolding to_string
starts_with_digit-to_string n rest = digits_loop-starts (suc n) n [] rest (omega arith)

-- A printed number reads back, up to what follows it.
pub read_number-to_string :
    (n : ℕ) (rest : Bytes)
    → starts_with_digit rest ≡ false
    → read_number (to_string n ++ rest) ≡ some (n, rest)
unfolding read_number to_string
read_number-to_string n rest h = rw (
  digits_loop-starts (suc n) n [] rest (omega arith),
  scan-digits_loop (suc n) n [] rest (omega arith),
  scan_digits_stop n rest h,
)

to_string_runs : to_string 1024 ≡ codes "1024"
unfolding to_string
to_string_runs = refl
