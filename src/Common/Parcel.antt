-- ===== src/Common/Parcel.antt =====
-- src/common/types/Parcelable.cpp and src/mws/types/FormulaPath.hpp: strings packed with their
-- size in front, eight bytes from the lowest on, as `memcpy` of a size_t writes them on a
-- little-endian machine of 64 bits.
use mws.Prelude.{
  ℕ, zero, suc, ◌+◌, ◌*◌, ◌/◌, ◌%◌, ◌<◌, ◌≡◌, refl, Option, none, some, [], ◌∷◌, ◌++◌, arith,
  append_assoc, length, length-append, take, drop, take-append, drop-append, ltb, if◌then◌else◌,
}
use mws.Prelude.Bytes.{Bytes}
use mws.Prelude.Bits.{u64_mod}

pub record FormulaPath : Type 0 where
  pub xml_id : Bytes
  pub xpath : Bytes

abbrev pub sizeof_size_t : ℕ
sizeof_size_t = 8

-- `ParcelAllocator::reserve` of a string: the size that is reserved afterwards.
unfoldable pub reserve : ℕ → Bytes → ℕ
reserve size str = size + (sizeof_size_t + length str)

unfoldable pub get_parcelable_size : FormulaPath → ℕ
unfolding reserve
get_parcelable_size p = reserve (reserve 0 p.xml_id) p.xpath

-- The low bytes of a number, `n` of them.
unfoldable pub number_bytes : ℕ → ℕ → Bytes
number_bytes zero x = []
number_bytes (suc n) x = (x % 256) ∷ number_bytes n (x / 256)

unfoldable pub bytes_number : Bytes → ℕ
bytes_number [] = 0
bytes_number (b ∷ rest) = b + 256 * bytes_number rest

-- `ParcelEncoder::encode` of a string: what it writes behind `mCurr`.
unfoldable pub encode_string : Bytes → Bytes → Bytes
encode_string written str = written ++ (number_bytes sizeof_size_t (length str) ++ str)

unfoldable pub write_to_parcel : FormulaPath → Bytes
unfolding encode_string
write_to_parcel p = encode_string (encode_string [] p.xml_id) p.xpath

-- `ParcelDecoder::decode` of a string at `mCurr`: the string and what is behind it. `none` is a
-- read past the parcel.
unfoldable pub decode_string : Bytes → Option (Bytes × Bytes)
decode_string curr =
    let size = bytes_number (take sizeof_size_t curr) in
    let body = drop sizeof_size_t curr in
    if ltb (length curr) (sizeof_size_t + size) then none else some (take size body, drop size body)

unfoldable pub read_from_parcel : Bytes → Option (FormulaPath × Bytes)
unfolding decode_string
read_from_parcel curr = elim (decode_string curr) [
  | none ↦ none
  | some (xml_id, rest) ↦ elim (decode_string rest) [
    | none ↦ none
    | some (xpath, rest') ↦ some (record { xml_id = xml_id; xpath = xpath }, rest')
  ]
]

length-number_bytes : (n x : ℕ) → length (number_bytes n x) ≡ n
unfolding number_bytes
length-number_bytes zero x = refl
length-number_bytes (suc n) x = omega (arith, length-number_bytes n (x / 256))

bytes_number-number_bytes : (x : ℕ) → x < u64_mod → bytes_number (number_bytes 8 x) ≡ x
unfolding number_bytes bytes_number
bytes_number-number_bytes x h = omega arith

take-append_n : (n : ℕ) (xs ys : Bytes) → length xs ≡ n → take n (xs ++ ys) ≡ xs
take-append_n n xs ys h = rw (← h) (take-append xs ys)

drop-append_n : (n : ℕ) (xs ys : Bytes) → length xs ≡ n → drop n (xs ++ ys) ≡ ys
drop-append_n n xs ys h = rw (← h) (drop-append xs ys)

-- A string with its size in front.
packed : Bytes → Bytes
packed str = number_bytes 8 (length str) ++ str

length-packed : (str : Bytes) → length (packed str) ≡ 8 + length str
unfolding packed
length-packed str =
    omega
      (arith, length-append (number_bytes 8 (length str)) str, length-number_bytes 8 (length str))

write_to_parcel-packed : (p : FormulaPath) → write_to_parcel p ≡ packed p.xml_id ++ packed p.xpath
unfolding write_to_parcel encode_string packed
write_to_parcel-packed p = refl

-- A string that was written is read back, whatever follows it.
decode_string-packed :
    (str rest : Bytes)
    → length str < u64_mod
    → decode_string (packed str ++ rest) ≡ some (str, rest)
unfolding decode_string packed
decode_string-packed str rest h =
    let size = length-number_bytes 8 (length str) in
    let sum = length-append (number_bytes 8 (length str)) (str ++ rest) in
    rw
      (
        append_assoc (number_bytes 8 (length str)) str rest,
        take-append_n 8 (number_bytes 8 (length str)) (str ++ rest) size,
        drop-append_n 8 (number_bytes 8 (length str)) (str ++ rest) size,
        bytes_number-number_bytes (length str) h,
        take-append str rest,
        drop-append str rest,
      )
      (ground (arith, length-append str rest, sum, size))

-- A formula path whose strings have sizes that fit 64 bits is read back from its parcel, whatever
-- follows it.
pub read-write_to_parcel :
    (p : FormulaPath) (rest : Bytes)
    → length p.xml_id < u64_mod
    → length p.xpath < u64_mod
    → read_from_parcel (write_to_parcel p ++ rest) ≡ some (p, rest)
unfolding read_from_parcel
read-write_to_parcel p rest h k = rw (
  write_to_parcel-packed p,
  append_assoc (packed p.xml_id) (packed p.xpath) rest,
  decode_string-packed p.xml_id (packed p.xpath ++ rest) h,
  read_from_parcel,
  decode_string-packed p.xpath rest k,
)

-- The parcel of a formula path has exactly the size that was reserved for it.
pub length-write_to_parcel : (p : FormulaPath) → length (write_to_parcel p) ≡ get_parcelable_size p
unfolding get_parcelable_size
length-write_to_parcel p = rw (write_to_parcel-packed p) (
    omega (
      arith,
      length-append (packed p.xml_id) (packed p.xpath),
      length-packed p.xml_id,
      length-packed p.xpath,
    ))
