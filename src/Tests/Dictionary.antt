-- ===== src/Tests/Dictionary.antt =====
-- The dictionary with the meanings of two constants.
use mws.Prelude.{◌≡◌, refl, [], ◌∷◌, some, All, nat_eq, arith}
use mws.Prelude.Tests.{list_eq}
use mws.Prelude.Bytes.{Bytes, codes}
use mws.Common.IdDictionary.{
  IdDictionary, get, put, find_entry, reverse_lookup_table, reverse_get, load, save,
}
use mws.Common.IdDictionary.Laws.{IsValid, put-IsValid}
use mws.Common.IdDictionary.Reverse.{keys_of, reverse_get-get}
use mws.Common.IdDictionary.Save.{IsWritable, load-save}

abbrev pub plus : Bytes
plus = codes "plus#"

abbrev pub x_name : Bytes
x_name = codes "ci#x"

abbrev pub two_meanings : IdDictionary Bytes
two_meanings = record { entries = (plus, 1) ∷ (x_name, 2) ∷ []; next_id = 3 }

pub two_meanings-IsValid : IsValid two_meanings
unfolding list_eq
two_meanings-IsValid = record {
  numbered = (refl, (refl, tt), (refl, tt, tt));
  next = refl;
  fits = omega arith;
}

pub get_x : get two_meanings x_name ≡ 2
unfolding get find_entry list_eq
get_x = refl

put-IsValid_example : IsValid (put two_meanings (codes "cn#1")).0
put-IsValid_example = put-IsValid two_meanings (codes "cn#1") two_meanings-IsValid (omega arith)

reverse_get-get_example :
    reverse_get (reverse_lookup_table [] two_meanings) (get two_meanings x_name) ≡ some x_name
reverse_get-get_example =
    reverse_get-get two_meanings [] x_name two_meanings-IsValid (λ z. omega (arith, get_x, z))

writable : All IsWritable (keys_of two_meanings.entries)
writable = (
  record { nonempty = λ h. cc; no_nul = ground arith },
  (record { nonempty = λ h. cc; no_nul = ground arith }, tt),
)

load-save_example : load (save two_meanings) ≡ two_meanings
load-save_example = load-save two_meanings two_meanings-IsValid writable
