-- ===== src/Tests/Vector.antt =====
-- A vector of two tokens.
use mws.Prelude.{ℕ, ◌≡◌, refl, [], ◌∷◌, some}
use mws.Prelude.Bytes.{memcmp}
use Prim.Native.Nat.Ordering.{eq}
use mws.Types.VectorMap.Assign.{find-assign}
use mws.Types.VectorMap.{assign, VectorMap, find_index, find, insert}
use mws.Types.VectorMap.Keys.{IsSorted}
use mws.Types.VectorMap.Find.{position, find_index-eq-position}
use mws.Types.VectorMap.View.{inserted, find-insert}
use mws.Index.EncodedToken.{EncodedToken, encoded_token, token_comparator, token_bytes}

abbrev pub x_token : EncodedToken
x_token = encoded_token 163 0

abbrev pub y_token : EncodedToken
y_token = encoded_token 164 0

abbrev pub plus_token : EncodedToken
plus_token = encoded_token 162 2

abbrev two_entries : VectorMap EncodedToken ℕ
two_entries = (x_token, 7) ∷ (plus_token, 8) ∷ []

two_entries-IsSorted : IsSorted two_entries
unfolding memcmp token_comparator
two_entries-IsSorted = ((refl, tt), (tt, tt))

find_index-eq-position_example :
    find_index two_entries plus_token ≡ some (position plus_token two_entries)
find_index-eq-position_example = find_index-eq-position two_entries plus_token two_entries-IsSorted

find-insert_example :
    IsSorted (insert two_entries (y_token, 9)).0
    × (find (insert two_entries (y_token, 9)).0 y_token
        ≡ inserted y_token 9 y_token (find two_entries y_token))
find-insert_example = find-insert two_entries y_token y_token 9 two_entries-IsSorted

find-assign_example :
    find (assign two_entries x_token 9) y_token
    ≡ (elim (memcmp (token_bytes x_token) (token_bytes y_token)) [
      | eq ↦ some 9
      | _ ↦ find two_entries y_token
    ])
unfolding token_comparator
find-assign_example = find-assign two_entries x_token y_token 9 two_entries-IsSorted
