-- ===== src/Common/ControlSequence.antt =====
-- src/common/types/ControlSequence.cpp: the loops of `send` and `recv` over the results of the
-- `write` and `read` calls, which are given as a list. `none` is a call without a result.
use mws.Prelude.Bytes.{Bytes, codes}
use mws.Prelude.{
  Bool, true, ℕ, zero, suc, ◌+◌, ◌-◌, ◌≤◌, ◌≡◌, Option, none, some, List, [], ◌∷◌, All, arith, ◌==◌,
  if◌then◌else◌, ap, false, ◌∙◌,
}

-- DataFormat
pub data DataFormat : Type 0 where
  dataformat_default dataformat_unknown dataformat_xml dataformat_json : DataFormat

-- `operator<<`; DEFAULT_MIME_TYPE is text/xml.
unfoldable pub mime_type : DataFormat → Bytes
mime_type dataformat_xml = codes "text/xml"
mime_type dataformat_json = codes "application/json"
mime_type dataformat_default = codes "text/xml"
mime_type dataformat_unknown = codes "text/xml"

pub record ControlSequence : Type 0 where
  pub parsed : Bool
  pub format : DataFormat

abbrev pub new_sequence : ControlSequence
new_sequence = record { parsed = false; format = dataformat_default }

abbrev pub set_format : ControlSequence → DataFormat → ControlSequence
set_format s a_format = record s { parsed = true; format = a_format }

-- A ssize_t that is -1 or a number of bytes.
pub data IoResult : Type 0 where
  error : IoResult
  count : ℕ → IoResult

-- The loop of `send`.
unfoldable pub send_loop : List IoResult → ℕ → ℕ → Option IoResult
send_loop [] data_size bytes_written = if data_size == 0 then some (count bytes_written) else none
send_loop (nbytes ∷ calls) data_size bytes_written =
    if data_size == 0 then some (count bytes_written) else elim nbytes [
      | error ↦ some error
      | count n ↦ elim n [
        | zero ↦ some (count bytes_written)
        | suc m ↦ send_loop calls (data_size - suc m) (bytes_written + suc m)
      ]
    ]

unfoldable pub send : ℕ → List IoResult → Option IoResult
unfolding send_loop
send size calls = send_loop calls size 0

-- The loop of `recv`, which tests `bytes_read` where `send` tests `nbytes`.
unfoldable pub recv_loop : List IoResult → ℕ → ℕ → Option IoResult
recv_loop [] data_size bytes_read = if data_size == 0 then some (count bytes_read) else none
recv_loop (nbytes ∷ calls) data_size bytes_read =
    if data_size == 0 then some (count bytes_read) else elim bytes_read [
      | zero ↦ elim nbytes [ error ↦ some error | count n ↦ some (count 0) ]
      | suc m ↦ elim nbytes [
        | error ↦ recv_loop calls (data_size + 1) m
        | count n ↦ recv_loop calls (data_size - n) (suc m + n)
      ]
    ]

unfoldable pub recv : ℕ → List IoResult → Option IoResult
unfolding recv_loop
recv size calls = recv_loop calls size 0

-- Receiving a sequence that is not empty looks at the first read only: the result is -1 if that
-- read failed, and 0 however many bytes it delivered.
pub recv-first_call :
    (size : ℕ) (nbytes : IoResult) (calls : List IoResult)
    → 1 ≤ size
    → recv size (nbytes ∷ calls) ≡ some (elim nbytes [ error ↦ error | count n ↦ count 0 ])
unfolding recv recv_loop
recv-first_call size nbytes calls h =
    let more : size == 0 ≡ false = ground arith in rw (recv, more) (ground arith)

abbrev pub counts : List ℕ → List IoResult
counts [] = []
counts (n ∷ ns) = count n ∷ counts ns

abbrev pub sum : List ℕ → ℕ
sum [] = 0
sum (n ∷ ns) = n + sum ns

send_loop-sum :
    (ns : List ℕ) (written : ℕ)
    → All (λ n. 1 ≤ n) ns
    → send_loop (counts ns) (sum ns) written ≡ some (count (written + sum ns))
unfolding send_loop
send_loop-sum [] written a =
    let same : written ≡ written + 0 = omega arith in ap (λ z. some (count z)) same
send_loop-sum (zero ∷ ns) written a = absurd (omega (arith, a.0))
send_loop-sum (suc m ∷ ns) written a =
    let more : (suc m + sum ns) == 0 ≡ false = ground arith in
    let left : suc m + sum ns - suc m ≡ sum ns = omega arith in
    let same : written + suc m + sum ns ≡ written + (suc m + sum ns) = omega arith in
    rw (more, left) (send_loop-sum ns (written + suc m) a.1 ∙ ap (λ z. some (count z)) same)

-- If every write takes at least one byte and together they take the whole sequence, sending
-- returns its size.
pub send-counts :
    (ns : List ℕ) → All (λ n. 1 ≤ n) ns → send (sum ns) (counts ns) ≡ some (count (sum ns))
unfolding send
send-counts ns a =
    let same : 0 + sum ns ≡ sum ns = omega arith in
    send_loop-sum ns 0 a ∙ ap (λ z. some (count z)) same
