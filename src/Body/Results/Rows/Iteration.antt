-- ===== src/Body/Results/Rows/Iteration.antt =====
-- include/cql_body_result.hpp: iterating over the rows that a server writes.
use uv_client_server.Base.{
  ℕ, zero, suc, ◌+◌, ◌%◌, ◌^◌, ◌<◌, ◌≡◌, refl, sym, ap, ◌∙◌, append_assoc, List, [], ◌∷◌, ◌++◌,
  true, false, Result, ok, err, out_of_bounds, ◌>>=◌, length, take, take-length-append,
  if◌then◌else◌, is_negative, arith,
}
use uv_client_server.Memory.{Bytes, Pointer, be_32}
use uv_client_server.Memory.Emits.{at, advance-append}
use uv_client_server.Serialization.{int32}
use uv_client_server.Serialization.Encode.{wire_long_string}
use uv_client_server.Serialization.RoundTrip.{decode_int-be}
use uv_client_server.Body.Results.{BodyResult}
use uv_client_server.Body.Results.Rows.{
  Column, ResultIterator, move, forward, read_values, parse_row, new_iterator, next, at_least,
}

-- A row as a server writes it, and the rows.
abbrev pub wire_row : List Bytes → Bytes
wire_row [] = []
wire_row (v ∷ row) = wire_long_string v ++ wire_row row

abbrev pub wire_rows : List (List Bytes) → Bytes
wire_rows [] = []
wire_rows (row ∷ rows) = wire_row row ++ wire_rows rows

abbrev pub AllSmall : List Bytes → Type 0
AllSmall [] = Unit
AllSmall (v ∷ row) = (length v < 2 ^ 31) × AllSmall row

-- Rows of `n` columns whose values have a size that is not negative.
abbrev pub AllRows : ℕ → List (List Bytes) → Type 0
AllRows n [] = Unit
AllRows n (row ∷ rows) = (length row ≡ n) × AllSmall row × AllRows n rows

-- The values that the columns of a row point to.
abbrev pub values : List Column → List Bytes
values [] = []
values ((p, size) ∷ columns) = take size p.after ∷ values columns

-- What a client does that reads each row and then calls `next`, until that returns false.
unfoldable pub collect : ℕ → ResultIterator → Result (List (List Bytes))
collect zero it = err out_of_bounds
collect (suc n) it = do
  (it', more) ← next it
  if more then (do rows ← collect n it'; ok (values it.row ∷ rows)) else ok (values it.row ∷ [])

forward-append :
    (before v rest : Bytes)
    → forward (at before (v ++ rest)) (length v) ≡ ok (at (before ++ v) rest)
unfolding forward
forward-append before v rest = rw (advance-append v rest) refl

-- The columns of a row, `before` the bytes before it and `rest` those behind it.
abbrev columns_of : (before : Bytes) → List Bytes → (rest : Bytes) → List Column
columns_of before [] rest = []
columns_of before (v ∷ row) rest =
    (at (before ++ be_32 (length v)) (v ++ (wire_row row ++ rest)), length v)
    ∷ columns_of ((before ++ be_32 (length v)) ++ v) row rest

values-columns_of :
    (before : Bytes) (row : List Bytes) (rest : Bytes) → values (columns_of before row rest) ≡ row
values-columns_of before [] rest = refl
values-columns_of before (v ∷ row) rest =
    rw
      (
        take-length-append v (wire_row row ++ rest),
        values-columns_of ((before ++ be_32 (length v)) ++ v) row rest,
      )
      refl

end_of : (before : Bytes) → List Bytes → Bytes
end_of before [] = before
end_of before (v ∷ row) = end_of ((before ++ be_32 (length v)) ++ v) row

read_values-wire :
    (before : Bytes) (row : List Bytes) (rest : Bytes)
    → AllSmall row
    → read_values (length row) (at before (wire_row row ++ rest))
      ≡ ok (at (end_of before row) rest, columns_of before row rest)
unfolding read_values move end_of
read_values-wire before [] rest h = refl
read_values-wire before (v ∷ row) rest (h, hs) =
    let whole : int32 (length v) ≡ length v = omega arith in
    let positive : is_negative (length v) ≡ false = ground arith in
    rw
      (
        append_assoc v (wire_row row) rest,
        decode_int-be (length v) (v ++ (wire_row row ++ rest)),
        whole,
        positive,
        forward-append (before ++ be_32 (length v)) v (wire_row row ++ rest),
        read_values-wire ((before ++ be_32 (length v)) ++ v) row rest hs,
      )
      refl

parse_row-wire :
    (result : BodyResult) (before : Bytes) (row : List Bytes) (rest : Bytes)
    → result.column_count < 2 ^ 31
    → length row ≡ result.column_count
    → AllSmall row
    → parse_row result (at before (wire_row row ++ rest))
      ≡ ok (at (end_of before row) rest, columns_of before row rest)
unfolding parse_row
parse_row-wire result before row rest small count h =
    let positive : is_negative result.column_count ≡ false = ground arith in
    rw (positive, sym count) (read_values-wire before row rest h)

-- An iterator that stands at a row, with the rest to come.
abbrev standing :
    BodyResult
    → ℕ
    → Pointer
    → (before : Bytes) → (row : List Bytes) → (rest : Bytes) → ResultIterator
standing result i position before row rest = record {
  result = result;
  row_position = i;
  position = position;
  position_next = at (end_of before row) rest;
  row = columns_of before row rest;
}

module _ (result : BodyResult) (few_columns : result.column_count < 2 ^ 31)
    (few_rows : result.row_count < 2 ^ 31) (start : Pointer) where
  collect-rows :
      (i : ℕ) (before : Bytes) (row : List Bytes) (rows : List (List Bytes)) (tail : Bytes)
      → i + suc (length rows) ≡ result.row_count
      → AllRows result.column_count rows
      → collect (suc (length rows)) (standing result i start before row (wire_rows rows ++ tail))
        ≡ ok (row ∷ rows)
  unfolding collect next
  collect-rows i before row [] tail count h =
      let last : at_least ((i + 1) % 2 ^ 32) result.row_count ≡ true = ground arith in
      rw (last, values-columns_of before row tail) refl
  collect-rows i before row (row' ∷ rows) tail count (width, small, h) =
      let more : at_least ((i + 1) % 2 ^ 32) result.row_count ≡ false = ground arith in
      let later : (i + 1) % 2 ^ 32 ≡ i + 1 = omega arith in
      rw
        (
          more,
          later,
          append_assoc (wire_row row') (wire_rows rows) tail,
          parse_row-wire result (end_of before row) row' (wire_rows rows ++ tail) few_columns width
              small,
          collect-rows (i + 1) (end_of before row) row' rows tail (omega arith) h,
          values-columns_of before row (wire_row row' ++ (wire_rows rows ++ tail)),
        )
        refl

-- The iterator over a result of one row or more, as many as the result says, each with as many
-- values as the result has columns, in the form in which a server writes them, no value null: a
-- client that reads a row and then calls `next`, until that returns false, reads those rows, and
-- `next` returns false behind the last.
pub collect-new_iterator :
    (result : BodyResult) (before tail : Bytes) (row : List Bytes) (rows : List (List Bytes))
    → result.rows ≡ wire_rows (row ∷ rows) ++ tail
    → result.row_count ≡ length (row ∷ rows)
    → result.row_count < 2 ^ 31
    → result.column_count < 2 ^ 31
    → AllRows result.column_count (row ∷ rows)
    → (new_iterator before result >>= collect (length (row ∷ rows))) ≡ ok (row ∷ rows)
unfolding new_iterator
collect-new_iterator result before tail row rows wire count few_rows few_columns (width, small, h) =
    let positive : is_negative result.column_count ≡ false = ground arith in
    let parsed : parse_row result (at before result.rows)
        ≡ ok (
          at (end_of before row) (wire_rows rows ++ tail),
          columns_of before row (wire_rows rows ++ tail),
        ) =
      ap (λ b. parse_row result (at before b))
        (wire ∙ append_assoc (wire_row row) (wire_rows rows) tail)
      ∙ parse_row-wire result before row (wire_rows rows ++ tail) few_columns width small in
    rw (positive, parsed)
      (collect-rows result few_columns few_rows (at before result.rows) 0 before row rows tail
        (omega (arith, count)) h)
