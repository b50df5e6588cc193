-- ===== src/Body/Results/Rows/Nulls.antt =====
-- include/cql_body_result.hpp: rows that the iterator cannot read.
use uv_client_server.Base.{
  ℕ, zero, suc, ◌+◌, ◌-◌, ◌%◌, ◌/◌, ◌^◌, ◌<◌, ◌≤◌, ◌≡◌, refl, sym, ◌∙◌, append_assoc, List, [], ◌∷◌,
  ◌++◌, true, false, Result, ok, err, out_of_bounds, ◌>>=◌, length, length-append, take, leb,
  is_negative, arith,
}
use uv_client_server.Memory.{Bytes, Pointer, offset, be_32, load_32}
use uv_client_server.Memory.Emits.{at, advance-append}
use uv_client_server.Serialization.{decode_int}
use uv_client_server.Serialization.RoundTrip.{decode_int-be}
use uv_client_server.Body.Results.{BodyResult}
use uv_client_server.Body.Results.Rows.{
  Column, ResultIterator, move, read_values, parse_row, new_iterator,
}

decode_int_short : (input : Bytes) → length input < 4 → decode_int input ≡ err out_of_bounds
unfolding decode_int load_32
decode_int_short [] h = refl
decode_int_short (a ∷ []) h = refl
decode_int_short (a ∷ b ∷ []) h = refl
decode_int_short (a ∷ b ∷ c ∷ []) h = refl
decode_int_short (a ∷ b ∷ c ∷ d ∷ rest) h = absurd (omega arith)

-- The iterator over a result of no rows, behind which the block has less than four bytes, with one
-- column or more: the constructor, which reads a row all the same, reads out of bounds.
pub new_iterator_empty :
    (result : BodyResult) (before : Bytes)
    → length result.rows < 4
    → 0 < result.column_count
    → result.column_count < 2 ^ 31
    → new_iterator before result ≡ err out_of_bounds
unfolding new_iterator parse_row read_values
new_iterator_empty result before short one few =
    let positive : is_negative result.column_count ≡ false = ground arith in
    rw (positive) (read_short result.column_count one)
  where
    built : Pointer × List Column → Result ResultIterator
    built r = ok (record {
      result = result;
      row_position = 0;
      position = at before result.rows;
      position_next = r.0;
      row = r.1;
    })

    read_short :
        (n : ℕ) → 0 < n → (read_values n (at before result.rows) >>= built) ≡ err out_of_bounds
    read_short zero h = absurd (omega arith)
    read_short (suc n) h = rw (decode_int_short result.rows short) refl

-- A null column, whose size is -1, moves the pointer one byte back.
move_null :
    (before : Bytes) (rest : Bytes)
    → move (at (before ++ be_32 (2 ^ 32 - 1)) rest) (2 ^ 32 - 1)
      ≡ ok (at (before ++ 0xFF ∷ 0xFF ∷ 0xFF ∷ []) (0xFF ∷ rest))
unfolding move offset
move_null before rest =
    let ones : Bytes = 0xFF ∷ 0xFF ∷ 0xFF ∷ [] in
    let block : (before ++ 0xFF ∷ ones) ++ rest ≡ (before ++ ones) ++ 0xFF ∷ rest =
      append_assoc before (0xFF ∷ ones) rest ∙ sym (append_assoc before ones (0xFF ∷ rest)) in
    let index : length (before ++ 0xFF ∷ ones) - 1 ≡ length (before ++ ones) =
      omega (arith, length-append before (0xFF ∷ ones), length-append before ones) in
    let inside : leb 1 (length (before ++ 0xFF ∷ ones)) ≡ true =
      ground (arith, length-append before (0xFF ∷ ones)) in
    rw (inside, block, index, advance-append (before ++ ones) (0xFF ∷ rest)) refl

-- The size that is read there.
decode_int_shifted :
    (n : ℕ) (rest : Bytes)
    → n < 256
    → decode_int (0xFF ∷ (be_32 n ++ rest)) ≡ ok (0xFF000000, n % 256 ∷ rest)
unfolding decode_int load_32
decode_int_shifted n rest h =
    let e : n / 16777216 % 256 ≡ 0 = omega arith in
    let f : n / 65536 % 256 ≡ 0 = omega arith in
    let g : n / 256 % 256 ≡ 0 = omega arith in rw (e, f, g) refl

move_front :
    (before after : Bytes)
    → length before < 2 ^ 24
    → move (at before after) 0xFF000000 ≡ err out_of_bounds
unfolding move
move_front before after h =
    let outside : leb 16777216 (length before) ≡ false = ground arith in rw outside refl

-- A row whose first column is null, and whose second has less than 256 bytes, in the first 2^24
-- bytes of its block: the size of the second column is read from one byte too far in front, where it is negative, and
-- `parse_row` leaves the block.
pub parse_row_null :
    (result : BodyResult) (before value rest : Bytes)
    → 2 ≤ result.column_count
    → result.column_count < 2 ^ 31
    → length value < 256
    → length before + 8 < 2 ^ 24
    → parse_row result (at before (be_32 (2 ^ 32 - 1) ++ be_32 (length value) ++ value ++ rest))
      ≡ err out_of_bounds
unfolding parse_row read_values
parse_row_null result before value rest two few h front =
    let positive : is_negative result.column_count ≡ false = ground arith in
    rw positive (read_two result.column_count two)
  where
    read_two :
        (n : ℕ)
        → 2 ≤ n
        → read_values n (at before (be_32 (2 ^ 32 - 1) ++ be_32 (length value) ++ value ++ rest))
          ≡ err out_of_bounds
    read_two zero h = absurd (omega arith)
    read_two (suc zero) h = absurd (omega arith)
    read_two (suc (suc n)) l =
        let tail : Bytes = be_32 (length value) ++ value ++ rest in
        let back : Bytes = before ++ 0xFF ∷ 0xFF ∷ 0xFF ∷ [] in
        let here : length (back ++ take 4 (0xFF ∷ tail)) < 2 ^ 24 = omega (
          arith,
          length-append back (take 4 (0xFF ∷ tail)),
          length-append before (0xFF ∷ 0xFF ∷ 0xFF ∷ []),
        ) in
        rw
          (
            decode_int-be (2 ^ 32 - 1) tail,
            move_null before tail,
            decode_int_shifted (length value) (value ++ rest) h,
            move_front (back ++ take 4 (0xFF ∷ tail)) (length value % 256 ∷ (value ++ rest)) here,
          )
          refl
