-- ===== src/Body/Results/Rows.antt =====
-- include/cql_body_result.hpp: the iterator over the rows of a result, as pointers into the block of
-- the body.
pub mod Iteration
pub mod Nulls
use uv_client_server.Base.{
  ℕ, zero, suc, ◌+◌, ◌-◌, ◌%◌, ◌^◌, ◌≡◌, List, [], ◌∷◌, ◌++◌, Bool, true, false, Result, ok, err,
  out_of_bounds, bad_alloc, ◌>>=◌, length, take, if◌then◌else◌, ltb, leb, is_negative,
  int32-to_size,
}
use uv_client_server.Memory.{Bytes, Pointer, advance, offset, block_of}
use uv_client_server.Serialization.{decode_int}
use uv_client_server.Body.Results.{BodyResult}

-- A pointer and a size_t.
abbrev pub Column : Type 0
Column = Pointer × ℕ

pub record ResultIterator : Type 0 where
  pub result : BodyResult
  pub row_position : ℕ
  pub position : Pointer
  pub position_next : Pointer
  pub row : List Column

-- buffer += size, for an int32_t: a negative size goes back.
unfoldable pub forward : Pointer → ℕ → Result Pointer
forward p n = do (s, rest) ← advance p.after n; ok (record { before = p.before ++ s; after = rest })

unfoldable pub move : Pointer → ℕ → Result Pointer
move p size =
    if is_negative size
    then (if leb (2 ^ 32 - size) (length p.before)
        then offset (block_of p) (length p.before - (2 ^ 32 - size))
        else err out_of_bounds)
    else forward p size

-- The loop of `parse_row`, with `n` columns to go.
unfoldable pub read_values : ℕ → Pointer → Result (Pointer × List Column)
read_values zero p = ok (p, [])
read_values (suc n) p = do
  (size, rest) ← decode_int p.after
  let buffer : Pointer = record { before = p.before ++ take 4 p.after; after = rest }
  next ← move buffer size
  (end, columns) ← read_values n next
  ok (end, (buffer, int32-to_size size) ∷ columns)

unfoldable pub parse_row : BodyResult → Pointer → Result (Pointer × List Column)
parse_row result row =
    read_values (if is_negative result.column_count then 0 else result.column_count) row

-- `before` is what lies before the rows in the block of the body. The vector `row` throws on a
-- negative count.
unfoldable pub new_iterator : Bytes → BodyResult → Result ResultIterator
new_iterator before result = if is_negative result.column_count then err bad_alloc else (do
  let position : Pointer = record { before = before; after = result.rows }
  (position_next, row) ← parse_row result position
  ok (record {
    result = result;
    row_position = 0;
    position = position;
    position_next = position_next;
    row = row;
  }))

-- a >= b, of int32_t
abbrev pub at_least : ℕ → ℕ → Bool
at_least a b = leb ((b + 2 ^ 31) % 2 ^ 32) ((a + 2 ^ 31) % 2 ^ 32)

unfoldable pub next : ResultIterator → Result (ResultIterator × Bool)
next it =
    let row_position = (it.row_position + 1) % 2 ^ 32 in
    if at_least row_position it.result.row_count
    then ok (record it { row_position = row_position }, false)
    else (do
      (position_next, row) ← parse_row it.result it.position_next
      ok (
        record it { row_position = row_position; position_next = position_next; row = row },
        true,
      ))
