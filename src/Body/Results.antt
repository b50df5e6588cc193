-- ===== src/Body/Results.antt =====
-- include/cql_body_result.hpp: the body of a RESULT message.
pub mod Column
pub mod Metadata
pub mod Rows
use uv_client_server.Base.{
  ℕ, zero, suc, ◌+◌, ◌-◌, ◌^◌, ◌≡◌, List, [], ◌∷◌, ◌++◌, Bool, true, false, not, Option, none, some,
  Result, ok, err, bad_alloc, assertion, ◌>>=◌, length, take, replicate, if◌then◌else◌, ltb, ◌==◌,
  bit_and, same_bytes,
}
use uv_client_server.Memory.{Bytes, Allocator}
use uv_client_server.Serialization.{decode_int}
use uv_client_server.Body.Block.{Prepared}
use Column.{
  ColumnMetaData, new_column, read_column, read_string, read_long_string, Sized, null_string, when,
  Reading,
}
use uv_client_server.Opcode.{opcode_result}

abbrev pub opcode : ℕ
opcode = opcode_result

abbrev pub kind_void : ℕ
kind_void = 1

abbrev pub kind_rows : ℕ
kind_rows = 2

abbrev pub kind_set_keyspace : ℕ
kind_set_keyspace = 3

abbrev pub kind_prepared : ℕ
kind_prepared = 4

abbrev pub kind_schema_change : ℕ
kind_schema_change = 5

abbrev pub flag_global_tablespec : ℕ
flag_global_tablespec = 1

abbrev pub flag_has_more_pages : ℕ
flag_has_more_pages = 2

abbrev pub flag_no_metadata : ℕ
flag_no_metadata = 4

pub record BodyResult : Type 0 where
  pub kind : ℕ
  pub more_pages : Bool
  pub no_metadata : Bool
  pub global_table_spec : Bool
  pub column_count : ℕ
  pub column_metadata : List ColumnMetaData
  pub column_index : List (Bytes × ℕ)
  pub page_state : Sized
  pub prepared : Sized
  pub change : Sized
  pub keyspace : Sized
  pub table : Sized
  pub row_count : ℕ
  pub rows : Bytes

abbrev pub new_result : BodyResult
new_result = record {
  kind = 0;
  more_pages = false;
  no_metadata = false;
  global_table_spec = true;
  column_count = 0;
  column_metadata = [];
  column_index = [];
  page_state = null_string;
  prepared = null_string;
  change = null_string;
  keyspace = null_string;
  table = null_string;
  row_count = 0;
  rows = [];
}

abbrev pub has_flag : ℕ → ℕ → Bool
has_flag flags flag = not (bit_and flags flag == 0)

-- `insert` of an unordered_map leaves the entry of a name that is there.
unfoldable pub index_insert : Bytes → ℕ → List (Bytes × ℕ) → List (Bytes × ℕ)
index_insert name i [] = (name, i) ∷ []
index_insert name i ((other, j) ∷ index) =
    if same_bytes name other then (other, j) ∷ index else (other, j) ∷ index_insert name i index

-- std::vector::resize, which throws on a size that was negative as an int32_t.
unfoldable pub resize : List ColumnMetaData → ℕ → Result (List ColumnMetaData)
resize columns n =
    if ltb n (2 ^ 31)
    then ok (take n columns ++ replicate (n - length columns) new_column)
    else err bad_alloc

unfoldable pub read_page_state : Reading BodyResult → Result (Reading BodyResult)
read_page_state (body, buffer) = do
  (page_state, rest) ← read_long_string buffer body.page_state
  ok (record body { page_state = page_state }, rest)

unfoldable pub read_global_spec : Reading BodyResult → Result (Reading BodyResult)
read_global_spec (body, buffer) = do
  (keyspace, buffer₁) ← read_string buffer body.keyspace
  (table, buffer₂) ← read_string buffer₁ body.table
  ok (record body { keyspace = keyspace; table = table }, buffer₂)

-- The loop of `parse_metadata`: column `i` next, `n` to go.
unfoldable pub read_columns : ℕ → ℕ → Reading BodyResult → Result (Reading BodyResult)
read_columns zero i (body, buffer) = ok (body, buffer)
read_columns (suc n) i (body, buffer) = do
  (meta, rest) ← read_column body.global_table_spec buffer
  read_columns n (i + 1) (
    record body {
      column_metadata = body.column_metadata ++ meta ∷ [];
      column_index = index_insert meta.name.0 i body.column_index;
    },
    rest,
  )

unfoldable pub read_metadata : Reading BodyResult → Result (Reading BodyResult)
read_metadata (body, buffer) = do
  columns ← resize body.column_metadata body.column_count
  read_columns body.column_count 0 (record body { column_metadata = columns }, buffer)

unfoldable pub parse_metadata : Reading BodyResult → Result (Reading BodyResult)
parse_metadata (body, input) = do
  (flags, buffer₁) ← decode_int input
  (column_count, buffer₂) ← decode_int buffer₁
  let more_pages = has_flag flags flag_has_more_pages
  let global_table_spec = has_flag flags flag_global_tablespec
  let no_metadata = has_flag flags flag_no_metadata
  (body₁, buffer₃) ←
      when more_pages read_page_state
        (record body { column_count = column_count; more_pages = more_pages }, buffer₂)
  (body₂, buffer₄) ←
      when global_table_spec read_global_spec
        (record body₁ { global_table_spec = global_table_spec }, buffer₃)
  when (not no_metadata) read_metadata (record body₂ { no_metadata = no_metadata }, buffer₄)

unfoldable pub parse_rows : BodyResult → Bytes → Result (BodyResult × Bool)
parse_rows body input = do
  (body', buffer) ← parse_metadata (body, input)
  (row_count, rows) ← decode_int buffer
  ok (record body' { row_count = row_count; rows = rows }, true)

unfoldable pub parse_set_keyspace : BodyResult → Bytes → Result (BodyResult × Bool)
parse_set_keyspace body input = do
  (keyspace, rest) ← read_string input body.keyspace
  ok (record body { keyspace = keyspace }, true)

unfoldable pub parse_prepared : BodyResult → Bytes → Result (BodyResult × Bool)
parse_prepared body input = do
  (prepared, buffer) ← read_string input body.prepared
  (body', rest) ← parse_metadata (record body { prepared = prepared }, buffer)
  ok (body', true)

unfoldable pub parse_schema_change : BodyResult → Bytes → Result (BodyResult × Bool)
parse_schema_change body input = do
  (change, buffer₁) ← read_string input body.change
  (keyspace, buffer₂) ← read_string buffer₁ body.keyspace
  (table, buffer₃) ← read_string buffer₂ body.table
  ok (record body { change = change; keyspace = keyspace; table = table }, true)

-- The `switch` of `consume`.
unfoldable pub parse_kind : ℕ → BodyResult → Bytes → Result (BodyResult × Bool)
parse_kind kind body buffer =
    if kind == kind_void
    then ok (body, true)
    else if kind == kind_rows
    then parse_rows body buffer
    else if kind == kind_set_keyspace
    then parse_set_keyspace body buffer
    else if kind == kind_prepared
    then parse_prepared body buffer
    else if kind == kind_schema_change
    then parse_schema_change body buffer
    else err assertion

unfoldable pub consume : BodyResult → Bytes → Result (BodyResult × Bool)
consume body input = do
  (kind, buffer) ← decode_int input
  parse_kind kind (record body { kind = kind }) buffer

-- `prepare` touches neither `*output` nor `size`.
unfoldable pub prepare : Allocator → ℕ → ℕ → Result Prepared
prepare alloc reserved size = ok (record { output = none; size = size; result = false })
