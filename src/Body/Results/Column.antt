-- ===== src/Body/Results/Column.antt =====
-- include/cql_body_result.hpp: the metadata of one column.
use uv_client_server.Base.{ℕ, [], Bool, true, false, not, ◌||◌, Result, ok, ◌>>=◌, ◌==◌, bit_and}
use uv_client_server.Memory.{Bytes}
use uv_client_server.Serialization.{decode_string, decode_long_string, decode_option}

abbrev pub type_unknown : ℕ
type_unknown = 0xFFFF

abbrev pub type_list : ℕ
type_list = 0x0020

abbrev pub type_map : ℕ
type_map = 0x0021

abbrev pub type_set : ℕ
type_set = 0x0022

-- A pointer and the size that goes with it, as the bytes and the size; none stands for NULL.
abbrev pub Sized : Type 0
Sized = Bytes × ℕ

abbrev pub null_string : Sized
null_string = ([], 0)

pub record ColumnMetaData : Type 0 where
  pub type : ℕ
  pub keyspace : Sized
  pub table : Sized
  pub name : Sized
  pub class_name : Sized
  pub collection_primary_type : ℕ
  pub collection_primary_class : Sized
  pub collection_secondary_type : ℕ
  pub collection_secondary_class : Sized

abbrev pub new_column : ColumnMetaData
new_column = record {
  type = type_unknown;
  keyspace = null_string;
  table = null_string;
  name = null_string;
  class_name = null_string;
  collection_primary_type = type_unknown;
  collection_primary_class = null_string;
  collection_secondary_type = type_unknown;
  collection_secondary_class = null_string;
}

-- decode_string and decode_long_string into a pointer and its size.
unfoldable pub read_string : Bytes → Sized → Result (Sized × Bytes)
read_string buffer (old, size) = do
  (s, size', rest) ← decode_string buffer size
  ok ((s, size'), rest)

unfoldable pub read_long_string : Bytes → Sized → Result (Sized × Bytes)
read_long_string buffer (old, size) = do
  (s, size', rest) ← decode_long_string buffer size
  ok ((s, size'), rest)

abbrev pub has_flag : ℕ → ℕ → Bool
has_flag flags flag = not (bit_and flags flag == 0)

-- `if (test)` round a step that may read on.
abbrev pub when {ℓ} : {S : Type ℓ} → Bool → (S → Result S) → S → Result S
when true step s = step s
when false step s = ok s

abbrev pub Reading : Type 0 → Type 0
Reading A = A × Bytes

unfoldable pub read_table_spec : Reading ColumnMetaData → Result (Reading ColumnMetaData)
read_table_spec (meta, buffer) = do
  (keyspace, buffer₁) ← read_string buffer meta.keyspace
  (table, buffer₂) ← read_string buffer₁ meta.table
  ok (record meta { keyspace = keyspace; table = table }, buffer₂)

unfoldable pub read_primary : Reading ColumnMetaData → Result (Reading ColumnMetaData)
read_primary (meta, buffer) = do
  (type, class_name, buffer₁) ←
      decode_option buffer meta.collection_primary_class.0 meta.collection_primary_class.1
  ok (
    record meta { collection_primary_type = type; collection_primary_class = class_name },
    buffer₁,
  )

unfoldable pub read_secondary : Reading ColumnMetaData → Result (Reading ColumnMetaData)
read_secondary (meta, buffer) = do
  (type, class_name, buffer₁) ←
      decode_option buffer meta.collection_secondary_class.0 meta.collection_secondary_class.1
  ok (
    record meta { collection_secondary_type = type; collection_secondary_class = class_name },
    buffer₁,
  )

-- The body of the loop of `parse_metadata`, up to the insertions.
unfoldable pub read_column : Bool → Bytes → Result (Reading ColumnMetaData)
read_column global_table_spec buffer = do
  (meta₁, buffer₁) ← when (not global_table_spec) read_table_spec (new_column, buffer)
  (name, buffer₂) ← read_string buffer₁ meta₁.name
  (type, class_name, buffer₃) ← decode_option buffer₂ meta₁.class_name.0 meta₁.class_name.1
  let meta₂ : ColumnMetaData = record meta₁ { name = name; type = type; class_name = class_name }
  let is_collection : Bool = type == type_set || (type == type_list || type == type_map)
  (meta₃, buffer₄) ← when is_collection read_primary (meta₂, buffer₃)
  when (type == type_map) read_secondary (meta₃, buffer₄)
