-- ===== src/Body/Results/Metadata.antt =====
-- What `parse_metadata` makes of the metadata of a server.
use uv_client_server.Base.{
  ℕ, zero, suc, ◌+◌, ◌^◌, ◌<◌, ◌≡◌, ◌≢◌, refl, sym, ap, ap₂, ◌∙◌, List, [], ◌∷◌, ◌++◌, append_assoc,
  append-nil, true, false, ok, ◌>>=◌, length, replicate, take, arith, ◌==◌, lt→ltb,
}
use uv_client_server.Memory.{Bytes, be_16, be_32}
use uv_client_server.Serialization.{decode_option, int16, int32}
use uv_client_server.Serialization.Encode.{wire_string}
use uv_client_server.Serialization.RoundTrip.{decode_short-be, decode_int-be, decode_string-wire}
use uv_client_server.Body.Results.{
  BodyResult, new_result, parse_metadata, read_metadata, read_columns, read_global_spec, resize,
  index_insert, flag_global_tablespec,
}
use uv_client_server.Body.Results.Column.{
  ColumnMetaData, new_column, read_column, read_string, type_list, type_map, type_set,
}

-- A column as the server writes it: its name and its type.
abbrev pub Column : Type 0
Column = Bytes × ℕ

-- A name that fits its length field, and a type that needs no more than its number.
abbrev pub IsPlain : Column → Type 0
IsPlain (name, type) =
    (length name < 2 ^ 16)
    × (type < 2 ^ 16)
    × (type ≢ 0)
    × (type ≢ type_list)
    × (type ≢ type_map)
    × (type ≢ type_set)

abbrev pub AllPlain : List Column → Type 0
AllPlain [] = Unit
AllPlain (column ∷ columns) = IsPlain column × AllPlain columns

abbrev pub wire_columns : List Column → Bytes
wire_columns [] = []
wire_columns ((name, type) ∷ columns) = wire_string name ++ (be_16 type ++ wire_columns columns)

abbrev pub metadata_of : Column → ColumnMetaData
metadata_of (name, type) = record new_column { type = type; name = (name, length name) }

abbrev pub metadata_of_all : List Column → List ColumnMetaData
metadata_of_all [] = []
metadata_of_all (column ∷ columns) = metadata_of column ∷ metadata_of_all columns

-- The index of the names, from column `i` on.
abbrev pub index_of : ℕ → List Column → List (Bytes × ℕ) → List (Bytes × ℕ)
index_of i [] index = index
index_of i ((name, type) ∷ columns) index = index_of (i + 1) columns (index_insert name i index)

take-nil {ℓ} : {A : Type ℓ} (n : ℕ) → take {A = A} n [] ≡ []
take-nil zero = refl
take-nil (suc n) = refl

read_column-wire :
    (name : Bytes) (type : ℕ) (rest : Bytes)
    → IsPlain (name, type)
    → read_column true (wire_string name ++ (be_16 type ++ rest))
      ≡ ok (metadata_of (name, type), rest)
unfolding read_column read_string decode_option
read_column-wire name type rest (short, small, not_custom, not_list, not_map, not_set) =
    let e : int16 type ≡ type = omega arith in
    let c₀ : (type == 0) ≡ false = ground arith in
    let c₁ : (type == type_set) ≡ false = ground arith in
    let c₂ : (type == type_list) ≡ false = ground arith in
    let c₃ : (type == type_map) ≡ false = ground arith in
    rw
      (
        decode_string-wire name (be_16 type ++ rest) short,
        decode_short-be type rest,
        e,
        c₀,
        c₁,
        c₂,
        c₃,
      )
      refl

read_columns-wire :
    (i : ℕ) (columns : List Column) (rest : Bytes) (body : BodyResult)
    → body.global_table_spec ≡ true
    → AllPlain columns
    → read_columns (length columns) i (body, wire_columns columns ++ rest)
      ≡ ok (
        record body {
          column_metadata = body.column_metadata ++ metadata_of_all columns;
          column_index = index_of i columns body.column_index;
        },
        rest,
      )
unfolding read_columns
read_columns-wire i [] rest body global plain =
    ap (λ xs. ok (record body { column_metadata = xs }, rest))
      (sym (append-nil body.column_metadata))
read_columns-wire i ((name, type) ∷ columns) rest body global plain =
    let shape : wire_columns ((name, type) ∷ columns) ++ rest
        ≡ wire_string name ++ (be_16 type ++ (wire_columns columns ++ rest)) =
      simp append_assoc in
    let next : BodyResult = record body {
      column_metadata = body.column_metadata ++ metadata_of (name, type) ∷ [];
      column_index = index_insert name i body.column_index;
    } in
    let read : read_column body.global_table_spec (wire_columns ((name, type) ∷ columns) ++ rest)
        ≡ ok (metadata_of (name, type), wire_columns columns ++ rest) =
      ap (λ b. read_column b (wire_columns ((name, type) ∷ columns) ++ rest)) global
      ∙ ap (read_column true) shape
      ∙ read_column-wire name type (wire_columns columns ++ rest) plain.0 in
    ap
      (λ r. r >>= λ (meta, buffer). read_columns (length columns) (i + 1) (
        record body {
          column_metadata = body.column_metadata ++ meta ∷ [];
          column_index = index_insert meta.name.0 i body.column_index;
        },
        buffer,
      ))
      read
    ∙ read_columns-wire (i + 1) columns rest next global plain.1
    ∙ ap
        (λ xs. ok (
          record body {
            column_metadata = xs;
            column_index = index_of i ((name, type) ∷ columns) body.column_index;
          },
          rest,
        ))
        (append_assoc body.column_metadata (metadata_of (name, type) ∷ [])
          (metadata_of_all columns))

resize-nil : (n : ℕ) → n < 2 ^ 31 → resize [] n ≡ ok (replicate n new_column)
unfolding resize
resize-nil n few =
    rw (lt→ltb n (2 ^ 31) few)
      (ap ok (ap₂ (λ xs k. xs ++ replicate k new_column) (take-nil n) (omega arith)))

-- The metadata of a result with a global keyspace and table, and no paging state.
abbrev pub wire_metadata : Bytes → Bytes → List Column → Bytes
wire_metadata keyspace table columns =
    be_32 flag_global_tablespec
    ++ (be_32 (length columns)
        ++ (wire_string keyspace ++ (wire_string table ++ wire_columns columns)))

-- `parse_metadata` of a fresh body on the metadata of columns of plain types, with names shorter
-- than 2^16: it stops where they end, with the keyspace, the table and the count; but the metadata
-- of the columns stand behind as many blank ones, while the index gives them the places from 0 on.
pub parse_metadata-wire :
    (keyspace table rest : Bytes) (columns : List Column)
    → length keyspace < 2 ^ 16
    → length table < 2 ^ 16
    → length columns < 2 ^ 31
    → AllPlain columns
    → parse_metadata (new_result, wire_metadata keyspace table columns ++ rest)
      ≡ ok (
        record new_result {
          column_count = length columns;
          keyspace = (keyspace, length keyspace);
          table = (table, length table);
          column_metadata = replicate (length columns) new_column ++ metadata_of_all columns;
          column_index = index_of 0 columns [];
        },
        rest,
      )
unfolding parse_metadata read_metadata read_global_spec read_string
parse_metadata-wire keyspace table rest columns short_keyspace short_table few plain =
    rw
      (
        shape,
        decode_int-be flag_global_tablespec (
            be_32 (length columns)
            ++ (wire_string keyspace ++ (wire_string table ++ (wire_columns columns ++ rest)))),
        decode_int-be (length columns)
            (wire_string keyspace ++ (wire_string table ++ (wire_columns columns ++ rest))),
        count,
        decode_string-wire keyspace (wire_string table ++ (wire_columns columns ++ rest))
            short_keyspace,
        decode_string-wire table (wire_columns columns ++ rest) short_table,
        resize-nil (length columns) few,
      )
      (read_columns-wire 0 columns rest _ refl plain)
  where
    count : int32 (length columns) ≡ length columns
    count = omega arith

    shape :
        wire_metadata keyspace table columns ++ rest
        ≡ be_32 flag_global_tablespec
          ++ (be_32 (length columns)
              ++ (wire_string keyspace ++ (wire_string table ++ (wire_columns columns ++ rest))))
    shape = simp append_assoc
