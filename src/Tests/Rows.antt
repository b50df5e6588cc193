-- ===== src/Tests/Rows.antt =====
-- The iterator over rows on concrete results.
use uv_client_server.Base.{
  ◌≡◌, refl, [], ◌∷◌, ◌++◌, List, ok, err, out_of_bounds, ◌>>=◌, codes, arith, ◌^◌, ◌-◌,
}
use uv_client_server.Memory.{Bytes, be_32}
use uv_client_server.Memory.Emits.{at}
use uv_client_server.Body.Results.{BodyResult, new_result}
use uv_client_server.Body.Results.Rows.{new_iterator, parse_row}
use uv_client_server.Body.Results.Rows.Iteration.{wire_rows, collect, collect-new_iterator}
use uv_client_server.Body.Results.Rows.Nulls.{new_iterator_empty, parse_row_null}

abbrev two_rows : List (List Bytes)
two_rows = (codes "a" ∷ codes "bc" ∷ []) ∷ ([] ∷ codes "def" ∷ []) ∷ []

abbrev two_result : BodyResult
two_result = record new_result {
  column_count = 2;
  row_count = 2;
  rows = wire_rows two_rows ++ 0 ∷ [];
}

collect-new_iterator_example : (new_iterator (1 ∷ []) two_result >>= collect 2) ≡ ok two_rows
collect-new_iterator_example =
    collect-new_iterator two_result (1 ∷ []) (0 ∷ []) (codes "a" ∷ codes "bc" ∷ [])
      (([] ∷ codes "def" ∷ []) ∷ []) refl refl (omega arith) (omega arith)
      (refl, (omega arith, (omega arith, tt)), (refl, (omega arith, (omega arith, tt)), tt))

abbrev no_rows : BodyResult
no_rows = record new_result { column_count = 2 }

test_no_rows : new_iterator (1 ∷ []) no_rows ≡ err out_of_bounds
test_no_rows = new_iterator_empty no_rows (1 ∷ []) (omega arith) (omega arith) (omega arith)

parse_row_null_example :
    parse_row two_result (at (1 ∷ []) (be_32 (2 ^ 32 - 1) ++ be_32 2 ++ codes "bc" ++ 0 ∷ []))
    ≡ err out_of_bounds
parse_row_null_example =
    parse_row_null two_result (1 ∷ []) (codes "bc") (0 ∷ []) (omega arith) (omega arith)
      (omega arith) (omega arith)
