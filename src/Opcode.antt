-- ===== src/Opcode.antt =====
-- include/cql.h: the opcodes; and `opcode_to_string` of include/cql_common.hpp.
use uv_client_server.Base.{
  ℕ, ◌≤◌, ◌≡◌, refl, arith, ◌==◌, if◌then◌else◌, codes, Result, ok, err, assertion,
}
use uv_client_server.Memory.{Bytes}

abbrev pub opcode_error : ℕ
opcode_error = 0x00

abbrev pub opcode_startup : ℕ
opcode_startup = 0x01

abbrev pub opcode_ready : ℕ
opcode_ready = 0x02

abbrev pub opcode_authenticate : ℕ
opcode_authenticate = 0x03

abbrev pub opcode_credentials : ℕ
opcode_credentials = 0x04

abbrev pub opcode_options : ℕ
opcode_options = 0x05

abbrev pub opcode_supported : ℕ
opcode_supported = 0x06

abbrev pub opcode_query : ℕ
opcode_query = 0x07

abbrev pub opcode_result : ℕ
opcode_result = 0x08

abbrev pub opcode_prepare : ℕ
opcode_prepare = 0x09

abbrev pub opcode_execute : ℕ
opcode_execute = 0x0A

abbrev pub opcode_register : ℕ
opcode_register = 0x0B

abbrev pub opcode_event : ℕ
opcode_event = 0x0C

unfoldable pub opcode_to_string : ℕ → Result Bytes
opcode_to_string opcode =
    if opcode == opcode_error
    then ok (codes "CQL_OPCODE_ERROR")
    else if opcode == opcode_startup
    then ok (codes "CQL_OPCODE_STARTUP")
    else if opcode == opcode_ready
    then ok (codes "CQL_OPCODE_READY")
    else if opcode == opcode_authenticate
    then ok (codes "CQL_OPCODE_AUTHENTICATE")
    else if opcode == opcode_credentials
    then ok (codes "CQL_OPCODE_CREDENTIALS")
    else if opcode == opcode_options
    then ok (codes "CQL_OPCODE_OPTIONS")
    else if opcode == opcode_supported
    then ok (codes "CQL_OPCODE_SUPPORTED")
    else if opcode == opcode_query
    then ok (codes "CQL_OPCODE_QUERY")
    else if opcode == opcode_result
    then ok (codes "CQL_OPCODE_RESULT")
    else if opcode == opcode_prepare
    then ok (codes "CQL_OPCODE_PREPARE")
    else if opcode == opcode_execute
    then ok (codes "CQL_OPCODE_EXECUTE")
    else if opcode == opcode_register
    then ok (codes "CQL_OPCODE_REGISTER")
    else if opcode == opcode_event
    then ok (codes "CQL_OPCODE_EVENT")
    else err assertion

-- The opcodes that have a name.
pub opcode_to_string-known :
    (opcode : ℕ) → opcode ≤ opcode_event → (name : Bytes) × (opcode_to_string opcode ≡ ok name)
unfolding opcode_to_string
opcode_to_string-known opcode known = by_result (opcode_to_string opcode) refl
  where
    by_result :
        (r : Result Bytes)
        → opcode_to_string opcode ≡ r
        → (name : Bytes) × (opcode_to_string opcode ≡ ok name)
    by_result (ok name) e = (name, e)
    by_result (err f) e = absurd (ground arith)
