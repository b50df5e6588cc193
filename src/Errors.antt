-- ===== src/Errors.antt =====
-- include/cql_error.hpp and the codes of include/cql.h that the modelled code makes. The file and
-- the line of an error are left out.
use uv_client_server.Base.{ℕ}
use uv_client_server.Memory.{Bytes}

pub record Error : Type 0 where
  pub source : ℕ
  pub code : ℕ
  pub message : Bytes

abbrev pub source_ssl : ℕ
source_ssl = 3

abbrev pub source_server : ℕ
source_server = 5

abbrev pub source_library : ℕ
source_library = 6

abbrev pub lib_no_streams : ℕ
lib_no_streams = 1000008

abbrev pub lib_max_connections : ℕ
lib_max_connections = 1000009
