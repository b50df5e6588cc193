-- ===== src/Cluster.antt =====
-- include/cql_cluster.hpp: the options of a cluster.
pub mod Setting
use uv_client_server.Base.{
  ℕ, ◌+◌, ◌-◌, ◌^◌, ◌<◌, ◌≡◌, ◌≢◌, refl, ap, ◌∙◌, List, [], ◌∷◌, ◌++◌, Bool, true, false,
  Bool-cases, Option, none, ◌⊎◌, inl, inr, Result, Fault, ok, err, out_of_bounds, ◌>>=◌, codes,
  if◌then◌else◌, ◌==◌, int32-to_size, length, arith,
}
use uv_client_server.Session.{Session}
use uv_client_server.Memory.{Bytes, advance, load_32}

abbrev pub option_threads_io : ℕ
option_threads_io = 1

abbrev pub option_threads_callback : ℕ
option_threads_callback = 2

abbrev pub option_contact_point_add : ℕ
option_contact_point_add = 3

abbrev pub option_port : ℕ
option_port = 4

abbrev pub option_cql_version : ℕ
option_cql_version = 5

abbrev pub option_schema_agreement_wait : ℕ
option_schema_agreement_wait = 6

abbrev pub option_control_connection_timeout : ℕ
option_control_connection_timeout = 7

abbrev pub option_compression : ℕ
option_compression = 9

-- `log_callback` says whether one is set.
pub record Cluster : Type 0 where
  pub port : Bytes
  pub cql_version : Bytes
  pub compression : ℕ
  pub max_schema_agreement_wait : ℕ
  pub control_connection_timeout : ℕ
  pub contact_points : List Bytes
  pub thread_count_io : ℕ
  pub thread_count_callback : ℕ
  pub log_callback : Bool

abbrev pub new_cluster : Cluster
new_cluster = record {
  port = codes "9042";
  cql_version = codes "3.0.0";
  compression = 0;
  max_schema_agreement_wait = 10;
  control_connection_timeout = 10;
  contact_points = [];
  thread_count_io = 1;
  thread_count_callback = 4;
  log_callback = false;
}

-- std::string(value, size)
abbrev pub text_of : Bytes → ℕ → Result Bytes
text_of value size = advance value size >>= λ r. ok r.0

-- The `switch` of `option`.
unfoldable pub set_option : Cluster → ℕ → ℕ → Bytes → ℕ → Result Cluster
set_option c name int_value value size =
    if name == option_threads_io
    then ok (record c { thread_count_io = int32-to_size int_value })
    else if name == option_threads_callback
    then ok (record c { thread_count_callback = int32-to_size int_value })
    else if name == option_contact_point_add
    then (text_of value size >>= λ s. ok (record c { contact_points = c.contact_points ++ s ∷ [] }))
    else if name == option_port
    then (text_of value size >>= λ s. ok (record c { port = s }))
    else if name == option_cql_version
    then (text_of value size >>= λ s. ok (record c { cql_version = s }))
    else if name == option_compression
    then ok (record c { compression = int_value })
    else if name == option_control_connection_timeout
    then ok (record c { control_connection_timeout = int32-to_size int_value })
    else if name == option_schema_agreement_wait
    then ok (record c { max_schema_agreement_wait = int32-to_size int_value })
    else ok c

-- The value is read as an int first, whatever the option.
unfoldable pub option : Cluster → (name : ℕ) → (value : Bytes) → (size : ℕ) → Result Cluster
option c name value size = do int_value ← load_32 value; set_option c name int_value value size

unfoldable pub set_log_callback : Cluster → (callback : Bool) → Cluster
set_log_callback c callback = record c { log_callback = callback }

-- The three forms of `connect`, with a keyspace or without one: none makes a session.
unfoldable pub connect : Cluster → Option Bytes → Option Session
connect c keyspace = none
