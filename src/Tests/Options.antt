-- ===== src/Tests/Options.antt =====
-- The options of a cluster on concrete values.
use uv_client_server.Base.{◌≡◌, refl, err, bad_pointer, [], ◌∷◌, codes, arith}
use uv_client_server.Memory.{Bytes, advance, load_32}
use uv_client_server.Cluster.{
  new_cluster, connect, option, set_option, option_port, option_threads_io,
}
use uv_client_server.Session.{shutdown}
use uv_client_server.Client.{main}
use uv_client_server.Cluster.Setting.{option_commutes}

abbrev port_9043 : Bytes
port_9043 = codes "9043"

test_two_options :
    option (record new_cluster { port = port_9043 }) option_threads_io (8 ∷ 0 ∷ 0 ∷ 0 ∷ []) 4
    ≡ option (record new_cluster { thread_count_io = 8 }) option_port port_9043 4
unfolding option set_option advance load_32
test_two_options =
    option_commutes new_cluster (record new_cluster { port = port_9043 })
      (record new_cluster { thread_count_io = 8 }) option_port option_threads_io port_9043
      (8 ∷ 0 ∷ 0 ∷ 0 ∷ []) 4 4 (λ e. omega arith) refl refl

-- The client calls a method of NULL.
test_client : main ≡ err bad_pointer
unfolding main connect shutdown
test_client = refl
