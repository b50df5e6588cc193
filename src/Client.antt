-- ===== src/Client.antt =====
-- src/client/main.cpp: a client that connects to a cluster and shuts its session down.
use uv_client_server.Base.{[], ◌∷◌, ◌++◌, true, none, Result, codes}
use uv_client_server.Memory.{Bytes}
use uv_client_server.Session.{Session, shutdown}
use uv_client_server.Cluster.{new_cluster, set_log_callback, connect}

-- The line that `print_log` writes to stdout.
unfoldable pub print_log : Bytes → Bytes
print_log message = codes "log: " ++ message ++ (10 ∷ [])

unfoldable pub main : Result Session
main = shutdown (connect (set_log_callback new_cluster true) none)
