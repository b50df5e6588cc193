-- ===== src/Tests/Tls.antt =====
-- TLS connections over small sessions.
use uv_client_server.Base.{
  ℕ, ◌+◌, ◌-◌, ◌%◌, ◌^◌, ◌≢◌, refl, [], ◌∷◌, ◌++◌, true, false, some, ok, length, codes, arith,
}
use uv_client_server.Memory.{Bytes, Allocator}
use uv_client_server.Errors.{source_ssl}
use uv_client_server.Connection.{new_connection}
use uv_client_server.SslSession.{OpenSsl, check_error}
use uv_client_server.Connection.Tls.{TlsConnection, read_loop}
use uv_client_server.Connection.Tls.Stuck.{read_loop_spins}

abbrev plain_allocator : Allocator
plain_allocator = record { slack = 0; junk = λ i. 0 }

-- A session that collects what it is fed, with room for `room` bytes, and has an answer to it.
abbrev collecting : (room : ℕ) → OpenSsl Bytes
collecting room = record {
  has_ssl = λ s. true;
  new_bio_pair = λ s. some s;
  new_ssl_bio = λ s. some s;
  set_bios = λ s. s;
  ssl_write = λ s b. (s, length b);
  ssl_pending = λ s. 0;
  ssl_read = λ s array n. (s, array, 0);
  write_guarantee = λ s. room;
  network_write = λ s b. (s ++ b, length b);
  network_pending = λ s. 1;
  network_read = λ s array n. (s, 7 ∷ [], 1);
  get_error = λ s status. 0;
  error_string = λ e. [];
  is_init_finished = λ s. true;
  set_connect_state = λ s. s;
  set_accept_state = λ s. s;
  do_handshake = λ s. s;
}

abbrev opened : {S : Type 0} → S → TlsConnection S
opened session = record {
  connection = new_connection plain_allocator;
  session = session;
  ssl_handshake_done = false;
}

-- One with a buffer of 4 bytes on the side of the network, which holds the given number of them until
-- the other side is read. What is in it is pending.
abbrev bounded : OpenSsl (Bytes × ℕ)
bounded = record {
  has_ssl = λ s. true;
  new_bio_pair = λ s. some s;
  new_ssl_bio = λ s. some s;
  set_bios = λ s. s;
  ssl_write = λ s b. (s, length b);
  ssl_pending = λ s. s.1 % 2 ^ 16;
  ssl_read = λ s array n. ((s.0, 0), array, 0);
  write_guarantee = λ s. 4 - s.1;
  network_write = λ s b. ((s.0 ++ b, s.1 + length b), length b);
  network_pending = λ s. 0;
  network_read = λ s array n. (s, array, 0);
  get_error = λ s status. 0;
  error_string = λ e. [];
  is_init_finished = λ s. false;
  set_connect_state = λ s. s;
  set_accept_state = λ s. s;
  do_handshake = λ s. s;
}

-- A session whose peer has closed it, with bytes left.
abbrev closed : OpenSsl Bytes
closed = record (collecting 2) { ssl_pending = λ s. 3; get_error = λ s status. 6 }

read_loop_spins_example :
    read_loop closed plain_allocator 100 (opened []) (codes "bye") ≢ ok (opened [])
unfolding check_error
read_loop_spins_example =
    read_loop_spins closed plain_allocator (record { source = source_ssl; code = 6; message = [] })
      (λ s. (omega arith, omega arith)) (λ s array n. refl) (λ s. refl) 100 (opened []) (opened [])
      (codes "bye") (omega arith)
