-- ===== src/Connection/Handshake.antt =====
-- The way from a new socket to READY, with what is sent and called on it.
use uv_client_server.Base.{
  ℕ, ◌+◌, ◌^◌, ◌≤◌, ◌<◌, ◌≡◌, ◌≢◌, refl, ap, List, [], ◌∷◌, ◌++◌, true, false, none, some, Result,
  ok, ◌>>=◌, if◌then◌else◌, length, arith,
}
use uv_client_server.Memory.{Bytes, Allocator}
use uv_client_server.Opcode.{opcode_options, opcode_startup}
use uv_client_server.StreamStorage.{StreamStorage, available_streams}
use uv_client_server.StreamStorage.Inv.{Inv}
use uv_client_server.StreamStorage.Laws.{outstanding}
use uv_client_server.Body.{Body}
use uv_client_server.Body.Startup.{BodyStartup, new_startup}
use uv_client_server.Body.Startup
use uv_client_server.Message.{Message, new_message, new_message_with, allocate_body, header_size}
use uv_client_server.Message.Frame
use uv_client_server.Connection.{
  Connection, handshake, supported, ready, write, read_start, connect_callback, emit, stream_id_max,
  send_message, notify_ready,
}
use uv_client_server.Connection.Handlers.{
  send_options, send_startup, with_version, on_connect, on_supported, on_ready, ssl_handshake,
  on_state, event_received,
}
use uv_client_server.Connection.Sending.{
  Sent, last_stream, header_frame, frame_of, send_message-Carries, send_message-IsEmpty,
}

module _ (alloc : Allocator) where
  abbrev pub options_message : Message
  options_message = record (new_message alloc) { opcode = opcode_options; body = some Body.options }

  abbrev pub startup_body : Bytes → BodyStartup
  startup_body version = record new_startup { cql_version = version }

  abbrev pub startup_message : Bytes → Message
  startup_message version = record (new_message alloc) {
    opcode = opcode_startup;
    body = some (Body.startup (startup_body version));
  }

  abbrev pub options_frame : ℕ → Bytes
  options_frame = header_frame options_message

  abbrev pub startup_frame : Bytes → ℕ → Bytes
  startup_frame version =
      frame_of alloc (startup_message version) (Startup.payload (startup_body version)) 0

  options-Sent :
      (c : Connection)
      → header_size ≤ alloc.slack
      → Inv last_stream c.stream_storage
      → c.stream_storage.available_streams_index < last_stream
      → Sent c none options_frame (send_message alloc c options_message none)
  options-Sent c slack v room =
      send_message-IsEmpty alloc c options_message none Frame.options refl slack (omega arith) v
        room

  startup-Sent :
      (c : Connection)
      → length (Startup.payload (startup_body c.cql_version)) < 2 ^ 31
      → Inv last_stream c.stream_storage
      → c.stream_storage.available_streams_index < last_stream
      → Sent c none
          (startup_frame c.cql_version)
          (send_message alloc c (startup_message c.cql_version) none)
  startup-Sent c small v room =
      send_message-Carries alloc c (startup_message c.cql_version) none
        (Frame.startup (startup_body c.cql_version)) refl (omega arith) (omega arith) v room

-- The state after the three events: two streams were taken, for no request, and both still are.
pub record Opened (alloc : Allocator) (c : Connection) (out : Result Connection) : Type 0 where
  pub after : Connection
  pub returned : out ≡ ok after
  pub options_stream : ℕ
  pub startup_stream : ℕ
  pub two_streams : options_stream ≢ startup_stream
  pub effects :
      after.effects
      ≡ c.effects
        ++ (read_start
            ∷ write (options_frame alloc options_stream)
            ∷ write (startup_frame alloc c.cql_version startup_stream)
            ∷ connect_callback none
            ∷ [])
  pub is_ready : after.state ≡ ready
  pub options_held : outstanding after.stream_storage options_stream ≡ some none
  pub startup_held : outstanding after.stream_storage startup_stream ≡ some none
  pub fewer :
      available_streams stream_id_max after.stream_storage + 2
      ≡ available_streams stream_id_max c.stream_storage
  pub valid : Inv last_stream after.stream_storage
  pub same_requests : after.requests ≡ c.requests

room_after :
    {S : Type 0} (s s' : StreamStorage S)
    → available_streams stream_id_max s' + 1 ≡ available_streams stream_id_max s
    → s.available_streams_index + 2 ≤ last_stream
    → s'.available_streams_index < last_stream
unfolding available_streams
room_after s s' e h = omega arith

append_four {ℓ} :
    {A : Type ℓ} (xs : List A) (a b c d : A)
    → (((xs ++ a ∷ []) ++ b ∷ []) ++ c ∷ []) ++ d ∷ [] ≡ xs ++ (a ∷ b ∷ c ∷ d ∷ [])
append_four [] a b c d = refl
append_four (x ∷ xs) a b c d = ap (◌∷◌ x) (append_four xs a b c d)

notify_ready-set :
    (c : Connection)
    → c.has_connect_callback ≡ true
    → notify_ready c ≡ emit c (connect_callback none)
unfolding notify_ready
notify_ready-set c e = ap (λ b. if b then emit c (connect_callback none) else c) e

-- A connection that succeeds, then a SUPPORTED message, then a READY message, with a connect
-- callback set, an allocator that gives the eight spare bytes that the OPTIONS frame is written
-- to, a version string that fits, the streams in order and two to spare: reading starts, the OPTIONS frame goes
-- out, then the STARTUP frame with the version, then the callback is run without an error, and the
-- state is READY. The two streams are distinct, and both stay taken.
pub handshake_opens :
    (alloc : Allocator) (c : Connection) (supported_message ready_message : Message)
    → header_size ≤ alloc.slack
    → c.has_connect_callback ≡ true
    → length (Startup.payload (startup_body alloc c.cql_version)) < 2 ^ 31
    → Inv last_stream c.stream_storage
    → c.stream_storage.available_streams_index + 2 ≤ last_stream
    → Opened alloc c (
        on_connect alloc c false >>= λ c₁.
        on_supported alloc c₁ supported_message >>= λ c₂. on_ready alloc c₂ ready_message)
unfolding on_connect on_supported on_ready event_received on_state ssl_handshake send_options
    send_startup with_version new_message_with allocate_body notify_ready
handshake_opens alloc c supported_message ready_message slack callback small v room = record {
  after = emit c₃ (connect_callback none);
  returned = rw (s₁.returned, s₂.returned) (ap ok (notify_ready-set c₃ callback));
  options_stream = s₁.stream;
  startup_stream = s₂.stream;
  two_streams = distinct;
  effects =
      append_four c.effects read_start (write (options_frame alloc s₁.stream))
        (write (startup_frame alloc c.cql_version s₂.stream)) (connect_callback none);
  is_ready = refl;
  options_held = ground (arith, s₂.taken s₁.stream, s₁.taken s₁.stream);
  startup_held = ground (arith, s₂.taken s₂.stream);
  fewer = omega (arith, s₁.fewer, s₂.fewer);
  valid = s₂.valid;
  same_requests = refl;
}
  where
    c₁ : Connection
    c₁ = record (emit c read_start) { state = handshake }

    s₁ : Sent c₁ none (options_frame alloc) (send_message alloc c₁ (options_message alloc) none)
    s₁ = options-Sent alloc c₁ slack v (omega arith)

    c₂ : Connection
    c₂ = record c₁ {
      state = supported;
      stream_storage = s₁.storage;
      effects = c₁.effects ++ write (options_frame alloc s₁.stream) ∷ [];
    }

    s₂ :
        Sent c₂ none
          (startup_frame alloc c.cql_version)
          (send_message alloc c₂ (startup_message alloc c.cql_version) none)
    s₂ = startup-Sent alloc c₂ small s₁.valid (room_after c.stream_storage s₁.storage s₁.fewer room)

    c₃ : Connection
    c₃ = record c₂ {
      state = ready;
      stream_storage = s₂.storage;
      effects = c₂.effects ++ write (startup_frame alloc c.cql_version s₂.stream) ∷ [];
    }

    distinct : s₁.stream ≢ s₂.stream
    distinct same = ground (arith, s₂.unused, s₁.taken s₂.stream)
