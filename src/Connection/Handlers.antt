-- ===== src/Connection/Handlers.antt =====
-- include/cql_client_connection.hpp: the state machine, and the handlers that libuv and the
-- messages call.
use uv_client_server.Base.{Bool, true, false, Option, none, some, Result, ok, err, assertion, ◌>>=◌}
use uv_client_server.Memory.{Bytes, Allocator}
use uv_client_server.Opcode.{opcode_options, opcode_startup}
use uv_client_server.Body.{Body}
use uv_client_server.Message.{Message, new_message_with}
use uv_client_server.Connection.{
  State, fresh, resolved, connected, handshake, supported, ready, disconnecting, disconnected,
  Connection, resolve_host, connect_host, read_start, close_socket, emit, send_message,
  notify_ready,
}

unfoldable pub close : Connection → Connection
close c = emit (record c { state = disconnecting }) close_socket

module _ (alloc : Allocator) where
  unfoldable pub send_options : Connection → Result Connection
  send_options c = do
    message ← new_message_with alloc opcode_options
    (c', error) ← send_message alloc c message none
    ok c'

  -- startup->cql_version = cql_version_
  unfoldable pub with_version : Bytes → Option Body → Option Body
  with_version version (some (Body.startup b)) =
      some (Body.startup (record b { cql_version = version }))
  with_version version body = body

  unfoldable pub send_startup : Connection → Result Connection
  send_startup c = do
    message ← new_message_with alloc opcode_startup
    (c', error) ←
        send_message alloc c (record message { body = with_version c.cql_version message.body })
          none
    ok c'

  -- With no TLS session: the state moves on, and `event_received` sends the options.
  unfoldable pub ssl_handshake : Connection → Result Connection
  ssl_handshake c = send_options (record c { state = handshake })

  -- The `switch` of `event_received`.
  unfoldable pub on_state : State → Connection → Result Connection
  on_state fresh c = ok (emit c resolve_host)
  on_state resolved c = ok (emit c connect_host)
  on_state connected c = ssl_handshake c
  on_state handshake c = send_options c
  on_state supported c = send_startup c
  on_state ready c = ok (notify_ready c)
  on_state disconnecting c = err assertion
  on_state disconnected c = err assertion

  unfoldable pub event_received : Connection → Result Connection
  event_received c = on_state c.state c

  unfoldable pub init : Connection → Bool → Bool → Result Connection
  init c connect keyspace =
      event_received (record c { has_connect_callback = connect; has_keyspace_callback = keyspace })

  -- `failure` is `status == -1`.
  unfoldable pub on_resolve : Connection → (failure : Bool) → Result Connection
  on_resolve c true = ok c
  on_resolve c false = event_received (record c { state = resolved })

  unfoldable pub on_connect : Connection → (failure : Bool) → Result Connection
  on_connect c true = ok c
  on_connect c false = event_received (record (emit c read_start) { state = connected })

  unfoldable pub on_close : Connection → Result Connection
  on_close c = event_received (record c { state = disconnected })

  unfoldable pub on_ready : Connection → Message → Result Connection
  on_ready c response = event_received (record c { state = ready })

  unfoldable pub on_supported : Connection → Message → Result Connection
  on_supported c response = event_received (record c { state = supported })
