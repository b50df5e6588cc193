-- ===== src/Connection/Once/Sends.antt =====
-- include/cql_client_connection.hpp: the sending methods and the state machine do not wake a request.
use uv_client_server.Base.{
  ℕ, ◌≡◌, refl, sym, subst, Bool, true, false, Option, none, some, if◌then◌else◌, Yields, Yields-ok,
  Yields-err, Yields-bind, Yields-any,
}
use uv_client_server.Memory.{Allocator}
use uv_client_server.Errors.{Error}
use uv_client_server.Opcode.{opcode_options, opcode_startup, opcode_to_string}
use uv_client_server.StreamStorage.{StreamStorage, Returned, set_stream}
use uv_client_server.StreamStorage.Steps.{Claimed, set_stream-Claimed}
use uv_client_server.Message.{Message, new_message_with}
use uv_client_server.Message
use uv_client_server.Connection.{
  Connection, State, fresh, resolved, connected, handshake, supported, ready, disconnecting,
  disconnected, RequestPointer, connect_callback, emit, send_on, send_message, notify_ready,
  notify_error, stream_id_max,
}
use uv_client_server.Connection.Handlers.{send_options, send_startup, ssl_handshake, on_state}
use uv_client_server.Connection.Sending.{last_stream}
use uv_client_server.Connection.Once.{Tracks, Free, quiet, claimed-Tracked}

-- It went out; that a stream is missing is never the error that is returned.
abbrev pub Sent : Connection × Option Error → Type 0
Sent r = Tracks r.0 × (r.1 ≡ none)

notify_ready-Tracks : (c : Connection) → Tracks c → Tracks (notify_ready c)
unfolding notify_ready
notify_ready-Tracks c t = by_callback c.has_connect_callback
  where
    by_callback : (b : Bool) → Tracks (if b then emit c (connect_callback none) else c)
    by_callback true = quiet t (connect_callback none) (λ r. refl)
    by_callback false = t

pub notify_error-Tracks : (c : Connection) (e : Error) → Tracks c → Tracks (notify_error c e)
unfolding notify_error
notify_error-Tracks c e t = by_callback c.has_connect_callback
  where
    by_callback : (b : Bool) → Tracks (if b then emit c (connect_callback (some e)) else c)
    by_callback true = quiet t (connect_callback (some e)) (λ r. refl)
    by_callback false = t

module _ (alloc : Allocator) where
  send_on-Tracks :
      (c : Connection) (m : Message) (request : RequestPointer)
      (r : StreamStorage RequestPointer × Returned ℕ)
      → Tracks c
      → Free request c.stream_storage c.requests
      → Claimed last_stream c.stream_storage request r
      → Yields Sent (send_on alloc c m r.0 r.1)
  unfolding send_on
  send_on-Tracks c m request (storage, returned) t free k =
      subst (λ x. Yields Sent (send_on alloc c m storage x)) (sym k.returned)
        (Yields-any (Message.prepare alloc (record m { stream = k.id })) λ buf.
          Yields-any (opcode_to_string m.opcode) λ name. Yields-ok (
            quiet (claimed-Tracked t storage k.id request free k.taken k.valid) _ (λ r. refl),
            refl,
          ))

  pub send_message-Tracks :
      (c : Connection) (m : Message) (request : RequestPointer)
      → Tracks c
      → Free request c.stream_storage c.requests
      → Yields Sent (send_message alloc c m request)
  unfolding send_message
  send_message-Tracks c m request t free =
      Yields-bind (set_stream stream_id_max c.stream_storage request)
        (set_stream-Claimed last_stream c.stream_storage request t.valid)
        λ r k. send_on-Tracks c m request r t free k

  send_options-Tracks : (c : Connection) → Tracks c → Yields Tracks (send_options alloc c)
  unfolding send_options
  send_options-Tracks c t = Yields-any (new_message_with alloc opcode_options) λ m.
      Yields-bind (send_message alloc c m none) (send_message-Tracks c m none t tt)
        λ r s. Yields-ok s.0

  send_startup-Tracks : (c : Connection) → Tracks c → Yields Tracks (send_startup alloc c)
  unfolding send_startup
  send_startup-Tracks c t = Yields-any (new_message_with alloc opcode_startup) λ m.
      Yields-bind (send_message alloc c _ none) (send_message-Tracks c _ none t tt)
        λ r s. Yields-ok s.0

  pub event_received-Tracks :
      (s : State) (c : Connection) → Tracks c → Yields Tracks (on_state alloc s c)
  unfolding on_state ssl_handshake
  event_received-Tracks fresh c t = Yields-ok (quiet t _ (λ r. refl))
  event_received-Tracks resolved c t = Yields-ok (quiet t _ (λ r. refl))
  event_received-Tracks connected c t = send_options-Tracks _ t
  event_received-Tracks handshake c t = send_options-Tracks c t
  event_received-Tracks supported c t = send_startup-Tracks c t
  event_received-Tracks ready c t = Yields-ok (notify_ready-Tracks c t)
  event_received-Tracks disconnecting c t = Yields-err
  event_received-Tracks disconnected c t = Yields-err
