-- ===== src/Connection/Received.antt =====
-- include/cql_client_connection.hpp: the streams of a connection, and its incoming message, under
-- the handlers of received messages.
use uv_client_server.Base.{
  ℕ, ◌≡◌, refl, inl, inr, true, Option, none, some, ◌==◌, ltb, get_elem?, set, Bool-cases,
}
use uv_client_server.Memory.{Allocator}
use uv_client_server.Errors.{Error}
use uv_client_server.Opcode.{
  opcode_error, opcode_ready, opcode_supported, opcode_result, opcode_to_string,
}
use uv_client_server.StreamStorage.{get_stream}
use uv_client_server.Request.{Request}
use uv_client_server.Body.Results.{BodyResult, kind_set_keyspace, kind_prepared}
use uv_client_server.Message.{Message}
use uv_client_server.Connection.{
  Connection, ready, supported, RequestPointer, notify_request, notify_error, before_ready,
}
use uv_client_server.Connection.Handlers.{on_ready, on_supported}
use uv_client_server.Connection.Incoming.{
  c_string, as_error, as_result, report_error, on_error, pointed, set_result, deliver, content_of,
  call_prepare, deliver_prepared, deliver_other, on_keyspace, on_prepared, on_other, on_kind,
  on_result, on_message,
}
use uv_client_server.Base.{Yields, Yields-ok, Yields-err, Yields-if, Yields-bind, Yields-any}
use uv_client_server.Connection.Inv.{Valid, get_stream-Valid, event_received-Valid}

pub notify_request-Valid :
    {i : Message} (c : Connection) (r : ℕ) (update : Request → Request)
    → Valid i c
    → Yields (Valid i) (notify_request c r update)
unfolding notify_request
notify_request-Valid {i} c r update v = cases (get_elem? c.requests r) refl
  where
    cases :
        (found : Option Request)
        → get_elem? c.requests r ≡ found
        → Yields (Valid i) (notify_request c r update)
    cases none e = rw (e, notify_request) Yields-err
    cases (some request) e = rw (e, notify_request) (Yields-ok v)

deliver-Valid :
    {i : Message} (c : Connection) (found : Option RequestPointer) (response : Message)
    → Valid i c
    → Yields (Valid i) (deliver c found response)
unfolding deliver
deliver-Valid c found response v =
    Yields-any (pointed found) λ r. notify_request-Valid c r (set_result response) v

notify_error-Valid :
    {i : Message} (c : Connection) (e : Error) → Valid i c → Valid i (notify_error c e)
unfolding notify_error
notify_error-Valid c e v = elim (Bool-cases c.has_connect_callback) [
  | inl set ↦ rw (set, notify_error) v
  | inr unset ↦ rw (unset, notify_error) v
]

call_prepare-Valid :
    {i : Message} (c : Connection) (found : Option RequestPointer) (error : Option Error)
    (result : BodyResult)
    → Valid i c
    → Yields (Valid i) (call_prepare c found error result)
unfolding call_prepare
call_prepare-Valid c found error result v =
    Yields-if c.has_prepare_callback (Yields-any (content_of c found) λ content. Yields-ok v)
      (Yields-ok v)

deliver_prepared-Valid :
    {i : Message} (c : Connection) (found : Option RequestPointer) (error : Option Error)
    (result : BodyResult) (response : Message)
    → Valid i c
    → Yields (Valid i) (deliver_prepared c found error result response)
unfolding deliver_prepared
deliver_prepared-Valid c found none result response v =
    Yields-bind (call_prepare c found none result) (call_prepare-Valid c found none result v)
      λ c' v'. deliver-Valid c' found response v'
deliver_prepared-Valid c found (some e) result response v =
    Yields-bind (call_prepare c found (some e) result)
      (call_prepare-Valid c found (some e) result v) λ c' v'. Yields-ok v'

deliver_other-Valid :
    {i : Message} (c : Connection) (found : Option RequestPointer) (error : Option Error)
    (response : Message)
    → Valid i c
    → Yields (Valid i) (deliver_other c found error response)
unfolding deliver_other
deliver_other-Valid c found none response v = deliver-Valid c found response v
deliver_other-Valid c found (some e) response v = elim (Bool-cases c.has_connect_callback) [
  | inl set ↦ rw (set, deliver_other) (Yields-ok v)
  | inr unset ↦ rw (unset, deliver_other) (Yields-ok v)
]

on_kind-Valid :
    {i : Message} (c : Connection) (response : Message) (result : BodyResult)
    → Valid i c
    → Yields (Valid i) (on_kind c response result)
unfolding on_kind on_prepared on_other on_keyspace
on_kind-Valid {i} c response result v =
    Yields-if (result.kind == kind_set_keyspace) (Yields-ok keyspace) (
      Yields-if (result.kind == kind_prepared)
        (Yields-bind (get_stream c.stream_storage response.stream true)
          (get_stream-Valid c.stream_storage response.stream v.0)
          λ r v'.
            deliver_prepared-Valid (record c { stream_storage = r.0 }) r.1 r.2 result response
              (v', v.1))
        (Yields-bind (get_stream c.stream_storage response.stream true)
          (get_stream-Valid c.stream_storage response.stream v.0)
          λ r v'.
            deliver_other-Valid (record c { stream_storage = r.0 }) r.1 r.2 response (v', v.1)))
  where
    keyspace : Valid i (on_keyspace c result)
    keyspace = elim (Bool-cases c.has_keyspace_callback) [
      | inl set ↦ rw (set, on_keyspace) v
      | inr unset ↦ rw (unset, on_keyspace) v
    ]

on_error-Valid :
    {i : Message} (c : Connection) (response : Message)
    → Valid i c
    → Yields (Valid i) (on_error c response)
unfolding on_error report_error
on_error-Valid c response v = Yields-any (as_error response.body) λ error.
    Yields-if (before_ready c.state)
      (Yields-any (c_string error.message) λ text. Yields-ok (notify_error-Valid c _ v))
      (Yields-ok v)

module _ (alloc : Allocator) where
  pub on_message-Valid :
      {i : Message} (c : Connection) (m : Message)
      → Valid i c
      → Yields (Valid i) (on_message alloc c m)
  unfolding on_message on_supported on_ready on_result
  on_message-Valid c m v = Yields-any (opcode_to_string m.opcode) λ name.
      Yields-if (ltb m.stream 128)
        (Yields-if (m.opcode == opcode_supported)
          (event_received-Valid alloc (record c { state = supported }) v)
          (Yields-if (m.opcode == opcode_error) (on_error-Valid c m v) (
            Yields-if (m.opcode == opcode_ready)
              (event_received-Valid alloc (record c { state = ready }) v)
              (Yields-if (m.opcode == opcode_result)
                (Yields-any (as_result m.body) λ result. on_kind-Valid c m result v) Yields-err))))
        Yields-err
