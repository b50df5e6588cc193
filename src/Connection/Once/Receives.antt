-- ===== src/Connection/Once/Receives.antt =====
-- include/cql_client_connection.hpp: the handlers of received messages wake a request once.
use uv_client_server.Base.{
  ℕ, ◌≡◌, refl, ◌∙◌, Bool, true, false, Option, none, some, ok, ◌==◌, ltb, if◌then◌else◌, Yields,
  Yields-ok, Yields-err, Yields-if, Yields-bind, Yields-any,
}
use uv_client_server.Memory.{Allocator}
use uv_client_server.Errors.{Error}
use uv_client_server.Opcode.{
  opcode_error, opcode_ready, opcode_supported, opcode_result, opcode_to_string,
}
use uv_client_server.StreamStorage.{StreamStorage}
use uv_client_server.StreamStorage.Steps.{Outcome, taken_out, not_taken, get_stream-Outcome}
use uv_client_server.Request.{Request, notify}
use uv_client_server.Message.{Message}
use uv_client_server.Body.Results.{BodyResult, kind_set_keyspace, kind_prepared}
use uv_client_server.Connection.{
  Connection, RequestPointer, keyspace_callback, connect_callback, emit, ready, supported,
  notify_request, before_ready,
}
use uv_client_server.Connection.Incoming.{
  c_string, as_error, as_result, report_error, on_error, pointed, set_result, deliver, content_of,
  call_prepare, deliver_prepared, deliver_other, on_keyspace, on_prepared, on_other, on_kind,
  on_result, on_message,
}
use uv_client_server.Connection.Handlers.{on_supported, on_ready, event_received}
use uv_client_server.Connection.Sending.{last_stream}
use uv_client_server.Connection.Once.{
  Tracks, Waits, quiet, done-Tracked, released-Tracked, released-Waits,
}
use uv_client_server.Connection.Once.Sends.{notify_error-Tracks, event_received-Tracks}

pub notify_request-Tracks :
    (c : Connection) (r : ℕ) (update : Request → Request)
    → Tracks c
    → Waits r c.stream_storage c.requests
    → Yields Tracks (notify_request c r update)
unfolding notify_request notify
notify_request-Tracks c r update t w =
    rw (w.there, notify_request) (Yields-ok (done-Tracked t r update w))

-- What a stream gave, if it gave a request: that request waits.
abbrev Found : Connection → Option RequestPointer → Type 0
Found c found = (r : ℕ) → found ≡ some (some r) → Waits r c.stream_storage c.requests

deliver-Tracks :
    (c : Connection) (found : Option RequestPointer) (response : Message)
    → Tracks c
    → Found c found
    → Yields Tracks (deliver c found response)
unfolding deliver pointed
deliver-Tracks c none response t w = Yields-err
deliver-Tracks c (some none) response t w = Yields-err
deliver-Tracks c (some (some r)) response t w =
    notify_request-Tracks c r (set_result response) t (w r refl)

call_prepare-Tracks :
    (c : Connection) (found : Option RequestPointer) (error : Option Error) (result : BodyResult)
    → Tracks c
    → Yields (λ d. Tracks d × (Found c found → Found d found)) (call_prepare c found error result)
unfolding call_prepare
call_prepare-Tracks c found error result t =
    Yields-if c.has_prepare_callback
      (Yields-any (content_of c found) λ content. Yields-ok (quiet t _ (λ r. refl), λ w. w))
      (Yields-ok (t, λ w. w))

deliver_prepared-Tracks :
    (c : Connection) (found : Option RequestPointer) (error : Option Error) (result : BodyResult)
    (response : Message)
    → Tracks c
    → (error ≡ none → Found c found)
    → Yields Tracks (deliver_prepared c found error result response)
unfolding deliver_prepared
deliver_prepared-Tracks c found none result response t w =
    Yields-bind (call_prepare c found none result) (call_prepare-Tracks c found none result t)
      λ d h. deliver-Tracks d found response h.0 (h.1 (w refl))
deliver_prepared-Tracks c found (some e) result response t w =
    Yields-bind (call_prepare c found (some e) result)
      (call_prepare-Tracks c found (some e) result t) λ d h. Yields-ok h.0

deliver_other-Tracks :
    (c : Connection) (found : Option RequestPointer) (error : Option Error) (response : Message)
    → Tracks c
    → (error ≡ none → Found c found)
    → Yields Tracks (deliver_other c found error response)
unfolding deliver_other
deliver_other-Tracks c found none response t w = deliver-Tracks c found response t (w refl)
deliver_other-Tracks c found (some e) response t w = by_callback c.has_connect_callback
  where
    by_callback :
        (b : Bool) → Yields Tracks (ok (if b then emit c (connect_callback (some e)) else c))
    by_callback true = Yields-ok (quiet t _ (λ r. refl))
    by_callback false = Yields-ok t

-- A connection behind `get_stream`.
after_stream-Tracks :
    (c : Connection) (id : ℕ)
    (r : StreamStorage RequestPointer × Option RequestPointer × Option Error)
    → Tracks c
    → Outcome last_stream c.stream_storage id r
    → Tracks (record c { stream_storage = r.0 })
      × (r.2 ≡ none → Found (record c { stream_storage = r.0 }) r.1)
after_stream-Tracks c id (_, _, _) t (taken_out {s'} flight released v) =
    (released-Tracked t s' id released v, λ e r is. released-Waits t s' id r (flight ∙ is) released)
after_stream-Tracks c id (_, _, _) t (not_taken v) = (t, λ e. cc)

on_kind-Tracks :
    (c : Connection) (response : Message) (result : BodyResult)
    → Tracks c
    → Yields Tracks (on_kind c response result)
unfolding on_kind on_prepared on_other on_keyspace
on_kind-Tracks c response result t =
    Yields-if (result.kind == kind_set_keyspace) (keyspace c.has_keyspace_callback) (
      Yields-if (result.kind == kind_prepared)
        (Yields-bind _ (get_stream-Outcome last_stream c.stream_storage response.stream t.valid)
          λ r o.
            let (t', w) = after_stream-Tracks c response.stream r t o in
            deliver_prepared-Tracks (record c { stream_storage = r.0 }) r.1 r.2 result response t'
              w)
        (Yields-bind _ (get_stream-Outcome last_stream c.stream_storage response.stream t.valid)
          λ r o.
            let (t', w) = after_stream-Tracks c response.stream r t o in
            deliver_other-Tracks (record c { stream_storage = r.0 }) r.1 r.2 response t' w))
  where
    keyspace :
        (b : Bool)
        → Yields Tracks (ok (if b then emit c (keyspace_callback result.keyspace.0) else c))
    keyspace true = Yields-ok (quiet t _ (λ r. refl))
    keyspace false = Yields-ok t

on_error-Tracks :
    (c : Connection) (response : Message) → Tracks c → Yields Tracks (on_error c response)
unfolding on_error report_error
on_error-Tracks c response t = Yields-any (as_error response.body) λ error.
    Yields-if (before_ready c.state)
      (Yields-any (c_string error.message) λ text. Yields-ok (notify_error-Tracks c _ t))
      (Yields-ok t)

pub on_message-Tracks :
    (alloc : Allocator) (c : Connection) (m : Message)
    → Tracks c
    → Yields Tracks (on_message alloc c m)
unfolding on_message on_supported on_ready on_result event_received
on_message-Tracks alloc c m t = Yields-any (opcode_to_string m.opcode) λ name.
    Yields-if (ltb m.stream 128)
      (Yields-if (m.opcode == opcode_supported)
        (event_received-Tracks alloc supported (record c { state = supported }) t)
        (Yields-if (m.opcode == opcode_error) (on_error-Tracks c m t) (
          Yields-if (m.opcode == opcode_ready)
            (event_received-Tracks alloc ready (record c { state = ready }) t)
            (Yields-if (m.opcode == opcode_result)
              (Yields-any (as_result m.body) λ result. on_kind-Tracks c m result t) Yields-err))))
      Yields-err
