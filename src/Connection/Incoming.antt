-- ===== src/Connection/Incoming.antt =====
-- include/cql_client_connection.hpp: what a received message does, and the loop over the bytes read.
use uv_client_server.Base.{
  ℕ, zero, suc, ◌-◌, [], ◌∷◌, true, false, Option, none, some, Result, ok, err, out_of_bounds,
  assertion, bad_pointer, no_rounds, ◌>>=◌, if◌then◌else◌, ltb, ◌==◌, length, drop, get_elem?,
}
use uv_client_server.Memory.{Bytes, Allocator}
use uv_client_server.Errors.{Error, source_server}
use uv_client_server.Opcode.{
  opcode_error, opcode_ready, opcode_supported, opcode_result, opcode_to_string,
}
use uv_client_server.StreamStorage.{get_stream}
use uv_client_server.Request.{Request}
use uv_client_server.Body.{Body}
use uv_client_server.Body.Error.{BodyError}
use uv_client_server.Body.Results.{BodyResult, kind_set_keyspace, kind_prepared}
use uv_client_server.Message.{Message, new_message}
use uv_client_server.Message
use uv_client_server.Connection.{
  Connection, RequestPointer, connect_callback, keyspace_callback, prepare_callback, emit,
  notify_request, notify_error, before_ready,
}
use uv_client_server.Connection.Handlers.{on_ready, on_supported, close}

-- std::string(const char*): the bytes up to the first NUL.
unfoldable pub c_string : Bytes → Result Bytes
c_string [] = err out_of_bounds
c_string (b ∷ bs) = elim (b == 0) [ true ↦ ok [] | false ↦ c_string bs >>= λ s. ok (b ∷ s) ]

-- The body of a message as the class that the handler casts it to.
unfoldable pub as_error : Option Body → Result BodyError
as_error (some (Body.error b)) = ok b
as_error _ = err bad_pointer

unfoldable pub as_result : Option Body → Result BodyResult
as_result (some (Body.result b)) = ok b
as_result _ = err bad_pointer

unfoldable pub report_error : Connection → BodyError → Result Connection
report_error c error = do
  message ← c_string error.message
  ok (notify_error c (record { source = source_server; code = 0; message = message }))

unfoldable pub on_error : Connection → Message → Result Connection
on_error c response = do
  error ← as_error response.body
  if before_ready c.state then report_error c error else ok c

-- The request of a stream that was found: a CallerRequest* that is used.
unfoldable pub pointed : Option RequestPointer → Result ℕ
pointed (some (some r)) = ok r
pointed _ = err bad_pointer

abbrev pub set_result : Message → Request → Request
set_result response request = record request { result = some response }

-- `request->result = response; request->notify(loop_)`
unfoldable pub deliver : Connection → Option RequestPointer → Message → Result Connection
deliver c found response = do r ← pointed found; notify_request c r (set_result response)

-- request->data
unfoldable pub content_of : Connection → Option RequestPointer → Result Bytes
content_of c found = do
  r ← pointed found
  elim (get_elem? c.requests r) [ none ↦ err bad_pointer | some request ↦ ok request.content ]

unfoldable pub call_prepare :
    Connection → Option RequestPointer → Option Error → BodyResult → Result Connection
call_prepare c found error result =
    if c.has_prepare_callback
    then (content_of c found >>= λ content.
        ok (emit c (prepare_callback error content result.prepared.0)))
    else ok c

unfoldable pub deliver_prepared :
    Connection → Option RequestPointer → Option Error → BodyResult → Message → Result Connection
deliver_prepared c found error result response = do
  c' ← call_prepare c found error result
  elim error [ none ↦ deliver c' found response | some e ↦ ok c' ]

unfoldable pub deliver_other :
    Connection → Option RequestPointer → Option Error → Message → Result Connection
deliver_other c found none response = deliver c found response
deliver_other c found (some e) response =
    ok (if c.has_connect_callback then emit c (connect_callback (some e)) else c)

unfoldable pub on_keyspace : Connection → BodyResult → Connection
on_keyspace c result =
    if c.has_keyspace_callback then emit c (keyspace_callback result.keyspace.0) else c

unfoldable pub on_prepared : Connection → Message → BodyResult → Result Connection
on_prepared c response result = do
  (storage, found, error) ← get_stream c.stream_storage response.stream true
  deliver_prepared (record c { stream_storage = storage }) found error result response

unfoldable pub on_other : Connection → Message → Result Connection
on_other c response = do
  (storage, found, error) ← get_stream c.stream_storage response.stream true
  deliver_other (record c { stream_storage = storage }) found error response

-- The `switch` of `on_result`.
unfoldable pub on_kind : Connection → Message → BodyResult → Result Connection
on_kind c response result =
    if result.kind == kind_set_keyspace
    then ok (on_keyspace c result)
    else if result.kind == kind_prepared
    then on_prepared c response result
    else on_other c response

unfoldable pub on_result : Connection → Message → Result Connection
on_result c response = do result ← as_result response.body; on_kind c response result

module _ (alloc : Allocator) where
  -- A message with a negative stream is an event, for which there is no code yet.
  unfoldable pub on_message : Connection → Message → Result Connection
  on_message c message = do
    name ← opcode_to_string message.opcode
    if ltb message.stream 128 then by_opcode else err assertion
    where
      by_opcode : Result Connection
      by_opcode =
          if message.opcode == opcode_supported
          then on_supported alloc c message
          else if message.opcode == opcode_error
          then on_error c message
          else if message.opcode == opcode_ready
          then on_ready alloc c message
          else if message.opcode == opcode_result
          then on_result c message
          else err assertion

  -- The part of the loop of `consume` behind the call on the incoming message.
  unfoldable pub take_message : Connection → Message → Result Connection
  take_message c message =
      if message.body_ready
      then on_message (record c { incoming = new_message alloc }) message
      else ok (record c { incoming = message })

  -- while (remaining != 0), for at most `rounds` rounds. The source holds the count in an int, which
  -- is this number below 2^31 bytes; the conversion of a greater count is not modelled.
  unfoldable pub consume_loop : ℕ → Connection → Bytes → ℕ → Result Connection
  consume_loop zero c buffer remaining = if remaining == 0 then ok c else err no_rounds
  consume_loop (suc rounds) c buffer remaining = elim (remaining == 0) [
    | true ↦ ok c
    | false ↦ Message.consume alloc c.incoming buffer remaining >>= λ r.
        take_message c r.0 >>= λ c'. consume_loop rounds c' (drop r.1 buffer) (remaining - r.1)
  ]

  -- As many rounds as bytes; a run that needs more ends in `no_rounds`.
  unfoldable pub consume : Connection → Bytes → ℕ → Result Connection
  consume c input size = consume_loop size c input size

  -- `none` is a failed read, `nread == -1`.
  unfoldable pub on_read : Connection → Option Bytes → Result Connection
  on_read c none = ok (close c)
  on_read c (some buf) = consume c buf (length buf)
