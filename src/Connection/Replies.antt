-- ===== src/Connection/Replies.antt =====
-- What a response does to the request that it answers.
use uv_client_server.Base.{
  ℕ, ◌+◌, ◌≡◌, ◌≢◌, refl, ap, ◌∙◌, [], ◌∷◌, ◌++◌, map, true, false, none, some, Result, ok, err,
  out_of_bounds, ◌>>=◌, if◌then◌else◌, ◌==◌, get_elem?, set, get_elem?-set_self, get_elem?-set_ne,
  arith,
}
use uv_client_server.Memory.{Bytes}
use uv_client_server.Errors.{source_server}
use uv_client_server.StreamStorage.{available_streams}
use uv_client_server.StreamStorage.Inv.{Inv}
use uv_client_server.StreamStorage.Laws.{outstanding, get_stream_lem, lt_of_get}
use uv_client_server.Request.{Request, notify}
use uv_client_server.Body.{Body}
use uv_client_server.Body.Error.{BodyError}
use uv_client_server.Body.Results.{BodyResult, kind_set_keyspace, kind_prepared}
use uv_client_server.Message.{Message}
use uv_client_server.Connection.{
  Connection, wakeup, notify_request, notify_error, before_ready, stream_id_max,
}
use uv_client_server.Connection.Incoming.{
  c_string, as_error, as_result, on_kind, on_other, report_error, on_error, on_result, deliver,
  deliver_other, pointed, set_result,
}
use uv_client_server.Connection.Sending.{last_stream}

-- A connection before and after a response: the request `r` has it, and its stream is free again.
pub record Answered (c : Connection) (r stream : ℕ) (request : Request) (response : Message)
    (out : Result Connection) : Type 0 where
  pub after : Connection
  pub returned : out ≡ ok after
  pub answered :
      get_elem? after.requests r ≡ some (record request { result = some response; flag = true })
  pub others : (q : ℕ) → r ≢ q → get_elem? after.requests q ≡ get_elem? c.requests q
  pub woken : after.effects ≡ c.effects ++ map (wakeup r) (notify request).1
  pub released :
      (j : ℕ)
      → outstanding after.stream_storage j
        ≡ (if stream == j then none else outstanding c.stream_storage j)
  pub more :
      available_streams stream_id_max after.stream_storage
      ≡ available_streams stream_id_max c.stream_storage + 1
  pub valid : Inv last_stream after.stream_storage
  pub same_state : after.state ≡ c.state

notify_request-ok :
    (c : Connection) (r : ℕ) (update : Request → Request) {request : Request}
    → get_elem? c.requests r ≡ some request
    → notify_request c r update
      ≡ ok (record c {
        requests = set c.requests r (record (update request) { flag = true });
        effects = c.effects ++ map (wakeup r) (notify (update request)).1;
      })
unfolding notify_request notify
notify_request-ok c r update there = rw (there, notify_request)

-- A RESULT message, of no kind that is treated apart, for a stream in flight whose request exists,
-- while the streams are in order: the request of that
-- stream gets the message, is marked as done, and its callback is run or queued if it has one; no
-- other request changes; the stream is free again, and no other is.
pub on_result-Answered :
    (c : Connection) (response : Message) (body : BodyResult) (r : ℕ) (request : Request)
    → response.body ≡ some (Body.result body)
    → body.kind ≢ kind_set_keyspace
    → body.kind ≢ kind_prepared
    → Inv last_stream c.stream_storage
    → outstanding c.stream_storage response.stream ≡ some (some r)
    → get_elem? c.requests r ≡ some request
    → Answered c r response.stream request response (on_result c response)
unfolding on_result as_result on_kind on_other deliver_other deliver pointed notify
on_result-Answered c response body r request e not_keyspace not_prepared v flight there =
    let (storage, got, released, more, valid) =
      get_stream_lem last_stream c.stream_storage response.stream (some r) v flight in
    let is_other : (body.kind == kind_set_keyspace) ≡ false = ground arith in
    let is_plain : (body.kind == kind_prepared) ≡ false = ground arith in
    record {
      after = record c {
        stream_storage = storage;
        requests = set c.requests r (record request { result = some response; flag = true });
        effects = c.effects ++ map (wakeup r) (notify request).1;
      };
      returned =
          ap (λ b. as_result b >>= on_kind c response) e
          ∙ rw (is_other, is_plain, got)
              (notify_request-ok (record c { stream_storage = storage }) r (set_result response)
                there);
      answered = get_elem?-set_self c.requests r _ (lt_of_get c.requests r there);
      others = λ q other. get_elem?-set_ne c.requests r q _ other;
      woken = refl;
      released = released;
      more = more;
      valid = valid;
      same_state = refl;
    }

-- Once the connection is not before READY, an ERROR message is dropped: nothing changes, whatever
-- its stream and its request, so that the stream stays taken and the request is never woken.
-- Before that, its text up to a NUL goes to the connect callback; where no NUL ends it in its
-- block, it is read out of bounds.
pub on_error_lem :
    (c : Connection) (response : Message) (body : BodyError)
    → response.body ≡ some (Body.error body)
    → on_error c response ≡ (
        if before_ready c.state
        then (c_string body.message >>= λ text.
            ok (notify_error c (record { source = source_server; code = 0; message = text })))
        else ok c)
unfolding on_error as_error report_error
on_error_lem c response body e =
    ap (λ b. as_error b >>= λ error. if before_ready c.state then report_error c error else ok c) e

-- No NUL among the bytes.
abbrev pub NoNul : Bytes → Type 0
NoNul [] = Unit
NoNul (b ∷ bs) = (b ≢ 0) × NoNul bs

c_string_overrun : (bs : Bytes) → NoNul bs → c_string bs ≡ err out_of_bounds
unfolding c_string
c_string_overrun [] h = refl
c_string_overrun (b ∷ bs) h =
    let differs : (b == 0) ≡ false = ground (arith, h.0) in
    rw (differs, c_string) (rw (c_string_overrun bs h.1))

-- During the handshake, an ERROR message whose text no NUL ends in its block is read out of bounds.
pub on_error_unterminated :
    (c : Connection) (response : Message) (body : BodyError)
    → response.body ≡ some (Body.error body)
    → before_ready c.state ≡ true
    → NoNul body.message
    → on_error c response ≡ err out_of_bounds
on_error_unterminated c response body e early no_nul =
    on_error_lem c response body e ∙ rw (early, c_string_overrun body.message no_nul)
