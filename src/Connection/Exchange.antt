-- ===== src/Connection/Exchange.antt =====
-- A call and the response to it, end to end.
use uv_client_server.Base.{
  ℕ, ◌+◌, ◌^◌, ◌≤◌, ◌<◌, ◌≡◌, ◌≢◌, refl, sym, ap, ◌∙◌, inl, inr, [], ◌∷◌, ◌++◌, map, true, none,
  some, ok, ◌>>=◌, if◌then◌else◌, ◌==◌, length, get_elem?, arith, codes, ℕ_discrete, append-nil,
  Bool-cases,
}
use uv_client_server.Memory.{Bytes, Allocator}
use uv_client_server.Opcode.{opcode_query, opcode_event}
use uv_client_server.StreamStorage.{available_streams}
use uv_client_server.StreamStorage.Inv.{Inv}
use uv_client_server.StreamStorage.Laws.{outstanding}
use uv_client_server.Request.{Request, notify}
use uv_client_server.Body.{Body}
use uv_client_server.Body.Query.{BodyQuery, new_query, query_string}
use uv_client_server.Body.Query.Layout
use uv_client_server.Body.Results.{BodyResult, kind_set_keyspace, kind_prepared}
use uv_client_server.Message.{Message, new_message, new_message_with, allocate_body}
use uv_client_server.Message.Frame
use uv_client_server.Message.Frame.{Carries}
use uv_client_server.Connection.{
  Connection, write, wakeup, keyspace_callback, emit, stream_id_max, send_message,
}
use uv_client_server.Connection.Calls.{set_keyspace, with_query}
use uv_client_server.Connection.Incoming.{on_result, on_kind, as_result, on_keyspace}
use uv_client_server.Connection.Sending.{Sent, last_stream, frame_of, send_message-Carries}
use uv_client_server.Connection.Replies.{Answered, on_result-Answered}

-- A message that was sent for request `r`, and the response to its stream.
pub record Exchanged (alloc : Allocator) (c : Connection) (message response : Message) (r : ℕ)
    (request : Request) (frame : ℕ → Bytes) : Type 0 where
  pub stream : ℕ
  pub before : Connection
  pub after : Connection
  pub sent : send_message alloc c message (some r) ≡ ok (before, none)
  pub in_range : (0 < stream) × (stream ≤ last_stream)
  pub was_unused : outstanding c.stream_storage stream ≡ none
  pub returned : on_result before (record response { stream = stream }) ≡ ok after
  pub answered :
      get_elem? after.requests r
      ≡ some (record request { result = some (record response { stream = stream }); flag = true })
  pub others : (q : ℕ) → r ≢ q → get_elem? after.requests q ≡ get_elem? c.requests q
  pub effects :
      after.effects ≡ (c.effects ++ write (frame stream) ∷ []) ++ map (wakeup r) (notify request).1
  pub restored : (j : ℕ) → outstanding after.stream_storage j ≡ outstanding c.stream_storage j
  pub all_back :
      available_streams stream_id_max after.stream_storage
      ≡ available_streams stream_id_max c.stream_storage
  pub valid : Inv last_stream after.stream_storage

-- `send_message` of a message with a content for a request that is there, then a RESULT message for
-- the stream that it got, of no kind that is treated apart, while the streams are in order and one is
-- to spare, for a content of less than 2^31 bytes and an opcode that has a name: one frame goes out,
-- the request gets the response, is marked as done, and its callback is run or queued if it has one;
-- the other requests are as before; the same streams are in flight as before the call, and as many
-- are available.
pub send_message-on_result :
    (alloc : Allocator) (c : Connection) (message response : Message) (r : ℕ) (request : Request)
    (result : BodyResult) {body : Body} {payload : Bytes} {extra : ℕ}
    → get_elem? c.requests r ≡ some request
    → Carries body payload extra
    → message.body ≡ some body
    → length payload + extra < 2 ^ 31
    → message.opcode ≤ opcode_event
    → response.body ≡ some (Body.result result)
    → result.kind ≢ kind_set_keyspace
    → result.kind ≢ kind_prepared
    → Inv last_stream c.stream_storage
    → c.stream_storage.available_streams_index < last_stream
    → Exchanged alloc c message response r request (frame_of alloc message payload extra)
send_message-on_result alloc c message response r request result {body} {payload} {extra} there
      carries has_body small known is_result not_keyspace not_prepared v room =
    record {
      stream = s.stream;
      before = before;
      after = a.after;
      sent = s.returned;
      in_range = (s.positive, s.in_range);
      was_unused = s.unused;
      returned = a.returned;
      answered = a.answered;
      others = a.others;
      effects = a.woken;
      restored = λ j. restored j;
      all_back = omega (arith, a.more, s.fewer);
      valid = a.valid;
    }
  where
    s :
        Sent c
          (some r)
          (frame_of alloc message payload extra)
          (send_message alloc c message (some r))
    s = send_message-Carries alloc c message (some r) carries has_body small known v room

    before : Connection
    before = record c {
      stream_storage = s.storage;
      effects = c.effects ++ write (frame_of alloc message payload extra s.stream) ∷ [];
    }

    a :
        Answered before r s.stream request
          (record response { stream = s.stream })
          (on_result before (record response { stream = s.stream }))
    a =
        on_result-Answered before (record response { stream = s.stream }) result r request is_result
          not_keyspace not_prepared s.valid (ground (arith, s.taken s.stream)) there

    restored : (j : ℕ) → outstanding a.after.stream_storage j ≡ outstanding c.stream_storage j
    restored j = elim (ℕ_discrete s.stream j) [
      | yes same ↦
          ground (arith, a.released j, s.taken j, s.unused, ap (outstanding c.stream_storage) same)
      | no other ↦ ground (arith, a.released j, s.taken j)
    ]

module _ (alloc : Allocator) where
  unfoldable pub keyspace_query : Bytes → BodyQuery
  unfolding query_string
  keyspace_query keyspace = query_string new_query (codes "USE " ++ keyspace)

  abbrev pub keyspace_message : Bytes → Message
  keyspace_message keyspace = record (new_message alloc) {
    opcode = opcode_query;
    body = some (Body.query (keyspace_query keyspace));
  }

  abbrev pub keyspace_frame : Bytes → ℕ → Bytes
  keyspace_frame keyspace =
      frame_of alloc (keyspace_message keyspace) (Layout.payload (keyspace_query keyspace)) 0

-- A call of `set_keyspace`, and the response to its stream.
pub record KeyspaceSet (alloc : Allocator) (c : Connection) (keyspace : Bytes) (response : Message)
    (result : BodyResult) : Type 0 where
  pub stream : ℕ
  pub before : Connection
  pub after : Connection
  pub called : set_keyspace alloc c keyspace ≡ ok before
  pub returned : on_result before (record response { stream = stream }) ≡ ok after
  pub effects :
      after.effects
      ≡ (c.effects ++ write (keyspace_frame alloc keyspace stream) ∷ [])
        ++ (if c.has_keyspace_callback then keyspace_callback result.keyspace.0 ∷ [] else [])
  pub was_unused : outstanding c.stream_storage stream ≡ none
  pub still_taken : outstanding after.stream_storage stream ≡ some none
  pub fewer :
      available_streams stream_id_max after.stream_storage + 1
      ≡ available_streams stream_id_max c.stream_storage
  pub valid : Inv last_stream after.stream_storage

on_keyspace-cases :
    (c : Connection) (result : BodyResult)
    → on_keyspace c result ≡ record c {
      effects =
          c.effects
          ++ (if c.has_keyspace_callback then keyspace_callback result.keyspace.0 ∷ [] else []);
    }
unfolding on_keyspace
on_keyspace-cases c result = elim (Bool-cases c.has_keyspace_callback) [
  | inl e ↦
      ap (λ b. if b then emit c (keyspace_callback result.keyspace.0) else c) e
      ∙ ap
          (λ b. record c {
            effects = c.effects ++ (if b then keyspace_callback result.keyspace.0 ∷ [] else []);
          })
          (sym e)
  | inr e ↦
      ap (λ b. if b then emit c (keyspace_callback result.keyspace.0) else c) e
      ∙ ap (λ xs. record c { effects = xs }) (sym (append-nil c.effects))
      ∙ ap
          (λ b. record c {
            effects = c.effects ++ (if b then keyspace_callback result.keyspace.0 ∷ [] else []);
          })
          (sym e)
]

on_kind_keyspace :
    (c : Connection) (response : Message) (result : BodyResult)
    → result.kind ≡ kind_set_keyspace
    → on_kind c response result ≡ ok (on_keyspace c result)
unfolding on_kind
on_kind_keyspace c response result e =
    let kind_is : (result.kind == kind_set_keyspace) ≡ true = ground arith in rw (kind_is) refl

-- `set_keyspace` with the streams in order and one to spare, and a name that fits, then a RESULT message of the kind for a keyspace on that
-- stream: the USE statement goes out, and the callback gets the keyspace if it is set; but the
-- stream stays taken, so that one stream fewer is available than before.
pub set_keyspace-on_result :
    (alloc : Allocator) (c : Connection) (keyspace : Bytes) (response : Message)
    (result : BodyResult)
    → length (Layout.payload (keyspace_query alloc keyspace)) < 2 ^ 31
    → response.body ≡ some (Body.result result)
    → result.kind ≡ kind_set_keyspace
    → Inv last_stream c.stream_storage
    → c.stream_storage.available_streams_index < last_stream
    → KeyspaceSet alloc c keyspace response result
unfolding set_keyspace keyspace_query with_query new_message_with allocate_body on_result as_result
    on_kind query_string
set_keyspace-on_result alloc c keyspace response result small is_result is_keyspace v room =
    let message : Message = keyspace_message alloc keyspace in
    let s : Sent c none (keyspace_frame alloc keyspace) (send_message alloc c message none) =
      send_message-Carries alloc c message none (Frame.query (keyspace_query alloc keyspace) tt)
        refl (omega arith) (omega arith) v room in
    let before : Connection = record c {
      stream_storage = s.storage;
      effects = c.effects ++ write (keyspace_frame alloc keyspace s.stream) ∷ [];
    } in
    record {
      stream = s.stream;
      before = before;
      after = record before {
        effects =
            before.effects
            ++ (if c.has_keyspace_callback then keyspace_callback result.keyspace.0 ∷ [] else []);
      };
      called = rw (s.returned) refl;
      returned =
          ap (λ b. as_result b >>= on_kind before (record response { stream = s.stream })) is_result
          ∙ on_kind_keyspace before (record response { stream = s.stream }) result is_keyspace
          ∙ ap ok (on_keyspace-cases before result);
      effects = refl;
      was_unused = s.unused;
      still_taken = ground (arith, s.taken s.stream);
      fewer = s.fewer;
      valid = s.valid;
    }
