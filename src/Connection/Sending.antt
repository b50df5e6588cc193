-- ===== src/Connection/Sending.antt =====
-- `send_message`: a stream for the request, and the frame that goes out.
use uv_client_server.Base.{
  ℕ, ◌+◌, ◌^◌, ◌≤◌, ◌<◌, ◌≡◌, ap, ◌∙◌, inl, inr, [], ◌∷◌, ◌++◌, Option, none, some, Result, ok,
  if◌then◌else◌, ◌==◌, length, take, drop, arith,
}
use uv_client_server.Memory.{Bytes, Allocator, new_char}
use uv_client_server.Errors.{Error}
use uv_client_server.Opcode.{opcode_event, opcode_to_string-known}
use uv_client_server.StreamStorage.{StreamStorage, available_streams}
use uv_client_server.StreamStorage.Inv.{Inv}
use uv_client_server.StreamStorage.Laws.{outstanding, set_stream_lem}
use uv_client_server.Body.{Body}
use uv_client_server.Message.{Message, Output, header_size}
use uv_client_server.Message
use uv_client_server.Message.Frame.{
  Carries, Framed, prepare-Carries, wire_header, IsEmpty, prepare_empty,
}
use uv_client_server.Connection.{
  Connection, RequestPointer, write, send_on, send_message, stream_id_max,
}

-- `last` of the invariant, for 127 ids.
abbrev pub last_stream : ℕ
last_stream = 126

-- A sent message: the stream that its request got, and the connection afterwards.
pub record Sent (c : Connection) (request : RequestPointer) (frame : ℕ → Bytes)
    (r : Result (Connection × Option Error)) : Type 0 where
  pub storage : StreamStorage RequestPointer
  pub stream : ℕ
  pub returned :
      r
      ≡ ok (
        record c { stream_storage = storage; effects = c.effects ++ write (frame stream) ∷ [] },
        none,
      )
  pub positive : 0 < stream
  pub in_range : stream ≤ last_stream
  pub unused : outstanding c.stream_storage stream ≡ none
  pub taken :
      (j : ℕ)
      → outstanding storage j
        ≡ (if stream == j then some request else outstanding c.stream_storage j)
  pub fewer :
      available_streams stream_id_max storage + 1 ≡ available_streams stream_id_max c.stream_storage
  pub valid : Inv last_stream storage

-- `prepare` succeeds with a frame for every stream that the message may get.
abbrev Frames : Allocator → Message → (ℕ → Bytes) → Type 0
Frames alloc m frame =
    (id : ℕ)
    → (out : Output) × (Message.prepare alloc (record m { stream = id }) ≡ ok (some out))
      × (take out.size out.block ≡ frame id)

send_message-Sent :
    (alloc : Allocator) (c : Connection) (m : Message) (request : RequestPointer)
    (frame : ℕ → Bytes)
    → Frames alloc m frame
    → m.opcode ≤ opcode_event
    → Inv last_stream c.stream_storage
    → c.stream_storage.available_streams_index < last_stream
    → Sent c request frame (send_message alloc c m request)
unfolding send_message send_on
send_message-Sent alloc c m request frame frames known v room =
    let (storage, id, returned, positive, in_range, unused, taken, fewer, valid) =
      set_stream_lem last_stream c.stream_storage request v room in
    let (out, prepared, bytes) = frames id in
    let (name, named) = opcode_to_string-known m.opcode known in
    record {
      storage = storage;
      stream = id;
      returned =
          rw (returned, prepared, named)
            (ap
              (λ bs.
                ok (
                  record c { stream_storage = storage; effects = c.effects ++ write bs ∷ [] },
                  none,
                ))
              bytes);
      positive = positive;
      in_range = in_range;
      unused = unused;
      taken = taken;
      fewer = fewer;
      valid = valid;
    }

-- The frame of a message with a content, and of one without.
abbrev pub frame_of : Allocator → Message → Bytes → ℕ → ℕ → Bytes
frame_of alloc m payload extra id =
    wire_header (record m { stream = id; length = length payload + extra })
    ++ (payload
        ++ take extra (
            drop (length payload)
              (drop header_size (new_char alloc (header_size + length payload + extra)))))

abbrev pub header_frame : Message → ℕ → Bytes
header_frame m id = wire_header (record m { stream = id; length = 0 })

Carries-Frames :
    (alloc : Allocator) (m : Message) {body : Body} {payload : Bytes} {extra : ℕ}
    → Carries body payload extra
    → m.body ≡ some body
    → length payload + extra < 2 ^ 31
    → Frames alloc m (frame_of alloc m payload extra)
Carries-Frames alloc m {body} {payload} {extra} carries e small id =
    (framed.out, framed.returned, bytes)
  where
    framed :
        Framed alloc
          (record m { stream = id })
          payload
          extra
          (Message.prepare alloc (record m { stream = id }))
    framed = prepare-Carries alloc (record m { stream = id }) carries e small

    bytes : take framed.out.size framed.out.block ≡ frame_of alloc m payload extra id
    bytes =
        framed.bytes
        ∙ ap (λ x. wire_header x ++ (payload ++ framed.trailing)) framed.message
        ∙ ap (λ xs. frame_header ++ (payload ++ xs)) framed.trailing_is
      where
        frame_header : Bytes
        frame_header = wire_header (record m { stream = id; length = length payload + extra })

IsEmpty-Frames :
    (alloc : Allocator) (m : Message) {body : Body}
    → IsEmpty body
    → m.body ≡ some body
    → header_size ≤ alloc.slack
    → Frames alloc m (header_frame m)
IsEmpty-Frames alloc m empty e room id =
    elim (prepare_empty alloc (record m { stream = id }) empty e) [
      | inl (short, _) ↦ absurd (omega arith)
      | inr (_, (out, returned, bytes, _)) ↦ (out, returned, bytes)
    ]

-- While the streams are in order and fewer than 126 of them taken, a message whose content and
-- trailing bytes together are shorter than 2^31, and whose opcode is one of those that have a name, gets a stream that no request in
-- flight has, from 1 to 126; exactly one frame goes out, with that stream in its header; the
-- storage then has the request under the stream and is otherwise unchanged.
pub send_message-Carries :
    (alloc : Allocator) (c : Connection) (m : Message) (request : RequestPointer) {body : Body}
    {payload : Bytes} {extra : ℕ}
    → Carries body payload extra
    → m.body ≡ some body
    → length payload + extra < 2 ^ 31
    → m.opcode ≤ opcode_event
    → Inv last_stream c.stream_storage
    → c.stream_storage.available_streams_index < last_stream
    → Sent c request (frame_of alloc m payload extra) (send_message alloc c m request)
send_message-Carries alloc c m request {body} {payload} {extra} carries e small known v room =
    send_message-Sent alloc c m request (frame_of alloc m payload extra)
      (Carries-Frames alloc m carries e small) known v room

pub send_message-IsEmpty :
    (alloc : Allocator) (c : Connection) (m : Message) (request : RequestPointer) {body : Body}
    → IsEmpty body
    → m.body ≡ some body
    → header_size ≤ alloc.slack
    → m.opcode ≤ opcode_event
    → Inv last_stream c.stream_storage
    → c.stream_storage.available_streams_index < last_stream
    → Sent c request (header_frame m) (send_message alloc c m request)
send_message-IsEmpty alloc c m request empty e slack known v room =
    send_message-Sent alloc c m request (header_frame m) (IsEmpty-Frames alloc m empty e slack)
      known v room
