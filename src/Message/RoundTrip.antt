-- ===== src/Message/RoundTrip.antt =====
-- A message that is prepared on one side and consumed on the other.
use uv_client_server.Base.{
  ◌+◌, ◌%◌, ◌^◌, ◌<◌, ◌≡◌, ◌≢◌, refl, ap, ap₂, ◌∙◌, [], ◌∷◌, ◌++◌, append-nil, true, some, ok,
  length, take, drop, arith,
}
use uv_client_server.Memory.{Bytes, Allocator, new_char, fill, be_32}
use uv_client_server.Memory.Emits.{length-fill}
use uv_client_server.Opcode.{opcode_startup}
use uv_client_server.Body
use uv_client_server.Body.{Body}
use uv_client_server.Body.Startup.{BodyStartup, new_startup, consume-startup}
use uv_client_server.Body.Startup
use uv_client_server.Message.{
  Message, Output, new_message, prepare, consume, allocate_body, header_size,
}
use uv_client_server.Message.Frame
use uv_client_server.Message.Frame.{Framed, prepare-Carries, wire_header}
use uv_client_server.Message.Receive.{header_of, completed, consume-whole}
use uv_client_server.Message.Chunks.{new_message-receiving}

parsed_startup :
    (b : BodyStartup) (rest : Bytes)
    → b.cql_version ≢ []
    → length b.cql_version < 2 ^ 16
    → length b.compression < 2 ^ 16
    → Body.consume (Body.startup new_startup) (Startup.payload b ++ rest)
      ≡ ok (Body.startup b, true)
unfolding Body.consume
parsed_startup b rest given hv hc = rw (consume-startup b rest given hv hc) refl

module _ (sender receiver : Allocator) (m : Message) (b : BodyStartup) where
  -- The message as the receiver has it.
  abbrev pub received_startup : Message
  received_startup =
      completed (m.version % 256) (m.flags % 256) (m.stream % 256) opcode_startup
        (Startup.payload b) receiver (new_message receiver) (Body.startup b) true
        (header_size + length (Startup.payload b))

  frame_bytes :
      (framed : Framed sender m (Startup.payload b) 0 (prepare sender m))
      → m.opcode ≡ opcode_startup
      → take framed.out.size framed.out.block
        ≡ header_of
            (m.version % 256)
            (m.flags % 256)
            (m.stream % 256)
            opcode_startup
            (Startup.payload b)
          ++ (Startup.payload b ++ [])
  frame_bytes framed is_startup =
      framed.bytes
      ∙ ap₂ (λ x xs. wire_header x ++ (Startup.payload b ++ xs)) framed.message framed.trailing_is
      ∙ ap₂
          (λ o n.
            m.version % 256 ∷ m.flags % 256 ∷ m.stream % 256 ∷ o % 256 ∷ be_32 n
            ++ (Startup.payload b ++ []))
          is_startup (omega arith)

  -- A STARTUP message with a version that is not empty, with a version and a compression of less
  -- than 2^16 bytes, and with a payload of less than 2^30: `prepare` succeeds, and a fresh message that consumes the frame consumes
  -- all of it, is ready, and has the version, the flags and the stream as bytes, the opcode and the
  -- body that were sent, whatever the two allocators.
  pub prepare-consume_startup :
      m.body ≡ some (Body.startup b)
      → m.opcode ≡ opcode_startup
      → b.cql_version ≢ []
      → length b.cql_version < 2 ^ 16
      → length b.compression < 2 ^ 16
      → length (Startup.payload b) < 2 ^ 30
      → (out : Output) × (prepare sender m ≡ ok (some out))
        × (consume receiver
              (new_message receiver)
              (take out.size out.block)
              (length (take out.size out.block))
            ≡ ok (received_startup, header_size + length (Startup.payload b)))
  unfolding allocate_body
  prepare-consume_startup has_body is_startup given hv hc small =
      let framed : Framed sender m (Startup.payload b) 0 (prepare sender m) =
        prepare-Carries sender m (Frame.startup b) has_body (omega arith) in
      (
        framed.out,
        framed.returned,
        ap₂ (λ x xs. consume receiver x xs (length xs)) (new_message-receiving receiver)
              (frame_bytes framed is_startup)
            ∙ consume-whole (m.version % 256) (m.flags % 256) (m.stream % 256) opcode_startup
                (Startup.payload b) receiver (new_message receiver) (Body.startup new_startup)
                (Body.startup b) true [] (fill receiver.junk header_size)
                (header_of (m.version % 256) (m.flags % 256) (m.stream % 256) opcode_startup
                  (Startup.payload b))
                [] (omega (arith, length-fill receiver.junk header_size)) refl
                (omega (arith, ap length (append-nil (Startup.payload b)))) refl
                (parsed_startup b
                  (drop (length (Startup.payload b))
                    (new_char receiver (length (Startup.payload b))))
                  given hv hc)
            ∙ ap
                (λ xs. ok (
                  completed (m.version % 256) (m.flags % 256) (m.stream % 256) opcode_startup
                      (Startup.payload b) receiver (new_message receiver) (Body.startup b) true
                      (header_size + length xs),
                  header_size + length (Startup.payload b),
                ))
                (append-nil (Startup.payload b)),
      )
