-- ===== src/Tests/Casts.antt =====
-- A message that a read made ready.
use uv_client_server.Base.{◌≡◌, [], ◌∷◌, refl, true, some, ok, arith}
use uv_client_server.Opcode.{opcode_error, opcode_result}
use uv_client_server.Body.{Body, opcode}
use uv_client_server.Body.Error.{BodyError, new_error}
use uv_client_server.Body.Results.{BodyResult}
use uv_client_server.Message.{Message, new_message, allocate_body, consume}
use uv_client_server.Message.Chunks.{consume-chunked, feed}
use uv_client_server.Message.Receive.{completed}
use uv_client_server.Message.Casts.{Received, fresh, fed, casts_lem}
use uv_client_server.Connection.Incoming.{as_error, as_result}
use uv_client_server.Tests.Parts.{tight, content, read_body, parsed}

abbrev ready_message : Message
ready_message = completed 130 0 1 0 content tight (new_message tight) read_body true 16

received : Received tight ready_message
unfolding allocate_body consume new_message feed
received = fed fresh (130 ∷ 0 ∷ 1 ∷ 0 ∷ 0 ∷ 0 ∷ 0 ∷ 8 ∷ content) 16 (
    consume-chunked tight 130 0 1 0 content (Body.error new_error) read_body true []
      (130 ∷ 0 ∷ 1 ∷ 0 ∷ 0 ∷ 0 ∷ 0 ∷ 8 ∷ []) [] refl (λ e. cc) (omega arith) refl parsed)

casts_lem_example :
    ((b : Body) × (ready_message.body ≡ some b) × (opcode b ≡ 0))
    × (0 ≡ opcode_result → (b : BodyResult) × (as_result ready_message.body ≡ ok b))
    × (0 ≡ opcode_error → (b : BodyError) × (as_error ready_message.body ≡ ok b))
casts_lem_example = casts_lem received refl
