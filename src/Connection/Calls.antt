-- ===== src/Connection/Calls.antt =====
-- include/cql_client_connection.hpp: the methods that a client of the connection calls.
use uv_client_server.Base.{
  ℕ, [], ◌∷◌, ◌++◌, Bool, Option, none, some, Result, ok, ◌>>=◌, length, take, codes,
}
use uv_client_server.Memory.{Bytes, Allocator}
use uv_client_server.Errors.{Error}
use uv_client_server.Opcode.{opcode_query, opcode_prepare}
use uv_client_server.Request.{Request, new_request}
use uv_client_server.Body.{Body}
use uv_client_server.Body.Query.{query_string}
use uv_client_server.Body.Prepare.{prepare_string}
use uv_client_server.Message.{Message, new_message_with}
use uv_client_server.Connection.{Connection, send_message, notify_request}

-- `null_string` is what `std::string(NULL)` does.
module _ (alloc : Allocator) (null_string : Result Bytes) where
  abbrev pub set_error : Error → Request → Request
  set_error e request = record request { error = some e }

  -- The request as the call leaves it, and its place.
  unfoldable pub start : Connection → (Request → Request) → Result (Connection × ℕ)
  start c fill = do
    request ← new_request null_string
    ok (record c { requests = c.requests ++ fill request ∷ [] }, length c.requests)

  unfoldable pub report : Connection → ℕ → Option Error → Result Connection
  report c r none = ok c
  report c r (some e) = notify_request c r (set_error e)

  unfoldable pub exec : Connection → Message → Bool → Result (Connection × ℕ)
  exec c message callback = do
    (c₁, r) ← start c (λ request. record request { callback = callback })
    (c₂, error) ← send_message alloc c₁ message (some r)
    c₃ ← report c₂ r error
    ok (c₃, r)

  unfoldable pub with_statement : Bytes → ℕ → Option Body → Option Body
  with_statement statement size (some (Body.prepare_statement b)) =
      some (Body.prepare_statement (prepare_string b statement size))
  with_statement statement size body = body

  unfoldable pub prepare : Connection → Bytes → ℕ → Bool → Result (Connection × ℕ)
  prepare c statement size callback = do
    (c₁, r) ←
        start c (λ request. record request { callback = callback; content = take size statement })
    message ← new_message_with alloc opcode_prepare
    (c₂, error) ←
        send_message alloc c₁ (record message { body = with_statement statement size message.body })
          (some r)
    c₃ ← report c₂ r error
    ok (c₃, r)

module _ (alloc : Allocator) where
  unfoldable pub with_query : Bytes → Option Body → Option Body
  with_query text (some (Body.query b)) = some (Body.query (query_string b text))
  with_query text body = body

  unfoldable pub set_keyspace : Connection → Bytes → Result Connection
  set_keyspace c keyspace = do
    message ← new_message_with alloc opcode_query
    (c', error) ←
        send_message alloc c
          (record message { body = with_query (codes "USE " ++ keyspace) message.body }) none
    ok c'
