-- ===== src/Message.antt =====
-- include/cql_message.hpp: a message, its assembly for sending, and its parsing from chunks.
pub mod Frame
pub mod Receive
pub mod Chunks
pub mod Split
pub mod RoundTrip
pub mod Casts
pub mod Progress
use uv_client_server.Base.{
  ℕ, ◌+◌, ◌-◌, ◌%◌, ◌^◌, [], Bool, true, false, Option, none, some, Result, ok, err, bad_alloc,
  assertion, out_of_bounds, get_elem?, suc, ◌>>=◌, if◌then◌else◌, ltb, leb, ◌==◌, drop,
}
use uv_client_server.Memory.{
  Bytes, Pointer, Allocator, new_char, offset, memcpy, block_of, load_32, htonl, fill,
}
use uv_client_server.Serialization.{encode_byte, encode_int, int32}
use uv_client_server.Opcode.{
  opcode_error, opcode_startup, opcode_ready, opcode_options, opcode_supported, opcode_query,
  opcode_result, opcode_prepare,
}
use uv_client_server.Body
use uv_client_server.Body.{
  Body, error, startup, ready, options, supported, query, result, prepare_statement,
}
use uv_client_server.Body.Block.{Prepared}
use uv_client_server.Body.Error.{new_error}
use uv_client_server.Body.Prepare.{new_prepare}
use uv_client_server.Body.Startup.{new_startup}
use uv_client_server.Body.Supported.{new_supported}
use uv_client_server.Body.Query.{new_query}
use uv_client_server.Body.Results.{new_result}

abbrev pub header_size : ℕ
header_size = 8

-- The two `char*` into the buffers are offsets; `length` and `received` are bit patterns of an
-- int32_t, `flags` and `stream` of an int8_t. `body_error` is indeterminate until it is set.
pub record Message : Type 0 where
  pub version : ℕ
  pub flags : ℕ
  pub stream : ℕ
  pub opcode : ℕ
  pub length : ℕ
  pub received : ℕ
  pub header_received : Bool
  pub header_buffer : Bytes
  pub header_buffer_pos : ℕ
  pub body : Option Body
  pub body_buffer : Bytes
  pub body_buffer_pos : ℕ
  pub body_ready : Bool
  pub body_error : Option Bool

-- Message()
unfoldable pub new_message : Allocator → Message
unfolding fill
new_message alloc = record {
  version = 0x02;
  flags = 0;
  stream = 0;
  opcode = 0;
  length = 0;
  received = 0;
  header_received = false;
  header_buffer = fill alloc.junk header_size;
  header_buffer_pos = 0;
  body = none;
  body_buffer = [];
  body_buffer_pos = 0;
  body_ready = false;
  body_error = none;
}

unfoldable pub allocate_body : ℕ → Result Body
allocate_body opcode =
    if opcode == opcode_result
    then ok (result new_result)
    else if opcode == opcode_prepare
    then ok (prepare_statement new_prepare)
    else if opcode == opcode_error
    then ok (error new_error)
    else if opcode == opcode_options
    then ok options
    else if opcode == opcode_startup
    then ok (startup new_startup)
    else if opcode == opcode_supported
    then ok (supported new_supported)
    else if opcode == opcode_query
    then ok (query new_query)
    else if opcode == opcode_ready
    then ok ready
    else err assertion

-- Message(opcode)
unfoldable pub new_message_with : Allocator → ℕ → Result Message
new_message_with alloc opcode = do
  body ← allocate_body opcode
  ok (record (new_message alloc) { opcode = opcode; body = some body })

-- The four stores into `buffer[0]` to `buffer[3]`, and `encode_int` behind them.
unfoldable pub write_header : Message → Pointer → Result Pointer
write_header m buffer = do
  buffer₁ ← encode_byte buffer m.version
  buffer₂ ← encode_byte buffer₁ m.flags
  buffer₃ ← encode_byte buffer₂ m.stream
  buffer₄ ← encode_byte buffer₃ m.opcode
  encode_int buffer₄ m.length

-- What `prepare` sets: `*output`, `size` and the message itself.
pub record Output : Type 0 where
  pub block : Bytes
  pub size : ℕ
  pub message : Message

-- The block, the size and the length after the test on `size`; a body that sets a size and no
-- output leaves the stores below without a block.
unfoldable pub place_header : Allocator → Message → Prepared → Result Output
place_header alloc m p =
    if p.size == 0
    then ok (record { block = new_char alloc header_size; size = header_size; message = m })
    else placed p.output
  where
    placed : Option Bytes → Result Output
    placed none = err out_of_bounds
    placed (some block) = ok (record {
      block = block;
      size = p.size;
      message = record m { length = int32 (p.size + 2 ^ 32 - header_size) };
    })

unfoldable pub prepare_with : Allocator → Message → Option Body → Result (Option Output)
prepare_with alloc m none = ok none
prepare_with alloc m (some body) = do
  prepared ← Body.prepare alloc body header_size 0
  out ← place_header alloc m prepared
  start ← offset out.block 0
  buffer ← write_header out.message start
  ok (some (record out { block = block_of buffer }))

-- `none` is `return false`.
unfoldable pub prepare : Allocator → Message → Result (Option Output)
prepare alloc m = prepare_with alloc m m.body

-- memcpy(block + pos, input, n)
unfoldable pub copy_to : Bytes → ℕ → Bytes → ℕ → Result Bytes
copy_to block pos input n = do start ← offset block pos; p ← memcpy start input n; ok (block_of p)

-- a >= b on int32_t
abbrev pub int_ge : ℕ → ℕ → Bool
int_ge a b = leb ((b + 2 ^ 31) % 2 ^ 32) ((a + 2 ^ 31) % 2 ^ 32)

abbrev pub sub_size : ℕ → ℕ → ℕ
sub_size a b = (a + 2 ^ 64 - b) % 2 ^ 64

-- header_buffer[i]
unfoldable pub byte : ℕ → Bytes → Result ℕ
byte i buffer = elim (get_elem? buffer i) [ none ↦ err out_of_bounds | some b ↦ ok b ]

-- The reads from a complete header, and the allocations that follow.
unfoldable pub read_header : Allocator → Message → Result Message
read_header alloc m = do
  version ← byte 0 m.header_buffer
  flags ← byte 1 m.header_buffer
  stream ← byte 2 m.header_buffer
  opcode ← byte 3 m.header_buffer
  raw ← load_32 (drop 4 m.header_buffer)
  let length = htonl raw
  buffer ← if ltb length (2 ^ 31) then ok (new_char alloc length) else err bad_alloc
  body ← allocate_body opcode
  ok (record m {
    version = version;
    flags = flags;
    stream = stream;
    opcode = opcode;
    length = length;
    header_buffer_pos = header_size;
    header_received = true;
    body_buffer = buffer;
    body_buffer_pos = 0;
    body = some body;
  })

-- What remains of `consume` once the header is there. `used` is `input_pos - input`, and `rest` is
-- the input from `input_pos` on. The second component is the value returned.
unfoldable pub consume_body : Message → Bytes → ℕ → ℕ → Result (Message × ℕ)
consume_body m rest size used =
    if int_ge (int32 (m.received + 2 ^ 32 - header_size)) m.length then complete else partial
  where
    overage : ℕ
    overage = int32 (m.received + 2 ^ 32 - m.length + 2 ^ 32 - header_size)

    needed : ℕ
    needed = sub_size (sub_size size used) overage

    consumed : Option Body → Bytes → Result (Option Body × Bool)
    consumed none buffer = err out_of_bounds
    consumed (some body) buffer = do (body', good) ← Body.consume body buffer; ok (some body', good)

    complete : Result (Message × ℕ)
    complete = do
      buffer ← copy_to m.body_buffer m.body_buffer_pos rest needed
      (body, good) ← consumed m.body buffer
      ok (
        record m {
          body_buffer = buffer;
          body_buffer_pos = m.body_buffer_pos + needed;
          body = body;
          body_error = if good then m.body_error else some true;
          body_ready = true;
        },
        used + needed,
      )

    partial : Result (Message × ℕ)
    partial = do
      buffer ← copy_to m.body_buffer m.body_buffer_pos rest (sub_size size used)
      ok (record m { body_buffer = buffer; body_buffer_pos = m.body_buffer_pos + size }, size)

-- `consume`, for the `size` bytes at `input`: the message afterwards, and the value returned.
unfoldable pub consume : Allocator → Message → Bytes → ℕ → Result (Message × ℕ)
consume alloc m input size =
    if m.header_received
    then consume_body m₁ input size 0
    else if int_ge received header_size
    then finish_header
    else more_header
  where
    received : ℕ
    received = int32 (m.received + size)

    m₁ : Message
    m₁ = record m { received = received }

    overage : ℕ
    overage = int32 (received + 2 ^ 32 - header_size)

    needed : ℕ
    needed = sub_size size overage

    finish_header : Result (Message × ℕ)
    finish_header = do
      header ← copy_to m.header_buffer m.header_buffer_pos input needed
      m₂ ← read_header alloc (record m₁ { header_buffer = header })
      consume_body m₂ (drop needed input) size needed

    more_header : Result (Message × ℕ)
    more_header = do
      header ← copy_to m.header_buffer m.header_buffer_pos input size
      ok (
        record m₁ { header_buffer = header; header_buffer_pos = m.header_buffer_pos + size },
        size,
      )
