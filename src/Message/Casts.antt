-- ===== src/Message/Casts.antt =====
-- include/cql_message.hpp: the class of the body is that of the opcode.
use uv_client_server.Base.{
  ℕ, ◌≡◌, refl, sym, ap, ◌∙◌, subst, Bool, ◌||◌, true, false, Option, none, some, ok, arith, drop,
  Yields, Yields-ok, Yields-if, Yields-test, Yields-bind, Yields-any, Yields-from,
}
use uv_client_server.Memory.{Bytes, Allocator, load_32}
use uv_client_server.Opcode.{opcode_error, opcode_result}
use uv_client_server.Body
use uv_client_server.Body.{
  Body, opcode, error, startup, ready, options, supported, query, result, prepare_statement,
}
use uv_client_server.Body.Error.{BodyError}
use uv_client_server.Body.Results.{BodyResult}
use uv_client_server.Message
use uv_client_server.Message.{
  Message, new_message, allocate_body, read_header, consume_body, copy_to, byte,
}
use uv_client_server.Connection.Incoming.{as_error, as_result}

allocate_body-opcode : (name : ℕ) (b : Body) → allocate_body name ≡ ok b → opcode b ≡ name
unfolding allocate_body
allocate_body-opcode name b e = ground arith

consume-opcode :
    (b b' : Body) (buffer : Bytes) (good : Bool)
    → Body.consume b buffer ≡ ok (b', good)
    → opcode b' ≡ opcode b
unfolding Body.consume
consume-opcode (error b) b' buffer good e = ground arith
consume-opcode (startup b) b' buffer good e = ground arith
consume-opcode ready b' buffer good e = ground arith
consume-opcode options b' buffer good e = ground arith
consume-opcode (supported b) b' buffer good e = ground arith
consume-opcode (query b) b' buffer good e = ground arith
consume-opcode (result b) b' buffer good e = ground arith
consume-opcode (prepare_statement b) b' buffer good e = ground arith

-- The body of a message with this opcode; there is one once the header is there.
abbrev OfOpcode : Option Body → ℕ → (busy : Bool) → Type 0
OfOpcode (some b) name busy = opcode b ≡ name
OfOpcode none name busy = busy ≡ false

abbrev Typed : Message → Type 0
Typed m = OfOpcode m.body m.opcode (m.header_received || m.body_ready)

-- With the header there, the body is there.
abbrev TypedBody : Message → Type 0
TypedBody m = (b : Body) × (m.body ≡ some b) × (opcode b ≡ m.opcode)

read_header-Typed : (alloc : Allocator) (m : Message) → Yields TypedBody (read_header alloc m)
unfolding read_header
read_header-Typed alloc m = Yields-any (byte 0 m.header_buffer) λ version.
    Yields-any (byte 1 m.header_buffer) λ flags. Yields-any (byte 2 m.header_buffer) λ stream.
      Yields-any (byte 3 m.header_buffer) λ name.
        Yields-any (load_32 (drop 4 m.header_buffer)) λ raw. Yields-any _ λ buffer.
          Yields-from (allocate_body name) λ b e. Yields-ok (b, refl, allocate_body-opcode name b e)

body_of :
    (o : Option Body) (name : ℕ) (busy : Bool)
    → OfOpcode o name busy
    → busy ≡ true
    → (b : Body) × (o ≡ some b) × (opcode b ≡ name)
body_of (some b) name busy typed e = (b, refl, typed)
body_of none name busy typed e = cc

with_body-Typed :
    (m : Message) (rest : Bytes) (size used : ℕ) (b : Body)
    → opcode b ≡ m.opcode
    → Yields (λ r. Typed r.0) (consume_body (record m { body = some b }) rest size used)
unfolding consume_body
with_body-Typed m rest size used b typed =
    Yields-if _
      (Yields-any _ λ buffer.
        Yields-bind {P = λ r. OfOpcode r.0 m.opcode (m.header_received || true)} _
          (Yields-from (Body.consume b buffer)
            λ r e. Yields-ok (consume-opcode b r.0 buffer r.1 e ∙ typed))
          (λ r h. Yields-ok h))
      (Yields-any _ λ buffer. Yields-ok typed)

consume_body-Typed :
    (m : Message) (rest : Bytes) (size used : ℕ)
    → TypedBody m
    → Yields (λ r. Typed r.0) (consume_body m rest size used)
consume_body-Typed m rest size used (b, is, typed) =
    let same : m ≡ record m { body = some b } = ap (λ o. record m { body = o }) is in
    subst (λ n. Yields (λ r. Typed r.0) (consume_body n rest size used)) (sym same)
      (with_body-Typed m rest size used b typed)

consume-Typed :
    (alloc : Allocator) (m : Message) (input : Bytes) (size : ℕ)
    → Typed m
    → Yields (λ r. Typed r.0) (Message.consume alloc m input size)
unfolding Message.consume
consume-Typed alloc m input size typed =
    Yields-test m.header_received
      (λ there.
        consume_body-Typed _ input size 0
          (body_of m.body m.opcode _ typed (ap (λ b. b || m.body_ready) there)))
      (λ missing.
        Yields-if _
          (Yields-any _ λ header.
            Yields-bind {P = TypedBody} _ (read_header-Typed alloc _)
              (λ m₂ h. consume_body-Typed m₂ _ size _ h))
          (Yields-any _ λ header. Yields-ok typed))

-- What is left of a new message by the calls of `consume` on chunks, whatever these hold.
pub data Received (alloc : Allocator) : Message → Type 0 where
  fresh : Received alloc (new_message alloc)
  fed :
      {m m' : Message} {used : ℕ}
      → Received alloc m
      → (input : Bytes) (size : ℕ) → Message.consume alloc m input size ≡ ok (m', used)
      → Received alloc m'

Received-Typed : {alloc : Allocator} {m : Message} → Received alloc m → Typed m
unfolding new_message
Received-Typed fresh = refl
Received-Typed (fed {m} {m'} {used} r input size e) =
    (consume-Typed _ m input size (Received-Typed r)).holds (m', used) e

or_true : (b : Bool) → (b || true) ≡ true
or_true true = refl
or_true false = refl

abbrev Named : Option Body → ℕ → Type 0
Named o name = (b : Body) × (o ≡ some b) × (opcode b ≡ name)

cast_result : (o : Option Body) → Named o opcode_result → (b : BodyResult) × (as_result o ≡ ok b)
unfolding as_result
cast_result o (result b, e, is) = (b, ap as_result e)
cast_result o (b, e, is) = absurd (omega arith)

cast_error : (o : Option Body) → Named o opcode_error → (b : BodyError) × (as_error o ≡ ok b)
unfolding as_error
cast_error o (error b, e, is) = (b, ap as_error e)
cast_error o (b, e, is) = absurd (omega arith)

-- A message that any chunks have made ready has a body, of the class of its opcode: the casts of the
-- handlers of a RESULT and of an ERROR message give its body as that class.
pub casts_lem :
    {alloc : Allocator} {m : Message}
    → Received alloc m
    → m.body_ready ≡ true
    → ((b : Body) × (m.body ≡ some b) × (opcode b ≡ m.opcode))
      × (m.opcode ≡ opcode_result → (b : BodyResult) × (as_result m.body ≡ ok b))
      × (m.opcode ≡ opcode_error → (b : BodyError) × (as_error m.body ≡ ok b))
casts_lem {m = m} r e =
    let found : TypedBody m =
      body_of m.body m.opcode _ (Received-Typed r)
        (ap (λ b. m.header_received || b) e ∙ or_true m.header_received) in
    (
      found,
      (λ is. cast_result m.body (found.0, found.1, found.2 ∙ is)),
      (λ is. cast_error m.body (found.0, found.1, found.2 ∙ is)),
    )
