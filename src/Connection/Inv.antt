-- ===== src/Connection/Inv.antt =====
-- include/cql_client_connection.hpp: the streams of a connection under the sending methods and the
-- state machine.
use uv_client_server.Base.{
  ℕ, ◌≡◌, sym, inl, inr, true, none, Result, if◌then◌else◌, arith, dec_lt, subst, Bool-cases,
  Yields, Yields-ok, Yields-err, Yields-bind, Yields-any,
}
use uv_client_server.Memory.{Allocator}
use uv_client_server.StreamStorage.{StreamStorage, Returned, output, failed, set_stream, get_stream}
use uv_client_server.StreamStorage.Inv.{Inv}
use uv_client_server.StreamStorage.Laws.{set_stream_lem, set_stream_last, get_stream-Inv}
use uv_client_server.Message.{Message, new_message, new_message_with}
use uv_client_server.Message
use uv_client_server.Connection.{
  Connection, State, fresh, resolved, connected, handshake, supported, ready, disconnecting,
  disconnected, RequestPointer, connect_callback, emit, send_on, send_message, stream_id_max,
  notify_ready,
}
use uv_client_server.Connection.Handlers.{
  send_options, send_startup, on_state, ssl_handshake, event_received,
}
use uv_client_server.Opcode.{opcode_options, opcode_startup, opcode_to_string}
use uv_client_server.Connection.Sending.{last_stream}

-- The streams are in order, and `i` is the message that is coming in.
abbrev pub Valid : Message → Connection → Type 0
Valid i c = Inv last_stream c.stream_storage × (c.incoming ≡ i)

abbrev pub Ordered : Connection → Type 0
Ordered c = Inv last_stream c.stream_storage

pub forget : {i : Message} {m : Result Connection} → Yields (Valid i) m → Yields Ordered m
forget h = record { holds = λ c e. (h.holds c e).0 }

set_stream-Valid :
    (s : StreamStorage RequestPointer) (request : RequestPointer)
    → Inv last_stream s
    → Yields (λ r. Inv last_stream r.0) (set_stream stream_id_max s request)
set_stream-Valid s request v = elim (dec_lt s.available_streams_index last_stream) [
  | yes room ↦
      let (s', id, returned, _, _, _, _, _, v') = set_stream_lem last_stream s request v room in
      subst (Yields _) (sym returned) (Yields-ok v')
  | no full ↦
      subst (Yields _) (sym (set_stream_last last_stream s request v (omega (arith, v.index_le))).1)
        Yields-err
]

pub get_stream-Valid :
    (s : StreamStorage RequestPointer) (id : ℕ)
    → Inv last_stream s
    → Yields (λ r. Inv last_stream r.0) (get_stream s id true)
get_stream-Valid s id v = elim (get_stream-Inv last_stream s id v) [
  | inl e ↦ subst (Yields _) (sym e) Yields-err
  | inr (s', found, error, returned, v') ↦ subst (Yields _) (sym returned) (Yields-ok v')
]

module _ (alloc : Allocator) where
  send_on-Valid :
      {i : Message} (c : Connection) (m : Message) (r : StreamStorage RequestPointer × Returned ℕ)
      → Inv last_stream r.0
      → c.incoming ≡ i
      → Yields (λ r. Valid i r.0) (send_on alloc c m r.0 r.1)
  unfolding send_on
  send_on-Valid c m (storage, failed e) v e' = Yields-ok (v, e')
  send_on-Valid c m (storage, output id) v e' =
      Yields-any (Message.prepare alloc (record m { stream = id }))
        λ buf. Yields-any (opcode_to_string m.opcode) λ name. Yields-ok (v, e')

  pub send_message-Valid :
      {i : Message} (c : Connection) (m : Message) (request : RequestPointer)
      → Valid i c
      → Yields (λ r. Valid i r.0) (send_message alloc c m request)
  unfolding send_message
  send_message-Valid c m request v =
      Yields-bind (set_stream stream_id_max c.stream_storage request)
        (set_stream-Valid c.stream_storage request v.0) λ r v'. send_on-Valid c m r v' v.1

  pub send_options-Valid :
      {i : Message} (c : Connection) → Valid i c → Yields (Valid i) (send_options alloc c)
  unfolding send_options
  send_options-Valid c v = Yields-any (new_message_with alloc opcode_options) λ m.
      Yields-bind (send_message alloc c m none) (send_message-Valid c m none v) λ r v'. Yields-ok v'

  send_startup-Valid :
      {i : Message} (c : Connection) → Valid i c → Yields (Valid i) (send_startup alloc c)
  unfolding send_startup
  send_startup-Valid c v = Yields-any (new_message_with alloc opcode_startup) λ m.
      Yields-bind (send_message alloc c _ none) (send_message-Valid c _ none v) λ r v'. Yields-ok v'

  notify_ready-Valid : {i : Message} (c : Connection) → Valid i c → Valid i (notify_ready c)
  unfolding notify_ready
  notify_ready-Valid {i} c v = elim (Bool-cases c.has_connect_callback) [
    | inl e ↦ subst (λ b. Valid i (if b then emit c (connect_callback none) else c)) (sym e) v
    | inr e ↦ subst (λ b. Valid i (if b then emit c (connect_callback none) else c)) (sym e) v
  ]

  on_state-Valid :
      {i : Message} (s : State) (c : Connection) → Valid i c → Yields (Valid i) (on_state alloc s c)
  unfolding on_state ssl_handshake
  on_state-Valid fresh c v = Yields-ok v
  on_state-Valid resolved c v = Yields-ok v
  on_state-Valid connected c v = send_options-Valid _ v
  on_state-Valid handshake c v = send_options-Valid c v
  on_state-Valid supported c v = send_startup-Valid c v
  on_state-Valid ready c v = Yields-ok (notify_ready-Valid c v)
  on_state-Valid disconnecting c v = Yields-err
  on_state-Valid disconnected c v = Yields-err

  pub event_received-Valid :
      {i : Message} (c : Connection) → Valid i c → Yields (Valid i) (event_received alloc c)
  unfolding event_received
  event_received-Valid c v = on_state-Valid c.state c v
