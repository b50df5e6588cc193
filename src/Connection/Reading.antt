-- ===== src/Connection/Reading.antt =====
-- The loop of `consume` over a read that holds whole frames.
use uv_client_server.Base.{
  ℕ, zero, suc, ◌+◌, ◌-◌, ◌^◌, ◌≤◌, ◌<◌, ◌≡◌, refl, ap, ◌∙◌, List, [], ◌∷◌, ◌++◌, Bool, false, some,
  Result, ok, err, ◌>>=◌, ◌==◌, length, drop, arith, length-append, drop-length-append,
}
use uv_client_server.Memory.{Bytes, Allocator, new_char, fill}
use uv_client_server.Memory.Emits.{length-fill}
use uv_client_server.StreamStorage.Inv.{Inv}
use uv_client_server.Body
use uv_client_server.Body.{Body}
use uv_client_server.Message.{Message, new_message, allocate_body, header_size}
use uv_client_server.Message
use uv_client_server.Message.Receive.{header_of, completed, consume-whole}
use uv_client_server.Message.Chunks.{new_message-receiving}
use uv_client_server.Connection.{Connection}
use uv_client_server.Connection.Incoming
use uv_client_server.Connection.Incoming.{on_message, take_message, consume_loop, on_read}
use uv_client_server.Connection.Sending.{last_stream}
use uv_client_server.Connection.Received.{on_message-Valid}

-- A frame, with the body that its content is parsed as.
pub record Frame (alloc : Allocator) : Type 0 where
  pub version : ℕ
  pub flags : ℕ
  pub stream : ℕ
  pub opcode : ℕ
  pub content : Bytes
  pub blank : Body
  pub body : Body
  pub good : Bool
  pub allocated : allocate_body opcode ≡ ok blank
  pub parsed :
      Body.consume blank (content ++ drop (length content) (new_char alloc (length content)))
      ≡ ok (body, good)

module _ (alloc : Allocator) where
  abbrev pub header_bytes : Frame alloc → Bytes
  header_bytes f = header_of f.version f.flags f.stream f.opcode f.content

  -- The bytes of frames that follow each other.
  abbrev pub wires : List (Frame alloc) → Bytes
  wires [] = []
  wires (f ∷ frames) = header_bytes f ++ (f.content ++ wires frames)

  -- The message of a frame; `received` counts what follows the frame in the read too.
  abbrev pub message_of : Frame alloc → Bytes → Message
  message_of f more =
      completed f.version f.flags f.stream f.opcode f.content alloc (new_message alloc) f.body
        f.good (header_size + length (f.content ++ more))

  -- The handler on the message of each frame, in order, until one does not return.
  abbrev pub handle_all : Connection → List (Frame alloc) → Result Connection
  handle_all c [] = ok c
  handle_all c (f ∷ frames) =
      on_message alloc (record c { incoming = new_message alloc }) (message_of f (wires frames))
      >>= λ c'. handle_all c' frames

  bind_congruent :
      {A B : Type 0} (m : Result A) (f g : A → Result B)
      → ((a : A) → m ≡ ok a → f a ≡ g a)
      → (m >>= f) ≡ (m >>= g)
  bind_congruent (ok a) f g h = h a refl
  bind_congruent (err e) f g h = refl

  consume_frame :
      (c : Connection) (f : Frame alloc) (more : Bytes)
      → c.incoming ≡ new_message alloc
      → header_size + length (f.content ++ more) < 2 ^ 31
      → Message.consume alloc c.incoming
          (header_bytes f ++ (f.content ++ more))
          (length (header_bytes f ++ (f.content ++ more)))
        ≡ ok (message_of f more, header_size + length f.content)
  consume_frame c f more idle small =
      ap
        (λ m.
          Message.consume alloc m (header_bytes f ++ (f.content ++ more))
            (length (header_bytes f ++ (f.content ++ more))))
        (idle ∙ new_message-receiving alloc)
      ∙ consume-whole f.version f.flags f.stream f.opcode f.content alloc (new_message alloc)
          f.blank f.body f.good [] (fill alloc.junk header_size) (header_bytes f) more
          (omega (arith, length-fill alloc.junk header_size)) refl small f.allocated f.parsed

  consume_loop_frames :
      (rounds : ℕ) (c : Connection) (frames : List (Frame alloc))
      → c.incoming ≡ new_message alloc
      → Inv last_stream c.stream_storage
      → length (wires frames) < 2 ^ 31
      → length (wires frames) ≤ rounds
      → consume_loop alloc rounds c (wires frames) (length (wires frames)) ≡ handle_all c frames
  unfolding consume_loop take_message
  consume_loop_frames zero c [] idle v small enough = refl
  consume_loop_frames zero c (f ∷ frames) idle v small enough = absurd (omega arith)
  consume_loop_frames (suc rounds) c [] idle v small enough = refl
  consume_loop_frames (suc rounds) c (f ∷ frames) idle v small enough =
      rw (more, consume_loop)
        (rw (consume_frame c f (wires frames) idle (omega (arith, total))) (
          rw (rest, left)
            (bind_congruent
              (on_message alloc (record c { incoming = new_message alloc })
                (message_of f (wires frames)))
              (λ c'. consume_loop alloc rounds c' (wires frames) (length (wires frames)))
              (λ c'. handle_all c' frames)
              λ c' e.
                let (v', idle') =
                  (on_message-Valid alloc (record c { incoming = new_message alloc }) _
                      (v, refl)).holds
                    c' e in
                consume_loop_frames rounds c' frames idle' v' (omega (arith, total))
                  (omega (arith, total)))))
    where
      total : length (wires (f ∷ frames)) ≡ header_size + (length f.content + length (wires frames))
      total = omega (arith, length-append f.content (wires frames))

      more : (length (wires (f ∷ frames)) == 0) ≡ false
      more = ground (arith, total)

      rest : drop (header_size + length f.content) (wires (f ∷ frames)) ≡ wires frames
      rest =
          ap (λ n. drop n (wires (f ∷ frames))) size
          ∙ drop-length-append (header_bytes f ++ f.content) (wires frames)
        where
          size : header_size + length f.content ≡ length (header_bytes f ++ f.content)
          size = omega arith

      left : length (wires (f ∷ frames)) - (header_size + length f.content) ≡ length (wires frames)
      left = omega (arith, total)

  -- A read that holds whole frames, of less than 2^31 bytes in all, while no message is half
  -- received and the streams are in order, and where every content can be parsed: `on_message` is
  -- called on the message of each frame, in order, and on nothing else; the loop ends within its
  -- rounds.
  pub on_read_frames :
      (c : Connection) (frames : List (Frame alloc))
      → c.incoming ≡ new_message alloc
      → Inv last_stream c.stream_storage
      → length (wires frames) < 2 ^ 31
      → on_read alloc c (some (wires frames)) ≡ handle_all c frames
  unfolding on_read Incoming.consume
  on_read_frames c frames idle v small =
      consume_loop_frames (length (wires frames)) c frames idle v small (omega arith)
