-- ===== src/Body/Block.antt =====
-- include/cql_body.hpp: what `Body::prepare` leaves behind.
use uv_client_server.Base.{
  ℕ, ◌+◌, ◌≡◌, refl, ◌++◌, append_assoc, Bool, true, Option, some, Result, ok, ◌>>=◌, length, take,
  drop, length-drop, arith,
}
use uv_client_server.Memory.{Bytes, Pointer, Allocator, new_char, offset, block_of}
use uv_client_server.Memory.Emits.{Emits, offset_lem, length-new_char, length-take}

-- `*output`, if it is set, `size`, and the value returned.
pub record Prepared : Type 0 where
  pub output : Option Bytes
  pub size : ℕ
  pub result : Bool

-- The last lines of a `prepare`: allocate `size` bytes, and write behind the reserved ones.
unfoldable pub write_block : Allocator → ℕ → ℕ → (Pointer → Result Pointer) → Result Prepared
write_block alloc reserved size write = do
  start ← offset (new_char alloc size) reserved
  buffer ← write start
  ok (record { output = some (block_of buffer); size = size; result = true })

-- The block has `reserved` bytes, then the payload; what is left of it is as it was allocated.
pub record Lays (alloc : Allocator) (reserved : ℕ) (payload : Bytes) (extra : ℕ)
    (r : Result Prepared) : Type 0 where
  pub head : Bytes
  pub tail : Bytes
  pub laid :
      r
      ≡ ok (record {
        output = some (head ++ (payload ++ tail));
        size = reserved + length payload + extra;
        result = true;
      })
  pub head_is : head ≡ take reserved (new_char alloc (reserved + length payload + extra))
  pub tail_is :
      tail
      ≡ drop (length payload) (drop reserved (new_char alloc (reserved + length payload + extra)))
  pub reserves : length head ≡ reserved
  pub trails : length tail ≡ extra + alloc.slack

pub write_block-Lays :
    (alloc : Allocator) (reserved size extra : ℕ) (write : Pointer → Result Pointer)
    (payload : Bytes)
    → Emits write payload
    → size ≡ reserved + length payload + extra
    → Lays alloc reserved payload extra (write_block alloc reserved size write)
unfolding write_block
write_block-Lays alloc reserved size extra write payload emits e = record {
  head = take reserved block;
  tail = drop (length payload) (drop reserved block);
  laid =
      rw
        (
          e,
          offset_lem block reserved (omega (arith, length-block)),
          emits (take reserved block) (drop reserved block)
              (omega (arith, length-block, length-drop reserved block)),
        )
        (rw (
          append_assoc (take reserved block) payload
            (drop (length payload) (drop reserved block))));
  head_is = refl;
  tail_is = refl;
  reserves = length-take reserved block (omega (arith, length-block));
  trails = omega (
    arith,
    length-block,
    length-drop reserved block,
    length-drop (length payload) (drop reserved block),
  );
}
  where
    block : Bytes
    block = new_char alloc (reserved + length payload + extra)

    length-block : length block ≡ reserved + length payload + extra + alloc.slack
    length-block = length-new_char alloc (reserved + length payload + extra)
