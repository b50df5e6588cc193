-- ===== src/Memory.antt =====
-- The memory that the code in include/ reads and writes: blocks of `new char[n]`, pointers into
-- them, `memcpy`, and the byte order of an x86-64 host (little endian).
pub mod Emits
use uv_client_server.Base.{
  ℕ, zero, suc, ◌+◌, ◌*◌, ◌/◌, ◌%◌, ◌^◌, List, [], ◌∷◌, ◌++◌, Result, ok, err, out_of_bounds, ◌>>=◌,
}

abbrev pub Bytes : Type 0
Bytes = List ℕ

-- A `char*` that is written through: the bytes of its block before it, and those from it on.
pub record Pointer : Type 0 where
  pub before : Bytes
  pub after : Bytes

pub store : Pointer → ℕ → Result Pointer
store p b = elim p.after [
  | [] ↦ err out_of_bounds
  | _ ∷ rest ↦ ok (record { before = p.before ++ b ∷ []; after = rest })
]

-- The pointer past the bytes that are copied.
unfoldable pub memcpy : Pointer → Bytes → ℕ → Result Pointer
unfolding store
memcpy p src zero = ok p
memcpy p [] (suc n) = err out_of_bounds
memcpy p (b ∷ src) (suc n) = do q ← store p b; memcpy q src n

-- A `char*` that is read through is what is left of its block. These are the `n` bytes at it, and
-- the pointer past them.
unfoldable pub advance : Bytes → ℕ → Result (Bytes × Bytes)
advance p zero = ok ([], p)
advance [] (suc n) = err out_of_bounds
advance (b ∷ p) (suc n) = do (s, rest) ← advance p n; ok (b ∷ s, rest)

-- The allocator: `slack` usable bytes beyond those asked for, and what a new block holds.
pub record Allocator : Type 0 where
  pub slack : ℕ
  pub junk : ℕ → ℕ

unfoldable pub fill : (ℕ → ℕ) → ℕ → Bytes
fill junk zero = []
fill junk (suc n) = junk 0 ∷ fill (λ i. junk (suc i)) n

-- new char[n]
unfoldable pub new_char : Allocator → ℕ → Bytes
unfolding fill
new_char alloc n = fill alloc.junk (n + alloc.slack)

-- A pointer to the byte at `n` of a block.
unfoldable pub offset : Bytes → ℕ → Result Pointer
unfolding advance
offset block n = do (s, rest) ← advance block n; ok (record { before = s; after = rest })

-- The block that a pointer points into.
abbrev pub block_of : Pointer → Bytes
block_of p = p.before ++ p.after

-- How a uint16_t and a uint32_t lie in memory, and how they are read back.
abbrev pub store_16 : ℕ → Bytes
store_16 v = v % 256 ∷ v / 256 % 256 ∷ []

abbrev pub store_32 : ℕ → Bytes
store_32 v = v % 256 ∷ v / 256 % 256 ∷ v / 65536 % 256 ∷ v / 16777216 % 256 ∷ []

unfoldable pub load_16 : Bytes → Result ℕ
load_16 (a ∷ b ∷ rest) = ok (a + 256 * b)
load_16 _ = err out_of_bounds

unfoldable pub load_32 : Bytes → Result ℕ
load_32 (a ∷ b ∷ c ∷ d ∷ rest) = ok (a + 256 * b + 65536 * c + 16777216 * d)
load_32 _ = err out_of_bounds

-- `htons` and `ntohs`, `htonl` and `ntohl` swap the bytes of their argument.
abbrev pub htons : ℕ → ℕ
htons v = v % 256 * 256 + v / 256 % 256

abbrev pub htonl : ℕ → ℕ
htonl v = v % 256 * 16777216 + v / 256 % 256 * 65536 + v / 65536 % 256 * 256 + v / 16777216 % 256

-- Bytes in network order.
abbrev pub be_16 : ℕ → Bytes
be_16 v = v / 256 % 256 ∷ v % 256 ∷ []

abbrev pub be_32 : ℕ → Bytes
be_32 v = v / 16777216 % 256 ∷ v / 65536 % 256 ∷ v / 256 % 256 ∷ v % 256 ∷ []
