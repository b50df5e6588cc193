-- ===== src/Memory/Emits.antt =====
-- What a writer puts at a pointer, and how writers compose.
use uv_client_server.Base.{
  ℕ, zero, suc, ◌+◌, ◌≤◌, ◌<◌, ◌≡◌, refl, sym, ap, ◌∙◌, [], ◌∷◌, ◌++◌, append-nil, append_assoc,
  Result, ok, err, out_of_bounds, ◌>>=◌, arith, length, drop, take, length-append, length-drop,
  drop-append, take-append-drop,
}
use uv_client_server.Memory.{Bytes, Pointer, memcpy, advance, Allocator, fill, new_char, offset}

abbrev pub at : Bytes → Bytes → Pointer
at before after = record { before = before; after = after }

-- In a block with room for them, `write` puts the bytes `bs` at its pointer, and returns the
-- pointer past them.
abbrev pub Emits : (Pointer → Result Pointer) → Bytes → Type 0
Emits write bs =
    (before after : Bytes)
    → length bs ≤ length after
    → write (at before after) ≡ ok (at (before ++ bs) (drop (length bs) after))

pub ok-Emits : Emits ok []
ok-Emits before after h = rw append-nil

pub >>=-Emits :
    (e f : Pointer → Result Pointer) (bs cs : Bytes)
    → Emits e bs
    → Emits f cs
    → Emits (λ p. e p >>= f) (bs ++ cs)
>>=-Emits e f bs cs he hf before after h =
    rw (he before after (omega (arith, length-append bs cs)), drop-append bs cs after)
      (hf (before ++ bs) (drop (length bs) after)
          (omega (arith, length-append bs cs, length-drop (length bs) after))
        ∙ ap (λ xs. ok (at xs (drop (length cs) (drop (length bs) after))))
            (append_assoc before bs cs))

pub memcpy-Emits : (bs more : Bytes) → Emits (λ p. memcpy p (bs ++ more) (length bs)) bs
unfolding memcpy
memcpy-Emits [] more before after h = rw append-nil
memcpy-Emits (b ∷ bs) more before [] h = elim h [ ]
memcpy-Emits (b ∷ bs) more before (x ∷ after) h =
    memcpy-Emits bs more (before ++ b ∷ []) after (omega arith)
    ∙ ap (λ xs. ok (at xs (drop (length bs) after))) (append_assoc before (b ∷ []) bs)

-- Copying a whole string.
pub memcpy_all : (bs : Bytes) → Emits (λ p. memcpy p bs (length bs)) bs
memcpy_all bs before after h =
    ap (λ xs. memcpy (at before after) xs (length bs)) (sym (append-nil bs))
    ∙ memcpy-Emits bs [] before after h

-- A copy that does not fit writes out of bounds.
pub memcpy_overrun :
    (n : ℕ) (src before after : Bytes)
    → length after < n
    → memcpy (at before after) src n ≡ err out_of_bounds
unfolding memcpy
memcpy_overrun zero src before after h = elim h [ ]
memcpy_overrun (suc n) [] before after h = refl
memcpy_overrun (suc n) (b ∷ src) before [] h = refl
memcpy_overrun (suc n) (b ∷ src) before (x ∷ after) h =
    memcpy_overrun n src (before ++ b ∷ []) after (omega arith)

pub advance-append : (s rest : Bytes) → advance (s ++ rest) (length s) ≡ ok (s, rest)
unfolding advance
advance-append [] rest = refl
advance-append (b ∷ s) rest = rw (advance-append s rest)

pub advance_lem : (n : ℕ) (p : Bytes) → n ≤ length p → advance p n ≡ ok (take n p, drop n p)
unfolding advance
advance_lem zero p h = refl
advance_lem (suc n) [] h = elim h [ ]
advance_lem (suc n) (b ∷ p) h = rw (advance_lem n p (omega arith))

pub advance_overrun : (n : ℕ) (p : Bytes) → length p < n → advance p n ≡ err out_of_bounds
unfolding advance
advance_overrun zero p h = elim h [ ]
advance_overrun (suc n) [] h = refl
advance_overrun (suc n) (b ∷ p) h = rw (advance_overrun n p (omega arith))

pub offset_lem :
    (block : Bytes) (n : ℕ)
    → n ≤ length block
    → offset block n ≡ ok (at (take n block) (drop n block))
unfolding offset
offset_lem block n h = rw (advance_lem n block h)

pub length-fill : (junk : ℕ → ℕ) (n : ℕ) → length (fill junk n) ≡ n
unfolding fill
length-fill junk zero = refl
length-fill junk (suc n) = ap suc (length-fill (λ i. junk (suc i)) n)

pub length-new_char : (alloc : Allocator) (n : ℕ) → length (new_char alloc n) ≡ n + alloc.slack
unfolding new_char
length-new_char alloc n = length-fill alloc.junk (n + alloc.slack)

pub length-take : (n : ℕ) (xs : Bytes) → n ≤ length xs → length (take n xs) ≡ n
length-take n xs h = omega (
  arith,
  ap length (take-append-drop n xs),
  length-append (take n xs) (drop n xs),
  length-drop n xs,
)

module _ (got spare bs more : Bytes) where
  pub offset-append : offset (got ++ spare) (length got) ≡ ok (at got spare)
  unfolding offset
  offset-append = rw (advance-append got spare)
