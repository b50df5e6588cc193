-- ===== src/SslSession/Steps.antt =====
-- include/cql_ssl_session.hpp: `read_write` on a session that reports no errors.
use uv_client_server.Base.{
  ℕ, ◌^◌, ◌<◌, ◌≤◌, ◌≡◌, refl, sym, ap₂, ◌∙◌, ◌⊎◌, inl, inr, append-nil, [], ◌++◌, false,
  Bool-cases, none, Result, ok, length, take, if◌then◌else◌, ltb, ◌==◌, is_negative, arith,
}
use uv_client_server.Memory.{Bytes, Allocator}
use uv_client_server.Memory.Emits.{length-take}
use uv_client_server.Serialization.{int32}
use uv_client_server.SslSession.{
  OpenSsl, Outputs, Step, check_error, encrypt, new_array, decrypt, feed, drain, go_on, read_write,
}

-- OpenSSL as it works when nothing fails: `fed` is what its buffer on the side of the network has
-- been given. That buffer takes what it guarantees, and may be full.
pub record IsHealthy {S : Type 0} (openssl : OpenSsl S) (alloc : Allocator) (fed : S → Bytes)
    : Type 0 where
  pub written :
      (s : S) (b : Bytes)
      → length b ≤ openssl.write_guarantee s
      → fed (openssl.network_write s b).0 ≡ fed s ++ b
  pub network_read : (s : S) (b : Bytes) (n : ℕ) → fed (openssl.network_read s b n).0 ≡ fed s
  pub ssl_read : (s : S) (b : Bytes) (n : ℕ) → fed (openssl.ssl_read s b n).0 ≡ fed s
  pub no_error : (s : S) (status : ℕ) → check_error openssl alloc s status ≡ none
  pub few : (s : S) → openssl.ssl_pending s < 2 ^ 31

module _ {S : Type 0} (openssl : OpenSsl S) (alloc : Allocator) (fed : S → Bytes) where
  -- A part that leaves alone what was fed.
  record Moved (out : Outputs) (s : S) (r : Result (Step S)) : Type 0 where
    step : Step S
    is : r ≡ ok step
    no_error : step.error ≡ none
    same_fed : fed step.session ≡ fed s
    same_size : step.outputs.read_size ≡ out.read_size

  -- A session with no room, that was given the same.
  abbrev pub Full : S → Type 0
  Full s = (full : S) × (openssl.write_guarantee full ≡ 0) × (fed full ≡ fed s)

  -- A part, or the whole, that feeds some of the input.
  pub record Fed (input : Bytes) (s : S) (r : Result (Step S)) : Type 0 where
    pub step : Step S
    pub is : r ≡ ok step
    pub no_error : step.error ≡ none
    pub grown : fed step.session ≡ fed s ++ take step.outputs.read_size input
    pub within : step.outputs.read_size ≤ length input
    pub some_fed : 0 < length input → (0 < step.outputs.read_size) ⊎ Full s

  module _ (healthy : IsHealthy openssl alloc fed) where
    decrypt-Moved : (out : Outputs) (s : S) → Moved out s (decrypt openssl alloc out s)
    unfolding decrypt new_array
    decrypt-Moved out s = elim (Bool-cases (int32 (openssl.ssl_pending s) == 0)) [
      | inl none_there ↦
          rw none_there
            (record { step = _; is = refl; no_error = refl; same_fed = refl; same_size = refl })
      | inr pending ↦
          let positive : is_negative (int32 (openssl.ssl_pending s)) ≡ false =
            ground (arith, healthy.few s) in
          rw (pending, positive)
            (record {
              step = _;
              is = refl;
              no_error = healthy.no_error _ _;
              same_fed = healthy.ssl_read s _ _;
              same_size = refl;
            })
    ]

    drain-Moved : (out : Outputs) (s : S) → Moved out s (drain openssl alloc out s)
    unfolding drain
    drain-Moved out s = elim (Bool-cases (openssl.network_pending s == 0)) [
      | inl none_there ↦
          rw none_there
            (record { step = _; is = refl; no_error = refl; same_fed = refl; same_size = refl })
      | inr pending ↦ rw pending (record {
        step = _;
        is = refl;
        no_error = healthy.no_error _ _;
        same_fed = healthy.network_read s _ _;
        same_size = refl;
      })
    ]

    some-Fed :
        (input : Bytes) (out : Outputs) (s : S) (n : ℕ)
        → 0 < n
        → n ≤ length input
        → n ≤ openssl.write_guarantee s
        → Fed input s (
            ok (record {
              session = (openssl.network_write s (take n input)).0;
              outputs = record out { read_size = n };
              error =
                  check_error openssl alloc
                    (openssl.network_write s (take n input)).0
                    (openssl.network_write s (take n input)).1;
            }))
    some-Fed input out s n h le room = record {
      step = _;
      is = refl;
      no_error = healthy.no_error _ _;
      grown = healthy.written s (take n input) (omega (arith, length-take n input le));
      within = le;
      some_fed = λ k. inl h;
    }

    feed-Fed :
        (input : Bytes) (out : Outputs) (s : S) → Fed input s (feed openssl alloc input out s)
    unfolding feed
    feed-Fed input out s = elim (Bool-cases (length input == 0)) [
      | inl nothing ↦ rw nothing (record {
        step = _;
        is = refl;
        no_error = refl;
        grown = sym (append-nil (fed s));
        within = omega arith;
        some_fed = λ h. ground arith;
      })
      | inr something ↦ elim (Bool-cases (openssl.write_guarantee s == 0)) [
        | inl full ↦
            rw (something, full)
              (record {
                step = _;
                is = refl;
                no_error = refl;
                grown = sym (append-nil (fed s));
                within = omega arith;
                some_fed = λ h. inr (s, ground arith, refl);
              })
        | inr open_room ↦
            let size =
              if ltb (length input) (openssl.write_guarantee s)
              then length input
              else openssl.write_guarantee s in
            rw (something, open_room)
              (some-Fed input out s size (ground arith) (ground arith) (ground arith))
      ]
    ]

    -- Without an error the next part runs.
    go_on-none :
        (part : Outputs → S → Result (Step S)) (step : Step S)
        → step.error ≡ none
        → go_on openssl alloc part step ≡ part step.outputs step.session
    go_on-none part step e = rw e refl

    -- A call without anything to write to the other side.
    pub read_write-Fed :
        (s : S) (input : Bytes) (out : Outputs)
        → Fed input s (read_write openssl alloc s input [] out)
    unfolding read_write encrypt
    read_write-Fed s input out =
        let first = decrypt-Moved out s in
        let second = feed-Fed input first.step.outputs first.step.session in
        let third = drain-Moved second.step.outputs second.step.session in
        rw
          (
            first.is,
            go_on-none (feed openssl alloc input) first.step first.no_error,
            second.is,
            go_on-none (drain openssl alloc) second.step second.no_error,
            third.is,
          )
          (record {
            step = third.step;
            is = refl;
            no_error = third.no_error;
            grown =
                third.same_fed
                ∙ second.grown
                ∙ ap₂ (λ a n. a ++ take n input) first.same_fed (sym third.same_size);
            within = omega (arith, second.within, third.same_size);
            some_fed = λ h. elim (second.some_fed h) [
              | inl some_taken ↦ inl (omega (arith, some_taken, third.same_size))
              | inr (full, no_room, same) ↦ inr (full, no_room, same ∙ first.same_fed)
            ];
          })
