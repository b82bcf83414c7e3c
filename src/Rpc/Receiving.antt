-- ===== src/Rpc/Receiving.antt =====
-- crates/libs/nexigon-rpc/src/lib.rs: how the bytes of a call and of a result are read.
use nexigon.Base.{
  ℕ, ◌≤◌, ◌≡◌, refl, sym, subst, List, ◌++◌, append_assoc, true, false, ltb, length, to_be_bytes,
  from_be_bytes-to_be_bytes, length-to_be_bytes, arith,
}
use nexigon.Rpc.{
  Source, ok, and_then, or_err, max_action_name_size, max_input_size, max_output_size,
}
use nexigon.Rpc.Streams.{SourceLaws, Gives, and_then-Gives}
use nexigon.Rpc.Bytes.{read_body-Gives}
use nexigon.Rpc.Messages.{
  Host, read_input_size, read_name, read_action_header, read_action_body, read_action,
  read_response, read_failed, receive_failed,
}

-- The bytes of a call and of a result.
abbrev pub call_bytes : List ℕ → List ℕ → List ℕ
call_bytes name input =
    to_be_bytes 2 (length name) ++ (name ++ (to_be_bytes 4 (length input) ++ input))

abbrev pub result_bytes : List ℕ → List ℕ
result_bytes result = to_be_bytes 4 (length result) ++ result

module _ {ℓ} {R : Type ℓ} {source : Source R} (laws : SourceLaws source) where
  read_exact-Gives {κ} :
      {E : Type κ} (e : E) (r : R) (bs rest : List ℕ) (n : ℕ)
      → length bs ≡ n
      → laws.Holds r (bs ++ rest)
      → Gives laws (or_err e (source.read_exact r n)) (ok bs) rest
  read_exact-Gives {E = E} e r bs rest n same holds =
      let (got, behind) = laws.reads_exactly r bs rest holds in
      subst (λ m. Gives laws (or_err e (source.read_exact r m)) (ok bs) rest) same
        (subst
          (λ o. Gives laws {E = E} (or_err e ((source.read_exact r (length bs)).0, o)) (ok bs) rest)
          (sym got) (refl, behind))

  -- A length of `width` bytes.
  read_word-Gives {κ} :
      {E : Type κ} (e : E) (r : R) (width n : ℕ) (rest : List ℕ)
      → laws.Holds r (to_be_bytes width n ++ rest)
      → Gives laws (or_err e (source.read_exact r width)) (ok (to_be_bytes width n)) rest
  read_word-Gives e r width n rest holds =
      read_exact-Gives e r (to_be_bytes width n) rest width (length-to_be_bytes width n) holds

module _ {ℓ} {R : Type ℓ} {source : Source R} (laws : SourceLaws source) (host : Host)
    (room : (a b : ℕ) → host.reserve a b ≡ true) where
  read_input_size-Gives :
      (name : List ℕ) (size : ℕ) (rest : List ℕ) (r : R)
      → size ≤ max_input_size
      → laws.Holds r (to_be_bytes 4 size ++ rest)
      → Gives laws
          (read_input_size source host r name)
          (ok (record { name = name; input_size = size }))
          rest
  unfolding read_input_size
  read_input_size-Gives name size rest r h holds =
      let number = from_be_bytes-to_be_bytes 4 size (omega arith) in
      let small : ltb max_input_size size ≡ false = ground arith in
      and_then-Gives laws (or_err read_failed (source.read_exact r 4)) _ (to_be_bytes 4 size) _ rest
        rest (read_word-Gives laws read_failed r 4 size rest holds)
        (λ s left. rw (number, small) (refl, left))

  read_name-Gives :
      (name : List ℕ) (size : ℕ) (rest : List ℕ) (r : R)
      → size ≤ max_input_size
      → host.is_utf8 name ≡ true
      → laws.Holds r (name ++ (to_be_bytes 4 size ++ rest))
      → Gives laws
          (read_name source host r (length name))
          (ok (record { name = name; input_size = size }))
          rest
  unfolding read_name
  read_name-Gives name size rest r h valid holds =
      and_then-Gives laws (or_err read_failed (source.read_exact r (length name))) _ name _
        (to_be_bytes 4 size ++ rest) rest
        (read_exact-Gives laws read_failed r name (to_be_bytes 4 size ++ rest) (length name) refl
          holds)
        (λ s left. rw valid (read_input_size-Gives name size rest s h left))

  read_action_header-Gives :
      (name : List ℕ) (size : ℕ) (rest : List ℕ) (r : R)
      → length name ≤ max_action_name_size
      → size ≤ max_input_size
      → host.is_utf8 name ≡ true
      → laws.Holds r (to_be_bytes 2 (length name) ++ (name ++ (to_be_bytes 4 size ++ rest)))
      → Gives laws
          (read_action_header source host r)
          (ok (record { name = name; input_size = size }))
          rest
  unfolding read_action_header
  read_action_header-Gives name size rest r short h valid holds =
      let number = from_be_bytes-to_be_bytes 2 (length name) (omega arith) in
      let small : ltb max_action_name_size (length name) ≡ false = ground arith in
      and_then-Gives laws (or_err read_failed (source.read_exact r 2)) _
        (to_be_bytes 2 (length name)) _ (name ++ (to_be_bytes 4 size ++ rest)) rest
        (read_word-Gives laws read_failed r 2 (length name) (name ++ (to_be_bytes 4 size ++ rest))
          holds)
        (λ s left. rw (number, small) (read_name-Gives name size rest s h valid left))

  read_action_body-Gives :
      (name input rest : List ℕ) (r : R)
      → host.grants (length input) ≡ true
      → laws.Holds r (input ++ rest)
      → Gives laws
          (read_action_body source host r (record { name = name; input_size = length input }))
          (ok (record { action_name = name; input = input; permit = length input }))
          rest
  unfolding read_action_body and_then
  read_action_body-Gives name input rest r granted holds =
      let (same, left) =
        read_body-Gives laws host.reserve room input rest r (length input) refl holds in
      rw (granted, same) (refl, left)

  pub read_action-Gives :
      (name input rest : List ℕ) (r : R)
      → length name ≤ max_action_name_size
      → length input ≤ max_input_size
      → host.is_utf8 name ≡ true
      → host.grants (length input) ≡ true
      → laws.Holds r (call_bytes name input ++ rest)
      → Gives laws
          (read_action source host r)
          (ok (record { action_name = name; input = input; permit = length input }))
          rest
  unfolding read_action
  read_action-Gives name input rest r short h valid granted holds =
      let there : laws.Holds r (
          to_be_bytes 2 (length name)
          ++ (name ++ (to_be_bytes 4 (length input) ++ (input ++ rest)))) =
        subst (laws.Holds r)
          (rw
            (
              append_assoc (to_be_bytes 2 (length name))
                  (name ++ (to_be_bytes 4 (length input) ++ input)) rest,
              append_assoc name (to_be_bytes 4 (length input) ++ input) rest,
              append_assoc (to_be_bytes 4 (length input)) input rest,
            )
            refl)
          holds in
      and_then-Gives laws (read_action_header source host r) _
        (record { name = name; input_size = length input }) _ (input ++ rest) rest
        (read_action_header-Gives name (length input) (input ++ rest) r short h valid there)
        (λ s left. read_action_body-Gives name input rest s granted left)

  pub read_response-Gives :
      (result rest : List ℕ) (r : R)
      → length result ≤ max_output_size
      → host.grants (length result) ≡ true
      → laws.Holds r (result_bytes result ++ rest)
      → Gives laws (read_response source host r) (ok result) rest
  unfolding read_response
  read_response-Gives result rest r h granted holds =
      let there : laws.Holds r (to_be_bytes 4 (length result) ++ (result ++ rest)) =
        subst (laws.Holds r) (append_assoc (to_be_bytes 4 (length result)) result rest) holds in
      let number = from_be_bytes-to_be_bytes 4 (length result) (omega arith) in
      let small : ltb max_output_size (length result) ≡ false = ground arith in
      and_then-Gives laws (or_err receive_failed (source.read_exact r 4)) _
        (to_be_bytes 4 (length result)) _ (result ++ rest) rest
        (read_word-Gives laws receive_failed r 4 (length result) (result ++ rest) there)
        (λ s left.
          let (same, behind) =
            read_body-Gives laws host.reserve room result rest s (length result) refl left in
          rw (number, small, granted, same) (refl, behind))
