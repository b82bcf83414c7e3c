-- ===== src/Rpc/Bytes.antt =====
-- crates/libs/nexigon-rpc/src/lib.rs: the bytes of a message that is written, and a body read in chunks.
use nexigon.Base.{
  ℕ, zero, suc, ◌+◌, ◌≤◌, ◌≡◌, refl, sym, subst, ap, ◌∙◌, List, [], ◌∷◌, ◌++◌, append_assoc,
  append-nil, Bool, true, false, ltb, length, length-append, length-take, length-drop, take, drop,
  take-append-drop, take-append_short, drop-append_short, joined, arith,
}
use nexigon.Rpc.{
  Source, Sink, Timed, done, broken, late, Ending, ok, and_then, or_timed, TimedIoError,
}
use nexigon.Rpc.Bodies.{BodyReadError, on_chunk, next_size, read_body_from, read_body}
use nexigon.Rpc.Streams.{SourceLaws, SinkLaws, Gives}
use nexigon.Rpc.Messages.{send_pieces}

module _ {ℓ κ} {W : Type ℓ} {E : Type κ} {sink : Sink W} (laws : SinkLaws sink)
    (failure : TimedIoError → E) where
  after_piece :
      (w : W) (piece : List ℕ) (o : Timed (Unit {0})) (k : W → W × Ending E (Unit {0}))
      (rest : List ℕ)
      → (sink.write_all w piece).1 ≡ o
      → ((k (sink.write_all w piece).0).1 ≡ ok tt
          → laws.written (k (sink.write_all w piece).0).0
            ≡ laws.written (sink.write_all w piece).0 ++ rest)
      → (and_then (or_timed failure ((sink.write_all w piece).0, o)) (λ v _. k v)).1 ≡ ok tt
      → laws.written (and_then (or_timed failure ((sink.write_all w piece).0, o)) (λ v _. k v)).0
        ≡ laws.written w ++ (piece ++ rest)
  unfolding and_then
  after_piece w piece (done u) k rest e again h =
      again h
      ∙ ap (λ x. x ++ rest) (laws.appends w piece e)
      ∙ append_assoc (laws.written w) piece rest
  after_piece w piece broken k rest e again h = absurd (cc)
  after_piece w piece late k rest e again h = absurd (cc)

  flushed :
      (w : W) (o : Timed (Unit {0}))
      → laws.written (or_timed failure ((sink.flush w).0, o)).0 ≡ laws.written w ++ []
  flushed w (done u) = laws.keeps w ∙ sym (append-nil (laws.written w))
  flushed w broken = laws.keeps w ∙ sym (append-nil (laws.written w))
  flushed w late = laws.keeps w ∙ sym (append-nil (laws.written w))

  pub send_pieces-written :
      (w : W) (pieces : List (List ℕ))
      → (send_pieces sink failure w pieces).1 ≡ ok tt
      → laws.written (send_pieces sink failure w pieces).0 ≡ laws.written w ++ joined pieces
  unfolding send_pieces
  send_pieces-written w [] h = flushed w (sink.flush w).1
  send_pieces-written w (piece ∷ pieces) h =
      after_piece w piece (sink.write_all w piece).1 (λ v. send_pieces sink failure v pieces)
        (joined pieces) refl (send_pieces-written (sink.write_all w piece).0 pieces) h

on_chunk-done {ℓ κ} :
    {R : Type ℓ} {A : Type κ} (p : R × Timed (List ℕ)) (chunk : List ℕ)
    (k : R → List ℕ → R × Ending BodyReadError A)
    → p.1 ≡ done chunk
    → 1 ≤ length chunk
    → on_chunk p k ≡ k p.0 chunk
on_chunk-done (r, o) [] k e h = absurd (omega arith)
on_chunk-done (r, o) (b ∷ bs) k e h = rw e refl

module _ {ℓ} {R : Type ℓ} {source : Source R} (laws : SourceLaws source) (reserve : ℕ → ℕ → Bool)
    (room : (a b : ℕ) → reserve a b ≡ true) where
  read_body_from-Gives :
      (fuel size : ℕ) (body input rest : List ℕ) (r : R)
      → size ≡ length body + length input
      → length input ≤ fuel
      → laws.Holds r (input ++ rest)
      → Gives laws (read_body_from source reserve fuel size body r) (ok (body ++ input)) rest
  unfolding read_body_from
  read_body_from-Gives zero size body [] rest r e h holds =
      let full : ltb (length body) size ≡ false = ground arith in
      rw (full, append-nil body) (refl, holds)
  read_body_from-Gives zero size body (b ∷ input) rest r e h holds = absurd (omega arith)
  read_body_from-Gives (suc fuel) size body [] rest r e h holds =
      let full : ltb (length body) size ≡ false = ground arith in
      rw (full, append-nil body) (refl, holds)
  read_body_from-Gives (suc fuel) size body (b ∷ input) rest r e h holds =
      let short : ltb (length body) size ≡ true = ground arith in
      let n = next_size size (length body) in
      let some_room : 1 ≤ n = ground arith in
      let bound : n ≤ length (b ∷ input) = ground arith in
      let (k, one, most, all, got, behind) =
        laws.reads r ((b ∷ input) ++ rest) n some_room (omega arith) holds in
      let chunk = take k (b ∷ input) in
      let size_of_chunk : length chunk ≡ k = length-take k (b ∷ input) (omega arith) in
      let read : (source.read r n).1 ≡ done chunk =
        got ∙ ap done (take-append_short k (b ∷ input) rest (omega arith)) in
      let left : laws.Holds (source.read r n).0 (drop k (b ∷ input) ++ rest) =
        subst (laws.Holds (source.read r n).0) (drop-append_short k (b ∷ input) rest (omega arith))
          behind in
      let again =
        read_body_from-Gives fuel size (body ++ chunk) (drop k (b ∷ input)) rest (source.read r n).0
          (omega (arith, length-append body chunk, length-drop k (b ∷ input)))
          (omega (arith, length-drop k (b ∷ input))) left in
      rw
        (
          short,
          room (length body) n,
          on_chunk-done (source.read r n) chunk
              (λ s bs. read_body_from source reserve fuel size (body ++ bs) s) read (omega arith),
        )
        (subst
          (λ x.
            Gives laws (read_body_from source reserve fuel size (body ++ chunk) (source.read r n).0)
              (ok x) rest)
          (append_assoc body chunk (drop k (b ∷ input))
            ∙ ap (λ x. body ++ x) (take-append-drop k (b ∷ input)))
          again)

  pub read_body-Gives :
      (input rest : List ℕ) (r : R) (size : ℕ)
      → size ≡ length input
      → laws.Holds r (input ++ rest)
      → Gives laws (read_body source reserve r size) (ok input) rest
  unfolding read_body
  read_body-Gives input rest r size e holds =
      read_body_from-Gives size size [] input rest r (omega arith) (omega arith) holds
