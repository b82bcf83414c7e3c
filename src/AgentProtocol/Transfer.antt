-- ===== src/AgentProtocol/Transfer.antt =====
-- Round trips: what a writer sends reaches the reader at the other end, and nothing behind it is consumed.
use nexigon.Base.{
  ◌≢◌, ℕ, ◌+◌, ◌^◌, ◌<◌, ◌≤◌, ◌≡◌, refl, ap, sym, subst, ◌∙◌, Option, some, List, [], ◌∷◌, ◌++◌,
  arith, length, to_be_bytes, u32_max, ltb, Bool-cases, inl, inr, not_ltb→le, le→leb, append_assoc,
  append-nil, length-append, length-to_be_bytes, append_cancel, none,
}
use nexigon.AgentProtocol.{
  FrameError, Reader, Writer, Outcome, ok, err, read_exact_with_timeout, read_length,
  read_command_frame, write_command_frame, write_pieces, write_terminal_data, write_terminal_resize,
  write_terminal_exit, write_parts, read_hub_terminal_frame, read_device_terminal_frame, hub_data,
  device_data, resize, exit, terminal_data, terminal_resize, terminal_exit, max_terminal_data_len,
  max_command_frame_len, invalid_terminal_type, or_json, FrameError,
}
use nexigon.AgentProtocol.Streams.{
  ReaderLaws, WriterLaws, Gives, and_then-Gives, read_exact_with_timeout-Gives,
}
use nexigon.AgentProtocol.Reading.{read_length-Gives, verdict-ok}
use nexigon.AgentProtocol.Terminal.{
  terminal_frame, write_parts-written, write_pieces-written, read_data_frame,
}
use nexigon.AgentProtocol.Control.{read_resize_frame, read_exit_frame}

err-ne-ok : (x : FrameError) (o : Outcome (Unit {0})) → o ≡ err x → o ≢ ok tt
err-ne-ok x o e h = cc

module _ {ℓ κ} {W : Type ℓ} {R : Type κ} {writer : Writer W} {reader : Reader R}
    (sending : WriterLaws writer) (receiving : ReaderLaws reader) where
  sent_frame :
      (w w' : W) (kind : ℕ) (payload sent : List ℕ)
      → length payload + 1 ≤ u32_max
      → write_parts writer w kind payload ≡ (w', ok tt)
      → sending.written w' ≡ sending.written w ++ sent
      → sent ≡ terminal_frame kind payload
  sent_frame w w' kind payload sent h e s =
      append_cancel (sending.written w) sent (terminal_frame kind payload) (
        sym s
        ∙ ap (λ p. sending.written p.0) (sym e)
        ∙ write_parts-written sending w kind payload h (ap (λ p. p.1) e))

  data_accepted :
      (w w' : W) (bytes : List ℕ)
      → write_terminal_data writer w bytes ≡ (w', ok tt)
      → (length bytes ≤ max_terminal_data_len)
        × (write_parts writer w terminal_data bytes ≡ (w', ok tt))
  unfolding write_terminal_data
  data_accepted w w' bytes = elim (Bool-cases (ltb max_terminal_data_len (length bytes))) [
    | inl big ↦ rw big (λ e. absurd (err-ne-ok _ _ refl (ap (λ p. p.1) e)))
    | inr fits ↦ rw fits (λ e. (not_ltb→le _ _ fits, e))
  ]

  -- Terminal data that was written without an error is read, in both directions, as the same data.
  pub write_terminal_data-read :
      (w w' : W) (r : R) (bytes sent rest : List ℕ)
      → write_terminal_data writer w bytes ≡ (w', ok tt)
      → sending.written w' ≡ sending.written w ++ sent
      → receiving.Holds r (sent ++ rest)
      → Gives receiving (read_hub_terminal_frame reader r) (ok (hub_data bytes)) rest
        × Gives receiving (read_device_terminal_frame reader r) (ok (device_data bytes)) rest
  write_terminal_data-read w w' r bytes sent rest e s holds =
      let (fits, parts) = data_accepted w w' bytes e in
      let same = sent_frame w w' terminal_data bytes sent (omega arith) parts s in
      read_data_frame receiving r bytes rest fits
        (subst (λ x. receiving.Holds r (x ++ rest)) same holds)

  -- A resize that was written without an error is read by the agent with the same dimensions, which
  -- are 16-bit numbers, and refused by the hub as invalid in this direction.
  pub write_terminal_resize-read :
      (w w' : W) (r : R) (cols rows : ℕ) (sent rest : List ℕ)
      → cols < 256 ^ 2
      → rows < 256 ^ 2
      → write_terminal_resize writer w cols rows ≡ (w', ok tt)
      → sending.written w' ≡ sending.written w ++ sent
      → receiving.Holds r (sent ++ rest)
      → Gives receiving (read_hub_terminal_frame reader r) (ok (resize cols rows)) rest
        × ((read_device_terminal_frame reader r).1 ≡ err (invalid_terminal_type terminal_resize))
  unfolding write_terminal_resize
  write_terminal_resize-read w w' r cols rows sent rest h k e s holds =
      let payload = to_be_bytes 2 cols ++ to_be_bytes 2 rows in
      let four : length payload ≡ 4 = omega (
        arith,
        length-append (to_be_bytes 2 cols) (to_be_bytes 2 rows),
        length-to_be_bytes 2 cols,
        length-to_be_bytes 2 rows,
      ) in
      let same = sent_frame w w' terminal_resize payload sent (omega arith) e s in
      read_resize_frame receiving r cols rows rest h k
        (subst (λ x. receiving.Holds r (x ++ rest)) same holds)

  -- An exit that was written without an error is read by the hub with the same 32-bit code, and refused
  -- by the agent as invalid in this direction.
  pub write_terminal_exit-read :
      (w w' : W) (r : R) (code : ℕ) (sent rest : List ℕ)
      → code < 256 ^ 4
      → write_terminal_exit writer w code ≡ (w', ok tt)
      → sending.written w' ≡ sending.written w ++ sent
      → receiving.Holds r (sent ++ rest)
      → Gives receiving (read_device_terminal_frame reader r) (ok (exit code)) rest
        × ((read_hub_terminal_frame reader r).1 ≡ err (invalid_terminal_type terminal_exit))
  unfolding write_terminal_exit
  write_terminal_exit-read w w' r code sent rest h e s holds =
      let four : length (to_be_bytes 4 code) ≡ 4 = length-to_be_bytes 4 code in
      let same = sent_frame w w' terminal_exit (to_be_bytes 4 code) sent (omega arith) e s in
      read_exit_frame receiving r code rest h
        (subst (λ x. receiving.Holds r (x ++ rest)) same holds)

  or_json-Gives {μ} :
      {A : Type μ} (u r : R) (rest : List ℕ) (read : Option A)
      → receiving.Holds u rest
      → Gives receiving (or_json u read) (or_json r read).1 rest
  or_json-Gives u r rest (some a) m = (refl, m)
  or_json-Gives u r rest none m = (refl, m)

  command_accepted {μ} :
      {A : Type μ} (to_vec : A → Option (List ℕ)) (w w' : W) (frame : A) (bytes : List ℕ)
      → to_vec frame ≡ some bytes
      → write_command_frame writer to_vec w frame ≡ (w', ok tt)
      → (length bytes ≤ max_command_frame_len)
        × (write_pieces writer w (to_be_bytes 4 (length bytes) ∷ bytes ∷ []) ≡ (w', ok tt))
  unfolding write_command_frame
  command_accepted to_vec w w' frame bytes vec =
      rw vec (elim (Bool-cases (ltb max_command_frame_len (length bytes))) [
        | inl big ↦ rw big (λ e. absurd (err-ne-ok _ _ refl (ap (λ p. p.1) e)))
        | inr fits ↦
            rw (fits, le→leb (length bytes) u32_max (let h = not_ltb→le _ _ fits in omega arith))
              (λ e. (not_ltb→le _ _ fits, e))
      ])

  -- What a command frame was written as, without an error and as a text that is not empty, is read: the
  -- result is what the JSON reader makes of that text, a JSON error if it refuses it, and what follows is
  -- left unread.
  pub write_command_frame-read {μ} :
      {A : Type μ} (to_vec : A → Option (List ℕ)) (from_slice : List ℕ → Option A) (w w' : W)
      (r : R) (frame : A) (bytes sent rest : List ℕ)
      → to_vec frame ≡ some bytes
      → 0 < length bytes
      → write_command_frame writer to_vec w frame ≡ (w', ok tt)
      → sending.written w' ≡ sending.written w ++ sent
      → receiving.Holds r (sent ++ rest)
      → Gives receiving
          (read_command_frame reader from_slice r)
          (or_json r (from_slice bytes)).1
          rest
  unfolding read_command_frame
  write_command_frame-read to_vec from_slice w w' r frame bytes sent rest vec h e s holds =
      let (fits, pieces) = command_accepted to_vec w w' frame bytes vec e in
      let header = to_be_bytes 4 (length bytes) in
      let same : sent ≡ header ++ bytes = append_cancel (sending.written w) sent (header ++ bytes) (
        sym s
        ∙ ap (λ p. sending.written p.0) (sym pieces)
        ∙ write_pieces-written sending w (header ∷ bytes ∷ []) (ap (λ p. p.1) pieces)
        ∙ ap (λ x. sending.written w ++ (header ++ x)) (append-nil bytes)) in
      let there : receiving.Holds r (header ++ (bytes ++ rest)) =
        subst (receiving.Holds r) (ap (λ x. x ++ rest) same ∙ append_assoc header bytes rest)
          holds in
      and_then-Gives receiving (read_length reader r max_command_frame_len) _ (length bytes)
        (or_json r (from_slice bytes)).1 (bytes ++ rest) rest
        (subst (λ x. Gives receiving (read_length reader r max_command_frame_len) x (bytes ++ rest))
          (verdict-ok _ _ h fits)
          (read_length-Gives receiving r max_command_frame_len (length bytes) (bytes ++ rest)
            (omega arith) there))
        (λ t l.
          and_then-Gives receiving (read_exact_with_timeout reader t (length bytes)) _ bytes
            (or_json r (from_slice bytes)).1 rest rest
            (read_exact_with_timeout-Gives receiving t bytes rest (length bytes) refl l)
            (λ u m. or_json-Gives u r rest (from_slice bytes) m))
