-- ===== src/AgentProtocol/Terminal.antt =====
-- What one end writes as a terminal frame, the other end reads.
use nexigon.Base.{
  ℕ, ◌+◌, ◌-◌, ◌≤◌, ◌≡◌, refl, Bool, true, false, List, [], ◌∷◌, ◌++◌, length, subst, ap, sym, ◌∙◌,
  append_assoc, append-nil, to_be_bytes, arith, u32_max, le→leb, joined,
}
use nexigon.AgentProtocol.{
  Reader, Writer, ok, and_then, done_or_io, write_pieces, write_parts, read_exact_with_timeout,
  read_hub_terminal_frame, read_device_terminal_frame, hub_body, device_body, hub_data, device_data,
  read_terminal_header, max_terminal_data_len, terminal_data,
}
use nexigon.AgentProtocol.Streams.{
  ReaderLaws, WriterLaws, Gives, and_then-Gives, read_exact_with_timeout-Gives,
}
use nexigon.AgentProtocol.Reading.{read_terminal_header-Gives}

module _ {ℓ} {W : Type ℓ} {writer : Writer W} (laws : WriterLaws writer) where
  pub write_pieces-written :
      (w : W) (pieces : List (List ℕ))
      → (write_pieces writer w pieces).1 ≡ ok tt
      → laws.written (write_pieces writer w pieces).0 ≡ laws.written w ++ joined pieces
  unfolding write_pieces and_then
  write_pieces-written w [] h = flushed (writer.flush w).1 refl
    where
      flushed :
          (b : Bool)
          → (writer.flush w).1 ≡ b
          → laws.written (done_or_io ((writer.flush w).0, b)).0 ≡ laws.written w ++ []
      flushed true e = laws.keeps w ∙ sym (append-nil (laws.written w))
      flushed false e = laws.keeps w ∙ sym (append-nil (laws.written w))
  write_pieces-written w (bs ∷ rest) h =
      piece (write_pieces-written (writer.write_all w bs).0 rest) (writer.write_all w bs).1 refl h
    where
      piece :
          ((write_pieces writer (writer.write_all w bs).0 rest).1 ≡ ok tt
            → laws.written (write_pieces writer (writer.write_all w bs).0 rest).0
              ≡ laws.written (writer.write_all w bs).0 ++ joined rest)
          → (b : Bool) → (writer.write_all w bs).1 ≡ b
          → (and_then
              (done_or_io ((writer.write_all w bs).0, b))
              (λ w' done. write_pieces writer w' rest)).1
            ≡ ok tt
          → laws.written
              (and_then
                (done_or_io ((writer.write_all w bs).0, b))
                (λ w' done. write_pieces writer w' rest)).0
            ≡ laws.written w ++ (bs ++ joined rest)
      piece again true e k =
          again k
          ∙ ap (λ x. x ++ joined rest) (laws.appends w bs e)
          ∙ append_assoc (laws.written w) bs (joined rest)
      piece again false e k = absurd (cc)

-- The bytes of a terminal frame.
abbrev pub terminal_frame : ℕ → List ℕ → List ℕ
terminal_frame kind payload = to_be_bytes 4 (length payload + 1) ++ (kind ∷ payload)

module _ {ℓ} {W : Type ℓ} {writer : Writer W} (laws : WriterLaws writer) where
  pub write_parts-written :
      (w : W) (kind : ℕ) (payload : List ℕ)
      → length payload + 1 ≤ u32_max
      → (write_parts writer w kind payload).1 ≡ ok tt
      → laws.written (write_parts writer w kind payload).0
        ≡ laws.written w ++ terminal_frame kind payload
  unfolding write_parts
  write_parts-written w kind payload h = rw (le→leb _ _ h) (λ e.
      write_pieces-written laws w (to_be_bytes 4 (length payload + 1) ∷ (kind ∷ []) ∷ payload ∷ [])
        e
      ∙ ap (λ x. laws.written w ++ (to_be_bytes 4 (length payload + 1) ++ (kind ∷ x)))
          (append-nil payload))

module _ {ℓ} {R : Type ℓ} {reader : Reader R} (laws : ReaderLaws reader) where
  pub terminal_header :
      (r : R) (kind : ℕ) (payload rest : List ℕ)
      → length payload ≤ max_terminal_data_len
      → laws.Holds r (terminal_frame kind payload ++ rest)
      → Gives laws (read_terminal_header reader r) (ok (length payload + 1, kind)) (payload ++ rest)
  terminal_header r kind payload rest h holds =
      read_terminal_header-Gives laws r (length payload + 1) kind (payload ++ rest) (omega arith)
        (omega arith) (omega arith)
        (subst (laws.Holds r)
          (append_assoc (to_be_bytes 4 (length payload + 1)) (kind ∷ payload) rest) holds)

  hub_body-data :
      (s : R) (d rest : List ℕ)
      → laws.Holds s (d ++ rest)
      → Gives laws (hub_body reader s (length d + 1, terminal_data)) (ok (hub_data d)) rest
  unfolding hub_body
  hub_body-data s d rest k =
      and_then-Gives laws (read_exact_with_timeout reader s (length d + 1 - 1)) _ d
        (ok (hub_data d)) rest rest
        (read_exact_with_timeout-Gives laws s d rest (length d + 1 - 1) (omega arith) k)
        (λ t l. (refl, l))

  device_body-data :
      (s : R) (d rest : List ℕ)
      → laws.Holds s (d ++ rest)
      → Gives laws (device_body reader s (length d + 1, terminal_data)) (ok (device_data d)) rest
  unfolding device_body
  device_body-data s d rest k =
      and_then-Gives laws (read_exact_with_timeout reader s (length d + 1 - 1)) _ d
        (ok (device_data d)) rest rest
        (read_exact_with_timeout-Gives laws s d rest (length d + 1 - 1) (omega arith) k)
        (λ t l. (refl, l))

  pub read_data_frame :
      (r : R) (d rest : List ℕ)
      → length d ≤ max_terminal_data_len
      → laws.Holds r (terminal_frame terminal_data d ++ rest)
      → Gives laws (read_hub_terminal_frame reader r) (ok (hub_data d)) rest
        × Gives laws (read_device_terminal_frame reader r) (ok (device_data d)) rest
  unfolding read_hub_terminal_frame read_device_terminal_frame
  read_data_frame r d rest h holds = (
    and_then-Gives laws (read_terminal_header reader r) (hub_body reader)
        (length d + 1, terminal_data) (ok (hub_data d)) (d ++ rest) rest
        (terminal_header r terminal_data d rest h holds) (λ s k. hub_body-data s d rest k),
    and_then-Gives laws (read_terminal_header reader r) (device_body reader)
        (length d + 1, terminal_data) (ok (device_data d)) (d ++ rest) rest
        (terminal_header r terminal_data d rest h holds) (λ s k. device_body-data s d rest k),
  )
