-- ===== src/AgentProtocol/Control.antt =====
-- Resize and exit frames, each of which is read in its own direction alone.
use nexigon.Base.{
  ℕ, ◌^◌, ◌<◌, ◌≡◌, refl, ap, subst, ◌∙◌, List, ◌++◌, arith, length, take, drop, to_be_bytes,
  from_be_bytes, from_be_bytes-to_be_bytes, length-to_be_bytes, length-append, take-append,
  drop-append, ◌+◌,
}
use nexigon.AgentProtocol.{
  Reader, ok, err, invalid_terminal_type, and_then, read_exact_with_timeout, require_terminal_len,
  read_terminal_header, hub_body, device_body, read_hub_terminal_frame, read_device_terminal_frame,
  resize, exit, terminal_resize, terminal_exit,
}
use nexigon.AgentProtocol.Streams.{ReaderLaws, Gives, and_then-Gives, read_exact_with_timeout-Gives}
use nexigon.AgentProtocol.Terminal.{terminal_frame, terminal_header}

module _ {ℓ} {R : Type ℓ} {reader : Reader R} (laws : ReaderLaws reader) where
  -- The header of a frame with four bytes of payload.
  fixed_header :
      (r : R) (kind : ℕ) (payload rest : List ℕ)
      → length payload ≡ 4
      → laws.Holds r (terminal_frame kind payload ++ rest)
      → Gives laws (read_terminal_header reader r) (ok (5, kind)) (payload ++ rest)
  fixed_header r kind payload rest four holds =
      subst (λ n. Gives laws (read_terminal_header reader r) (ok (n + 1, kind)) (payload ++ rest))
        four (terminal_header laws r kind payload rest (omega arith) holds)

  hub_body-resize :
      (s : R) (payload rest : List ℕ)
      → length payload ≡ 4
      → laws.Holds s (payload ++ rest)
      → Gives laws
          (hub_body reader s (5, terminal_resize))
          (ok (resize (from_be_bytes (take 2 payload)) (from_be_bytes (drop 2 payload))))
          rest
  unfolding hub_body require_terminal_len and_then
  hub_body-resize s payload rest four k =
      and_then-Gives laws (read_exact_with_timeout reader s 4) _ payload _ rest rest
        (read_exact_with_timeout-Gives laws s payload rest 4 four k) (λ t l. (refl, l))

  device_body-exit :
      (s : R) (payload rest : List ℕ)
      → length payload ≡ 4
      → laws.Holds s (payload ++ rest)
      → Gives laws
          (device_body reader s (5, terminal_exit))
          (ok (exit (from_be_bytes payload)))
          rest
  unfolding device_body require_terminal_len and_then
  device_body-exit s payload rest four k =
      and_then-Gives laws (read_exact_with_timeout reader s 4) _ payload _ rest rest
        (read_exact_with_timeout-Gives laws s payload rest 4 four k) (λ t l. (refl, l))

  dimensions :
      (cols rows : ℕ)
      → cols < 256 ^ 2
      → rows < 256 ^ 2
      → (length (to_be_bytes 2 cols ++ to_be_bytes 2 rows) ≡ 4)
        × (from_be_bytes (take 2 (to_be_bytes 2 cols ++ to_be_bytes 2 rows)) ≡ cols)
        × (from_be_bytes (drop 2 (to_be_bytes 2 cols ++ to_be_bytes 2 rows)) ≡ rows)
  dimensions cols rows h k =
      let c : length (to_be_bytes 2 cols) ≡ 2 = length-to_be_bytes 2 cols in
      (
        omega (
          arith,
          length-append (to_be_bytes 2 cols) (to_be_bytes 2 rows),
          c,
          length-to_be_bytes 2 rows,
        ),
        ap from_be_bytes (
              subst (λ n. take n (to_be_bytes 2 cols ++ to_be_bytes 2 rows) ≡ to_be_bytes 2 cols) c
                (take-append (to_be_bytes 2 cols) (to_be_bytes 2 rows)))
            ∙ from_be_bytes-to_be_bytes 2 cols h,
        ap from_be_bytes (
              subst (λ n. drop n (to_be_bytes 2 cols ++ to_be_bytes 2 rows) ≡ to_be_bytes 2 rows) c
                (drop-append (to_be_bytes 2 cols) (to_be_bytes 2 rows)))
            ∙ from_be_bytes-to_be_bytes 2 rows k,
      )

  pub read_resize_frame :
      (r : R) (cols rows : ℕ) (rest : List ℕ)
      → cols < 256 ^ 2
      → rows < 256 ^ 2
      → laws.Holds r
          (terminal_frame terminal_resize (to_be_bytes 2 cols ++ to_be_bytes 2 rows) ++ rest)
      → Gives laws (read_hub_terminal_frame reader r) (ok (resize cols rows)) rest
        × ((read_device_terminal_frame reader r).1 ≡ err (invalid_terminal_type terminal_resize))
  unfolding read_hub_terminal_frame read_device_terminal_frame
  read_resize_frame r cols rows rest h k holds =
      let (four, first, second) = dimensions cols rows h k in
      let payload = to_be_bytes 2 cols ++ to_be_bytes 2 rows in
      let header = fixed_header r terminal_resize payload rest four holds in
      (
        and_then-Gives laws (read_terminal_header reader r) (hub_body reader) (5, terminal_resize)
            (ok (resize cols rows)) (payload ++ rest) rest header
            (λ s l. rw (first, second) at (hub_body-resize s payload rest four l)),
        (and_then-Gives laws (read_terminal_header reader r) (device_body reader)
            (5, terminal_resize) (err (invalid_terminal_type terminal_resize)) (payload ++ rest)
            (payload ++ rest) header (λ s l. unfold device_body in (refl, l))).0,
      )

  pub read_exit_frame :
      (r : R) (code : ℕ) (rest : List ℕ)
      → code < 256 ^ 4
      → laws.Holds r (terminal_frame terminal_exit (to_be_bytes 4 code) ++ rest)
      → Gives laws (read_device_terminal_frame reader r) (ok (exit code)) rest
        × ((read_hub_terminal_frame reader r).1 ≡ err (invalid_terminal_type terminal_exit))
  unfolding read_hub_terminal_frame read_device_terminal_frame
  read_exit_frame r code rest h holds =
      let payload = to_be_bytes 4 code in
      let four : length payload ≡ 4 = length-to_be_bytes 4 code in
      let header = fixed_header r terminal_exit payload rest four holds in
      (
        and_then-Gives laws (read_terminal_header reader r) (device_body reader) (5, terminal_exit)
            (ok (exit code)) (payload ++ rest) rest header
            (λ s l.
              subst (λ v. Gives laws (device_body reader s (5, terminal_exit)) (ok (exit v)) rest)
                (from_be_bytes-to_be_bytes 4 code h) (device_body-exit s payload rest four l)),
        (and_then-Gives laws (read_terminal_header reader r) (hub_body reader) (5, terminal_exit)
            (err (invalid_terminal_type terminal_exit)) (payload ++ rest) (payload ++ rest) header
            (λ s l. unfold hub_body in (refl, l))).0,
      )
