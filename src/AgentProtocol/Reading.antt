-- ===== src/AgentProtocol/Reading.antt =====
-- Reading the header of a frame: its declared length is checked before anything behind it is read.
use nexigon.Base.{
  from_be_bytes-one, ℕ, ◌≤◌, ◌<◌, ◌≡◌, ◌==◌, refl, false, Option, List, [], ◌∷◌, ◌++◌, length,
  subst, ap, sym, append_assoc, take, drop, to_be_bytes, from_be_bytes-to_be_bytes,
  length-to_be_bytes, take-append-drop, length-take, length-drop, arith, if◌then◌else◌, ltb, inl,
  inr, Bool-cases, le→not_ltb, ◌^◌, ◌∙◌, ◌-◌,
}
use nexigon.AgentProtocol.{
  Reader, Outcome, ok, err, FrameError, empty, too_large, or_io, read_exact_with_timeout,
  check_length, read_length, read_terminal_header, max_terminal_frame_len, max_command_frame_len,
  read_hub_terminal_frame, read_device_terminal_frame, read_command_frame, hub_body, device_body,
}
use nexigon.AgentProtocol.Streams.{
  ReaderLaws, Gives, and_then-Gives, and_then-Gives_err, read_exact-Gives,
  read_exact_with_timeout-Gives,
}

-- What a declared length amounts to.
abbrev pub verdict : (limit len : ℕ) → Outcome ℕ
verdict limit len =
    if len == 0 then err empty else if ltb limit len then err (too_large len limit) else ok len

pub verdict-ok : (limit len : ℕ) → 0 < len → len ≤ limit → verdict limit len ≡ ok len
verdict-ok limit len h k =
    let some_len : (len == 0) ≡ false = ground arith in rw (some_len, le→not_ltb _ _ k) refl

module _ {ℓ} {R : Type ℓ} {reader : Reader R} (laws : ReaderLaws reader) where
  check_length-Gives :
      (r : R) (limit len : ℕ) (rest : List ℕ)
      → laws.Holds r rest
      → Gives laws (check_length reader r limit len) (verdict limit len) rest
  unfolding check_length
  check_length-Gives r limit len rest h = elim (Bool-cases (len == 0)) [
    | inl z ↦ rw z (refl, h)
    | inr nz ↦ rw nz (elim (Bool-cases (ltb limit len)) [
      | inl big ↦ rw big (refl, h)
      | inr fits ↦ rw fits (refl, h)
    ])
  ]

  pub read_length-Gives :
      (r : R) (limit len : ℕ) (rest : List ℕ)
      → len < 256 ^ 4
      → laws.Holds r (to_be_bytes 4 len ++ rest)
      → Gives laws (read_length reader r limit) (verdict limit len) rest
  unfolding read_length
  read_length-Gives r limit len rest small h =
      let four : length (to_be_bytes 4 len) ≡ 4 = length-to_be_bytes 4 len in
      let first = take 1 (to_be_bytes 4 len) in
      let others = drop 1 (to_be_bytes 4 len) in
      let whole : first ++ others ≡ to_be_bytes 4 len = take-append-drop 1 (to_be_bytes 4 len) in
      let parts : laws.Holds r (first ++ (others ++ rest)) =
        subst (laws.Holds r) (ap (λ x. x ++ rest) (sym whole) ∙ append_assoc first others rest) h in
      and_then-Gives laws (or_io (reader.read_exact r 1)) _ first (verdict limit len)
        (others ++ rest) rest
        (read_exact-Gives laws r first (others ++ rest) 1
          (length-take 1 (to_be_bytes 4 len) (omega (arith, four))) parts)
        (λ s k.
          and_then-Gives laws (read_exact_with_timeout reader s 3) _ others (verdict limit len) rest
            rest
            (read_exact_with_timeout-Gives laws s others rest 3
              (length-drop 1 (to_be_bytes 4 len) ∙ ap (λ n. n - 1) four) k)
            (λ t l.
              rw (whole, from_be_bytes-to_be_bytes 4 len small)
                (check_length-Gives t limit len rest l)))

  pub read_terminal_header-Gives :
      (r : R) (len kind : ℕ) (rest : List ℕ)
      → len < 256 ^ 4
      → 0 < len
      → len ≤ max_terminal_frame_len
      → laws.Holds r (to_be_bytes 4 len ++ (kind ∷ rest))
      → Gives laws (read_terminal_header reader r) (ok (len, kind)) rest
  unfolding read_terminal_header
  read_terminal_header-Gives r len kind rest small h k holds =
      and_then-Gives laws (read_length reader r max_terminal_frame_len) _ len (ok (len, kind))
        (kind ∷ rest) rest
        (subst (λ x. Gives laws (read_length reader r max_terminal_frame_len) x (kind ∷ rest))
          (verdict-ok _ _ h k)
          (read_length-Gives r max_terminal_frame_len len (kind ∷ rest) small holds))
        (λ s l.
          and_then-Gives laws (read_exact_with_timeout reader s 1) _ (kind ∷ []) (ok (len, kind))
            rest rest (read_exact_with_timeout-Gives laws s (kind ∷ []) rest 1 refl l)
            (λ t m. (ap (λ n. ok (len, n)) (from_be_bytes-one kind), m)))

  -- A terminal reader refuses a frame whose declared length is 0 or beyond the limit with that error,
  -- and has then read the length alone: no byte of the body, whatever the peer declared.
  pub read_terminal_frames-refuse :
      (r : R) (len : ℕ) (e : FrameError) (rest : List ℕ)
      → len < 256 ^ 4
      → laws.Holds r (to_be_bytes 4 len ++ rest)
      → verdict max_terminal_frame_len len ≡ err e
      → Gives laws (read_hub_terminal_frame reader r) (err e) rest
        × Gives laws (read_device_terminal_frame reader r) (err e) rest
  unfolding read_hub_terminal_frame read_device_terminal_frame read_terminal_header
  read_terminal_frames-refuse r len e rest small holds v =
      let refused = and_then-Gives_err laws (read_length reader r max_terminal_frame_len) _ e rest (
        subst (λ x. Gives laws (read_length reader r max_terminal_frame_len) x rest) v
          (read_length-Gives r max_terminal_frame_len len rest small holds)) in
      (
        and_then-Gives_err laws (read_terminal_header reader r) (hub_body reader) e rest refused,
        and_then-Gives_err laws (read_terminal_header reader r) (device_body reader) e rest refused,
      )

  -- The reader of commands does the same with its own limit.
  pub read_command_frame-refuses {κ} :
      {A : Type κ} (from_slice : List ℕ → Option A) (r : R) (len : ℕ) (e : FrameError)
      (rest : List ℕ)
      → len < 256 ^ 4
      → laws.Holds r (to_be_bytes 4 len ++ rest)
      → verdict max_command_frame_len len ≡ err e
      → Gives laws (read_command_frame reader from_slice r) (err e) rest
  unfolding read_command_frame
  read_command_frame-refuses from_slice r len e rest small holds v =
      and_then-Gives_err laws (read_length reader r max_command_frame_len) _ e rest (
        subst (λ x. Gives laws (read_length reader r max_command_frame_len) x rest) v
          (read_length-Gives r max_command_frame_len len rest small holds))
