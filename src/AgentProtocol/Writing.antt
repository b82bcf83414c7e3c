-- ===== src/AgentProtocol/Writing.antt =====
-- What becomes of a write to a stream that takes everything.
use nexigon.Base.{
  ℕ, ◌+◌, ◌≡◌, refl, subst, sym, true, List, [], ◌∷◌, arith, length, ltb, u32_max, if◌then◌else◌,
  Bool-cases, inl, inr, not_ltb→le, le→leb, to_be_bytes,
}
use nexigon.AgentProtocol.{
  Writer, ok, err, too_large, and_then, done_or_io, write_pieces, write_parts, write_terminal_data,
  max_terminal_data_len, terminal_data,
}

module _ {ℓ} {W : Type ℓ} (writer : Writer W)
    (accepts : (w : W) (bs : List ℕ) → (writer.write_all w bs).1 ≡ true)
    (flushes : (w : W) → (writer.flush w).1 ≡ true) where
  write_pieces-ok : (w : W) (pieces : List (List ℕ)) → (write_pieces writer w pieces).1 ≡ ok tt
  unfolding write_pieces and_then
  write_pieces-ok w [] =
      subst (λ b. (done_or_io ((writer.flush w).0, b)).1 ≡ ok tt) (sym (flushes w)) refl
  write_pieces-ok w (bs ∷ rest) =
      subst
        (λ b.
          (and_then (done_or_io ((writer.write_all w bs).0, b))
            (λ w' done. write_pieces writer w' rest)).1
          ≡ ok tt)
        (sym (accepts w bs)) (write_pieces-ok (writer.write_all w bs).0 rest)

  -- On a stream that takes all bytes, terminal data is written, or refused if it is beyond the limit;
  -- the conversion of its length never panics.
  pub write_terminal_data-accepts :
      (w : W) (bytes : List ℕ)
      → (write_terminal_data writer w bytes).1 ≡ (
          if ltb max_terminal_data_len (length bytes)
          then err (too_large (length bytes) max_terminal_data_len)
          else ok tt)
  unfolding write_terminal_data write_parts
  write_terminal_data-accepts w bytes =
      elim (Bool-cases (ltb max_terminal_data_len (length bytes))) [
        | inl big ↦ rw big refl
        | inr fits ↦
            rw
              (fits, le→leb (length bytes + 1) u32_max (let h = not_ltb→le _ _ fits in omega arith))
              (write_pieces-ok w
                (to_be_bytes 4 (length bytes + 1) ∷ (terminal_data ∷ []) ∷ bytes ∷ []))
      ]
