-- ===== src/OperationLedger/Naming.antt =====
-- The keys and the file names of the ledger tell executions apart alike.
use nexigon.Base.{
  ℕ, ◌≡◌, refl, sym, ap, ◌∙◌, subst, true, false, List, [], ◌∷◌, ◌++◌, same_bytes, same_bytes_refl,
  same_bytes→eq, arith, length, length-append, inl, inr, Bool-cases, ◌⊎◌,
}
use nexigon.OperationLedger.{FileSystem, Texts, key, entry_path}
use nexigon.OperationLedger.Laws.{IsTexts}

abbrev json : List ℕ
json = 46 ∷ 106 ∷ 115 ∷ 111 ∷ 110 ∷ []

append-cancel :
    (xs ys zs ws : List ℕ) → length xs ≡ length ys → (xs ++ zs) ≡ (ys ++ ws) → (xs ≡ ys) × (zs ≡ ws)
append-cancel [] [] zs ws l e = (refl, e)
append-cancel [] (y ∷ ys) zs ws l e = absurd (omega arith)
append-cancel (x ∷ xs) [] zs ws l e = absurd (omega arith)
append-cancel (x ∷ xs) (y ∷ ys) zs ws l e =
    let h : x ≡ y = cc in
    let t : (xs ++ zs) ≡ (ys ++ ws) = cc in
    let (a, b) = append-cancel xs ys zs ws (omega arith) t in (cc, b)

module _ {ℓ} {D : Type ℓ} (fs : FileSystem D) (texts : Texts) (laws : IsTexts texts) where
  same_key : (o p s t : ℕ) → key fs texts o s ≡ key fs texts p t → (o ≡ p) × (s ≡ t)
  same_key o p s t e =
      let (a, b) =
        append-cancel (texts.stringify o) (texts.stringify p) (58 ∷ texts.decimal s)
          (58 ∷ texts.decimal t) (laws.stringify_length o ∙ sym (laws.stringify_length p)) e in
      let c : texts.decimal s ≡ texts.decimal t = cc in
      (laws.stringify_distinct o p a, laws.decimal_distinct s t c)

  same_path : (o p s t : ℕ) → entry_path fs texts o s ≡ entry_path fs texts p t → (o ≡ p) × (s ≡ t)
  same_path o p s t e =
      let (a, b) =
        append-cancel (texts.stringify o) (texts.stringify p) _ _
          (laws.stringify_length o ∙ sym (laws.stringify_length p)) e in
      let c : (texts.decimal s ++ json) ≡ (texts.decimal t ++ json) = cc in
      let l = ap length c in
      let (g, h) =
        append-cancel (texts.decimal s) (texts.decimal t) json json
          (omega
            (arith, length-append (texts.decimal s) json, length-append (texts.decimal t) json))
          c in
      (laws.stringify_distinct o p a, laws.decimal_distinct s t g)

  -- Two executions have the same key if and only if they have the same file.
  pub same_names :
      (o p s t : ℕ)
      → same_bytes (key fs texts o s) (key fs texts p t)
        ≡ same_bytes (entry_path fs texts o s) (entry_path fs texts p t)
  same_names o p s t =
      agree (Bool-cases (same_bytes (key fs texts o s) (key fs texts p t)))
        (Bool-cases (same_bytes (entry_path fs texts o s) (entry_path fs texts p t)))
    where
      agree :
          ((same_bytes (key fs texts o s) (key fs texts p t) ≡ true)
            ⊎ (same_bytes (key fs texts o s) (key fs texts p t) ≡ false))
          → ((same_bytes (entry_path fs texts o s) (entry_path fs texts p t) ≡ true)
              ⊎ (same_bytes (entry_path fs texts o s) (entry_path fs texts p t) ≡ false))
          → same_bytes (key fs texts o s) (key fs texts p t)
            ≡ same_bytes (entry_path fs texts o s) (entry_path fs texts p t)
      agree (inl a) (inl b) = a ∙ sym b
      agree (inr a) (inr b) = a ∙ sym b
      agree (inl a) (inr b) =
          let (g, h) = same_key o p s t (same_bytes→eq _ _ a) in
          let e : entry_path fs texts o s ≡ entry_path fs texts p t = cc in
          let c =
            subst (λ x. same_bytes (entry_path fs texts o s) x ≡ true) e
              (same_bytes_refl (entry_path fs texts o s)) in
          absurd (cc)
      agree (inr a) (inl b) =
          let (g, h) = same_path o p s t (same_bytes→eq _ _ b) in
          let e : key fs texts o s ≡ key fs texts p t = cc in
          let c =
            subst (λ x. same_bytes (key fs texts o s) x ≡ true) e
              (same_bytes_refl (key fs texts o s)) in
          absurd (cc)
