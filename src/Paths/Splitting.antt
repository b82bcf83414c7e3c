-- ===== src/Paths/Splitting.antt =====
-- Splitting at slashes and joining with slashes undo each other.
use nexigon.Base.{
  ℕ, ◌≡◌, refl, ap, ◌∙◌, sym, List, [], ◌∷◌, ◌++◌, All, ◌==◌, false, inl, inr, Bool-cases, ==→eq,
}
use nexigon.Paths.{split, join, onto_first}

join-onto_first : (c : ℕ) (ps : List (List ℕ)) → join (onto_first c ps) ≡ c ∷ join ps
unfolding join onto_first
join-onto_first c [] = refl
join-onto_first c (p ∷ []) = refl
join-onto_first c (p ∷ q ∷ qs) = refl

-- There is always a part.
abbrev pub IsSome : List (List ℕ) → Type 0
IsSome [] = ⊥
IsSome (p ∷ ps) = Unit {0}

onto_first-IsSome : (c : ℕ) (ps : List (List ℕ)) → IsSome (onto_first c ps)
unfolding onto_first
onto_first-IsSome c [] = tt
onto_first-IsSome c (p ∷ ps) = tt

split-IsSome : (s : List ℕ) → IsSome (split s)
unfolding split
split-IsSome [] = tt
split-IsSome (c ∷ cs) = elim (Bool-cases (c == 47)) [
  | inl slash ↦ rw slash tt
  | inr other ↦ rw other (onto_first-IsSome c (split cs))
]

join-slash : (ps : List (List ℕ)) → IsSome ps → join ([] ∷ ps) ≡ 47 ∷ join ps
unfolding join
join-slash [] h = absurd h
join-slash (p ∷ ps) h = refl

pub join-split : (s : List ℕ) → join (split s) ≡ s
unfolding split join
join-split [] = refl
join-split (c ∷ cs) = elim (Bool-cases (c == 47)) [
  | inl slash ↦ rw slash (
      join-slash (split cs) (split-IsSome cs)
      ∙ ap (◌∷◌ 47) (join-split cs)
      ∙ ap (λ x. x ∷ cs) (sym (==→eq c 47 slash)))
  | inr other ↦ rw other (join-onto_first c (split cs) ∙ ap (◌∷◌ c) (join-split cs))
]

-- A part without a slash.
abbrev pub IsPart : List ℕ → Type 0
IsPart p = All (λ c. (c == 47) ≡ false) p

split-append_slash : (p s : List ℕ) → IsPart p → split (p ++ (47 ∷ s)) ≡ p ∷ split s
unfolding split onto_first
split-append_slash [] s h = refl
split-append_slash (c ∷ cs) s (h, hs) = rw (h, split-append_slash cs s hs) refl

split_part : (p : List ℕ) → IsPart p → split p ≡ p ∷ []
unfolding split onto_first
split_part [] h = refl
split_part (c ∷ cs) (h, hs) = rw (h, split_part cs hs) refl

pub split-join : (ps : List (List ℕ)) → IsSome ps → All IsPart ps → split (join ps) ≡ ps
unfolding join
split-join [] h a = absurd h
split-join (p ∷ []) h (a, b) = split_part p a
split-join (p ∷ q ∷ qs) h (a, b) =
    split-append_slash p (join (q ∷ qs)) a ∙ ap (◌∷◌ p) (split-join (q ∷ qs) tt b)
