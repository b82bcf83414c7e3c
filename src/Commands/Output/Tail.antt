-- ===== src/Commands/Output/Tail.antt =====
-- crates/apps/nexigon-agent/src/handlers.rs: `StderrRingBuffer`, for the end of what a command writes to its
-- standard error.
use nexigon.Base.{
  ℕ, suc, ◌-◌, ◌≤◌, ◌≡◌, refl, ap, ◌∙◌, List, [], ◌∷◌, ◌++◌, append_assoc, append-nil, ◌==◌,
  if◌then◌else◌, length, length-append, drop, Bool-cases, inl, inr, arith, sym, false,
}

unfoldable pub push_byte : ℕ → List ℕ → ℕ → List ℕ
push_byte capacity buf b = (if length buf == capacity then drop 1 buf else buf) ++ b ∷ []

unfoldable pub push : ℕ → List ℕ → List ℕ → List ℕ
unfolding push_byte
push capacity buf [] = buf
push capacity buf (b ∷ text) = push capacity (push_byte capacity buf b) text

-- The last bytes of a text, at most so many.
abbrev pub last_bytes : ℕ → List ℕ → List ℕ
last_bytes n bs = drop (length bs - n) bs

last_bytes_short : (n : ℕ) (bs : List ℕ) → length bs ≤ n → last_bytes n bs ≡ bs
last_bytes_short n bs h =
    let nothing : length bs - n ≡ 0 = omega arith in ap (λ k. drop k bs) nothing

last_bytes_longer :
    (n b : ℕ) (bs : List ℕ) → n ≤ length bs → last_bytes n (b ∷ bs) ≡ last_bytes n bs
last_bytes_longer n b bs h =
    let one : suc (length bs) - n ≡ suc (length bs - n) = omega arith in
    ap (λ k. drop k (b ∷ bs)) one

push_byte-last_bytes :
    (capacity : ℕ) (buf : List ℕ) (b : ℕ) (text : List ℕ)
    → 1 ≤ capacity
    → length buf ≤ capacity
    → (length (push_byte capacity buf b) ≤ capacity)
      × (last_bytes capacity (push_byte capacity buf b ++ text)
          ≡ last_bytes capacity (buf ++ b ∷ text))
unfolding push_byte
push_byte-last_bytes capacity [] b text h k =
    let room : 0 == capacity ≡ false = ground arith in rw room (h, refl)
push_byte-last_bytes capacity (x ∷ buf) b text h k =
    let sum = length-append buf (b ∷ []) in
    let total = length-append buf (b ∷ text) in
    elim (Bool-cases (suc (length buf) == capacity)) [
      | inl full ↦ rw full (
        ground arith,
        ap (last_bytes capacity) (append_assoc buf (b ∷ []) text)
            ∙ sym (last_bytes_longer capacity x (buf ++ b ∷ text) (ground arith)),
      )
      | inr room ↦
          rw room
            (ground arith, ap (λ bs. last_bytes capacity (x ∷ bs)) (append_assoc buf (b ∷ []) text))
    ]

-- Whatever is pushed, the buffer has the last bytes of what it had and of what is pushed, as many as its capacity
-- allows. The capacity is not 0, and the buffer did not exceed it before.
pub push-last_bytes :
    (capacity : ℕ) (buf text : List ℕ)
    → 1 ≤ capacity
    → length buf ≤ capacity
    → push capacity buf text ≡ last_bytes capacity (buf ++ text)
unfolding push
push-last_bytes capacity buf [] h k =
    sym (ap (last_bytes capacity) (append-nil buf) ∙ last_bytes_short capacity buf k)
push-last_bytes capacity buf (b ∷ text) h k =
    let (bound, same) = push_byte-last_bytes capacity buf b text h k in
    push-last_bytes capacity (push_byte capacity buf b) text h bound ∙ same
