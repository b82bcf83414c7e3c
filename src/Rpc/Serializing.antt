-- ===== src/Rpc/Serializing.antt =====
-- crates/libs/nexigon-rpc/src/lib.rs: `BoundedVecWriter` and `serialize_bounded`. A value serializes as the
-- pieces that it writes, and whether it ends without an error of its own.
use nexigon.Base.{
  ℕ, ◌+◌, ◌≤◌, ◌<◌, ◌≡◌, refl, sym, List, [], ◌∷◌, ◌++◌, append_assoc, append-nil, Option, none,
  some, Bool, true, false, ltb, leb, if◌then◌else◌, length, length-append, usize_max, arith,
  Bool-cases, inl, inr, ◌∙◌, joined,
}

pub data BufferFailure : Type 0 where
  too_large : (size : ℕ) → BufferFailure
  no_memory : BufferFailure

pub record BoundedVecWriter : Type 0 where
  pub buffer : List ℕ
  pub limit : ℕ
  pub failure : Option BufferFailure

unfoldable pub new_writer : ℕ → BoundedVecWriter
new_writer limit = record { buffer = []; limit = limit; failure = none }

abbrev pub saturating_add : ℕ → ℕ → ℕ
saturating_add a b = if leb (a + b) usize_max then a + b else usize_max

-- `Write::write`, with whether it succeeds. `reserve` is the allocator: whether a buffer of the first length
-- can take the second one more.
unfoldable pub write : (ℕ → ℕ → Bool) → BoundedVecWriter → List ℕ → BoundedVecWriter × Bool
write reserve w bytes =
    let size = saturating_add (length w.buffer) (length bytes) in
    if ltb w.limit size
    then (record w { failure = some (too_large size) }, false)
    else if reserve (length w.buffer) (length bytes)
    then (record w { buffer = w.buffer ++ bytes }, true)
    else (record w { failure = some no_memory }, false)

-- `to_writer`: the first piece that cannot be written is the last one.
abbrev pub then_write :
    BoundedVecWriter × Bool → (BoundedVecWriter → BoundedVecWriter × Bool) → BoundedVecWriter × Bool
then_write (w, true) k = k w
then_write (w, false) k = (w, false)

unfoldable pub to_writer :
    (ℕ → ℕ → Bool) → BoundedVecWriter → List (List ℕ) → Bool → BoundedVecWriter × Bool
unfolding write
to_writer reserve w [] sound = (w, sound)
to_writer reserve w (piece ∷ pieces) sound =
    then_write (write reserve w piece) (λ v. to_writer reserve v pieces sound)

pub data Serialized : Type 0 where
  bytes : List ℕ → Serialized
  oversized : (size : ℕ) → Serialized
  unallocated : Serialized
  unsound : Serialized

abbrev pub serialized_of : BoundedVecWriter × Bool → Serialized
serialized_of (w, true) = bytes w.buffer
serialized_of (w, false) = elim w.failure [
  | some (too_large size) ↦ oversized size
  | some no_memory ↦ unallocated
  | none ↦ unsound
]

unfoldable pub serialize_bounded : (ℕ → ℕ → Bool) → List (List ℕ) → Bool → ℕ → Serialized
unfolding new_writer to_writer
serialize_bounded reserve pieces sound limit =
    serialized_of (to_writer reserve (new_writer limit) pieces sound)

-- The size at which the output first exceeds the limit.
unfoldable pub first_over : ℕ → ℕ → List (List ℕ) → ℕ
first_over limit n [] = n
first_over limit n (piece ∷ pieces) =
    let rest = first_over limit (n + length piece) pieces in
    if ltb limit (n + length piece) then saturating_add n (length piece) else rest

abbrev pub within : ℕ → List ℕ → List (List ℕ) → Bool → Serialized
within limit before pieces sound =
    if leb (length before + length (joined pieces)) limit
    then if sound then bytes (before ++ joined pieces) else unsound
    else oversized (first_over limit (length before) pieces)

abbrev always : ℕ → ℕ → Bool
always a b = true

abbrev holding : ℕ → List ℕ → BoundedVecWriter
holding limit before = record { buffer = before; limit = limit; failure = none }

write_fits :
    (limit : ℕ) (before piece : List ℕ)
    → length before + length piece ≤ limit
    → limit < usize_max
    → write always (holding limit before) piece ≡ (holding limit (before ++ piece), true)
unfolding write
write_fits limit before piece h k =
    let fits : ltb limit (saturating_add (length before) (length piece)) ≡ false = ground arith in
    rw fits refl

write_exceeds :
    (limit : ℕ) (before piece : List ℕ)
    → limit < length before + length piece
    → limit < usize_max
    → write always (holding limit before) piece ≡ (
      record {
        buffer = before;
        limit = limit;
        failure = some (too_large (saturating_add (length before) (length piece)));
      },
      false,
    )
unfolding write
write_exceeds limit before piece h k =
    let over : ltb limit (saturating_add (length before) (length piece)) ≡ true = ground arith in
    rw over refl

within_over :
    (limit : ℕ) (before piece : List ℕ) (pieces : List (List ℕ)) (sound : Bool)
    → ltb limit (length before + length piece) ≡ true
    → within limit before (piece ∷ pieces) sound
      ≡ oversized (saturating_add (length before) (length piece))
unfolding first_over
within_over limit before piece pieces sound over =
    let sum = length-append piece (joined pieces) in
    let exceeds : leb (length before + length (piece ++ joined pieces)) limit ≡ false =
      ground arith in
    rw (exceeds, over) refl

within_piece :
    (limit : ℕ) (before piece : List ℕ) (pieces : List (List ℕ)) (sound : Bool)
    → ltb limit (length before + length piece) ≡ false
    → within limit (before ++ piece) pieces sound ≡ within limit before (piece ∷ pieces) sound
unfolding first_over
within_piece limit before piece pieces sound fits =
    let total : length (before ++ piece) + length (joined pieces)
        ≡ length before + length (piece ++ joined pieces) =
      rw (length-append before piece, length-append piece (joined pieces)) (omega arith) in
    rw (total, fits, length-append before piece, append_assoc before piece (joined pieces)) refl

to_writer-within :
    (limit : ℕ) (before : List ℕ) (pieces : List (List ℕ)) (sound : Bool)
    → length before ≤ limit
    → limit < usize_max
    → serialized_of (to_writer always (holding limit before) pieces sound)
      ≡ within limit before pieces sound
unfolding to_writer first_over
to_writer-within limit before [] sound h k =
    let fits : leb (length before + 0) limit ≡ true = ground arith in
    elim sound as (λ b. serialized_of (holding limit before, b) ≡ within limit before [] b) [
      | true ↦ rw (fits, append-nil before) refl
      | false ↦ rw fits refl
    ]
to_writer-within limit before (piece ∷ pieces) sound h k =
    elim (Bool-cases (ltb limit (length before + length piece))) [
      | inl over ↦
          rw (write_exceeds limit before piece (ground arith) k)
            (sym (within_over limit before piece pieces sound over))
      | inr fits ↦ rw (write_fits limit before piece (ground arith) k) (
          to_writer-within limit (before ++ piece) pieces sound (rw length-append (ground arith)) k
          ∙ within_piece limit before piece pieces sound fits)
    ]

-- With memory for it, a value serializes to the pieces that it writes, one after the other, exactly if they keep
-- the limit together. Otherwise the error has the size at which the output first exceeded it.
pub serialize_bounded_lem :
    (pieces : List (List ℕ)) (sound : Bool) (limit : ℕ)
    → limit < usize_max
    → serialize_bounded (λ a b. true) pieces sound limit ≡ within limit [] pieces sound
unfolding serialize_bounded new_writer
serialize_bounded_lem pieces sound limit h = to_writer-within limit [] pieces sound (omega arith) h
