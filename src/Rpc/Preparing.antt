-- ===== src/Rpc/Preparing.antt =====
-- crates/libs/nexigon-rpc/src/lib.rs: what is prepared for sending, its size and its permit.
use nexigon.Base.{
  ℕ, ◌≤◌, ◌<◌, ◌≡◌, refl, List, [], ◌∷◌, Option, none, some, Bool, true, false, ltb, if◌then◌else◌,
  length, length-append, usize_max, u32_max, either_way, then_way, else_way, Bool-cases, inl, inr,
  arith,
}
use nexigon.Rpc.{Ending, err, max_action_name_size, max_input_size, max_output_size}
use nexigon.Rpc.Serializing.{
  BoundedVecWriter, saturating_add, new_writer, write, then_write, to_writer, Serialized, bytes,
  oversized, unallocated, unsound, serialized_of, serialize_bounded, too_large, no_memory,
  BufferFailure,
}
use nexigon.Rpc.Messages.{Host, Prepared, retain, prepare_request, prepare_result}
use nexigon.Rpc.Limits.{Ends}

abbrev KeepsTo : ℕ → BoundedVecWriter × Bool → Type 0
KeepsTo limit p = (p.0.limit ≡ limit) × (length (p.0.buffer) ≤ limit)

write-KeepsTo :
    (reserve : ℕ → ℕ → Bool) (limit : ℕ) (w : BoundedVecWriter) (piece : List ℕ)
    → limit < usize_max
    → KeepsTo limit (w, true)
    → KeepsTo limit (write reserve w piece)
unfolding write
write-KeepsTo reserve limit w piece h (same, fits) =
    elim (Bool-cases (ltb w.limit (saturating_add (length w.buffer) (length piece)))) [
      | inl over ↦
          then_way (KeepsTo limit) (ltb w.limit (saturating_add (length w.buffer) (length piece))) _
            _ over (same, fits)
      | inr within ↦
          else_way (KeepsTo limit) (ltb w.limit (saturating_add (length w.buffer) (length piece))) _
            _ within
            (either_way (KeepsTo limit) (reserve (length w.buffer) (length piece)) _ _
              (same, let sum = length-append w.buffer piece in ground arith) (same, fits))
    ]

then_write-KeepsTo :
    (limit : ℕ) (p : BoundedVecWriter × Bool) (k : BoundedVecWriter → BoundedVecWriter × Bool)
    → KeepsTo limit p
    → ((v : BoundedVecWriter) → KeepsTo limit (v, true) → KeepsTo limit (k v))
    → KeepsTo limit (then_write p k)
then_write-KeepsTo limit (w, true) k h f = f w h
then_write-KeepsTo limit (w, false) k h f = h

to_writer-KeepsTo :
    (reserve : ℕ → ℕ → Bool) (limit : ℕ) (w : BoundedVecWriter) (pieces : List (List ℕ))
    (sound : Bool)
    → limit < usize_max
    → KeepsTo limit (w, true)
    → KeepsTo limit (to_writer reserve w pieces sound)
unfolding to_writer
to_writer-KeepsTo reserve limit w [] sound h k = k
to_writer-KeepsTo reserve limit w (piece ∷ pieces) sound h k =
    then_write-KeepsTo limit (write reserve w piece) _ (write-KeepsTo reserve limit w piece h k)
      (λ v j. to_writer-KeepsTo reserve limit v pieces sound h j)

abbrev Fits : ℕ → Serialized → Type 0
Fits limit (bytes bs) = length bs ≤ limit
Fits limit (oversized size) = Unit {0}
Fits limit unallocated = Unit {0}
Fits limit unsound = Unit {0}

failed-Fits :
    (top : ℕ) (b : List ℕ) (l : ℕ) (f : Option BufferFailure)
    → Fits top (serialized_of (record { buffer = b; limit = l; failure = f }, false))
failed-Fits top b l none = tt
failed-Fits top b l (some (too_large size)) = tt
failed-Fits top b l (some no_memory) = tt

serialized_of-Fits :
    (top : ℕ) (p : BoundedVecWriter × Bool) → KeepsTo top p → Fits top (serialized_of p)
serialized_of-Fits top (w, true) h = h.1
serialized_of-Fits top (w, false) h = failed-Fits top w.buffer w.limit w.failure

serialize_bounded-Fits :
    (reserve : ℕ → ℕ → Bool) (pieces : List (List ℕ)) (sound : Bool) (limit : ℕ)
    → limit < usize_max
    → Fits limit (serialize_bounded reserve pieces sound limit)
unfolding serialize_bounded new_writer
serialize_bounded-Fits reserve pieces sound limit h =
    serialized_of-Fits limit _
      (to_writer-KeepsTo reserve limit (new_writer limit) pieces sound h (refl, omega arith))

abbrev pub IsPrepared : ℕ → Prepared → Type 0
IsPrepared limit p = (length p.content ≤ limit) × (p.retained ≡ length p.content)

retain-Ends :
    (E : Type 0) (top : ℕ) (bs : List ℕ)
    → length bs ≤ top
    → Ends (IsPrepared top) (retain {E = E} top bs)
retain-Ends E top bs h =
    let fits : ltb top (length bs) ≡ false = ground arith in rw (Ends, fits) (h, refl)

unless_refused :
    {E : Type 0} (top : ℕ) (test : Bool) (e : E) (o : Ending E Prepared)
    → Ends (IsPrepared top) o
    → Ends (IsPrepared top) (if test then err e else o)
unless_refused top test e o h = either_way (Ends (IsPrepared top)) test (err e) o tt h

-- The checks between the serialization and the use of its bytes.
checks-Ends :
    {E : Type 0} (top : ℕ) (overdue : Bool) (late large : E) (bs : List ℕ)
    → length bs ≤ top
    → Ends
        (IsPrepared top)
        (if overdue then err late else if ltb u32_max (length bs) then err large else retain top bs)
checks-Ends top overdue late large bs h =
    unless_refused top overdue late _
      (unless_refused top (ltb u32_max (length bs)) large _ (retain-Ends _ top bs h))

granted-Ends :
    {E : Type 0} (top : ℕ) (grants : Bool) (e : E) (o : Ending E Prepared)
    → Ends (IsPrepared top) o
    → Ends (IsPrepared top) (if grants then o else err e)
granted-Ends top grants e o h = either_way (Ends (IsPrepared top)) grants o (err e) h tt

prepare_request-Ends :
    (host : Host) (name : List ℕ) (s : Serialized)
    → Fits max_input_size s
    → Ends (IsPrepared max_input_size) (prepare_request host name s)
unfolding prepare_request
prepare_request-Ends host name (bytes bs) h =
    unless_refused max_input_size (ltb max_action_name_size (length name)) _ _ (
      granted-Ends max_input_size (host.grants max_input_size) _ _
        (checks-Ends max_input_size host.overdue _ _ bs h))
prepare_request-Ends host name (oversized size) h =
    unless_refused max_input_size (ltb max_action_name_size (length name)) _ _
      (granted-Ends max_input_size (host.grants max_input_size) _ _ tt)
prepare_request-Ends host name unallocated h =
    unless_refused max_input_size (ltb max_action_name_size (length name)) _ _
      (granted-Ends max_input_size (host.grants max_input_size) _ _ tt)
prepare_request-Ends host name unsound h =
    unless_refused max_input_size (ltb max_action_name_size (length name)) _ _
      (granted-Ends max_input_size (host.grants max_input_size) _ _ tt)

prepare_result-Ends :
    (host : Host) (s : Serialized)
    → Fits max_output_size s
    → Ends (IsPrepared max_output_size) (prepare_result host s)
unfolding prepare_result
prepare_result-Ends host (bytes bs) h =
    granted-Ends max_output_size (host.grants max_output_size) _ _
      (checks-Ends max_output_size host.overdue _ _ bs h)
prepare_result-Ends host (oversized size) h =
    granted-Ends max_output_size (host.grants max_output_size) _ _ tt
prepare_result-Ends host unallocated h =
    granted-Ends max_output_size (host.grants max_output_size) _ _ tt
prepare_result-Ends host unsound h =
    granted-Ends max_output_size (host.grants max_output_size) _ _ tt

-- Whatever a call or a result serializes to, and whether or not there is memory for it, what is prepared for
-- sending is within the limit, and its permit is for exactly its bytes. The reserved permit is never too small
-- to be shrunk to them, so its `expect` does not fail.
pub prepare-serialize_bounded :
    (host : Host) (name : List ℕ) (pieces : List (List ℕ)) (sound : Bool)
    → Ends
        (IsPrepared max_input_size)
        (prepare_request host name (serialize_bounded host.reserve pieces sound max_input_size))
      × Ends
          (IsPrepared max_output_size)
          (prepare_result host (serialize_bounded host.reserve pieces sound max_output_size))
prepare-serialize_bounded host name pieces sound = (
  prepare_request-Ends host name _
      (serialize_bounded-Fits host.reserve pieces sound max_input_size (omega arith)),
  prepare_result-Ends host _
      (serialize_bounded-Fits host.reserve pieces sound max_output_size (omega arith)),
)
