-- ===== src/Rpc.antt =====
-- crates/libs/nexigon-rpc/src/lib.rs: the admission and the framing of remote calls. The byte streams under
-- their deadline, the allocator, the wait for permits and JSON are arguments.
pub mod Admission
pub mod Pool
pub mod Bodies
pub mod Streams
pub mod Reading
pub mod Serializing
pub mod Messages
pub mod Bytes
pub mod Limits
pub mod Preparing
pub mod Receiving
pub mod Transfer
mod Examples
use nexigon.Base.{ℕ, ◌*◌, List, Option, none, some, Bool, true, false}

abbrev pub max_action_name_size : ℕ
max_action_name_size = 255

abbrev pub max_input_size : ℕ
max_input_size = 8 * 1024 * 1024

abbrev pub max_output_size : ℕ
max_output_size = 8 * 1024 * 1024

abbrev pub read_chunk_size : ℕ
read_chunk_size = 16 * 1024

-- What a `read` or a `write_all` under the deadline ends with.
pub data Timed {ℓ} (A : Type ℓ) : Type ℓ where
  done : A → Timed A
  broken : Timed A
  late : Timed A

-- `AsyncRead`: `read_exact` without a deadline, `none` for an error, and `read` with one.
pub record Source {ℓ} (R : Type ℓ) : Type ℓ where
  pub read_exact : R → ℕ → R × Option (List ℕ)
  pub read : R → ℕ → R × Timed (List ℕ)

-- `write_all_until` and `flush_until`.
pub record Sink {ℓ} (W : Type ℓ) : Type ℓ where
  pub write_all : W → List ℕ → W × Timed (Unit {0})
  pub flush : W → W × Timed (Unit {0})

-- What an operation ends with; `exhausted` is fuel that was too little, and `panics` a failed `expect`.
pub data Ending {ℓ κ} (E : Type ℓ) (A : Type κ) : Type (ℓ ⊔ κ) where
  ok : A → Ending E A
  err : E → Ending E A
  exhausted : Ending E A
  panics : Ending E A

-- The `?` of an asynchronous function on the stream `S`, and `map_err`.
unfoldable pub and_then {ℓ κ μ ν} :
    {S : Type ℓ} {E : Type ν} {A : Type κ} {B : Type μ}
    → S × Ending E A
    → (S → A → S × Ending E B)
    → S × Ending E B
and_then (s, ok a) k = k s a
and_then (s, err e) k = (s, err e)
and_then (s, exhausted) k = (s, exhausted)
and_then (s, panics) k = (s, panics)

abbrev pub map_err {ℓ κ μ} :
    {E : Type ℓ} {F : Type κ} {A : Type μ} → (E → F) → Ending E A → Ending F A
map_err f (ok a) = ok a
map_err f (err e) = err (f e)
map_err f exhausted = exhausted
map_err f panics = panics

abbrev pub or_err {ℓ κ μ} :
    {S : Type ℓ} {E : Type κ} {A : Type μ} → E → S × Option A → S × Ending E A
or_err e (s, some a) = (s, ok a)
or_err e (s, none) = (s, err e)

pub data TimedIoError : Type 0 where
  io : TimedIoError
  timeout : TimedIoError

-- `timeout_at(...).map_err(...)?.map_err(...)`
abbrev pub or_timed {ℓ κ μ} :
    {S : Type ℓ} {E : Type κ} {A : Type μ} → (TimedIoError → E) → S × Timed A → S × Ending E A
or_timed f (s, done a) = (s, ok a)
or_timed f (s, broken) = (s, err (f io))
or_timed f (s, late) = (s, err (f timeout))
