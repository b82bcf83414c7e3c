-- ===== src/AgentProtocol.antt =====
-- crates/libs/nexigon-agent-protocol/src/lib.rs: the framing of the terminal and command protocols. An
-- i32 is the 32-bit word of its two's complement. The byte streams, the deadline and JSON are arguments.
pub mod Streams
pub mod Reading
pub mod Terminal
pub mod Control
pub mod Transfer
pub mod Writing
mod Examples
use nexigon.Base.{
  ℕ, ◌+◌, ◌-◌, ◌*◌, Bool, true, false, not, Option, none, some, List, [], ◌∷◌, ◌++◌, ltb, leb, ◌==◌,
  if◌then◌else◌, length, take, drop, to_be_bytes, from_be_bytes, u32_max,
}

-- `AsyncReadExt::read_exact`, with `none` for an error; whether it ends within the deadline; and the
-- reader that a read given up at the deadline leaves behind.
pub record Reader {ℓ} (R : Type ℓ) : Type ℓ where
  pub read_exact : R → ℕ → R × Option (List ℕ)
  pub in_time : R → ℕ → Bool
  pub abandon : R → ℕ → R

-- `AsyncWriteExt::write_all` and `flush`, with whether they succeed.
pub record Writer {ℓ} (W : Type ℓ) : Type ℓ where
  pub write_all : W → List ℕ → W × Bool
  pub flush : W → W × Bool

abbrev pub max_terminal_data_len : ℕ
max_terminal_data_len = 1024 * 1024

abbrev pub max_terminal_frame_len : ℕ
max_terminal_frame_len = max_terminal_data_len + 1

abbrev pub max_command_frame_len : ℕ
max_command_frame_len = 16 * 1024 * 1024

abbrev pub terminal_data : ℕ
terminal_data = 0

abbrev pub terminal_resize : ℕ
terminal_resize = 1

abbrev pub terminal_exit : ℕ
terminal_exit = 2

pub data HubTerminalFrame : Type 0 where
  hub_data : List ℕ → HubTerminalFrame
  resize : (cols rows : ℕ) → HubTerminalFrame

pub data DeviceTerminalFrame : Type 0 where
  device_data : List ℕ → DeviceTerminalFrame
  exit : (code : ℕ) → DeviceTerminalFrame

pub data FrameError : Type 0 where
  io : FrameError
  empty : FrameError
  too_large : (actual limit : ℕ) → FrameError
  invalid_terminal_length : (kind actual expected : ℕ) → FrameError
  invalid_terminal_type : (kind : ℕ) → FrameError
  timeout : FrameError
  json : FrameError

-- What an operation ends with; `panics` stands for a failed `expect`.
pub data Outcome {ℓ} (A : Type ℓ) : Type ℓ where
  ok : A → Outcome A
  err : FrameError → Outcome A
  panics : Outcome A

-- The `?` of an asynchronous function on the stream `S`.
pub and_then {ℓ κ μ} :
    {S : Type ℓ} {A : Type κ} {B : Type μ} → S × Outcome A → (S → A → S × Outcome B) → S × Outcome B
and_then (s, ok a) k = k s a
and_then (s, err e) k = (s, err e)
and_then (s, panics) k = (s, panics)

abbrev pub or_io {ℓ κ} : {S : Type ℓ} {A : Type κ} → S × Option A → S × Outcome A
or_io (s, some a) = (s, ok a)
or_io (s, none) = (s, err io)

abbrev pub done_or_io {ℓ} : {S : Type ℓ} → S × Bool → S × Outcome (Unit {0})
done_or_io (s, true) = (s, ok tt)
done_or_io (s, false) = (s, err io)

abbrev pub or_json {ℓ κ} : {S : Type ℓ} {A : Type κ} → S → Option A → S × Outcome A
or_json s (some a) = (s, ok a)
or_json s none = (s, err json)

module _ {ℓ} {R : Type ℓ} (reader : Reader R) where
  pub read_exact_with_timeout : R → ℕ → R × Outcome (List ℕ)
  read_exact_with_timeout r n =
      if reader.in_time r n
      then or_io (reader.read_exact r n)
      else (reader.abandon r n, err timeout)

  pub check_length : R → ℕ → ℕ → R × Outcome ℕ
  check_length r limit len =
      if len == 0
      then (r, err empty)
      else if ltb limit len
      then (r, err (too_large len limit))
      else (r, ok len)

  -- The first byte may take any time; the others share the deadline.
  pub read_length : R → ℕ → R × Outcome ℕ
  unfolding and_then read_exact_with_timeout check_length
  read_length r limit = and_then (or_io (reader.read_exact r 1)) (λ r' first.
      and_then (read_exact_with_timeout r' 3)
        (λ r'' others. check_length r'' limit (from_be_bytes (first ++ others))))

  pub read_terminal_header : R → R × Outcome (ℕ × ℕ)
  unfolding read_length and_then read_exact_with_timeout
  read_terminal_header r = and_then (read_length r max_terminal_frame_len) (λ r' frame_len.
      and_then (read_exact_with_timeout r' 1)
        (λ r'' kind. (r'', ok (frame_len, from_be_bytes kind))))

  pub require_terminal_len : R → (kind actual expected : ℕ) → R × Outcome (Unit {0})
  require_terminal_len r kind actual expected =
      if actual == expected
      then (r, ok tt)
      else (r, err (invalid_terminal_length kind actual expected))

  pub hub_body : R → ℕ × ℕ → R × Outcome HubTerminalFrame
  unfolding and_then read_exact_with_timeout require_terminal_len
  hub_body r (frame_len, kind) =
      if kind == terminal_data
      then and_then (read_exact_with_timeout r (frame_len - 1))
          (λ r' bytes. (r', ok (hub_data bytes)))
      else if kind == terminal_resize
      then and_then (require_terminal_len r kind frame_len 5) (λ r' checked.
        and_then (read_exact_with_timeout r' 4) (λ r'' payload.
          (r'', ok (resize (from_be_bytes (take 2 payload)) (from_be_bytes (drop 2 payload))))))
      else (r, err (invalid_terminal_type kind))

  unfoldable pub read_hub_terminal_frame : R → R × Outcome HubTerminalFrame
  unfolding and_then read_terminal_header hub_body
  read_hub_terminal_frame r = and_then (read_terminal_header r) hub_body

  pub device_body : R → ℕ × ℕ → R × Outcome DeviceTerminalFrame
  unfolding and_then read_exact_with_timeout require_terminal_len
  device_body r (frame_len, kind) =
      if kind == terminal_data
      then and_then (read_exact_with_timeout r (frame_len - 1))
          (λ r' bytes. (r', ok (device_data bytes)))
      else if kind == terminal_exit
      then and_then (require_terminal_len r kind frame_len 5) (λ r' checked.
        and_then (read_exact_with_timeout r' 4)
          (λ r'' payload. (r'', ok (exit (from_be_bytes payload)))))
      else (r, err (invalid_terminal_type kind))

  unfoldable pub read_device_terminal_frame : R → R × Outcome DeviceTerminalFrame
  unfolding and_then read_terminal_header device_body
  read_device_terminal_frame r = and_then (read_terminal_header r) device_body

  -- `from_slice` is `serde_json::from_slice`, with `none` for an error.
  unfoldable pub read_command_frame {κ} : {A : Type κ} → (List ℕ → Option A) → R → R × Outcome A
  unfolding and_then read_length read_exact_with_timeout
  read_command_frame from_slice r = and_then (read_length r max_command_frame_len) (λ r' len.
      and_then (read_exact_with_timeout r' len) (λ r'' bytes. or_json r'' (from_slice bytes)))

module _ {ℓ} {W : Type ℓ} (writer : Writer W) where
  -- One `write_all` after the other, and a flush.
  pub write_pieces : W → List (List ℕ) → W × Outcome (Unit {0})
  unfolding and_then
  write_pieces w [] = done_or_io (writer.flush w)
  write_pieces w (bs ∷ rest) =
      and_then (done_or_io (writer.write_all w bs)) (λ w' written. write_pieces w' rest)

  pub write_parts : W → ℕ → List ℕ → W × Outcome (Unit {0})
  unfolding write_pieces
  write_parts w kind payload =
      if leb (length payload + 1) u32_max
      then write_pieces w (to_be_bytes 4 (length payload + 1) ∷ (kind ∷ []) ∷ payload ∷ [])
      else (w, panics)

  unfoldable pub write_terminal_data : W → List ℕ → W × Outcome (Unit {0})
  unfolding write_parts
  write_terminal_data w bytes =
      if ltb max_terminal_data_len (length bytes)
      then (w, err (too_large (length bytes) max_terminal_data_len))
      else write_parts w terminal_data bytes

  unfoldable pub write_terminal_resize : W → ℕ → ℕ → W × Outcome (Unit {0})
  unfolding write_parts
  write_terminal_resize w cols rows =
      write_parts w terminal_resize (to_be_bytes 2 cols ++ to_be_bytes 2 rows)

  unfoldable pub write_terminal_exit : W → ℕ → W × Outcome (Unit {0})
  unfolding write_parts
  write_terminal_exit w code = write_parts w terminal_exit (to_be_bytes 4 code)

  -- `to_vec` is `serde_json::to_vec`, with `none` for an error.
  unfoldable pub write_command_frame {κ} :
      {A : Type κ} → (A → Option (List ℕ)) → W → A → W × Outcome (Unit {0})
  unfolding write_pieces
  write_command_frame to_vec w frame = encoded (to_vec frame)
    where
      encoded : Option (List ℕ) → W × Outcome (Unit {0})
      encoded none = (w, err json)
      encoded (some bytes) =
          if ltb max_command_frame_len (length bytes)
          then (w, err (too_large (length bytes) max_command_frame_len))
          else if leb (length bytes) u32_max
          then write_pieces w (to_be_bytes 4 (length bytes) ∷ bytes ∷ [])
          else (w, panics)
