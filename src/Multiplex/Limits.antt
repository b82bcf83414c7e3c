-- ===== src/Multiplex/Limits.antt =====
-- crates/libs/nexigon-multiplex/src/lib.rs: the resource limits of a connection. Durations are numbers
-- of milliseconds, and `none` stands for a panic.
use nexigon.Base.{
  ℕ, ◌+◌, ◌-◌, ◌*◌, ◌≤◌, ◌<◌, ◌≡◌, refl, Bool, true, false, Option, none, some, arith, ltb, leb,
}
use nexigon.Multiplex.Frames.{channel_data, min_frame_size}

abbrev pub kib : ℕ
kib = 1024

abbrev pub mib : ℕ
mib = kib * 1024

abbrev pub channel_max_frame_credit : ℕ
channel_max_frame_credit = 1024

abbrev pub channel_max_byte_credit : ℕ
channel_max_byte_credit = mib

abbrev pub channel_initial_frame_credit : ℕ
channel_initial_frame_credit = 128

abbrev pub channel_initial_byte_credit : ℕ
channel_initial_byte_credit = 16 * kib

pub record ConnectionLimits : Type 0 where
  pub handshake_timeout : ℕ
  pub ping_interval : ℕ
  pub ping_write_timeout : ℕ
  pub pong_timeout : ℕ
  pub max_channels : ℕ
  pub max_pending_channel_requests : ℕ
  pub max_queued_commands : ℕ
  pub max_queued_frames : ℕ
  pub max_queued_frame_bytes : ℕ
  pub reserved_control_queue_frames : ℕ
  pub reserved_control_queue_bytes : ℕ
  pub max_encoded_frame_size : ℕ
  pub max_receive_frame_credit : ℕ
  pub max_receive_byte_credit : ℕ
  pub max_peer_pings_per_second : ℕ
  pub max_channel_requests_per_second : ℕ
  pub max_control_frames_per_second : ℕ
  pub max_control_payload_size : ℕ
  pub max_unknown_channel_frames_per_second : ℕ
  pub max_closed_channel_tombstones : ℕ
  pub max_frames_processed_per_poll : ℕ

infixr 3 ◌assert_and◌
-- `assert!(test)`, and then the rest.
abbrev ◌assert_and◌ : Bool → Option (Unit {0}) → Option (Unit {0})
true assert_and rest = rest
false assert_and rest = none

-- `FrameChannelData::MIN_FRAME_SIZE`.
abbrev pub data_header_size : ℕ
data_header_size = 9

data_header_size_lem : min_frame_size channel_data ≡ data_header_size
unfolding min_frame_size
data_header_size_lem = refl

validate_queues : ConnectionLimits → Option (Unit {0}) → Option (Unit {0})
validate_queues l rest =
    ltb 0 l.max_queued_frames
    assert_and ltb l.reserved_control_queue_frames l.max_queued_frames
    assert_and leb (data_header_size + channel_initial_byte_credit) l.max_encoded_frame_size
    assert_and leb l.max_encoded_frame_size l.max_queued_frame_bytes
    assert_and ltb l.reserved_control_queue_bytes l.max_queued_frame_bytes
    assert_and leb l.max_encoded_frame_size
        (l.max_queued_frame_bytes - l.reserved_control_queue_bytes)
    assert_and rest

validate_rates : ConnectionLimits → Option (Unit {0})
validate_rates l =
    leb channel_initial_frame_credit l.max_receive_frame_credit
    assert_and leb channel_initial_byte_credit l.max_receive_byte_credit
    assert_and ltb 0 l.max_peer_pings_per_second
    assert_and ltb 0 l.max_channel_requests_per_second
    assert_and ltb 0 l.max_control_frames_per_second
    assert_and ltb 0 l.max_unknown_channel_frames_per_second
    assert_and ltb 0 l.max_closed_channel_tombstones
    assert_and ltb 0 l.max_frames_processed_per_poll
    assert_and leb l.max_control_payload_size l.max_encoded_frame_size
    assert_and some tt

-- `ConnectionLimits::validate`.
unfoldable pub validate : ConnectionLimits → Option (Unit {0})
unfolding validate_queues validate_rates
validate l =
    ltb 0 l.handshake_timeout
    assert_and ltb 0 l.ping_interval
    assert_and ltb 0 l.ping_write_timeout
    assert_and ltb 0 l.pong_timeout
    assert_and ltb 0 l.max_channels
    assert_and ltb 0 l.max_pending_channel_requests
    assert_and ltb 0 l.max_queued_commands
    assert_and validate_queues l (validate_rates l)

abbrev pub max_channel_payload_size : ConnectionLimits → ℕ
max_channel_payload_size l = l.max_encoded_frame_size - data_header_size

-- `ConnectionLimits::default`.
abbrev pub default_limits : ConnectionLimits
default_limits = record {
  handshake_timeout = 10000;
  ping_interval = 5000;
  ping_write_timeout = 30000;
  pong_timeout = 15000;
  max_channels = 32;
  max_pending_channel_requests = 16;
  max_queued_commands = 256;
  max_queued_frames = 1024;
  max_queued_frame_bytes = 8 * mib;
  reserved_control_queue_frames = 64;
  reserved_control_queue_bytes = 512 * kib;
  max_encoded_frame_size = mib + data_header_size;
  max_receive_frame_credit = channel_max_frame_credit;
  max_receive_byte_credit = channel_max_byte_credit;
  max_peer_pings_per_second = 8;
  max_channel_requests_per_second = 64;
  max_control_frames_per_second = 8192;
  max_control_payload_size = 4 * kib;
  max_unknown_channel_frames_per_second = 128;
  max_closed_channel_tombstones = 256;
  max_frames_processed_per_poll = 256;
}

default_limits-validate : validate default_limits ≡ some tt
unfolding validate
default_limits-validate = refl

-- What validated limits promise to the queues, the channels and the receive windows.
pub record IsValid (l : ConnectionLimits) : Type 0 where
  pub some_channel : 0 < l.max_channels
  pub some_command : 0 < l.max_queued_commands
  pub some_tombstone : 0 < l.max_closed_channel_tombstones
  pub data_slot : l.reserved_control_queue_frames < l.max_queued_frames
  pub data_bytes :
      l.reserved_control_queue_bytes + l.max_encoded_frame_size ≤ l.max_queued_frame_bytes
  pub initial_window : data_header_size + channel_initial_byte_credit ≤ l.max_encoded_frame_size
  pub frame_window : channel_initial_frame_credit ≤ l.max_receive_frame_credit
  pub byte_window : channel_initial_byte_credit ≤ l.max_receive_byte_credit
  pub small_control : l.max_control_payload_size ≤ l.max_encoded_frame_size

pub validate-IsValid : (l : ConnectionLimits) → validate l ≡ some tt → IsValid l
unfolding validate
validate-IsValid l h = ground arith
