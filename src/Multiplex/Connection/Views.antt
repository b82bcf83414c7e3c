-- ===== src/Multiplex/Connection/Views.antt =====
-- What the match in `Connection::handle_frame` sees of a frame: its fields, by the getters. A getter's type
-- fixes the shape of its value; `none` stands for its panic.
use nexigon.Base.{get_elem?, ℕ, ◌≡◌, refl, Option, some, List, from_be_bytes, to_be_bytes, ◌>>=◌}
use nexigon.Multiplex.Frames.{
  Frame, FrameKind, FieldType, array, slice, channel_id, u32, fields, FieldValue, id, word, octets,
  get_field, hello, close, channel_request, channel_accept, channel_reject, channel_data,
  channel_adjust, channel_close, channel_closed, ping, pong, parse, ok,
}
use nexigon.Multiplex.Frames.Parsing.{get_field-parse}

pub data PeerFrame : Type 0 where
  peer_hello : (magic info : List ℕ) → PeerFrame
  peer_close : (reason : List ℕ) → PeerFrame
  peer_request : (sender_id frame_credit byte_credit : ℕ) (endpoint : List ℕ) → PeerFrame
  peer_accept : (receiver_id sender_id frame_credit byte_credit : ℕ) → PeerFrame
  peer_reject : (receiver_id : ℕ) (reason : List ℕ) → PeerFrame
  peer_data : (receiver_id : ℕ) (payload : List ℕ) → PeerFrame
  peer_adjust : (receiver_id frame_credit byte_credit : ℕ) → PeerFrame
  peer_close_channel : (receiver_id : ℕ) (reason : List ℕ) → PeerFrame
  peer_closed_channel : (receiver_id : ℕ) (reason : List ℕ) → PeerFrame
  peer_ping : PeerFrame
  peer_pong : PeerFrame

abbrev pub number : FieldValue → ℕ
number (id n) = n
number (word n) = n
number (octets bs) = from_be_bytes bs

abbrev text : FieldValue → List ℕ
text (id n) = to_be_bytes 8 n
text (word n) = to_be_bytes 4 n
text (octets bs) = bs

view_kind : FrameKind → Frame → Option PeerFrame
view_kind hello f =
    get_field f 0 >>= λ m. get_field f 1 >>= λ i. some (peer_hello (text m) (text i))
view_kind close f = get_field f 0 >>= λ r. some (peer_close (text r))
view_kind channel_request f = get_field f 0 >>= λ s. get_field f 1 >>= λ a. get_field f 2 >>= λ b.
    get_field f 3 >>= λ e. some (peer_request (number s) (number a) (number b) (text e))
view_kind channel_accept f = get_field f 0 >>= λ r. get_field f 1 >>= λ s. get_field f 2 >>= λ a.
    get_field f 3 >>= λ b. some (peer_accept (number r) (number s) (number a) (number b))
view_kind channel_reject f =
    get_field f 0 >>= λ r. get_field f 1 >>= λ t. some (peer_reject (number r) (text t))
view_kind channel_data f =
    get_field f 0 >>= λ r. get_field f 1 >>= λ p. some (peer_data (number r) (text p))
view_kind channel_adjust f = get_field f 0 >>= λ r. get_field f 1 >>= λ a.
    get_field f 2 >>= λ b. some (peer_adjust (number r) (number a) (number b))
view_kind channel_close f =
    get_field f 0 >>= λ r. get_field f 1 >>= λ t. some (peer_close_channel (number r) (text t))
view_kind channel_closed f =
    get_field f 0 >>= λ r. get_field f 1 >>= λ t. some (peer_closed_channel (number r) (text t))
view_kind ping f = some peer_ping
view_kind pong f = some peer_pong

unfoldable pub view : Frame → Option PeerFrame
unfolding view_kind
view f = view_kind f.kind f

-- The parser admits no frame at which a getter would panic.
pub view-parse :
    (bytes : List ℕ) (f : Frame) → parse bytes ≡ ok f → (p : PeerFrame) × (view f ≡ some p)
unfolding view view_kind
view-parse bytes f e = kinds f.kind refl
  where
    got :
        (k : FrameKind)
        → f.kind ≡ k
        → (i : ℕ) (t : FieldType) → get_elem? (fields k) i ≡ some t
        → (v : FieldValue) × (get_field f i ≡ some v)
    got k h i t q = get_field-parse bytes f i t e (rw h q)

    kinds : (k : FrameKind) → f.kind ≡ k → (p : PeerFrame) × (view_kind k f ≡ some p)
    kinds hello h =
        let (a, ea) = got hello h 0 (array 16) refl in
        let (b, eb) = got hello h 1 slice refl in rw (ea, eb) (_, refl)
    kinds close h = let (a, ea) = got close h 0 slice refl in rw ea (_, refl)
    kinds channel_request h =
        let (a, ea) = got channel_request h 0 channel_id refl in
        let (b, eb) = got channel_request h 1 u32 refl in
        let (c, ec) = got channel_request h 2 u32 refl in
        let (d, ed) = got channel_request h 3 slice refl in rw (ea, eb, ec, ed) (_, refl)
    kinds channel_accept h =
        let (a, ea) = got channel_accept h 0 channel_id refl in
        let (b, eb) = got channel_accept h 1 channel_id refl in
        let (c, ec) = got channel_accept h 2 u32 refl in
        let (d, ed) = got channel_accept h 3 u32 refl in rw (ea, eb, ec, ed) (_, refl)
    kinds channel_reject h =
        let (a, ea) = got channel_reject h 0 channel_id refl in
        let (b, eb) = got channel_reject h 1 slice refl in rw (ea, eb) (_, refl)
    kinds channel_data h =
        let (a, ea) = got channel_data h 0 channel_id refl in
        let (b, eb) = got channel_data h 1 slice refl in rw (ea, eb) (_, refl)
    kinds channel_adjust h =
        let (a, ea) = got channel_adjust h 0 channel_id refl in
        let (b, eb) = got channel_adjust h 1 u32 refl in
        let (c, ec) = got channel_adjust h 2 u32 refl in rw (ea, eb, ec) (_, refl)
    kinds channel_close h =
        let (a, ea) = got channel_close h 0 channel_id refl in
        let (b, eb) = got channel_close h 1 slice refl in rw (ea, eb) (_, refl)
    kinds channel_closed h =
        let (a, ea) = got channel_closed h 0 channel_id refl in
        let (b, eb) = got channel_closed h 1 slice refl in rw (ea, eb) (_, refl)
    kinds ping h = (_, refl)
    kinds pong h = (_, refl)
