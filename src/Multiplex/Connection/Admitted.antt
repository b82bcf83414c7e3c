-- ===== src/Multiplex/Connection/Admitted.antt =====
-- Handling any frame that the parser admits keeps the slots of a connection, and no assertion fails.
use nexigon.Base.{
  ℕ, ◌≡◌, refl, ◌&&◌, not, Option, none, some, List, [], ◌∷◌, length, lookup, if◌then◌else◌,
}
use nexigon.Multiplex.Frames.{Frame, new, pong, parse, ok, id, octets, channel_reject}
use nexigon.Multiplex.Shared.{send_priority_frame}
use nexigon.Multiplex.Shared.Rest.{send_priority_frame-KeepsRest}
use nexigon.Multiplex.Connection.{
  Connection, outgoing_queue_limit, control_frame_rate, hello_must_be_first, channel_request_rate,
  ping_rate,
}
use nexigon.Multiplex.Connection.Views.{
  PeerFrame, view-parse, peer_hello, peer_close, peer_request, peer_accept, peer_reject, peer_data,
  peer_adjust, peer_close_channel, peer_closed_channel, peer_ping, peer_pong,
}
use nexigon.Multiplex.Rate.{record_item}
use nexigon.Multiplex.Connection.Slots.{IsSound, KeepsRest-IsSound, close_state-IsSound}
use nexigon.Multiplex.Connection.Admission.{
  IsSafe, send_or_fail-IsSafe, handle_request-IsSafe, Same-IsSound, either-IsSafe,
}
use nexigon.Multiplex.Connection.Granting.{handle_accept-IsSafe, handle_reject-IsSafe}
use nexigon.Multiplex.Connection.Handling.{nothing, violation, handle_ping, handle_pong, violation}
use nexigon.Multiplex.Connection.Dispatch.{
  is_peer_hello, is_peer_request, is_peer_data, dispatch, admit_control, admit_size, admit_frame,
  refuse_oversized, handle_frame, endpoint_reason,
}
use nexigon.Multiplex.Connection.Streaming.{
  handle_hello-IsSafe, handle_data-IsSafe, handle_adjust-IsSafe, handle_close-IsSafe,
  handle_closed-IsSafe,
}

-- The connection after it counted a Ping, and after it answered one.
abbrev counted_ping : Connection → ℕ → Connection
counted_ping c now = record c {
  rates = record (c.rates) {
    peer_ping = (record_item c.rates.peer_ping c.shared.limits.max_peer_pings_per_second now).0;
  };
}

abbrev answered_ping : Connection → ℕ → Connection
answered_ping c now = record (counted_ping c now) {
  shared = (send_priority_frame c.shared (new pong [])).0;
}

handle_ping-IsSafe :
    (held : ℕ) (c : Connection) (now : ℕ) → IsSound held c → IsSafe held (handle_ping c now)
unfolding handle_ping
handle_ping-IsSafe held c now v =
    either-IsSafe held
      (record_item c.rates.peer_ping c.shared.limits.max_peer_pings_per_second now).1
      (if (send_priority_frame c.shared (new pong [])).1
        then (answered_ping c now, nothing)
        else (answered_ping c now, violation outgoing_queue_limit))
      (counted_ping c now, violation ping_rate)
      (either-IsSafe held (send_priority_frame c.shared (new pong [])).1
        (answered_ping c now, nothing) (answered_ping c now, violation outgoing_queue_limit)
        (answered, tt) (answered, tt))
      (counted, tt)
  where
    counted : IsSound held (counted_ping c now)
    counted = Same-IsSound held c (counted_ping c now) (refl, refl, refl, refl, refl) v

    answered : IsSound held (answered_ping c now)
    answered =
        KeepsRest-IsSound held (counted_ping c now) _ counted
          (send_priority_frame-KeepsRest c.shared (new pong []))

handle_pong-IsSafe :
    (held : ℕ) (c : Connection) (o : Option ℕ) (now : ℕ)
    → IsSound held c
    → IsSafe held (handle_pong c o now)
unfolding handle_pong
handle_pong-IsSafe held c none now v = (v, tt)
handle_pong-IsSafe held c (some t) now v =
    (Same-IsSound held c _ (refl, refl, refl, refl, refl) v, tt)

dispatch-IsSafe :
    (held : ℕ) (c : Connection) (f : Frame) (p : PeerFrame) (now : ℕ)
    → IsSound held c
    → IsSafe held (dispatch c f p now)
unfolding dispatch
dispatch-IsSafe held c f (peer_hello magic info) now v = handle_hello-IsSafe held c magic v
dispatch-IsSafe held c f (peer_close reason) now v = (close_state-IsSound held c v, tt)
dispatch-IsSafe held c f (peer_request s a b e) now v = handle_request-IsSafe held c f s v
dispatch-IsSafe held c f (peer_accept r s a b) now v =
    handle_accept-IsSafe held c (lookup r c.pending_requests) r s a b now refl v
dispatch-IsSafe held c f (peer_reject r reason) now v =
    handle_reject-IsSafe held c f (lookup r c.pending_requests) r v
dispatch-IsSafe held c f (peer_data r p) now v =
    handle_data-IsSafe held c f (lookup r c.channels) r (length p) now v
dispatch-IsSafe held c f (peer_adjust r a b) now v =
    handle_adjust-IsSafe held c (lookup r c.channels) r a b now v
dispatch-IsSafe held c f (peer_close_channel r reason) now v =
    handle_close-IsSafe held c (lookup r c.channels) r now v
dispatch-IsSafe held c f (peer_closed_channel r reason) now v =
    handle_closed-IsSafe held c (lookup r c.channels) r now v
dispatch-IsSafe held c f peer_ping now v = handle_ping-IsSafe held c now v
dispatch-IsSafe held c f peer_pong now v = handle_pong-IsSafe held c c.ping.last_ping now v

abbrev counted_control : Connection → ℕ → Connection
counted_control c now = record c {
  rates = record (c.rates) {
    control_frame =
        (record_item c.rates.control_frame c.shared.limits.max_control_frames_per_second now).0;
  };
}

abbrev counted_request : Connection → ℕ → Connection
counted_request c now = record c {
  rates = record (c.rates) {
    channel_request =
        (record_item c.rates.channel_request c.shared.limits.max_channel_requests_per_second now).0;
  };
}

admit_control-IsSafe :
    (held : ℕ) (c : Connection) (f : Frame) (p : PeerFrame) (now : ℕ)
    → IsSound held c
    → IsSafe held (admit_control c f p now)
unfolding admit_control
admit_control-IsSafe held c f p now v =
    either-IsSafe held (is_peer_data p) (dispatch c f p now)
      (if (record_item c.rates.control_frame c.shared.limits.max_control_frames_per_second now).1
        then dispatch (counted_control c now) f p now
        else (counted_control c now, violation control_frame_rate))
      (dispatch-IsSafe held c f p now v)
      (either-IsSafe held _ (dispatch (counted_control c now) f p now)
        (counted_control c now, violation control_frame_rate)
        (dispatch-IsSafe held (counted_control c now) f p now counted) (counted, tt))
  where
    counted : IsSound held (counted_control c now)
    counted = Same-IsSound held c (counted_control c now) (refl, refl, refl, refl, refl) v

refuse_oversized-IsSafe :
    (held : ℕ) (c : Connection) (p : PeerFrame)
    → IsSound held c
    → IsSafe held (refuse_oversized c p)
refuse_oversized-IsSafe held c (peer_request s a b e) v =
    send_or_fail-IsSafe held c (new channel_reject (id s ∷ octets endpoint_reason ∷ []))
      (λ d. (d, nothing)) v (λ d w. (w, tt))
refuse_oversized-IsSafe held c (peer_hello magic info) v = (v, tt)
refuse_oversized-IsSafe held c (peer_close reason) v = (v, tt)
refuse_oversized-IsSafe held c (peer_accept r s a b) v = (v, tt)
refuse_oversized-IsSafe held c (peer_reject r reason) v = (v, tt)
refuse_oversized-IsSafe held c (peer_data r p) v = (v, tt)
refuse_oversized-IsSafe held c (peer_adjust r a b) v = (v, tt)
refuse_oversized-IsSafe held c (peer_close_channel r reason) v = (v, tt)
refuse_oversized-IsSafe held c (peer_closed_channel r reason) v = (v, tt)
refuse_oversized-IsSafe held c peer_ping v = (v, tt)
refuse_oversized-IsSafe held c peer_pong v = (v, tt)

admit_size-IsSafe :
    (held : ℕ) (c : Connection) (f : Frame) (p : PeerFrame) (now : ℕ)
    → IsSound held c
    → IsSafe held (admit_size c f p now)
unfolding admit_size
admit_size-IsSafe held c f p now v =
    either-IsSafe held _ (refuse_oversized c p) (admit_control c f p now)
      (refuse_oversized-IsSafe held c p v) (admit_control-IsSafe held c f p now v)

admit_frame-IsSafe :
    (held : ℕ) (c : Connection) (f : Frame) (p : PeerFrame) (now : ℕ)
    → IsSound held c
    → IsSafe held (admit_frame c f p now)
unfolding admit_frame
admit_frame-IsSafe held c f p now v =
    either-IsSafe held (not c.hello_received && not (is_peer_hello p))
      (c, violation hello_must_be_first)
      (if is_peer_request p
        then (if (record_item c.rates.channel_request
              c.shared.limits.max_channel_requests_per_second now).1
            then admit_size (counted_request c now) f p now
            else (counted_request c now, violation channel_request_rate))
        else admit_size c f p now)
      (v, tt)
      (either-IsSafe held (is_peer_request p) _ (admit_size c f p now)
        (either-IsSafe held _ (admit_size (counted_request c now) f p now)
          (counted_request c now, violation channel_request_rate)
          (admit_size-IsSafe held (counted_request c now) f p now counted) (counted, tt))
        (admit_size-IsSafe held c f p now v))
  where
    counted : IsSound held (counted_request c now)
    counted = Same-IsSound held c (counted_request c now) (refl, refl, refl, refl, refl) v

-- A frame that the parser admits is handled within the limits of the connection, whatever it says and
-- whenever it comes. Afterwards the channels, the pending opens and the requests that callers or queued
-- accepts hold have their slots, with one more request held if the frame gave one out, no table has more
-- entries than its limit, and no assertion or getter has failed on the way.
pub handle_frame-IsSafe :
    (held : ℕ) (c : Connection) (bytes : List ℕ) (f : Frame) (now : ℕ)
    → parse bytes ≡ ok f
    → IsSound held c
    → IsSafe held (handle_frame c f now)
unfolding handle_frame
handle_frame-IsSafe held c bytes f now e v =
    let (p, q) = view-parse bytes f e in rw q (admit_frame-IsSafe held c f p now v)
