-- ===== src/Multiplex/Channel/Examples.antt =====
-- Runs of a channel, and the theorems at them.
use nexigon.Base.{◌≡◌, refl, false, some, List, [], ◌∷◌, arith, length, to_be_bytes, ℕ}
use nexigon.Multiplex.Frames.{ping, new, set_field}
use nexigon.Multiplex.Limits.{default_limits, validate, validate-IsValid, IsValid}
use nexigon.Multiplex.Shared.{
  ConnectionShared, new_shared, is_closing, send_frame, try_queue_frame, terminate, terminate,
  clear_queues,
}
use nexigon.Multiplex.Channel.{Sender, new_chunk, poll_write, poll_send_chunk, adjust_credit}
use nexigon.Multiplex.Channel.Receiver.{
  ReceiverShared, new_receiver_shared, receive_data, poll_next_chunk, consume, grow, settle,
  return_credit, update_credit,
}
use nexigon.Multiplex.Channel.Receiving.{IsWithin, IsExact, buffered_bytes}
use nexigon.Multiplex.Channel.Settling.{poll_next_chunk-IsExact, poll_next_chunk-IsOpen, IsOpen}
use nexigon.Multiplex.Channel.Sending.{IsReady}
use nexigon.Multiplex.Channel.Writing.{Writes, poll_write-Writes, Adjusts, adjust_credit-Adjusts}
use nexigon.Multiplex.Channel.Flow.{Link, new_link, new_sender, writes, flushes, arrives, history}
use nexigon.Multiplex.Channel.Flow.Balance.{IsBalanced, history-new_link}

abbrev fresh : ConnectionShared
fresh = new_shared default_limits

abbrev three_bytes : List ℕ
three_bytes = 1 ∷ 2 ∷ 3 ∷ []

abbrev sender : Sender
sender = new_sender default_limits 5 128 16384 0

sender-IsReady : IsReady sender
sender-IsReady = record {
  pending_fits = tt;
  frames = omega arith;
  bytes = omega arith;
  some_room = omega arith;
}

-- A receiver with one frame to read, which leaves less than half of the frame window.
abbrev receiver : ReceiverShared
receiver = record (new_receiver_shared 1024 1048576 0) {
  buffer = new_chunk three_bytes ∷ [];
  remaining_frame_credit = 63;
  remaining_byte_credit = 16381;
  pending_frame_credit = 64;
}

receiver-IsWithin : IsWithin receiver
unfolding buffered_bytes new_chunk to_be_bytes
receiver-IsWithin = omega arith

receiver-IsExact : IsExact receiver
unfolding buffered_bytes new_chunk to_be_bytes
receiver-IsExact = record { frames = refl; bytes = refl }

reading_stays_up : is_closing (poll_next_chunk fresh 5 receiver (some 100) 50 9).0 ≡ false
unfolding poll_next_chunk new_chunk to_be_bytes consume grow settle return_credit update_credit
    send_frame try_queue_frame new
reading_stays_up = refl

window_doubles : (poll_next_chunk fresh 5 receiver (some 100) 50 9).1.max_frame_credit ≡ 256
unfolding poll_next_chunk new_chunk to_be_bytes consume grow settle return_credit update_credit
    send_frame try_queue_frame new
window_doubles = refl

poll_next_chunk-IsExact_example : IsExact (poll_next_chunk fresh 5 receiver (some 100) 50 9).1
poll_next_chunk-IsExact_example =
    poll_next_chunk-IsExact fresh 5 receiver (some 100) 50 9 receiver-IsWithin receiver-IsExact
      reading_stays_up

poll_next_chunk-IsOpen_example : IsOpen (poll_next_chunk fresh 5 receiver (some 100) 50 9).1
poll_next_chunk-IsOpen_example =
    poll_next_chunk-IsOpen fresh 5 receiver (some 100) 50 9 (new_chunk three_bytes)
      receiver-IsWithin receiver-IsExact refl reading_stays_up

poll_write-Writes_example : Writes three_bytes (poll_write fresh sender three_bytes 9)
poll_write-Writes_example = poll_write-Writes fresh sender three_bytes 9 sender-IsReady

adjust_credit-Adjusts_example : Adjusts sender (adjust_credit fresh sender.shared 3 40 9)
adjust_credit-Adjusts_example = adjust_credit-Adjusts fresh sender 3 40 9 sender-IsReady

default_limits-IsValid : IsValid default_limits
unfolding validate
default_limits-IsValid = validate-IsValid default_limits refl

abbrev link : Link
link = new_link default_limits default_limits 5 0

one_frame_crosses :
    length
      (history link
        (writes fresh three_bytes 9 ∷ flushes fresh 9 ∷ arrives fresh ∷ [])).receiver.buffer
    ≡ 1
unfolding poll_write poll_send_chunk new_chunk to_be_bytes set_field receive_data try_queue_frame
one_frame_crosses = refl

history-new_link_example :
    ((history link (writes fresh three_bytes 9 ∷ flushes fresh 9 ∷ arrives fresh ∷ [])).violated
      ≡ false)
    × IsBalanced (history link (writes fresh three_bytes 9 ∷ flushes fresh 9 ∷ arrives fresh ∷ []))
history-new_link_example =
    history-new_link default_limits default_limits 5 0
      (writes fresh three_bytes 9 ∷ flushes fresh 9 ∷ arrives fresh ∷ []) default_limits-IsValid
      default_limits-IsValid (omega arith) (omega arith)

abbrev closing : ConnectionShared
closing = terminate fresh

closing_refuses : (send_frame closing (new ping [])).1 ≡ false
unfolding send_frame terminate try_queue_frame clear_queues
closing_refuses = refl
