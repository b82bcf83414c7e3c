-- ===== src/Multiplex/Shared/Examples.antt =====
-- Runs of the queues, and the theorems at them.
use nexigon.Base.{◌≤◌, ◌≡◌, refl, some, List, [], ◌∷◌, ◌++◌, arith, length, to_be_bytes}
use nexigon.Multiplex.Frames.{Frame, channel_data, channel_closed, ping, id, octets, new}
use nexigon.Multiplex.Limits.{ConnectionLimits, default_limits, IsValid, validate, validate-IsValid}
use nexigon.Multiplex.Shared.{
  ConnectionShared, new_shared, failed, full, step, run, Call, sends, sends_priority, sends_data,
  pops, send_data_frame, try_queue_frame, register_waiter, store_frames, pop_frame, send_frame,
  send_priority_frame, try_queue_priority_frame, insert_priority,
}
use nexigon.Multiplex.Shared.Bounds.{IsBounded, total_bytes, run-new_shared}
use nexigon.Multiplex.Shared.Order.{traffic, run_accepts, run_takes, run-traffic}
use nexigon.Multiplex.Shared.Hello.{hello_frame, pop_frame-hello}
use nexigon.Multiplex.Shared.Waking.{WillWake, Attends}
use nexigon.Multiplex.Shared.Waiters.{send_data_frame-WillWake}

default_limits-IsValid : IsValid default_limits
unfolding validate
default_limits-IsValid = validate-IsValid default_limits refl

abbrev payload_frame : Frame
payload_frame = new channel_data (id 1 ∷ octets (42 ∷ []) ∷ [])

abbrev ping_frame : Frame
ping_frame = new ping []

abbrev closed_frame : Frame
closed_frame = new channel_closed (id 1 ∷ octets [] ∷ [])

-- Room for one data frame, with one slot reserved.
abbrev narrow : ConnectionLimits
narrow = record default_limits { max_queued_frames = 2; reserved_control_queue_frames = 1 }

narrow-IsValid : IsValid narrow
unfolding validate
narrow-IsValid = validate-IsValid narrow refl

abbrev busy : ConnectionShared
busy = store_frames (new_shared narrow) (payload_frame ∷ []) 10

abbrev history : List Call
history =
    sends hello_frame ∷ sends_data payload_frame 7 ∷ sends_priority ping_frame ∷ pops ∷ pops ∷ []

priority_behind_hello :
    (run (new_shared default_limits) (
      sends hello_frame
      ∷ sends_data payload_frame 7
      ∷ sends_priority ping_frame
      ∷ [])).queues.frames
    ≡ hello_frame ∷ ping_frame ∷ payload_frame ∷ []
unfolding run step send_frame send_priority_frame try_queue_frame try_queue_priority_frame
    insert_priority new to_be_bytes
priority_behind_hello = refl

run-new_shared_example : length (run (new_shared narrow) history).queues.frames ≤ 2
run-new_shared_example = (run-new_shared narrow history).1

run-traffic_example :
    traffic [] ++ run_accepts (new_shared narrow) history
    ≡ run_takes (new_shared narrow) history
      ++ traffic (run (new_shared narrow) history).queues.frames
unfolding new
run-traffic_example = run-traffic (new_shared narrow) history (tt, (tt, (refl, (tt, (tt, tt)))))

pop_frame-hello_example :
    (pop_frame
      (run (send_frame (new_shared narrow) hello_frame).0 (sends_priority ping_frame ∷ []))).1
    ≡ some hello_frame
pop_frame-hello_example =
    pop_frame-hello narrow (sends_priority ping_frame ∷ []) narrow-IsValid (tt, tt)

busy-IsBounded : IsBounded busy
unfolding new total_bytes to_be_bytes
busy-IsBounded = omega arith

busy_refuses :
    send_data_frame busy payload_frame 7
    ≡ (register_waiter busy (some 7), failed full payload_frame)
unfolding try_queue_frame new to_be_bytes
busy_refuses = refl

-- Another writer is refused too, and the transport then takes a frame.
abbrev later_calls : List Call
later_calls = sends_data payload_frame 8 ∷ pops ∷ []

send_data_frame-WillWake_example :
    WillWake (register_waiter busy (some 7)) 7
    × Attends (register_waiter busy (some 7)) 7 (run (register_waiter busy (some 7)) later_calls)
send_data_frame-WillWake_example =
    send_data_frame-WillWake busy (register_waiter busy (some 7)) payload_frame 7 later_calls
      narrow-IsValid busy-IsBounded busy_refuses
