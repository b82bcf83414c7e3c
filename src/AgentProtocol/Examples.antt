-- ===== src/AgentProtocol/Examples.antt =====
-- The framing over byte strings in memory, and the theorems at it.
use nexigon.Base.{
  ℕ, ◌≡◌, refl, ap, true, Option, some, none, List, [], ◌∷◌, ◌++◌, arith, length, take, drop,
  take-append, drop-append, to_be_bytes, leb, if◌then◌else◌, le→leb, length-append,
}
use nexigon.AgentProtocol.{
  Reader, Writer, ok, read_hub_terminal_frame, read_device_terminal_frame, write_terminal_data,
  hub_data, device_data, write_command_frame, read_command_frame, err, too_large,
}
use nexigon.AgentProtocol.Streams.{ReaderLaws, WriterLaws, Gives}
use nexigon.AgentProtocol.Reading.{read_terminal_frames-refuse}
use nexigon.AgentProtocol.Transfer.{write_terminal_data-read, write_command_frame-read}

abbrev memory_reader : Reader (List ℕ)
memory_reader = record {
  read_exact = λ bs n. if leb n (length bs) then (drop n bs, some (take n bs)) else ([], none);
  in_time = λ bs n. true;
  abandon = λ bs n. [];
}

abbrev memory_writer : Writer (List ℕ)
memory_writer = record { write_all = λ w bs. (w ++ bs, true); flush = λ w. (w, true) }

abbrev memory_read : List ℕ → ℕ → List ℕ × Option (List ℕ)
memory_read bs n = if leb n (length bs) then (drop n bs, some (take n bs)) else ([], none)

memory_reads :
    (r bs rest : List ℕ)
    → r ≡ bs ++ rest
    → ((memory_read r (length bs)).1 ≡ some bs) × ((memory_read r (length bs)).0 ≡ rest)
memory_reads r bs rest h =
    rw (h, le→leb (length bs) (length (bs ++ rest)) (omega (arith, length-append bs rest)))
      (ap some (take-append bs rest), drop-append bs rest)

abbrev memory_reader_laws : ReaderLaws memory_reader
memory_reader_laws = record {
  Holds = λ r bs. r ≡ bs;
  reads = memory_reads;
  arrives = λ r bs rest h. refl;
}

abbrev memory_writer_laws : WriterLaws memory_writer
memory_writer_laws = record { written = λ w. w; appends = λ w bs h. refl; keeps = λ w. refl }

write_terminal_data-read_example :
    Gives memory_reader_laws
      (read_hub_terminal_frame memory_reader (0 ∷ 0 ∷ 0 ∷ 3 ∷ 0 ∷ 104 ∷ 105 ∷ 7 ∷ []))
      (ok (hub_data (104 ∷ 105 ∷ [])))
      (7 ∷ [])
    × Gives memory_reader_laws
        (read_device_terminal_frame memory_reader (0 ∷ 0 ∷ 0 ∷ 3 ∷ 0 ∷ 104 ∷ 105 ∷ 7 ∷ []))
        (ok (device_data (104 ∷ 105 ∷ [])))
        (7 ∷ [])
unfolding write_terminal_data to_be_bytes
write_terminal_data-read_example =
    write_terminal_data-read memory_writer_laws memory_reader_laws []
      (0 ∷ 0 ∷ 0 ∷ 3 ∷ 0 ∷ 104 ∷ 105 ∷ []) (0 ∷ 0 ∷ 0 ∷ 3 ∷ 0 ∷ 104 ∷ 105 ∷ 7 ∷ []) (104 ∷ 105 ∷ [])
      (0 ∷ 0 ∷ 0 ∷ 3 ∷ 0 ∷ 104 ∷ 105 ∷ []) (7 ∷ []) refl refl refl

abbrev resize_bytes : List ℕ
resize_bytes = 0 ∷ 0 ∷ 0 ∷ 5 ∷ 1 ∷ 0 ∷ 80 ∷ 1 ∷ 4 ∷ []

abbrev exit_bytes : List ℕ
exit_bytes = 0 ∷ 0 ∷ 0 ∷ 5 ∷ 2 ∷ 255 ∷ 255 ∷ 255 ∷ 255 ∷ []

abbrev command_bytes : List ℕ
command_bytes = 0 ∷ 0 ∷ 0 ∷ 2 ∷ 123 ∷ 125 ∷ 9 ∷ []

-- A frame that is its own JSON text.
write_command_frame-read_example :
    Gives memory_reader_laws
      (read_command_frame memory_reader (λ bs. some bs) command_bytes)
      (ok (123 ∷ 125 ∷ []))
      (9 ∷ [])
unfolding write_command_frame to_be_bytes
write_command_frame-read_example =
    write_command_frame-read memory_writer_laws memory_reader_laws (λ bs. some bs) (λ bs. some bs)
      [] (0 ∷ 0 ∷ 0 ∷ 2 ∷ 123 ∷ 125 ∷ []) command_bytes (123 ∷ 125 ∷ []) (123 ∷ 125 ∷ [])
      (0 ∷ 0 ∷ 0 ∷ 2 ∷ 123 ∷ 125 ∷ []) (9 ∷ []) refl (omega arith) refl refl refl

abbrev huge_bytes : List ℕ
huge_bytes = 255 ∷ 255 ∷ 255 ∷ 255 ∷ 7 ∷ []

read_terminal_frames-refuse_example :
    Gives memory_reader_laws
      (read_hub_terminal_frame memory_reader huge_bytes)
      (err (too_large 4294967295 1048577))
      (7 ∷ [])
    × Gives memory_reader_laws
        (read_device_terminal_frame memory_reader huge_bytes)
        (err (too_large 4294967295 1048577))
        (7 ∷ [])
unfolding to_be_bytes
read_terminal_frames-refuse_example =
    read_terminal_frames-refuse memory_reader_laws huge_bytes 4294967295
      (too_large 4294967295 1048577) (7 ∷ []) (omega arith) refl refl
