-- ===== src/Examples/Logging.antt =====
-- A log that is written, rotated and stopped.
use dbmesh.Prelude.{
  ℕ, bytes_eq, ◌≡◌, ◌==◌, if◌then◌else◌, refl, arith, true, List, [], ◌∷◌, none, some, Bytes, codes,
}
use dbmesh.Core.Logger.{LogLevel, debug, info, warn, LogEntry, start, stop, Sink}
use dbmesh.Core.Logger.Queue.{Event, logs, writes, run, logged, entries, run-start-entries}
use dbmesh.Core.Logger.Drained.{iterate, steps, stop-drains}
use dbmesh.Core.Config.{default_logging}
use dbmesh.Core.Logger.Lines.{
  Outputs, into_buf, format_json, format_text, open_outputs, write_entry, write_entries,
  write_entries-Bounded,
}
use dbmesh.Core.Logger.{log_level_str}
use dbmesh.Core.Logger.Rotation.{write_all, Bounded, write_all-Bounded}

abbrev entry : LogLevel → Bytes → LogEntry
entry level message = record {
  level = level;
  component = codes "c";
  message = message;
  timestamp = 0;
}

abbrev a_day : List Event
a_day =
    logs (entry info (codes "a"))
    ∷ writes
    ∷ logs (entry debug (codes "b"))
    ∷ logs (entry warn (codes "c"))
    ∷ writes
    ∷ []

run-start-entries_example : entries (run (start info) a_day) ≡ logged info a_day
run-start-entries_example = run-start-entries info a_day

logged_test : logged info a_day ≡ entry info (codes "a") ∷ entry warn (codes "c") ∷ []
logged_test = refl

stop-drains_example :
    let d = run (start info) a_day in
    let f = iterate (steps d) (stop d) in (f.returned ≡ true) × (f.written ≡ logged info a_day)
stop-drains_example = stop-drains info a_day refl

abbrev sink : Sink
sink = record {
  max_bytes = 10;
  max_backups = 3;
  file = [];
  tellp = 0;
  backups = λ i. if i == 1 then some (codes "old") else none;
}

abbrev lines : List Bytes
lines = codes "first" ∷ codes "second" ∷ codes "third" ∷ []

write_all-Bounded_test :
    Bounded 7 (write_all sink lines) × ((write_all sink lines).max_bytes ≡ sink.max_bytes)
write_all-Bounded_test = write_all-Bounded 7 sink lines refl (refl, omega arith)

abbrev clock : ℕ → Bytes
clock n = codes "T"

abbrev outputs : Outputs
outputs = record {
  json_format = true;
  to_stdout = true;
  stderr = [];
  stdout = [];
  file_sink = some sink;
}

abbrev some_entries : List LogEntry
some_entries = entry info (codes "a") ∷ entry warn (codes "b") ∷ []

write_entries-Bounded_example :
    (t : Sink) × ((write_entries clock outputs some_entries).file_sink ≡ some t)
    × Bounded 2048 t
    × (t.max_bytes ≡ 10)
write_entries-Bounded_example =
    write_entries-Bounded clock outputs some_entries sink refl (refl, omega arith)

-- The warning goes to the other stream.
write_entries-streams :
    ((write_entries clock outputs some_entries).stderr
      ≡ codes "{\"ts\":\"T\",\"level\":\"WARN \",\"component\":\"c\",\"msg\":\"b\"}\n")
    × ((write_entries clock outputs some_entries).stdout
        ≡ codes "{\"ts\":\"T\",\"level\":\"INFO \",\"component\":\"c\",\"msg\":\"a\"}\n")
unfolding write_entries write_entry format_json into_buf log_level_str
write_entries-streams = (refl, refl)

-- A message is not escaped: a quote in it ends the text.
format_json-quote :
    format_json clock (entry info (codes "\""))
    ≡ codes "{\"ts\":\"T\",\"level\":\"INFO \",\"component\":\"c\",\"msg\":\"\"\"}"
unfolding format_json into_buf log_level_str
format_json-quote = refl

format_text-padded : format_text clock (entry info (codes "a")) ≡ codes "T [INFO ] [c         ] a"
unfolding format_text into_buf log_level_str
format_text-padded = refl

-- The output that is configured by default.
open_outputs-default : (open_outputs default_logging [] (λ i. none)).file_sink ≡ none
unfolding open_outputs bytes_eq
open_outputs-default = refl
