-- ===== src/Core/Logger/Lines.antt =====
-- logger.cpp: the line of an entry and where it goes. `ts` is the text of a time, `format_ts`, whose
-- fields gmtime_r gives.
use dbmesh.Prelude.{
  ℕ, ◌-◌, ◌*◌, ◌<◌, ◌≡◌, refl, arith, Bool, true, false, ◌||◌, List, [], ◌∷◌, ◌++◌, Option, none,
  some, Bytes, codes, bytes_eq, if◌then◌else◌, leb, ◌==◌, length, take, length-take, replicate, ap,
  ◌∙◌,
}
use dbmesh.Core.Config.{LoggingConfig}
use dbmesh.Core.Logger.{level_no, log_level_str, LogEntry, Sink, write}
use dbmesh.Core.Logger.Rotation.{Bounded, write-Bounded}

-- `c_str` for a `%s`: up to the first null.
abbrev pub c_str : Bytes → Bytes
c_str [] = []
c_str (c ∷ cs) = let rest = c_str cs in if c == 0 then [] else c ∷ rest

-- `snprintf` into `char buf[2048]`, and the string made of it.
unfoldable pub into_buf : Bytes → Bytes
into_buf s = take 2047 s

-- `%-10s`.
abbrev pub padded : Bytes → Bytes
padded s = s ++ replicate (10 - length s) b' '

unfoldable pub format_json : (ℕ → Bytes) → LogEntry → Bytes
format_json ts e = into_buf (
    codes "{\"ts\":\""
    ++ ts e.timestamp
    ++ codes "\",\"level\":\""
    ++ log_level_str e.level
    ++ codes "\",\"component\":\""
    ++ c_str e.component
    ++ codes "\",\"msg\":\""
    ++ c_str e.message
    ++ codes "\"}")

unfoldable pub format_text : (ℕ → Bytes) → LogEntry → Bytes
format_text ts e = into_buf (
    ts e.timestamp
    ++ codes " ["
    ++ log_level_str e.level
    ++ codes "] ["
    ++ padded (c_str e.component)
    ++ codes "] "
    ++ c_str e.message)

-- What `write_entry` reads and writes of the dispatcher.
pub record Outputs : Type 0 where
  pub json_format : Bool
  pub to_stdout : Bool
  pub stderr : Bytes
  pub stdout : Bytes
  pub file_sink : Option Sink

-- `Dispatcher::start`, where the stream of the file has been opened, which stands at 0 until it writes.
unfoldable pub open_outputs : LoggingConfig → Bytes → (ℕ → Option Bytes) → Outputs
open_outputs cfg file backups = record {
  json_format = bytes_eq cfg.format (codes "json");
  to_stdout = bytes_eq cfg.output (codes "stdout") || bytes_eq cfg.output (codes "both");
  stderr = [];
  stdout = [];
  file_sink =
      if bytes_eq cfg.output (codes "file") || bytes_eq cfg.output (codes "both")
      then some (record {
        max_bytes = cfg.file.max_size_mb * 1024 * 1024;
        max_backups = cfg.file.max_backups;
        file = file;
        tellp = 0;
        backups = backups;
      })
      else none;
}

abbrev pub line_of : (ℕ → Bytes) → Bool → LogEntry → Bytes
line_of ts json e = if json then format_json ts e else format_text ts e

-- `fputs` to one of the console's streams.
abbrev pub put_line : Outputs → Bool → Bytes → Outputs
put_line o loud line =
    if loud
    then record o { stderr = o.stderr ++ line ++ b'\n' ∷ [] }
    else record o { stdout = o.stdout ++ line ++ b'\n' ∷ [] }

abbrev pub to_sink : Option Sink → Bytes → Option Sink
to_sink none line = none
to_sink (some s) line = some (write s line)

unfoldable pub write_entry : (ℕ → Bytes) → Outputs → LogEntry → Outputs
write_entry ts o e =
    let line = line_of ts o.json_format e in
    let shown = if o.to_stdout then put_line o (leb 3 (level_no e.level)) line else o in
    record shown { file_sink = to_sink o.file_sink line }

-- `for (const auto& e : batch) write_entry(e)`.
unfoldable pub write_entries : (ℕ → Bytes) → Outputs → List LogEntry → Outputs
write_entries ts o [] = o
write_entries ts o (e ∷ es) = write_entries ts (write_entry ts o e) es

length-into_buf : (s : Bytes) → length (into_buf s) < 2048
unfolding into_buf
length-into_buf s = omega (arith, length-take 2047 s)

length-line_of : (ts : ℕ → Bytes) (json : Bool) (e : LogEntry) → length (line_of ts json e) < 2048
unfolding format_json format_text
length-line_of ts true e = length-into_buf _
length-line_of ts false e = length-into_buf _

write_entry-sink :
    (ts : ℕ → Bytes) (o : Outputs) (e : LogEntry) (s : Sink)
    → o.file_sink ≡ some s
    → (write_entry ts o e).file_sink ≡ some (write s (line_of ts o.json_format e))
unfolding write_entry
write_entry-sink ts o e s h = ap (λ f. to_sink f (line_of ts o.json_format e)) h

-- However many entries are written, in either format and with or without the console, a file that
-- is not longer than the limit by more than 2048 bytes, with the stream at its end, stays so.
pub write_entries-Bounded :
    (ts : ℕ → Bytes) (o : Outputs) (es : List LogEntry) (s : Sink)
    → o.file_sink ≡ some s
    → Bounded 2048 s
    → (t : Sink) × ((write_entries ts o es).file_sink ≡ some t)
      × Bounded 2048 t
      × (t.max_bytes ≡ s.max_bytes)
unfolding write_entries
write_entries-Bounded ts o [] s h b = (s, h, b, refl)
write_entries-Bounded ts o (e ∷ es) s h b =
    let line = line_of ts o.json_format e in
    let one = write-Bounded 2048 s line (length-line_of ts o.json_format e) b in
    let (t, there, fits, same) =
      write_entries-Bounded ts (write_entry ts o e) es (write s line) (write_entry-sink ts o e s h)
        one.0 in
    (t, there, fits, same ∙ one.1)
