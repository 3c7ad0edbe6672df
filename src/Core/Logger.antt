-- ===== src/Core/Logger.antt =====
-- core/src/logger.cpp and logger.h: the levels, the loggers, the file that rotates, and the queue
-- between the threads that log and the thread that writes.
pub mod Rotation
pub mod Queue
pub mod Drained
pub mod Lines
use dbmesh.Prelude.{
  ℕ, suc, zero, ◌+◌, ◌-◌, ◌*◌, ◌^◌, Bool, true, false, not, ◌&&◌, ◌||◌, List, [], ◌∷◌, ◌++◌, Option,
  none, some, Bytes, codes, bytes_eq, if◌then◌else◌, ltb, leb, ◌==◌, length, lookup, emplace,
  is_empty, is_some,
}

-- `enum class LogLevel : uint8_t`.
pub data LogLevel : Type 0 where
  trace debug info warn error fatal : LogLevel

abbrev pub level_no : LogLevel → ℕ
level_no trace = 0
level_no debug = 1
level_no info = 2
level_no warn = 3
level_no error = 4
level_no fatal = 5

unfoldable pub log_level_str : LogLevel → Bytes
log_level_str trace = codes "TRACE"
log_level_str debug = codes "DEBUG"
log_level_str info = codes "INFO "
log_level_str warn = codes "WARN "
log_level_str error = codes "ERROR"
log_level_str fatal = codes "FATAL"

-- `none` is the exception.
unfoldable pub parse_log_level : Bytes → Option LogLevel
parse_log_level s =
    if bytes_eq s (codes "TRACE")
    then some trace
    else if bytes_eq s (codes "DEBUG")
    then some debug
    else if bytes_eq s (codes "INFO")
    then some info
    else if bytes_eq s (codes "WARN")
    then some warn
    else if bytes_eq s (codes "ERROR")
    then some error
    else if bytes_eq s (codes "FATAL")
    then some fatal
    else none

-- `RotatingFileSink`: the bytes in the file, where the stream stands in it, and the backups by their
-- number.
pub record Sink : Type 0 where
  pub max_bytes : ℕ
  pub max_backups : ℕ
  pub file : Bytes
  pub tellp : ℕ
  pub backups : ℕ → Option Bytes

abbrev pub put_backup : (ℕ → Option Bytes) → ℕ → Option Bytes → ℕ → Option Bytes
put_backup f i content j = if j == i then content else f j

-- `rename` from `i` to `i + 1`, if there is a file.
abbrev pub rename_up : ℕ → (ℕ → Option Bytes) → ℕ → Option Bytes
rename_up i f = if is_some (f i) then put_backup (put_backup f (i + 1) (f i)) i none else f

-- The loop from `i` down to 1.
unfoldable pub shift : ℕ → (ℕ → Option Bytes) → ℕ → Option Bytes
shift zero f = f
shift (suc i) f = shift i (rename_up (suc i) f)

-- `static_cast<int>(max_backups_) - 1`, as the first number of the loop: none when it is negative.
abbrev pub first_shifted : ℕ → ℕ
first_shifted n = if ltb n (2 ^ 31) then n - 1 else 0

unfoldable pub rotate : Sink → Sink
unfolding shift
rotate s =
    let kept = shift (first_shifted s.max_backups) (put_backup s.backups s.max_backups none) in
    record s { file = []; tellp = 0; backups = put_backup kept 1 (some s.file) }

abbrev pub append_line : Sink → Bytes → Sink
append_line s line =
    let file = s.file ++ (line ++ b'\n' ∷ []) in record s { file = file; tellp = length file }

unfoldable pub write : Sink → Bytes → Sink
unfolding rotate
write s line =
    if ltb 0 s.tellp && leb s.max_bytes s.tellp
    then append_line (rotate s) line
    else append_line s line

-- `LogEntry`.
pub record LogEntry : Type 0 where
  pub level : LogLevel
  pub component : Bytes
  pub message : Bytes
  pub timestamp : ℕ

-- `Dispatcher`, with what its writer thread has swapped out and not yet written, what it has
-- written, oldest first, and whether it has returned.
pub record Dispatcher : Type 0 where
  pub min_level : LogLevel
  pub queue : List LogEntry
  pub shutdown_flag : Bool
  pub batch : List LogEntry
  pub written : List LogEntry
  pub awake : Bool
  pub returned : Bool

unfoldable pub start : LogLevel → Dispatcher
start min_level = record {
  min_level = min_level;
  queue = [];
  shutdown_flag = false;
  batch = [];
  written = [];
  awake = false;
  returned = false;
}

abbrev pub passes_level : LogLevel → LogEntry → Bool
passes_level min_level e = leb (level_no min_level) (level_no e.level)

-- `push`, on any thread.
unfoldable pub push : Dispatcher → LogEntry → Dispatcher
push d e = if passes_level d.min_level e then record d { queue = d.queue ++ e ∷ [] } else d

-- `stop`, up to the join.
unfoldable pub stop : Dispatcher → Dispatcher
stop d = record d { shutdown_flag = true }

-- The next step of the writer: behind the wait it swaps the queue out, then it writes entry by
-- entry, and then it looks whether to return. Before the wait is over it does not move.
unfoldable pub write_batch : Dispatcher → List LogEntry → Dispatcher
write_batch d (e ∷ rest) = record d { batch = rest; written = d.written ++ e ∷ [] }
write_batch d [] = record d { awake = false; returned = d.shutdown_flag && is_empty d.queue }

unfoldable pub writer : Dispatcher → Dispatcher
unfolding write_batch
writer d =
    if d.returned
    then d
    else if d.awake
    then write_batch d d.batch
    else if not (is_empty d.queue) || d.shutdown_flag
    then record d { awake = true; batch = d.queue; queue = [] }
    else d

-- `Logger::get`: the registry of loggers, which are numbered as they are made.
pub record Loggers : Type 0 where
  pub registry : List (Bytes × ℕ)
  pub made : ℕ

unfoldable pub get_logger : Loggers → Bytes → Loggers × ℕ
get_logger l component = elim (lookup component l.registry) [
  | some it ↦ (l, it)
  | none ↦ (record { registry = emplace component l.made l.registry; made = l.made + 1 }, l.made)
]
