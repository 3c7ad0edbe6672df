-- ===== src/Core/Logger/Queue.antt =====
-- logger.cpp: the entries between the threads that log and the one that writes.
use mathlib.Core.List.{append_assoc, append-nil}
use dbmesh.Prelude.{
  ◌≡◌, refl, Bool, true, false, not, ◌||◌, List, [], ◌∷◌, ◌++◌, if◌then◌else◌, is_empty, ap, sym,
  ◌∙◌,
}
use dbmesh.Core.Logger.{
  LogLevel, LogEntry, Dispatcher, start, passes_level, push, stop, write_batch, writer,
}

-- What happens, in any order: a thread logs, the writer makes a step, or the program stops logging.
pub data Event : Type 0 where
  logs : LogEntry → Event
  writes : Event
  stops : Event

unfoldable pub apply : Dispatcher → Event → Dispatcher
apply d (logs e) = push d e
apply d writes = writer d
apply d stops = stop d

unfoldable pub run : Dispatcher → List Event → Dispatcher
unfolding apply
run d [] = d
run d (e ∷ es) = run (apply d e) es

-- What was logged at the level or above, in order.
abbrev pub logged : LogLevel → List Event → List LogEntry
logged min_level [] = []
logged min_level (logs e ∷ es) =
    let rest = logged min_level es in if passes_level min_level e then e ∷ rest else rest
logged min_level (_ ∷ es) = logged min_level es

-- All entries, the oldest first.
abbrev pub entries : Dispatcher → List LogEntry
entries d = d.written ++ (d.batch ++ d.queue)

-- The writer holds a batch only while it is awake.
abbrev pub Tidy : Dispatcher → Type 0
Tidy d = d.awake ≡ false → d.batch ≡ []

-- A step that loses nothing.
record Kept (d d' : Dispatcher) : Type 0 where
  tidy : Tidy d'
  same : entries d' ≡ entries d
  level : d'.min_level ≡ d.min_level

if-Kept :
    (d : Dispatcher) (b : Bool) (x y : Dispatcher)
    → (b ≡ true → Kept d x)
    → (b ≡ false → Kept d y)
    → Kept d (if b then x else y)
if-Kept d true x y h k = h refl
if-Kept d false x y h k = k refl

write_batch-Kept :
    (d : Dispatcher) (b : List LogEntry) → d.batch ≡ b → d.awake ≡ true → Kept d (write_batch d b)
unfolding write_batch
write_batch-Kept d [] h a = record { tidy = λ z. h; same = refl; level = refl }
write_batch-Kept d (e ∷ rest) h a = record {
  tidy = λ z. cc;
  same = rw h (append_assoc d.written (e ∷ []) (rest ++ d.queue));
  level = refl;
}

writer-Kept : (d : Dispatcher) → Tidy d → Kept d (writer d)
unfolding writer
writer-Kept d t =
    let still : Kept d d = record { tidy = t; same = refl; level = refl } in
    if-Kept d d.returned _ _ (λ r. still)
      (λ r.
        if-Kept d d.awake _ _ (λ a. write_batch-Kept d d.batch refl a)
          (λ a.
            if-Kept d (not (is_empty d.queue) || d.shutdown_flag) _ _
              (λ g. record {
                tidy = λ z. cc;
                same = rw (t a) (ap (λ q. d.written ++ q) (append-nil d.queue));
                level = refl;
              })
              (λ g. still)))

if-entries :
    (d : Dispatcher) (b : Bool) (e : LogEntry)
    → entries (if b then record d { queue = d.queue ++ e ∷ [] } else d)
      ≡ entries d ++ (if b then e ∷ [] else [])
if-entries d true e =
    ap (λ q. d.written ++ q) (sym (append_assoc d.batch d.queue (e ∷ [])))
    ∙ sym (append_assoc d.written (d.batch ++ d.queue) (e ∷ []))
if-entries d false e = sym (append-nil (entries d))

if-Tidy :
    (d : Dispatcher) (b : Bool) (e : LogEntry)
    → Tidy d
    → Tidy (if b then record d { queue = d.queue ++ e ∷ [] } else d)
if-Tidy d true e t = t
if-Tidy d false e t = t

if-level :
    (d : Dispatcher) (b : Bool) (e : LogEntry)
    → (if b then record d { queue = d.queue ++ e ∷ [] } else d).min_level ≡ d.min_level
if-level d true e = refl
if-level d false e = refl

if-cons :
    (b : Bool) (e : LogEntry) (es : List LogEntry)
    → (if b then e ∷ [] else []) ++ es ≡ (if b then e ∷ es else es)
if-cons true e es = refl
if-cons false e es = refl

pub run-entries :
    (d : Dispatcher) (l : LogLevel) (es : List Event)
    → Tidy d
    → d.min_level ≡ l
    → (entries (run d es) ≡ entries d ++ logged l es) × Tidy (run d es)
unfolding run apply push stop
run-entries d l [] t h = (sym (append-nil (entries d)), t)
run-entries d l (writes ∷ es) t h =
    let k = writer-Kept d t in
    let ih = run-entries (writer d) l es k.tidy (k.level ∙ h) in
    (ih.0 ∙ ap (λ xs. xs ++ logged l es) k.same, ih.1)
run-entries d l (stops ∷ es) t h = run-entries (record d { shutdown_flag = true }) l es t h
run-entries d l (logs e ∷ es) t h =
    let b = passes_level d.min_level e in
    let ih = run-entries (push d e) l es (if-Tidy d b e t) (if-level d b e ∙ h) in
    (
      ih.0
          ∙ (ap (λ xs. xs ++ logged l es) (if-entries d b e)
              ∙ (append_assoc (entries d) _ (logged l es)
                  ∙ ap (λ xs. entries d ++ xs) (if-cons b e (logged l es) ∙ rw h refl))),
      ih.1,
    )

-- However the threads that log and the writer take turns, every entry that was logged at the level
-- or above is written, in the writer's batch, or in the queue, in the order of logging, and no other.
pub run-start-entries : (l : LogLevel) (es : List Event) → entries (run (start l) es) ≡ logged l es
unfolding start
run-start-entries l es = (run-entries (start l) l es (λ z. refl) refl).0
