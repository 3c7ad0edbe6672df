-- ===== src/Core/Logger/Drained.antt =====
-- logger.cpp: the writer's steps after `stop`.
use mathlib.Core.List.{append_assoc, append-nil}
use mathlib.Core.Path.{subst}
use dbmesh.Prelude.{
  ℕ, zero, suc, ◌+◌, ◌≤◌, ◌≡◌, refl, arith, Bool, true, false, not, ◌||◌, List, [], ◌∷◌, ◌++◌,
  if◌then◌else◌, is_empty, length, ap, sym, ◌∙◌,
}
use dbmesh.Core.Logger.{
  LogLevel, LogEntry, Dispatcher, start, passes_level, push, stop, write_batch, writer,
}
use dbmesh.Core.Logger.Queue.{
  Event, logs, writes, stops, apply, run, logged, entries, Tidy, run-entries,
}

-- So many steps of the writer.
unfoldable pub iterate : ℕ → Dispatcher → Dispatcher
unfolding writer
iterate zero d = d
iterate (suc n) d = iterate n (writer d)

-- The writer has returned, and this is what it has written.
abbrev Finished : Dispatcher → List LogEntry → Type 0
Finished d es = (d.returned ≡ true) × (d.written ≡ es)

if-true {ℓ} : {A : Type ℓ} (b : Bool) (x y : A) → b ≡ true → (if b then x else y) ≡ x
if-true true x y h = refl
if-true false x y h = cc

iterate-returned : (n : ℕ) (d : Dispatcher) → d.returned ≡ true → iterate n d ≡ d
unfolding iterate writer
iterate-returned zero d h = refl
iterate-returned (suc n) d h = ap (iterate n) (if-true d.returned d _ h) ∙ iterate-returned n d h

-- The dispatcher after `stop`, by its lists.
abbrev stopped : LogLevel → List LogEntry → List LogEntry → List LogEntry → Bool → Dispatcher
stopped l w b q awake = record {
  min_level = l;
  queue = q;
  shutdown_flag = true;
  batch = b;
  written = w;
  awake = awake;
  returned = false;
}

last_batch :
    (n : ℕ) (l : LogLevel) (w b : List LogEntry)
    → length b + 1 ≤ n
    → Finished (iterate n (stopped l w b [] true)) (w ++ b)
unfolding iterate writer write_batch
last_batch zero l w b h = absurd (omega arith)
last_batch (suc n) l w [] h =
    let d : Dispatcher = record (stopped l w [] [] false) { returned = true } in
    subst (λ (x : Dispatcher). Finished x (w ++ [])) (sym (iterate-returned n d refl))
      (refl, sym (append-nil w))
last_batch (suc n) l w (e ∷ b) h =
    let ih = last_batch n l (w ++ e ∷ []) b (omega arith) in
    (ih.0, ih.1 ∙ append_assoc w (e ∷ []) b)

last_queue :
    (n : ℕ) (l : LogLevel) (w q : List LogEntry)
    → length q + 2 ≤ n
    → Finished (iterate n (stopped l w [] q false)) (w ++ q)
unfolding iterate writer
last_queue zero l w q h = absurd (omega arith)
last_queue (suc n) l w [] h = last_batch n l w [] (omega arith)
last_queue (suc n) l w (e ∷ q) h = last_batch n l w (e ∷ q) (omega arith)

rest_of_batch :
    (n : ℕ) (l : LogLevel) (w b q : List LogEntry)
    → length b + length q + 3 ≤ n
    → Finished (iterate n (stopped l w b q true)) (w ++ (b ++ q))
unfolding iterate writer write_batch
rest_of_batch zero l w b q h = absurd (omega arith)
rest_of_batch (suc n) l w [] [] h = last_batch (suc n) l w [] (omega arith)
rest_of_batch (suc n) l w [] (e ∷ q) h = last_queue n l w (e ∷ q) (omega arith)
rest_of_batch (suc n) l w (e ∷ b) q h =
    let ih = rest_of_batch n l (w ++ e ∷ []) b q (omega arith) in
    (ih.0, ih.1 ∙ append_assoc w (e ∷ []) (b ++ q))

-- Nothing stops the dispatcher.
abbrev pub none_stops : List Event → Bool
none_stops [] = true
none_stops (stops ∷ es) = false
none_stops (logs e ∷ es) = none_stops es
none_stops (writes ∷ es) = none_stops es

-- Without `stop`, the flag is off and the writer does not return.
abbrev Running : Dispatcher → Type 0
Running d = (d.shutdown_flag ≡ false) × (d.returned ≡ false)

if-Running : (b : Bool) (x y : Dispatcher) → Running x → Running y → Running (if b then x else y)
if-Running true x y h k = h
if-Running false x y h k = k

write_batch-Running : (d : Dispatcher) (b : List LogEntry) → Running d → Running (write_batch d b)
unfolding write_batch
write_batch-Running d [] h = (h.0, rw h.0 refl)
write_batch-Running d (e ∷ b) h = h

writer-Running : (d : Dispatcher) → Running d → Running (writer d)
unfolding writer
writer-Running d h = if-Running d.returned _ _ h (
    if-Running d.awake _ _ (write_batch-Running d d.batch h)
      (if-Running (not (is_empty d.queue) || d.shutdown_flag) _ _ h h))

run-Running :
    (d : Dispatcher) (es : List Event) → none_stops es ≡ true → Running d → Running (run d es)
unfolding run apply push
run-Running d [] n h = h
run-Running d (writes ∷ es) n h = run-Running (writer d) es n (writer-Running d h)
run-Running d (stops ∷ es) n h = cc
run-Running d (logs e ∷ es) n h =
    run-Running (push d e) es n (if-Running (passes_level d.min_level e) _ _ h h)

-- What is left to write takes as many steps, and at most three more.
abbrev pub steps : Dispatcher → ℕ
steps d = length d.batch + length d.queue + 3

stop-Finished :
    (d : Dispatcher) → Tidy d → Running d → Finished (iterate (steps d) (stop d)) (entries d)
unfolding stop
stop-Finished d t h =
    let made : (a r : Bool) → Dispatcher =
      λ a r. record (stopped d.min_level d.written d.batch d.queue a) { returned = r } in
    subst (λ (r : Bool). Finished (iterate (steps d) (made d.awake r)) (entries d)) (sym h.1)
      (by_turn d.awake refl)
  where
    by_turn :
        (a : Bool)
        → d.awake ≡ a
        → Finished (iterate (steps d) (stopped d.min_level d.written d.batch d.queue a)) (entries d)
    by_turn true a = rest_of_batch (steps d) d.min_level d.written d.batch d.queue (omega arith)
    by_turn false a =
        rw (t a) (last_queue (0 + length d.queue + 3) d.min_level d.written d.queue (omega arith))

-- When a program that has not stopped logging before stops it, and nothing is logged from then on,
-- the writer returns after as many steps as there are entries to write and three more, and then
-- every entry that was logged at the level or above is written, in the order of logging.
pub stop-drains :
    (l : LogLevel) (es : List Event)
    → none_stops es ≡ true
    → let d = run (start l) es in
      let f = iterate (steps d) (stop d) in (f.returned ≡ true) × (f.written ≡ logged l es)
unfolding start
stop-drains l es n =
    let d = run (start l) es in
    let (all, t) = run-entries (start l) l es (λ z. refl) refl in
    let f = stop-Finished d t (run-Running (start l) es n (refl, refl)) in (f.0, f.1 ∙ all)
