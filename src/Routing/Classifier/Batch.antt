-- ===== src/Routing/Classifier/Batch.antt =====
-- query_classifier.cpp, the escalation of a multi-statement batch in `classify`.
use dbmesh.Prelude.{
  Bool, true, false, ◌||◌, List, [], ◌∷◌, map, Option, none, some, Bytes, ◌≡◌, refl, arith,
}
use dbmesh.Core.Types.{QueryType, is_write}
use dbmesh.Routing.Classifier.{
  classify_one, escalate, classify_batch, classify, split_statements, strip_comments,
}

-- Whether some statement of a batch writes.
abbrev pub any_write : List QueryType → Bool
any_write [] = false
any_write (t ∷ ts) = is_write t || any_write ts

-- The first statement of a batch that writes.
abbrev pub first_write : List QueryType → Option QueryType
first_write [] = none
first_write (t ∷ ts) =
    let rest = first_write ts in elim (is_write t) [ true ↦ some t | false ↦ rest ]

abbrev known_reads : Option QueryType → Bool
known_reads none = true
known_reads (some t) = elim (is_write t) [ true ↦ false | false ↦ true ]

escalate_writes :
    (known : Option QueryType) (ts : List QueryType)
    → known_reads known ≡ true
    → is_write (escalate known ts) ≡ any_write ts
unfolding escalate
escalate_writes none [] h = refl
escalate_writes (some t) [] h = ground arith
escalate_writes none (t ∷ ts) h =
    ground (arith, escalate_writes none ts, escalate_writes (some t) ts)
escalate_writes (some k) (t ∷ ts) h = ground (arith, escalate_writes (some k) ts)

escalate-first_write :
    (known : Option QueryType) (ts : List QueryType) {w : QueryType}
    → first_write ts ≡ some w
    → escalate known ts ≡ w
unfolding escalate
escalate-first_write known [] h = ground arith
escalate-first_write none (t ∷ ts) {w} h =
    ground (arith, escalate-first_write none ts {w = w}, escalate-first_write (some t) ts {w = w})
escalate-first_write (some k) (t ∷ ts) {w} h =
    ground (arith, escalate-first_write (some k) ts {w = w})

abbrev pub statement_types : Bytes → List QueryType
statement_types sql = map classify_one (split_statements (strip_comments sql))

classify_batch_writes :
    (ss : List Bytes) → is_write (classify_batch ss) ≡ any_write (map classify_one ss)
unfolding classify_batch
classify_batch_writes [] = refl
classify_batch_writes (s ∷ []) = ground arith
classify_batch_writes (s ∷ t ∷ rest) = escalate_writes none (map classify_one (s ∷ t ∷ rest)) refl

classify_batch-first_write :
    (ss : List Bytes) {w : QueryType}
    → first_write (map classify_one ss) ≡ some w
    → classify_batch ss ≡ w
unfolding classify_batch
classify_batch-first_write [] h = ground arith
classify_batch-first_write (s ∷ []) h = ground arith
classify_batch-first_write (s ∷ t ∷ rest) h =
    escalate-first_write none (map classify_one (s ∷ t ∷ rest)) h

-- `classify` reports a write exactly when one of the statements of the text, classified alone,
-- writes: the order of the statements does not matter, and none can hide a write.
pub classify_writes : (sql : Bytes) → is_write (classify sql) ≡ any_write (statement_types sql)
unfolding classify
classify_writes sql = classify_batch_writes (split_statements (strip_comments sql))

-- Of several writes in a text, `classify` reports the first.
pub classify-first_write :
    (sql : Bytes) {w : QueryType} → first_write (statement_types sql) ≡ some w → classify sql ≡ w
unfolding classify
classify-first_write sql = classify_batch-first_write (split_statements (strip_comments sql))
