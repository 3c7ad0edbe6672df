-- ===== src/Routing/Classifier/Case.antt =====
-- query_classifier.cpp: keywords are compared in lower case.
use mathlib.Core.List.{map-append, reverse-cons}
use dbmesh.Prelude.{
  ℕ, suc, zero, Bool, true, false, ◌&&◌, if◌then◌else◌, List, [], ◌∷◌, ◌++◌, map, reverse, none,
  Bytes, ◌≡◌, refl, ap, arith, lower, is_alpha, ◌==◌,
}
use dbmesh.Routing.Classifier.{
  Quote, normal, squote, dquote, btick, peek, Scan, text, line_comment, block_comment, Round,
  strip_round, strip_loop, strip_comments, drop_spaces, trim, push_piece, split_round, is_normal,
  split_loop, split_statements, skip_open, read_letters, first_keyword, CteScan, outside, in_word,
  cte_round, cte_loop, classify_cte, classify_one, is_word, classify_batch, escalate, classify,
}

abbrev lower_round : Round → Round
lower_round r = record { out = map lower r.out; skip = r.skip; next = r.next }

strip_round-lower :
    (st : Scan) (c n : ℕ) → strip_round st (lower c) (lower n) ≡ lower_round (strip_round st c n)
unfolding strip_round
strip_round-lower (text normal) c n = ground arith
strip_round-lower (text squote) c n = ground arith
strip_round-lower (text dquote) c n = ground arith
strip_round-lower (text btick) c n = ground arith
strip_round-lower line_comment c n = ground arith
strip_round-lower block_comment c n = ground arith

peek-map : (s : Bytes) → peek (map lower s) ≡ lower (peek s)
peek-map [] = refl
peek-map (c ∷ cs) = refl

strip_loop-lower :
    (taken : Bool) (st : Scan) (s : Bytes)
    → strip_loop taken st (map lower s) ≡ map lower (strip_loop taken st s)
unfolding strip_loop
strip_loop-lower true st [] = refl
strip_loop-lower false st [] = refl
strip_loop-lower true st (c ∷ cs) = strip_loop-lower false st cs
strip_loop-lower false st (c ∷ cs) =
    let r = strip_round st c (peek cs) in
    rw
      (peek-map cs, strip_round-lower st c (peek cs), map-append, strip_loop-lower r.skip r.next cs)

drop_spaces-lower : (s : Bytes) → drop_spaces (map lower s) ≡ map lower (drop_spaces s)
unfolding drop_spaces
drop_spaces-lower [] = refl
drop_spaces-lower (c ∷ cs) = ground (arith, drop_spaces-lower cs)

map-reverse {ℓ κ} :
    {A : Type ℓ} {B : Type κ} (f : A → B) (xs : List A) → reverse (map f xs) ≡ map f (reverse xs)
map-reverse f [] = refl
map-reverse f (x ∷ xs) =
    rw (reverse-cons (f x) (map f xs), reverse-cons x xs, map-append, map-reverse f xs)

trim-lower : (s : Bytes) → trim (map lower s) ≡ map lower (trim s)
unfolding trim
trim-lower s = simp (drop_spaces-lower, map-reverse)

push_piece-lower :
    (s : Bytes) (out : List Bytes)
    → push_piece (map lower s) (map (map lower) out) ≡ map (map lower) (push_piece s out)
unfolding push_piece
push_piece-lower [] out = refl
push_piece-lower (c ∷ cs) out = refl

split_round-lower : (st : Quote) (c : ℕ) → split_round st (lower c) ≡ split_round st c
unfolding split_round
split_round-lower normal c = ground arith
split_round-lower squote c = ground arith
split_round-lower dquote c = ground arith
split_round-lower btick c = ground arith

semicolon-lower : (c : ℕ) → (lower c == b';') ≡ (c == b';')
semicolon-lower c = ground arith

append_one-lower : (s : Bytes) (c : ℕ) → map lower (s ++ c ∷ []) ≡ map lower s ++ lower c ∷ []
append_one-lower s c = rw map-append

if-map {ℓ κ} :
    {A : Type ℓ} {B : Type κ} (f : A → B) (b : Bool) (x y : A)
    → (if b then f x else f y) ≡ f (if b then x else y)
if-map f true x y = refl
if-map f false x y = refl

split_loop-lower :
    (taken : Bool) (st : Quote) (piece s : Bytes)
    → split_loop taken st (map lower piece) (map lower s)
      ≡ map (map lower) (split_loop taken st piece s)
unfolding split_loop
split_loop-lower true st piece [] = rw (trim-lower piece) (push_piece-lower (trim piece) [])
split_loop-lower false st piece [] = rw (trim-lower piece) (push_piece-lower (trim piece) [])
split_loop-lower true st piece (c ∷ cs) =
    rw (split_loop, ← append_one-lower piece c) (split_loop-lower false st (piece ++ c ∷ []) cs)
split_loop-lower false st piece (c ∷ cs) =
    let r = split_round st c in
    rw
      (
        split_loop,
        semicolon-lower c,
        split_round-lower st c,
        trim-lower piece,
        ← append_one-lower piece c,
        split_loop-lower false normal [] cs,
        split_loop-lower r.1 r.0 (piece ++ c ∷ []) cs,
        push_piece-lower (trim piece) (split_loop false normal [] cs),
      )
      (if-map (map (map lower)) (is_normal st && c == b';') _ _)

skip_open-lower : (s : Bytes) → skip_open (map lower s) ≡ map lower (skip_open s)
unfolding skip_open
skip_open-lower [] = refl
skip_open-lower (c ∷ cs) = ground (arith, skip_open-lower cs)

read_letters-lower : (room : ℕ) (s : Bytes) → read_letters room (map lower s) ≡ read_letters room s
unfolding read_letters
read_letters-lower room [] = refl
read_letters-lower zero (c ∷ cs) = ground arith
read_letters-lower (suc room) (c ∷ cs) = ground (arith, read_letters-lower room cs)

cte_round-lower : (st : Quote) (d c : ℕ) → cte_round st d (lower c) ≡ cte_round st d c
unfolding cte_round
cte_round-lower normal d c = ground arith
cte_round-lower squote d c = ground arith
cte_round-lower dquote d c = ground arith
cte_round-lower btick d c = ground arith

is_alpha-lower : (c : ℕ) → is_alpha (lower c) ≡ is_alpha c
is_alpha-lower c = ground arith

is_word-lower : (c : ℕ) → is_word (lower c) ≡ is_word c
is_word-lower c = ground arith

lower-lower : (c : ℕ) → lower (lower c) ≡ lower c
lower-lower c = ground arith

cte_loop-lower :
    (taken : Bool) (st : CteScan) (d : ℕ) (s : Bytes)
    → cte_loop taken st d (map lower s) ≡ cte_loop taken st d s
unfolding cte_loop
cte_loop-lower true (outside q) d [] = refl
cte_loop-lower false (outside q) d [] = refl
cte_loop-lower true (in_word w) d [] = refl
cte_loop-lower false (in_word w) d [] = refl
cte_loop-lower true (outside q) d (c ∷ cs) = cte_loop-lower false (outside q) d cs
cte_loop-lower true (in_word w) d (c ∷ cs) = cte_loop-lower false (in_word w) d cs
cte_loop-lower false (outside q) d (c ∷ cs) =
    let r = cte_round q d c in rw (cte_loop, cte_round-lower q d c) (cte_loop-lower r.2 r.0 r.1 cs)
cte_loop-lower false (in_word w) d (c ∷ cs) =
    let r = cte_round normal d c in
    rw (
      cte_loop,
      is_word-lower c,
      lower-lower c,
      cte_round-lower normal d c,
      cte_loop-lower false (in_word (w ++ lower c ∷ [])) d cs,
      cte_loop-lower r.2 r.0 r.1 cs,
    )

first_keyword-lower : (s : Bytes) → first_keyword (map lower s) ≡ first_keyword s
unfolding first_keyword
first_keyword-lower s = rw (first_keyword, skip_open-lower s, read_letters-lower 16 (skip_open s))

classify_one-lower : (s : Bytes) → classify_one (map lower s) ≡ classify_one s
unfolding classify_one classify_cte
classify_one-lower s = rw (
  classify_one,
  first_keyword-lower s,
  skip_open-lower s,
  cte_loop-lower false (outside normal) 0 (skip_open s),
)

classify_all-lower : (ss : List Bytes) → map classify_one (map (map lower) ss) ≡ map classify_one ss
classify_all-lower [] = refl
classify_all-lower (s ∷ ss) = rw (classify_one-lower s, classify_all-lower ss)

classify_batch-lower : (ss : List Bytes) → classify_batch (map (map lower) ss) ≡ classify_batch ss
unfolding classify_batch
classify_batch-lower [] = refl
classify_batch-lower (s ∷ []) = classify_one-lower s
classify_batch-lower (s ∷ t ∷ rest) = ap (escalate none) (classify_all-lower (s ∷ t ∷ rest))

-- The type of a text does not depend on the case of its letters, whatever comments, quotes and
-- statements it has.
pub classify-lower : (sql : Bytes) → classify (map lower sql) ≡ classify sql
unfolding classify strip_comments split_statements
classify-lower sql =
    let cleaned = strip_comments sql in
    rw (strip_loop-lower false (text normal) sql, split_loop-lower false normal [] cleaned)
      (classify_batch-lower (split_statements cleaned))
