-- ===== src/Routing/Extractor.antt =====
-- routing/src/schema_extractor.cpp. A reader takes the bytes from its position on, and returns what
-- it read with the bytes that are left; a position is an index into the whole text.
pub mod Total
pub mod Names
pub mod Scan
use dbmesh.Prelude.{
  ℕ, suc, zero, ◌+◌, ◌-◌, Bool, true, false, not, ◌&&◌, ◌||◌, List, [], ◌∷◌, ◌++◌, Option, none,
  some, Bytes, codes, is_alpha, lower, ◌==◌, ltb, if◌then◌else◌, length, drop, get_or, is_empty,
  value_or,
}
use dbmesh.Routing.Classifier.{
  Quote, normal, squote, closer, is_btick, is_normal, is_word, drop_spaces,
}

-- An identifier after its opening quote; a doubled quote stands for one.
unfoldable pub read_quoted : ℕ → Bytes → Bytes × Bytes
read_quoted q [] = ([], [])
read_quoted q (c ∷ []) = if c == q then ([], []) else (c ∷ [], [])
read_quoted q (c ∷ d ∷ r) =
    let pair = read_quoted q r in
    let one = read_quoted q (d ∷ r) in
    if c == q then (if d == q then (q ∷ pair.0, pair.1) else ([], d ∷ r)) else (c ∷ one.0, one.1)

-- `while (is_ident(s[i])) out += s[i++]`.
unfoldable pub read_bare : Bytes → Bytes × Bytes
read_bare [] = ([], [])
read_bare (c ∷ cs) =
    let more = read_bare cs in if is_word c then (c ∷ more.0, more.1) else ([], c ∷ cs)

read_at : Bytes → Bytes × Bytes
read_at [] = ([], [])
read_at (c ∷ cs) = if c == 0x60 || c == 0x22 then read_quoted c cs else read_bare (c ∷ cs)

unfoldable pub read_ident : Bytes → Bytes × Bytes
unfolding read_at
read_ident s = read_at (drop_spaces s)

-- After the first identifier: the dot and the second one.
read_after_first : Bytes → Bytes → Bytes → Bytes × Bytes
read_after_first first rest [] = ([], rest)
read_after_first first rest (c ∷ cs) =
    if c == b'.'
    then (let second = read_ident cs in
        if is_empty second.0 then ([], second.1) else (first, second.1))
    else ([], rest)

-- The schema of `schema.table`, and empty for any other name.
unfoldable pub read_qualified_schema : Bytes → Bytes × Bytes
unfolding read_after_first
read_qualified_schema s =
    let first = read_ident s in
    if is_empty first.0
    then ([], first.1)
    else read_after_first first.0 first.1 (drop_spaces first.1)

-- `word_at`: what follows the keyword, if it stands here and its word ends with it.
unfoldable pub word_at : Bytes → Bytes → Option Bytes
word_at [] [] = some []
word_at [] (c ∷ cs) = if is_word c then none else some (c ∷ cs)
word_at (k ∷ ks) [] = none
word_at (k ∷ ks) (c ∷ cs) = let rest = word_at ks cs in if lower c == k then rest else none

abbrev pub keywords : List Bytes
keywords = codes "from" ∷ codes "into" ∷ codes "update" ∷ codes "join" ∷ codes "table" ∷ []

-- The first keyword of the list that stands here.
unfoldable pub keyword_at : List Bytes → Bytes → Option Bytes
keyword_at [] s = none
keyword_at (k ∷ ks) s =
    let rest = keyword_at ks s in elim (word_at k s) [ none ↦ rest | some after ↦ some after ]

-- One round of the `for` loop of `extract`: it returns, or goes on at a state and position.
pub data Round : Type 0 where
  finished : Option Bytes → Round
  again : Quote → ℕ → Round

-- At a keyword: the name behind it, or the position to go on from (`i = pos - 1` and `++i`).
unfoldable pub after_keyword : Bytes → ℕ → Bytes → Round
after_keyword s i after =
    let name = read_qualified_schema after in
    let pos = length s - length name.1 in
    if is_empty name.0
    then again normal ((if ltb i pos then pos - 1 else i) + 1)
    else finished (some name.0)

round_normal : Bytes → ℕ → ℕ → Bytes → Round
round_normal s i c cs =
    if c == 0x27
    then again squote (i + 1)
    else if (i == 0 || not (is_word (get_or s (i - 1) 0))) && is_alpha c
    then (elim (keyword_at keywords (c ∷ cs)) [
      | none ↦ again normal (i + 1)
      | some after ↦ after_keyword s i after
    ])
    else again normal (i + 1)

round_quoted : Quote → ℕ → ℕ → Round
round_quoted st i c =
    if c == b'\\' && not (is_btick st)
    then again st (i + 2)
    else if c == closer st
    then again normal (i + 1)
    else again st (i + 1)

round_at : Quote → Bytes → ℕ → Bytes → Round
round_at st s i [] = finished none
round_at st s i (c ∷ cs) = if is_normal st then round_normal s i c cs else round_quoted st i c

unfoldable pub extract_round : Quote → Bytes → ℕ → Round
unfolding round_at round_normal round_quoted
extract_round st s i = round_at st s i (drop i s)

-- The loop with fuel; the outer `none` means that the fuel ran out.
unfoldable pub extract_loop : ℕ → Quote → Bytes → ℕ → Option (Option Bytes)
extract_loop zero st s i = none
extract_loop (suc fuel) st s i = elim (extract_round st s i) [
  | finished r ↦ some r
  | again st' i' ↦ extract_loop fuel st' s i'
]

-- Each round moves forward, so one round more than there are bytes is enough.
unfoldable pub extract_run : Bytes → Option (Option Bytes)
extract_run s = extract_loop (length s + 1) normal s 0

abbrev pub joined : Option (Option Bytes) → Option Bytes
joined none = none
joined (some r) = r

unfoldable pub extract : Bytes → Option Bytes
unfolding extract_run
extract s = joined (extract_run s)

unfoldable pub extract_or : Bytes → Bytes → Bytes
extract_or sql session_schema = value_or (extract sql) session_schema
