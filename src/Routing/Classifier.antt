-- ===== src/Routing/Classifier.antt =====
-- routing/src/query_classifier.cpp. A loop over the text is a recursion over its bytes that
-- carries the scanner's state; `skip` is the loop's extra `++i`.
pub mod Batch
pub mod Case
pub mod Comments
use dbmesh.Prelude.{
  ℕ, suc, zero, ◌+◌, ◌-◌, Bool, true, false, not, ◌&&◌, ◌||◌, List, [], ◌∷◌, ◌++◌, map, reverse,
  Option, none, some, Bytes, codes, bytes_eq, is_alpha, is_digit, is_space, lower, ◌==◌, leb,
  if◌then◌else◌, length,
}
use dbmesh.Core.Types.{
  QueryType, q_select, q_insert, q_update, q_delete, q_ddl, q_call, q_begin, q_commit, q_rollback,
  q_set, q_use, q_unknown, is_write, is_unknown,
}

-- `is_word`.
abbrev pub is_word : ℕ → Bool
is_word c = is_alpha c || is_digit c || c == b'_' || c == b'$'

-- `enum { NORMAL, SQUOTE, DQUOTE, BTICK } st`.
pub data Quote : Type 0 where
  normal squote dquote btick : Quote

-- The closing quote of a state: `(st == SQUOTE) ? '\'' : (st == DQUOTE) ? '"' : '`'`.
abbrev pub closer : Quote → ℕ
closer squote = 0x27
closer dquote = 0x22
closer _ = 0x60

abbrev pub is_btick : Quote → Bool
is_btick btick = true
is_btick _ = false

-- The state after an opening character in NORMAL.
abbrev pub opened : ℕ → Quote
opened c =
    if c == 0x27 then squote else if c == 0x22 then dquote else if c == 0x60 then btick else normal

-- `s[i + 1]`, or `'\0'` at the end.
abbrev pub peek : Bytes → ℕ
peek [] = 0
peek (c ∷ cs) = c

-- Where `strip_comments` stands: in the text, or in one of its two inner `while` loops.
pub data Scan : Type 0 where
  text : Quote → Scan
  line_comment block_comment : Scan

-- What one round of the loop appends, whether it skips the next byte, and the next state.
pub record Round : Type 0 where
  pub out : Bytes
  pub skip : Bool
  pub next : Scan

strip_text : ℕ → ℕ → Round
strip_text c n =
    if c == b'-' && n == b'-'
    then record { out = b' ' ∷ []; skip = false; next = line_comment }
    else if c == b'#'
    then record { out = b' ' ∷ []; skip = false; next = line_comment }
    else if c == b'/' && n == b'*'
    then record { out = b' ' ∷ []; skip = true; next = block_comment }
    else record { out = c ∷ []; skip = false; next = text (opened c) }

strip_quoted : Quote → ℕ → ℕ → Round
strip_quoted q c n =
    if c == b'\\' && not (is_btick q)
    then (if n == 0
        then record { out = c ∷ []; skip = false; next = text q }
        else record { out = c ∷ n ∷ []; skip = true; next = text q })
    else if c == closer q
    then (if n == closer q
        then record { out = c ∷ n ∷ []; skip = true; next = text q }
        else record { out = c ∷ []; skip = false; next = text normal })
    else record { out = c ∷ []; skip = false; next = text q }

unfoldable pub strip_round : Scan → ℕ → ℕ → Round
unfolding strip_text strip_quoted
strip_round (text normal) c n = strip_text c n
strip_round (text q) c n = strip_quoted q c n
strip_round line_comment c n = record {
  out = [];
  skip = false;
  next = if c == b'\n' then text normal else line_comment;
}
strip_round block_comment c n =
    if c == b'*' && n == b'/'
    then record { out = []; skip = true; next = text normal }
    else record { out = []; skip = false; next = block_comment }

-- The `for` loop of `strip_comments`; the flag says that the byte in front was already taken.
pub strip_loop : Bool → Scan → Bytes → Bytes
strip_loop _ st [] = []
strip_loop true st (c ∷ cs) = strip_loop false st cs
strip_loop false st (c ∷ cs) =
    let r = strip_round st c (peek cs) in r.out ++ strip_loop r.skip r.next cs

unfoldable pub strip_comments : Bytes → Bytes
unfolding strip_loop strip_round
strip_comments = strip_loop false (text normal)

unfoldable pub drop_spaces : Bytes → Bytes
drop_spaces [] = []
drop_spaces (c ∷ cs) = let rest = drop_spaces cs in if is_space c then rest else c ∷ cs

-- The `push` of `split_statements`: the piece without outer space, unless nothing is left.
push_piece : Bytes → List Bytes → List Bytes
push_piece [] out = out
push_piece (c ∷ cs) out = (c ∷ cs) ∷ out

pub trim : Bytes → Bytes
unfolding drop_spaces
trim s = reverse (drop_spaces (reverse (drop_spaces s)))

-- One round of `split_statements` outside its `;` case: the next state, and whether the next
-- byte is skipped.
pub split_round : Quote → ℕ → Quote × Bool
split_round normal c = (opened c, false)
split_round q c =
    if c == b'\\' && not (is_btick q)
    then (q, true)
    else if c == closer q
    then (normal, false)
    else (q, false)

abbrev pub is_normal : Quote → Bool
is_normal normal = true
is_normal _ = false

-- `piece` holds the bytes from `start` up to the current one.
pub split_loop : Bool → Quote → Bytes → Bytes → List Bytes
split_loop _ st piece [] = push_piece (trim piece) []
split_loop true st piece (c ∷ cs) = split_loop false st (piece ++ c ∷ []) cs
split_loop false st piece (c ∷ cs) =
    let cut = push_piece (trim piece) (split_loop false normal [] cs) in
    let r = split_round st c in
    let go = split_loop r.1 r.0 (piece ++ c ∷ []) cs in
    if is_normal st && c == b';' then cut else go

unfoldable pub split_statements : Bytes → List Bytes
unfolding split_loop split_round push_piece trim
split_statements = split_loop false normal []

-- `while (is_space(s[i]) || s[i] == '(') ++i`.
pub skip_open : Bytes → Bytes
skip_open [] = []
skip_open (c ∷ cs) = let rest = skip_open cs in if is_space c || c == b'(' then rest else c ∷ cs

-- The leading letters in lower case; `none` when the buffer of `room` bytes is too small.
pub read_letters : ℕ → Bytes → Option Bytes
read_letters room [] = some []
read_letters zero (c ∷ cs) = if is_alpha c then none else some []
read_letters (suc room) (c ∷ cs) =
    let rest = read_letters room cs in
    if is_alpha c then elim rest [ none ↦ none | some w ↦ some (lower c ∷ w) ] else some []

pub first_keyword : Bytes → Bytes
unfolding skip_open read_letters
first_keyword s = elim (read_letters 16 (skip_open s)) [ none ↦ [] | some w ↦ w ]

-- `keyword_map`.
abbrev pub keyword_map : List (Bytes × QueryType)
keyword_map =
    (codes "select", q_select)
    ∷ (codes "insert", q_insert)
    ∷ (codes "update", q_update)
    ∷ (codes "delete", q_delete)
    ∷ (codes "replace", q_insert)
    ∷ (codes "create", q_ddl)
    ∷ (codes "drop", q_ddl)
    ∷ (codes "alter", q_ddl)
    ∷ (codes "truncate", q_ddl)
    ∷ (codes "rename", q_ddl)
    ∷ (codes "call", q_call)
    ∷ (codes "do", q_call)
    ∷ (codes "begin", q_begin)
    ∷ (codes "start", q_begin)
    ∷ (codes "commit", q_commit)
    ∷ (codes "rollback", q_rollback)
    ∷ (codes "set", q_set)
    ∷ (codes "use", q_use)
    ∷ (codes "show", q_select)
    ∷ (codes "explain", q_select)
    ∷ (codes "describe", q_select)
    ∷ (codes "desc", q_select)
    ∷ (codes "analyze", q_ddl)
    ∷ (codes "optimize", q_ddl)
    ∷ (codes "check", q_ddl)
    ∷ (codes "repair", q_ddl)
    ∷ (codes "lock", q_ddl)
    ∷ (codes "unlock", q_ddl)
    ∷ (codes "grant", q_ddl)
    ∷ (codes "revoke", q_ddl)
    ∷ (codes "load", q_insert)
    ∷ (codes "values", q_select)
    ∷ (codes "table", q_select)
    ∷ []

pub find_keyword : Bytes → List (Bytes × QueryType) → QueryType
find_keyword w [] = q_unknown
find_keyword w ((k, t) ∷ rest) = if bytes_eq k w then t else find_keyword w rest

-- The main keyword that ends the look-ahead of `classify_cte`.
pub cte_keyword : Bytes → Option QueryType
cte_keyword w =
    if leb (length w) 16
    then (if bytes_eq w (codes "select")
        then some q_select
        else if bytes_eq w (codes "insert") || bytes_eq w (codes "replace")
        then some q_insert
        else if bytes_eq w (codes "update") || bytes_eq w (codes "merge")
        then some q_update
        else if bytes_eq w (codes "delete")
        then some q_delete
        else none)
    else none

-- Where `classify_cte` stands: in the text, or in the inner loop that reads a word.
pub data CteScan : Type 0 where
  outside : Quote → CteScan
  in_word : Bytes → CteScan

-- A byte outside words: the next state, the depth, and whether the next byte is skipped.
pub cte_round : Quote → ℕ → ℕ → CteScan × ℕ × Bool
cte_round normal depth c =
    if c == 0x27 || c == 0x22 || c == 0x60
    then (outside (opened c), depth, false)
    else if c == b'('
    then (outside normal, depth + 1, false)
    else if c == b')'
    then (outside normal, depth - 1, false)
    else if depth == 0 && is_alpha c
    then (in_word (lower c ∷ []), depth, false)
    else (outside normal, depth, false)
cte_round q depth c =
    if c == b'\\' && not (is_btick q)
    then (outside q, depth, true)
    else if c == closer q
    then (outside normal, depth, false)
    else (outside q, depth, false)

-- What an ended word decides.
abbrev pub cte_end : Bytes → QueryType → QueryType
cte_end w go = elim (cte_keyword w) [ none ↦ go | some t ↦ t ]

pub cte_loop : Bool → CteScan → ℕ → Bytes → QueryType
cte_loop _ (outside q) depth [] = q_select
cte_loop _ (in_word w) depth [] = cte_end w q_select
cte_loop true st depth (c ∷ cs) = cte_loop false st depth cs
cte_loop false (outside q) depth (c ∷ cs) = let r = cte_round q depth c in cte_loop r.2 r.0 r.1 cs
cte_loop false (in_word w) depth (c ∷ cs) =
    let more = cte_loop false (in_word (w ++ lower c ∷ [])) depth cs in
    let r = cte_round normal depth c in
    let go = cte_loop r.2 r.0 r.1 cs in if is_word c then more else cte_end w go

pub classify_cte : Bytes → QueryType
unfolding cte_loop cte_round cte_keyword
classify_cte = cte_loop false (outside normal) 0

unfoldable pub classify_one : Bytes → QueryType
unfolding first_keyword classify_cte find_keyword bytes_eq
classify_one stmt =
    let kw = first_keyword stmt in
    if bytes_eq kw []
    then q_unknown
    else if bytes_eq kw (codes "with")
    then classify_cte (skip_open stmt)
    else find_keyword kw keyword_map

-- The loop over a batch; `known` is `first_known`, and `have` whether it was set.
pub escalate : Option QueryType → List QueryType → QueryType
escalate known [] = elim known [ none ↦ q_unknown | some t ↦ t ]
escalate known (t ∷ ts) =
    let pass = escalate known ts in
    let kept : Option QueryType = elim known [ none ↦ some t | some k ↦ some k ] in
    let go = escalate kept ts in if is_unknown t then pass else if is_write t then t else go

pub classify_batch : List Bytes → QueryType
unfolding escalate
classify_batch [] = q_unknown
classify_batch (s ∷ []) = classify_one s
classify_batch (s ∷ t ∷ rest) = escalate none (map classify_one (s ∷ t ∷ rest))

unfoldable pub classify : Bytes → QueryType
unfolding classify_batch classify_one strip_comments split_statements
classify sql = classify_batch (split_statements (strip_comments sql))
