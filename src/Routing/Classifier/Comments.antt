-- ===== src/Routing/Classifier/Comments.antt =====
-- query_classifier.cpp, `strip_comments`: what a second pass finds.
use mathlib.Core.List.{append_assoc, append-nil}
use dbmesh.Prelude.{
  ℕ, Bool, true, false, [], ◌∷◌, ◌++◌, Bytes, ◌≡◌, ◌≢◌, ◌⊎◌, inl, refl, ap, arith, ◌==◌, ◌∙◌, sym,
}
use dbmesh.Routing.Classifier.{
  Quote, normal, squote, dquote, btick, closer, peek, Scan, text, line_comment, block_comment,
  strip_round, strip_loop, strip_comments,
}

-- Inside quotes the first byte of the output is that of the input.
peek_quoted : (q : Quote) (s : Bytes) → q ≢ normal → peek (strip_loop false (text q) s) ≡ peek s
unfolding strip_loop strip_round
peek_quoted q [] h = refl
peek_quoted normal (c ∷ cs) h = absurd (h refl)
peek_quoted squote (c ∷ cs) h = ground arith
peek_quoted dquote (c ∷ cs) h = ground arith
peek_quoted btick (c ∷ cs) h = ground arith

-- Outside them it is that, or the blank that stands for a comment.
peek_normal :
    (s : Bytes)
    → (peek (strip_loop false (text normal) s) ≡ peek s)
      ⊎ (peek (strip_loop false (text normal) s) ≡ b' ')
unfolding strip_loop strip_round
peek_normal [] = inl refl
peek_normal (c ∷ cs) = ground arith

-- The state in which a second pass reads what the first writes from `st` on.
abbrev second : Scan → Quote
second (text q) = q
second _ = normal

strip_loop-strip_loop :
    (taken : Bool) (st : Scan) (s : Bytes)
    → strip_loop false (text (second st)) (strip_loop taken st s) ≡ strip_loop taken st s
unfolding strip_loop strip_round
strip_loop-strip_loop true st [] = refl
strip_loop-strip_loop false st [] = refl
strip_loop-strip_loop true st (c ∷ cs) = strip_loop-strip_loop false st cs
strip_loop-strip_loop false (text normal) (c ∷ cs) = ground (
  arith,
  peek_normal cs,
  peek_quoted squote cs (λ e. cc),
  peek_quoted dquote cs (λ e. cc),
  peek_quoted btick cs (λ e. cc),
  strip_loop-strip_loop false (text normal) cs,
  strip_loop-strip_loop false (text squote) cs,
  strip_loop-strip_loop false (text dquote) cs,
  strip_loop-strip_loop false (text btick) cs,
  strip_loop-strip_loop false line_comment cs,
  strip_loop-strip_loop true block_comment cs,
)
strip_loop-strip_loop false (text squote) (c ∷ cs) = ground (
  arith,
  peek_normal cs,
  peek_quoted squote cs (λ e. cc),
  strip_loop-strip_loop false (text normal) cs,
  strip_loop-strip_loop false (text squote) cs,
  strip_loop-strip_loop true (text squote) cs,
)
strip_loop-strip_loop false (text dquote) (c ∷ cs) = ground (
  arith,
  peek_normal cs,
  peek_quoted dquote cs (λ e. cc),
  strip_loop-strip_loop false (text normal) cs,
  strip_loop-strip_loop false (text dquote) cs,
  strip_loop-strip_loop true (text dquote) cs,
)
strip_loop-strip_loop false (text btick) (c ∷ cs) = ground (
  arith,
  peek_normal cs,
  peek_quoted btick cs (λ e. cc),
  strip_loop-strip_loop false (text normal) cs,
  strip_loop-strip_loop false (text btick) cs,
  strip_loop-strip_loop true (text btick) cs,
)
strip_loop-strip_loop false line_comment (c ∷ cs) = ground (
  arith,
  strip_loop-strip_loop false (text normal) cs,
  strip_loop-strip_loop false line_comment cs,
)
strip_loop-strip_loop false block_comment (c ∷ cs) = ground (
  arith,
  strip_loop-strip_loop true (text normal) cs,
  strip_loop-strip_loop false block_comment cs,
)

-- Stripping a stripped text changes nothing: what stands for a comment opens no new one.
pub strip_comments-strip_comments :
    (sql : Bytes) → strip_comments (strip_comments sql) ≡ strip_comments sql
unfolding strip_comments
strip_comments-strip_comments = strip_loop-strip_loop false (text normal)

-- The bytes of a literal that needs no escape.
abbrev pub PlainIn : ℕ → Bytes → Type 0
PlainIn q [] = Unit
PlainIn q (c ∷ cs) = ((c == q) ≡ false) × ((c == 0x5c) ≡ false) × PlainIn q cs

strip_loop_literal :
    (q : Quote) (body rest : Bytes)
    → q ≢ normal
    → PlainIn (closer q) body
    → (peek rest == closer q) ≡ false
    → strip_loop false (text q) (body ++ closer q ∷ rest)
      ≡ body ++ closer q ∷ strip_loop false (text normal) rest
unfolding strip_loop strip_round
strip_loop_literal normal body rest h p e = absurd (h refl)
strip_loop_literal squote [] rest h p e = ground arith
strip_loop_literal squote (c ∷ cs) rest h p e =
    ground (arith, strip_loop_literal squote cs rest h p.2 e)
strip_loop_literal dquote [] rest h p e = ground arith
strip_loop_literal dquote (c ∷ cs) rest h p e =
    ground (arith, strip_loop_literal dquote cs rest h p.2 e)
strip_loop_literal btick [] rest h p e = ground arith
strip_loop_literal btick (c ∷ cs) rest h p e =
    ground (arith, strip_loop_literal btick cs rest h p.2 e)

first_literal :
    (q : Quote) (body rest : Bytes)
    → q ≢ normal
    → PlainIn (closer q) body
    → (peek rest == closer q) ≡ false
    → strip_loop false (text normal) (closer q ∷ (body ++ closer q ∷ rest))
      ≡ closer q ∷ (body ++ closer q ∷ strip_loop false (text normal) rest)
unfolding strip_loop strip_round
first_literal normal body rest h p e = absurd (h refl)
first_literal squote body rest h p e = ap (◌∷◌ 0x27) (strip_loop_literal squote body rest h p e)
first_literal dquote body rest h p e = ap (◌∷◌ 0x22) (strip_loop_literal dquote body rest h p e)
first_literal btick body rest h p e = ap (◌∷◌ 0x60) (strip_loop_literal btick body rest h p e)

-- Whether the scan has taken the next byte, and where it stands, behind some bytes before a byte `n`.
abbrev pub scan_after : Bool → Scan → Bytes → ℕ → Bool × Scan
scan_after taken st [] n = (taken, st)
scan_after true st (c ∷ cs) n = scan_after false st cs n
scan_after false st (c ∷ cs) n =
    let r = strip_round st c (peek (cs ++ n ∷ [])) in scan_after r.skip r.next cs n

-- Outside quotes and comments.
abbrev pub outside : Bool × Scan
outside = (false, text normal)

-- No comment mark ends in this byte.
abbrev NoMark : ℕ → Type 0
NoMark n = ((n == b'-') ≡ false) × ((n == b'*') ≡ false) × ((n == b'/') ≡ false)

closer-NoMark : (q : Quote) → q ≢ normal → NoMark (closer q)
closer-NoMark normal h = absurd (h refl)
closer-NoMark squote h = (refl, refl, refl)
closer-NoMark dquote h = (refl, refl, refl)
closer-NoMark btick h = (refl, refl, refl)

-- The byte before such a byte, when the scan then stands outside, is written as at a text's end.
last_byte :
    (n : ℕ) (st : Scan) (c : ℕ)
    → NoMark n
    → (strip_round st c n).skip ≡ false
    → (strip_round st c n).next ≡ text normal
    → (strip_round st c n).out ≡ (strip_round st c 0).out
unfolding strip_round
last_byte n (text normal) c h k e = ground (arith, h.0, h.1)
last_byte n (text squote) c h k e = ground (arith, k)
last_byte n (text dquote) c h k e = ground (arith, k)
last_byte n (text btick) c h k e = ground (arith, k)
last_byte n line_comment c h k e = refl
last_byte n block_comment c h k e = ground (arith, h.2)

glue :
    (taken : Bool) (st : Scan) (o o' x : Bytes)
    → (taken, st) ≡ outside
    → o ≡ o'
    → o ++ strip_loop taken st x ≡ (o' ++ []) ++ strip_loop false (text normal) x
glue taken st o o' x h e =
    ap (λ (p : Bool × Scan). o ++ strip_loop p.0 p.1 x) h
    ∙ ap (λ y. y ++ strip_loop false (text normal) x) (e ∙ sym (append-nil o'))

strip_loop-append :
    (q : Quote) (taken : Bool) (st : Scan) (pre r : Bytes)
    → q ≢ normal
    → scan_after taken st pre (closer q) ≡ outside
    → strip_loop taken st (pre ++ closer q ∷ r)
      ≡ strip_loop taken st pre ++ strip_loop false (text normal) (closer q ∷ r)
unfolding strip_loop
strip_loop-append q taken st [] r h e =
    ap (λ (p : Bool × Scan). strip_loop p.0 p.1 (closer q ∷ r)) e
strip_loop-append q true st (c ∷ cs) r h e = strip_loop-append q false st cs r h e
strip_loop-append q false st (c ∷ []) r h e =
    let one = strip_round st c (closer q) in
    glue one.skip one.next one.out (strip_round st c 0).out (closer q ∷ r) e (
      last_byte (closer q) st c (closer-NoMark q h) (ap (λ (p : Bool × Scan). p.0) e)
        (ap (λ (p : Bool × Scan). p.1) e))
strip_loop-append q false st (c ∷ (d ∷ ds)) r h e =
    let one = strip_round st c d in
    ap (◌++◌ one.out) (strip_loop-append q one.skip one.next (d ∷ ds) r h e)
    ∙ sym (append_assoc one.out (strip_loop one.skip one.next (d ∷ ds)) _)

-- A literal or quoted identifier anywhere in a text, that is behind any bytes after which the scan
-- stands outside quotes and comments, is kept byte for byte, whatever comment marks stand inside it,
-- when it holds neither its quote nor a backslash and no second quote follows it; what stands before
-- it and what follows are each stripped as a text of its own.
pub strip_comments_literal :
    (pre : Bytes) (q : Quote) (body rest : Bytes)
    → q ≢ normal
    → scan_after false (text normal) pre (closer q) ≡ outside
    → PlainIn (closer q) body
    → (peek rest == closer q) ≡ false
    → strip_comments (pre ++ closer q ∷ (body ++ closer q ∷ rest))
      ≡ strip_comments pre ++ closer q ∷ (body ++ closer q ∷ strip_comments rest)
unfolding strip_comments
strip_comments_literal pre q body rest h o p e =
    strip_loop-append q false (text normal) pre (body ++ closer q ∷ rest) h o
    ∙ ap (◌++◌ (strip_loop false (text normal) pre)) (first_literal q body rest h p e)
