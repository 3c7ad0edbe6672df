-- ===== src/Routing/Extractor/Scan.antt =====
-- schema_extractor.cpp: the scan up to a keyword, and what `extract` finds behind it.
use native.Mathlib.Nat.{zero-add}
use dbmesh.Prelude.{
  ℕ, suc, zero, ◌+◌, ◌-◌, Bool, true, false, ◌||◌, ◌&&◌, List, [], ◌∷◌, ◌++◌, map, Option, none,
  some, Bytes, ◌≡◌, refl, arith, length, drop, is_empty, ◌==◌, lower, is_alpha, ap, ◌∙◌, bytes_eq,
  if◌then◌else◌, get_or, not, length-append, and-true, drop-append,
}
use dbmesh.Routing.Classifier.{Quote, normal, is_word, is_normal}
use dbmesh.Routing.Extractor.{
  Round, finished, again, word_at, keyword_at, keywords, extract_round, round_at, round_normal,
  extract_loop, extract_run, extract, after_keyword, read_qualified_schema,
}
use dbmesh.Routing.Extractor.Names.{
  AllBytes, spelled, Spellable, Ends, read_qualified_schema-spelled,
}

==_comm : (a b : ℕ) → (a == b) ≡ (b == a)
==_comm a b = ground arith

lower_not_word : (c k : ℕ) → is_word k ≡ true → is_word c ≡ false → (lower c == k) ≡ false
lower_not_word c k hk hc = ground arith

alpha_word : (c : ℕ) → is_alpha c ≡ true → is_word c ≡ true
alpha_word c h = ground arith

and-if {ℓ} :
    {A : Type ℓ} (a b : Bool) (x : Option A)
    → (if a then (if b then x else none) else none) ≡ (if a && b then x else none)
and-if true b x = refl
and-if false b x = refl

word_at-word :
    (k w : Bytes) (c : ℕ) (r : Bytes)
    → AllBytes is_word k
    → AllBytes is_alpha w
    → is_word c ≡ false
    → word_at k (w ++ c ∷ r) ≡ (if bytes_eq k (map lower w) then some (c ∷ r) else none)
unfolding word_at bytes_eq
word_at-word [] [] c r a b h = rw h
word_at-word [] (x ∷ w) c r a b h = rw (alpha_word x b.0)
word_at-word (k ∷ ks) [] c r a b h = rw (lower_not_word c k a.0 h)
word_at-word (k ∷ ks) (x ∷ w) c r a b h =
    rw (==_comm (lower x) k, word_at-word ks w c r a.1 b.1 h)
      (and-if (k == lower x) (bytes_eq ks (map lower w)) (some (c ∷ r)))

-- Whether a word is one of the keywords.
abbrev pub one_of : List Bytes → Bytes → Bool
one_of [] w = false
one_of (k ∷ ks) w = bytes_eq k w || one_of ks w

AllWords : List Bytes → Type 0
AllWords [] = Unit
AllWords (k ∷ ks) = AllBytes is_word k × AllWords ks

keyword_at-word :
    (ks : List Bytes) (w : Bytes) (c : ℕ) (r : Bytes)
    → AllWords ks
    → AllBytes is_alpha w
    → is_word c ≡ false
    → one_of ks (map lower w) ≡ true
    → keyword_at ks (w ++ c ∷ r) ≡ some (c ∷ r)
unfolding keyword_at AllWords
keyword_at-word [] w c r a b h e = cc
keyword_at-word (k ∷ ks) w c r a b h e =
    ground (arith, word_at-word k w c r a.0 b h, keyword_at-word ks w c r a.1 b h)

-- Rounds that find nothing to stop at, one byte each.
abbrev steps_to : ℕ → Round → Bool
steps_to j (finished x) = false
steps_to j (again st i) = is_normal st && i == j

abbrev pub quiet : Bytes → ℕ → ℕ → Bool
quiet s i zero = true
quiet s i (suc n) = steps_to (i + 1) (extract_round normal s i) && quiet s (i + 1) n

normal_of : (st : Quote) → is_normal st ≡ true → st ≡ normal
normal_of normal h = refl
normal_of _ h = cc

steps_to-again : (j : ℕ) (r : Round) → steps_to j r ≡ true → r ≡ again normal j
steps_to-again j (finished x) h = cc
steps_to-again j (again st i) h = ground (arith, normal_of st)

extract_loop-quiet :
    (n f fuel : ℕ) (s : Bytes) (i : ℕ)
    → quiet s i n ≡ true
    → fuel ≡ n + f
    → extract_loop fuel normal s i ≡ extract_loop f normal s (i + n)
unfolding extract_loop
extract_loop-quiet zero f fuel s i h e = ground arith
extract_loop-quiet (suc n) f zero s i h e = absurd (omega arith)
extract_loop-quiet (suc n) f (suc fuel) s i h e =
    let (h₁, h₂) = and-true _ _ h in
    rw (steps_to-again (i + 1) (extract_round normal s i) h₁, extract_loop)
      (extract_loop-quiet n f fuel s (i + 1) h₂ (omega arith)
        ∙ ap (extract_loop f normal s) (omega arith))

keywords_words : AllWords keywords
unfolding AllWords
keywords_words = ground arith

alpha_not_quote : (c : ℕ) → is_alpha c ≡ true → (c == 0x27) ≡ false
alpha_not_quote c h = ground arith

after_keyword-name :
    (s : Bytes) (i : ℕ) (rest name left : Bytes)
    → read_qualified_schema rest ≡ (name, left)
    → is_empty name ≡ false
    → after_keyword s i rest ≡ finished (some name)
unfolding after_keyword
after_keyword-name s i rest name left q e = rw (q, after_keyword, e)

extract_round-keyword :
    (s : Bytes) (i : ℕ) (w rest name left : Bytes)
    → drop i s ≡ w ++ b' ' ∷ rest
    → (i == 0 || not (is_word (get_or s (i - 1) 0))) ≡ true
    → AllBytes is_alpha w
    → one_of keywords (map lower w) ≡ true
    → read_qualified_schema (b' ' ∷ rest) ≡ (name, left)
    → is_empty name ≡ false
    → extract_round normal s i ≡ finished (some name)
unfolding extract_round round_at round_normal bytes_eq
extract_round-keyword s i [] rest name left d b a k q e = cc
extract_round-keyword s i (c ∷ cs) rest name left d b a k q e =
    rw
      (
        d,
        round_at,
        alpha_not_quote c a.0,
        b,
        a.0,
        keyword_at-word keywords (c ∷ cs) b' ' rest keywords_words a refl k,
      )
      (after_keyword-name s i (b' ' ∷ rest) name left q e)

Spellable-nonempty : (k : Option ℕ) (name : Bytes) → Spellable k name → is_empty name ≡ false
Spellable-nonempty none name h = h.0
Spellable-nonempty (some q) name h = h.0

drop_prefix : (p t : Bytes) → drop (0 + length p) (p ++ t) ≡ t
drop_prefix p t = ap (λ k. drop k (p ++ t)) (omega arith) ∙ drop-append p t 0

extract-finished :
    (p t name : Bytes)
    → quiet (p ++ t) 0 (length p) ≡ true
    → extract_round normal (p ++ t) (0 + length p) ≡ finished (some name)
    → extract (p ++ t) ≡ some name
unfolding extract extract_run extract_loop
extract-finished p t name q e = rw (
  extract_loop-quiet (length p) (suc (length t)) (length (p ++ t) + 1) (p ++ t) 0 q
      (omega (arith, length-append p t)),
  extract_loop,
  e,
)

-- `extract` reads back the schema of a qualified name: behind a prefix in which the scan finds
-- nothing and which does not end in a word, a keyword in any case, a blank, and `schema.table`, each
-- part bare or in backticks or double quotes with its own quotes doubled, give that schema.
pub extract-spelled :
    (p w : Bytes) (k l : Option ℕ) (schema table rest : Bytes)
    → let s = p ++ (w ++ b' ' ∷ (spelled k schema ++ b'.' ∷ (spelled l table ++ rest))) in
      quiet s 0 (length p) ≡ true
      → (length p == 0 || not (is_word (get_or s (length p - 1) 0))) ≡ true
      → AllBytes is_alpha w
      → one_of keywords (map lower w) ≡ true
      → Spellable k schema
      → Spellable l table
      → Ends l rest
      → extract s ≡ some schema
unfolding bytes_eq
extract-spelled p w k l schema table rest q b a kw hk hl h =
    let name = spelled k schema ++ b'.' ∷ (spelled l table ++ rest) in
    let t = w ++ b' ' ∷ name in
    extract-finished p t schema q (
      extract_round-keyword (p ++ t) (0 + length p) w name schema rest (drop_prefix p t)
        (rw zero-add b) a kw (read_qualified_schema-spelled k l schema table rest hk hl h)
        (Spellable-nonempty k schema hk))
