-- ===== src/Routing/Extractor/Names.antt =====
-- schema_extractor.cpp: the names that `extract` reads back.
use mathlib.Core.List.{append_assoc}
use dbmesh.Prelude.{
  ℕ, Bool, true, false, ◌||◌, [], ◌∷◌, ◌++◌, Option, none, some, Bytes, ◌≡◌, refl, arith, is_empty,
  ◌==◌, is_space,
}
use dbmesh.Routing.Classifier.{is_word, peek, drop_spaces}
use dbmesh.Routing.Extractor.{
  read_quoted, read_bare, read_at, read_ident, read_after_first, read_qualified_schema,
}

-- An identifier in quotes, its own quotes doubled.
abbrev pub escape : ℕ → Bytes → Bytes
escape q [] = []
escape q (c ∷ cs) =
    let more = escape q cs in elim (c == q) [ true ↦ q ∷ q ∷ more | false ↦ c ∷ more ]

read_quoted-escape :
    (q : ℕ) (name rest : Bytes)
    → (peek rest == q) ≡ false
    → read_quoted q (escape q name ++ q ∷ rest) ≡ (name, rest)
unfolding read_quoted
read_quoted-escape q [] [] h = ground arith
read_quoted-escape q [] (c ∷ rest) h = ground arith
read_quoted-escape q (c ∷ cs) rest h = ground (arith, read_quoted-escape q cs rest h)

-- Every byte passes the test.
abbrev pub AllBytes : (ℕ → Bool) → Bytes → Type 0
AllBytes p [] = Unit
AllBytes p (c ∷ cs) = (p c ≡ true) × AllBytes p cs

read_bare-append :
    (name rest : Bytes)
    → AllBytes is_word name
    → is_word (peek rest) ≡ false
    → read_bare (name ++ rest) ≡ (name, rest)
unfolding read_bare
read_bare-append [] [] a h = refl
read_bare-append [] (c ∷ rest) a h = rw h
read_bare-append (c ∷ cs) rest a h = rw (a.0, read_bare-append cs rest a.1 h)

-- How a name is written: bare, or between two quotes.
abbrev pub spelled : Option ℕ → Bytes → Bytes
spelled none name = name
spelled (some q) name = q ∷ (escape q name ++ q ∷ [])

abbrev pub Spellable : Option ℕ → Bytes → Type 0
Spellable none name = (is_empty name ≡ false) × AllBytes is_word name
Spellable (some q) name = (is_empty name ≡ false) × ((q == 0x60 || q == 0x22) ≡ true)

-- What may follow a name: a word byte would belong to it, and so would the closing quote again.
abbrev pub Ends : Option ℕ → Bytes → Type 0
Ends none rest = is_word (peek rest) ≡ false
Ends (some q) rest = (peek rest == q) ≡ false

word_not_special :
    (c : ℕ) → is_word c ≡ true → (is_space c ≡ false) × ((c == 0x60 || c == 0x22) ≡ false)
word_not_special c h = ground arith

quote_not_space : (q : ℕ) → (q == 0x60 || q == 0x22) ≡ true → is_space q ≡ false
quote_not_space q h = ground arith

read_ident-spelled :
    (k : Option ℕ) (name rest : Bytes)
    → Spellable k name
    → Ends k rest
    → read_ident (spelled k name ++ rest) ≡ (name, rest)
unfolding read_ident read_at drop_spaces
read_ident-spelled none [] rest a h = cc
read_ident-spelled none (c ∷ cs) rest a h =
    let plain = word_not_special c a.1.0 in
    rw (plain.0, read_at, plain.1) (read_bare-append (c ∷ cs) rest a.1 h)
read_ident-spelled (some q) name rest a h =
    rw (quote_not_space q a.1, read_at, a.1, append_assoc) (read_quoted-escape q name rest h)

read_ident-space : (s : Bytes) → read_ident (b' ' ∷ s) ≡ read_ident s
unfolding read_ident drop_spaces
read_ident-space s = refl

Ends-dot : (k : Option ℕ) (name t : Bytes) → Spellable k name → Ends k (b'.' ∷ t)
Ends-dot none name t a = refl
Ends-dot (some q) name t a = ground arith

pub read_qualified_schema-spelled :
    (k l : Option ℕ) (schema table rest : Bytes)
    → Spellable k schema
    → Spellable l table
    → Ends l rest
    → read_qualified_schema (b' ' ∷ (spelled k schema ++ b'.' ∷ (spelled l table ++ rest)))
      ≡ (schema, rest)
unfolding read_qualified_schema read_after_first drop_spaces
read_qualified_schema-spelled k l schema table rest a b h = ground (
  arith,
  read_ident-space (spelled k schema ++ b'.' ∷ (spelled l table ++ rest)),
  read_ident-spelled k schema (b'.' ∷ (spelled l table ++ rest)) a (Ends-dot k schema _ a),
  read_ident-spelled l table rest b h,
)
