-- ===== src/Frontend/ResultSet.antt =====
-- mysql_connection.cpp: result sets of the form that packets.h writes, through `proxy_result`.
use mathlib.Core.List.{append_assoc}
use dbmesh.Prelude.{
  ℕ, ◌<◌, ◌≡◌, refl, arith, true, false, List, [], ◌∷◌, ◌++◌, map, some, Bytes, length,
}
use dbmesh.Protocol.Codec.{write_lenenc_int, write_lenenc_str, le_bytes}
use dbmesh.Protocol.Packets.{make_eof, make_column_count, make_column_def, make_text_row}
use dbmesh.Frontend.{is_eof_packet, is_single, until_eof, proxy_rows, proxy_result}

abbrev NoEof : List Bytes → Type 0
NoEof [] = Unit
NoEof (p ∷ ps) = (is_eof_packet p ≡ false) × NoEof ps

until_eof-append :
    (ps rest : List Bytes) (e : Bytes)
    → NoEof ps
    → is_eof_packet e ≡ true
    → until_eof (ps ++ e ∷ rest) ≡ (ps ++ e ∷ [], some rest)
unfolding until_eof
until_eof-append [] rest e n h = rw h refl
until_eof-append (p ∷ ps) rest e n h = rw (n.0, until_eof-append ps rest e n.1 h) refl

-- A length-encoded integer that starts with the mark of an EOF has eight more bytes.
lenenc_int_no_eof : (v : ℕ) (t : Bytes) → is_eof_packet (write_lenenc_int v ++ t) ≡ false
unfolding write_lenenc_int is_eof_packet le_bytes
lenenc_int_no_eof v t = ground arith

row_no_eof : (vs : List Bytes) → is_eof_packet (make_text_row vs) ≡ false
unfolding make_text_row is_eof_packet write_lenenc_str
row_no_eof [] = refl
row_no_eof ([] ∷ vs) = refl
row_no_eof ((b ∷ bs) ∷ vs) =
    rw (append_assoc) (lenenc_int_no_eof (length (b ∷ bs)) ((b ∷ bs) ++ make_text_row vs))

rows-NoEof : (rows : List (List Bytes)) → NoEof (map make_text_row rows)
rows-NoEof [] = tt
rows-NoEof (r ∷ rows) = (row_no_eof r, rows-NoEof rows)

columns-NoEof :
    (names : List Bytes) (t l f c : ℕ) → NoEof (map (λ n. make_column_def n t l f c) names)
unfolding make_column_def is_eof_packet write_lenenc_str write_lenenc_int
columns-NoEof [] t l f c = tt
columns-NoEof (n ∷ names) t l f c = (refl, columns-NoEof names t l f c)

count_not_single : (count : ℕ) → 0 < count → is_single (make_column_count count) ≡ false
unfolding make_column_count write_lenenc_int is_single
count_not_single count h = ground arith

eof_is_eof : (w s : ℕ) → is_eof_packet (make_eof w s) ≡ true
unfolding make_eof is_eof_packet le_bytes
eof_is_eof w s = refl

-- A result set of at least one column, in the form that packets.h writes it, is forwarded whole and
-- no further: no column definition and no row, however long its values, is taken for an EOF, and
-- what the backend sends next is left.
pub proxy_result-result_set :
    (count : ℕ) (names : List Bytes) (t l f c : ℕ) (rows : List (List Bytes)) (w s w' s' : ℕ)
    (rest : List Bytes)
    → 0 < count
    → let head = make_column_count count in
      let columns = map (λ n. make_column_def n t l f c) names in
      let lines = map make_text_row rows in
      proxy_result (head ∷ (columns ++ make_eof w s ∷ (lines ++ make_eof w' s' ∷ rest)))
      ≡ (head ∷ (columns ++ make_eof w s ∷ (lines ++ make_eof w' s' ∷ [])), some rest)
unfolding proxy_result proxy_rows
proxy_result-result_set count names t l f c rows w s w' s' rest h =
    let columns = map (λ n. make_column_def n t l f c) names in
    let lines = map make_text_row rows in
    let first =
      until_eof-append columns (lines ++ make_eof w' s' ∷ rest) (make_eof w s)
        (columns-NoEof names t l f c) (eof_is_eof w s) in
    let second =
      until_eof-append lines rest (make_eof w' s') (rows-NoEof rows) (eof_is_eof w' s') in
    rw (count_not_single count h, first, proxy_rows, second, first, append_assoc) refl
