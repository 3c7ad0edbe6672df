-- ===== src/Examples/Classifying.antt =====
-- Texts that are classified, and names that are read out of them.
use dbmesh.Prelude.{
  [], ◌∷◌, ◌++◌, map, Option, none, some, Bytes, codes, lower, bytes_eq, ◌≡◌, refl,
}
use dbmesh.Core.Types.{q_update, q_unknown, is_write}
use dbmesh.Routing.Classifier.{
  squote, classify, strip_comments, strip_round, split_statements, drop_spaces, classify_one,
}
use dbmesh.Routing.Classifier.Batch.{
  any_write, statement_types, classify_writes, classify-first_write,
}
use dbmesh.Routing.Classifier.Case.{classify-lower}
use dbmesh.Routing.Classifier.Comments.{strip_comments-strip_comments, strip_comments_literal}
use dbmesh.Routing.Extractor.{
  extract, extract_run, extract_loop, extract_round, keyword_at, word_at, after_keyword,
  read_qualified_schema, read_ident, read_quoted, read_bare,
}
use dbmesh.Routing.Extractor.Total.{extract_run_total}
use dbmesh.Routing.Extractor.Scan.{extract-spelled}

abbrev batch : Bytes
batch = codes "SELECT 1; /* x */ UPDATE t SET a = ';'"

batch_test : classify batch ≡ q_update
unfolding classify
batch_test = refl

cte_test : classify (codes "WITH c AS (SELECT 1) UPDATE t SET a = 1") ≡ q_update
unfolding classify
cte_test = refl

unknown_test : classify (codes "-- SELECT 1") ≡ q_unknown
unfolding classify
unknown_test = refl

classify_writes_example : is_write (classify batch) ≡ any_write (statement_types batch)
classify_writes_example = classify_writes batch

classify-first_write_test : classify batch ≡ q_update
unfolding classify_one strip_comments split_statements
classify-first_write_test = classify-first_write batch refl

classify-lower_example : classify (map lower batch) ≡ classify batch
classify-lower_example = classify-lower batch

strip_comments-strip_comments_test : strip_comments (strip_comments batch) ≡ strip_comments batch
strip_comments-strip_comments_test = strip_comments-strip_comments batch

strip_comments_literal_example :
    strip_comments (codes "SELECT /* a */ " ++ 0x27 ∷ (codes "--" ++ 0x27 ∷ codes " -- x"))
    ≡ strip_comments (codes "SELECT /* a */ ")
      ++ 0x27 ∷ (codes "--" ++ 0x27 ∷ strip_comments (codes " -- x"))
unfolding strip_round
strip_comments_literal_example =
    strip_comments_literal (codes "SELECT /* a */ ") squote (codes "--") (codes " -- x") (λ h. cc)
      refl (refl, refl, (refl, refl, tt)) refl

extract_test : extract (codes "select * from `a``b` . t") ≡ some (codes "a`b")
unfolding extract extract_loop extract_round keyword_at word_at after_keyword read_qualified_schema
    read_ident drop_spaces read_quoted read_bare
extract_test = refl

extract_run_total_example : (r : Option Bytes) × (extract_run batch ≡ some r)
extract_run_total_example = extract_run_total batch

extract-spelled_example : extract (codes "UPDATE shop.`the orders` SET a = 1") ≡ some (codes "shop")
unfolding bytes_eq
extract-spelled_example =
    extract-spelled [] (codes "UPDATE") none (some 0x60) (codes "shop") (codes "the orders")
      (codes " SET a = 1") refl refl (refl, (refl, (refl, (refl, (refl, (refl, tt)))))) refl
      (refl, (refl, (refl, (refl, (refl, tt))))) (refl, refl) refl
