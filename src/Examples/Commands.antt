-- ===== src/Examples/Commands.antt =====
-- The commands of a client session.
use dbmesh.Prelude.{◌++◌, List, [], some, map, arith, ◌∷◌, true, false, Bytes, codes, ◌≡◌, refl}
use dbmesh.Routing.Classifier.{drop_spaces}
use dbmesh.Frontend.{
  Session, answered, throws, normalise_prefix, starts_with, contains_text, handle_com_query,
}
use dbmesh.Protocol.Packets.{make_eof, make_column_count, make_column_def, make_text_row}
use dbmesh.Frontend.{proxy_result}
use dbmesh.Frontend.ResultSet.{proxy_result-result_set}
use dbmesh.Frontend.Autocommit.{autocommit_spaced}

abbrev session : Session
session = record { current_db = codes "shop"; in_transaction = false; autocommit = true; seq = 0 }

abbrev query : Bytes → Bytes
query sql = 3 ∷ sql

autocommit_off_test :
    handle_com_query session (query (codes "set autocommit=0"))
    ≡ answered (record session { autocommit = false })
unfolding handle_com_query normalise_prefix starts_with contains_text
autocommit_off_test = refl

autocommit_spaced_test :
    handle_com_query session (query (codes "set autocommit = 0"))
    ≡ answered (record session { autocommit = true })
unfolding handle_com_query normalise_prefix starts_with contains_text
autocommit_spaced_test = refl

use_blank_test :
    handle_com_query session (query (codes " USE x"))
    ≡ answered (record session { current_db = codes "E x" })
unfolding handle_com_query normalise_prefix starts_with contains_text drop_spaces
use_blank_test = refl

use_nothing_test : handle_com_query session (query (codes "USE ")) ≡ throws
unfolding handle_com_query normalise_prefix starts_with contains_text
use_nothing_test = refl

autocommit_spaced_example :
    (starts_with (normalise_prefix (codes "set autocommit = 0")) (codes "SET ") ≡ true
      → contains_text (normalise_prefix (codes "set autocommit = 0")) (codes "AUTOCOMMIT = 0")
        ≡ false)
    × (normalise_prefix (codes "set autocommit = 0") ≡ codes "SET AUTOCOMMIT ="
        → handle_com_query session (query (codes "set autocommit = 0"))
          ≡ answered (record session { autocommit = true }))
autocommit_spaced_example = autocommit_spaced session (query (codes "set autocommit = 0"))

abbrev columns : List Bytes
columns = map (λ n. make_column_def n 253 255 0 45) (codes "id" ∷ codes "name" ∷ [])

abbrev rows : List Bytes
rows = map make_text_row ((codes "1" ∷ codes "ada" ∷ []) ∷ (codes "2" ∷ [] ∷ []) ∷ [])

proxy_result-result_set_example :
    proxy_result
      (make_column_count 2 ∷ (columns ++ make_eof 0 2 ∷ (rows ++ make_eof 0 2 ∷ codes "next" ∷ [])))
    ≡ (
      make_column_count 2 ∷ (columns ++ make_eof 0 2 ∷ (rows ++ make_eof 0 2 ∷ [])),
      some (codes "next" ∷ []),
    )
proxy_result-result_set_example =
    proxy_result-result_set 2 (codes "id" ∷ codes "name" ∷ []) 253 255 0 45
      ((codes "1" ∷ codes "ada" ∷ []) ∷ (codes "2" ∷ [] ∷ []) ∷ []) 0 2 0 2 (codes "next" ∷ [])
      (omega arith)
