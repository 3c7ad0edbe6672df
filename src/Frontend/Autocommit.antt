-- ===== src/Frontend/Autocommit.antt =====
-- mysql_connection.cpp: the prefix by which session statements are recognised.
use dbmesh.Prelude.{
  ℕ, ◌≤◌, ◌<◌, ◌≡◌, refl, arith, Bool, true, false, [], ◌∷◌, ◌++◌, Bytes, codes, ◌==◌, length, drop,
  upper, Bool-cases, inl, inr, length-append, ap,
}
use dbmesh.Frontend.{
  Session, answered, normalise_loop, normalise_prefix, starts_with, contains_text, handle_com_query,
}

length-normalise_loop :
    (out : Bytes) (in_space : Bool) (s : Bytes)
    → length out ≤ 16
    → length (normalise_loop out in_space s) ≤ 16
unfolding normalise_loop
length-normalise_loop out in_space [] h = h
length-normalise_loop out in_space (c ∷ cs) h = ground (
  arith,
  length-append out (b' ' ∷ []),
  length-normalise_loop (out ++ b' ' ∷ []) true cs,
  length-normalise_loop out true cs,
  length-append out (upper c ∷ []),
  length-normalise_loop (out ++ upper c ∷ []) false cs,
)

starts_with-length : (s p : Bytes) → starts_with s p ≡ true → length p ≤ length s
unfolding starts_with
starts_with-length s [] h = omega arith
starts_with-length [] (p ∷ ps) h = cc
starts_with-length (c ∷ cs) (p ∷ ps) h = ground (arith, starts_with-length cs ps)

contains_text-length : (s p : Bytes) → contains_text s p ≡ true → length p ≤ length s
unfolding contains_text
contains_text-length [] p h = starts_with-length [] p h
contains_text-length (c ∷ cs) p h =
    ground (arith, starts_with-length (c ∷ cs) p, contains_text-length cs p)

-- Behind its first byte a prefix that starts otherwise cannot hold the text earlier.
contains_text-tail :
    (c p : ℕ) (cs ps : Bytes)
    → (c == p) ≡ false
    → contains_text (c ∷ cs) (p ∷ ps) ≡ contains_text cs (p ∷ ps)
unfolding contains_text starts_with
contains_text-tail c p cs ps h = rw h

starts_with-split : (s p : Bytes) → starts_with s p ≡ true → s ≡ p ++ drop (length p) s
unfolding starts_with
starts_with-split s [] h = refl
starts_with-split [] (p ∷ ps) h = cc
starts_with-split (c ∷ cs) (p ∷ ps) h = ground (arith, starts_with-split cs ps)

spaced_in_short :
    (rest : Bytes) → length rest < 14 → contains_text rest (codes "AUTOCOMMIT = 0") ≡ false
spaced_in_short rest h = elim (Bool-cases (contains_text rest (codes "AUTOCOMMIT = 0"))) [
  | inl yes_it ↦ absurd (omega (arith, contains_text-length rest (codes "AUTOCOMMIT = 0") yes_it))
  | inr not_it ↦ not_it
]

behind_set :
    (prefix rest : Bytes)
    → prefix ≡ codes "SET " ++ rest
    → length prefix ≤ 16
    → contains_text prefix (codes "AUTOCOMMIT = 0") ≡ false
unfolding contains_text starts_with
behind_set prefix rest e h = rw e (spaced_in_short rest (omega (arith, ap length e)))

short : (payload : Bytes) → length (normalise_prefix (drop 1 payload)) ≤ 16
unfolding normalise_prefix
short payload = length-normalise_loop [] true (drop 1 payload) (omega arith)

spaced_query :
    (s : Session) (payload : Bytes)
    → normalise_prefix (drop 1 payload) ≡ codes "SET AUTOCOMMIT ="
    → handle_com_query s payload ≡ answered (record s { autocommit = true })
unfolding handle_com_query
spaced_query s payload e = rw e

-- In a statement that starts with `SET `, the test for `AUTOCOMMIT = 0` never holds. So a
-- statement whose prefix is `SET AUTOCOMMIT =`, such as `SET AUTOCOMMIT = 0`, turns autocommit on
-- whatever value follows.
pub autocommit_spaced :
    (s : Session) (payload : Bytes)
    → (starts_with (normalise_prefix (drop 1 payload)) (codes "SET ") ≡ true
        → contains_text (normalise_prefix (drop 1 payload)) (codes "AUTOCOMMIT = 0") ≡ false)
      × (normalise_prefix (drop 1 payload) ≡ codes "SET AUTOCOMMIT ="
          → handle_com_query s payload ≡ answered (record s { autocommit = true }))
autocommit_spaced s payload = (
  (λ h. behind_set _ _ (starts_with-split _ (codes "SET ") h) (short payload)),
  (λ e. spaced_query s payload e),
)
