-- ===== src/Frontend/Acceptor/Admission.antt =====
-- mysql_frontend.cpp: how many connections are admitted.
use mathlib.Core.List.{append_assoc, append-nil}
use dbmesh.Prelude.{
  ℕ, zero, suc, ◌+◌, ◌%◌, ◌^◌, ◌<◌, ◌≡◌, refl, arith, false, List, [], ◌∷◌, ◌++◌, leb, length,
  replicate, ap, sym, ◌∙◌,
}
use dbmesh.Frontend.Acceptor.{accepted, Acceptor, init_acceptor, admit, accept_loop}

-- The numbers given to so many connections, from this one on.
abbrev pub conn_ids : ℕ → ℕ → List ℕ
conn_ids from zero = []
conn_ids from (suc n) = from ∷ conn_ids ((from + 1) % 2 ^ 32) n

length-conn_ids : (from n : ℕ) → length (conn_ids from n) ≡ n
length-conn_ids from zero = refl
length-conn_ids from (suc n) = ap suc (length-conn_ids ((from + 1) % 2 ^ 32) n)

admit-idle :
    (max_conns : ℕ) (a : Acceptor)
    → 0 < max_conns
    → a.active_conns ≡ 0
    → admit max_conns a ≡ record a {
      next_conn_id = (a.next_conn_id + 1) % 2 ^ 32;
      active_conns = 0;
      spawned = a.spawned ++ a.next_conn_id ∷ [];
    }
unfolding admit
admit-idle max_conns a h z = let room : leb max_conns 0 ≡ false = ground arith in rw (z, room) refl

accept_loop-idle :
    (max_conns n : ℕ) (a : Acceptor)
    → 0 < max_conns
    → a.active_conns ≡ 0
    → let b = accept_loop max_conns (replicate n accepted) a in
      (b.spawned ≡ a.spawned ++ conn_ids a.next_conn_id n) × (b.rejected ≡ a.rejected)
unfolding accept_loop
accept_loop-idle max_conns zero a h z = (sym (append-nil a.spawned), refl)
accept_loop-idle max_conns (suc n) a h z =
    let b : Acceptor = record a {
      next_conn_id = (a.next_conn_id + 1) % 2 ^ 32;
      active_conns = 0;
      spawned = a.spawned ++ a.next_conn_id ∷ [];
    } in
    let ih = accept_loop-idle max_conns n b h refl in
    rw (accept_loop, admit-idle max_conns a h z) (ih.0 ∙ append_assoc a.spawned _ _, ih.1)

-- Unless `max_connections` is 0, every socket that is accepted is served, however many are served
-- already: none is rejected.
pub accept_loop_unbounded :
    (max_conns n : ℕ)
    → 0 < max_conns
    → let b = accept_loop max_conns (replicate n accepted) init_acceptor in
      (b.spawned ≡ conn_ids 1 n) × (length b.spawned ≡ n) × (b.rejected ≡ 0)
unfolding init_acceptor
accept_loop_unbounded max_conns n h =
    let all = accept_loop-idle max_conns n init_acceptor h refl in
    (all.0, ap length all.0 ∙ length-conn_ids 1 n, all.1)
