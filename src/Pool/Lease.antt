-- ===== src/Pool/Lease.antt =====
-- connection_pool.cpp: what a client that asks for a connection alone leaves behind, stretch by
-- stretch.
use dbmesh.Prelude.{
  ℕ, ◌+◌, ◌-◌, ◌≡◌, refl, arith, Bool, true, false, List, [], ◌∷◌, Option, none, some,
  if◌then◌else◌, ◌==◌, length, ltb, Bool-cases, inl, inr,
}
use dbmesh.Core.Config.{PoolConfig}
use dbmesh.Pool.{
  Pool, PoolError, Acquire, refused, got, connecting, waiting, contains, erase_one, acquire_open,
  acquire_start, acquire_connected, acquire_woken, acquire_resumed, release, hand_over, discard,
  init, take_free, enqueue, track, result_of,
}
use dbmesh.Pool.Counts.{count, contains-count, count-insert, count-erase_one}
use dbmesh.Pool.Ownership.{
  Owned, acquire_open-Owned, acquire_connected-Owned, acquire_resumed-Owned, release-Owned,
  init-Owned,
}

-- Nobody waits, and nothing lies ready for the next who does.
pub record Calm (p : Pool) : Type 0 where
  pub calm_owned : Owned p
  pub calm_nobody : p.waiters ≡ []
  pub calm_handed : result_of p.next_waiter p.handed ≡ none

-- Behind what happened, the same connections are checked out as before, each as often.
pub record Quiet (p q : Pool) : Type 0 where
  pub owned : Owned q
  pub nobody : q.waiters ≡ []
  pub same : (x : ℕ) → count x q.active ≡ count x p.active

-- One connection more is.
pub record Taken (p q : Pool) (c : ℕ) : Type 0 where
  pub taken_owned : Owned q
  pub taken_nobody : q.waiters ≡ []
  pub taken : (x : ℕ) → count x q.active ≡ count x p.active + (if c == x then 1 else 0)

pub record Queued (p q : Pool) (w : ℕ) : Type 0 where
  pub queued_owned : Owned q
  pub alone : q.waiters ≡ w ∷ []
  pub not_handed : result_of w q.handed ≡ none
  pub unchanged : (x : ℕ) → count x q.active ≡ count x p.active

abbrev pub Acquired : Pool → Pool → Acquire → Type 0
Acquired p q (refused e) = Quiet p q
Acquired p q (got c) = Taken p q c
Acquired p q connecting = Quiet p q
Acquired p q (waiting w) = Queued p q w

-- The factory has answered, or the wait is over.
abbrev pub Answered : Pool → Pool → Acquire → Type 0
Answered p q (refused e) = Quiet p q
Answered p q (got c) = Taken p q c
Answered p q connecting = ⊥
Answered p q (waiting w) = ⊥

pub Quiet-self : (p : Pool) → Owned p → p.waiters ≡ [] → Quiet p p
Quiet-self p v n = record { owned = v; nobody = n; same = λ x. refl }

acquire_open-Acquired :
    (p : Pool) (now : ℕ) (xs : List ℕ)
    → p.free ≡ xs
    → Calm p
    → Acquired p (acquire_open p now xs).0 (acquire_open p now xs).1
unfolding acquire_open take_free enqueue
acquire_open-Acquired p now (c ∷ rest) e h =
    let v = h.calm_owned in
    record {
      taken_owned = acquire_open-Owned p now (c ∷ rest) e v;
      taken_nobody = h.calm_nobody;
      taken = λ x. ground (arith, e, v.balanced c, v.once c, count-insert x c p.active);
    }
acquire_open-Acquired p now [] e h = elim (Bool-cases (ltb (length p.all) p.config.max)) [
  | inl room ↦ rw (room, acquire_open) (Quiet-self p h.calm_owned h.calm_nobody)
  | inr full ↦
      let v = h.calm_owned in
      rw (full, acquire_open)
        (record {
          queued_owned = record { balanced = v.balanced; once = v.once; fresh = v.fresh };
          alone = rw h.calm_nobody refl;
          not_handed = h.calm_handed;
          unchanged = λ x. refl;
        })
]

if-Acquired :
    (p : Pool) (b : Bool) (x y : Pool × Acquire)
    → Acquired p x.0 x.1
    → Acquired p y.0 y.1
    → Acquired p (if b then x else y).0 (if b then x else y).1
if-Acquired p true x y h k = h
if-Acquired p false x y h k = k

pub acquire_start-Acquired :
    (p : Pool) (now : ℕ) → Calm p → Acquired p (acquire_start p now).0 (acquire_start p now).1
unfolding acquire_start
acquire_start-Acquired p now h =
    if-Acquired p p.shutting_down _ _ (Quiet-self p h.calm_owned h.calm_nobody)
      (acquire_open-Acquired p now p.free refl h)

-- With nobody waiting, a release takes one connection from those that are checked out.
release-left :
    (q : Pool) (c : ℕ) (healthy is_open : Bool) (now x : ℕ)
    → q.waiters ≡ []
    → contains c q.active ≡ true
    → ((release q c healthy is_open now).waiters ≡ [])
      × (count x (release q c healthy is_open now).active
          ≡ count x q.active - (if c == x then 1 else 0))
unfolding release discard hand_over
release-left q c healthy is_open now x nobody held =
    ground (arith, nobody, held, count-erase_one x c q.active)

-- From here on, `p` is the pool before the client came.
module _ (p q : Pool) where
  pub acquire_connected-Answered :
      (now : ℕ) (r : Option PoolError)
      → Quiet p q
      → Answered p (acquire_connected q now r).0 (acquire_connected q now r).1
  unfolding acquire_connected track
  acquire_connected-Answered now (some e) h = h
  acquire_connected-Answered now none h =
      let v = h.owned in
      record {
        taken_owned = acquire_connected-Owned q now none v;
        taken_nobody = h.nobody;
        taken = λ x. ground (
          arith,
          h.same x,
          v.balanced q.next_conn,
          v.fresh q.next_conn (omega arith),
          count-insert x q.next_conn q.active,
        );
      }

  pub acquire_woken-Answered :
      (w : ℕ) → Queued p q w → Answered p (acquire_woken q w).0 (acquire_woken q w).1
  unfolding acquire_woken acquire_resumed erase_one
  acquire_woken-Answered w h =
      let v = acquire_resumed-Owned q w none h.queued_owned in
      rw (h.not_handed, acquire_woken, acquire_resumed)
        (record { owned = v; nobody = rw h.alone (ground arith); same = h.unchanged })

  pub release-Quiet :
      (c : ℕ) (healthy is_open : Bool) (now : ℕ)
      → Taken p q c
      → Quiet p (release q c healthy is_open now)
  release-Quiet c healthy is_open now h =
      let held : contains c q.active ≡ true =
        ground (arith, h.taken c, contains-count c q.active) in
      let left = λ (x : ℕ). release-left q c healthy is_open now x h.taken_nobody held in
      record {
        owned = release-Owned q c healthy is_open now h.taken_owned;
        nobody = (left 0).0;
        same = λ x. omega (arith, (left x).1, h.taken x);
      }

pub init-Calm : (c : PoolConfig) → Calm (init c)
unfolding init result_of
init-Calm c = record { calm_owned = init-Owned c; calm_nobody = refl; calm_handed = refl }
