-- ===== src/Pool/Ownership.antt =====
-- connection_pool.cpp: where each connection of the pool is.
use dbmesh.Prelude.{
  ℕ, ◌+◌, ◌≤◌, ◌≡◌, refl, arith, Bool, true, false, not, ◌&&◌, ◌||◌, List, [], ◌∷◌, Option, none,
  some, if◌then◌else◌, ◌==◌, length, ltb, Bool-cases, inl, inr,
}
use dbmesh.Core.Config.{PoolConfig}
use dbmesh.Pool.{
  Pool, PoolError, Acquire, contains, erase_one, acquire_open, acquire_start, acquire_connected,
  acquire_woken, acquire_resumed, release, hand_over, discard, warm_connected, drain, reap_loop,
  reap, init, take_free, enqueue, track, too_old, result_of,
}
use dbmesh.Pool.Counts.{count, count-append, contains-count, count-insert, count-erase_one}

pub record Owned (p : Pool) : Type 0 where
  -- The pool's connections are the free ones and those checked out, each as often.
  pub balanced : (c : ℕ) → count c p.all ≡ count c p.free + count c p.active
  pub once : (c : ℕ) → count c p.all ≤ 1
  pub fresh : (c : ℕ) → p.next_conn ≤ c → count c p.all ≡ 0

-- What may happen on the strand, in any order: the stretches of the coroutines of any number of
-- clients, of `warm` and of the idle reaper.
pub data Event : Type 0 where
  acquires : ℕ → Event
  connects : ℕ → Option PoolError → Event
  wakes : ℕ → Event
  releases : ℕ → Bool → Bool → ℕ → Event
  warms : ℕ → Event
  drains : Event
  reaps : ℕ → Event

unfoldable pub apply : Pool → Event → Pool
apply p (acquires now) = (acquire_start p now).0
apply p (connects now r) = (acquire_connected p now r).0
apply p (wakes w) = (acquire_woken p w).0
apply p (releases c healthy is_open now) = release p c healthy is_open now
apply p (warms now) = warm_connected p now
apply p drains = drain p
apply p (reaps now) = reap p now

unfoldable pub run : Pool → List Event → Pool
unfolding apply
run p [] = p
run p (e ∷ es) = run (apply p e) es

pub take_free-Owned :
    (p : Pool) (now c : ℕ) (rest : List ℕ)
    → p.free ≡ c ∷ rest
    → Owned p
    → Owned (take_free p now c rest)
unfolding take_free
take_free-Owned p now c rest e v = record {
  balanced =
      λ x. ground (arith, e, v.balanced x, v.balanced c, v.once c, count-insert x c p.active);
  once = v.once;
  fresh = v.fresh;
}

pub acquire_open-Owned :
    (p : Pool) (now : ℕ) (xs : List ℕ) → p.free ≡ xs → Owned p → Owned (acquire_open p now xs).0
unfolding acquire_open enqueue
acquire_open-Owned p now (c ∷ rest) e v = take_free-Owned p now c rest e v
acquire_open-Owned p now [] e v = elim (Bool-cases (ltb (length p.all) p.config.max)) [
  | inl room ↦ rw (room, acquire_open) v
  | inr full ↦
      rw (full, acquire_open) (record { balanced = v.balanced; once = v.once; fresh = v.fresh })
]

if-Owned {ℓ} :
    {A : Type ℓ} (f : A → Pool) (b : Bool) (x y : A)
    → Owned (f x)
    → Owned (f y)
    → Owned (f (if b then x else y))
if-Owned f true x y h k = h
if-Owned f false x y h k = k

pub acquire_start-Owned : (p : Pool) (now : ℕ) → Owned p → Owned (acquire_start p now).0
unfolding acquire_start
acquire_start-Owned p now v =
    if-Owned {A = Pool × Acquire} (λ r. r.0) p.shutting_down _ _ v
      (acquire_open-Owned p now p.free refl v)

pub acquire_connected-Owned :
    (p : Pool) (now : ℕ) (r : Option PoolError) → Owned p → Owned (acquire_connected p now r).0
unfolding acquire_connected track
acquire_connected-Owned p now (some e) v = v
acquire_connected-Owned p now none v = record {
  balanced = λ x. ground (
    arith,
    v.balanced x,
    v.balanced p.next_conn,
    v.fresh p.next_conn (omega arith),
    count-append x p.all (p.next_conn ∷ []),
    count-insert x p.next_conn p.active,
  );
  once = λ x. ground (arith, v.once x, v.fresh x, count-append x p.all (p.next_conn ∷ []));
  fresh = λ x h. ground (arith, v.fresh x, count-append x p.all (p.next_conn ∷ []));
}

pub warm_connected-Owned : (p : Pool) (now : ℕ) → Owned p → Owned (warm_connected p now)
unfolding warm_connected track
warm_connected-Owned p now v = record {
  balanced = λ x. ground (
    arith,
    v.balanced x,
    count-append x p.all (p.next_conn ∷ []),
    count-append x p.free (p.next_conn ∷ []),
  );
  once = λ x. ground (arith, v.once x, v.fresh x, count-append x p.all (p.next_conn ∷ []));
  fresh = λ x h. ground (arith, v.fresh x, count-append x p.all (p.next_conn ∷ []));
}

pub acquire_resumed-Owned :
    (p : Pool) (w : ℕ) (r : Option ℕ) → Owned p → Owned (acquire_resumed p w r).0
unfolding acquire_resumed
acquire_resumed-Owned p w (some c) v = record {
  balanced = v.balanced;
  once = v.once;
  fresh = v.fresh;
}
acquire_resumed-Owned p w none v = record { balanced = v.balanced; once = v.once; fresh = v.fresh }

-- In `release`, after `active_.erase`: the connection is in `all` and nowhere else.
pub record Between (p : Pool) (c : ℕ) : Type 0 where
  rest : (x : ℕ) → count x p.all ≡ count x p.free + count x p.active + (if c == x then 1 else 0)
  single : (x : ℕ) → count x p.all ≤ 1
  unused : (x : ℕ) → p.next_conn ≤ x → count x p.all ≡ 0

pub discard-Owned : (p : Pool) (c : ℕ) → Between p c → Owned (discard p c)
unfolding discard
discard-Owned p c b = record {
  balanced = λ x. ground (arith, b.rest x, count-erase_one x c p.all);
  once = λ x. ground (arith, b.single x, count-erase_one x c p.all);
  fresh = λ x h. ground (arith, b.unused x h, count-erase_one x c p.all);
}

pub hand_over-Owned :
    (p : Pool) (c now : ℕ) (ws : List ℕ) → Between p c → Owned (hand_over p c now ws)
unfolding hand_over
hand_over-Owned p c now (w ∷ ws) b = record {
  balanced = λ x. ground (arith, b.rest x, b.rest c, b.single c, count-insert x c p.active);
  once = b.single;
  fresh = b.unused;
}
hand_over-Owned p c now [] b = record {
  balanced = λ x. ground (arith, b.rest x, count-append x p.free (c ∷ []));
  once = b.single;
  fresh = b.unused;
}

pub checked_out-Between :
    (p : Pool) (c : ℕ)
    → Owned p
    → contains c p.active ≡ true
    → Between (record p { active = erase_one c p.active }) c
checked_out-Between p c v h = record {
  rest = λ x. ground (arith, v.balanced x, contains-count c p.active, count-erase_one x c p.active);
  single = v.once;
  unused = v.fresh;
}

pub release-Owned :
    (p : Pool) (c : ℕ) (healthy is_open : Bool) (now : ℕ)
    → Owned p
    → Owned (release p c healthy is_open now)
unfolding release
release-Owned p c healthy is_open now v = elim (Bool-cases (contains c p.active)) [
  | inr gone ↦ rw gone v
  | inl held ↦
      let b = checked_out-Between p c v held in
      rw held (
        if-Owned (λ r. r) (not healthy || p.shutting_down || not is_open) _ _ (discard-Owned _ c b)
          (hand_over-Owned _ c now p.waiters b))
]

pub drain-Owned : (p : Pool) → Owned (drain p)
unfolding drain
drain-Owned p = record { balanced = λ x. refl; once = λ x. omega arith; fresh = λ x h. refl }

-- The reaper keeps and closes free connections: what it keeps and what it takes out of `all`.
pub count-reap_loop :
    (old : ℕ → Bool) (least : ℕ) (free owned : List ℕ) (x : ℕ)
    → count x free ≤ count x owned
    → (count x (reap_loop old least free owned).left + count x free
        ≡ count x owned + count x (reap_loop old least free owned).kept)
      × (count x (reap_loop old least free owned).left ≤ count x owned)
unfolding reap_loop
count-reap_loop old least [] owned x h = (omega arith, omega arith)
count-reap_loop old least (c ∷ cs) owned x h =
    elim (Bool-cases (old c && ltb least (length owned))) [
      | inl go ↦ rw go (
          ground
            (arith, count-erase_one x c owned, count-reap_loop old least cs (erase_one c owned) x))
      | inr stay ↦ rw stay (ground (arith, count-reap_loop old least cs owned x))
    ]

pub reap-Owned : (p : Pool) (now : ℕ) → Owned p → Owned (reap p now)
unfolding reap
reap-Owned p now v =
    let old = too_old p.info now p.config.idle_timeout_sec in
    let least = p.config.min in
    record {
      balanced = λ x. omega (
        arith,
        v.balanced x,
        count-reap_loop old least p.free p.all x (omega (arith, v.balanced x)),
      );
      once = λ x.
          omega (
            arith,
            v.once x,
            count-reap_loop old least p.free p.all x (omega (arith, v.balanced x)),
          );
      fresh = λ x h. omega (
        arith,
        v.fresh x h,
        count-reap_loop old least p.free p.all x (omega (arith, v.balanced x)),
      );
    }

apply-Owned : (p : Pool) (e : Event) → Owned p → Owned (apply p e)
unfolding apply acquire_woken
apply-Owned p (acquires now) v = acquire_start-Owned p now v
apply-Owned p (connects now r) v = acquire_connected-Owned p now r v
apply-Owned p (wakes w) v = acquire_resumed-Owned p w (result_of w p.handed) v
apply-Owned p (releases c healthy is_open now) v = release-Owned p c healthy is_open now v
apply-Owned p (warms now) v = warm_connected-Owned p now v
apply-Owned p drains v = drain-Owned p
apply-Owned p (reaps now) v = reap-Owned p now v

run-Owned : (p : Pool) (es : List Event) → Owned p → Owned (run p es)
unfolding run
run-Owned p [] v = v
run-Owned p (e ∷ es) v = run-Owned (apply p e) es (apply-Owned p e v)

pub init-Owned : (c : PoolConfig) → Owned (init c)
unfolding init
init-Owned c = record { balanced = λ x. refl; once = λ x. omega arith; fresh = λ x h. refl }

-- In every interleaving of clients, warming, reaping and draining from an empty pool, each
-- connection of the pool is in the free list or checked out, never in both and never twice, and
-- nothing else is in them; the numbers of connections to come are not in use.
pub run-init-Owned : (c : PoolConfig) (es : List Event) → Owned (run (init c) es)
run-init-Owned c es = run-Owned (init c) es (init-Owned c)
