-- ===== src/Pool/Clients/Returns.antt =====
-- connection_pool.cpp: the same through wake-ups, releases and the pool's own stretches.
use dbmesh.Prelude.{
  ℕ, ◌≡◌, refl, arith, Bool, true, false, not, ◌||◌, List, [], ◌∷◌, Option, none, some, get_elem?,
  set, if◌then◌else◌, ap,
}
use dbmesh.Pool.{
  Pool, acquire_resumed, release, discard, hand_over, track, warm_connected, drain, reap, result_of,
  erase_one, contains, too_old,
}
use dbmesh.Pool.Counts.{count, count-append, count-erase_one}
use dbmesh.Pool.Ownership.{
  acquire_resumed-Owned, discard-Owned, hand_over-Owned, checked_out-Between, warm_connected-Owned,
  drain-Owned, reap-Owned, count-reap_loop,
}
use dbmesh.Pool.Clients.{Client, outside, in_queue, holds, client_after}
use dbmesh.Pool.Clients.Weights.{held-set, weight-some, held-hand}
use dbmesh.Pool.Clients.Exclusive.{Exclusive, stays-Exclusive}

pub warm-Exclusive :
    (p : Pool) (cs : List Client) (now : ℕ) → Exclusive p cs → Exclusive (warm_connected p now) cs
unfolding warm_connected track
warm-Exclusive p cs now v =
    let o = v.owned in
    record {
      owned = warm_connected-Owned p now o;
      once = λ x. ground (
        arith,
        v.once x,
        v.fresh x,
        o.fresh x,
        o.balanced x,
        count-append x p.free (p.next_conn ∷ []),
      );
      fresh = λ x h. v.fresh x (omega arith);
      queued_once = v.queued_once;
      queued_fresh = v.queued_fresh;
      waits_once = v.waits_once;
      waits_fresh = v.waits_fresh;
      handed_fresh = v.handed_fresh;
      not_handed = v.not_handed;
    }

pub drain-Exclusive : (p : Pool) (cs : List Client) → Exclusive p cs → Exclusive (drain p) cs
unfolding drain
drain-Exclusive p cs v = record {
  owned = drain-Owned p;
  once = λ x. omega (arith, v.once x);
  fresh = v.fresh;
  queued_once = v.queued_once;
  queued_fresh = v.queued_fresh;
  waits_once = λ w. omega arith;
  waits_fresh = λ w h. refl;
  handed_fresh = v.handed_fresh;
  not_handed = λ w h. absurd (omega arith);
}

pub reap-Exclusive :
    (p : Pool) (cs : List Client) (now : ℕ) → Exclusive p cs → Exclusive (reap p now) cs
unfolding reap
reap-Exclusive p cs now v =
    let o = v.owned in
    let old = too_old p.info now p.config.idle_timeout_sec in
    record {
      owned = reap-Owned p now o;
      once = λ x. omega (
        arith,
        v.once x,
        count-reap_loop old p.config.min p.free p.all x (omega (arith, o.balanced x)),
      );
      fresh = v.fresh;
      queued_once = v.queued_once;
      queued_fresh = v.queued_fresh;
      waits_once = v.waits_once;
      waits_fresh = v.waits_fresh;
      handed_fresh = v.handed_fresh;
      not_handed = v.not_handed;
    }

-- A client that wakes with what was handed to it, or without.
pub resumed-Exclusive :
    (p : Pool) (cs : List Client) (i w : ℕ) (r : Option ℕ)
    → get_elem? cs i ≡ some (in_queue w)
    → result_of w p.handed ≡ r
    → Exclusive p cs
    → Exclusive (acquire_resumed p w r).0 (set cs i (client_after (acquire_resumed p w r).1))
unfolding acquire_resumed
resumed-Exclusive p cs i w (some d) e q v =
    let t =
      stays-Exclusive p cs i (in_queue w) (holds d) e
        (λ c. omega (arith, weight-some c w d p.handed q)) (λ x. omega arith) v in
    record {
      owned = acquire_resumed-Owned p w (some d) v.owned;
      once = t.once;
      fresh = t.fresh;
      queued_once = t.queued_once;
      queued_fresh = t.queued_fresh;
      waits_once = t.waits_once;
      waits_fresh = t.waits_fresh;
      handed_fresh = t.handed_fresh;
      not_handed = t.not_handed;
    }
resumed-Exclusive p cs i w none e q v =
    let t = stays-Exclusive p cs i (in_queue w) outside e (λ c. omega arith) (λ x. omega arith) v in
    record {
      owned = acquire_resumed-Owned p w none v.owned;
      once = t.once;
      fresh = t.fresh;
      queued_once = t.queued_once;
      queued_fresh = t.queued_fresh;
      waits_once = λ x. omega (arith, v.waits_once x, count-erase_one x w p.waiters);
      waits_fresh = λ x h. omega (arith, v.waits_fresh x h, count-erase_one x w p.waiters);
      handed_fresh = t.handed_fresh;
      not_handed = λ x h. v.not_handed x (omega (arith, count-erase_one x w p.waiters));
    }

module _ (p : Pool) (cs : List Client) (i c now : ℕ) (e : get_elem? cs i ≡ some (holds c))
    (v : Exclusive p cs) where
  left : Exclusive p (set cs i outside)
  left = stays-Exclusive p cs i (holds c) outside e (λ x. omega arith) (λ x. omega arith) v

  discard-Exclusive :
      contains c p.active ≡ true
      → Exclusive (discard (record p { active = erase_one c p.active }) c) (set cs i outside)
  unfolding discard
  discard-Exclusive h = record {
    owned = discard-Owned _ c (checked_out-Between p c v.owned h);
    once = left.once;
    fresh = left.fresh;
    queued_once = left.queued_once;
    queued_fresh = left.queued_fresh;
    waits_once = left.waits_once;
    waits_fresh = left.waits_fresh;
    handed_fresh = left.handed_fresh;
    not_handed = left.not_handed;
  }

  freed-Exclusive :
      contains c p.active ≡ true
      → p.waiters ≡ []
      → Exclusive
          (hand_over (record p { active = erase_one c p.active }) c now [])
          (set cs i outside)
  unfolding hand_over
  freed-Exclusive h nobody = record {
    owned = hand_over-Owned _ c now [] (checked_out-Between p c v.owned h);
    once = λ x.
        ground
          (arith, v.once x, held-set x p.handed cs i outside e, count-append x p.free (c ∷ []));
    fresh = left.fresh;
    queued_once = left.queued_once;
    queued_fresh = left.queued_fresh;
    waits_once = left.waits_once;
    waits_fresh = left.waits_fresh;
    handed_fresh = left.handed_fresh;
    not_handed = left.not_handed;
  }

  handed-Exclusive :
      (w : ℕ) (ws : List ℕ)
      → contains c p.active ≡ true
      → p.waiters ≡ w ∷ ws
      → Exclusive
          (hand_over (record p { active = erase_one c p.active }) c now (w ∷ ws))
          (set cs i outside)
  unfolding hand_over result_of
  handed-Exclusive w ws h queue =
      let front = λ (x : ℕ). ap (count x) queue in
      let none_yet = v.not_handed w (ground (arith, front w)) in
      let sum = λ (x : ℕ). held-hand x w c p.handed (set cs i outside) none_yet in
      record {
        owned = hand_over-Owned _ c now (w ∷ ws) (checked_out-Between p c v.owned h);
        once = λ x.
            ground (arith, v.once x, held-set x p.handed cs i outside e, sum x, left.queued_once w);
        fresh = λ x k. ground (arith, v.fresh x k, held-set x p.handed cs i outside e, sum x);
        queued_once = left.queued_once;
        queued_fresh = left.queued_fresh;
        waits_once = λ x. omega (arith, v.waits_once x, front x);
        waits_fresh = λ x k. omega (arith, v.waits_fresh x k, front x);
        handed_fresh = λ x k. ground (arith, v.handed_fresh x k, v.waits_fresh x k, front x);
        not_handed = λ x k. ground (arith, v.not_handed x, v.waits_once x, front x);
      }

  hand_over-Exclusive :
      (ws : List ℕ)
      → contains c p.active ≡ true
      → p.waiters ≡ ws
      → Exclusive
          (hand_over (record p { active = erase_one c p.active }) c now ws)
          (set cs i outside)
  hand_over-Exclusive [] h q = freed-Exclusive h q
  hand_over-Exclusive (w ∷ ws) h q = handed-Exclusive w ws h q

if-Exclusive :
    (b : Bool) (x y : Pool) (cs : List Client)
    → (b ≡ true → Exclusive x cs)
    → (b ≡ false → Exclusive y cs)
    → Exclusive (if b then x else y) cs
if-Exclusive true x y cs h k = h refl
if-Exclusive false x y cs h k = k refl

negated_back : (b : Bool) → not b ≡ false → b ≡ true
negated_back true h = refl
negated_back false h = cc

pub release-Exclusive :
    (p : Pool) (cs : List Client) (i c now : ℕ) (healthy is_open : Bool)
    → get_elem? cs i ≡ some (holds c)
    → Exclusive p cs
    → Exclusive (release p c healthy is_open now) (set cs i outside)
unfolding release
release-Exclusive p cs i c now healthy is_open e v =
    if-Exclusive (not (contains c p.active)) _ _ _ (λ gone. left p cs i c now e v)
      (λ there.
        let h = negated_back (contains c p.active) there in
        if-Exclusive (not healthy || p.shutting_down || not is_open) _ _ _
          (λ bad. discard-Exclusive p cs i c now e v h)
          (λ good. hand_over-Exclusive p cs i c now e v p.waiters h refl))
