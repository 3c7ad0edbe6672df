-- ===== src/Pool/Clients/Exclusive.antt =====
-- connection_pool.cpp: the holders of connections through the stretches of `acquire`.
use dbmesh.Prelude.{ℕ, ◌+◌, ◌≤◌, ◌<◌, ◌≡◌, arith, List, [], ◌∷◌, none, some, get_elem?, set, ap}
use dbmesh.Pool.{Pool, acquire_connected, take_free, enqueue, track, result_of}
use dbmesh.Pool.Counts.{count, count-append}
use dbmesh.Pool.Ownership.{Owned, acquire_connected-Owned, take_free-Owned}
use dbmesh.Pool.Clients.{
  Client, outside, in_factory, in_queue, holds, weight, held, waits_as, queued,
}
use dbmesh.Pool.Clients.Weights.{held-set, queued-set, weight-none}

-- No connection is held twice, or held and free, and no number is given out twice.
pub record Exclusive (p : Pool) (cs : List Client) : Type 0 where
  pub owned : Owned p
  pub once : (c : ℕ) → held c p.handed cs + count c p.free ≤ 1
  pub fresh : (c : ℕ) → p.next_conn ≤ c → held c p.handed cs ≡ 0
  pub queued_once : (w : ℕ) → queued w cs ≤ 1
  pub queued_fresh : (w : ℕ) → p.next_waiter ≤ w → queued w cs ≡ 0
  pub waits_once : (w : ℕ) → count w p.waiters ≤ 1
  pub waits_fresh : (w : ℕ) → p.next_waiter ≤ w → count w p.waiters ≡ 0
  pub handed_fresh : (w : ℕ) → p.next_waiter ≤ w → result_of w p.handed ≡ none
  pub not_handed : (w : ℕ) → 0 < count w p.waiters → result_of w p.handed ≡ none

-- A client that moves, in a pool that does not.
pub stays-Exclusive :
    (p : Pool) (cs : List Client) (i : ℕ) (x y : Client)
    → get_elem? cs i ≡ some x
    → ((c : ℕ) → weight c p.handed y ≤ weight c p.handed x)
    → ((w : ℕ) → waits_as w y ≤ waits_as w x)
    → Exclusive p cs
    → Exclusive p (set cs i y)
stays-Exclusive p cs i x y e light late v = record {
  owned = v.owned;
  once = λ c. omega (arith, v.once c, held-set c p.handed cs i y e, light c);
  fresh = λ c h. omega (arith, v.fresh c h, held-set c p.handed cs i y e, light c);
  queued_once = λ w. omega (arith, v.queued_once w, queued-set w cs i y e, late w);
  queued_fresh = λ w h. omega (arith, v.queued_fresh w h, queued-set w cs i y e, late w);
  waits_once = v.waits_once;
  waits_fresh = v.waits_fresh;
  handed_fresh = v.handed_fresh;
  not_handed = v.not_handed;
}

pub take_free-Exclusive :
    (p : Pool) (cs : List Client) (i now c : ℕ) (rest : List ℕ)
    → get_elem? cs i ≡ some outside
    → p.free ≡ c ∷ rest
    → Exclusive p cs
    → Exclusive (take_free p now c rest) (set cs i (holds c))
unfolding take_free
take_free-Exclusive p cs i now c rest e f v =
    let o = v.owned in
    let front = λ (x : ℕ). ap (count x) f in
    record {
      owned = take_free-Owned p now c rest f o;
      once = λ x. ground (arith, v.once x, held-set x p.handed cs i (holds c) e, front x);
      fresh = λ x h. ground (
        arith,
        v.fresh x h,
        held-set x p.handed cs i (holds c) e,
        front x,
        o.balanced x,
        o.fresh x h,
      );
      queued_once = λ w. omega (arith, v.queued_once w, queued-set w cs i (holds c) e);
      queued_fresh = λ w h. omega (arith, v.queued_fresh w h, queued-set w cs i (holds c) e);
      waits_once = v.waits_once;
      waits_fresh = v.waits_fresh;
      handed_fresh = v.handed_fresh;
      not_handed = v.not_handed;
    }

pub enqueue-Exclusive :
    (p : Pool) (cs : List Client) (i : ℕ)
    → get_elem? cs i ≡ some outside
    → Exclusive p cs
    → Exclusive (enqueue p) (set cs i (in_queue p.next_waiter))
unfolding enqueue
enqueue-Exclusive p cs i e v =
    let n = p.next_waiter in
    let none_yet = v.handed_fresh n (omega arith) in
    let o = v.owned in
    let weightless : (c : ℕ) → weight c p.handed (in_queue n) ≡ 0 =
      λ c. weight-none c n p.handed none_yet in
    record {
      owned = record { balanced = o.balanced; once = o.once; fresh = o.fresh };
      once = λ c. omega (arith, v.once c, held-set c p.handed cs i (in_queue n) e, weightless c);
      fresh =
          λ c h. omega (arith, v.fresh c h, held-set c p.handed cs i (in_queue n) e, weightless c);
      queued_once =
          λ w. ground (arith, v.queued_once w, v.queued_fresh w, queued-set w cs i (in_queue n) e);
      queued_fresh = λ w h. ground (arith, v.queued_fresh w, queued-set w cs i (in_queue n) e);
      waits_once =
          λ w. ground (arith, v.waits_once w, v.waits_fresh w, count-append w p.waiters (n ∷ []));
      waits_fresh = λ w h. ground (arith, v.waits_fresh w, count-append w p.waiters (n ∷ []));
      handed_fresh = λ w h. v.handed_fresh w (omega arith);
      not_handed = λ w h.
          ground (arith, v.not_handed w, v.handed_fresh w, count-append w p.waiters (n ∷ []));
    }

pub connected-Exclusive :
    (p : Pool) (cs : List Client) (i now : ℕ)
    → get_elem? cs i ≡ some in_factory
    → Exclusive p cs
    → Exclusive (acquire_connected p now none).0 (set cs i (holds p.next_conn))
unfolding acquire_connected track
connected-Exclusive p cs i now e v =
    let n = p.next_conn in
    let o = v.owned in
    record {
      owned = acquire_connected-Owned p now none o;
      once = λ x. ground (
        arith,
        v.once x,
        v.fresh x,
        o.fresh x,
        o.balanced x,
        held-set x p.handed cs i (holds n) e,
      );
      fresh = λ x h. ground (arith, v.fresh x, held-set x p.handed cs i (holds n) e);
      queued_once = λ w. omega (arith, v.queued_once w, queued-set w cs i (holds n) e);
      queued_fresh = λ w h. omega (arith, v.queued_fresh w h, queued-set w cs i (holds n) e);
      waits_once = v.waits_once;
      waits_fresh = v.waits_fresh;
      handed_fresh = v.handed_fresh;
      not_handed = v.not_handed;
    }
