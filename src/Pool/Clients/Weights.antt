-- ===== src/Pool/Clients/Weights.antt =====
-- connection_pool.cpp: counting who holds a connection and who waits, as clients move.
use dbmesh.Prelude.{
  ℕ, zero, suc, ◌+◌, ◌≡◌, arith, List, [], ◌∷◌, none, some, get_elem?, set, if◌then◌else◌, ◌==◌,
  ◌∙◌, ap,
}
use dbmesh.Pool.{result_of}
use dbmesh.Pool.Clients.{
  Client, outside, in_factory, in_queue, holds, weight, held, waits_as, queued,
}

pub held-set :
    (c : ℕ) (h : List (ℕ × ℕ)) (cs : List Client) (i : ℕ) (y : Client) {x : Client}
    → get_elem? cs i ≡ some x
    → held c h (set cs i y) + weight c h x ≡ held c h cs + weight c h y
held-set c h [] i y e = cc
held-set c h (z ∷ cs) zero y {x} e = let q : z ≡ x = cc in omega (arith, ap (weight c h) q)
held-set c h (z ∷ cs) (suc i) y e = omega (arith, held-set c h cs i y e)

pub queued-set :
    (w : ℕ) (cs : List Client) (i : ℕ) (y : Client) {x : Client}
    → get_elem? cs i ≡ some x
    → queued w (set cs i y) + waits_as w x ≡ queued w cs + waits_as w y
queued-set w [] i y e = cc
queued-set w (z ∷ cs) zero y {x} e = let q : z ≡ x = cc in omega (arith, ap (waits_as w) q)
queued-set w (z ∷ cs) (suc i) y e = omega (arith, queued-set w cs i y e)

weight-hand :
    (c w d : ℕ) (h : List (ℕ × ℕ)) (x : Client)
    → result_of w h ≡ none
    → weight c ((w, d) ∷ h) x ≡ weight c h x + (if d == c then waits_as w x else 0)
unfolding result_of
weight-hand c w d h outside e = ground arith
weight-hand c w d h in_factory e = ground arith
weight-hand c w d h (holds b) e = ground arith
weight-hand c w d h (in_queue v) e =
    let same : v ≡ w → result_of v h ≡ none = λ q. ap (λ n. result_of n h) q ∙ e in
    ground (arith, same)

pub weight-none : (c w : ℕ) (h : List (ℕ × ℕ)) → result_of w h ≡ none → weight c h (in_queue w) ≡ 0
weight-none c w h e = ground (arith, e)

pub weight-some :
    (c w d : ℕ) (h : List (ℕ × ℕ))
    → result_of w h ≡ some d
    → weight c h (in_queue w) ≡ (if d == c then 1 else 0)
weight-some c w d h e = ground (arith, e)

pub held-hand :
    (c w d : ℕ) (h : List (ℕ × ℕ)) (cs : List Client)
    → result_of w h ≡ none
    → held c ((w, d) ∷ h) cs ≡ held c h cs + (if d == c then queued w cs else 0)
held-hand c w d h [] e = ground arith
held-hand c w d h (x ∷ cs) e = ground (arith, weight-hand c w d h x e, held-hand c w d h cs e)
