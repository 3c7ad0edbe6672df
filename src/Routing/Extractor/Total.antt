-- ===== src/Routing/Extractor/Total.antt =====
-- schema_extractor.cpp: the rounds of the loop of `extract`.
use dbmesh.Prelude.{
  ℕ, suc, zero, ◌+◌, ◌≤◌, ◌<◌, [], ◌∷◌, Option, none, some, Bytes, ◌≡◌, refl, arith, length, drop,
  length-drop,
}
use dbmesh.Routing.Classifier.{Quote, normal}
use dbmesh.Routing.Extractor.{
  Round, finished, again, after_keyword, round_normal, round_quoted, round_at, extract_round,
  extract_loop, extract_run, keyword_at, keywords,
}

-- A round that goes on moves forward.
abbrev Forward : ℕ → Round → Type 0
Forward i (finished r) = Unit
Forward i (again st j) = i < j

after_keyword-Forward : (s : Bytes) (i : ℕ) (after : Bytes) → Forward i (after_keyword s i after)
unfolding after_keyword
after_keyword-Forward s i after = ground arith

round_normal-Forward :
    (s : Bytes) (i c : ℕ) (cs : Bytes) (k : Option Bytes)
    → keyword_at keywords (c ∷ cs) ≡ k
    → Forward i (round_normal s i c cs)
unfolding round_normal
round_normal-Forward s i c cs none e = ground arith
round_normal-Forward s i c cs (some after) e = ground (arith, after_keyword-Forward s i after)

round_quoted-Forward : (st : Quote) (i c : ℕ) → Forward i (round_quoted st i c)
unfolding round_quoted
round_quoted-Forward st i c = ground arith

round_at-Forward : (st : Quote) (s : Bytes) (i : ℕ) (t : Bytes) → Forward i (round_at st s i t)
unfolding round_at
round_at-Forward st s i [] = tt
round_at-Forward st s i (c ∷ cs) =
    ground (arith, round_normal-Forward s i c cs _ refl, round_quoted-Forward st i c)

-- Past the end the round stops.
round_at-end :
    (st : Quote) (s : Bytes) (i : ℕ) → length s ≤ i → extract_round st s i ≡ finished none
unfolding extract_round
round_at-end st s i h = stop (drop i s) (omega (arith, length-drop i s))
  where
    stop : (t : Bytes) → length t ≤ 0 → round_at st s i t ≡ finished none
    stop [] h = refl
    stop (c ∷ cs) h = absurd (omega arith)

extract_round-Forward : (st : Quote) (s : Bytes) (i : ℕ) → Forward i (extract_round st s i)
unfolding extract_round
extract_round-Forward st s i = round_at-Forward st s i (drop i s)

-- What is left of the loop after a round, when it ends from every later position.
after_round :
    (fuel : ℕ) (s : Bytes) (i : ℕ) (r : Round)
    → Forward i r
    → ((st : Quote) (j : ℕ) → i < j → (x : Option Bytes) × (extract_loop fuel st s j ≡ some x))
    → (st : Quote) → extract_round st s i ≡ r
    → (x : Option Bytes) × (extract_loop (suc fuel) st s i ≡ some x)
unfolding extract_loop
after_round fuel s i (finished x) f rest st e = (x, rw (e, extract_loop))
after_round fuel s i (again st' j) f rest st e =
    let (x, h) = rest st' j f in (x, rw (e, extract_loop) h)

extract_loop_total :
    (fuel : ℕ) (st : Quote) (s : Bytes) (i : ℕ)
    → length s < fuel + i
    → 0 < fuel
    → (x : Option Bytes) × (extract_loop fuel st s i ≡ some x)
unfolding extract_loop
extract_loop_total zero st s i h p = absurd (omega arith)
extract_loop_total (suc zero) st s i h p =
    (none, rw (round_at-end st s i (omega arith), extract_loop))
extract_loop_total (suc (suc f)) st s i h p =
    after_round (suc f) s i (extract_round st s i) (extract_round-Forward st s i)
      (λ st' j lt. extract_loop_total (suc f) st' s j (omega arith) (omega arith)) st refl

-- `extract` ends on every text: as many rounds as the text has bytes, and one, are enough.
pub extract_run_total : (s : Bytes) → (r : Option Bytes) × (extract_run s ≡ some r)
unfolding extract_run
extract_run_total s = extract_loop_total (length s + 1) normal s 0 (omega arith) (omega arith)
