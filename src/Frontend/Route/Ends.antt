-- ===== src/Frontend/Route/Ends.antt =====
-- mysql_connection.cpp and packet_framer.cpp: the exchange of a query with its backend, round by round.
use Prim.Native.Nat.{min}
use dbmesh.Prelude.{
  ℕ, suc, zero, ◌+◌, ◌-◌, ◌%◌, ◌<◌, ◌≡◌, refl, arith, Bool, true, false, ◌&&◌, not, List, [], ◌∷◌,
  Option, none, some, map, Bytes, ltb, ◌==◌, length, take, is_some, Bool-cases, ◌⊎◌, inl, inr,
}
use dbmesh.Core.Types.{Result, ok, err}
use dbmesh.Protocol.Framer.{
  Packet, Written, max_packet_size, goes_on, next_seq, after_write, write_loop, write_packet,
}
use dbmesh.Frontend.{proxy_result}
use dbmesh.Frontend.Route.{send_all, relay, forward}

-- A payload that `write_packet` comes to the end of, in this many rounds: it is empty, or its size is
-- no multiple of the greatest length.
abbrev pub Ends : ℕ → Bytes → Type 0
Ends rounds payload =
    (length payload < rounds)
    × ((ltb 0 (length payload) && (length payload % max_packet_size == 0)) ≡ false)

abbrev pub AllEnd : ℕ → List Packet → Type 0
AllEnd rounds [] = Unit
AllEnd rounds (p ∷ ps) = Ends rounds p.payload × AllEnd rounds ps

next_offset :
    (size offset fuel : ℕ)
    → (ltb 0 size && (size % max_packet_size == 0)) ≡ false
    → goes_on (offset + min (size - offset) max_packet_size) size ≡ true
    → size - offset < suc fuel
    → size - (offset + min (size - offset) max_packet_size) < fuel
next_offset size offset fuel h g f = ground arith

after_write-is_some :
    (frame : Bytes) (w : Option Written) → is_some w ≡ true → is_some (after_write frame w) ≡ true
after_write-is_some frame none h = h
after_write-is_some frame (some w) h = refl

write_loop-Ends :
    (fails : ℕ → Bool) (fuel i : ℕ) (payload : Bytes) (offset seq : ℕ)
    → (ltb 0 (length payload) && (length payload % max_packet_size == 0)) ≡ false
    → length payload - offset < fuel
    → is_some (write_loop fails fuel i payload offset seq) ≡ true
unfolding write_loop
write_loop-Ends fails zero i payload offset seq h f = absurd (omega arith)
write_loop-Ends fails (suc fuel) i payload offset seq h f =
    let chunk = min (length payload - offset) max_packet_size in
    elim (Bool-cases (fails i)) [
      | inl fail ↦ rw (fail, write_loop) refl
      | inr fine ↦ elim (Bool-cases (goes_on (offset + chunk) (length payload))) [
        | inr last ↦ rw (fine, write_loop, last) refl
        | inl more ↦
            rw (fine, write_loop, more)
              (after_write-is_some _ _ (
                write_loop-Ends fails fuel (i + 1) payload (offset + chunk) (next_seq seq) h
                  (next_offset (length payload) offset fuel h more f)))
      ]
    ]

of_some : {A : Type 0} (x : Option A) → is_some x ≡ true → (a : A) × (x ≡ some a)
of_some none h = cc
of_some (some a) h = (a, refl)

-- Each packet that is written this way is written, or a write fails.
write_packet-Ends :
    (fails : ℕ → Bool) (rounds : ℕ) (payload : Bytes) (seq : ℕ)
    → Ends rounds payload
    → (w : Written) × (write_packet fails rounds payload seq ≡ some w)
unfolding write_packet
write_packet-Ends fails rounds payload seq h =
    of_some _ (write_loop-Ends fails rounds 0 payload 0 seq h.1 (omega (arith, h.0)))

Result-cases : {A B : Type 0} (r : Result A B) → ((a : A) × (r ≡ ok a)) ⊎ ((b : B) × (r ≡ err b))
Result-cases (ok a) = inl (a, refl)
Result-cases (err b) = inr (b, refl)

send_all-Ends :
    (client : ℕ → ℕ → Bool) (rounds j : ℕ) (ps : List Packet)
    → AllEnd rounds ps
    → (b : Bool) × (send_all client rounds j ps ≡ some b)
unfolding send_all
send_all-Ends client rounds j [] h = (true, refl)
send_all-Ends client rounds j (p ∷ ps) h =
    let (w, e) = write_packet-Ends (client j) rounds p.payload p.sequence h.0 in
    elim (Result-cases w.outcome) [
      | inl (next, ok') ↦
          let (b, rest) = send_all-Ends client rounds (suc j) ps h.1 in
          (b, rw (e, send_all, ok') rest)
      | inr (x, failed) ↦ (false, rw (e, send_all, failed) refl)
    ]

AllEnd-take : (rounds n : ℕ) (ps : List Packet) → AllEnd rounds ps → AllEnd rounds (take n ps)
AllEnd-take rounds zero ps h = tt
AllEnd-take rounds (suc n) [] h = tt
AllEnd-take rounds (suc n) (p ∷ ps) h = (h.0, AllEnd-take rounds n ps h.1)

-- The backend's packets are a whole response, or its connection breaks behind them.
abbrev pub Answers : List Packet → Bool → Type 0
Answers packets silent =
    (silent && not (is_some (proxy_result (map (λ (p : Packet). p.payload) packets)).1)) ≡ false

relay-Ends :
    (client : ℕ → ℕ → Bool) (rounds : ℕ) (packets : List Packet) (silent : Bool)
    → AllEnd rounds packets
    → Answers packets silent
    → (b : Bool) × (relay client rounds packets silent ≡ some b)
unfolding relay
relay-Ends client rounds packets silent h answers =
    let r = proxy_result (map (λ (p : Packet). p.payload) packets) in
    let n = length r.0 in
    let (sent, e) =
      send_all-Ends client rounds 0 (take n packets) (AllEnd-take rounds n packets h) in
    elim (Bool-cases sent) [
      | inr failed ↦ (false, rw (e, relay, failed) refl)
      | inl all ↦ elim (Bool-cases (is_some r.1)) [
        | inl whole ↦ (true, rw (e, relay, all, whole) refl)
        | inr part ↦
            let breaks : silent ≡ false = ground (arith, answers, part) in
            (false, rw (e, relay, all, part, breaks) refl)
      ]
    ]

-- An exchange ends.
pub forward-Ends :
    (backend : ℕ → Bool) (client : ℕ → ℕ → Bool) (rounds : ℕ) (query : Bytes)
    (packets : List Packet) (silent : Bool)
    → Ends rounds query
    → AllEnd rounds packets
    → Answers packets silent
    → (b : Bool) × (forward backend client rounds query packets silent ≡ some b)
unfolding forward
forward-Ends backend client rounds query packets silent q h answers =
    let (w, e) = write_packet-Ends backend rounds query 0 q in
    elim (Result-cases w.outcome) [
      | inl (next, ok') ↦
          let (b, rest) = relay-Ends client rounds packets silent h answers in
          (b, rw (e, forward, ok') rest)
      | inr (x, failed) ↦ (false, rw (e, forward, failed) refl)
    ]
