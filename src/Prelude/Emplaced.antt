-- ===== src/Prelude/Emplaced.antt =====
-- Maps that are filled by `emplace` under keys that differ.
use Prim.Native.Nat.{ℕ, zero, suc}
use mathlib.Core.Path.{◌≡◌}
use mathlib.Core.Logic.{◌≢◌}
use mathlib.Core.Bool.{true}
use mathlib.Core.Option.{none, some}
use mathlib.Core.List.{List, [], ◌∷◌}
use native.Mathlib.Omega.{arith}
use dbmesh.Prelude.Tests.{is_some}
use dbmesh.Prelude.Lists.{get_elem?}
use dbmesh.Prelude.Chars.{Bytes, bytes_eq_iff}
use dbmesh.Prelude.Maps.{lookup, emplace, lookup-emplace}

-- The text is none of these.
abbrev pub NotIn : Bytes → List Bytes → Type 0
NotIn s [] = Unit
NotIn s (t ∷ ts) = (t ≢ s) × NotIn s ts

-- No text stands among those before it, the first list first.
abbrev pub Distinct : List Bytes → List Bytes → Type 0
Distinct before [] = Unit
Distinct before (s ∷ ss) = NotIn s before × Distinct (s ∷ before) ss

module _ {ℓ} {V : Type ℓ} where
  unfoldable pub emplace_all : List (Bytes × V) → List (Bytes × V) → List (Bytes × V)
  emplace_all m [] = m
  emplace_all m ((k, v) ∷ rest) = emplace_all (emplace k v m) rest

  abbrev pub keys : List (Bytes × V) → List Bytes
  keys [] = []
  keys ((k, v) ∷ rest) = k ∷ keys rest

  pub emplace-present :
      (k : Bytes) (v : V) (m : List (Bytes × V)) → is_some (lookup k m) ≡ true → emplace k v m ≡ m
  unfolding emplace lookup
  emplace-present k v [] h = cc
  emplace-present k v ((j, w) ∷ m) h = ground (arith, emplace-present k v m)

  -- No entry is lost or overwritten.
  pub lookup-emplace_all_old :
      (m rest : List (Bytes × V)) (k : Bytes) {v : V}
      → lookup k m ≡ some v
      → lookup k (emplace_all m rest) ≡ some v
  unfolding emplace_all
  lookup-emplace_all_old m [] k h = h
  lookup-emplace_all_old m ((j, w) ∷ rest) k {v} h =
      lookup-emplace_all_old (emplace j w m) rest k {v = v} (ground (arith, lookup-emplace j k w m))

  -- The keys of the map are among those listed.
  abbrev pub KeysIn : List Bytes → List (Bytes × V) → Type ℓ
  KeysIn before m = (k : Bytes) → NotIn k before → lookup k m ≡ none

  KeysIn-emplace :
      (before : List Bytes) (m : List (Bytes × V)) (k : Bytes) (v : V)
      → KeysIn before m
      → KeysIn (k ∷ before) (emplace k v m)
  KeysIn-emplace before m k v h j n =
      ground (arith, lookup-emplace k j v m, bytes_eq_iff k j, h j n.1, n.0)

  pub lookup-emplace_all :
      (before : List Bytes) (m rest : List (Bytes × V)) (i : ℕ) (k : Bytes) {v : V}
      → KeysIn before m
      → Distinct before (keys rest)
      → get_elem? rest i ≡ some (k, v)
      → lookup k (emplace_all m rest) ≡ some v
  unfolding emplace_all
  lookup-emplace_all before m [] i k h d e = cc
  lookup-emplace_all before m ((j, w) ∷ rest) zero k {v} h d e =
      lookup-emplace_all_old (emplace j w m) rest k {v = v}
        (ground (arith, lookup-emplace j k w m, bytes_eq_iff j k, h j d.0))
  lookup-emplace_all before m ((j, w) ∷ rest) (suc i) k {v} h d e =
      lookup-emplace_all (j ∷ before) (emplace j w m) rest i k {v = v}
        (KeysIn-emplace before m j w h) d.1 e

  is_some-emplace_all_old :
      (m rest : List (Bytes × V)) (k : Bytes)
      → is_some (lookup k m) ≡ true
      → is_some (lookup k (emplace_all m rest)) ≡ true
  unfolding emplace_all
  is_some-emplace_all_old m [] k h = h
  is_some-emplace_all_old m ((j, w) ∷ rest) k h =
      is_some-emplace_all_old (emplace j w m) rest k (ground (arith, lookup-emplace j k w m))

  -- Every key that is listed is found.
  pub is_some-emplace_all :
      (m rest : List (Bytes × V)) (i : ℕ) (k : Bytes) {v : V}
      → get_elem? rest i ≡ some (k, v)
      → is_some (lookup k (emplace_all m rest)) ≡ true
  unfolding emplace_all
  is_some-emplace_all m [] i k e = cc
  is_some-emplace_all m ((j, w) ∷ rest) zero k e =
      is_some-emplace_all_old (emplace j w m) rest k
        (ground (arith, lookup-emplace j k w m, bytes_eq_iff j k))
  is_some-emplace_all m ((j, w) ∷ rest) (suc i) k {v} e =
      is_some-emplace_all (emplace j w m) rest i k {v = v} e
