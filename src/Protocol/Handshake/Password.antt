-- ===== src/Protocol/Handshake/Password.antt =====
-- handshake.cpp: mysql_native_password, both sides.
use Prim.Native.Nat.{bit_xor}
use dbmesh.Prelude.{
  ℕ, suc, zero, ◌<◌, ◌≡◌, refl, arith, Bool, true, false, [], ◌∷◌, ◌++◌, Bytes, Option, none, some,
  ◌==◌, ==_iff, length, is_empty, bytes_eq_self, ap,
}
use dbmesh.Protocol.Handshake.{
  xor_bytes, native_hashes, verify_native_password, scramble_native_password,
}

-- The greatest number under the bound at which the test fails.
failure : (ℕ → Bool) → ℕ → Option ℕ
failure good zero = none
failure good (suc k) = let lower = failure good k in elim (good k) [ false ↦ some k | true ↦ lower ]

passes : (good : ℕ → Bool) (bound x : ℕ) → failure good bound ≡ none → x < bound → good x ≡ true
unfolding failure
passes good zero x clean small = absurd (omega arith)
passes good (suc k) x clean small = ground (arith, passes good k x)

-- Masking a byte twice with the same byte gives it back: all the pairs are tried.
abbrev restored : ℕ → ℕ → Bool
restored mask byte = bit_xor (bit_xor byte mask) mask == byte

abbrev never_fails : ℕ → Bool
never_fails mask = elim (failure (restored mask) 256) [ none ↦ true | some byte ↦ false ]

all_masks : failure never_fails 256 ≡ none
unfolding failure
all_masks = refl

clean_mask : (mask : ℕ) → never_fails mask ≡ true → failure (restored mask) 256 ≡ none
clean_mask mask h = ground arith

xor_twice : (a b : ℕ) → a < 256 → b < 256 → bit_xor (bit_xor a b) b ≡ a
xor_twice a b h k =
    (==_iff _ a).0
      (passes (restored b) 256 a (clean_mask b (passes never_fails 256 b all_masks k)) h)

-- Every byte is below 256.
abbrev pub AreBytes : Bytes → Type 0
AreBytes [] = Unit
AreBytes (b ∷ bs) = (b < 256) × AreBytes bs

xor_bytes_twice :
    (as' bs : Bytes)
    → AreBytes as'
    → AreBytes bs
    → length as' ≡ length bs
    → xor_bytes (xor_bytes as' bs) bs ≡ as'
unfolding xor_bytes
xor_bytes_twice [] bs h k e = refl
xor_bytes_twice (a ∷ as') [] h k e = absurd (omega arith)
xor_bytes_twice (a ∷ as') (b ∷ bs) h k e =
    rw (xor_twice a b h.0 k.0, xor_bytes_twice as' bs h.1 k.1 (omega arith))

pub length-xor_bytes :
    (as' bs : Bytes) → length as' ≡ length bs → length (xor_bytes as' bs) ≡ length as'
unfolding xor_bytes
length-xor_bytes [] bs e = refl
length-xor_bytes (a ∷ as') [] e = absurd (omega arith)
length-xor_bytes (a ∷ as') (b ∷ bs) e = ap suc (length-xor_bytes as' bs (omega arith))

-- What is relied on of SHA1: twenty bytes.
abbrev pub Digest : (Bytes → Bytes) → Type 0
Digest sha1 = (s : Bytes) → (length (sha1 s) ≡ 20) × AreBytes (sha1 s)

-- The token that the client side makes from a password that is not empty is accepted by the server
-- side for the same password and salt, when SHA1 gives twenty bytes.
pub verify-scramble :
    (sha1 : Bytes → Bytes) (pwd salt : Bytes)
    → Digest sha1
    → is_empty pwd ≡ false
    → verify_native_password sha1 pwd salt (scramble_native_password sha1 pwd salt) ≡ true
unfolding verify_native_password scramble_native_password native_hashes
verify-scramble sha1 pwd salt d h =
    let h1 = sha1 pwd in
    let h3 = sha1 (salt ++ sha1 h1) in
    let same : length h1 ≡ length h3 = omega (arith, (d pwd).0, (d (salt ++ sha1 h1)).0) in
    rw
      (
        h,
        length-xor_bytes h1 h3 same,
        (d pwd).0,
        xor_bytes_twice h1 h3 (d pwd).1 (d (salt ++ sha1 h1)).1 same,
      )
      (bytes_eq_self h1)

-- For the empty password the client side sends no bytes, and the server side refuses that.
pub verify-scramble_empty :
    (sha1 : Bytes → Bytes) (salt : Bytes)
    → verify_native_password sha1 [] salt (scramble_native_password sha1 [] salt) ≡ false
unfolding verify_native_password scramble_native_password
verify-scramble_empty sha1 salt = refl
