-- ===== src/Protocol/Handshake/Overflow.antt =====
-- handshake.cpp: the length of the authentication response.
use dbmesh.Prelude.{
  ℕ, ◌+◌, ◌-◌, ◌^◌, ◌≤◌, ◌<◌, ◌≡◌, refl, arith, true, false, [], ◌∷◌, ◌++◌, Bytes, none, ltb,
  length, is_empty, drop, length-append, drop-append, ap, ◌∙◌,
}
use dbmesh.Protocol.Codec.{le_bytes, read_u32_le, read_lenenc_int, read_null_str}
use dbmesh.Protocol.Codec.RoundTrip.{
  length-le_bytes, read_sized-le_bytes, NoNull, read_null_str-append,
}
use dbmesh.Protocol.Handshake.{
  has_flag, plugin_auth_lenenc, read_auth, assign_auth, bad_range, decode_response, finish_response,
}

read_auth-bad_range :
    (flags size len : ℕ) (rest : Bytes)
    → has_flag flags plugin_auth_lenenc ≡ true
    → len < 2 ^ 64
    → length rest + 9 ≤ size
    → size < 2 ^ 32
    → 2 ^ 64 ≤ size - length rest + len
    → read_auth flags size (0xFE ∷ (le_bytes 8 len ++ rest)) ≡ bad_range
unfolding read_auth assign_auth read_lenenc_int
read_auth-bad_range flags size len rest f h fits small wrap =
    rw (f, read_sized-le_bytes 8 len rest h) (ground arith)

not_short : (n : ℕ) → 32 ≤ n → ltb n 32 ≡ false
not_short n h = ground arith

drop_head : (head t : Bytes) → length head ≡ 32 → drop 32 (head ++ t) ≡ t
drop_head head t e = ap (λ k. drop k (head ++ t)) {x = 32} (omega arith) ∙ drop-append head t 0

nonempty_null : (user t : Bytes) → is_empty (user ++ 0 ∷ t) ≡ false
nonempty_null [] t = refl
nonempty_null (c ∷ cs) t = refl

-- The way of `decode` to the authentication response.
decode_response-auth :
    (payload p user t : Bytes)
    → 32 ≤ length payload
    → drop 32 payload ≡ p
    → is_empty p ≡ false
    → read_null_str p ≡ (user, t)
    → read_auth (read_u32_le payload) (length payload) t ≡ bad_range
    → decode_response payload ≡ none
unfolding decode_response
decode_response-auth payload p user t long d e r a =
    rw (not_short (length payload) long, d, e, r, a)

-- A client that sets PLUGIN_AUTH_LENENC can send, in a packet below 4 GiB, a length so near 2 ^ 64
-- that the end of the response wraps: the test for the packet's end lets it pass, and `decode`
-- assigns from a range that ends before it begins.
pub decode_response_bad_range :
    (head user rest : Bytes) (len : ℕ)
    → let payload = head ++ (user ++ 0 ∷ (0xFE ∷ (le_bytes 8 len ++ rest))) in
      length head ≡ 32
      → NoNull user
      → has_flag (read_u32_le payload) plugin_auth_lenenc ≡ true
      → len < 2 ^ 64
      → length payload < 2 ^ 32
      → 2 ^ 64 ≤ 32 + length user + 10 + len
      → decode_response payload ≡ none
unfolding decode_response finish_response
decode_response_bad_range head user rest len e n f h small wrap =
    let t = 0xFE ∷ (le_bytes 8 len ++ rest) in
    let payload = head ++ (user ++ 0 ∷ t) in
    let size : length payload ≡ 32 + length user + 10 + length rest = omega (
      arith,
      length-append head (user ++ 0 ∷ t),
      length-append user (0 ∷ t),
      length-append (le_bytes 8 len) rest,
      length-le_bytes 8 len,
    ) in
    decode_response-auth payload (user ++ 0 ∷ t) user t (omega (arith, size))
      (drop_head head (user ++ 0 ∷ t) e) (nonempty_null user t) (read_null_str-append user t n)
      (read_auth-bad_range (read_u32_le payload) (length payload) len rest f h (omega (arith, size))
        small (omega (arith, size)))
