-- ===== src/Protocol/Handshake/Greeting.antt =====
-- handshake.cpp: the server's greeting, written and read.
use mathlib.Core.List.{append_assoc, append-nil}
use dbmesh.Prelude.{
  ℕ, ◌+◌, ◌*◌, ◌/◌, ◌%◌, ◌^◌, ◌<◌, ◌≡◌, refl, arith, true, false, [], ◌∷◌, ◌++◌, Bytes, ltb, length,
  take, take-append, drop, drop-append, length-drop, length-take, suc, zero, replicate,
  length-append, ◌∙◌, sym, ap,
}
use dbmesh.Core.Types.{ok}
use dbmesh.Protocol.Codec.{le_bytes, of_le}
use dbmesh.Protocol.Codec.RoundTrip.{
  of_le-le_bytes, length-le_bytes, take-le_bytes, drop-le_bytes, NoNull, read_null_str-append,
}
use dbmesh.Protocol.Handshake.Response.{starts_some}
use dbmesh.Protocol.Handshake.{
  has_flag, plugin_auth, secure_connection, HandshakeV10, encode_v10, decode_v10, opt_u16,
  decode_tail, read_middle, read_salt,
}

-- What fits into the fields of a greeting.
pub record Fits (h : HandshakeV10) : Type 0 where
  pub id_fits : h.connection_id < 2 ^ 32
  pub flags_fit : h.capability_flags < 2 ^ 32
  pub charset_fits : h.character_set < 256
  pub status_fits : h.status_flags < 2 ^ 16
  pub salt_length : length h.auth_data ≡ 20
  pub version_no_null : NoNull h.server_version
  pub plugin_no_null : NoNull h.auth_plugin_name
  pub secure : has_flag h.capability_flags secure_connection ≡ true
  pub plugin : has_flag h.capability_flags plugin_auth ≡ true

opt_u16-le_bytes :
    (default v : ℕ) (p : Bytes) → opt_u16 default (le_bytes 2 v ++ p) ≡ (of_le (le_bytes 2 v), p)
unfolding le_bytes
opt_u16-le_bytes default v p = ground arith

read_middle-written :
    (c s q : ℕ) (p : Bytes)
    → read_middle (c ∷ (le_bytes 2 s ++ (le_bytes 2 q ++ (21 ∷ (replicate 10 0 ++ p))))) ≡ record {
      m_charset = c;
      m_status = of_le (le_bytes 2 s);
      m_cap_high = of_le (le_bytes 2 q);
      m_auth_len = 21;
      m_rest = p;
    }
unfolding read_middle
read_middle-written c s q p =
    rw
      (
        opt_u16-le_bytes 2 s (le_bytes 2 q ++ (21 ∷ (replicate 10 0 ++ p))),
        opt_u16-le_bytes 0 q (21 ∷ (replicate 10 0 ++ p)),
      )
      refl

read_salt-written :
    (fs : ℕ) (part p : Bytes)
    → has_flag fs secure_connection ≡ true
    → length part ≡ 12
    → read_salt fs 21 (part ++ 0 ∷ p) ≡ (part, p)
unfolding read_salt
read_salt-written fs part p s n =
    let got : take 12 (part ++ 0 ∷ p) ≡ part =
      ap (λ k. take k (part ++ 0 ∷ p)) (sym n) ∙ take-append part (0 ∷ p) in
    let left : drop 12 (part ++ 0 ∷ p) ≡ 0 ∷ p =
      ap (λ k. drop k (part ++ 0 ∷ p)) {x = 12} (omega (arith, n)) ∙ drop-append part (0 ∷ p) 0 in
    rw (s, starts_some part p, got, left, n) (ap (λ t. (t, p)) (append-nil part))

whole_flags : (f : ℕ) → f < 2 ^ 32 → f % 2 ^ 16 + f / 2 ^ 16 % 2 ^ 16 * 2 ^ 16 ≡ f
whole_flags f h = omega arith

take-drop : (n : ℕ) (s : Bytes) → take n s ++ drop n s ≡ s
take-drop zero s = refl
take-drop (suc n) [] = refl
take-drop (suc n) (b ∷ s) = ap (◌∷◌ b) (take-drop n s)

whole_salt : (s : Bytes) → length s ≡ 20 → take 8 s ++ take 12 (drop 8 s) ≡ s
whole_salt s h =
    let rest : take 12 (drop 8 s) ≡ drop 8 s =
      ap (λ k. take k (drop 8 s)) {x = 12} (omega (arith, length-drop 8 s, h))
      ∙ (ap (take (length (drop 8 s))) (sym (append-nil (drop 8 s))) ∙ take-append (drop 8 s) []) in
    rw rest (take-drop 8 s)

-- The bytes behind the salt's first part and a zero.
abbrev after_salt : HandshakeV10 → Bytes
after_salt h =
    h.character_set % 256
    ∷ (le_bytes 2 h.status_flags
        ++ (le_bytes 2 (h.capability_flags / 2 ^ 16 % 2 ^ 16)
            ++ (21
                ∷ (replicate 10 0
                    ++ (take 12 (drop 8 h.auth_data) ++ (0 ∷ (h.auth_plugin_name ++ 0 ∷ [])))))))

flags_read :
    (f : ℕ)
    → f < 2 ^ 32
    → of_le (le_bytes 2 (f % 2 ^ 16)) + of_le (le_bytes 2 (f / 2 ^ 16 % 2 ^ 16)) * 2 ^ 16 ≡ f
flags_read f h =
    rw
      (
        of_le-le_bytes 2 (f % 2 ^ 16) (omega arith),
        of_le-le_bytes 2 (f / 2 ^ 16 % 2 ^ 16) (omega arith),
      )
      (whole_flags f h)

decode_tail-after_salt :
    (h : HandshakeV10) (version part1 : Bytes) (id : ℕ)
    → Fits h
    → decode_tail version id part1 (of_le (le_bytes 2 (h.capability_flags % 2 ^ 16))) (after_salt h)
      ≡ record h {
        server_version = version;
        connection_id = id;
        auth_data = part1 ++ take 12 (drop 8 h.auth_data);
      }
unfolding decode_tail
decode_tail-after_salt h version part1 id f =
    let salt2 = take 12 (drop 8 h.auth_data) in
    let tail = salt2 ++ (0 ∷ (h.auth_plugin_name ++ 0 ∷ [])) in
    let m =
      read_middle-written (h.character_set % 256) h.status_flags
        (h.capability_flags / 2 ^ 16 % 2 ^ 16) tail in
    let long : length salt2 ≡ 12 =
      omega
        (arith, length-take 12 (drop 8 h.auth_data), length-drop 8 h.auth_data, f.salt_length) in
    let r =
      read_salt-written h.capability_flags salt2 (h.auth_plugin_name ++ 0 ∷ []) f.secure long in
    let charset : h.character_set % 256 ≡ h.character_set = omega (arith, f.charset_fits) in
    rw
      (
        m,
        flags_read h.capability_flags f.flags_fit,
        r,
        f.plugin,
        starts_some h.auth_plugin_name [],
        read_null_str-append h.auth_plugin_name [] f.plugin_no_null,
        charset,
        of_le-le_bytes 2 h.status_flags f.status_fits,
      )
      refl

encode_v10-parts :
    (h : HandshakeV10)
    → encode_v10 h
      ≡ 0x0A
        ∷ (h.server_version
            ++ 0
              ∷ (le_bytes 4 h.connection_id
                  ++ (take 8 h.auth_data
                      ++ (0 ∷ (le_bytes 2 (h.capability_flags % 2 ^ 16) ++ after_salt h)))))
unfolding encode_v10
encode_v10-parts h = rw append_assoc refl

enough : (n : ℕ) (xs ys : Bytes) → length xs ≡ n → ltb (length (xs ++ ys)) n ≡ false
enough n xs ys h = ground (arith, length-append xs ys)

decode_v10-parts :
    (version part1 p : Bytes) (id v : ℕ)
    → NoNull version
    → id < 2 ^ 32
    → length part1 ≡ 8
    → decode_v10 (0x0A ∷ (version ++ 0 ∷ (le_bytes 4 id ++ (part1 ++ (0 ∷ (le_bytes 2 v ++ p))))))
      ≡ ok (decode_tail version id part1 (of_le (le_bytes 2 v)) p)
unfolding decode_v10
decode_v10-parts version part1 p id v n small eight =
    let behind_salt = 0 ∷ (le_bytes 2 v ++ p) in
    let behind_id = part1 ++ behind_salt in
    let salt : take 8 behind_id ≡ part1 =
      ap (λ k. take k behind_id) {x = 8} (sym eight) ∙ take-append part1 behind_salt in
    let left : drop 8 behind_id ≡ behind_salt =
      ap (λ k. drop k behind_id) {x = 8} (omega (arith, eight)) ∙ drop-append part1 behind_salt 0 in
    rw
      (
        read_null_str-append version (le_bytes 4 id ++ behind_id) n,
        enough 4 (le_bytes 4 id) behind_id (length-le_bytes 4 id),
        take-le_bytes 4 id behind_id,
        drop-le_bytes 4 id behind_id,
        of_le-le_bytes 4 id small,
        enough 8 part1 behind_salt eight,
        salt,
        left,
        enough 2 (le_bytes 2 v) p (length-le_bytes 2 v),
        take-le_bytes 2 v p,
        drop-le_bytes 2 v p,
      )
      refl

-- A greeting is read back as it was written, when its numbers fit their fields, its strings have no
-- null byte, its salt has twenty bytes, and its flags announce the salt's second part and the plugin.
pub decode_v10-encode_v10 : (h : HandshakeV10) → Fits h → decode_v10 (encode_v10 h) ≡ ok h
decode_v10-encode_v10 h f =
    let part1 = take 8 h.auth_data in
    let eight : length part1 ≡ 8 = omega (arith, length-take 8 h.auth_data, f.salt_length) in
    ap decode_v10 (encode_v10-parts h)
    ∙ (decode_v10-parts h.server_version part1 (after_salt h) h.connection_id
          (h.capability_flags % 2 ^ 16) f.version_no_null f.id_fits eight
        ∙ (ap ok (decode_tail-after_salt h h.server_version part1 h.connection_id f)
            ∙ rw (whole_salt h.auth_data f.salt_length) refl))
