-- ===== src/Protocol/Handshake/Response.antt =====
-- handshake.cpp: the client's response, written and read.
use mathlib.Core.List.{append_assoc}
use dbmesh.Prelude.{
  ℕ, ◌+◌, ◌%◌, ◌^◌, ◌≤◌, ◌<◌, ◌≡◌, refl, arith, Bool, true, false, [], ◌∷◌, ◌++◌, Bytes, some,
  if◌then◌else◌, ltb, length, is_empty, take-append, drop, replicate, length-append, ◌∙◌,
}
use dbmesh.Core.Types.{ok}
use dbmesh.Protocol.Codec.{le_bytes, of_le, read_null_str, write_null_str}
use dbmesh.Protocol.Codec.RoundTrip.{of_le-le_bytes, NoNull, read_null_str-append}
use dbmesh.Protocol.Handshake.{
  has_flag, plugin_auth_lenenc, plugin_auth, connect_with_db, secure_connection, native_password,
  HandshakeResponse41, auth, read_auth, prefixed_auth, assign_auth, opt_str, finish_response,
  decode_response, encode_response,
}

pub starts_some : (s t : Bytes) → is_empty (s ++ 0 ∷ t) ≡ false
starts_some [] t = refl
starts_some (c ∷ cs) t = refl

-- An optional string that was written is read, and what is left is what follows it.
opt_str-written :
    (wanted : Bool) (s t : Bytes)
    → NoNull s
    → opt_str wanted ((if wanted then write_null_str s else []) ++ t)
      ≡ (if wanted then s else [], t)
opt_str-written false s t n = refl
opt_str-written true s t n = rw (append_assoc, starts_some s t) (read_null_str-append s t n)

pub drop_all : (xs ys : Bytes) → drop (length xs) (xs ++ ys) ≡ ys
drop_all [] ys = refl
drop_all (x ∷ xs) ys = drop_all xs ys

assign_auth-written :
    (size : ℕ) (a rest : Bytes)
    → length a + length rest ≤ size
    → size < 2 ^ 32
    → assign_auth size (length a) (a ++ rest) ≡ auth a rest
unfolding assign_auth
assign_auth-written size a rest fits small =
    ground (arith, length-append a rest, take-append a rest, drop_all a rest)

opt_str-last :
    (wanted : Bool) (s : Bytes)
    → NoNull s
    → opt_str wanted (if wanted then write_null_str s else []) ≡ (if wanted then s else [], [])
opt_str-last false s n = refl
opt_str-last true s n = rw (starts_some s []) (read_null_str-append s [] n)

not_short : (n : ℕ) → ltb (32 + n) 32 ≡ false
not_short n = ground arith

-- The 32 bytes in front of the name.
abbrev front : ℕ → ℕ → ℕ → Bytes
front f m c = le_bytes 4 f ++ (le_bytes 4 m ++ (c % 256 ∷ replicate 23 0))

length-front : (f m c : ℕ) (body : Bytes) → length (front f m c ++ body) ≡ 32 + length body
unfolding le_bytes
length-front f m c body = omega arith

decode_response-front :
    (f m c : ℕ) (body : Bytes)
    → is_empty body ≡ false
    → decode_response (front f m c ++ body)
      ≡ finish_response
          (of_le (le_bytes 4 f))
          (of_le (le_bytes 4 m))
          (c % 256)
          (read_null_str body).0
          (read_auth (of_le (le_bytes 4 f)) (32 + length body) (read_null_str body).1)
unfolding decode_response le_bytes
decode_response-front f m c body h = rw (length-front f m c body, not_short (length body), h) refl

finish_response-written :
    (f m c : ℕ) (user a d p : Bytes)
    → NoNull d
    → NoNull p
    → finish_response f m c user (
        auth a (
          (if has_flag f connect_with_db then write_null_str d else [])
          ++ (if has_flag f plugin_auth then write_null_str p else [])))
      ≡ some (
          ok (record {
            r_flags = f;
            max_packet = m;
            charset = c;
            username = user;
            auth_response = a;
            database = if has_flag f connect_with_db then d else [];
            auth_plugin = if has_flag f plugin_auth then p else [];
          }))
unfolding finish_response
finish_response-written f m c user a d p n k =
    rw
      (
        opt_str-written (has_flag f connect_with_db) d _ n,
        opt_str-last (has_flag f plugin_auth) p k,
      )
      refl

read_auth-written :
    (f size : ℕ) (a rest : Bytes)
    → has_flag f plugin_auth_lenenc ≡ false
    → has_flag f secure_connection ≡ true
    → length a < 256
    → length a + length rest ≤ size
    → size < 2 ^ 32
    → read_auth f size (length a % 256 ∷ (a ++ rest)) ≡ auth a rest
unfolding read_auth prefixed_auth
read_auth-written f size a rest plain secure short fits small =
    let one : length a % 256 ≡ length a = omega arith in
    rw (plain, secure, one) (assign_auth-written size a rest fits small)

pub plugin_or_native-NoNull :
    (p : Bytes) → NoNull p → NoNull (if is_empty p then native_password else p)
plugin_or_native-NoNull [] n = (
  refl,
  (
    refl,
    (
      refl,
      (
        refl,
        (
          refl,
          (
            refl,
            (
              refl,
              (
                refl,
                (
                  refl,
                  (
                    refl,
                    (
                      refl,
                      (
                        refl,
                        (refl, (refl, (refl, (refl, (refl, (refl, (refl, (refl, (refl, tt))))))))),
                      ),
                    ),
                  ),
                ),
              ),
            ),
          ),
        ),
      ),
    ),
  ),
)
plugin_or_native-NoNull (c ∷ cs) n = n

-- The whole packet around a response and what follows it.
abbrev packet : ℕ → ℕ → ℕ → Bytes → Bytes → Bytes → Bytes
packet f m c user a rest = front f m c ++ (user ++ 0 ∷ (length a % 256 ∷ (a ++ rest)))

length-packet :
    (f m c : ℕ) (user a rest : Bytes)
    → length (packet f m c user a rest) ≡ 32 + length (user ++ 0 ∷ (length a % 256 ∷ (a ++ rest)))
length-packet f m c user a rest = length-front f m c (user ++ 0 ∷ (length a % 256 ∷ (a ++ rest)))

response_fits :
    (user a rest : Bytes)
    → length a + length rest ≤ 32 + length (user ++ 0 ∷ (length a % 256 ∷ (a ++ rest)))
response_fits user a rest =
    omega (arith, length-append user (0 ∷ (length a % 256 ∷ (a ++ rest))), length-append a rest)

decode_response-packet :
    (f m c : ℕ) (user a rest : Bytes)
    → f < 2 ^ 32
    → m < 2 ^ 32
    → c < 256
    → NoNull user
    → has_flag f plugin_auth_lenenc ≡ false
    → has_flag f secure_connection ≡ true
    → length a < 256
    → length (packet f m c user a rest) < 2 ^ 32
    → decode_response (packet f m c user a rest) ≡ finish_response f m c user (auth a rest)
decode_response-packet f m c user a rest ff mm cc' nu plain secure short small =
    let after = length a % 256 ∷ (a ++ rest) in
    let size = 32 + length (user ++ 0 ∷ after) in
    let bound : size < 2 ^ 32 = omega (arith, length-packet f m c user a rest) in
    let flags : of_le (le_bytes 4 f) ≡ f = of_le-le_bytes 4 f (omega arith) in
    let most : of_le (le_bytes 4 m) ≡ m = of_le-le_bytes 4 m (omega arith) in
    let set : c % 256 ≡ c = omega arith in
    let response : read_auth f size after ≡ auth a rest =
      read_auth-written f size a rest plain secure short (response_fits user a rest) bound in
    decode_response-front f m c (user ++ 0 ∷ after) (starts_some user after)
    ∙ rw (read_null_str-append user after nu, flags, most, set, response) refl

encode_response-packet :
    (r : HandshakeResponse41)
    → encode_response r
      ≡ packet r.r_flags r.max_packet r.charset r.username r.auth_response (
          (if has_flag r.r_flags connect_with_db then write_null_str r.database else [])
          ++ (if has_flag r.r_flags plugin_auth
              then write_null_str
                  (if is_empty r.auth_plugin then native_password else r.auth_plugin)
              else []))
unfolding encode_response le_bytes
encode_response-packet r = rw append_assoc refl

-- A response is read back as it was written, when its numbers fit their fields, its strings have
-- no null byte, its flags ask for the authentication data behind one byte of length, that data is
-- shorter than 256 bytes, and the packet is below 4 GiB. The database and the plugin are read when
-- their flags are set, and an empty plugin as `mysql_native_password`.
pub decode_response-encode_response :
    (r : HandshakeResponse41)
    → r.r_flags < 2 ^ 32
    → r.max_packet < 2 ^ 32
    → r.charset < 256
    → NoNull r.username
    → NoNull r.database
    → NoNull r.auth_plugin
    → has_flag r.r_flags plugin_auth_lenenc ≡ false
    → has_flag r.r_flags secure_connection ≡ true
    → length r.auth_response < 256
    → length (encode_response r) < 2 ^ 32
    → decode_response (encode_response r)
      ≡ some (
          ok (record r {
            database = if has_flag r.r_flags connect_with_db then r.database else [];
            auth_plugin =
                if has_flag r.r_flags plugin_auth
                then (if is_empty r.auth_plugin then native_password else r.auth_plugin)
                else [];
          }))
decode_response-encode_response r ff mm cc' nu nd np plain secure short small =
    let e = encode_response-packet r in
    rw e (
      decode_response-packet r.r_flags r.max_packet r.charset r.username r.auth_response _ ff mm cc'
        nu plain secure short (rw e at small)
      ∙ finish_response-written r.r_flags r.max_packet r.charset r.username r.auth_response
          r.database _ nd (plugin_or_native-NoNull r.auth_plugin np))
