-- ===== src/Protocol/Handshake.antt =====
-- protocol/mysql/src/handshake.cpp and handshake.h. A position is given by the bytes from it on: one
-- past the end has none left. SHA1 is the parameter `sha1`.
pub mod Password
pub mod Overflow
pub mod Response
pub mod Greeting
use Prim.Native.Nat.{bit_xor, max, min}
use dbmesh.Prelude.{
  ℕ, suc, zero, ◌+◌, ◌-◌, ◌*◌, ◌/◌, ◌%◌, ◌^◌, Bool, true, false, not, ◌&&◌, ◌||◌, List, [], ◌∷◌,
  ◌++◌, Option, none, some, Bytes, codes, if◌then◌else◌, ltb, leb, ◌==◌, length, take, drop, get_or,
  replicate, is_empty, bytes_eq,
}
use dbmesh.Core.Types.{Result, ok, err}
use dbmesh.Protocol.Codec.{
  le_bytes, write_u8, write_u16_le, write_u32_le, write_null_str, read_u16_le, read_u32_le,
  read_null_str, read_lenenc_int, exceeds,
}

-- `flags & (1 << bit)`.
abbrev pub has_flag : ℕ → ℕ → Bool
has_flag flags bit = flags / 2 ^ bit % 2 == 1

abbrev pub connect_with_db : ℕ
connect_with_db = 3

abbrev pub secure_connection : ℕ
secure_connection = 15

abbrev pub plugin_auth : ℕ
plugin_auth = 19

abbrev pub plugin_auth_lenenc : ℕ
plugin_auth_lenenc = 21

abbrev pub native_password : Bytes
native_password = codes "mysql_native_password"

pub record HandshakeV10 : Type 0 where
  pub server_version : Bytes
  pub connection_id : ℕ
  pub auth_data : Bytes
  pub capability_flags : ℕ
  pub character_set : ℕ
  pub status_flags : ℕ
  pub auth_plugin_name : Bytes

-- The string literals of the errors.
pub data DecodeError : Type 0 where
  not_handshake truncated_handshake truncated_auth_data truncated_caps : DecodeError
  too_short truncated_response auth_overflow missing_auth_len : DecodeError

-- `generate_auth_data`, on the random bytes: no byte is 0.
unfoldable pub without_nulls : Bytes → Bytes
without_nulls [] = []
without_nulls (b ∷ bs) = (if b == 0 then 1 else b) ∷ without_nulls bs

unfoldable pub encode_v10 : HandshakeV10 → Bytes
encode_v10 h =
    write_u8 0x0A
    ++ (write_null_str h.server_version
        ++ (write_u32_le h.connection_id
            ++ (take 8 h.auth_data
                ++ (write_u8 0
                    ++ (write_u16_le (h.capability_flags % 2 ^ 16)
                        ++ (write_u8 h.character_set
                            ++ (write_u16_le h.status_flags
                                ++ (write_u16_le (h.capability_flags / 2 ^ 16 % 2 ^ 16)
                                    ++ (write_u8 21
                                        ++ (replicate 10 0
                                            ++ (take 12 (drop 8 h.auth_data)
                                                ++ (write_u8 0
                                                    ++ write_null_str h.auth_plugin_name))))))))))))

-- The optional middle part of `decode`: what was read, and the bytes from there on.
pub record Middle : Type 0 where
  pub m_charset : ℕ
  pub m_status : ℕ
  pub m_cap_high : ℕ
  pub m_auth_len : ℕ
  pub m_rest : Bytes

abbrev pub opt_u16 : ℕ → Bytes → ℕ × Bytes
opt_u16 default p = if leb 2 (length p) then (read_u16_le p, drop 2 p) else (default, p)

unfoldable pub read_middle : Bytes → Middle
read_middle [] = record {
  m_charset = 0x2D;
  m_status = 2;
  m_cap_high = 0;
  m_auth_len = 0;
  m_rest = [];
}
read_middle (c ∷ p) =
    let status = opt_u16 2 p in
    let high = opt_u16 0 status.1 in
    record {
      m_charset = c;
      m_status = status.0;
      m_cap_high = high.0;
      m_auth_len = get_or high.1 0 0;
      m_rest = drop 10 (drop 1 high.1);
    }

-- The salt's second part: at most twelve bytes into the zeros of the array, and what is skipped.
unfoldable pub read_salt : ℕ → ℕ → Bytes → Bytes × Bytes
read_salt flags auth_len p =
    if has_flag flags secure_connection && not (is_empty p)
    then (let part2 = max 13 (auth_len - 8) in
        let salt2 = min 12 (part2 - 1) in
        let got = take salt2 p in
        (got ++ replicate (12 - length got) 0, drop (part2 - salt2) (drop salt2 p)))
    else (replicate 12 0, p)

-- `decode` behind the lower capability flags.
unfoldable pub decode_tail : Bytes → ℕ → Bytes → ℕ → Bytes → HandshakeV10
decode_tail version id part1 cap_low p =
    let m = read_middle p in
    let flags = cap_low + m.m_cap_high * 2 ^ 16 in
    let salt = read_salt flags m.m_auth_len m.m_rest in
    record {
      server_version = version;
      connection_id = id;
      auth_data = part1 ++ salt.0;
      capability_flags = flags;
      character_set = m.m_charset;
      status_flags = m.m_status;
      auth_plugin_name =
          if has_flag flags plugin_auth && not (is_empty salt.1)
          then (read_null_str salt.1).0
          else native_password;
    }

unfoldable pub decode_v10 : Bytes → Result HandshakeV10 DecodeError
unfolding decode_tail
decode_v10 [] = err not_handshake
decode_v10 (b ∷ payload) =
    let version = read_null_str payload in
    let p = drop 4 version.1 in
    let q = drop 1 (drop 8 p) in
    if not (b == 0x0A)
    then err not_handshake
    else if ltb (length version.1) 4
    then err truncated_handshake
    else if ltb (length p) 8
    then err truncated_auth_data
    else if ltb (length q) 2
    then err truncated_caps
    else ok (decode_tail version.0 (read_u32_le version.1) (take 8 p) (read_u16_le q) (drop 2 q))

pub record HandshakeResponse41 : Type 0 where
  pub r_flags : ℕ
  pub max_packet : ℕ
  pub charset : ℕ
  pub username : Bytes
  pub auth_response : Bytes
  pub database : Bytes
  pub auth_plugin : Bytes

unfoldable pub encode_response : HandshakeResponse41 → Bytes
encode_response r =
    write_u32_le r.r_flags
    ++ (write_u32_le r.max_packet
        ++ (write_u8 r.charset
            ++ (replicate 23 0
                ++ (write_null_str r.username
                    ++ (write_u8 (length r.auth_response)
                        ++ (r.auth_response
                            ++ ((if has_flag r.r_flags connect_with_db
                                  then write_null_str r.database
                                  else [])
                                ++ (if has_flag r.r_flags plugin_auth
                                    then write_null_str (
                                        if is_empty r.auth_plugin
                                        then native_password
                                        else r.auth_plugin)
                                    else []))))))))

-- What `auth_response.assign(begin + pos, begin + pos + len)` does: the bytes, or a range that
-- ends before it begins.
pub data AuthRead : Type 0 where
  auth : Bytes → Bytes → AuthRead
  auth_error : DecodeError → AuthRead
  bad_range : AuthRead

-- `pos + len > payload.size()` in 64 bits.
unfoldable pub assign_auth : ℕ → ℕ → Bytes → AuthRead
assign_auth size len p =
    if exceeds (size - length p) len size
    then auth_error auth_overflow
    else if ltb (length p) len
    then bad_range
    else auth (take len p) (drop len p)

unfoldable pub prefixed_auth : ℕ → Bytes → AuthRead
prefixed_auth size [] = auth_error missing_auth_len
prefixed_auth size (n ∷ p) = assign_auth size n p

unfoldable pub read_auth : ℕ → ℕ → Bytes → AuthRead
unfolding assign_auth prefixed_auth
read_auth flags size p =
    let n = read_lenenc_int p in
    if has_flag flags plugin_auth_lenenc
    then assign_auth size n.0 n.1
    else if has_flag flags secure_connection
    then prefixed_auth size p
    else auth [] p

-- An optional null-terminated string.
abbrev pub opt_str : Bool → Bytes → Bytes × Bytes
opt_str wanted p = if wanted && not (is_empty p) then read_null_str p else ([], p)

-- The outer `none` is an assignment from a bad range.
unfoldable pub finish_response :
    ℕ → ℕ → ℕ → Bytes → AuthRead → Option (Result HandshakeResponse41 DecodeError)
finish_response flags mp cs user bad_range = none
finish_response flags mp cs user (auth_error e) = some (err e)
finish_response flags mp cs user (auth a p) =
    let db = opt_str (has_flag flags connect_with_db) p in
    let plugin = opt_str (has_flag flags plugin_auth) db.1 in
    some (
      ok (record {
        r_flags = flags;
        max_packet = mp;
        charset = cs;
        username = user;
        auth_response = a;
        database = db.0;
        auth_plugin = plugin.0;
      }))

unfoldable pub decode_response : Bytes → Option (Result HandshakeResponse41 DecodeError)
unfolding finish_response
decode_response payload =
    let flags = read_u32_le payload in
    let p = drop 32 payload in
    let user = read_null_str p in
    if ltb (length payload) 32
    then some (err too_short)
    else if is_empty p
    then some (err truncated_response)
    else finish_response flags (read_u32_le (drop 4 payload)) (get_or payload 8 0) user.0
        (read_auth flags (length payload) user.1)

-- Byte by byte, as long as both last.
unfoldable pub xor_bytes : Bytes → Bytes → Bytes
xor_bytes [] bs = []
xor_bytes (a ∷ as') [] = []
xor_bytes (a ∷ as') (b ∷ bs) = bit_xor a b ∷ xor_bytes as' bs

abbrev pub all_zero : Bytes → Bool
all_zero [] = true
all_zero (b ∷ bs) = b == 0 && all_zero bs

module _ (sha1 : Bytes → Bytes) where
  -- `native_hashes`: h1 and h3.
  unfoldable pub native_hashes : Bytes → Bytes → Bytes × Bytes
  native_hashes pwd salt = let h1 = sha1 pwd in (h1, sha1 (salt ++ sha1 h1))

  unfoldable pub verify_native_password : Bytes → Bytes → Bytes → Bool
  unfolding native_hashes xor_bytes
  verify_native_password pwd salt response =
      let h = native_hashes pwd salt in
      if not (length response == 20)
      then false
      else if is_empty pwd
      then all_zero response
      else bytes_eq (xor_bytes response h.1) h.0

  unfoldable pub scramble_native_password : Bytes → Bytes → Bytes
  unfolding native_hashes xor_bytes
  scramble_native_password pwd salt =
      let h = native_hashes pwd salt in if is_empty pwd then [] else xor_bytes h.0 h.1
