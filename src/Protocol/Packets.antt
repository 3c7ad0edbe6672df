-- ===== src/Protocol/Packets.antt =====
-- protocol/mysql/include/dbmesh/protocol/mysql/packets.h: the packets that the proxy makes.
use dbmesh.Prelude.{
  ℕ, ◌-◌, List, [], ◌∷◌, ◌++◌, Bytes, codes, take, length, replicate, is_empty, if◌then◌else◌,
}
use dbmesh.Protocol.Codec.{write_u8, write_u16_le, write_u32_le, write_lenenc_int, write_lenenc_str}

unfoldable pub make_ok : ℕ → ℕ → ℕ → ℕ → Bytes
make_ok affected_rows last_insert_id status_flags warnings =
    write_u8 0
    ++ (write_lenenc_int affected_rows
        ++ (write_lenenc_int last_insert_id
            ++ (write_u16_le status_flags ++ write_u16_le warnings)))

-- The SQL state, cut or padded with `'0'` to five characters.
abbrev pub padded_state : Bytes → Bytes
padded_state sql_state = take 5 sql_state ++ replicate (5 - length (take 5 sql_state)) b'0'

unfoldable pub make_err : ℕ → Bytes → Bytes → Bytes
make_err error_code sql_state message =
    write_u8 0xFF
    ++ (write_u16_le error_code ++ (write_u8 b'#' ++ (padded_state sql_state ++ message)))

unfoldable pub make_eof : ℕ → ℕ → Bytes
make_eof warnings status_flags =
    write_u8 0xFE ++ (write_u16_le warnings ++ write_u16_le status_flags)

unfoldable pub make_column_count : ℕ → Bytes
make_column_count count = write_lenenc_int count

unfoldable pub make_column_def : Bytes → ℕ → ℕ → ℕ → ℕ → Bytes
make_column_def col_name col_type col_length col_flags col_charset =
    write_lenenc_str (codes "def")
    ++ (write_lenenc_str []
        ++ (write_lenenc_str []
            ++ (write_lenenc_str []
                ++ (write_lenenc_str col_name
                    ++ (write_lenenc_str []
                        ++ (write_u8 0x0C
                            ++ (write_u8 col_charset
                                ++ (write_u8 0
                                    ++ (write_u32_le col_length
                                        ++ (write_u8 col_type
                                            ++ (write_u16_le col_flags
                                                ++ (write_u8 0 ++ write_u16_le 0))))))))))))

-- An empty value is written as NULL.
unfoldable pub make_text_row : List Bytes → Bytes
make_text_row [] = []
make_text_row (v ∷ vs) =
    (if is_empty v then write_u8 0xFB else write_lenenc_str v) ++ make_text_row vs
