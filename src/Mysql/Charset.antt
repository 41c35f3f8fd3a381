-- ===== src/Mysql/Charset.antt =====
-- mysql/charset.go: the character sets with their default collations, and the numbers of the
-- collations. A map is the list of its entries; no key stands twice.
pub mod Collations
pub mod Names
pub mod Agree
use cm.Common.{ℕ, String, List, [], ◌∷◌}

-- `CharsetIds`
abbrev pub charset_ids : List (String × ℕ)
charset_ids =
    ("big5", 1)
    ∷ ("dec8", 3)
    ∷ ("cp850", 4)
    ∷ ("hp8", 6)
    ∷ ("koi8r", 7)
    ∷ ("latin1", 8)
    ∷ ("latin2", 9)
    ∷ ("swe7", 10)
    ∷ ("ascii", 11)
    ∷ ("ujis", 12)
    ∷ ("sjis", 13)
    ∷ ("hebrew", 16)
    ∷ ("tis620", 18)
    ∷ ("euckr", 19)
    ∷ ("koi8u", 22)
    ∷ ("gb2312", 24)
    ∷ ("greek", 25)
    ∷ ("cp1250", 26)
    ∷ ("gbk", 28)
    ∷ ("latin5", 30)
    ∷ ("armscii8", 32)
    ∷ ("utf8", 33)
    ∷ ("ucs2", 35)
    ∷ ("cp866", 36)
    ∷ ("keybcs2", 37)
    ∷ ("macce", 38)
    ∷ ("macroman", 39)
    ∷ ("cp852", 40)
    ∷ ("latin7", 41)
    ∷ ("utf8mb4", 45)
    ∷ ("cp1251", 51)
    ∷ ("utf16", 54)
    ∷ ("utf16le", 56)
    ∷ ("cp1256", 57)
    ∷ ("cp1257", 59)
    ∷ ("utf32", 60)
    ∷ ("binary", 63)
    ∷ ("geostd8", 92)
    ∷ ("cp932", 95)
    ∷ ("eucjpms", 97)
    ∷ []

-- `Charsets`
abbrev pub charsets : List (String × String)
charsets =
    ("big5", "big5_chinese_ci")
    ∷ ("dec8", "dec8_swedish_ci")
    ∷ ("cp850", "cp850_general_ci")
    ∷ ("hp8", "hp8_english_ci")
    ∷ ("koi8r", "koi8r_general_ci")
    ∷ ("latin1", "latin1_swedish_ci")
    ∷ ("latin2", "latin2_general_ci")
    ∷ ("swe7", "swe7_swedish_ci")
    ∷ ("ascii", "ascii_general_ci")
    ∷ ("ujis", "ujis_japanese_ci")
    ∷ ("sjis", "sjis_japanese_ci")
    ∷ ("hebrew", "hebrew_general_ci")
    ∷ ("tis620", "tis620_thai_ci")
    ∷ ("euckr", "euckr_korean_ci")
    ∷ ("koi8u", "koi8u_general_ci")
    ∷ ("gb2312", "gb2312_chinese_ci")
    ∷ ("greek", "greek_general_ci")
    ∷ ("cp1250", "cp1250_general_ci")
    ∷ ("gbk", "gbk_chinese_ci")
    ∷ ("latin5", "latin5_turkish_ci")
    ∷ ("armscii8", "armscii8_general_ci")
    ∷ ("utf8", "utf8_general_ci")
    ∷ ("ucs2", "ucs2_general_ci")
    ∷ ("cp866", "cp866_general_ci")
    ∷ ("keybcs2", "keybcs2_general_ci")
    ∷ ("macce", "macce_general_ci")
    ∷ ("macroman", "macroman_general_ci")
    ∷ ("cp852", "cp852_general_ci")
    ∷ ("latin7", "latin7_general_ci")
    ∷ ("utf8mb4", "utf8mb4_general_ci")
    ∷ ("cp1251", "cp1251_general_ci")
    ∷ ("utf16", "utf16_general_ci")
    ∷ ("utf16le", "utf16le_general_ci")
    ∷ ("cp1256", "cp1256_general_ci")
    ∷ ("cp1257", "cp1257_general_ci")
    ∷ ("utf32", "utf32_general_ci")
    ∷ ("binary", "binary")
    ∷ ("geostd8", "geostd8_general_ci")
    ∷ ("cp932", "cp932_japanese_ci")
    ∷ ("eucjpms", "eucjpms_japanese_ci")
    ∷ []
