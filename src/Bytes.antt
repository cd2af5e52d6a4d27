-- ===== src/Bytes.antt =====
-- Bytes as the source reads them through Node's Buffer: UTF-8, lowercase hex, concatenation.
pub mod Utf8
pub mod Hex
use capsules_protocol.Prelude.{
  ltb, leb, ◌==◌, if◌then◌else◌, ==_iff, Bool-cases, Option-cases, &&_both, and_true, Result, ok,
  err, ◌>>=◌, Str, codes, str_eq, str_eq_refl, str_eq_sound, str_eq_iff, contains, all_in, is_digit,
  is_lower, is_upper, is_lower_hex, is_hex, starts_with, lower_code, to_lower, str_compare, length,
  is_nil, All, any, every, keep, length-append, All-append, append-eq-nil, ℕ, zero, suc, ◌+◌, ◌-◌,
  ◌*◌, ◌/◌, ◌%◌, ◌^◌, ◌≤◌, ◌<◌, String, ◌≡◌, refl, sym, ap, ◌∙◌, ◌≢◌, ◌↔◌, ◌⊎◌, inl, inr, Bool,
  true, false, ◌&&◌, ◌||◌, not, Option, none, some, List, [], ◌∷◌, ◌++◌, map, append_assoc,
  append-nil, arith,
}

abbrev pub Bytes : Type 0
Bytes = List ℕ

abbrev pub is_high : ℕ → Bool
is_high c = leb 0xd800 c && leb c 0xdbff

abbrev pub is_low : ℕ → Bool
is_low c = leb 0xdc00 c && leb c 0xdfff

-- U+FFFD, which the encoder writes for an unpaired surrogate.
abbrev pub replacement : Bytes
replacement = 0xef ∷ 0xbf ∷ 0xbd ∷ []

-- A code unit that is no surrogate.
unfoldable pub encode_unit : ℕ → Bytes
encode_unit c =
    if ltb c 0x80
    then c ∷ []
    else if ltb c 0x800
    then (0xc0 + c / 64) ∷ (0x80 + c % 64) ∷ []
    else (0xe0 + c / 4096) ∷ (0x80 + c / 64 % 64) ∷ (0x80 + c % 64) ∷ []

-- A surrogate pair.
unfoldable pub encode_pair : ℕ → ℕ → Bytes
encode_pair h l =
    let cp = 0x10000 + (h - 0xd800) * 1024 + (l - 0xdc00) in
    (0xf0 + cp / 262144) ∷ (0x80 + cp / 4096 % 64) ∷ (0x80 + cp / 64 % 64) ∷ (0x80 + cp % 64) ∷ []

abbrev pub flush : Option ℕ → Bytes
flush none = []
flush (some h) = replacement

-- What is written once `c` follows the high surrogate that is pending, if one is.
unfoldable pub emit : Option ℕ → ℕ → Bytes
emit none c = if is_low c then replacement else if is_high c then [] else encode_unit c
emit (some h) c =
    if is_low c then encode_pair h c else replacement ++ (if is_high c then [] else encode_unit c)

abbrev pub pend : ℕ → Option ℕ
pend c = if is_high c then some c else none

unfoldable pub encode_from : Option ℕ → Str → Bytes
encode_from p [] = flush p
encode_from p (c ∷ s) = emit p c ++ encode_from (pend c) s

-- `Buffer.from(s, "utf8")` and `TextEncoder.encode`.
unfoldable pub utf8 : Str → Bytes
utf8 s = encode_from none s

-- `b.toString("hex")`.
unfoldable pub hex_digit : ℕ → ℕ
hex_digit d = if ltb d 10 then b'0' + d else b'a' + (d - 10)

unfoldable pub to_hex : Bytes → Str
to_hex [] = []
to_hex (b ∷ bs) = hex_digit (b / 16) ∷ hex_digit (b % 16) ∷ to_hex bs

-- `Buffer.from(s, "hex")`, of lowercase digits.
unfoldable pub digit_value : ℕ → ℕ
digit_value c = if ltb c b'a' then c - b'0' else c - b'a' + 10

unfoldable pub from_hex : Str → Bytes
from_hex (c ∷ d ∷ s) = (digit_value c * 16 + digit_value d) ∷ from_hex s
from_hex _ = []

abbrev pub AreBytes : Bytes → Type 0
AreBytes = All (λ b. b < 256)
