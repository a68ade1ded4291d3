-- ===== src/Text.antt =====
-- Rust's text as the source reads it: a `String` is its list of `char`s (code points), its bytes
-- are their UTF-8 encoding, and `trim` and its relatives walk over the `char`s. Messages, which
-- nothing reads again, are native texts.
use Prim.Native.Char.{code}
use Prim.Native.String.{◌++◌ as string_append}
use bhwi_ffi.Prelude.{
  ℕ, zero, suc, ◌+◌, ◌/◌, ◌%◌, String, Bool, false, ◌&&◌, ◌||◌, List, [], ◌∷◌, ◌++◌, ltb, leb, eqb,
  length, if◌then◌else◌,
}

abbrev pub Bytes : Type 0
Bytes = List ℕ

abbrev pub Text : Type 0
Text = List ℕ

-- A literal as the text that it denotes.
abbrev pub chars : String → Text
chars String.[] = []
chars (String.◌∷◌ c s) = code c ∷ chars s

-- `char::encode_utf8`
unfoldable pub encode_utf8 : ℕ → Bytes
encode_utf8 c =
    if ltb c 128
    then c ∷ []
    else if ltb c 2048
    then (192 + c / 64) ∷ (128 + c % 64) ∷ []
    else if ltb c 65536
    then (224 + c / 4096) ∷ (128 + c / 64 % 64) ∷ (128 + c % 64) ∷ []
    else (240 + c / 262144) ∷ (128 + c / 4096 % 64) ∷ (128 + c / 64 % 64) ∷ (128 + c % 64) ∷ []

-- `str::bytes`
unfoldable pub bytes : Text → Bytes
unfolding encode_utf8
bytes [] = []
bytes (c ∷ s) = encode_utf8 c ++ bytes s

-- `str::len` counts bytes.
abbrev pub len : Text → ℕ
len s = length (bytes s)

-- `char::is_control`: the general category Cc.
unfoldable pub is_control : ℕ → Bool
is_control c = ltb c 32 || (leb 127 c && leb c 159)

-- `char::is_whitespace`: the property White_Space.
unfoldable pub is_whitespace : ℕ → Bool
is_whitespace c =
    (leb 9 c && leb c 13)
    || eqb c 32
    || eqb c 133
    || eqb c 160
    || eqb c 5760
    || (leb 8192 c && leb c 8202)
    || eqb c 8232
    || eqb c 8233
    || eqb c 8239
    || eqb c 8287
    || eqb c 12288

-- `trim_start_matches` and `trim_end_matches` at a predicate on `char`s.
unfoldable pub trim_start_by : (ℕ → Bool) → Text → Text
trim_start_by p [] = []
trim_start_by p (c ∷ s) = let rest = trim_start_by p s in if p c then rest else c ∷ s

unfoldable pub trim_end_by : (ℕ → Bool) → Text → Text
trim_end_by p [] = []
trim_end_by p (c ∷ s) = cut c (trim_end_by p s)
  where
    cut : ℕ → Text → Text
    cut d [] = if p d then [] else d ∷ []
    cut d (e ∷ t) = d ∷ e ∷ t

-- `str::trim`
unfoldable pub trim : Text → Text
unfolding trim_start_by trim_end_by is_whitespace
trim s = trim_end_by is_whitespace (trim_start_by is_whitespace s)

-- `starts_with` and `ends_with` at a `char`.
abbrev pub starts_with : ℕ → Text → Bool
starts_with c [] = false
starts_with c (d ∷ s) = eqb d c

abbrev pub ends_with : ℕ → Text → Bool
ends_with c [] = false
ends_with c (d ∷ []) = eqb d c
ends_with c (d ∷ e ∷ s) = ends_with c (e ∷ s)

-- `Display` of an integer type: the decimal digits, with a sign below zero.
show_digits : ℕ → ℕ → String → String
show_digits zero n acc = acc
show_digits (suc fuel) n acc =
    let acc' = String.◌∷◌ (digit (n % 10)) acc in
    let rest = show_digits fuel (n / 10) acc' in if ltb n 10 then acc' else rest
  where
    digit : ℕ → Prim.Native.Char.Char
    digit d =
        if eqb d 0
        then "0"
        else if eqb d 1
        then "1"
        else if eqb d 2
        then "2"
        else if eqb d 3
        then "3"
        else if eqb d 4
        then "4"
        else if eqb d 5
        then "5"
        else if eqb d 6
        then "6"
        else if eqb d 7
        then "7"
        else if eqb d 8
        then "8"
        else "9"

-- A signed integer; `negsuc n` is -(n + 1).
pub data ℤ : Type 0 where
  pos : ℕ → ℤ
  negsuc : ℕ → ℤ

unfoldable pub show_int : ℤ → String
unfolding show_digits
show_int (pos n) = show_digits (suc n) n ""
show_int (negsuc n) = string_append "-" (show_digits (suc (suc n)) (suc n) "")

-- `format!`
unfoldable pub concat : String → String → String
concat a b = string_append a b
