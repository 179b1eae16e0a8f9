-- ===== src/Text.antt =====
-- The `str` methods that the engine uses. A text is the list of its code points.
pub mod Laws
pub mod Ip
pub mod Case
use Prim.Native.Char.{code}
use Prim.Native.String.{String}
use sippin_soda.Base.{
  ℕ, zero, suc, ◌+◌, ◌-◌, ◌*◌, ◌/◌, ◌%◌, ◌^◌, Bool, true, false, ◌&&◌, ◌||◌, Option, none, some,
  List, [], ◌∷◌, ◌++◌, map, reverse, ltb, leb, ◌==◌, if◌then◌else◌, any, all,
}

abbrev pub Text : Type 0
Text = List ℕ

-- A literal.
abbrev pub text : String → Text
text String.[] = []
text (String.◌∷◌ c s) = code c ∷ text s

-- `char::len_utf8`.
abbrev pub len_utf8 : ℕ → ℕ
len_utf8 c = if ltb c 0x80 then 1 else if ltb c 0x800 then 2 else if ltb c 0x10000 then 3 else 4

-- `str::len`, in bytes.
unfoldable pub len : Text → ℕ
len [] = 0
len (c ∷ t) = len_utf8 c + len t

-- `char::is_whitespace`: the code points of Unicode's White_Space.
unfoldable pub is_whitespace : ℕ → Bool
is_whitespace c =
    (leb 9 c && leb c 13)
    || (c == 32)
    || (c == 0x85)
    || (c == 0xA0)
    || (c == 0x1680)
    || (leb 0x2000 c && leb c 0x200A)
    || (c == 0x2028)
    || (c == 0x2029)
    || (c == 0x202F)
    || (c == 0x205F)
    || (c == 0x3000)

abbrev pub is_empty : Text → Bool
is_empty [] = true
is_empty (c ∷ t) = false

abbrev pub is_ascii : Text → Bool
is_ascii t = all (λ c. ltb c 128) t

abbrev pub lower : ℕ → ℕ
lower c = if leb b'A' c && leb c b'Z' then c + 32 else c

abbrev pub to_ascii_lowercase : Text → Text
to_ascii_lowercase t = map lower t

abbrev pub is_ascii_uppercase : ℕ → Bool
is_ascii_uppercase c = leb b'A' c && leb c b'Z'

abbrev pub is_ascii_alphanumeric : ℕ → Bool
is_ascii_alphanumeric c =
    (leb b'0' c && leb c b'9') || (leb b'A' c && leb c b'Z') || (leb b'a' c && leb c b'z')

-- Drops the leading code points that pass the test.
unfoldable pub drop_while : (ℕ → Bool) → Text → Text
drop_while test [] = []
drop_while test (c ∷ t) = if test c then drop_while test t else c ∷ t

abbrev pub trim_start_matches : (ℕ → Bool) → Text → Text
trim_start_matches test t = drop_while test t

abbrev pub trim_end_matches : (ℕ → Bool) → Text → Text
trim_end_matches test t = reverse (drop_while test (reverse t))

unfoldable pub trim : Text → Text
unfolding is_whitespace
trim t = trim_end_matches is_whitespace (trim_start_matches is_whitespace t)

-- `==`.
unfoldable pub text_eq : Text → Text → Bool
text_eq [] [] = true
text_eq [] (d ∷ u) = false
text_eq (c ∷ t) [] = false
text_eq (c ∷ t) (d ∷ u) = c == d && text_eq t u

abbrev pub eq_ignore_ascii_case : Text → Text → Bool
eq_ignore_ascii_case t u = text_eq (to_ascii_lowercase t) (to_ascii_lowercase u)

unfoldable pub strip_prefix : Text → Text → Option Text
strip_prefix t [] = some t
strip_prefix [] (p ∷ ps) = none
strip_prefix (c ∷ t) (p ∷ ps) = if c == p then strip_prefix t ps else none

unfoldable pub strip_suffix : Text → Text → Option Text
unfolding strip_prefix
strip_suffix t s = elim (strip_prefix (reverse t) (reverse s)) [
  | none ↦ none
  | some rest ↦ some (reverse rest)
]

unfoldable pub starts_with : Text → Text → Bool
starts_with t [] = true
starts_with [] (p ∷ ps) = false
starts_with (c ∷ t) (p ∷ ps) = c == p && starts_with t ps

unfoldable pub ends_with : Text → Text → Bool
unfolding text_eq
ends_with [] s = text_eq [] s
ends_with (c ∷ t) s = text_eq (c ∷ t) s || ends_with t s

abbrev pub contains : Text → ℕ → Bool
contains t c = any (λ d. d == c) t

-- Puts a code point before the first part.
abbrev pub grow : ℕ → List Text → List Text
grow c [] = (c ∷ []) ∷ []
grow c (p ∷ ps) = (c ∷ p) ∷ ps

-- `str::split(separator)`: always at least one part.
unfoldable pub split : ℕ → Text → List Text
split s [] = [] ∷ []
split s (c ∷ t) = if c == s then [] ∷ split s t else grow c (split s t)

-- `str::parse::<usize>()`: an optional "+", then digits only, below 2^64.
unfoldable pub parse_digits : ℕ → Text → Option ℕ
parse_digits value [] = some value
parse_digits value (c ∷ t) =
    let next : ℕ = value * 10 + (c - b'0') in
    let rest = parse_digits next t in
    if leb b'0' c && leb c b'9' && ltb next (2 ^ 64) then rest else none

abbrev parse_unsigned : Text → Option ℕ
parse_unsigned [] = none
parse_unsigned (c ∷ t) = parse_digits 0 (c ∷ t)

unfoldable pub parse_usize : Text → Option ℕ
unfolding parse_digits
parse_usize [] = none
parse_usize (c ∷ t) = if c == b'+' then parse_unsigned t else parse_unsigned (c ∷ t)

-- A number in decimal: `fuel` digits at most, and every number has fewer than its value + 1.
unfoldable pub decimal_digits : ℕ → ℕ → Text
decimal_digits zero n = []
decimal_digits (suc fuel) n =
    let front = decimal_digits fuel (n / 10) in
    if ltb n 10 then (b'0' + n) ∷ [] else front ++ (b'0' + n % 10) ∷ []

unfoldable pub decimal : ℕ → Text
unfolding decimal_digits
decimal n = decimal_digits (suc n) n

-- Opens every method above for a test by computation.
unfoldable pub methods : Unit {0}
unfolding len is_whitespace drop_while trim text_eq strip_prefix strip_suffix starts_with ends_with
    split any all decimal parse_usize
methods = tt
