-- ===== src/Text.antt =====
-- Go's strings as the lists of their code points, and the functions of `strings` and `strconv` that
-- the program calls. Case mapping is that of ASCII, which holds every text that the program knows.
pub mod Laws
pub mod Decimal
use Prim.Native.Char.{code}
use cloud_run_tcpdump.Prelude.{
  ℕ, ◌+◌, ◌-◌, ◌*◌, String, Bool, true, false, ◌&&◌, ◌||◌, List, [], ◌∷◌, ◌++◌, map, ltb, leb, ◌==◌,
  if◌then◌else◌,
}

abbrev pub Text : Type 0
Text = List ℕ

abbrev pub codes : String → Text
codes String.[] = []
codes (String.◌∷◌ c s) = code c ∷ codes s

unfoldable pub text_eq : Text → Text → Bool
text_eq [] [] = true
text_eq [] (d ∷ t) = false
text_eq (c ∷ s) [] = false
text_eq (c ∷ s) (d ∷ t) = c == d && text_eq s t

-- Membership in a list of texts.
unfoldable pub contains : List Text → Text → Bool
contains [] t = false
contains (s ∷ ss) t = text_eq s t || contains ss t

unfoldable pub lower : ℕ → ℕ
lower c = if leb b'A' c && leb c b'Z' then c + 32 else c

unfoldable pub upper : ℕ → ℕ
upper c = if leb b'a' c && leb c b'z' then c - 32 else c

-- `strings.ToLower`, `strings.ToUpper`
unfoldable pub to_lower : Text → Text
to_lower = map lower

unfoldable pub to_upper : Text → Text
to_upper = map upper

-- `strings.EqualFold`
unfoldable pub equal_fold : Text → Text → Bool
equal_fold s t = text_eq (to_lower s) (to_lower t)

abbrev pub comma : ℕ
comma = b','

unfoldable pub push : ℕ → List Text → List Text
push c [] = (c ∷ []) ∷ []
push c (p ∷ ps) = (c ∷ p) ∷ ps

-- `strings.Split` at a separator of one character: always at least one part.
unfoldable pub split : Text → ℕ → List Text
split [] sep = [] ∷ []
split (c ∷ s) sep = let rest = split s sep in if c == sep then [] ∷ rest else push c rest

-- `strings.Join`
unfoldable pub join : List Text → Text → Text
join [] sep = []
join (p ∷ []) sep = p
join (p ∷ q ∷ ps) sep = p ++ (sep ++ join (q ∷ ps) sep)

-- What `strconv.ParseUint(s, 10, bits)` returns: a value, or an error with the value beside it,
-- which is 0 for a syntax error and the greatest one for a value out of range.
pub data Parsed : Type 0 where
  parsed : ℕ → Parsed
  syntax_error : Parsed
  range_error : ℕ → Parsed

abbrev pub value : Parsed → ℕ
value (parsed n) = n
value syntax_error = 0
value (range_error n) = n

abbrev pub failed : Parsed → Bool
failed (parsed n) = false
failed syntax_error = true
failed (range_error n) = true

unfoldable pub is_digit : ℕ → Bool
is_digit c = leb b'0' c && leb c b'9'

unfoldable pub parse_loop : ℕ → Text → ℕ → Parsed
parse_loop max [] n = parsed n
parse_loop max (c ∷ s) n =
    let m = n * 10 + (c - b'0') in
    let rest = parse_loop max s m in
    if is_digit c then if ltb max m then range_error max else rest else syntax_error

-- `max` is the greatest value of the width: `2 ^ 16 - 1` for `ParseUint(s, 10, 16)`. It is below
-- the
-- range of `uint64`, so the running value never wraps.
unfoldable pub parse_uint : ℕ → Text → Parsed
parse_uint max [] = syntax_error
parse_uint max (c ∷ s) = parse_loop max (c ∷ s) 0

abbrev pub max_u16 : ℕ
max_u16 = 65535
