-- ===== src/PcapFsn/FileName.antt =====
-- The pattern of PCAP file names, `pcapDotExt` in pcap-fsnotify/main.go:
-- `^DIR/part__(\d+?)_(.+?)__\d{8}T\d{6}\.(EXT)$`, where DIR and the alternatives of EXT are read as
-- plain text.
pub mod Written
pub mod Keys
use cloud_run_tcpdump.Prelude.{
  ◌==◌, if◌then◌else◌, is_nil, ℕ, Bool, Option, none, some, List, [], ◌∷◌, ◌++◌,
}
use cloud_run_tcpdump.Text.{Text, codes, contains, join}
use cloud_run_tcpdump.Text.{is_digit}

-- What is left behind a prefix.
unfoldable pub strip_prefix : Text → Text → Option Text
strip_prefix [] t = some t
strip_prefix (p ∷ ps) [] = none
strip_prefix (p ∷ ps) (c ∷ t) = let rest = strip_prefix ps t in if p == c then rest else none

-- `(\d+?)_`: the digits in front of the first other character, which is an underscore, and the
-- rest.
unfoldable pub read_index : Text → Option (Text × Text)
read_index [] = none
read_index (c ∷ t) =
    let rest = read_index t in
    if is_digit c
    then elim rest [ none ↦ none | some (digits, u) ↦ some (c ∷ digits, u) ]
    else if c == b'_'
    then some ([], t)
    else none

-- `\d{8}T\d{6}`, between the two underscores and the dot.
abbrev pub is : ℕ → ℕ → Bool
is d c = c == d

abbrev pub stamp_shape : List (ℕ → Bool)
stamp_shape =
    is b'_'
    ∷ is b'_'
    ∷ is_digit
    ∷ is_digit
    ∷ is_digit
    ∷ is_digit
    ∷ is_digit
    ∷ is_digit
    ∷ is_digit
    ∷ is_digit
    ∷ is b'T'
    ∷ is_digit
    ∷ is_digit
    ∷ is_digit
    ∷ is_digit
    ∷ is_digit
    ∷ is_digit
    ∷ is b'.'
    ∷ []

-- What is left behind a text of this shape.
unfoldable pub strip_shape : List (ℕ → Bool) → Text → Option Text
strip_shape [] t = some t
strip_shape (p ∷ ps) [] = none
strip_shape (p ∷ ps) (c ∷ t) = let rest = strip_shape ps t in if p c then rest else none

-- The end of the pattern: a time stamp and one of the extensions.
unfoldable pub read_tail : List Text → Text → Option Text
read_tail exts t = elim (strip_shape stamp_shape t) [
  | none ↦ none
  | some ext ↦ if contains exts ext then some ext else none
]

-- `(.+?)` and the end of the pattern: the shortest text, with no line feed, behind which it
-- matches.
unfoldable pub read_iface : List Text → Text → Option (Text × Text)
read_iface exts [] = none
read_iface exts (c ∷ t) =
    let longer = read_iface exts t in
    if c == 10 then none else elim (read_tail exts t) [
      | some ext ↦ some (c ∷ [], ext)
      | none ↦ elim longer [ none ↦ none | some (iface, ext) ↦ some (c ∷ iface, ext) ]
    ]

-- The three groups of a match.
pub record Match : Type 0 where
  pub index : Text
  pub iface : Text
  pub ext : Text

-- `pcapDotExt.FindStringSubmatch`
unfoldable pub find_submatch : Text → List Text → Text → Option Match
find_submatch dir exts name = elim (strip_prefix (dir ++ codes "/part__") name) [
  | none ↦ none
  | some t ↦ elim (read_index t) [
    | none ↦ none
    | some (index, u) ↦ if is_nil index then none else elim (read_iface exts u) [
      | none ↦ none
      | some (iface, ext) ↦ some (record { index = index; iface = iface; ext = ext })
    ]
  ]
]

-- `strings.Join(rMatch[1:], "/")`
unfoldable pub key_of : Match → Text
key_of m = join (m.index ∷ m.iface ∷ m.ext ∷ []) (codes "/")
