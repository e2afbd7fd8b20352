-- ===== src/PcapFsn/FileName/Written.antt =====
-- The names that tcpdumpw/main.go gives to PCAP files (`runFileOutput`), read back by the pattern.
use cloud_run_tcpdump.Prelude.{
  [], ◌==◌, is_nil, all, ℕ, ◌≡◌, refl, Bool, true, false, not, ◌&&◌, none, some, List, ◌∷◌, ◌++◌,
  arith,
}
use cloud_run_tcpdump.Text.{Text, codes, contains}
use cloud_run_tcpdump.Text.{is_digit}
use cloud_run_tcpdump.PcapFsn.FileName.{
  strip_prefix, read_index, is, strip_shape, read_tail, read_iface, find_submatch,
}

-- `%Y%m%dT%H%M%S`
abbrev pub date_shape : List (ℕ → Bool)
date_shape =
    is_digit
    ∷ is_digit
    ∷ is_digit
    ∷ is_digit
    ∷ is_digit
    ∷ is_digit
    ∷ is_digit
    ∷ is_digit
    ∷ is b'T'
    ∷ is_digit
    ∷ is_digit
    ∷ is_digit
    ∷ is_digit
    ∷ is_digit
    ∷ is_digit
    ∷ []

-- `fmt.Sprintf(runFileOutput, directory, index, name)` with the index as its digits, where a date
-- stands for the directives of the pattern, and the extension behind a dot.
unfoldable pub file_name : Text → Text → Text → Text → Text → Text
file_name dir index iface date ext =
    (dir ++ codes "/part__")
    ++ (index ++ (codes "_" ++ (iface ++ (codes "__" ++ (date ++ (codes "." ++ ext))))))

-- The characters of the name of an interface: no underscore and no line feed.
abbrev pub is_plain : ℕ → Bool
is_plain c = not (c == b'_') && not (c == 10)

strip_prefix-append : (p t : Text) → strip_prefix p (p ++ t) ≡ some t
unfolding strip_prefix
strip_prefix-append [] t = refl
strip_prefix-append (c ∷ p) t = ground (arith, strip_prefix-append p t)

read_index-append :
    (ds t : Text) → all is_digit ds ≡ true → read_index (ds ++ (b'_' ∷ t)) ≡ some (ds, t)
unfolding read_index is_digit
read_index-append [] t h = refl
read_index-append (d ∷ ds) t h =
    let digit : is_digit d ≡ true = ground arith in
    let more : all is_digit ds ≡ true = ground arith in rw (read_index-append ds t more, digit) refl

strip_shape-append :
    (ps qs : List (ℕ → Bool)) (t u : Text)
    → strip_shape ps t ≡ some []
    → strip_shape (ps ++ qs) (t ++ u) ≡ strip_shape qs u
unfolding strip_shape
strip_shape-append [] qs t u h = ground arith
strip_shape-append (p ∷ ps) qs [] u h = absurd (ground arith)
strip_shape-append (p ∷ ps) qs (c ∷ t) u h = ground (arith, strip_shape-append ps qs t u)

module _ (exts : List Text) (date ext : Text) (dated : strip_shape date_shape date ≡ some [])
    (known : contains exts ext ≡ true) where
  abbrev tail : Text
  tail = codes "__" ++ (date ++ (codes "." ++ ext))

  read_tail-tail : read_tail exts tail ≡ some ext
  unfolding read_tail strip_shape
  read_tail-tail =
      rw
        (
          read_tail,
          strip_shape-append date_shape (is b'.' ∷ []) date (codes "." ++ ext) dated,
          known,
        )
        refl

  read_tail-plain : (c : ℕ) (t : Text) → is_plain c ≡ true → read_tail exts (c ∷ t) ≡ none
  unfolding read_tail strip_shape
  read_tail-plain c t h =
      let other : (c == b'_') ≡ false = ground arith in rw (read_tail, other) refl

  read_iface-append :
      (c : ℕ) (iface : Text)
      → all is_plain (c ∷ iface) ≡ true
      → read_iface exts ((c ∷ iface) ++ tail) ≡ some (c ∷ iface, ext)
  unfolding read_iface
  read_iface-append c [] h =
      let inline : (c == 10) ≡ false = ground arith in rw (inline, read_tail-tail) refl
  read_iface-append c (d ∷ iface) h =
      let inline : (c == 10) ≡ false = ground arith in
      let more : all is_plain (d ∷ iface) ≡ true = ground arith in
      let plain_d : is_plain d ≡ true = ground arith in
      rw (inline, read_tail-plain d (iface ++ tail) plain_d, read_iface-append d iface more) refl

-- The pattern of the watcher matches the name that `tcpdumpw` gives to a file, and reads the
-- index, the interface and the extension back from it: for an index in digits, an interface
-- whose name is not empty and has no underscore and no line feed, a date of the expected shape,
-- and one of the extensions that are watched.
pub find_submatch-file_name :
    (dir : Text) (exts : List Text) (index iface date ext : Text)
    → all is_digit index ≡ true
    → is_nil index ≡ false
    → all is_plain iface ≡ true
    → is_nil iface ≡ false
    → strip_shape date_shape date ≡ some []
    → contains exts ext ≡ true
    → find_submatch dir exts (file_name dir index iface date ext)
      ≡ some (record { index = index; iface = iface; ext = ext })
unfolding find_submatch file_name
find_submatch-file_name dir exts index [] date ext digits some_digit plain some_char dated known =
    absurd (ground arith)
find_submatch-file_name dir exts index (c ∷ iface) date ext digits some_digit plain some_char dated
      known =
    let rest = (c ∷ iface) ++ (codes "__" ++ (date ++ (codes "." ++ ext))) in
    rw
      (
        find_submatch,
        file_name,
        strip_prefix-append (dir ++ codes "/part__") (index ++ (codes "_" ++ rest)),
        read_index-append index rest digits,
        some_digit,
        read_iface-append exts date ext dated known c iface plain,
      )
      refl
