-- ===== src/Ext.antt =====
-- What the program calls and this repository does not hold: the text formatter, the set type, the
-- packet capture library's constants, and Go's `net/netip`. Each is a record of operations; what
-- the program relies on is a second record, a hypothesis of the theorems that need it.
use cloud_run_tcpdump.Prelude.{
  [], ◌==◌, ltb, leb, length, is_nil, all, ℕ, zero, suc, ◌+◌, ◌<◌, ◌≡◌, Bool, true, not, ◌&&◌, ◌||◌,
  Option, List, ◌∷◌, ◌++◌,
}
use cloud_run_tcpdump.Text.{Text, text_eq, contains}
pub mod Laws
pub mod Models

-- No text stands twice in the list.
unfoldable pub distinct : List Text → Bool
distinct [] = true
distinct (t ∷ ts) = not (contains ts t) && distinct ts

-- `stringFormatter.Format(template, args...)` of github.com/wissance/stringFormatter.
pub record StringFormatter : Type 0 where
  pub format : Text → List Text → Text

pub data Piece : Type 0 where
  lit : Text → Piece
  arg : ℕ → Piece

-- The argument at a position; the empty text past the end is never asked for.
abbrev pub nth : List Text → ℕ → Text
nth [] i = []
nth (t ∷ ts) zero = t
nth (t ∷ ts) (suc i) = nth ts i

-- The template that is written for some pieces, `{i}` for an argument, and what they stand for.
abbrev pub template : List Piece → Text
template [] = []
template (lit t ∷ ps) = t ++ template ps
template (arg i ∷ ps) = b'{' ∷ (b'0' + i) ∷ b'}' ∷ template ps

abbrev pub fill : List Piece → List Text → Text
fill [] args = []
fill (lit t ∷ ps) args = t ++ fill ps args
fill (arg i ∷ ps) args = nth args i ++ fill ps args

abbrev pub no_braces : Text → Bool
no_braces = all (λ c. not (c == b'{') && not (c == b'}'))

-- The pieces of a template for a number of arguments, at most ten: a text has no braces, and an index
-- is below that number.
abbrev pub plain : ℕ → List Piece → Bool
plain n [] = leb n 10
plain n (lit t ∷ ps) = no_braces t && plain n ps
plain n (arg i ∷ ps) = ltb i n && plain n ps

-- Each `{i}` of the template is replaced by the argument at that position, and nothing else.
pub record IsPositional (F : StringFormatter) : Type 0 where
  pub format-template :
      (ps : List Piece) (args : List Text)
      → plain (length args) ps ≡ true
      → F.format (template ps) args ≡ fill ps args

-- `mapset.NewThreadUnsafeSet[string]` of github.com/deckarep/golang-set/v2. Go leaves the order of
-- a set's elements open: `to_slice` and `each_order` are any functions that list them.
pub record Mapset : Type 1 where
  pub State : Type 0
  pub new : List Text → State
  pub add : Text → State → State
  pub append : List Text → State → State
  pub remove : Text → State → State
  pub is_empty : State → Bool
  pub to_slice : State → List Text
  pub each_order : State → List Text

pub record IsMapset (S : Mapset) : Type 0 where
  pub contains-new :
      (ts : List Text) (t : Text) → contains (S.to_slice (S.new ts)) t ≡ contains ts t
  pub contains-add :
      (u : Text) (s : S.State) (t : Text)
      → contains (S.to_slice (S.add u s)) t ≡ (text_eq u t || contains (S.to_slice s) t)
  pub contains-append :
      (us : List Text) (s : S.State) (t : Text)
      → contains (S.to_slice (S.append us s)) t ≡ (contains us t || contains (S.to_slice s) t)
  pub contains-remove :
      (u : Text) (s : S.State) (t : Text)
      → contains (S.to_slice (S.remove u s)) t ≡ (not (text_eq u t) && contains (S.to_slice s) t)
  pub is_empty_lem : (s : S.State) → S.is_empty s ≡ is_nil (S.to_slice s)
  pub to_slice-distinct : (s : S.State) → distinct (S.to_slice s) ≡ true
  pub contains-each_order :
      (s : S.State) (t : Text) → contains (S.each_order s) t ≡ contains (S.to_slice s) t

-- The names of github.com/gchux/pcap-cli that the program reads: `PcapDefaultFilter`,
-- `PCAP_MIN_EPHEMERAL_PORT`, `PCAP_MAX_EPHEMERAL_PORT` and `TCPFlag.ToUint8`.
pub record Pcap : Type 0 where
  pub default_filter : Text
  pub min_ephemeral_port : ℕ
  pub max_ephemeral_port : ℕ
  pub tcp_flag_to_uint8 : Text → ℕ

-- The two ports are of type `uint16`.
pub record IsPcap (P : Pcap) : Type 0 where
  pub min_ephemeral_port-lt : P.min_ephemeral_port < 65536
  pub max_ephemeral_port-lt : P.max_ephemeral_port < 65536

-- Addresses and prefixes of `net/netip`, and `Resolver.LookupHost` of `net`; `none` is an error.
pub record Netip : Type 1 where
  pub Addr : Type 0
  pub Prefix : Type 0
  pub parse_addr : Text → Option Addr
  pub addr_string : Addr → Text
  pub is4 : Addr → Bool
  pub is6 : Addr → Bool
  pub parse_prefix : Text → Option Prefix
  pub prefix_string : Prefix → Text
  pub is_valid : Prefix → Bool
  pub prefix_addr : Prefix → Addr
  pub has_addr : Prefix → Addr → Bool
  pub lookup_host : Text → Option (List Text)
