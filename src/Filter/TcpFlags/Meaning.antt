-- ===== src/Filter/TcpFlags/Meaning.antt =====
-- Which segments the test of bits for IPv6 lets through.
use Prim.Native.Nat.{bit_and, bit_or, ◌/◌, max}
use native.Mathlib.Nat.{pow-suc}
use mathlib.Core.Path.{subst}
use cloud_run_tcpdump.Prelude.{
  leb, ◌==◌, if◌then◌else◌, all, ℕ, zero, suc, ◌+◌, ◌-◌, ◌*◌, ◌%◌, ◌^◌, ◌≤◌, ◌<◌, ◌≡◌, ap, ◌∙◌,
  Bool, ◌&&◌, some, List, [], ◌∷◌, ◌++◌, append_assoc, arith,
}
use cloud_run_tcpdump.Text.{Text, codes, to_upper, join}
use cloud_run_tcpdump.Ext.{StringFormatter, IsPositional, Mapset, IsMapset, Pcap}
use cloud_run_tcpdump.Filter.Compat.{Call}
use cloud_run_tcpdump.Filter.TcpFlags.{hex_digit, format_hex, get}
use cloud_run_tcpdump.Filter.TcpFlags.Masks.{
  bit_and_half, bit_and_zero, bit_or_half, bit_and-bit_or,
}
use cloud_run_tcpdump.Filter.TcpFlags.Kept.{bits_of, or_all}
use cloud_run_tcpdump.Filter.TcpFlags.Written.{parts, IsFlagFilter, get-IsFlagFilter, all-of_same}

bit_and-zero_within : (k m : ℕ) → m ≤ k → bit_and m 0 ≡ 0
bit_and-zero_within k zero h = bit_and_zero 0
bit_and-zero_within zero (suc m) h = absurd (omega arith)
bit_and-zero_within (suc k) (suc m) h =
    ground (arith, bit_and_half m 0, bit_and-zero_within k (suc m / 2) (omega arith))

bit_or-lt : (k a b : ℕ) → a < 2 ^ k → b < 2 ^ k → bit_or a b < 2 ^ k
bit_or-lt zero a b p q = ground (arith, bit_or_half a b)
bit_or-lt (suc k) a b p q =
    let e = pow-suc 2 k in
    let lower = bit_or-lt k (a / 2) (b / 2) (omega arith) (omega arith) in
    let small : max (a % 2) (b % 2) < 2 = ground arith in omega (arith, bit_or_half a b)

-- The value of a hexadecimal digit, and of a text of them.
abbrev pub digit_value : ℕ → ℕ
digit_value c = if leb b'a' c then c - b'a' + 10 else c - b'0'

abbrev pub hex_value : ℕ → Text → ℕ
hex_value n [] = n
hex_value n (c ∷ t) = hex_value (n * 16 + digit_value c) t

digit_value-hex_digit : (d : ℕ) → d < 16 → digit_value (hex_digit d) ≡ d
unfolding hex_digit
digit_value-hex_digit d h = ground arith

hex_value-format_hex : (n : ℕ) → n < 256 → hex_value 0 (format_hex n) ≡ n
unfolding format_hex
hex_value-format_hex n h = ground (
  arith,
  digit_value-hex_digit n,
  digit_value-hex_digit (n / 16) (omega arith),
  digit_value-hex_digit (n % 16) (omega arith),
)

module _ (C : Pcap) where
  -- The segment with these flags has none of the flag's bits.
  abbrev pub misses : ℕ → Text → Bool
  misses segment flag = bit_and segment (bits_of C flag) == 0

  bit_and-or_all :
      (segment bits : ℕ) (flags : List Text)
      → (bit_and segment (or_all C bits flags) == 0)
        ≡ (bit_and segment bits == 0 && all (misses segment) flags)
  unfolding or_all
  bit_and-or_all segment bits [] = ground arith
  bit_and-or_all segment bits (f ∷ flags) = ground (
    arith,
    bit_and-or_all segment (if bits_of C f == 0 then bits else bit_or bits (bits_of C f)) flags,
    bit_and-bit_or segment bits (bits_of C f),
    bit_and-zero_within segment segment (omega arith),
  )

  or_all-lt :
      (bits : ℕ) (flags : List Text)
      → ((t : Text) → C.tcp_flag_to_uint8 t < 256)
      → bits < 256
      → or_all C bits flags < 256
  unfolding or_all
  or_all-lt bits [] fits h = h
  or_all-lt bits (f ∷ flags) fits h =
      or_all-lt (if bits_of C f == 0 then bits else bit_or bits (bits_of C f)) flags fits
        (ground (arith, bit_or-lt 8 bits (bits_of C f) h (fits (to_upper f))))

module _ (F : StringFormatter) (P : IsPositional F) (S : Mapset) (L : IsMapset S) (C : Pcap)
    (fits : (t : Text) → C.tcp_flag_to_uint8 t < 256) (raw : Text) (calls : List Call) where
  -- A filter that `Get` returns ends in a test of a mask, written in hexadecimal, for IPv6. The mask
  -- lets through exactly the segments that have a bit of one of the flags in the raw filter: any one
  -- of them is enough.
  pub get-misses :
      (t : Text)
      → (get F S C raw calls).0 ≡ some t
      → (ipv4 : Text) × (hex : Text) × (t
          ≡ ipv4 ++ (codes " or (ip6[13+40]&0x" ++ (hex ++ codes "!=0)")))
        × ((segment : ℕ)
            → (bit_and segment (hex_value 0 hex) == 0) ≡ all (misses C segment) (parts raw))
  get-misses t e =
      let (text, some_bits) = subst (IsFlagFilter C raw) e (get-IsFlagFilter F P S L C raw calls) in
      let mask = or_all C 0 text.order in
      let read = hex_value-format_hex mask (or_all-lt C 0 text.order fits (omega arith)) in
      (
        codes "(tcp[tcpflags]&(tcp-" ++ (join text.entries (codes "|tcp-") ++ codes ")!=0)"),
        format_hex mask,
        text.text_lem ∙ simp append_assoc,
        λ segment.
            ap (λ n. bit_and segment n == 0) read
            ∙ bit_and-or_all C segment 0 text.order
            ∙ rw (bit_and-zero_within segment segment (omega arith))
                (all-of_same (misses C segment) text.order (parts raw) text.order_exact),
      )
