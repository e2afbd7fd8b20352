-- ===== src/Text/Decimal.antt =====
-- `%d` of `fmt` for a number that is not negative: its decimal digits. The fuel is the number plus
-- one; every round divides the number by ten.
use cloud_run_tcpdump.Prelude.{
  ltb, if◌then◌else◌, Bool-cases, is_nil, all, all-append, ℕ, zero, suc, ◌+◌, ◌-◌, ◌*◌, ◌%◌, ◌≤◌,
  ◌<◌, ◌≡◌, refl, sym, ap, ◌∙◌, inl, inr, true, false, [], ◌∷◌, ◌++◌, append_assoc, append-nil,
  arith,
}
use cloud_run_tcpdump.Text.{Text, parsed, parse_uint}
use Prim.Native.Nat.{◌/◌}
use cloud_run_tcpdump.Text.{is_digit, parse_loop}

unfoldable pub digits : ℕ → ℕ → Text
digits zero n = []
digits (suc fuel) n =
    let higher = digits fuel (n / 10) in
    let last = (b'0' + n % 10) ∷ [] in if ltb n 10 then last else higher ++ last

unfoldable pub decimal : ℕ → Text
decimal n = digits (n + 1) n

digits-is_digit : (fuel n : ℕ) → all is_digit (digits fuel n) ≡ true
unfolding digits is_digit
digits-is_digit zero n = refl
digits-is_digit (suc fuel) n = ground (
  arith,
  digits-is_digit fuel (n / 10),
  all-append is_digit (digits fuel (n / 10)) ((b'0' + n % 10) ∷ []),
)

-- A number is written with digits only, and with one at least.
pub decimal-is_digit : (n : ℕ) → all is_digit (decimal n) ≡ true
unfolding decimal
decimal-is_digit n = digits-is_digit (n + 1) n

is_nil-snoc : (s : Text) (c : ℕ) → is_nil (s ++ (c ∷ [])) ≡ false
is_nil-snoc [] c = refl
is_nil-snoc (d ∷ s) c = refl

digits-ne-nil : (fuel n : ℕ) → is_nil (digits (suc fuel) n) ≡ false
unfolding digits
digits-ne-nil fuel n = ground (arith, is_nil-snoc (digits fuel (n / 10)) (b'0' + n % 10))

pub decimal-ne-nil : (n : ℕ) → is_nil (decimal n) ≡ false
unfolding decimal
decimal-ne-nil n = let e : n + 1 ≡ suc n = omega arith in rw e (digits-ne-nil n n)

parse_loop_digit :
    (max m d : ℕ) (rest : Text)
    → d < 10
    → m * 10 + d ≤ max
    → parse_loop max ((b'0' + d) ∷ rest) m ≡ parse_loop max rest (m * 10 + d)
unfolding parse_loop is_digit
parse_loop_digit max m d rest h k =
    let read : m * 10 + ((b'0' + d) - b'0') ≡ m * 10 + d = omega arith in
    let digit : is_digit (b'0' + d) ≡ true = ground arith in
    let fits : ltb max (m * 10 + d) ≡ false = ground arith in
    rw (parse_loop, digit, read, fits) refl

-- Reading goes on behind the digits, with the number.
parse_loop-digits :
    (max fuel n : ℕ) (rest : Text)
    → n < fuel
    → n ≤ max
    → parse_loop max (digits fuel n ++ rest) 0 ≡ parse_loop max rest n
unfolding digits
parse_loop-digits max zero n rest h k = absurd (omega arith)
parse_loop-digits max (suc fuel) n rest h k = elim (Bool-cases (ltb n 10)) [
  | inl e ↦
      let small : 0 * 10 + n % 10 ≡ n = ground arith in
      rw (digits, e)
        (parse_loop_digit max 0 (n % 10) rest (omega arith) (omega arith)
          ∙ ap (parse_loop max rest) small)
  | inr e ↦
      let last : Text = (b'0' + n % 10) ∷ [] in
      let tenth : n / 10 < fuel = ground arith in
      let whole : n / 10 * 10 + n % 10 ≡ n = omega arith in
      rw (digits, e, append_assoc (digits fuel (n / 10)) last rest)
        (parse_loop-digits max fuel (n / 10) (last ++ rest) tenth (omega arith)
          ∙ parse_loop_digit max (n / 10) (n % 10) rest (omega arith) (omega arith)
          ∙ ap (parse_loop max rest) whole)
]

parse_uint-loop : (max : ℕ) (s : Text) → is_nil s ≡ false → parse_uint max s ≡ parse_loop max s 0
unfolding parse_uint
parse_uint-loop max [] h = absurd (ground arith)
parse_uint-loop max (c ∷ s) h = refl

-- `ParseUint` reads back what `%d` writes, if the number fits the width.
pub parse_uint-decimal : (max n : ℕ) → n ≤ max → parse_uint max (decimal n) ≡ parsed n
unfolding decimal parse_loop
parse_uint-decimal max n h =
    parse_uint-loop max (decimal n) (decimal-ne-nil n)
    ∙ ap (λ s. parse_loop max s 0) (sym (append-nil (digits (n + 1) n)))
    ∙ parse_loop-digits max (n + 1) n [] (omega arith) h
