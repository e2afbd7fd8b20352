-- ===== src/Filter/TcpFlags/Bits.antt =====
-- A bitwise or is zero only of zeros.
use Prim.Native.Nat.{bit_or, bit_or-bitwise, digits, max, ◌/◌}
use cloud_run_tcpdump.Prelude.{◌==◌, Bool-cases, ℕ, zero, suc, ◌+◌, ◌≤◌, ◌<◌, inl, inr, arith}

digits_pos : (n a b : ℕ) → a ≤ n → 0 < a + b → 0 < digits (λ b. b) max n a b
digits_pos zero a b le h = omega arith
digits_pos (suc n) zero b le h = omega arith
digits_pos (suc n) (suc a) b le h = elim (Bool-cases (suc a / 2 + b / 2 == 0)) [
  | inl e ↦ ground arith
  | inr e ↦ omega (arith, digits_pos n (suc a / 2) (b / 2) (omega arith) (ground arith))
]

pub bit_or_pos : (a b : ℕ) → 0 < a + b → 0 < bit_or a b
bit_or_pos a b h = rw (bit_or-bitwise a b) (digits_pos a a b (omega arith) h)
