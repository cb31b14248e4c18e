-- ===== src/Base/Text/Decimal.antt =====
-- `str(n)`, in decimal digits.
use Prim.Native.Nat.{◌*◌, ◌+◌, ◌<◌, ◌≤◌, ℕ, zero, suc, ◌/◌, ◌%◌}
use Prim.Native.String.{String, ◌++◌ as ◌<>◌}
use ggen_igniter.Base.Text.{take_chars, drop_chars, int_from, digit_value}
use Prim.Native.Char.{code}
use text.Mathlib.TextLemmas.{nil-append, cons-append}
use mathlib.Core.Path.{◌≡◌, ap, ◌∙◌}
use mathlib.Core.Logic.{inl, inr}
use native.Mathlib.Omega.{arith}
use ggen_igniter.Base.Tests.{Bool-cases, ltb, if◌then◌else◌}

digit : ℕ → String
unfolding take_chars drop_chars
digit d = take_chars 1 (drop_chars d "0123456789")

-- A number has no more digits than it counts, and one.
decimal_from : ℕ → ℕ → String
unfolding digit
decimal_from zero n = digit (n % 10)
decimal_from (suc fuel) n =
    let before = decimal_from fuel (n / 10) in
    if ltb n 10 then digit (n % 10) else before <> digit (n % 10)

unfoldable pub decimal : ℕ → String
unfolding decimal_from
decimal n = decimal_from n n

int_from-append : (n : ℕ) (s t : String) → int_from n (s <> t) ≡ int_from (int_from n s) t
unfolding int_from
int_from-append n String.[] t = ap (int_from n) (nil-append t)
int_from-append n (String.◌∷◌ c s) t =
    ap (int_from n) (cons-append c s t) ∙ int_from-append (digit_value n (code c)) s t

int_from-digit : (n d : ℕ) → d < 10 → int_from n (digit d) ≡ n * 10 + d
unfolding int_from digit digit_value take_chars drop_chars
int_from-digit n zero h = omega arith
int_from-digit n (suc zero) h = omega arith
int_from-digit n (suc (suc zero)) h = omega arith
int_from-digit n (suc (suc (suc zero))) h = omega arith
int_from-digit n (suc (suc (suc (suc zero)))) h = omega arith
int_from-digit n (suc (suc (suc (suc (suc zero))))) h = omega arith
int_from-digit n (suc (suc (suc (suc (suc (suc zero)))))) h = omega arith
int_from-digit n (suc (suc (suc (suc (suc (suc (suc zero))))))) h = omega arith
int_from-digit n (suc (suc (suc (suc (suc (suc (suc (suc zero)))))))) h = omega arith
int_from-digit n (suc (suc (suc (suc (suc (suc (suc (suc (suc zero))))))))) h = omega arith
int_from-digit n (suc (suc (suc (suc (suc (suc (suc (suc (suc (suc d)))))))))) h =
    absurd (omega (arith, h))

decimal_from-lem : (fuel n : ℕ) → n ≤ fuel → int_from 0 (decimal_from fuel n) ≡ n
unfolding decimal_from
decimal_from-lem zero n h = int_from-digit 0 (n % 10) (omega arith) ∙ omega (arith, h)
decimal_from-lem (suc fuel) n h = elim (Bool-cases (ltb n 10)) [
  | inl p ↦ rw (decimal_from, p) (int_from-digit 0 (n % 10) (omega arith) ∙ ground (arith, p))
  | inr p ↦
      rw (decimal_from, p)
        (int_from-append 0 (decimal_from fuel (n / 10)) (digit (n % 10))
          ∙ (ap (λ m. int_from m (digit (n % 10)))
                (decimal_from-lem fuel (n / 10) (ground (arith, h, p)))
              ∙ (int_from-digit (n / 10) (n % 10) (omega arith) ∙ omega arith)))
]

-- The digits of a number read back as the number.
pub int_from-decimal : (n : ℕ) → int_from 0 (decimal n) ≡ n
unfolding decimal
int_from-decimal n = decimal_from-lem n n (omega arith)
