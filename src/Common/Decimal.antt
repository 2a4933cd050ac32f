-- ===== src/Common/Decimal.antt =====
-- The decimal print of a number (`%d` of Go's fmt) and the reading of its digits.
use Prim.Native.Char.{Char, char, code, IsScalar}
use Prim.Native.Nat.{ℕ, zero, suc, ◌+◌, ◌*◌, ◌/◌, ◌%◌, ◌≤◌, ◌<◌, compare, Ordering}
use Prim.Native.String.{String}
use mathlib.Core.Path.{◌≡◌, refl, ap, ◌∙◌}
use mathlib.Core.Logic.{inl, inr}
use mathlib.Core.Bool.{true, false}
use native.Mathlib.Omega.{arith}
use log_replicator_raft.Common.Tests.{◌==◌, Bool-cases}

-- The character of a digit.
below_surrogates : (n : ℕ) → n < 55296 → compare n 55296 ≡ Ordering.lt
below_surrogates n h = ground arith

abbrev ascii : (n : ℕ) → n < 55296 → IsScalar n
ascii n h = rw (below_surrogates n h, IsScalar) tt

abbrev digit : ℕ → Char
digit d = char (48 + d % 10) (ascii (48 + d % 10) (omega arith))

code-digit : (d : ℕ) → d < 10 → code (digit d) ≡ 48 + d
code-digit d h = ground arith

-- The digits of a number before a text, none for 0; the number itself is fuel enough.
print : ℕ → ℕ → String → String
print zero n out = out
print (suc fuel) n out = elim (n == 0) [
  | true ↦ out
  | false ↦ print fuel (n / 10) (String.◌∷◌ (digit (n % 10)) out)
]

-- The decimal of a number before a text.
unfoldable pub decimal : ℕ → String → String
unfolding print below_surrogates
decimal n out = elim (n == 0) [ true ↦ String.◌∷◌ (digit 0) out | false ↦ print n n out ]

module _ {ℓ} {A : Type ℓ} (read : ℕ → String → A)
    (one : (n d : ℕ) (c : Char) (out : String)
      → d < 10
      → code c ≡ 48 + d
      → read n (String.◌∷◌ c out) ≡ read (n * 10 + d) out) where
  read-print : (fuel n : ℕ) (out : String) → n ≤ fuel → read 0 (print fuel n out) ≡ read n out
  unfolding print
  read-print zero n out h = ap (λ (m : ℕ). read m out) (omega arith)
  read-print (suc fuel) n out h = elim (Bool-cases (n == 0)) [
    | inl e ↦ rw (e, print) (ap (λ (m : ℕ). read m out) (ground arith))
    | inr e ↦
        let c = digit (n % 10) in
        rw (e, print)
          (read-print fuel (n / 10) (String.◌∷◌ c out) (ground arith)
            ∙ (one (n / 10) (n % 10) c out (omega arith) (code-digit (n % 10) (omega arith))
                ∙ ap (λ (m : ℕ). read m out) (omega arith)))
  ]

  -- A reader that takes a digit at a time reads a decimal as its number.
  pub read-decimal : (n : ℕ) (out : String) → read 0 (decimal n out) ≡ read n out
  unfolding decimal
  read-decimal n out = elim (Bool-cases (n == 0)) [
    | inl e ↦
        rw (e, decimal)
          (one 0 0 (digit 0) out (omega arith) (code-digit 0 (omega arith))
            ∙ ap (λ (m : ℕ). read m out) (ground arith))
    | inr e ↦ rw (e, decimal) (read-print n n out (omega arith))
  ]

-- A text that starts with a digit.
abbrev pub StartsWithDigit : String → Type 0
StartsWithDigit s =
    (c : Char) × (rest : String) × (s ≡ String.◌∷◌ c rest) × (48 ≤ code c) × (code c ≤ 57)

digit_first : (d : ℕ) (out : String) → d < 10 → StartsWithDigit (String.◌∷◌ (digit d) out)
digit_first d out h = let e = code-digit d h in (digit d, out, refl, omega arith, omega arith)

print-StartsWithDigit :
    (fuel n : ℕ) (out : String) → StartsWithDigit out → StartsWithDigit (print fuel n out)
unfolding print
print-StartsWithDigit zero n out h = h
print-StartsWithDigit (suc fuel) n out h = elim (Bool-cases (n == 0)) [
  | inl e ↦ rw (e, print) h
  | inr e ↦
      rw (e, print)
        (print-StartsWithDigit fuel (n / 10) (String.◌∷◌ (digit (n % 10)) out)
          (digit_first (n % 10) out (omega arith)))
]

print_positive : (fuel n : ℕ) (out : String) → 0 < n → n ≤ fuel → StartsWithDigit (print fuel n out)
unfolding print
print_positive zero n out low h = absurd (omega arith)
print_positive (suc fuel) n out low h =
    let e : (n == 0) ≡ false = ground arith in
    rw (e, print)
      (print-StartsWithDigit fuel (n / 10) (String.◌∷◌ (digit (n % 10)) out)
        (digit_first (n % 10) out (omega arith)))

pub decimal-StartsWithDigit : (n : ℕ) (out : String) → StartsWithDigit (decimal n out)
unfolding decimal
decimal-StartsWithDigit n out = elim (Bool-cases (n == 0)) [
  | inl e ↦ rw (e, decimal) (digit_first 0 out (omega arith))
  | inr e ↦ rw (e, decimal) (print_positive n n out (ground arith) (omega arith))
]
