-- ===== src/Config/Durations.antt =====
-- `envDuration` (internal/config/config.go) at a decimal number of milliseconds.
use Prim.Native.Char.{Char, code}
use mathlib.Core.Path.{subst}
use log_replicator_raft.Common.{
  ℕ, ◌+◌, ◌*◌, ◌%◌, ◌^◌, ◌≤◌, ◌<◌, String, true, false, ◌≡◌, sym, ap, ◌∙◌, if◌then◌else◌, some,
  arith,
}
use log_replicator_raft.Common.Decimal.{
  decimal, read-decimal, StartsWithDigit, decimal-StartsWithDigit,
}
use log_replicator_raft.Config.Text.{is_empty}
use log_replicator_raft.Config.Numbers.{digits, natural, atoi, le64, of_milliseconds, millisecond}
use log_replicator_raft.Config.Peers.{good}
use log_replicator_raft.Config.Env.{Environment, env, env_duration, positive}

digits_one :
    (n d : ℕ) (c : Char) (out : String)
    → d < 10
    → code c ≡ 48 + d
    → digits n (String.◌∷◌ c out) ≡ digits (n * 10 + d) out
unfolding digits
digits_one n d c out h e = grind arith

digits-decimal : (n : ℕ) → digits 0 (decimal n "") ≡ some n
unfolding digits
digits-decimal n = read-decimal digits digits_one n ""

-- `Atoi` reads a decimal that an int64 holds.
atoi-decimal : (n : ℕ) → n < 2 ^ 63 → atoi (decimal n "") ≡ some n
unfolding atoi natural
atoi-decimal n h = on (decimal n "") (decimal-StartsWithDigit n "") (digits-decimal n)
  where
    on : (s : String) → StartsWithDigit s → digits 0 s ≡ some n → atoi s ≡ some n
    on s (c, rest, e, low, high) read =
        let e' = subst (λ s. digits 0 s ≡ some n) e read in
        subst (λ s. atoi s ≡ some n) (sym e) (ground (arith, e'))

decimal_full : (n : ℕ) → is_empty (decimal n "") ≡ false
decimal_full n = on (decimal n "") (decimal-StartsWithDigit n "")
  where
    on : (s : String) → StartsWithDigit s → is_empty s ≡ false
    on s (c, rest, e, low, high) = ap is_empty e

-- Whatever its product with a million, a decimal that an int64 holds is accepted, and the product wraps.
env_duration_wraps :
    (environment : Environment) (key : String) (fallback n : ℕ)
    → env environment key "" ≡ decimal n ""
    → 0 < n
    → n < 2 ^ 63
    → env_duration environment key fallback ≡ good ((n * millisecond) % 2 ^ 64)
unfolding env_duration le64 of_milliseconds
env_duration_wraps environment key fallback n e low high =
    on (env environment key "") (ap is_empty e ∙ decimal_full n) (ap atoi e ∙ atoi-decimal n high)
  where
    on :
        (raw : String)
        → is_empty raw ≡ false
        → atoi raw ≡ some n
        → (if is_empty raw then good fallback else positive key (atoi raw))
          ≡ good ((n * millisecond) % 2 ^ 64)
    on raw full read = rw (full, read) (ground arith)

-- A variable that holds a positive decimal of milliseconds within the range of a Duration is read as that
-- many nanoseconds.
pub env_duration-decimal :
    (environment : Environment) (key : String) (fallback n : ℕ)
    → env environment key "" ≡ decimal n ""
    → 0 < n
    → n * millisecond < 2 ^ 63
    → env_duration environment key fallback ≡ good (n * millisecond)
env_duration-decimal environment key fallback n e low high =
    env_duration_wraps environment key fallback n e low (omega arith)
    ∙ ap (λ (d : ℕ). good d) (omega arith)

-- A variable that holds a decimal of milliseconds whose nanoseconds are at least 2^63 and below
-- 2^64 is accepted, too, as a Duration that is not positive.
pub env_duration_overflow :
    (environment : Environment) (key : String) (fallback n : ℕ)
    → env environment key "" ≡ decimal n ""
    → 2 ^ 63 ≤ n * millisecond
    → n * millisecond < 2 ^ 64
    → (d : ℕ) × (env_duration environment key fallback ≡ good d) × (le64 d 0 ≡ true)
unfolding le64
env_duration_overflow environment key fallback n e low high = (
  n * millisecond % 2 ^ 64,
  env_duration_wraps environment key fallback n e (omega arith) (omega arith),
  ground arith,
)
