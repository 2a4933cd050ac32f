-- ===== src/Common/Tests.antt =====
-- Boolean tests on native numbers and texts, the conditional, and 64-bit increments.
use Prim.Native.Nat.{ℕ, ◌+◌, ◌%◌, ◌^◌, ◌≤◌, ◌<◌, compare, Ordering}
use Prim.Native.String.{String}
use mathlib.Core.Path.{◌≡◌, refl}
use mathlib.Core.Logic.{◌≢◌, ◌⊎◌, inl, inr}
use mathlib.Core.Bool.{Bool, true, false}
use mathlib.Core.Option.{Option, none, some}
use native.Mathlib.Omega.{arith}
use text.Mathlib.Text
use text.Mathlib.TextEquality.{eq_iff}

abbrev pub ltb : ℕ → ℕ → Bool
ltb a b = elim (compare a b) [ Ordering.lt ↦ true | _ ↦ false ]

abbrev pub leb : ℕ → ℕ → Bool
leb a b = elim (compare a b) [ Ordering.gt ↦ false | _ ↦ true ]

infix 50 ◌==◌
abbrev pub ◌==◌ : ℕ → ℕ → Bool
a == b = elim (compare a b) [ Ordering.eq ↦ true | _ ↦ false ]

infix 1 if◌then◌else◌
abbrev pub if◌then◌else◌ {ℓ} : {A : Type ℓ} → Bool → A → A → A
if true then x else y = x
if false then x else y = y

-- Equality of texts: node ids, keys, operation names.
abbrev pub same : String → String → Bool
same a b = Text.◌==◌ a b

pub same→eq : (a b : String) → same a b ≡ true → a ≡ b
same→eq a b = (eq_iff a b).0

pub eq→same : (a b : String) → a ≡ b → same a b ≡ true
eq→same a b = (eq_iff a b).1

pub same_self : (a : String) → same a a ≡ true
same_self a = eq→same a a refl

-- A uint64 addition of one, with its wrap-around.
abbrev pub succ64 : ℕ → ℕ
succ64 n = (n + 1) % 2 ^ 64

-- To split on a computed value and keep the equation.
pub Bool-cases : (b : Bool) → (b ≡ true) ⊎ (b ≡ false)
Bool-cases true = inl refl
Bool-cases false = inr refl

pub Option-cases {ℓ} : {A : Type ℓ} (o : Option A) → (o ≡ none) ⊎ ((a : A) × (o ≡ some a))
Option-cases none = inl refl
Option-cases (some a) = inr (a, refl)

pub ltb→lt : (a b : ℕ) → ltb a b ≡ true → a < b
ltb→lt a b h = ground arith

pub leb→le : (a b : ℕ) → leb a b ≡ true → a ≤ b
leb→le a b h = ground arith

pub not_leb→lt : (a b : ℕ) → leb a b ≡ false → b < a
not_leb→lt a b h = ground arith

pub le→leb : (a b : ℕ) → a ≤ b → leb a b ≡ true
le→leb a b h = ground arith

pub lt→not_leb : (a b : ℕ) → b < a → leb a b ≡ false
lt→not_leb a b h = ground arith

pub named_apart : (a b : String) → same a b ≡ false → a ≢ b
named_apart a b h e = let self = same_self a in absurd (cc)
