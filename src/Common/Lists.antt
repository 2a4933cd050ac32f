-- ===== src/Common/Lists.antt =====
-- Lists measured by native numbers, under the library's names.
use Prim.Native.Nat.{ℕ, zero, suc}
use mathlib.Core.Bool.{Bool}
use log_replicator_raft.Common.Tests.{if◌then◌else◌}
use mathlib.Core.List.{List, [], ◌∷◌}

module _ {ℓ} {A : Type ℓ} where
  abbrev pub length : List A → ℕ
  length [] = 0
  length (x ∷ xs) = suc (length xs)

  abbrev pub take : ℕ → List A → List A
  take zero xs = []
  take (suc n) [] = []
  take (suc n) (x ∷ xs) = x ∷ take n xs

  -- The elements that pass a test.
  abbrev pub filter : (A → Bool) → List A → List A
  filter test [] = []
  filter test (x ∷ xs) = let rest = filter test xs in if test x then x ∷ rest else rest

  -- A predicate at every element.
  abbrev pub All {κ} : (A → Type κ) → List A → Type κ
  All P [] = Unit
  All P (x ∷ xs) = P x × All P xs
