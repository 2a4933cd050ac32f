-- ===== src/Raft/Yields.antt =====
-- What an action on a node returns when it returns no error.
use mathlib.Core.Path.{subst}
use log_replicator_raft.Common.{Bool, true, false, ◌≡◌, refl, if◌then◌else◌}
use log_replicator_raft.Common.Action.{Result, ok, err, Error, Action, pure, fail, resume, ◌>>=◌}
use log_replicator_raft.Raft.Types.{Node}
use log_replicator_raft.Raft.Node.{this}
use log_replicator_raft.Raft.Votes.Granted.{ok-injective}

pub record Yields {A : Type 0} (P : A → Type 0) (m : Action Node A) : Type 0 where
  pub at : (n : Node) (a : A) → (m n).0 ≡ ok a → P a

module _ {A : Type 0} {P : A → Type 0} where
  pub pure-Yields : (a : A) → P a → Yields P (pure a)
  pure-Yields a p = record { at = λ n b e. subst P (ok-injective e) p }

  pub fail-Yields : (x : Error) → Yields P (fail x)
  fail-Yields x = record { at = λ n b e. absurd (cc) }

  pub if-Yields :
      (b : Bool) {m k : Action Node A} → Yields P m → Yields P k → Yields P (if b then m else k)
  if-Yields true h k = h
  if-Yields false h k = k

  pub this-Yields :
      {f : Node → Action Node A} → ((n : Node) → Yields P (f n)) → Yields P (this >>= f)
  this-Yields h = record { at = λ n. (h n).at n }

module _ {A B : Type 0} {P : B → Type 0} where
  -- After an action of which something is known.
  pub known-Yields :
      (Q : A → Type 0) {m : Action Node A} {f : A → Action Node B}
      → Yields Q m
      → ((a : A) → Q a → Yields P (f a))
      → Yields P (m >>= f)
  known-Yields Q {m} {f} h k = record { at = λ n b e. on (m n) (h.at n) b e }
    where
      on :
          (x : Result A × Node)
          → ((a : A) → x.0 ≡ ok a → Q a)
          → (b : B) → (resume x.0 f x.1).0 ≡ ok b
          → P b
      on (ok a, n') q b e = (k a (q a refl)).at n' b e
      on (err x, n') q b e = absurd (cc)

  pub bind-Yields :
      (m : Action Node A) {f : A → Action Node B} → ((a : A) → Yields P (f a)) → Yields P (m >>= f)
  bind-Yields m k = known-Yields (λ _. Unit) {m = m} (record { at = λ _ _ _. tt }) (λ a _. k a)
