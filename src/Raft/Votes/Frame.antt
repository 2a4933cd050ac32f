-- ===== src/Raft/Votes/Frame.antt =====
-- Actions that leave term and vote alone, actions that only advance them, and the rules by which
-- such actions are put together.
use log_replicator_raft.Common.{
  ℕ, ◌<◌, String, ◌≡◌, refl, ◌⊎◌, inr, Bool, true, false, arith, if◌then◌else◌,
}
use log_replicator_raft.Common.Action.{
  Result, ok, err, Action, Done, Error, pure, fail, gets, modify, resume, ◌>>=◌,
}
use log_replicator_raft.Storage.Rows.{Tables}
use log_replicator_raft.Storage.Statement.{Store}
use log_replicator_raft.Storage.Refine.{Refines}
use log_replicator_raft.Raft.Types.{Node}
use log_replicator_raft.Raft.Node.{lift, this, internally, recover, when}

-- A later term, or the same term with a vote that was not given before or is the same.
abbrev pub Advances : ℕ → String → ℕ → String → Type 0
Advances t v t' v' = (t < t') ⊎ ((t ≡ t') × ((v ≡ "") ⊎ (v' ≡ v)))

abbrev pub disk_term : Node → ℕ
disk_term n = n.store.tables.metadata.current_term

abbrev pub disk_vote : Node → String
disk_vote n = n.store.tables.metadata.voted_for

-- Memory is never behind the disk.
abbrev pub IsAhead : Node → Type 0
IsAhead n = Advances (disk_term n) (disk_vote n) n.current_term n.voted_for

pub record Moves (n n' : Node) : Type 0 where
  pub ahead : IsAhead n'
  pub memory : Advances n.current_term n.voted_for n'.current_term n'.voted_for
  pub disk : Advances (disk_term n) (disk_vote n) (disk_term n') (disk_vote n')

pub record Same (n n' : Node) : Type 0 where
  pub term : n'.current_term ≡ n.current_term
  pub vote : n'.voted_for ≡ n.voted_for
  pub stored_term : disk_term n' ≡ disk_term n
  pub stored_vote : disk_vote n' ≡ disk_vote n

pub Advances-refl : (t : ℕ) (v : String) → Advances t v t v
Advances-refl t v = inr (refl, inr refl)

pub Advances-trans :
    {t t' t'' : ℕ} {v v' v'' : String}
    → Advances t v t' v'
    → Advances t' v' t'' v''
    → Advances t v t'' v''
Advances-trans h k = ground arith

pub Moves-trans : {n n' n'' : Node} → Moves n n' → Moves n' n'' → Moves n n''
Moves-trans h k = record {
  ahead = k.ahead;
  memory = Advances-trans h.memory k.memory;
  disk = Advances-trans h.disk k.disk;
}

pub Same-Moves : {n n' : Node} → IsAhead n → Same n n' → Moves n n'
Same-Moves a h = record { ahead = ground arith; memory = ground arith; disk = ground arith }

pub Same-refl : (n : Node) → Same n n
Same-refl n = record { term = refl; vote = refl; stored_term = refl; stored_vote = refl }

pub Same-trans : {n n' n'' : Node} → Same n n' → Same n' n'' → Same n n''
Same-trans h k = record { term = cc; vote = cc; stored_term = cc; stored_vote = cc }

-- `m` keeps memory ahead of the disk and only advances both.
pub record IsVoteSafe {A : Type 0} (m : Action Node A) : Type 0 where
  pub at : (n : Node) → IsAhead n → Moves n (m n).1

pub record IsFrame {A : Type 0} (m : Action Node A) : Type 0 where
  pub at : (n : Node) → Same n (m n).1

pub IsFrame-IsVoteSafe : {A : Type 0} {m : Action Node A} → IsFrame m → IsVoteSafe m
IsFrame-IsVoteSafe f = record { at = λ n a. Same-Moves a (f.at n) }

pub modify-IsFrame : (f : Node → Node) → ((n : Node) → Same n (f n)) → IsFrame (modify f)
modify-IsFrame f h = record { at = h }

module _ {A : Type 0} where
  pub pure-IsFrame : (a : A) → IsFrame (pure a)
  pure-IsFrame a = record { at = λ n. Same-refl n }

  pub fail-IsFrame : (e : Error) → IsFrame (fail {A = A} e)
  fail-IsFrame e = record { at = λ n. Same-refl n }

  pub gets-IsFrame : (f : Node → A) → IsFrame (gets f)
  gets-IsFrame f = record { at = λ n. Same-refl n }

  pub recover-IsFrame : (a : A) {m : Action Node A} → IsFrame m → IsFrame (recover a m)
  unfolding recover
  recover-IsFrame a h = record { at = h.at }

  pub recover-IsVoteSafe : (a : A) {m : Action Node A} → IsVoteSafe m → IsVoteSafe (recover a m)
  unfolding recover
  recover-IsVoteSafe a h = record { at = h.at }

  pub internally-IsVoteSafe : {m : Action Node A} → IsVoteSafe m → IsVoteSafe (internally m)
  internally-IsVoteSafe h = record { at = h.at }

  pub internally-IsFrame : {m : Action Node A} → IsFrame m → IsFrame (internally m)
  internally-IsFrame h = record { at = h.at }

  pub if-IsFrame :
      (b : Bool) {m k : Action Node A} → IsFrame m → IsFrame k → IsFrame (if b then m else k)
  if-IsFrame true h k = h
  if-IsFrame false h k = k

  pub if-IsVoteSafe :
      (b : Bool) {m k : Action Node A}
      → IsVoteSafe m
      → IsVoteSafe k
      → IsVoteSafe (if b then m else k)
  if-IsVoteSafe true h k = h
  if-IsVoteSafe false h k = k

pub when-IsVoteSafe : (b : Bool) {m : Action Node Done} → IsVoteSafe m → IsVoteSafe (when b m)
when-IsVoteSafe true h = h
when-IsVoteSafe false h = IsFrame-IsVoteSafe (pure-IsFrame tt)

module _ {A B : Type 0} where
  pub bind-IsFrame :
      {m : Action Node A} {f : A → Action Node B}
      → IsFrame m
      → ((a : A) → IsFrame (f a))
      → IsFrame (m >>= f)
  bind-IsFrame {m} {f} h k = record { at = λ n. on n (m n) (h.at n) }
    where
      on : (n : Node) (x : Result A × Node) → Same n x.1 → Same n (resume x.0 f x.1).1
      on n (ok a, n') s = Same-trans s ((k a).at n')
      on n (err e, n') s = s

  -- The same at one state, for a first part that is safe there only.
  pub Moves-bind :
      (m : Action Node A) {f : A → Action Node B} (n : Node)
      → Moves n (m n).1
      → ((a : A) → IsVoteSafe (f a))
      → Moves n ((m >>= f) n).1
  Moves-bind m {f} n h k = on (m n) h
    where
      on : (x : Result A × Node) → Moves n x.1 → Moves n (resume x.0 f x.1).1
      on (ok a, n') s = Moves-trans s ((k a).at n' s.ahead)
      on (err e, n') s = s

  pub bind-IsVoteSafe :
      {m : Action Node A} {f : A → Action Node B}
      → IsVoteSafe m
      → ((a : A) → IsVoteSafe (f a))
      → IsVoteSafe (m >>= f)
  bind-IsVoteSafe {m} h k = record { at = λ n a. Moves-bind m n (h.at n a) k }

module _ {B : Type 0} {f : Node → Action Node B} where
  pub this-IsFrame : ((n : Node) → IsFrame (f n)) → IsFrame (this >>= f)
  this-IsFrame h = record { at = λ n. (h n).at n }

  pub this-IsVoteSafe : ((n : Node) → IsVoteSafe (f n)) → IsVoteSafe (this >>= f)
  this-IsVoteSafe h = record { at = λ n. (h n).at n }

-- A specification that leaves the two rows alone.
abbrev pub KeepsVote : {A : Type 0} → Action Tables A → Type 0
KeepsVote p =
    (t : Tables)
    → ((p t).1.metadata.current_term ≡ t.metadata.current_term)
      × ((p t).1.metadata.voted_for ≡ t.metadata.voted_for)

module _ {A : Type 0} where
  pub lift-IsFrame :
      {m : Action Store A} {p : Action Tables A} → Refines m p → KeepsVote p → IsFrame (lift m)
  unfolding lift
  lift-IsFrame {m} {p} r k = record {
    at = λ n.
        let o = r.outcome n.store in
        let e = k n.store.tables in
        record { term = refl; vote = refl; stored_term = ground arith; stored_vote = ground arith };
  }
