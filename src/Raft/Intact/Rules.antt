-- ===== src/Raft/Intact/Rules.antt =====
-- Parts of handlers that keep the tables intact, and the calls of the store among them.
use mathlib.Core.Path.{subst}
use log_replicator_raft.Common.{
  ℕ, ◌⊎◌, String, ◌≡◌, sym, Bool, true, false, arith, if◌then◌else◌, inl, inr,
}
use log_replicator_raft.Common.Action.{
  Result, ok, err, Error, Action, Done, pure, fail, gets, modify, resume, ◌>>=◌,
}
use log_replicator_raft.Storage.Rows.{Tables}
use log_replicator_raft.Storage.Statement.{Store}
use log_replicator_raft.Storage.Store.{save_term_vote, skip_to}
use log_replicator_raft.Storage.Refine.{Refines, Faulted, Agrees}
use log_replicator_raft.Storage.Methods.{
  save_term_vote-Refines, skip_to-Refines, last_index_and_term-Refines, snapshot_index_term-Refines,
}
use log_replicator_raft.Storage.Intact.{IsIntact, with_term_vote-IsIntact, with_applied-IsIntact}
use log_replicator_raft.Raft.Types.{Node}
use log_replicator_raft.Raft.Node.{
  lift, lift_internal, as_internal, internally, recover, this, when, publish_state,
  reset_election_deadline,
}
use log_replicator_raft.Raft.Votes.Granted.{ok-injective}

abbrev pub Intact : Node → Type 0
Intact n = IsIntact n.store.tables

pub record Keeps {A : Type 0} (m : Action Node A) : Type 0 where
  pub at : (n : Node) → Intact n → Intact (m n).1

-- A change of fields beside the store.
pub modify-Keeps : (f : Node → Node) → ((n : Node) → (f n).store ≡ n.store) → Keeps (modify f)
modify-Keeps f h = record { at = λ n i. subst (λ (s : Store). IsIntact s.tables) (sym (h n)) i }

module _ {A : Type 0} where
  pub pure-Keeps : (a : A) → Keeps (pure a)
  pure-Keeps a = record { at = λ n i. i }

  pub fail-Keeps : (e : Error) → Keeps (fail {A = A} e)
  fail-Keeps e = record { at = λ n i. i }

  pub gets-Keeps : (f : Node → A) → Keeps (gets f)
  gets-Keeps f = record { at = λ n i. i }

  pub recover-Keeps : (a : A) {m : Action Node A} → Keeps m → Keeps (recover a m)
  unfolding recover
  recover-Keeps a h = record { at = h.at }

  pub internally-Keeps : {m : Action Node A} → Keeps m → Keeps (internally m)
  internally-Keeps h = record { at = h.at }

  pub if-Keeps : (b : Bool) {m k : Action Node A} → Keeps m → Keeps k → Keeps (if b then m else k)
  if-Keeps true h k = h
  if-Keeps false h k = k

  -- A call of the store with a known effect.
  pub lift_at :
      {m : Action Store A} {p : Action Tables A} (n : Node)
      → Refines m p
      → Intact n
      → IsIntact (p n.store.tables).1
      → Intact (lift m n).1
  unfolding lift
  lift_at {m} {p} n r i kept = on (r.outcome n.store)
    where
      on :
          ((Faulted (m n.store).0 n.store × ((m n.store).1.tables ≡ n.store.tables))
            ⊎ Agrees (m n.store) (p n.store.tables))
          → IsIntact (m n.store).1.tables
      on (inl (_, e)) = subst IsIntact (sym e) i
      on (inr (_, e)) = subst IsIntact (sym e) kept

  pub lift-Keeps :
      {m : Action Store A} {p : Action Tables A}
      → Refines m p
      → ((t : Tables) → IsIntact t → IsIntact (p t).1)
      → Keeps (lift m)
  lift-Keeps r k = record { at = λ n i. lift_at n r i (k n.store.tables i) }

pub when-Keeps : (b : Bool) {m : Action Node Done} → Keeps m → Keeps (when b m)
when-Keeps true h = h
when-Keeps false h = pure-Keeps tt

module _ {A B : Type 0} where
  pub bind_at :
      (m : Action Node A) (f : A → Action Node B) (n : Node)
      → Intact (m n).1
      → ((a : A) → Keeps (f a))
      → Intact ((m >>= f) n).1
  bind_at m f n i k = on (m n) i
    where
      on : (x : Result A × Node) → Intact x.1 → Intact (resume x.0 f x.1).1
      on (ok a, n') i = (k a).at n' i
      on (err e, n') i = i

  pub bind-Keeps :
      {m : Action Node A} {f : A → Action Node B}
      → Keeps m
      → ((a : A) → Keeps (f a))
      → Keeps (m >>= f)
  bind-Keeps {m} {f} h k = record { at = λ n i. bind_at m f n (h.at n i) k }

  -- What follows a read may use what was read: the tables are those that it came from.
  pub read_at :
      {m : Action Store A} {g : Tables → A} (f : A → Action Node B) (n : Node)
      → Refines m (λ t. (ok (g t), t))
      → Intact n
      → ((n' : Node) → n'.store.tables ≡ n.store.tables → Intact (f (g n.store.tables) n').1)
      → Intact ((lift m >>= f) n).1
  unfolding lift
  read_at {m} {g} f n r i k = on (m n.store) (r.outcome n.store)
    where
      on :
          (x : Result A × Store)
          → ((Faulted x.0 n.store × (x.1.tables ≡ n.store.tables))
              ⊎ Agrees x (ok (g n.store.tables), n.store.tables))
          → Intact (resume x.0 f (record n { store = x.1 })).1
      on (ok a, s) (inl ((_, e), _)) = absurd (cc)
      on (ok a, s) (inr (e, t)) =
          subst (λ b. Intact (f b (record n { store = s })).1) (sym (ok-injective e))
            (k (record n { store = s }) t)
      on (err e, s) (inl (_, t)) = subst IsIntact (sym t) i
      on (err e, s) (inr (q, _)) = absurd (cc)

  pub read_internal_at :
      {m : Action Store A} {g : Tables → A} (f : A → Action Node B) (n : Node)
      → Refines m (λ t. (ok (g t), t))
      → Intact n
      → ((n' : Node) → n'.store.tables ≡ n.store.tables → Intact (f (g n.store.tables) n').1)
      → Intact ((lift_internal m >>= f) n).1
  unfolding lift_internal lift
  read_internal_at {m} {g} f n r i k = on (m n.store) (r.outcome n.store)
    where
      on :
          (x : Result A × Store)
          → ((Faulted x.0 n.store × (x.1.tables ≡ n.store.tables))
              ⊎ Agrees x (ok (g n.store.tables), n.store.tables))
          → Intact (resume (as_internal x.0) f (record n { store = x.1 })).1
      on (ok a, s) (inl ((_, e), _)) = absurd (cc)
      on (ok a, s) (inr (e, t)) =
          subst (λ b. Intact (f b (record n { store = s })).1) (sym (ok-injective e))
            (k (record n { store = s }) t)
      on (err e, s) (inl (_, t)) = subst IsIntact (sym t) i
      on (err e, s) (inr (q, _)) = absurd (cc)

module _ {B : Type 0} {f : Node → Action Node B} where
  pub this-Keeps : ((n : Node) → Keeps (f n)) → Keeps (this >>= f)
  this-Keeps h = record { at = λ n. (h n).at n }

-- A read whose answer matters to nothing.
pub read-Keeps :
    {A : Type 0} {m : Action Store A} {g : Tables → A}
    → Refines m (λ t. (ok (g t), t))
    → Keeps (lift m)
read-Keeps r = lift-Keeps r (λ t i. i)

pub save_term_vote-Keeps : (term : ℕ) (vote : String) → Keeps (lift (save_term_vote term vote))
save_term_vote-Keeps term vote =
    lift-Keeps (save_term_vote-Refines term vote) (with_term_vote-IsIntact term vote)

pub skip_to-Keeps : (index : ℕ) → Keeps (lift (skip_to index))
skip_to-Keeps index = lift-Keeps (skip_to-Refines index) (with_applied-IsIntact index)

pub publish_state-Keeps : Keeps publish_state
unfolding publish_state
publish_state-Keeps = recover-Keeps tt (
    bind-Keeps (read-Keeps last_index_and_term-Refines)
      (λ _. bind-Keeps (read-Keeps snapshot_index_term-Refines) (λ _. pure-Keeps tt)))

pub reset_election_deadline-Keeps : Keeps reset_election_deadline
unfolding reset_election_deadline
reset_election_deadline-Keeps = record {
  at = λ n i.
      let e : (reset_election_deadline n).1.store ≡ n.store = ground arith in
      subst (λ (s : Store). IsIntact s.tables) (sym e) i;
}
