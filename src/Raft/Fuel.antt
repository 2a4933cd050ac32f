-- ===== src/Raft/Fuel.antt =====
-- The loop of `applyCommittedLocked` (internal/raft/replication.go) and the fuel
-- that it needs.
use log_replicator_raft.Common.{
  ℕ, zero, suc, ◌+◌, ◌≤◌, ◌<◌, ◌^◌, ◌≡◌, refl, sym, ◌∙◌, ap, Bool, true, false, Option, none, some,
  arith, ltb, leb, succ64, if◌then◌else◌,
}
use log_replicator_raft.Common.Action.{
  Result, ok, err, Action, Done, pure, modify, resume, ◌>>=◌, ◌>>◌,
}
use log_replicator_raft.Storage.Rows.{Entry}
use log_replicator_raft.Storage.Statement.{Store}
use log_replicator_raft.Storage.Store.{entry_at, skip_to, snapshot_index_term}
use log_replicator_raft.Raft.Types.{Node}
use log_replicator_raft.Raft.Node.{lift, recover, or_value}
use log_replicator_raft.Raft.Command.{Codec, Command, decode_command, apply_to}
use log_replicator_raft.Raft.Replication.{apply_next, apply_entry, apply_loop, skip_compacted}

-- An answer that lets the loop go on comes with an applied index that is at least the given one.
record Reaches (index commit : ℕ) (x : Result Bool × Node) : Type 0 where
  applied : x.0 ≡ ok true → index ≤ x.1.last_applied
  kept : x.1.commit_index ≡ commit

lift-same :
    {A : Type 0} (m : Action Store A) (n : Node)
    → ((lift m n).1.last_applied ≡ n.last_applied) × ((lift m n).1.commit_index ≡ n.commit_index)
unfolding lift
lift-same m n = (refl, refl)

skip_compacted-Reaches :
    (index : ℕ) (n : Node) → Reaches index n.commit_index (skip_compacted index n)
unfolding skip_compacted lift recover
skip_compacted-Reaches index n = on (snapshot_index_term n.store)
  where
    skipped : (snapshot_index : ℕ) → Done → Action Node Bool
    skipped i _ = modify (λ n. record n { last_applied = i }) >> pure true

    decide : ℕ × ℕ → Action Node Bool
    decide p = if ltb p.0 index then pure false else (lift (skip_to p.0) >>= skipped p.0)

    finish : Result Bool × Node → Result Bool × Node
    finish x = (or_value false x.0, x.1)

    on_skip :
        (i : ℕ)
        → index ≤ i
        → (n' : Node) → n'.commit_index ≡ n.commit_index
        → (y : Result Done × Store)
        → Reaches index n.commit_index (finish (resume y.0 (skipped i) (record n' { store = y.1 })))
    on_skip i h n' c (ok d, s) = record { applied = λ e. h; kept = c }
    on_skip i h n' c (err x, s) = record { applied = λ e. absurd (ground arith); kept = c }

    on_test :
        (i t : ℕ) (b : Bool)
        → ltb i index ≡ b
        → (n' : Node) → n'.commit_index ≡ n.commit_index
        → Reaches index n.commit_index
            (finish ((if b then pure false else (lift (skip_to i) >>= skipped i)) n'))
    on_test i t true e n' c = record { applied = λ e. absurd (ground arith); kept = c }
    on_test i t false e n' c = on_skip i (ground arith) n' c (skip_to i n'.store)

    on :
        (x : Result (ℕ × ℕ) × Store)
        → Reaches index n.commit_index (finish (resume x.0 decide (record n { store = x.1 })))
    on (ok (i, t), s) = on_test i t (ltb i index) refl (record n { store = s }) refl
    on (err x, s) = record { applied = λ e. absurd (ground arith); kept = refl }

module _ (codec : Codec) where
  apply_entry-Reaches :
      (entry : Entry) (index : ℕ) (n n' : Node)
      → n'.commit_index ≡ n.commit_index
      → Reaches index n.commit_index (recover false (apply_entry codec entry index) n')
  unfolding apply_entry lift recover
  apply_entry-Reaches entry index n n' c = on (decode_command codec entry.command)
    where
      finish : Result Bool × Node → Result Bool × Node
      finish x = (or_value false x.0, x.1)

      rest : Done → Action Node Bool
      rest _ = modify (λ n. record n { last_applied = index }) >> pure true

      on_write :
          (y : Result Done × Store)
          → Reaches index n.commit_index (finish (resume y.0 rest (record n' { store = y.1 })))
      on_write (ok d, s) = record { applied = λ e. ground arith; kept = c }
      on_write (err x, s) = record { applied = λ e. absurd (ground arith); kept = c }

      on :
          (r : Result Command)
          → Reaches index n.commit_index
              (finish (resume r (λ cmd. lift (apply_to cmd index) >>= rest) n'))
      on (ok cmd) = on_write (apply_to cmd index n'.store)
      on (err x) = record { applied = λ e. absurd (ground arith); kept = c }

  recovered-Reaches :
      (index commit : ℕ) (x : Result Bool × Node)
      → Reaches index commit x
      → Reaches index commit (or_value false x.0, x.1)
  recovered-Reaches index commit (ok b, n) r = r
  recovered-Reaches index commit (err e, n) r = record {
    applied = λ e. absurd (ground arith);
    kept = r.kept;
  }

  apply_next-Reaches :
      (n : Node) → Reaches (succ64 n.last_applied) n.commit_index (apply_next codec n)
  unfolding apply_next lift recover
  apply_next-Reaches n = on (entry_at (succ64 n.last_applied) n.store)
    where
      index : ℕ
      index = succ64 n.last_applied

      found : Option Entry → Action Node Bool
      found o = elim o [ none ↦ skip_compacted index | some e ↦ apply_entry codec e index ]

      finish : Result Bool × Node → Result Bool × Node
      finish x = (or_value false x.0, x.1)

      on :
          (x : Result (Option Entry) × Store)
          → Reaches index n.commit_index (finish (resume x.0 found (record n { store = x.1 })))
      on (ok none, s) =
          recovered-Reaches index n.commit_index (skip_compacted index (record n { store = s }))
            (skip_compacted-Reaches index (record n { store = s }))
      on (ok (some e), s) = apply_entry-Reaches e index n (record n { store = s }) refl
      on (err x, s) = record { applied = λ e. absurd (ground arith); kept = refl }

  apply_loop-done :
      (fuel : ℕ) (n : Node)
      → n.commit_index ≤ n.last_applied
      → apply_loop codec fuel n ≡ (ok true, n)
  unfolding apply_loop
  apply_loop-done zero n h = ap (λ (b : Bool). (ok b, n)) (reached n.commit_index n.last_applied h)
    where
      reached : (a b : ℕ) → a ≤ b → leb a b ≡ true
      reached a b h = ground arith
  apply_loop-done (suc fuel) n h =
      ap
        (λ (b : Bool).
          if b
          then (apply_next codec >>= λ more. if more then apply_loop codec fuel else pure false) n
          else (ok true, n))
        (behind n.last_applied n.commit_index h)
    where
      behind : (a b : ℕ) → b ≤ a → ltb a b ≡ false
      behind a b h = ground arith

  again : ℕ → Bool → Action Node Bool
  again fuel more = if more then apply_loop codec fuel else pure false

  -- Fuel for every index that is committed and not applied is enough, for a commit index that fits
  -- in 64 bits: any two such amounts give the same answer and the same node, whatever database
  -- calls fail.
  pub apply_loop-enough :
      (fuel fuel' : ℕ) (n : Node)
      → n.commit_index < 2 ^ 64
      → n.commit_index ≤ n.last_applied + fuel
      → n.commit_index ≤ n.last_applied + fuel'
      → apply_loop codec fuel n ≡ apply_loop codec fuel' n
  unfolding apply_loop again
  apply_loop-enough zero fuel' n fits h h' =
      apply_loop-done zero n (ground arith) ∙ sym (apply_loop-done fuel' n (ground arith))
  apply_loop-enough (suc fuel) zero n fits h h' =
      apply_loop-done (suc fuel) n (ground arith) ∙ sym (apply_loop-done zero n (ground arith))
  apply_loop-enough (suc fuel) (suc fuel') n fits h h' =
      round (ltb n.last_applied n.commit_index) refl (apply_next codec n) (apply_next-Reaches n)
        (apply_loop-enough fuel fuel')
    where
      more :
          (x : Result Bool × Node)
          → ltb n.last_applied n.commit_index ≡ true
          → Reaches (succ64 n.last_applied) n.commit_index x
          → ((n' : Node)
              → n'.commit_index < 2 ^ 64
              → n'.commit_index ≤ n'.last_applied + fuel
              → n'.commit_index ≤ n'.last_applied + fuel'
              → apply_loop codec fuel n' ≡ apply_loop codec fuel' n')
          → resume x.0 (again fuel) x.1 ≡ resume x.0 (again fuel') x.1
      more (ok true, n') below r same =
          let reached = r.applied refl in
          let kept = r.kept in same n' (ground arith) (ground arith) (ground arith)
      more (ok false, n') below r same = refl
      more (err x, n') below r same = refl

      round :
          (b : Bool)
          → ltb n.last_applied n.commit_index ≡ b
          → (x : Result Bool × Node) → Reaches (succ64 n.last_applied) n.commit_index x
          → ((n' : Node)
              → n'.commit_index < 2 ^ 64
              → n'.commit_index ≤ n'.last_applied + fuel
              → n'.commit_index ≤ n'.last_applied + fuel'
              → apply_loop codec fuel n' ≡ apply_loop codec fuel' n')
          → (if b then resume x.0 (again fuel) x.1 else (ok true, n))
            ≡ (if b then resume x.0 (again fuel') x.1 else (ok true, n))
      round true e x r same = more x e r same
      round false e x r same = refl
