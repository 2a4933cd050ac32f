-- ===== src/Raft/Apply.antt =====
-- The application of committed entries (`applyCommittedLocked` of internal/raft/replication.go) as a
-- replay of the log on the tables.
use mathlib.Core.Path.{subst}
use log_replicator_raft.Common.{
  ℕ, zero, suc, ◌+◌, ◌<◌, ◌^◌, ◌≡◌, refl, ◌∙◌, ap, Bool, true, false, Option, none, some, [], arith,
  ltb, leb, succ64, if◌then◌else◌,
}
use log_replicator_raft.Common.Action.{Result, ok, err, Action, pure, modify, ◌>>=◌, ◌>>◌}
use log_replicator_raft.Storage.Rows.{Entry, Tables, find_entry}
use log_replicator_raft.Storage.Store.{entry_at}
use log_replicator_raft.Storage.Methods.{entry_at-Refines}
use log_replicator_raft.Raft.Types.{Node}
use log_replicator_raft.Raft.Node.{lift}
use log_replicator_raft.Raft.Command.{Codec, Command, decode_command, apply_to}
use log_replicator_raft.Raft.Machine.{effect, apply_to-Refines}
use log_replicator_raft.Raft.Replication.{apply_next, apply_entry, apply_loop, skip_compacted}
use log_replicator_raft.Raft.Quiet.{IsQuiet, lift_quietly, write_quietly, then_run, recover_run}

pub some-injective : {A : Type 0} {a b : A} → some a ≡ some b → a ≡ b
some-injective {a} e = ap (λ o. elim o [ none ↦ a | some b ↦ b ]) e

module _ (codec : Codec) where
  -- The tables after `count` commands of the log from `index` on, when all of them are there and decode.
  unfoldable pub replay : ℕ → ℕ → Tables → Option Tables
  unfolding find_entry decode_command effect
  replay zero index t = some t
  replay (suc count) index t = elim (find_entry index t.log_entries) [
    | none ↦ none
    | some e ↦ elim (decode_command codec e.command) [
      | err _ ↦ none
      | ok cmd ↦ replay count (index + 1) (effect cmd index t)
    ]
  ]

  abbrev pub applied : ℕ → Tables → Node → Node
  applied index t n = record n { last_applied = index; store = record n.store { tables = t } }

  apply_entry-effect :
      (n : Node) (e : Entry) (cmd : Command) (index : ℕ)
      → IsQuiet n
      → decode_command codec e.command ≡ ok cmd
      → apply_entry codec e index n ≡ (ok true, applied index (effect cmd index n.store.tables) n)
  unfolding apply_entry
  apply_entry-effect n e cmd index q d =
      then_run (λ n. (decode_command codec e.command, n))
        (λ cmd.
          lift (apply_to cmd index)
          >> (modify (λ n. record n { last_applied = index }) >> pure true))
        n (λ i. (d i, n))
      ∙ then_run (lift (apply_to cmd index))
          (λ _. modify (λ n. record n { last_applied = index }) >> pure true) n
          (write_quietly n (apply_to-Refines cmd index) q)

  apply_next-effect :
      (n : Node) (e : Entry) (cmd : Command)
      → IsQuiet n
      → find_entry (succ64 n.last_applied) n.store.tables.log_entries ≡ some e
      → decode_command codec e.command ≡ ok cmd
      → apply_next codec n ≡ (
        ok true,
        applied (succ64 n.last_applied) (effect cmd (succ64 n.last_applied) n.store.tables) n,
      )
  unfolding apply_next
  apply_next-effect n e cmd q f d = recover_run false (lift (entry_at index) >>= found) n (
      then_run (lift (entry_at index)) found n (lift_quietly n (entry_at-Refines index) q)
      ∙ ap (λ (o : Option Entry). found o n) f
      ∙ apply_entry-effect n e cmd index q d)
    where
      index : ℕ
      index = succ64 n.last_applied

      found : Option Entry → Action Node Bool
      found o = elim o [ none ↦ skip_compacted index | some e ↦ apply_entry codec e index ]

  apply_next-at :
      (n : Node) (e : Entry) (cmd : Command) (index : ℕ)
      → succ64 n.last_applied ≡ index
      → IsQuiet n
      → find_entry index n.store.tables.log_entries ≡ some e
      → decode_command codec e.command ≡ ok cmd
      → apply_next codec n ≡ (ok true, applied index (effect cmd index n.store.tables) n)
  apply_next-at n e cmd index s q f d =
      subst
        (λ k.
          find_entry k n.store.tables.log_entries ≡ some e
          → apply_next codec n ≡ (ok true, applied k (effect cmd k n.store.tables) n))
        s (λ f. apply_next-effect n e cmd q f d) f

  -- One step of `replay` taken apart.
  record Replayed (count index : ℕ) (t t' : Tables) : Type 0 where
    entry : Entry
    command : Command
    stored : find_entry index t.log_entries ≡ some entry
    decoded : decode_command codec entry.command ≡ ok command
    rest : replay count (index + 1) (effect command index t) ≡ some t'

  replay-Replayed :
      (count index : ℕ) (t t' : Tables)
      → replay (suc count) index t ≡ some t'
      → Replayed count index t t'
  unfolding replay
  replay-Replayed count index t t' h = on (find_entry index t.log_entries) refl h
    where
      decode : (e : Entry) (r : Result Command) → Type 0
      decode e r =
          elim r [ err _ ↦ none | ok cmd ↦ replay count (index + 1) (effect cmd index t) ] ≡ some t'

      run :
          (e : Entry)
          → find_entry index t.log_entries ≡ some e
          → (r : Result Command) → decode_command codec e.command ≡ r
          → decode e r
          → Replayed count index t t'
      run e f (ok cmd) d h = record { entry = e; command = cmd; stored = f; decoded = d; rest = h }
      run e f (err x) d h = absurd (cc)

      on :
          (o : Option Entry)
          → find_entry index t.log_entries ≡ o
          → elim o [
            | none ↦ none
            | some e ↦ elim (decode_command codec e.command) [
              | err _ ↦ none
              | ok cmd ↦ replay count (index + 1) (effect cmd index t)
            ]
          ]
            ≡ some t'
          → Replayed count index t t'
      on none f h = absurd (cc)
      on (some e) f h = run e f (decode_command codec e.command) refl h

  -- While no database call fails, the loop applies the commands of the log in their order, each at
  -- its own index, up to the commit index, when the log holds all of them, they decode and the
  -- commit index fits in 64 bits.
  pub apply_loop-replay :
      (count : ℕ) (n : Node) (t : Tables)
      → n.store.faults ≡ []
      → n.commit_index ≡ n.last_applied + count
      → n.commit_index < 2 ^ 64
      → replay count (n.last_applied + 1) n.store.tables ≡ some t
      → apply_loop codec count n ≡ (ok true, applied n.commit_index t n)
  unfolding apply_loop replay
  apply_loop-replay zero n t q c fits h =
      let all : leb n.commit_index n.last_applied ≡ true = ground arith in
      let reached : n.last_applied ≡ n.commit_index = ground arith in
      let same : n.store.tables ≡ t = some-injective h in
      λ i. (ok (all i), applied (reached i) (same i) n)
  apply_loop-replay (suc count) n t q c fits h =
      let r = replay-Replayed count (n.last_applied + 1) n.store.tables t h in
      let t1 : Tables = effect r.command (n.last_applied + 1) n.store.tables in
      let below : ltb n.last_applied n.commit_index ≡ true = ground arith in
      let again : Bool → Action Node Bool =
        λ more. if more then apply_loop codec count else pure false in
      ap (λ (b : Bool). if b then (apply_next codec >>= again) n else (ok true, n)) below
      ∙ then_run (apply_next codec) again n (
          apply_next-at n r.entry r.command (n.last_applied + 1) (ground arith) q r.stored
            r.decoded)
      ∙ apply_loop-replay count (applied (n.last_applied + 1) t1 n) t q (ground arith) fits r.rest
