-- ===== src/Raft/Mapping.antt =====
-- The state machine as a map from keys to values (internal/raft/command.go over the rows of `kv` in
-- internal/storage/storage.go), and commands that travel through the log.
use mathlib.Core.Path.{subst}
use log_replicator_raft.Common.{
  ℕ, String, Bool, true, false, ◌≡◌, ◌≢◌, ◌⊎◌, refl, Option, none, some, arith, same, same→eq,
  if◌then◌else◌, ◌↔◌, not, ◌&&◌, inl, inr, sym, eq→same, named_apart,
}
use log_replicator_raft.Common.Action.{
  Result, ok, err, encode_failed, unsupported_command, empty_key, Done,
}
use log_replicator_raft.Storage.Rows.{Tables, find_kv}
use log_replicator_raft.Storage.Keys.{find_kv-upsert_kv, find_kv-delete_kv}
use log_replicator_raft.Storage.Spec.{with_set, with_delete}
use log_replicator_raft.Raft.Command.{
  Command, Codec, op_delete, op_set, encode, decode_command, checked, apply_to,
}
use log_replicator_raft.Raft.Machine.{effect, apply_to_atomic}
use log_replicator_raft.Storage.Statement.{Store}
use log_replicator_raft.Storage.Refine.{Faulted, Agrees}

find_kv-effect :
    (cmd : Command) (index : ℕ) (t : Tables) (key : String)
    → find_kv key (effect cmd index t).kv ≡ (
        if same cmd.key key
        then if same cmd.op op_delete then none else some cmd.value
        else find_kv key t.kv)
unfolding effect with_set with_delete
find_kv-effect cmd index t key =
    let d = find_kv-delete_kv cmd.key t.kv key in
    let s =
      find_kv-upsert_kv (record { key = cmd.key; value = cmd.value; log_index = index }) t.kv key in
    ground arith

applied-effect :
    (cmd : Command) (index : ℕ) (t : Tables) → (effect cmd index t).metadata.last_applied ≡ index
unfolding effect with_set with_delete
applied-effect cmd index t = ground arith

-- When a command was applied with no error, the value of its key is gone after a delete command and
-- is the value of the command after any other, every other key has its value from before, and the
-- applied index is the index of the command.
pub find_kv-apply_to :
    (cmd : Command) (index : ℕ) (s : Store) (key : String)
    → (apply_to cmd index s).0 ≡ ok tt
    → (find_kv key (apply_to cmd index s).1.tables.kv ≡ (
        if same cmd.key key
        then if same cmd.op op_delete then none else some cmd.value
        else find_kv key s.tables.kv))
      × ((apply_to cmd index s).1.tables.metadata.last_applied ≡ index)
find_kv-apply_to cmd index s key done = on (apply_to cmd index s) done (apply_to_atomic cmd index s)
  where
    Done_at : Tables → Type 0
    Done_at t =
        (find_kv key t.kv ≡ (
          if same cmd.key key
          then if same cmd.op op_delete then none else some cmd.value
          else find_kv key s.tables.kv))
        × (t.metadata.last_applied ≡ index)

    on :
        (x : Result Done × Store)
        → x.0 ≡ ok tt
        → (Faulted x.0 s × (x.1.tables ≡ s.tables)) ⊎ Agrees x (ok tt, effect cmd index s.tables)
        → Done_at x.1.tables
    on (r, s') done (inl ((_, e), _)) = absurd (cc)
    on (r, s') done (inr (_, e)) =
        subst Done_at (sym e)
          (find_kv-effect cmd index s.tables key, applied-effect cmd index s.tables)

-- The commands that the log may carry.
unfoldable pub IsSupported : Command → Type 0
IsSupported cmd = (cmd.key ≢ "") × ((cmd.op ≡ "set") ⊎ (cmd.op ≡ "delete"))

supported : (cmd : Command) → (checked (some cmd) ≡ ok cmd) ↔ IsSupported cmd
unfolding checked IsSupported
supported cmd = on (same cmd.op op_set) refl (same cmd.op op_delete) refl (same cmd.key "") refl
  where
    named : same cmd.key "" ≡ false → cmd.key ≢ ""
    named e = named_apart cmd.key "" e

    on :
        (b : Bool)
        → same cmd.op op_set ≡ b
        → (d : Bool) → same cmd.op op_delete ≡ d
        → (k : Bool) → same cmd.key "" ≡ k
        → ((if not b && not d then err unsupported_command else if k then err empty_key else ok cmd)
            ≡ ok cmd)
          ↔ ((cmd.key ≢ "") × ((cmd.op ≡ "set") ⊎ (cmd.op ≡ "delete")))
    on b e d e' true e'' = (λ h. absurd (ground arith), λ h. absurd (h.0 (same→eq cmd.key "" e'')))
    on true e d e' false e'' = (λ h. (named e'', inl (same→eq cmd.op "set" e)), λ h. refl)
    on false e true e' false e'' = (λ h. (named e'', inr (same→eq cmd.op "delete" e')), λ h. refl)
    on false e false e' false e'' = (
      λ h. absurd (ground arith),
      λ h. elim h.1 [
        | inl s ↦ absurd (let t = eq→same cmd.op "set" s in cc)
        | inr s ↦ absurd (let t = eq→same cmd.op "delete" s in cc)
      ],
    )

-- The text that the encoder gives for a command is decoded to that command exactly if its key is
-- not empty and it is a set or a delete command, when decoding undoes encoding.
pub decode_command-encode :
    (codec : Codec)
    → ((c : Command) (text : String) → codec.marshal c ≡ some text → codec.unmarshal text ≡ some c)
    → (cmd : Command) (raw : String) → encode codec cmd ≡ ok raw
    → (decode_command codec raw ≡ ok cmd) ↔ IsSupported cmd
unfolding decode_command encode
decode_command-encode codec law cmd raw e =
    subst (λ (o : Option Command). (checked o ≡ ok cmd) ↔ IsSupported cmd)
      (sym (law cmd raw (marshalled (codec.marshal cmd) e))) (supported cmd)
  where
    marshalled :
        (o : Option String)
        → elim o [ none ↦ err encode_failed | some raw ↦ ok raw ] ≡ ok raw
        → o ≡ some raw
    marshalled none h = absurd (cc)
    marshalled (some r) h = ground arith
