-- ===== src/Witnesses/Comparisons.antt =====
-- Concrete reports, compared.

use mathlib.Core.List.{Memᴰ}
use mathlib.Core.List.Memᴰ
use log_replicator_raft.Raftctl.Range.{HasRoom, Between, comparable_range-Between}
use log_replicator_raft.Raftctl.Run.{
  has_scheme, dial_target, run, compare_logs, usage_error, default_cluster,
}
use log_replicator_raft.Raftctl.Targets.{HasScheme, dial_target-HasScheme}
use log_replicator_raft.Common.{
  String, ap, ◌+◌, ◌<◌, ◌^◌, ◌⊎◌, inl, inr, arith, ℕ, ◌≡◌, ◌↔◌, refl, List, [], ◌∷◌, length,
}
use log_replicator_raft.Storage.Rows.{Entry}
use log_replicator_raft.Raft.Types.{leader}
use log_replicator_raft.Raft.Inspect.{LogReply}
use log_replicator_raft.Raftctl.Compare.{
  Reports, differ, agree, answered, refused, unreachable, comparable_range, comparable, compare,
  gather, stored, verdict, disagreement, differing, describe_entries, described, first_difference,
}
use log_replicator_raft.Raftctl.Agreement.{SameWindows, Told, verdict-agree, verdict-differ}
use log_replicator_raft.Common.Decimal.{decimal}

abbrev entry : ℕ → ℕ → Entry
entry index term = record { index = index; term = term; command = "c" }

abbrev report : ℕ → List Entry → LogReply
report commit entries = record {
  id = "n";
  role = leader;
  term = 3;
  commit_index = commit;
  last_applied = commit;
  snapshot_index = 0;
  entries = entries;
  state = [];
}

-- The entry behind the commit index of the first node differs.
abbrev alike : Reports
alike =
    ("a", report 2 (entry 1 1 ∷ entry 2 1 ∷ entry 3 1 ∷ []))
    ∷ ("b", report 3 (entry 1 1 ∷ entry 2 1 ∷ entry 3 2 ∷ []))
    ∷ []

abbrev unlike : Reports
unlike =
    ("a", report 3 (entry 1 1 ∷ entry 2 1 ∷ entry 3 1 ∷ []))
    ∷ ("b", report 3 (entry 1 1 ∷ entry 2 1 ∷ entry 3 2 ∷ []))
    ∷ []

abbrev as_is : Reports → Reports
as_is reports = reports

verdict-agree_example :
    (verdict as_is as_is alike
      ≡ agree (length alike) (comparable_range alike).0 (comparable_range alike).1)
    ↔ SameWindows (comparable_range alike).0 (comparable_range alike).1 alike
verdict-agree_example = verdict-agree as_is as_is alike (λ x. (λ m. m, λ m. m))

told : verdict as_is as_is unlike ≡ differ "a" "b" 3
unfolding verdict comparable_range comparable disagreement differing describe_entries described
    first_difference decimal
told = refl

verdict-differ_example :
    Told (comparable_range unlike).0 (comparable_range unlike).1 unlike (differ "a" "b" 3)
verdict-differ_example = verdict-differ as_is as_is unlike (λ x. (λ m. m, λ m. m)) "a" "b" 3 told

-- A node whose answer fails ends the comparison, a repeated address is kept once.
compared_twice :
    compare as_is as_is
      (("a", answered (report 1 [])) ∷ ("a", answered (report 2 (entry 1 1 ∷ []))) ∷ [])
    ≡ agree 1 1 2
unfolding compare gather stored verdict comparable_range comparable disagreement differing
compared_twice = refl

compared_refused :
    compare as_is as_is (("a", answered (report 1 [])) ∷ ("b", refused "down") ∷ [])
    ≡ unreachable "b" "down"
unfolding compare gather stored
compared_refused = refl

fresh : (x : String × LogReply) → x.1.snapshot_index ≡ 0 → x.1.snapshot_index + 1 < 2 ^ 64
fresh x e = omega arith

alike_room : HasRoom alike
alike_room x m = fresh x (on (Memᴰ.cases_cons m))
  where
    on :
        (x ≡ ("a", report 2 (entry 1 1 ∷ entry 2 1 ∷ entry 3 1 ∷ [])))
          ⊎ Memᴰ x (("b", report 3 (entry 1 1 ∷ entry 2 1 ∷ entry 3 2 ∷ [])) ∷ [])
        → x.1.snapshot_index ≡ 0
    on (inl e) = ap (λ (y : String × LogReply). y.1.snapshot_index) e
    on (inr m') = ap (λ (y : String × LogReply). y.1.snapshot_index) (Memᴰ.eq_of_singleton m')

comparable_range-Between_example : Between 0 2 (comparable_range alike)
comparable_range-Between_example =
    comparable_range-Between alike ("a", report 2 (entry 1 1 ∷ entry 2 1 ∷ entry 3 1 ∷ []))
      alike_room (Memᴰ.head refl)

dial_target-HasScheme_example :
    (HasScheme "a:1" × (dial_target "a:1" ≡ "a:1"))
    ⊎ (¬ HasScheme "a:1" × (dial_target "a:1" ≡ "passthrough:///a:1"))
dial_target-HasScheme_example = dial_target-HasScheme "a:1"

dialled : dial_target "a:1" ≡ "passthrough:///a:1"
unfolding dial_target has_scheme
dialled = refl

compares_all : run "compare" [] ≡ compare_logs default_cluster
unfolding run
compares_all = refl

needs_value : run "write" ("a" ∷ []) ≡ usage_error "write"
unfolding run
needs_value = refl
