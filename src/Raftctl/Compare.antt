-- ===== src/Raftctl/Compare.antt =====
-- `compare` of cmd/raftctl/main.go. The answers of the nodes are given; Go goes over the map of reports in
-- an order of its own, anew in each loop, so the two orders are parameters.
use Prim.Native.Char.{Char, char}
use log_replicator_raft.Common.{
  ℕ, ◌+◌, ◌-◌, ◌%◌, ◌^◌, min, max, String, Option, none, some, List, [], ◌∷◌, ◌||◌, ltb, same,
  succ64, if◌then◌else◌, length, not, ◌⊎◌, inl, inr,
}
use log_replicator_raft.Common.Decimal.{decimal}
use log_replicator_raft.Storage.Rows.{Entry}
use log_replicator_raft.Raft.Inspect.{LogReply}

pub data Answer : Type 0 where
  answered : LogReply → Answer
  refused : String → Answer

pub data Comparison : Type 0 where
  unreachable : String → String → Comparison
  differ : String → String → ℕ → Comparison
  agree : ℕ → ℕ → ℕ → Comparison

-- The map of the reports, by their addresses.
abbrev pub Reports : Type 0
Reports = List (String × LogReply)

unfoldable pub stored : String → LogReply → Reports → Reports
stored address report [] = (address, report) ∷ []
stored address report ((a, r) ∷ reports) =
    let rest = stored address report reports in
    if same a address then (address, report) ∷ reports else (a, r) ∷ rest

-- Above the highest snapshot and up to the lowest commit index.
unfoldable pub comparable : ℕ → ℕ → Reports → ℕ × ℕ
comparable from through [] = (succ64 from, through)
comparable from through ((_, report) ∷ reports) =
    comparable (max from report.snapshot_index) (min through report.commit_index) reports

unfoldable pub comparable_range : Reports → ℕ × ℕ
unfolding comparable
comparable_range reports = comparable 0 (2 ^ 64 - 1) reports

abbrev pub slash : Char
slash = char 47 tt

-- `fmt.Sprintf("%d/%d/%s", index, term, command)`
unfoldable pub described : Entry → String
described e = decimal e.index (String.◌∷◌ slash (decimal e.term (String.◌∷◌ slash e.command)))

unfoldable pub describe_entries : ℕ → ℕ → List Entry → List String
unfolding described
describe_entries from through [] = []
describe_entries from through (e ∷ entries) =
    let rest = describe_entries from through entries in
    if ltb e.index from || ltb through e.index then rest else described e ∷ rest

-- `none` where the texts are the same.
unfoldable pub first_difference : List String → List String → Option ℕ
first_difference [] [] = none
first_difference [] (r ∷ right) = some 0
first_difference (l ∷ left) [] = some 0
first_difference (l ∷ left) (r ∷ right) =
    let rest = first_difference left right in if not (same l r) then some 0 else next_place rest
  where
    next_place : Option ℕ → Option ℕ
    next_place o = elim o [ none ↦ none | some i ↦ some (i + 1) ]

-- The loop after the first report, whose entries are the reference.
unfoldable pub differing : ℕ → ℕ → String → List String → Reports → Option Comparison
unfolding describe_entries first_difference
differing from through ref_address reference [] = none
differing from through ref_address reference ((address, report) ∷ reports) =
    let rest = differing from through ref_address reference reports in
    found (first_difference reference (describe_entries from through report.entries)) rest
  where
    found : Option ℕ → Option Comparison → Option Comparison
    found o rest = elim o [
      | none ↦ rest
      | some i ↦ some (differ ref_address address ((from + i) % 2 ^ 64))
    ]

unfoldable pub disagreement : ℕ → ℕ → Reports → Option Comparison
unfolding differing
disagreement from through [] = none
disagreement from through ((address, report) ∷ reports) =
    differing from through address (describe_entries from through report.entries) reports

-- The comparison of the reports; each loop goes over the map in an order of its own.
unfoldable pub verdict : (Reports → Reports) → (Reports → Reports) → Reports → Comparison
unfolding comparable_range disagreement
verdict order order' reports =
    let (from, through) = comparable_range (order reports) in
    elim (disagreement from through (order' reports)) [
      | some d ↦ d
      | none ↦ agree (length reports) from through
    ]

-- The calls, one address after the other; the first that fails ends the command.
unfoldable pub gather : List (String × Answer) → Reports → Comparison ⊎ Reports
unfolding stored
gather [] reports = inr reports
gather ((address, refused message) ∷ answers) reports = inl (unreachable address message)
gather ((address, answered report) ∷ answers) reports =
    gather answers (stored address report reports)

unfoldable pub compare :
    (Reports → Reports) → (Reports → Reports) → List (String × Answer) → Comparison
unfolding gather verdict
compare order order' answers = elim (gather answers []) [
  | inl failed ↦ failed
  | inr reports ↦ verdict order order' reports
]
