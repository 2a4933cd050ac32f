-- ===== src/Raftctl/Range.antt =====
-- The range of indexes that `compare` (cmd/raftctl/main.go) looks at.
use mathlib.Core.List.{Memᴰ}
use mathlib.Core.List.Memᴰ
use log_replicator_raft.Common.{
  ℕ, ◌+◌, ◌-◌, ◌^◌, ◌≤◌, ◌<◌, min, max, String, refl, ap, inl, inr, [], ◌∷◌, arith,
}
use log_replicator_raft.Raft.Inspect.{LogReply}
use log_replicator_raft.Raftctl.Compare.{Reports, comparable, comparable_range}

-- A report whose snapshot index is below the largest uint64.
abbrev pub HasRoom : Reports → Type 0
HasRoom reports = (x : String × LogReply) → Memᴰ x reports → x.1.snapshot_index + 1 < 2 ^ 64

-- A range that starts behind the index and ends at most at the other one.
abbrev pub Between : ℕ → ℕ → ℕ × ℕ → Type 0
Between low high range = (low < range.0) × (range.1 ≤ high)

comparable-Between :
    (reports : Reports) (from through : ℕ)
    → from + 1 < 2 ^ 64
    → HasRoom reports
    → Between from through (comparable from through reports)
unfolding comparable
comparable-Between [] from through low room = (omega arith, omega arith)
comparable-Between ((address, report) ∷ reports) from through low room =
    let here = room (address, report) (Memᴰ.head refl) in
    let rest =
      comparable-Between reports (max from report.snapshot_index) (min through report.commit_index)
        (omega arith) (λ x m. room x (Memᴰ.tail m)) in
    (omega arith, omega arith)

comparable_member :
    (reports : Reports) (from through : ℕ) (x : String × LogReply)
    → from + 1 < 2 ^ 64
    → HasRoom reports
    → Memᴰ x reports
    → Between x.1.snapshot_index x.1.commit_index (comparable from through reports)
unfolding comparable
comparable_member [] from through x low room m = absurd (Memᴰ.not-nil m)
comparable_member ((address, report) ∷ reports) from through x low room m =
    elim (Memᴰ.cases_cons m) [
      | inl e ↦
          let here = room (address, report) (Memᴰ.head refl) in
          let rest =
            comparable-Between reports (max from report.snapshot_index)
              (min through report.commit_index) (omega arith) (λ x m. room x (Memᴰ.tail m)) in
          let snapshots = ap (λ (y : String × LogReply). y.1.snapshot_index) e in
          let commits = ap (λ (y : String × LogReply). y.1.commit_index) e in
          (omega arith, omega arith)
      | inr m' ↦
          let here = room (address, report) (Memᴰ.head refl) in
          comparable_member reports (max from report.snapshot_index)
            (min through report.commit_index) x (omega arith) (λ x m. room x (Memᴰ.tail m)) m'
    ]

-- The range of the comparison starts behind the snapshot of every node that reported and ends at
-- most at its commit index, when every snapshot index leaves room for one more in 64 bits.
pub comparable_range-Between :
    (reports : Reports) (x : String × LogReply)
    → HasRoom reports
    → Memᴰ x reports
    → Between x.1.snapshot_index x.1.commit_index (comparable_range reports)
unfolding comparable_range
comparable_range-Between reports x room m =
    comparable_member reports 0 (2 ^ 64 - 1) x (omega arith) room m
