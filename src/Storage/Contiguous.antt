-- ===== src/Storage/Contiguous.antt =====
-- Logs without gaps: the rows of `log_entries` (internal/storage/storage.go) when their indexes follow
-- each other, and the statements on such rows.
use mathlib.Core.Path.{subst}
use mathlib.Core.List.{append_assoc, append-nil}
use log_replicator_raft.Common.{
  ℕ, ◌+◌, ◌≤◌, ◌<◌, ◌≡◌, refl, sym, ◌∙◌, ap, inl, inr, none, some, List, [], ◌∷◌, ◌++◌, arith, leb,
  length, Bool-cases,
}
use log_replicator_raft.Storage.Rows.{
  Entry, find_entry, upsert_entry, delete_ge, delete_le, last_entry,
}
use log_replicator_raft.Storage.Spec.{upsert_entries}

-- The indexes of the rows are `next`, `next + 1` and so on.
abbrev pub IsRun : ℕ → List Entry → Type 0
IsRun next [] = Unit
IsRun next (r ∷ rows) = (r.index ≡ next) × IsRun (next + 1) rows

pub find_entry_before :
    (k next : ℕ) (rows : List Entry) → IsRun next rows → k < next → find_entry k rows ≡ none
unfolding find_entry
find_entry_before k next [] run h = refl
find_entry_before k next (r ∷ rows) run h =
    let rest = find_entry_before k (next + 1) rows run.1 (omega arith) in
    let at = run.0 in ground arith

-- Where a row is found and where none is.
pub find_entry-bounds :
    (k next : ℕ) (rows : List Entry) (e : Entry)
    → IsRun next rows
    → find_entry k rows ≡ some e
    → (next ≤ k) × (k < next + length rows) × (e.index ≡ k)
unfolding find_entry
find_entry-bounds k next [] e run h = absurd (cc)
find_entry-bounds k next (r ∷ rows) e run h =
    let at = run.0 in ground (arith, find_entry-bounds k (next + 1) rows e run.1)

pub find_entry-none :
    (k next : ℕ) (rows : List Entry)
    → IsRun next rows
    → find_entry k rows ≡ none
    → next ≤ k
    → next + length rows ≤ k
unfolding find_entry
find_entry-none k next [] run h low = omega arith
find_entry-none k next (r ∷ rows) run h low =
    let at = run.0 in ground (arith, find_entry-none k (next + 1) rows run.1)

-- Deleting from an index on.
delete_ge-all :
    (k next : ℕ) (rows : List Entry) → IsRun next rows → k ≤ next → delete_ge k rows ≡ []
unfolding delete_ge
delete_ge-all k next [] run h = refl
delete_ge-all k next (r ∷ rows) run h =
    let at = run.0 in ground (arith, delete_ge-all k (next + 1) rows run.1)

pub delete_ge-IsRun :
    (k next : ℕ) (rows : List Entry) → IsRun next rows → IsRun next (delete_ge k rows)
unfolding delete_ge
delete_ge-IsRun k next [] run = tt
delete_ge-IsRun k next (r ∷ rows) run = elim (Bool-cases (leb k r.index)) [
  | inl t ↦ rw t (let at = run.0 in rw (delete_ge-all k (next + 1) rows run.1 (ground arith)) tt)
  | inr f ↦ rw f (run.0, delete_ge-IsRun k (next + 1) rows run.1)
]

pub length-delete_ge :
    (k next : ℕ) (rows : List Entry)
    → IsRun next rows
    → next ≤ k
    → k ≤ next + length rows
    → next + length (delete_ge k rows) ≡ k
unfolding delete_ge
length-delete_ge k next [] run low high = omega arith
length-delete_ge k next (r ∷ rows) run low high =
    let at = run.0 in
    ground (arith, length-delete_ge k (next + 1) rows run.1, delete_ge-all k (next + 1) rows run.1)

-- The rows before the index stay.
pub find_entry-delete_ge :
    (k j : ℕ) (rows : List Entry) → j < k → find_entry j (delete_ge k rows) ≡ find_entry j rows
unfolding delete_ge find_entry
find_entry-delete_ge k j [] h = refl
find_entry-delete_ge k j (r ∷ rows) h = ground (arith, find_entry-delete_ge k j rows h)

-- Deleting up to an index, which a snapshot does.
pub delete_le-later :
    (k next : ℕ) (rows : List Entry) → IsRun next rows → k < next → delete_le k rows ≡ rows
unfolding delete_le
delete_le-later k next [] run h = refl
delete_le-later k next (r ∷ rows) run h =
    let at = run.0 in ground (arith, delete_le-later k (next + 1) rows run.1)

pub delete_le-IsRun :
    (k next : ℕ) (rows : List Entry)
    → IsRun next rows
    → next ≤ k + 1
    → IsRun (k + 1) (delete_le k rows)
unfolding delete_le
delete_le-IsRun k next [] run h = tt
delete_le-IsRun k next (r ∷ rows) run h = elim (Bool-cases (leb r.index k)) [
  | inl t ↦ rw t (let at = run.0 in delete_le-IsRun k (next + 1) rows run.1 (ground arith))
  | inr f ↦ rw f (
      let at = run.0 in
      let here : next ≡ k + 1 = ground arith in
      (
        at ∙ here,
        subst (λ m. IsRun (m + 1) (delete_le k rows)) here
            (rw (delete_le-later k (next + 1) rows run.1 (omega arith)) run.1),
      ))
]

-- Appending.
pub append-IsRun :
    (next end : ℕ) (rows new : List Entry)
    → IsRun next rows
    → next + length rows ≡ end
    → IsRun end new
    → IsRun next (rows ++ new)
append-IsRun next end [] new run h more =
    let e : end ≡ next = omega arith in subst (λ m. IsRun m new) e more
append-IsRun next end (r ∷ rows) new run h more =
    (run.0, append-IsRun (next + 1) end rows new run.1 (omega arith) more)

pub length-append : (rows new : List Entry) → length (rows ++ new) ≡ length rows + length new
length-append [] new = omega arith
length-append (r ∷ rows) new = omega (arith, length-append rows new)

pub find_entry-append :
    (k : ℕ) (rows new : List Entry) (e : Entry)
    → find_entry k rows ≡ some e
    → find_entry k (rows ++ new) ≡ some e
unfolding find_entry
find_entry-append k [] new e h = absurd (cc)
find_entry-append k (r ∷ rows) new e h = ground (arith, find_entry-append k rows new e)

pub find_entry-append_none :
    (k : ℕ) (rows new : List Entry)
    → find_entry k rows ≡ none
    → find_entry k (rows ++ new) ≡ find_entry k new
unfolding find_entry
find_entry-append_none k [] new h = refl
find_entry-append_none k (r ∷ rows) new h = ground (arith, find_entry-append_none k rows new)

upsert_entry-append :
    (next : ℕ) (rows : List Entry) (e : Entry)
    → IsRun next rows
    → next + length rows ≤ e.index
    → upsert_entry e rows ≡ rows ++ e ∷ []
unfolding upsert_entry
upsert_entry-append next [] e run h = refl
upsert_entry-append next (r ∷ rows) e run h =
    let at = run.0 in ground (arith, upsert_entry-append (next + 1) rows e run.1)

-- Entries that follow on a log are appended to it.
pub upsert_entries-append :
    (next end : ℕ) (rows new : List Entry)
    → IsRun next rows
    → next + length rows ≡ end
    → IsRun end new
    → upsert_entries new rows ≡ rows ++ new
unfolding upsert_entries
upsert_entries-append next end rows [] run h more = sym (append-nil rows)
upsert_entries-append next end rows (e ∷ new) run h more =
    let at = more.0 in
    ap (upsert_entries new) (upsert_entry-append next rows e run (omega arith))
    ∙ upsert_entries-append next (end + 1) (rows ++ e ∷ []) new
        (append-IsRun next end rows (e ∷ []) run h (at, tt))
        (omega (arith, length-append rows (e ∷ []))) more.1
    ∙ append_assoc rows (e ∷ []) new

-- The last row.
pub last_entry-IsRun :
    (next : ℕ) (rows : List Entry) (e : Entry)
    → IsRun next rows
    → last_entry rows ≡ some e
    → e.index + 1 ≡ next + length rows
unfolding last_entry
last_entry-IsRun next [] e run h = absurd (cc)
last_entry-IsRun next (r ∷ []) e run h = let at = run.0 in ground arith
last_entry-IsRun next (r ∷ r' ∷ rows) e run h =
    omega (arith, last_entry-IsRun (next + 1) (r' ∷ rows) e run.1 h)

pub last_entry-none : (rows : List Entry) → last_entry rows ≡ none → rows ≡ []
unfolding last_entry
last_entry-none [] h = refl
last_entry-none (r ∷ []) h = absurd (cc)
last_entry-none (r ∷ r' ∷ rows) h = absurd (ground (arith, last_entry-none (r' ∷ rows) h))

pub le-middle :
    (next : ℕ) (before after : List Entry) (e : Entry)
    → IsRun next (before ++ e ∷ after)
    → next ≤ e.index
le-middle next [] after e run = let at = run.0 in omega arith
le-middle next (r ∷ before) after e run =
    let rest = le-middle (next + 1) before after e run.1 in omega arith

-- Every row of a log without gaps is found at its index.
pub find_entry-middle :
    (next : ℕ) (before after : List Entry) (e : Entry)
    → IsRun next (before ++ e ∷ after)
    → find_entry e.index (before ++ e ∷ after) ≡ some e
unfolding find_entry
find_entry-middle next [] after e run = ground arith
find_entry-middle next (r ∷ before) after e run =
    let at = run.0 in
    let later = le-middle (next + 1) before after e run.1 in
    ground (arith, find_entry-middle (next + 1) before after e run.1)

pub find_entry-beyond :
    (k next : ℕ) (rows : List Entry)
    → IsRun next rows
    → next + length rows ≤ k
    → find_entry k rows ≡ none
unfolding find_entry
find_entry-beyond k next [] run h = refl
find_entry-beyond k next (r ∷ rows) run h =
    let at = run.0 in ground (arith, find_entry-beyond k (next + 1) rows run.1)
