-- ===== src/Raft/Merged.antt =====
-- The log that `storeLeaderEntriesLocked` of internal/raft/follower.go leaves, for logs and requests
-- without gaps.
use mathlib.Core.Path.{subst}
use log_replicator_raft.Common.{
  ℕ, ◌+◌, ◌≤◌, ◌<◌, ◌≡◌, refl, sym, ◌∙◌, ap, inl, inr, Bool, true, false, Option, none, some, List,
  [], ◌∷◌, ◌++◌, arith, leb, ◌||◌, Bool-cases, length, All,
}
use log_replicator_raft.Storage.Rows.{Entry, find_entry, delete_ge}
use log_replicator_raft.Storage.Spec.{upsert_entries}
use log_replicator_raft.Storage.Contiguous.{
  IsRun, find_entry-bounds, find_entry-none, delete_ge-IsRun, length-delete_ge,
  find_entry-delete_ge, append-IsRun, find_entry-append, find_entry-append_none, find_entry-middle,
  upsert_entries-append, find_entry-beyond, le-middle,
}
use log_replicator_raft.Raft.Follower.{holds_term}
use log_replicator_raft.Raft.Matching.{term_of, above, merged}

above-run :
    (si next : ℕ) (entries : List Entry)
    → IsRun next entries
    → si < next
    → above si entries ≡ entries
unfolding above
above-run si next [] run h = refl
above-run si next (e ∷ entries) run h =
    let at = run.0 in ground (arith, above-run si (next + 1) entries run.1)

-- Whether an entry of a request is skipped.
abbrev pub skips : ℕ → Entry → List Entry → Bool
skips si e rows = leb e.index si || holds_term (term_of (find_entry e.index rows)) e.term

-- A log and a request that follow on the same snapshot: the request starts within the log or right
-- behind it.
pub record Fits (si next : ℕ) (rows entries : List Entry) : Type 0 where
  pub log : IsRun (si + 1) rows
  pub request : IsRun next entries
  pub meets : next ≤ si + 1 + length rows

-- The rows in front of the first entry that is not skipped.
record Base (si : ℕ) (e : Entry) (entries rows : List Entry) : Type 0 where
  kept : List Entry
  run : IsRun (si + 1) kept
  end : si + 1 + length kept ≡ e.index
  result : merged si (e ∷ entries) rows ≡ kept ++ e ∷ entries
  keeps : (k : ℕ) → k < e.index → find_entry k kept ≡ find_entry k rows

replaced-Base :
    (si next : ℕ) (e : Entry) (entries rows : List Entry)
    → Fits si next rows (e ∷ entries)
    → skips si e rows ≡ false
    → Base si e entries rows
unfolding merged
replaced-Base si next e entries rows f s = on (find_entry e.index rows) refl s
  where
    high : si < e.index
    high = ground arith

    joined :
        (kept : List Entry)
        → IsRun (si + 1) kept
        → si + 1 + length kept ≡ e.index
        → upsert_entries (e ∷ above si entries) kept ≡ kept ++ e ∷ entries
    joined kept run end =
        let at = f.request.0 in
        ap (λ (l : List Entry). upsert_entries (e ∷ l) kept)
          (above-run si (next + 1) entries f.request.1 (omega (arith, high)))
        ∙ upsert_entries-append (si + 1) e.index kept (e ∷ entries) run end
            (refl, subst (λ m. IsRun (m + 1) entries) (sym at) f.request.1)

    on :
        (o : Option Entry)
        → find_entry e.index rows ≡ o
        → (leb e.index si || holds_term (term_of (find_entry e.index rows)) e.term) ≡ false
        → Base si e entries rows
    on none miss s =
        let at = f.request.0 in
        let meets = f.meets in
        let far = find_entry-none e.index (si + 1) rows f.log miss (omega (arith, high)) in
        let end : si + 1 + length rows ≡ e.index = omega arith in
        record {
          kept = rows;
          run = f.log;
          end = end;
          result = rw s (rw miss (joined rows f.log end));
          keeps = λ k h. refl;
        }
    on (some r) found s =
        let (low, far, _) = find_entry-bounds e.index (si + 1) rows r f.log found in
        let run = delete_ge-IsRun e.index (si + 1) rows f.log in
        let end = length-delete_ge e.index (si + 1) rows f.log low (omega arith) in
        record {
          kept = delete_ge e.index rows;
          run = run;
          end = end;
          result = rw s (rw found (joined (delete_ge e.index rows) run end));
          keeps = λ k h. find_entry-delete_ge e.index k rows h;
        }

skipped-Fits :
    (si next : ℕ) (e : Entry) (entries rows : List Entry)
    → Fits si next rows (e ∷ entries)
    → skips si e rows ≡ true
    → Fits si (next + 1) rows entries
skipped-Fits si next e entries rows f s = record {
  log = f.log;
  request = f.request.1;
  meets = on (find_entry e.index rows) refl s;
}
  where
    on :
        (o : Option Entry)
        → find_entry e.index rows ≡ o
        → (leb e.index si || holds_term (term_of o) e.term) ≡ true
        → next + 1 ≤ si + 1 + length rows
    on none miss s = let at = f.request.0 in ground arith
    on (some r) found s =
        let at = f.request.0 in
        let bounds = find_entry-bounds e.index (si + 1) rows r f.log found in omega arith

pub merged-IsRun :
    (si next : ℕ) (entries rows : List Entry)
    → Fits si next rows entries
    → IsRun (si + 1) (merged si entries rows)
unfolding merged
merged-IsRun si next [] rows f = f.log
merged-IsRun si next (e ∷ entries) rows f = elim (Bool-cases (skips si e rows)) [
  | inl s ↦ rw s (merged-IsRun si (next + 1) entries rows (skipped-Fits si next e entries rows f s))
  | inr s ↦
      let b = replaced-Base si next e entries rows f s in
      let at = f.request.0 in
      subst (IsRun (si + 1)) (sym b.result) (
        append-IsRun (si + 1) e.index b.kept (e ∷ entries) b.run b.end
          (refl, subst (λ m. IsRun (m + 1) entries) (sym at) f.request.1))
]

-- What stands before the request stays.
merged-keeps :
    (si next : ℕ) (entries rows : List Entry) (k : ℕ) (r : Entry)
    → Fits si next rows entries
    → k < next
    → find_entry k rows ≡ some r
    → find_entry k (merged si entries rows) ≡ some r
unfolding merged
merged-keeps si next [] rows k r f h found = found
merged-keeps si next (e ∷ entries) rows k r f h found = elim (Bool-cases (skips si e rows)) [
  | inl s ↦ rw s (
      merged-keeps si (next + 1) entries rows k r (skipped-Fits si next e entries rows f s)
        (omega arith) found)
  | inr s ↦
      let b = replaced-Base si next e entries rows f s in
      let at = f.request.0 in
      ap (find_entry k) b.result
      ∙ find_entry-append k b.kept (e ∷ entries) r (b.keeps k (omega arith) ∙ found)
]

-- The entries that replace a tail are found.
replaced_found :
    (si next : ℕ) (b : Entry) (entries before after : List Entry) (e : Entry) (rows : List Entry)
    → Fits si next rows (b ∷ entries)
    → skips si b rows ≡ false
    → b ∷ entries ≡ before ++ e ∷ after
    → term_of (find_entry e.index (merged si (b ∷ entries) rows)) ≡ some e.term
replaced_found si next b entries before after e rows f s split =
    let k = replaced-Base si next b entries rows f s in
    let at = f.request.0 in
    let run = subst (IsRun next) split f.request in
    let low = le-middle next before after e run in
    ap (λ l. term_of (find_entry e.index l)) (k.result ∙ ap (λ l. k.kept ++ l) split)
    ∙ ap term_of (
        find_entry-append_none e.index k.kept (before ++ e ∷ after)
          (find_entry-beyond e.index (si + 1) k.kept k.run (let end = k.end in omega arith))
        ∙ find_entry-middle next before after e run)

-- The entries of the request are in the log, with their terms.
pub find_entry-merged :
    (si next : ℕ) (before after : List Entry) (e : Entry) (rows : List Entry)
    → Fits si next rows (before ++ e ∷ after)
    → si < e.index
    → term_of (find_entry e.index (merged si (before ++ e ∷ after) rows)) ≡ some e.term
unfolding merged
find_entry-merged si next [] after e rows f h = elim (Bool-cases (skips si e rows)) [
  | inl s ↦ rw s (held (find_entry e.index rows) refl s (skipped-Fits si next e after rows f s))
  | inr s ↦ replaced_found si next e after [] after e rows f s refl
]
  where
    held :
        (o : Option Entry)
        → find_entry e.index rows ≡ o
        → (leb e.index si || holds_term (term_of o) e.term) ≡ true
        → Fits si (next + 1) rows after
        → term_of (find_entry e.index (merged si after rows)) ≡ some e.term
    held none miss s f' = absurd (ground arith)
    held (some r) found s f' =
        let at = f.request.0 in
        ap term_of (merged-keeps si (next + 1) after rows e.index r f' (omega arith) found)
        ∙ ground arith
find_entry-merged si next (b ∷ before) after e rows f h = elim (Bool-cases (skips si b rows)) [
  | inl s ↦ rw s (
      find_entry-merged si (next + 1) before after e rows
        (skipped-Fits si next b (before ++ e ∷ after) rows f s) h)
  | inr s ↦ replaced_found si next b (before ++ e ∷ after) (b ∷ before) after e rows f s refl
]

-- A request with nothing new leaves the log alone.
pub merged_held :
    (si : ℕ) (entries rows : List Entry)
    → All (λ e. skips si e rows ≡ true) entries
    → merged si entries rows ≡ rows
unfolding merged
merged_held si [] rows h = refl
merged_held si (e ∷ entries) rows h = rw (h.0) (merged_held si entries rows h.1)
