-- ===== src/Raft/Matching.antt =====
-- What a follower's log holds after it stored a leader's entries (`storeLeaderEntriesLocked` of
-- internal/raft/follower.go): the log as a function of the old one and the entries.

use mathlib.Core.List.{append_assoc, append-nil}
use log_replicator_raft.Common.{
  ℕ, ◌≡◌, refl, sym, ◌∙◌, ap, ◌⊎◌, inl, inr, Bool, true, false, Option, none, some, List, [], ◌∷◌,
  ◌++◌, arith, leb, ltb, ◌==◌, ◌||◌, max, if◌then◌else◌, Bool-cases,
}
use log_replicator_raft.Common.Action.{
  Result, ok, err, Error, database, resume, Action, Done, pure, ◌>>◌,
}
use log_replicator_raft.Storage.Rows.{Entry, Tables, find_entry, delete_ge}
use log_replicator_raft.Storage.Store.{term_at, delete_from}
use log_replicator_raft.Storage.Spec.{known_term, upsert_entries, with_log}
use log_replicator_raft.Storage.Methods.{term_at-Refines, delete_from-Refines}
use log_replicator_raft.Raft.Types.{Node}
use log_replicator_raft.Raft.Node.{lift, when}
use log_replicator_raft.Raft.Votes.Granted.{ok-injective}
use log_replicator_raft.Raft.Follower.{holds_term, is_known, rest_missing, scan_entries}

abbrev pub term_of : Option Entry → Option ℕ
term_of none = none
term_of (some e) = some e.term

-- The entries behind a snapshot.
unfoldable pub above : ℕ → List Entry → List Entry
above si [] = []
above si (e ∷ entries) = if leb e.index si then above si entries else e ∷ above si entries

-- The log once the entries are stored: those that it holds already are skipped, and the first other one
-- replaces what stands at its index and behind.
unfoldable pub merged : ℕ → List Entry → List Entry → List Entry
unfolding above upsert_entries delete_ge find_entry
merged si [] rows = rows
merged si (e ∷ entries) rows =
    let local = term_of (find_entry e.index rows) in
    if leb e.index si || holds_term local e.term
    then merged si entries rows
    else upsert_entries (e ∷ above si entries)
        (if is_known local then delete_ge e.index rows else rows)

rest_missing-above :
    (si : ℕ) (entries : List Entry) (m : ℕ) (missing : List Entry)
    → (rest_missing si entries m missing).1 ≡ missing ++ above si entries
unfolding rest_missing above
rest_missing-above si [] m missing = sym (append-nil missing)
rest_missing-above si (e ∷ entries) m missing = elim (Bool-cases (leb e.index si)) [
  | inl t ↦ rw t (rest_missing-above si entries m missing)
  | inr f ↦ rw f (
      rest_missing-above si entries (max m e.index) (missing ++ e ∷ [])
      ∙ append_assoc missing (e ∷ []) (above si entries))
]

pub known_term-find_entry :
    (k : ℕ) (t : Tables)
    → leb k t.metadata.snapshot_index ≡ false
    → known_term k t ≡ term_of (find_entry k t.log_entries)
unfolding known_term
known_term-find_entry k t h =
    elim (find_entry k t.log_entries)
      as (λ o.
        (if k == 0
          then some 0
          else if k == t.metadata.snapshot_index
          then some t.metadata.snapshot_term
          else if ltb k t.metadata.snapshot_index
          then none
          else elim o [ none ↦ none | some e ↦ some e.term ])
        ≡ term_of o) [ none ↦ ground arith | some e ↦ ground arith ]

-- The rows that a store call of the handler may leave: the old ones, or those before some index.
pub record IsCut (t : Tables) (rows : List Entry) : Type 0 where
  pub from : (rows ≡ t.log_entries) ⊎ ((k : ℕ) × (rows ≡ delete_ge k t.log_entries))

-- What the scan leaves, and what is still to be appended.
pub record Scanned (entries : List Entry) (t : Tables) (x : Result (ℕ × List Entry) × Node)
    : Type 0 where
  pub rows : List Entry
  pub tables : x.1.store.tables ≡ with_log rows t
  pub cut : IsCut t rows
  pub done :
      (m : ℕ) (missing : List Entry)
      → x.0 ≡ ok (m, missing)
      → upsert_entries missing rows ≡ merged t.metadata.snapshot_index entries t.log_entries

abbrev Looked : ℕ → Tables → Result (Option ℕ) × Node → Type 0
Looked k t x = (x.1.store.tables ≡ t) × ((x.0 ≡ ok (known_term k t)) ⊎ (x.0 ≡ err database))

term_at-Looked :
    (k : ℕ) (n : Node) (t : Tables) → n.store.tables ≡ t → Looked k t (lift (term_at k) n)
unfolding lift
term_at-Looked k n t h = let o = (term_at-Refines k).outcome n.store in ground arith

-- Dropping a tail that conflicts.
abbrev Dropped : Bool → ℕ → Tables → Result Done × Node → Type 0
Dropped b k t x =
    ((x.0 ≡ ok tt)
      × (x.1.store.tables ≡ with_log (if b then delete_ge k t.log_entries else t.log_entries) t))
    ⊎ ((x.0 ≡ err database) × (x.1.store.tables ≡ t))

delete_from-Dropped :
    (b : Bool) (k : ℕ) (n : Node) (t : Tables)
    → n.store.tables ≡ t
    → Dropped b k t (when b (lift (delete_from k)) n)
unfolding lift
delete_from-Dropped true k n t h = let o = (delete_from-Refines k).outcome n.store in ground arith
delete_from-Dropped false k n t h = inl (refl, h)

failed-Scanned :
    (entries : List Entry) (t : Tables) (x : Error) (n : Node)
    → n.store.tables ≡ t
    → Scanned entries t (err x, n)
failed-Scanned entries t x n h = record {
  rows = t.log_entries;
  tables = h;
  cut = record { from = inl refl };
  done = λ m missing e. absurd (cc);
}

-- The first entry that is not there: the rest of the request is to be appended.
missing-Scanned :
    (e : Entry) (entries : List Entry) (matched : ℕ) (t : Tables) (x : Result Done × Node)
    → leb e.index t.metadata.snapshot_index ≡ false
    → holds_term (term_of (find_entry e.index t.log_entries)) e.term ≡ false
    → Dropped (is_known (term_of (find_entry e.index t.log_entries))) e.index t x
    → Scanned (e ∷ entries) t (
        resume x.0
          (λ _.
            pure (rest_missing t.metadata.snapshot_index entries (max matched e.index) (e ∷ [])))
          x.1)
unfolding merged
missing-Scanned e entries matched t (ok d, n) over differs (inl (_, h)) = record {
  rows =
      if is_known (term_of (find_entry e.index t.log_entries))
      then delete_ge e.index t.log_entries
      else t.log_entries;
  tables = h;
  cut = record { from = cut (is_known (term_of (find_entry e.index t.log_entries))) };
  done = λ m missing q.
      let all =
        rest_missing-above t.metadata.snapshot_index entries (max matched e.index) (e ∷ []) in
      let same : missing ≡ e ∷ above t.metadata.snapshot_index entries =
        ap (λ (p : ℕ × List Entry). p.1) (sym (ok-injective q)) ∙ all in
      rw (same, over, differs) refl;
}
  where
    cut :
        (b : Bool)
        → ((if b then delete_ge e.index t.log_entries else t.log_entries) ≡ t.log_entries)
          ⊎ ((k : ℕ) × ((if b then delete_ge e.index t.log_entries else t.log_entries)
                ≡ delete_ge k t.log_entries))
    cut true = inr (e.index, refl)
    cut false = inl refl
missing-Scanned e entries matched t (ok d, n) over differs (inr (q, _)) = absurd (cc)
missing-Scanned e entries matched t (err x, n) over differs (inl (q, _)) = absurd (cc)
missing-Scanned e entries matched t (err x, n) over differs (inr (q, h)) =
    failed-Scanned (e ∷ entries) t x n h

-- An entry that is skipped.
skipped-Scanned :
    (e : Entry) (entries : List Entry) (t : Tables) (x : Result (ℕ × List Entry) × Node)
    → (leb e.index t.metadata.snapshot_index
        || holds_term (term_of (find_entry e.index t.log_entries)) e.term)
      ≡ true
    → Scanned entries t x
    → Scanned (e ∷ entries) t x
unfolding merged
skipped-Scanned e entries t x skip s = record {
  rows = s.rows;
  tables = s.tables;
  cut = s.cut;
  done = λ m missing q. rw skip (s.done m missing q);
}

pub scan_entries-Scanned :
    (entries : List Entry) (matched : ℕ) (n : Node) (t : Tables)
    → n.store.tables ≡ t
    → Scanned entries t (scan_entries t.metadata.snapshot_index entries matched n)
unfolding scan_entries merged
scan_entries-Scanned [] matched n t h = record {
  rows = t.log_entries;
  tables = h;
  cut = record { from = inl refl };
  done = λ m missing q.
      let none_missing : missing ≡ [] = ap (λ (p : ℕ × List Entry). p.1) (sym (ok-injective q)) in
      rw none_missing refl;
}
scan_entries-Scanned (e ∷ entries) matched n t h =
    let si = t.metadata.snapshot_index in
    elim (Bool-cases (leb e.index si)) [
      | inl low ↦ rw low (
          skipped-Scanned e entries t (scan_entries si entries matched n) (rw low refl)
            (scan_entries-Scanned entries matched n t h))
      | inr over ↦ rw over (
          looked over (lift (term_at e.index) n) (term_at-Looked e.index n t h)
            (scan_entries-Scanned entries (max matched e.index)))
    ]
  where
    si : ℕ
    si = t.metadata.snapshot_index

    step : Option ℕ → Action Node (ℕ × List Entry)
    step local =
        if holds_term local e.term
        then scan_entries si entries (max matched e.index)
        else when (is_known local) (lift (delete_from e.index))
          >> pure (rest_missing si entries (max matched e.index) (e ∷ []))

    looked :
        leb e.index si ≡ false
        → (x : Result (Option ℕ) × Node) → Looked e.index t x
        → ((n' : Node) (t : Tables)
            → n'.store.tables ≡ t
            → Scanned entries t
                (scan_entries t.metadata.snapshot_index entries (max matched e.index) n'))
        → Scanned (e ∷ entries) t (resume x.0 step x.1)
    looked over (ok local, n') (h, inl q) rest =
        let known : local ≡ term_of (find_entry e.index t.log_entries) =
          ok-injective q ∙ known_term-find_entry e.index t over in
        rw known
          (elim (Bool-cases (holds_term (term_of (find_entry e.index t.log_entries)) e.term)) [
            | inl holds ↦
                rw holds (skipped-Scanned e entries t _ (rw (over, holds) refl) (rest n' t h))
            | inr differs ↦ rw differs (
                missing-Scanned e entries matched t _ over differs (
                  delete_from-Dropped (is_known (term_of (find_entry e.index t.log_entries)))
                    e.index n' t h))
          ])
    looked over (ok local, n') (h, inr q) rest = absurd (cc)
    looked over (err x, n') (h, q) rest = failed-Scanned (e ∷ entries) t x n' h
