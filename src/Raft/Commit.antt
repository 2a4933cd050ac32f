-- ===== src/Raft/Commit.antt =====
-- The commit rule (`advanceCommitLocked` of internal/raft/replication.go): which index a leader commits.
use log_replicator_raft.Common.{
  ℕ, zero, suc, ◌+◌, ◌-◌, ◌≤◌, ◌<◌, ◌≡◌, ◌≢◌, refl, sym, ◌∙◌, ◌⊎◌, inl, inr, Option, none, some,
  arith, leb, ◌==◌, ◌&&◌, if◌then◌else◌, [], ◌∷◌, List, String, Bool, length, filter, ap, ◌*◌, ◌↔◌,
}
use log_replicator_raft.Common.Action.{
  database, Result, ok, err, Action, Done, pure, modify, resume, ◌>>=◌, ◌>>◌,
}
use log_replicator_raft.Storage.Store.{term_at, last_index_and_term}
use log_replicator_raft.Storage.Spec.{known_term}
use log_replicator_raft.Storage.Methods.{term_at-Refines, last_index_and_term-Refines}
use log_replicator_raft.Raft.Types.{Node, Peer}
use log_replicator_raft.Raft.Node.{lift, this, ignoring, majority}
use log_replicator_raft.Raft.Command.{Codec}
use log_replicator_raft.Raft.Replication.{
  replica_count, scan_commit, advance_commit, apply_committed,
}
use log_replicator_raft.Raft.Votes.Granted.{ok-injective}
use log_replicator_raft.Raft.Holds.{IsLoose, apply_committed-Holds}

-- Whether a peer is known to hold the log up to an index.
abbrev holds : (String → ℕ) → ℕ → Peer → Bool
holds match_index k p = leb k (match_index p.id)

-- How many nodes hold the log up to an index: this one, and the peers that are known to.
unfoldable pub holders : (String → ℕ) → ℕ → List Peer → ℕ
holders match_index k peers = length (filter (holds match_index k) peers) + 1

-- The count of the code is their number.
pub replica_count-holders :
    (match_index : String → ℕ) (k : ℕ) (peers : List Peer)
    → replica_count match_index k peers ≡ holders match_index k peers
unfolding holders replica_count
replica_count-holders match_index k [] = refl
replica_count-holders match_index k (p ∷ peers) =
    let rest = replica_count-holders match_index k peers in ground arith

-- An entry of the current term that more than half of the nodes hold, this one included.
abbrev pub IsCommittable : Node → ℕ → Type 0
IsCommittable n k =
    (known_term k n.store.tables ≡ some n.current_term)
    × (length n.peers + 1 < 2 * holders n.match_index k n.peers)

-- Everything that the commit rule reads, and the commit index.
record Alike (n n' : Node) : Type 0 where
  term : n'.current_term ≡ n.current_term
  peers : n'.peers ≡ n.peers
  matched : n'.match_index ≡ n.match_index
  tables : n'.store.tables ≡ n.store.tables
  committed : n'.commit_index ≡ n.commit_index

Alike-trans : {n n' n'' : Node} → Alike n n' → Alike n' n'' → Alike n n''
Alike-trans h k = record {
  term = k.term ∙ h.term;
  peers = k.peers ∙ h.peers;
  matched = k.matched ∙ h.matched;
  tables = k.tables ∙ h.tables;
  committed = k.committed ∙ h.committed;
}

IsCommittable-Alike : {n n' : Node} (k : ℕ) → Alike n n' → IsCommittable n' k → IsCommittable n k
IsCommittable-Alike k h c = ground arith

-- What a lookup of the store answers.
abbrev Answers : Node → ℕ → Result (Option ℕ) × Node → Type 0
Answers n k x =
    Alike n x.1
    × ((x.0 ≡ ok (known_term k n.store.tables)) ⊎ ((x.0 ≡ err database) × (n.store.faults ≢ [])))

term_at-Answers : (n : Node) (k : ℕ) → Answers n k (lift (term_at k) n)
unfolding lift
term_at-Answers n k = let o = (term_at-Refines k).outcome n.store in ground arith

-- The candidate that the loop keeps after one index.
unfoldable pub better : Node → ℕ → ℕ → Option ℕ → ℕ
better n index committed none = committed
better n index committed (some term) =
    if (term == n.current_term)
      && leb (majority n.peers) (replica_count n.match_index index n.peers)
    then index
    else committed

-- A majority is more than half of the nodes.
pub majority-half : (peers : List Peer) (c : ℕ) → (majority peers ≤ c) ↔ (length peers + 1 < 2 * c)
unfolding majority
majority-half peers c = (λ h. omega arith, λ h. omega arith)

abbrev Chosen : Node → ℕ → ℕ → ℕ → Type 0
Chosen n index committed c = (c ≡ committed) ⊎ ((index ≤ c) × IsCommittable n c)

better-Chosen :
    (n n' : Node) (index committed : ℕ) (o : Option ℕ)
    → Alike n n'
    → o ≡ known_term index n.store.tables
    → Chosen n index committed (better n' index committed o)
unfolding better
better-Chosen n n' index committed none a e = inl refl
better-Chosen n n' index committed (some term) a e =
    let count = replica_count-holders n'.match_index index n'.peers in
    let half = majority-half n'.peers (holders n'.match_index index n'.peers) in
    let same_length = ap (λ (l : List Peer). length l) a.peers in ground arith

record Scanned (n : Node) (index committed : ℕ) (y : Result ℕ × Node) : Type 0 where
  alike : Alike n y.1
  chosen : (c : ℕ) → y.0 ≡ ok c → Chosen n index committed c

module _ (codec : Codec) where
  scan_commit-Scanned :
      (rounds index committed : ℕ) (n : Node)
      → Scanned n index committed (scan_commit codec rounds index committed n)
  unfolding scan_commit better
  scan_commit-Scanned zero index committed n = record {
    alike = record { term = refl; peers = refl; matched = refl; tables = refl; committed = refl };
    chosen = λ c e. inl (sym (ok-injective e));
  }
  scan_commit-Scanned (suc rounds) index committed n =
      on (lift (term_at index) n) (term_at-Answers n index)
        (λ k n'. scan_commit-Scanned rounds (index + 1) (better n' index committed k) n')
    where
      rest : Option ℕ → Action Node ℕ
      rest k = this >>= λ n. scan_commit codec rounds (index + 1) (better n index committed k)

      on :
          (x : Result (Option ℕ) × Node)
          → Answers n index x
          → ((k : Option ℕ) (n' : Node)
              → Scanned n'
                  (index + 1)
                  (better n' index committed k)
                  (scan_commit codec rounds (index + 1) (better n' index committed k) n'))
          → Scanned n index committed (resume x.0 rest x.1)
      on (err e, n') (a, _) h = record { alike = a; chosen = λ c e. absurd (cc) }
      on (ok k, n') (a, inl e) h = record {
        alike = Alike-trans a (h k n').alike;
        chosen = λ c q.
            let this_one = better-Chosen n n' index committed k a (ok-injective e) in
            let later = (h k n').chosen c q in let same = IsCommittable-Alike c a in ground arith;
      }
      on (ok k, n') (a, inr (e, _)) h = absurd (cc)

-- The applying of what is committed leaves the commit index alone.
abbrev SameCommit : Node → Node → Type 0
SameCommit n n' = n'.commit_index ≡ n.commit_index

SameCommit-IsLoose : IsLoose SameCommit
SameCommit-IsLoose = record {
  same = λ n. refl;
  then_ = λ h k. k ∙ h;
  stores = λ n s. refl;
  applies = λ n index. refl;
}

last_position-Alike : (n : Node) → Alike n (lift last_index_and_term n).1
unfolding lift
last_position-Alike n = let o = last_index_and_term-Refines.outcome n.store in ground arith

abbrev pub Justified : Node → Node → Type 0
Justified n n' =
    (n'.commit_index ≡ n.commit_index)
    ⊎ ((n.commit_index < n'.commit_index) × IsCommittable n n'.commit_index)

module _ (codec : Codec) where
  unfoldable pub moved : ℕ → Action Node Done
  moved committed = do modify (λ n. record n { commit_index = committed }); apply_committed codec

  pub commit_index-moved :
      (committed : ℕ) (n : Node) → (moved committed n).1.commit_index ≡ committed
  unfolding moved
  commit_index-moved committed n =
      (apply_committed-Holds SameCommit-IsLoose codec).at (record n { commit_index = committed })

  settled-Justified :
      (n n' : Node) (c : ℕ)
      → Alike n n'
      → Chosen n (n.commit_index + 1) n.commit_index c
      → Justified n ((if c == n.commit_index then pure tt else moved c) n').1
  settled-Justified n n' c a h = let m = commit_index-moved c n' in ground arith

  -- Committing moves the commit index, if at all, up to an entry of the current term that more than
  -- half of the nodes of the cluster hold, this one and each peer whose match index reaches it,
  -- whatever database calls fail.
  pub advance_commit_rule : (n : Node) → Justified n (advance_commit codec n).1
  unfolding advance_commit ignoring moved
  advance_commit_rule n = on_last (lift last_index_and_term n) (last_position-Alike n)
    where
      scanned : ℕ × ℕ → Action Node ℕ
      scanned p = scan_commit codec (p.0 - n.commit_index) (n.commit_index + 1) n.commit_index

      settle : ℕ → Action Node Done
      settle c = if c == n.commit_index then pure tt else moved c

      on_scan :
          (n' : Node) (y : Result ℕ × Node)
          → Alike n n'
          → Scanned n' (n.commit_index + 1) n.commit_index y
          → Justified n (resume y.0 settle y.1).1
      on_scan n' (ok c, n2) a s =
          let chosen = s.chosen c refl in
          let same = IsCommittable-Alike c a in
          settled-Justified n n2 c (Alike-trans a s.alike) (ground arith)
      on_scan n' (err e, n2) a s = inl (Alike-trans a s.alike).committed

      on_last :
          (x : Result (ℕ × ℕ) × Node)
          → Alike n x.1
          → Justified n (resume x.0 (λ p. scanned p >>= settle) x.1).1
      on_last (ok p, n') a =
          on_scan n' (scanned p n') a (
            scan_commit-Scanned codec (p.0 - n.commit_index) (n.commit_index + 1) n.commit_index n')
      on_last (err e, n') a = inl a.committed
