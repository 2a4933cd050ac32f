-- ===== src/Raft/Votes/Granted.antt =====
-- What holds of the node once a vote was granted or a candidacy begun: the disk has it.
use mathlib.Core.Path.{subst}
use log_replicator_raft.Common.{
  ℕ, String, Bool, true, false, ◌≡◌, refl, sym, ap, Option, none, some, arith, ltb, not, ◌||◌,
  if◌then◌else◌,
}
use log_replicator_raft.Common.Action.{
  Result, ok, err, Action, Done, pure, gets, modify, resume, ◌>>=◌, ◌>>◌,
}
use log_replicator_raft.Storage.Store.{save_term_vote, last_index_and_term}
use log_replicator_raft.Storage.Spec.{with_term_vote}
use log_replicator_raft.Storage.Methods.{save_term_vote-Refines}
use log_replicator_raft.Raft.Types.{Node, VoteRequest, VoteReply}
use log_replicator_raft.Raft.Node.{
  lift, lift_internal, this, when, step_down, publish_state, reset_election_deadline, recover,
  or_value, is_leader,
}
use log_replicator_raft.Raft.Election.{
  voted_for_someone_else, up_to_date, refuse, grant, request_vote, become_candidate, promoted,
  announce, candidacy_of, Candidacy,
}
use log_replicator_raft.Raft.Votes.Frame.{Same, disk_term, disk_vote}
use log_replicator_raft.Raft.Votes.Handlers.{candidacy_of-IsFrame}
use log_replicator_raft.Raft.Votes.Stores.{publish_state-IsFrame, reset_election_deadline-IsFrame}

-- If the action at this state returns a value, the value and the state after it meet `P`.
pub record Ensures {A : Type 0} (x : Result A × Node) (P : A → Node → Type 0) : Type 0 where
  pub at : (a : A) → x.0 ≡ ok a → P a x.1

module _ {A B : Type 0} where
  pub bind-Ensures :
      {P : B → Node → Type 0} (m : Action Node A) (f : A → Action Node B) (n : Node)
      → ((a : A) → (m n).0 ≡ ok a → Ensures (f a (m n).1) P)
      → Ensures ((m >>= f) n) P
  bind-Ensures {P} m f n h = on (m n) h
    where
      on :
          (x : Result A × Node)
          → ((a : A) → x.0 ≡ ok a → Ensures (f a x.1) P)
          → Ensures (resume x.0 f x.1) P
      on (ok a, n') h = h a refl
      on (err e, n') h = record { at = λ b q. absurd (cc) }

-- The vote of `c` in the node's term, in memory and on disk.
pub record HasVoted (c : String) (n : Node) : Type 0 where
  pub memory : n.voted_for ≡ c
  pub stored_term : disk_term n ≡ n.current_term
  pub stored_vote : disk_vote n ≡ c

pub Same-HasVoted : {c : String} {n n' : Node} → HasVoted c n → Same n n' → HasVoted c n'
Same-HasVoted h s = record { memory = cc; stored_term = cc; stored_vote = cc }

-- After a write of term and vote that did not fail.
saved-HasVoted :
    (n : Node) (d : Done)
    → (lift (save_term_vote n.current_term n.voted_for) n).0 ≡ ok d
    → HasVoted n.voted_for (lift (save_term_vote n.current_term n.voted_for) n).1
unfolding lift with_term_vote
saved-HasVoted n d e =
    let o = (save_term_vote-Refines n.current_term n.voted_for).outcome n.store in
    record { memory = refl; stored_term = ground arith; stored_vote = ground arith }

saved_internally-HasVoted :
    (n : Node) (d : Done)
    → (lift_internal (save_term_vote n.current_term n.voted_for) n).0 ≡ ok d
    → HasVoted n.voted_for (lift_internal (save_term_vote n.current_term n.voted_for) n).1
unfolding lift_internal lift with_term_vote
saved_internally-HasVoted n d e =
    let o = (save_term_vote-Refines n.current_term n.voted_for).outcome n.store in
    record { memory = refl; stored_term = ground arith; stored_vote = ground arith }

pub ok-injective : {A : Type 0} {a b : A} → ok a ≡ ok b → a ≡ b
ok-injective e = cc

-- The reply of a granted vote carries the term in which the disk has the vote.
abbrev pub GrantedTo : String → VoteReply → Node → Type 0
GrantedTo c r n = r.vote_granted ≡ true → HasVoted c n × (r.term ≡ n.current_term)

reply-Ensures :
    (c : String) (n : Node)
    → HasVoted c n
    → Ensures
        ((do
          reset_election_deadline
          publish_state
          gets (λ n. record { term = n.current_term; vote_granted = true }))
          n)
        (GrantedTo c)
reply-Ensures c n h = bind-Ensures reset_election_deadline _ n (λ _ _.
    bind-Ensures publish_state _ (reset_election_deadline n).1 (λ _ _. record {
      at = λ r e g. (later, ap (λ (r : VoteReply). r.term) (sym (ok-injective e)));
    }))
  where
    later : HasVoted c (publish_state (reset_election_deadline n).1).1
    later =
        Same-HasVoted (Same-HasVoted h (reset_election_deadline-IsFrame.at n))
          (publish_state-IsFrame.at (reset_election_deadline n).1)

grant-Ensures : (req : VoteRequest) (n : Node) → Ensures (grant req n) (GrantedTo req.candidate_id)
unfolding grant
grant-Ensures req n =
    let n' : Node = record n { voted_for = req.candidate_id } in
    bind-Ensures (lift_internal (save_term_vote n'.current_term n'.voted_for)) _ n'
      (λ d e. reply-Ensures req.candidate_id _ (saved_internally-HasVoted n' d e))

-- The same from every state.
pub record Always {A : Type 0} (P : A → Node → Type 0) (m : Action Node A) : Type 0 where
  pub from : (n : Node) → Ensures (m n) P

module _ {A : Type 0} {P : A → Node → Type 0} where
  pub if-Always :
      (b : Bool) {m k : Action Node A} → Always P m → Always P k → Always P (if b then m else k)
  if-Always true h k = h
  if-Always false h k = k

  pub bind-Always :
      {B : Type 0} (m : Action Node B) {f : B → Action Node A}
      → ((b : B) → Always P (f b))
      → Always P (m >>= f)
  bind-Always m {f} h = record { from = λ n. bind-Ensures m f n (λ b _. (h b).from (m n).1) }

refuse-Always : (c : String) → Always (GrantedTo c) refuse
refuse-Always c = record { from = λ n. record { at = λ r e g. absurd (cc) } }

-- The end of `request_vote`.
decide-Always :
    (req : VoteRequest) (index term : ℕ)
    → Always (GrantedTo req.candidate_id) (do
      n ← this
      if voted_for_someone_else n.voted_for req.candidate_id || not (up_to_date req index term)
          then refuse
          else grant req)
decide-Always req index term = bind-Always this (λ n.
    if-Always
      (voted_for_someone_else n.voted_for req.candidate_id || not (up_to_date req index term))
      (refuse-Always req.candidate_id) (record { from = grant-Ensures req }))

request_vote-Always : (req : VoteRequest) → Always (GrantedTo req.candidate_id) (request_vote req)
unfolding request_vote
request_vote-Always req = bind-Always this (λ n.
    if-Always (ltb req.term n.current_term) (refuse-Always req.candidate_id) (
      bind-Always (when (ltb n.current_term req.term) (step_down req.term ""))
        (λ _. bind-Always (lift_internal last_index_and_term) (λ p. decide-Always req p.0 p.1))))

-- A granted vote is on disk, with its term, before it is answered, and the answer carries that
-- term.
pub request_vote-HasVoted :
    (req : VoteRequest) (n : Node) {r : VoteReply}
    → (request_vote req n).0 ≡ ok r
    → r.vote_granted ≡ true
    → HasVoted req.candidate_id (request_vote req n).1
      × (r.term ≡ (request_vote req n).1.current_term)
request_vote-HasVoted req n {r} e g = ((request_vote-Always req).from n).at r e g

-- The candidacy, if there is one, is for this term.
abbrev IsForTerm : ℕ → Option Candidacy → Type 0
IsForTerm t none = Unit
IsForTerm t (some round) = round.term ≡ t

candidacy_of-Always : (m : Node) → Always (λ o _. IsForTerm m.current_term o) (candidacy_of m)
unfolding candidacy_of
candidacy_of-Always m = bind-Always (lift last_index_and_term) (λ p. bind-Always publish_state (λ _.
    record {
      from = λ n. record { at = λ o e. subst (IsForTerm m.current_term) (ok-injective e) refl };
    }))

-- A candidacy in the term of the node whose vote is on disk.
abbrev IsBacked : String → Option Candidacy → Node → Type 0
IsBacked id o n = HasVoted id n × IsForTerm n.current_term o

announce-Ensures : (n : Node) → Ensures (announce n) (IsBacked n.voted_for)
unfolding announce
announce-Ensures n = bind-Ensures reset_election_deadline _ n (λ _ _.
    bind-Ensures (lift (save_term_vote n₁.current_term n₁.voted_for)) _ n₁
      (λ d e. record { at = λ o q. backed (saved-HasVoted n₁ d e) o q }))
  where
    n₁ : Node
    n₁ = (reset_election_deadline n).1

    n₂ : Node
    n₂ = (lift (save_term_vote n₁.current_term n₁.voted_for) n₁).1

    kept : Same n n₁
    kept = reset_election_deadline-IsFrame.at n

    backed :
        HasVoted n₁.voted_for n₂
        → (o : Option Candidacy) → (candidacy_of n₁ n₂).0 ≡ ok o
        → IsBacked n.voted_for o (candidacy_of n₁ n₂).1
    backed h o q =
        let s = (candidacy_of-IsFrame n₁).at n₂ in
        (
          subst (λ v. HasVoted v (candidacy_of n₁ n₂).1) kept.vote (Same-HasVoted h s),
          subst (λ t. IsForTerm t o) (sym s.term) (((candidacy_of-Always n₁).from n₂).at o q),
        )

-- A candidacy is returned only when its term and the vote of the node for itself are on disk.
pub become_candidate-HasVoted :
    (n : Node) {round : Candidacy}
    → (become_candidate n).0 ≡ ok (some round)
    → HasVoted n.id (become_candidate n).1 × (round.term ≡ (become_candidate n).1.current_term)
unfolding become_candidate recover
become_candidate-HasVoted n {round} e = by_role (is_leader n.role) e
  where
    attempt : Bool → Result (Option Candidacy) × Node
    attempt b = (if b then pure none else recover none (do modify promoted; announce)) n

    answered :
        (r : Result (Option Candidacy)) → or_value none r ≡ ok (some round) → r ≡ ok (some round)
    answered (ok o) q = q
    answered (err x) q = absurd (cc)

    by_role :
        (b : Bool)
        → (attempt b).0 ≡ ok (some round)
        → HasVoted n.id (attempt b).1 × (round.term ≡ (attempt b).1.current_term)
    by_role true q = absurd (cc)
    by_role false q =
        (announce-Ensures (promoted n)).at (some round) (answered (announce (promoted n)).0 q)
