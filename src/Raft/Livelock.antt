-- ===== src/Raft/Livelock.antt =====
-- The rounds of Raft.Stall on diverging logs.
use mathlib.Core.Path.{subst}
use log_replicator_raft.Common.{
  ℕ, zero, suc, ◌+◌, ◌-◌, ◌≤◌, String, Bool, true, false, ◌≡◌, ◌≢◌, refl, sym, ◌∙◌, ap, Option,
  none, some, arith, ◌==◌,
}
use log_replicator_raft.Common.Action.{Result, ok, err}
use log_replicator_raft.Storage.Rows.{Tables}
use log_replicator_raft.Storage.Statement.{Store}
use log_replicator_raft.Storage.Spec.{known_term, last_position}
use log_replicator_raft.Raft.Types.{Node, AppendRequest, AppendReply}
use log_replicator_raft.Raft.Command.{Codec}
use log_replicator_raft.Raft.Follower.{append_entries_rpc, holds_term}
use log_replicator_raft.Raft.Replication.{
  AppendOutcome, accepted, rejected, failed, apply_committed, next_index_of,
}
use log_replicator_raft.Raft.Sender.{build_append_request, append_called, send_entries}
use log_replicator_raft.Raft.Stall.{
  follower_network, received, answer_of, after_request, exchange, catches_up, Diverges, Stuck,
}
use log_replicator_raft.Raft.Refusal.{
  Untouched, heard, heard-Untouched, refusal, append_entries_rpc-refusal,
}
use log_replicator_raft.Raft.Offer.{
  lowered, sent, raised, build-none, build-some, append_called-rejected, send-none, send-some,
  position-lowered, position-raised,
}

-- A log that does not hold the term.
differs : (o : Option ℕ) (t : ℕ) → o ≢ some t → holds_term o t ≡ false
differs none t h = refl
differs (some u) t h = ground arith

module _ {last : ℕ} {l g : Tables} (d : Diverges last l g) where
  -- The positions before an index at which the leader may stand.
  mismatch :
      (next t : ℕ)
      → last ≤ next
      → known_term (next - 1) l ≡ some t
      → holds_term (known_term (next - 1) g) t ≡ false
  mismatch next t h e = on (next == last) refl (next == last + 1) refl
    where
      on :
          (b : Bool)
          → (next == last) ≡ b
          → (b' : Bool) → (next == last + 1) ≡ b'
          → holds_term (known_term (next - 1) g) t ≡ false
      on true p b' p' = differs (known_term (next - 1) g) t (λ q. d.before (ground arith))
      on false p true p' = differs (known_term (next - 1) g) t (λ q. d.at_last (ground arith))
      on false p false p' =
          ap (λ (o : Option ℕ). holds_term o t) (d.beyond (next - 1) (ground arith))

  unknown-gt : (next : ℕ) → last ≤ next → known_term (next - 1) l ≡ none → last + 1 ≤ next
  unknown-gt next h e = let (t, k) = d.known in let two = d.long in ground arith

module _ (codec : Codec) (peer : String) where
  record Round (last : ℕ) (s : Result AppendOutcome × (Node × Node)) : Type 0 where
    outcome : s.0 ≡ ok rejected
    stuck : Stuck peer last s.1.0 s.1.1

  -- A round in which the leader cannot name the term before `nextIndex`.
  unknown-Round :
      (last : ℕ) (l g : Node)
      → Stuck peer last l g
      → known_term (next_index_of peer l - 1) l.store.tables ≡ none
      → Round last (exchange codec peer (l, g))
  unfolding exchange lowered
  unknown-Round last l g st e =
      let b = build-none codec peer l st.quiet.0 e in
      subst (Round last)
        (sym (λ i. (
          (send-none codec peer (follower_network codec g) l b i).0,
          (
            (send-none codec peer (follower_network codec g) l b i).1,
            after_request codec (b i).0 g,
          ),
        )))
        (record {
          outcome = refl;
          stuck = record {
            quiet = st.quiet;
            leads = st.leads;
            terms = st.terms;
            logs = st.logs;
            position =
                position-lowered codec peer l last
                  (unknown-gt st.logs (next_index_of peer l) st.position e);
          };
        })

  -- A round in which the follower refuses what the leader sends.
  refused-Round :
      (last : ℕ) (l g : Node) (t : ℕ)
      → Stuck peer last l g
      → known_term (next_index_of peer l - 1) l.store.tables ≡ some t
      → Round last (exchange codec peer (l, g))
  unfolding exchange raised sent answer_of refusal
  refused-Round last l g t st e = subst (Round last) (sym runs) (record {
    outcome = refl;
    stuck = record {
      quiet = (st.quiet.0, ap (λ (s : Store). s.faults) untouched.0 ∙ st.quiet.1);
      leads = (st.leads.0, untouched.1 ∙ st.leads.1);
      terms = untouched.2 ∙ st.terms;
      logs = subst (λ (s : Store). Diverges last l.store.tables s.tables) (sym untouched.0) st.logs;
      position = position-raised codec peer l last st.logs.fits;
    };
  })
    where
      req : AppendRequest
      req = sent codec peer l t

      b : build_append_request peer l ≡ (ok (some req), l)
      b = build-some codec peer l t st.quiet.0 e

      untouched : Untouched g (heard l.id g)
      untouched = heard-Untouched l.id g

      reply :
          append_entries_rpc (apply_committed codec) req g
          ≡ (ok (refusal g.current_term (last_position g.store.tables).0), heard l.id g)
      reply =
          append_entries_rpc-refusal (apply_committed codec) req g st.quiet.1 st.leads.1
            (sym st.terms) (let c = st.logs.compacted in let p = st.position in ground arith)
            (mismatch st.logs (next_index_of peer l) t st.position e)

      answer :
          answer_of codec g req ≡ some (refusal g.current_term (last_position g.store.tables).0)
      answer = ap (λ (x : Result AppendReply × Node). received codec x.0) reply

      sends :
          send_entries codec (follower_network codec g) peer l
          ≡ (ok rejected, raised codec peer l last)
      sends =
          send-some codec peer g l req b
          ∙ ap
              (λ (o : Option AppendReply).
                append_called codec (follower_network codec g) peer l.current_term req o l)
              answer
          ∙ append_called-rejected codec peer (follower_network codec g) l req
              (refusal g.current_term (last_position g.store.tables).0) st.leads.0 st.terms refl
          ∙ ap (λ (k : ℕ). (ok rejected, raised codec peer l k)) st.logs.ends

      after : after_request codec (build_append_request peer l).0 g ≡ heard l.id g
      after =
          ap (λ (x : Result (Option AppendRequest) × Node). after_request codec x.0 g) b
          ∙ ap (λ (x : Result AppendReply × Node). x.1) reply

      runs : exchange codec peer (l, g) ≡ (ok rejected, (raised codec peer l last, heard l.id g))
      runs = λ i. ((sends i).0, ((sends i).1, after i))

  exchange-Round :
      (last : ℕ) (l g : Node) → Stuck peer last l g → Round last (exchange codec peer (l, g))
  exchange-Round last l g st = on (known_term (next_index_of peer l - 1) l.store.tables) refl
    where
      on :
          (o : Option ℕ)
          → known_term (next_index_of peer l - 1) l.store.tables ≡ o
          → Round last (exchange codec peer (l, g))
      on none e = unknown-Round last l g st e
      on (some t) e = refused-Round last l g t st e

  -- While no database call fails and no term changes, a leader never brings a follower up to date
  -- by sending entries, in however many rounds, when `nextIndex` is not below the last index of the
  -- follower's log, the terms of the two logs differ at that index and at the one before, where the
  -- leader's term is known, and the follower's snapshot ends below that index.
  pub catches_up_never :
      (rounds last : ℕ) (l g : Node)
      → Stuck peer last l g
      → catches_up codec rounds peer (l, g) ≡ false
  unfolding catches_up
  catches_up_never zero last l g st = refl
  catches_up_never (suc rounds) last l g st =
      let r = exchange-Round last l g st in
      let s = exchange codec peer (l, g) in
      let again = catches_up_never rounds last s.1.0 s.1.1 r.stuck in
      let e = r.outcome in
      ap
        (λ (x : Result AppendOutcome). elim x [
          | ok accepted ↦ true
          | ok rejected ↦ catches_up codec rounds peer s.1
          | ok failed ↦ false
          | err _ ↦ false
        ])
        e
      ∙ again
