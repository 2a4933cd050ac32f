-- ===== src/Storage/Refine.antt =====
-- What a method of `Store` does on the tables when the driver reports no error: the fault-free
-- action over `Tables`. A method refines it when it either fails by a reported error and changes no
-- table, or returns and writes exactly what that action does.
use mathlib.Core.Path.{subst, fun_ext}
use log_replicator_raft.Common.{
  ◌≡◌, ◌≢◌, refl, ◌⊎◌, inl, inr, Bool, true, false, List, [], ◌∷◌, arith,
}
use log_replicator_raft.Common.Action.{
  Result, ok, err, Error, database, Action, pure, fail, resume, ◌>>=◌,
}
use log_replicator_raft.Storage.Rows.{Tables}
use log_replicator_raft.Storage.Statement.{Store, access, query, exec, in_tx, finish}

module _ {A : Type 0} where
  -- The driver reported an error at `s`, and the call failed with it.
  abbrev pub Faulted : Result A → Store → Type 0
  Faulted r s = (s.faults ≢ []) × (r ≡ err database)

  abbrev pub Agrees : Result A × Store → Result A × Tables → Type 0
  Agrees m t = (m.0 ≡ t.0) × (m.1.tables ≡ t.1)

  -- A part of a method: after a reported error its writes may be half done.
  pub record Follows (m : Action Store A) (spec : Action Tables A) : Type 0 where
    pub outcome : (s : Store) → Faulted (m s).0 s ⊎ Agrees (m s) (spec s.tables)
    pub quiet : (s : Store) → s.faults ≡ [] → (m s).1.faults ≡ []

  -- A whole method: after a reported error nothing is written.
  pub record Refines (m : Action Store A) (spec : Action Tables A) : Type 0 where
    pub outcome :
        (s : Store)
        → (Faulted (m s).0 s × ((m s).1.tables ≡ s.tables)) ⊎ Agrees (m s) (spec s.tables)
    pub quiet : (s : Store) → s.faults ≡ [] → (m s).1.faults ≡ []

access-cases : (s : Store) → Faulted (access s).0 s ⊎ ((access s).0 ≡ ok tt)
unfolding access
access-cases s = ground arith

tables-access : (s : Store) → (access s).1.tables ≡ s.tables
unfolding access
tables-access s = ground arith

quiet-access : (s : Store) → s.faults ≡ [] → (access s).1.faults ≡ []
unfolding access
quiet-access s h = ground arith

pub query-Refines : {A : Type 0} (read : Tables → A) → Refines (query read) (λ t. (ok (read t), t))
unfolding query
query-Refines read = record { outcome = λ s. ground arith; quiet = λ s h. ground arith }

pub exec-Refines : (write : Tables → Tables) → Refines (exec write) (λ t. (ok tt, write t))
unfolding exec
exec-Refines write = record { outcome = λ s. ground arith; quiet = λ s h. ground arith }

module _ {A : Type 0} where
  pub pure-Refines : (a : A) → Refines (pure a) (pure a)
  pure-Refines a = record { outcome = λ s. inr (refl, refl); quiet = λ s h. h }

  pub fail-Refines : (e : Error) → Refines (fail {A = A} e) (fail e)
  fail-Refines e = record { outcome = λ s. inr (refl, refl); quiet = λ s h. h }

  pub Refines-Follows :
      {m : Action Store A} {spec : Action Tables A} → Refines m spec → Follows m spec
  Refines-Follows r = record {
    outcome = λ s. elim (r.outcome s) [ inl h ↦ inl h.0 | inr h ↦ inr h ];
    quiet = r.quiet;
  }

module _ {A : Type 0} {m : Action Store A} {p q : Action Tables A} where
  pub Refines-of_eq : ((t : Tables) → p t ≡ q t) → Refines m p → Refines m q
  Refines-of_eq h r = subst (λ x. Refines m x) (fun_ext h) r

  pub Follows-of_eq : ((t : Tables) → p t ≡ q t) → Follows m p → Follows m q
  Follows-of_eq h r = subst (λ x. Follows m x) (fun_ext h) r

module _ {A B : Type 0} where
  pub Follows-bind :
      {m : Action Store A} {p : Action Tables A} {f : A → Action Store B} {q : A → Action Tables B}
      → Follows m p
      → ((a : A) → Follows (f a) (q a))
      → Follows (m >>= f) (p >>= q)
  Follows-bind {m} {p} {f} {q} hm hf = record {
    outcome = λ s. bound s (m s) (p s.tables) (hm.outcome s) (hm.quiet s);
    quiet = λ s e. kept (m s) (hm.quiet s e);
  }
    where
      bound :
          (s : Store) (x : Result A × Store) (y : Result A × Tables)
          → Faulted x.0 s ⊎ Agrees x y
          → (s.faults ≡ [] → x.1.faults ≡ [])
          → Faulted (resume x.0 f x.1).0 s ⊎ Agrees (resume x.0 f x.1) (resume y.0 q y.1)
      bound s (ok a, s') (ok b, t) h e = ground (arith, (hf a).outcome s')
      bound s (ok a, s') (err b, t) h e = ground arith
      bound s (err a, s') (ok b, t) h e = ground arith
      bound s (err a, s') (err b, t) h e = ground arith

      kept : (x : Result A × Store) → x.1.faults ≡ [] → (resume x.0 f x.1).1.faults ≡ []
      kept (ok a, s') e = (hf a).quiet s' e
      kept (err a, s') e = e

  -- What follows a method that only reads.
  pub Refines-read :
      {m : Action Store A} {g : Tables → A} {f : A → Action Store B} {q : A → Action Tables B}
      → Refines m (λ t. (ok (g t), t))
      → ((a : A) → Refines (f a) (q a))
      → Refines (m >>= f) (λ t. q (g t) t)
  Refines-read {m} {g} {f} {q} hm hf = record {
    outcome = λ s. bound s (m s) (hm.outcome s) (hm.quiet s);
    quiet = λ s e. kept (m s) (hm.quiet s e);
  }
    where
      bound :
          (s : Store) (x : Result A × Store)
          → (Faulted x.0 s × (x.1.tables ≡ s.tables)) ⊎ Agrees x (ok (g s.tables), s.tables)
          → (s.faults ≡ [] → x.1.faults ≡ [])
          → (Faulted (resume x.0 f x.1).0 s × ((resume x.0 f x.1).1.tables ≡ s.tables))
            ⊎ Agrees (resume x.0 f x.1) (q (g s.tables) s.tables)
      bound s (ok a, s') h e = ground (arith, (hf a).outcome s')
      bound s (err a, s') h e = ground arith

      kept : (x : Result A × Store) → x.1.faults ≡ [] → (resume x.0 f x.1).1.faults ≡ []
      kept (ok a, s') e = (hf a).quiet s' e
      kept (err a, s') e = e

  pub Refines-query :
      (read : Tables → A) {f : A → Action Store B} {q : A → Action Tables B}
      → ((a : A) → Refines (f a) (q a))
      → Refines (query read >>= f) (λ t. q (read t) t)
  Refines-query read hf = Refines-read (query-Refines read) hf

module _ {A B : Type 0} where
  -- A method that returns a known value once another one has succeeded.
  pub Refines-result :
      {m : Action Store A} {a : A} {w : Tables → Tables} (b : B)
      → Refines m (λ t. (ok a, w t))
      → Refines (m >>= λ _. pure b) (λ t. (ok b, w t))
  Refines-result {m} {a} {w} b h = record {
    outcome = λ s. bound s (m s) (h.outcome s);
    quiet = λ s e. kept (m s) (h.quiet s e);
  }
    where
      then_b : Result A × Store → Result B × Store
      then_b x = resume x.0 (λ _. pure b) x.1

      bound :
          (s : Store) (x : Result A × Store)
          → (Faulted x.0 s × (x.1.tables ≡ s.tables)) ⊎ Agrees x (ok a, w s.tables)
          → (Faulted (then_b x).0 s × ((then_b x).1.tables ≡ s.tables))
            ⊎ Agrees (then_b x) (ok b, w s.tables)
      bound s (ok _, s') h = ground arith
      bound s (err e, s') h = ground arith

      kept : (x : Result A × Store) → x.1.faults ≡ [] → (then_b x).1.faults ≡ []
      kept (ok _, s') e = e
      kept (err _, s') e = e

module _ {A : Type 0} where
  -- A transaction leaves the tables alone when its body fails by an error of the program.
  abbrev pub undone : Tables → Result A × Tables → Result A × Tables
  undone t (ok a, t') = (ok a, t')
  undone t (err e, t') = (err e, t)

  finish-outcome :
      (s : Store) (x : Result A × Store) (y : Result A × Tables)
      → Faulted x.0 s ⊎ Agrees x y
      → (s.faults ≡ [] → x.1.faults ≡ [])
      → (Faulted (finish s.tables x).0 s × ((finish s.tables x).1.tables ≡ s.tables))
        ⊎ Agrees (finish s.tables x) (undone s.tables y)
  unfolding access
  finish-outcome s (ok a, s') (ok b, t) h e = ground arith
  finish-outcome s (ok a, s') (err b, t) h e = ground arith
  finish-outcome s (err a, s') (ok b, t) h e = ground arith
  finish-outcome s (err a, s') (err b, t) h e = ground arith

  finish-quiet : (t : Tables) (x : Result A × Store) → x.1.faults ≡ [] → (finish t x).1.faults ≡ []
  unfolding access
  finish-quiet t (ok a, s') e = ground arith
  finish-quiet t (err a, s') e = e

  module _ {m : Action Store A} {p : Action Tables A} (h : Follows m p) where
    tx-outcome :
        (t : Tables) (fs : List Bool)
        → let s : Store = record { tables = t; faults = fs } in
          (Faulted (in_tx m s).0 s × ((in_tx m s).1.tables ≡ t))
          ⊎ Agrees (in_tx m s) (undone t (p t))
    unfolding in_tx
    tx-outcome t [] =
        let s : Store = record { tables = t; faults = [] } in
        finish-outcome s (m s) (p t) (h.outcome s) (h.quiet s)
    tx-outcome t (false ∷ rest) =
        let s : Store = record { tables = t; faults = rest } in
        ground (arith, finish-outcome s (m s) (p t) (h.outcome s) (h.quiet s))
    tx-outcome t (true ∷ rest) = ground arith

    tx-quiet :
        (t : Tables) (fs : List Bool)
        → fs ≡ []
        → (in_tx m (record { tables = t; faults = fs })).1.faults ≡ []
    unfolding in_tx
    tx-quiet t [] e =
        let s : Store = record { tables = t; faults = [] } in finish-quiet t (m s) (h.quiet s refl)
    tx-quiet t (b ∷ rest) e = absurd (cc)

    pub in_tx-Refines : Refines (in_tx m) (λ t. undone t (p t))
    in_tx-Refines = record {
      outcome = λ s. tx-outcome s.tables s.faults;
      quiet = λ s e. tx-quiet s.tables s.faults e;
    }
