-- ===== src/Raftctl/Agreement.antt =====
-- When the comparison of the logs (cmd/raftctl/main.go) says that the nodes agree.
use mathlib.Core.Path.{subst}
use mathlib.Core.Option.{some-injective}
use mathlib.Core.List.{Memᴰ}
use mathlib.Core.List.Memᴰ
use log_replicator_raft.Common.{
  ℕ, ◌+◌, ◌%◌, ◌^◌, String, ◌≡◌, refl, sym, ap, ◌∙◌, Option, none, some, [], ◌∷◌, length, ◌↔◌, inl,
  inr,
}
use log_replicator_raft.Raft.Inspect.{LogReply}
use log_replicator_raft.Raftctl.Compare.{
  Reports, Comparison, differ, agree, comparable_range, describe_entries, first_difference,
  differing, disagreement, verdict,
}
use log_replicator_raft.Raftctl.Texts.{
  window, first_difference-window, DifferFirstAt, first_difference-some,
}

-- Every two reports have the same entries in the window.
unfoldable pub SameWindows : ℕ → ℕ → Reports → Type 0
SameWindows from through reports =
    (x y : String × LogReply)
    → Memᴰ x reports
    → Memᴰ y reports
    → window from through x.1.entries ≡ window from through y.1.entries

module _ (from through : ℕ) (first : String × LogReply) where
  differing-none :
      (reports : Reports)
      → (differing from through first.0 (describe_entries from through first.1.entries) reports
          ≡ none)
        ↔ ((x : String × LogReply)
            → Memᴰ x reports
            → window from through first.1.entries ≡ window from through x.1.entries)
  unfolding differing
  differing-none [] = (λ _ x m. absurd (Memᴰ.not-nil m), λ _. refl)
  differing-none ((address, report) ∷ reports) =
      on
        (first_difference (describe_entries from through first.1.entries)
          (describe_entries from through report.entries))
        (first_difference-window from through first.1.entries report.entries)
        (differing from through first.0 (describe_entries from through first.1.entries) reports)
        (differing-none reports)
    where
      Alike : LogReply → Type 0
      Alike r = window from through first.1.entries ≡ window from through r.entries

      on :
          (o : Option ℕ)
          → ((o ≡ none) ↔ Alike report)
          → (rest : Option Comparison)
          → ((rest ≡ none) ↔ ((x : String × LogReply) → Memᴰ x reports → Alike x.1))
          → (elim o as (λ _. Option Comparison) [
            | none ↦ rest
            | some i ↦ some (differ first.0 address ((from + i) % 2 ^ 64))
          ]
              ≡ none)
            ↔ ((x : String × LogReply) → Memᴰ x ((address, report) ∷ reports) → Alike x.1)
      on none alike rest below = (
        λ h x m. elim (Memᴰ.cases_cons m) [
          | inl e ↦ subst (λ (y : String × LogReply). Alike y.1) (sym e) (alike.0 refl)
          | inr m' ↦ below.0 h x m'
        ],
        λ all. below.1 (λ x m. all x (Memᴰ.tail m)),
      )
      on (some i) alike rest below = (
        λ h. absurd (cc),
        λ all. absurd (let e = alike.1 (all (address, report) (Memᴰ.head refl)) in cc),
      )

  -- A difference is one between the reference and a report, and names both.
  abbrev Names : Reports → Comparison → Type 0
  Names reports d =
      (x : String × LogReply) × Memᴰ x reports
      × (i : ℕ) × (first_difference (describe_entries from through first.1.entries)
            (describe_entries from through x.1.entries)
          ≡ some i)
      × (d ≡ differ first.0 x.0 ((from + i) % 2 ^ 64))

  differing-Names :
      (reports : Reports) (d : Comparison)
      → differing from through first.0 (describe_entries from through first.1.entries) reports
        ≡ some d
      → Names reports d
  unfolding differing
  differing-Names [] d h = absurd (cc)
  differing-Names ((address, report) ∷ reports) d h =
      on
        (first_difference (describe_entries from through first.1.entries)
          (describe_entries from through report.entries))
        refl
        (differing from through first.0 (describe_entries from through first.1.entries) reports) h
        (differing-Names reports d)
    where
      on :
          (o : Option ℕ)
          → first_difference
              (describe_entries from through first.1.entries)
              (describe_entries from through report.entries)
            ≡ o
          → (rest : Option Comparison)
          → (elim o as (λ _. Option Comparison) [
            | none ↦ rest
            | some i ↦ some (differ first.0 address ((from + i) % 2 ^ 64))
          ]
              ≡ some d)
          → (rest ≡ some d → Names reports d)
          → Names ((address, report) ∷ reports) d
      on none e rest h below = let (x, m, i, at, named) = below h in (x, Memᴰ.tail m, i, at, named)
      on (some i) e rest h below =
          ((address, report), Memᴰ.head refl, i, e, sym (some-injective _ _ h))

disagreement-none :
    (from through : ℕ) (reports : Reports)
    → (disagreement from through reports ≡ none) ↔ SameWindows from through reports
unfolding disagreement SameWindows
disagreement-none from through [] = (λ _ x y m. absurd (Memᴰ.not-nil m), λ _. refl)
disagreement-none from through (first ∷ reports) = (
  λ h x y m m'. sym (like_first h x m) ∙ like_first h y m',
  λ all.
      (differing-none from through first reports).1
        (λ x m. all first x (Memᴰ.head refl) (Memᴰ.tail m)),
)
  where
    like_first :
        disagreement from through (first ∷ reports) ≡ none
        → (x : String × LogReply) → Memᴰ x (first ∷ reports)
        → window from through first.1.entries ≡ window from through x.1.entries
    like_first h x m = elim (Memᴰ.cases_cons m) [
      | inl e ↦ ap (λ (y : String × LogReply). window from through y.1.entries) (sym e)
      | inr m' ↦ (differing-none from through first reports).0 h x m'
    ]

-- The two reports that a verdict names, and the first place at which they differ.
abbrev pub Told : ℕ → ℕ → Reports → Comparison → Type 0
Told from through reports d =
    (x y : String × LogReply) × Memᴰ x reports
    × Memᴰ y reports
    × (i : ℕ) × DifferFirstAt i (window from through x.1.entries) (window from through y.1.entries)
    × (d ≡ differ x.0 y.0 ((from + i) % 2 ^ 64))

disagreement-Told :
    (from through : ℕ) (reports : Reports) (d : Comparison)
    → disagreement from through reports ≡ some d
    → Told from through reports d
unfolding disagreement
disagreement-Told from through [] d h = absurd (cc)
disagreement-Told from through (first ∷ reports) d h =
    let (x, m, i, at, named) = differing-Names from through first reports d h in
    (
      first,
      x,
      Memᴰ.head refl,
      Memᴰ.tail m,
      i,
      first_difference-some from through i first.1.entries x.1.entries at,
      named,
    )

module _ (order order' : Reports → Reports) (reports : Reports)
    (same_members : (x : String × LogReply) → Memᴰ x (order' reports) ↔ Memᴰ x reports) where
  abbrev from : ℕ
  from = (comparable_range (order reports)).0

  abbrev through : ℕ
  through = (comparable_range (order reports)).1

  -- Whatever the orders in which the loops go over the reports, the nodes are said to agree exactly if every
  -- two of them reported the same entries between the ends of the range, when the second order leaves out
  -- no report and adds none.
  pub verdict-agree :
      (verdict order order' reports
        ≡ agree
            (length reports)
            (comparable_range (order reports)).0
            (comparable_range (order reports)).1)
      ↔ SameWindows
          (comparable_range (order reports)).0
          (comparable_range (order reports)).1
          reports
  unfolding verdict SameWindows
  verdict-agree =
      on (disagreement from through (order' reports))
        (disagreement-none from through (order' reports))
        (disagreement-Told from through (order' reports))
    where
      on :
          (o : Option Comparison)
          → ((o ≡ none) ↔ SameWindows from through (order' reports))
          → ((d : Comparison) → o ≡ some d → Told from through (order' reports) d)
          → (elim o as (λ _. Comparison) [ some d ↦ d | none ↦ agree (length reports) from through ]
              ≡ agree (length reports) from through)
            ↔ SameWindows from through reports
      on none h told =
          (λ _ x y m m'. h.0 refl x y ((same_members x).1 m) ((same_members y).1 m'), λ _. refl)
      on (some d) h told = (
        λ e. absurd (let (x, y, m, m', i, at, named) = told d refl in cc),
        λ all. absurd (
            let e = h.1 (λ x y m m'. all x y ((same_members x).0 m) ((same_members y).0 m')) in cc),
      )

  -- A verdict that two logs differ names two of the reports and the first place of the range at
  -- which their entries differ, when the second order leaves out no report and adds none.
  pub verdict-differ :
      (a b : String) (k : ℕ)
      → verdict order order' reports ≡ differ a b k
      → Told
          (comparable_range (order reports)).0
          (comparable_range (order reports)).1
          reports
          (differ a b k)
  unfolding verdict
  verdict-differ a b k h =
      on (disagreement from through (order' reports))
        (disagreement-Told from through (order' reports)) h
    where
      on :
          (o : Option Comparison)
          → ((d : Comparison) → o ≡ some d → Told from through (order' reports) d)
          → elim o as (λ _. Comparison) [ some d ↦ d | none ↦ agree (length reports) from through ]
            ≡ differ a b k
          → Told from through reports (differ a b k)
      on none told e = absurd (cc)
      on (some d) told e =
          let (x, y, m, m', i, at, named) = told d refl in
          (x, y, (same_members x).0 m, (same_members y).0 m', i, at, sym e ∙ named)
