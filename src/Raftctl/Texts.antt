-- ===== src/Raftctl/Texts.antt =====
-- The texts that `compare` (cmd/raftctl/main.go) prints entries as tell entries apart.
use mathlib.Core.Path.{subst, subst₂}
use mathlib.Core.Option.{some-injective}
use Prim.Native.Char.{Char, code}
use log_replicator_raft.Common.{
  ℕ, zero, suc, take, ◌≢◌, ◌+◌, ◌-◌, ◌*◌, ◌<◌, String, Bool, true, false, ◌≡◌, refl, sym, ap, ◌∙◌,
  Option, none, some, List, [], ◌∷◌, map, ◌↔◌, ◌&&◌, ◌||◌, not, ltb, leb, same, same→eq, eq→same,
  same_self, if◌then◌else◌, arith, Bool-cases, inl, inr,
}
use log_replicator_raft.Common.Decimal.{decimal, read-decimal}
use log_replicator_raft.Storage.Rows.{Entry}
use log_replicator_raft.Raftctl.Compare.{described, describe_entries, first_difference, slash}

-- The number that a text starts with, and what follows.
scan : ℕ → String → ℕ × String
scan n String.[] = (n, String.[])
scan n (String.◌∷◌ c s) =
    let rest = scan (n * 10 + (code c - 48)) s in
    if leb 48 (code c) && leb (code c) 57 then rest else (n, s)

scan_one :
    (n d : ℕ) (c : Char) (out : String)
    → d < 10
    → code c ≡ 48 + d
    → scan n (String.◌∷◌ c out) ≡ scan (n * 10 + d) out
unfolding scan
scan_one n d c out h e = grind arith

scan-decimal : (n : ℕ) (rest : String) → scan 0 (decimal n (String.◌∷◌ slash rest)) ≡ (n, rest)
unfolding scan
scan-decimal n rest = read-decimal scan scan_one n (String.◌∷◌ slash rest)

-- An entry is read back from its text.
unread : String → Entry
unread s =
    let (index, rest) = scan 0 s in
    let (term, command) = scan 0 rest in record { index = index; term = term; command = command }

unread-described : (e : Entry) → unread (described e) ≡ e
unfolding unread described
unread-described e =
    rw (scan-decimal e.index (decimal e.term (String.◌∷◌ slash e.command)))
      (rw (scan-decimal e.term e.command) refl)

-- The entries of the window.
unfoldable pub window : ℕ → ℕ → List Entry → List Entry
window from through [] = []
window from through (e ∷ entries) =
    let rest = window from through entries in
    if ltb e.index from || ltb through e.index then rest else e ∷ rest

unread_all-texts : (entries : List Entry) → map unread (map described entries) ≡ entries
unread_all-texts [] = refl
unread_all-texts (e ∷ entries) = rw (unread-described e, unread_all-texts entries) refl

describe_entries-window :
    (from through : ℕ) (entries : List Entry)
    → describe_entries from through entries ≡ map described (window from through entries)
unfolding describe_entries window
describe_entries-window from through [] = refl
describe_entries-window from through (e ∷ entries) =
    let rest = describe_entries-window from through entries in
    elim (Bool-cases (ltb e.index from || ltb through e.index)) [
      | inl b ↦ rw (b, describe_entries, window) rest
      | inr b ↦ rw (b, describe_entries, window, rest) refl
    ]

first_difference-none :
    (left right : List String) → first_difference left right ≡ none → left ≡ right
unfolding first_difference
first_difference-none [] [] h = refl
first_difference-none [] (r ∷ right) h = absurd (cc)
first_difference-none (l ∷ left) [] h = absurd (cc)
first_difference-none (l ∷ left) (r ∷ right) h =
    on (same l r) refl (first_difference left right) h (first_difference-none left right)
  where
    on :
        (b : Bool)
        → same l r ≡ b
        → (o : Option ℕ)
        → (if not b then some 0 else elim o [ none ↦ none | some i ↦ some (i + 1) ]) ≡ none
        → (o ≡ none → left ≡ right)
        → l ∷ left ≡ r ∷ right
    on true e none h rest = let at = same→eq l r e in let below = rest refl in cc
    on true e (some i) h rest = absurd (cc)
    on false e o h rest = absurd (cc)

first_difference_self : (texts : List String) → first_difference texts texts ≡ none
unfolding first_difference
first_difference_self [] = refl
first_difference_self (t ∷ texts) =
    rw (same_self t, first_difference_self texts, first_difference) refl

-- Two logs have no difference in their texts exactly if they hold the same entries in the window.
pub first_difference-window :
    (from through : ℕ) (left right : List Entry)
    → (first_difference (describe_entries from through left) (describe_entries from through right)
        ≡ none)
      ↔ (window from through left ≡ window from through right)
first_difference-window from through left right = (λ h. to h, λ e. of e)
  where
    to :
        first_difference (describe_entries from through left) (describe_entries from through right)
          ≡ none
        → window from through left ≡ window from through right
    to h =
        let l = describe_entries-window from through left in
        let r = describe_entries-window from through right in
        let e = first_difference-none _ _ h in
        sym (unread_all-texts (window from through left))
        ∙ (ap (map unread) (sym l ∙ (e ∙ r)) ∙ unread_all-texts (window from through right))

    of :
        window from through left ≡ window from through right
        → first_difference
            (describe_entries from through left)
            (describe_entries from through right)
          ≡ none
    of e =
        let l = describe_entries-window from through left in
        let r = describe_entries-window from through right in
        subst (λ texts. first_difference (describe_entries from through left) texts ≡ none)
          (l ∙ (ap (map described) e ∙ sym r))
          (first_difference_self (describe_entries from through left))

-- The entry at a place.
abbrev pub entry_at : ℕ → List Entry → Option Entry
entry_at i [] = none
entry_at zero (e ∷ entries) = some e
entry_at (suc i) (e ∷ entries) = entry_at i entries

-- The first place at which two lists differ.
abbrev pub DifferFirstAt : ℕ → List Entry → List Entry → Type 0
DifferFirstAt i left right = (take i left ≡ take i right) × (entry_at i left ≢ entry_at i right)

later :
    (i : ℕ) (l r : Entry) (left right : List Entry)
    → l ≡ r
    → DifferFirstAt i left right
    → DifferFirstAt (suc i) (l ∷ left) (r ∷ right)
later i l r left right e (before, at) = (let b = before in cc, at)

first_difference-texts :
    (i : ℕ) (left right : List Entry)
    → first_difference (map described left) (map described right) ≡ some i
    → DifferFirstAt i left right
unfolding first_difference
first_difference-texts i [] [] h = absurd (cc)
first_difference-texts i [] (r ∷ right) h =
    subst (λ k. DifferFirstAt k [] (r ∷ right)) (some-injective 0 i h) (refl, λ q. absurd (cc))
first_difference-texts i (l ∷ left) [] h =
    subst (λ k. DifferFirstAt k (l ∷ left) []) (some-injective 0 i h) (refl, λ q. absurd (cc))
first_difference-texts i (l ∷ left) (r ∷ right) h =
    on (same (described l) (described r)) refl
      (first_difference (map described left) (map described right)) h
      (λ j e. first_difference-texts j left right e)
  where
    on :
        (b : Bool)
        → same (described l) (described r) ≡ b
        → (o : Option ℕ)
        → (if not b then some 0 else elim o [ none ↦ none | some i ↦ some (i + 1) ]) ≡ some i
        → ((j : ℕ) → o ≡ some j → DifferFirstAt j left right)
        → DifferFirstAt i (l ∷ left) (r ∷ right)
    on true e none h rest = absurd (cc)
    on true e (some j) h rest =
        let same_entry : l ≡ r =
          sym (unread-described l) ∙ (ap unread (same→eq _ _ e) ∙ unread-described r) in
        subst (λ k. DifferFirstAt k (l ∷ left) (r ∷ right)) {x = suc j}
          (let k = some-injective (j + 1) i h in omega arith)
          (later j l r left right same_entry (rest j refl))
    on false e o h rest =
        subst (λ k. DifferFirstAt k (l ∷ left) (r ∷ right)) (some-injective 0 i h)
          (
            refl,
            λ q. absurd (let same_texts = eq→same _ _ (ap described (some-injective l r q)) in cc),
          )

-- The place that `firstDifference` finds is the first at which the entries of the window differ.
pub first_difference-some :
    (from through i : ℕ) (left right : List Entry)
    → first_difference (describe_entries from through left) (describe_entries from through right)
      ≡ some i
    → DifferFirstAt i (window from through left) (window from through right)
first_difference-some from through i left right h =
    first_difference-texts i (window from through left) (window from through right) (
      subst₂ (λ l r. first_difference l r ≡ some i) (describe_entries-window from through left)
        (describe_entries-window from through right) h)
