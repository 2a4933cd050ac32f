-- ===== src/Raftctl/Targets.antt =====
-- The targets that `dialTarget` (cmd/raftctl/main.go) gives.
use text.Mathlib.TextEquality.{Char-path}
use Prim.Native.Char.{char, code}
use log_replicator_raft.Common.{
  String, true, false, ◌≡◌, refl, ap, ◌∙◌, ◌⊎◌, inl, inr, Bool-cases, arith,
}
use log_replicator_raft.Raftctl.Run.{starts_scheme, has_scheme, before, dial_target}

-- A text with "://" in it.
unfoldable pub HasScheme : String → Type 0
HasScheme address = (s t : String) × (address ≡ before s (before "://" t))

HasScheme-found : (s t : String) → has_scheme (before s (before "://" t)) ≡ true
unfolding has_scheme
HasScheme-found String.[] t = refl
HasScheme-found (String.◌∷◌ c s) t = let rest = HasScheme-found s t in ground arith

starts_scheme-text : (s : String) → starts_scheme s ≡ true → (t : String) × (s ≡ before "://" t)
starts_scheme-text String.[] h = absurd (cc)
starts_scheme-text (String.◌∷◌ a String.[]) h = absurd (cc)
starts_scheme-text (String.◌∷◌ a (String.◌∷◌ b String.[])) h = absurd (cc)
starts_scheme-text (String.◌∷◌ a (String.◌∷◌ b (String.◌∷◌ c s))) h =
    let colon : code a ≡ 58 = ground arith in
    let first : code b ≡ 47 = ground arith in
    let second : code c ≡ 47 = ground arith in
    (
      s,
      λ i. String.◌∷◌ (Char-path a (char 58 tt) colon i) (
          String.◌∷◌ (Char-path b (char 47 tt) first i)
            (String.◌∷◌ (Char-path c (char 47 tt) second i) s)),
    )

has_scheme-HasScheme : (address : String) → has_scheme address ≡ true → HasScheme address
unfolding has_scheme HasScheme
has_scheme-HasScheme String.[] h = absurd (cc)
has_scheme-HasScheme (String.◌∷◌ c s) h = elim (Bool-cases (starts_scheme (String.◌∷◌ c s))) [
  | inl e ↦ let (t, p) = starts_scheme-text (String.◌∷◌ c s) e in ("", t, p)
  | inr e ↦
      let (s', t, p) = has_scheme-HasScheme s (ground arith) in
      (String.◌∷◌ c s', t, ap (String.◌∷◌ c) p)
]

-- An address in which "://" stands somewhere is dialled as it is, and any other address with
-- "passthrough:///" before it.
pub dial_target-HasScheme :
    (address : String)
    → (HasScheme address × (dial_target address ≡ address))
      ⊎ (¬ HasScheme address × (dial_target address ≡ before "passthrough:///" address))
unfolding dial_target HasScheme
dial_target-HasScheme address = elim (Bool-cases (has_scheme address)) [
  | inl e ↦ inl (has_scheme-HasScheme address e, rw (e, dial_target) refl)
  | inr e ↦ inr (
    λ (s, t, p). let found = HasScheme-found s t in absurd (missing (ap has_scheme p ∙ found) e),
    rw (e, dial_target) refl,
  )
]
  where
    missing : has_scheme address ≡ true → has_scheme address ≡ false → ⊥
    missing h k = absurd (cc)
