-- ===== src/Config/Text.antt =====
-- What internal/config/config.go uses of Go's package strings: TrimSpace, Split and Cut.
use Prim.Native.Char.{Char, code}
use log_replicator_raft.Common.{
  ℕ, String, Bool, true, false, Option, none, some, List, [], ◌∷◌, ◌&&◌, ◌||◌, leb, ◌==◌,
  if◌then◌else◌,
}

-- `unicode.IsSpace`
unfoldable pub is_space : ℕ → Bool
is_space c =
    (leb 9 c && leb c 13)
    || c == 32
    || c == 133
    || c == 160
    || c == 5760
    || (leb 8192 c && leb c 8202)
    || c == 8232
    || c == 8233
    || c == 8239
    || c == 8287
    || c == 12288

abbrev pub is_empty : String → Bool
is_empty String.[] = true
is_empty (String.◌∷◌ c s) = false

unfoldable pub trim_left : String → String
unfolding is_space
trim_left String.[] = String.[]
trim_left (String.◌∷◌ c s) = if is_space (code c) then trim_left s else String.◌∷◌ c s

unfoldable pub trim_right : String → String
unfolding is_space
trim_right String.[] = String.[]
trim_right (String.◌∷◌ c s) =
    let rest = trim_right s in
    if is_empty rest && is_space (code c) then String.[] else String.◌∷◌ c rest

-- `strings.TrimSpace`
unfoldable pub trim_space : String → String
unfolding trim_left trim_right
trim_space s = trim_right (trim_left s)

abbrev onto_first : Char → List String → List String
onto_first c [] = String.◌∷◌ c String.[] ∷ []
onto_first c (p ∷ parts) = String.◌∷◌ c p ∷ parts

-- `strings.Split` at a character
unfoldable pub split : ℕ → String → List String
split sep String.[] = String.[] ∷ []
split sep (String.◌∷◌ c s) =
    let rest = split sep s in if code c == sep then String.[] ∷ rest else onto_first c rest

abbrev onto_left : Char → Option (String × String) → Option (String × String)
onto_left c none = none
onto_left c (some (left, right)) = some (String.◌∷◌ c left, right)

-- `strings.Cut` at a character
unfoldable pub cut : ℕ → String → Option (String × String)
cut sep String.[] = none
cut sep (String.◌∷◌ c s) =
    let rest = cut sep s in if code c == sep then some (String.[], s) else onto_left c rest
