-- ===== src/Config/Numbers.antt =====
-- What internal/config/config.go uses of Go's strconv, of time.Duration and of slog.Level. An int64 is kept
-- as its two's complement, a number below 2^64.
use Prim.Native.Char.{code}
use log_replicator_raft.Common.{
  ℕ, ◌+◌, ◌-◌, ◌*◌, ◌%◌, ◌^◌, String, Bool, true, false, Option, none, some, ◌&&◌, ◌||◌, leb, ◌==◌,
  if◌then◌else◌, List, [], ◌∷◌,
}
use log_replicator_raft.Config.Text.{is_empty}

-- The digits behind a value; `none` at another character.
unfoldable pub digits : ℕ → String → Option ℕ
digits n String.[] = some n
digits n (String.◌∷◌ c s) =
    let rest = digits (n * 10 + (code c - 48)) s in
    if leb 48 (code c) && leb (code c) 57 then rest else none

unfoldable pub natural : String → Option ℕ
unfolding digits
natural s = if is_empty s then none else digits 0 s

abbrev pub within : ℕ → Option ℕ → Option ℕ
within bound none = none
within bound (some n) = if leb n bound then some n else none

-- `strconv.ParseUint(s, 10, 64)`
unfoldable pub parse_uint : String → Option ℕ
unfolding natural
parse_uint s = within (2 ^ 64 - 1) (natural s)

-- The two's complement of a negative number of this magnitude.
abbrev pub negated : Option ℕ → Option ℕ
negated none = none
negated (some n) = some ((2 ^ 64 - n) % 2 ^ 64)

-- `strconv.Atoi`
unfoldable pub atoi : String → Option ℕ
unfolding natural
atoi String.[] = none
atoi (String.◌∷◌ c s) =
    if code c == 45
    then negated (within (2 ^ 63) (natural s))
    else if code c == 43
    then within (2 ^ 63 - 1) (natural s)
    else within (2 ^ 63 - 1) (natural (String.◌∷◌ c s))

-- `a <= b` on int64
unfoldable pub le64 : ℕ → ℕ → Bool
le64 a b = leb ((a + 2 ^ 63) % 2 ^ 64) ((b + 2 ^ 63) % 2 ^ 64)

abbrev pub millisecond : ℕ
millisecond = 1000000

-- `time.Duration(milliseconds) * time.Millisecond`
unfoldable pub of_milliseconds : ℕ → ℕ
of_milliseconds n = (n * millisecond) % 2 ^ 64

-- `unicode.ToUpper` as far as it has to do with the letters A to Z.
abbrev pub upper : ℕ → ℕ
upper c =
    if leb 97 c && leb c 122 then c - 32 else if c == 305 then 73 else if c == 383 then 83 else c

-- Whether a text is a name, in capitals, up to case.
unfoldable pub is_level : List ℕ → String → Bool
is_level [] String.[] = true
is_level [] (String.◌∷◌ c s) = false
is_level (n ∷ name) String.[] = false
is_level (n ∷ name) (String.◌∷◌ c s) = upper (code c) == n && is_level name s

-- The levels of slog: -4, 0, 4 and 8.
unfoldable pub level_of : String → Option ℕ
unfolding is_level
level_of name =
    if is_level (68 ∷ 69 ∷ 66 ∷ 85 ∷ 71 ∷ []) name
    then some (2 ^ 64 - 4)
    else if is_level (73 ∷ 78 ∷ 70 ∷ 79 ∷ []) name
    then some 0
    else if is_level (87 ∷ 65 ∷ 82 ∷ 78 ∷ []) name
    then some 4
    else if is_level (69 ∷ 82 ∷ 82 ∷ 79 ∷ 82 ∷ []) name
    then some 8
    else none

-- The text before the first sign, and the text from it on.
unfoldable pub at_sign : String → String × String
at_sign String.[] = (String.[], String.[])
at_sign (String.◌∷◌ c s) =
    let (name, offset) = at_sign s in
    if code c == 43 || code c == 45
    then (String.[], String.◌∷◌ c s)
    else (String.◌∷◌ c name, offset)

abbrev pub shifted : Option ℕ → Option ℕ → Option ℕ
shifted (some level) (some offset) = some ((level + offset) % 2 ^ 64)
shifted _ _ = none

-- `(*slog.Level).UnmarshalText`
unfoldable pub parse_level : String → Option ℕ
unfolding level_of at_sign atoi
parse_level s =
    let (name, offset) = at_sign s in
    shifted (level_of name) (if is_empty offset then some 0 else atoi offset)
