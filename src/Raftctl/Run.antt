-- ===== src/Raftctl/Run.antt =====
-- The commands that `run` of cmd/raftctl/main.go accepts, and the targets that it dials.
use Prim.Native.Char.{code}
use log_replicator_raft.Common.{
  String, Bool, false, List, [], ◌∷◌, ◌&&◌, ◌||◌, ◌==◌, same, if◌then◌else◌,
}

-- What a command asks of the nodes, or the error without any call.
pub data Request : Type 0 where
  write_key : String → String → Request
  read_key delete_key : String → Request
  show_status show_log : Request
  compare_logs : List String → Request
  usage_error unknown_command : String → Request

abbrev pub default_cluster : List String
default_cluster =
    "localhost:9001" ∷ "localhost:9002" ∷ "localhost:9003" ∷ "localhost:9004" ∷ "localhost:9005"
    ∷ []

abbrev pub write_args : List String → Request
write_args (key ∷ value ∷ []) = write_key key value
write_args _ = usage_error "write"

abbrev pub read_args : List String → Request
read_args (key ∷ []) = read_key key
read_args _ = usage_error "read"

abbrev pub delete_args : List String → Request
delete_args (key ∷ []) = delete_key key
delete_args _ = usage_error "delete"

abbrev pub compare_args : List String → Request
compare_args [] = compare_logs default_cluster
compare_args (a ∷ addresses) = compare_logs (a ∷ addresses)

unfoldable pub run : String → List String → Request
run command args =
    if same command "write"
    then write_args args
    else if same command "read"
    then read_args args
    else if same command "delete"
    then delete_args args
    else if same command "status"
    then show_status
    else if same command "log"
    then show_log
    else if same command "compare"
    then compare_args args
    else unknown_command command

-- Whether a text starts with "://".
abbrev pub starts_scheme : String → Bool
starts_scheme (String.◌∷◌ a (String.◌∷◌ b (String.◌∷◌ c s))) =
    code a == b':' && code b == b'/' && code c == b'/'
starts_scheme _ = false

-- `strings.Contains(address, "://")`
unfoldable pub has_scheme : String → Bool
has_scheme String.[] = false
has_scheme (String.◌∷◌ c s) = starts_scheme (String.◌∷◌ c s) || has_scheme s

abbrev pub before : String → String → String
before String.[] t = t
before (String.◌∷◌ c s) t = String.◌∷◌ c (before s t)

unfoldable pub dial_target : String → String
unfolding has_scheme
dial_target address = if has_scheme address then address else before "passthrough:///" address
