-- ===== src/Witnesses/Texts.antt =====
-- A text for every list of texts, and with it codecs for every map and every command.
use Prim.Native.Char.{Char, char, code}
use log_replicator_raft.Common.{
  String, ◌≡◌, ◌≢◌, refl, ap, ◌∙◌, Option, none, some, List, [], ◌∷◌, ◌==◌, named_apart,
  if◌then◌else◌,
}
use log_replicator_raft.Storage.Maps.{lookup, as_map_same, latest-as_map}
use log_replicator_raft.Storage.Store.{StateCodec}
use log_replicator_raft.Storage.Roundtrip.{Recovers}
use log_replicator_raft.Raft.Command.{Command, Codec}
use mathlib.Core.Path.{subst}
use log_replicator_raft.Raft.Apply.{some-injective}

abbrev mark : Char
mark = char 120 tt

abbrev stop : Char
stop = char 59 tt

-- Each character behind a mark, and a stop at the end.
emit : String → String → String
emit String.[] rest = String.◌∷◌ stop rest
emit (String.◌∷◌ c s) rest = String.◌∷◌ mark (String.◌∷◌ c (emit s rest))

abbrev onto_first : Char → List String → List String
onto_first c [] = []
onto_first c (f ∷ fs) = String.◌∷◌ c f ∷ fs

fields : String → List String
fields String.[] = []
fields (String.◌∷◌ c String.[]) = if code c == 59 then String.[] ∷ [] else []
fields (String.◌∷◌ c (String.◌∷◌ d s)) =
    let stopped = fields (String.◌∷◌ d s) in
    let marked = fields s in if code c == 59 then String.[] ∷ stopped else onto_first d marked

fields-emit : (s rest : String) → fields (emit s rest) ≡ s ∷ fields rest
unfolding fields emit
fields-emit String.[] String.[] = refl
fields-emit String.[] (String.◌∷◌ d rest) = refl
fields-emit (String.◌∷◌ c s) rest = ap (onto_first c) (fields-emit s rest)

emit_pairs : List (String × String) → String
unfolding emit
emit_pairs [] = String.[]
emit_pairs ((k, v) ∷ state) = emit k (emit v (emit_pairs state))

paired : List String → List (String × String)
paired [] = []
paired (k ∷ []) = []
paired (k ∷ v ∷ fs) = (k, v) ∷ paired fs

paired-emit_pairs : (state : List (String × String)) → paired (fields (emit_pairs state)) ≡ state
unfolding paired emit_pairs fields
paired-emit_pairs [] = refl
paired-emit_pairs ((k, v) ∷ state) =
    ap paired (
      fields-emit k (emit v (emit_pairs state))
      ∙ ap (λ fs. k ∷ fs) (fields-emit v (emit_pairs state)))
    ∙ ap (λ rest. (k, v) ∷ rest) (paired-emit_pairs state)

abbrev only_first : String → String
only_first String.[] = String.[]
only_first (String.◌∷◌ c s) = String.◌∷◌ c String.[]

abbrev read_state : String → Option (List (String × String))
read_state String.[] = none
read_state (String.◌∷◌ c s) = some (paired (fields s))

unfoldable pub map_codec : StateCodec
unfolding emit_pairs paired fields emit
map_codec = record {
  marshal = λ state. some (String.◌∷◌ mark (emit_pairs state));
  unmarshal = read_state;
}

pub map_codec-Recovers : Recovers map_codec
unfolding map_codec
map_codec-Recovers state text distinct e = (
  state,
  subst (λ t. read_state t ≡ some state) (some-injective e) (ap some (paired-emit_pairs state)),
  λ key. ap (lookup key) (latest-as_map state ∙ as_map_same state distinct),
)

pub map_codec-filled : (state : List (String × String)) → map_codec.marshal state ≢ some ""
unfolding map_codec
map_codec-filled state e = named_apart "x" "" refl ((ap only_first (some-injective e)))

emit_command : Command → String
emit_command c = emit c.op (emit c.key (emit c.value ""))

abbrev command_of : List String → Option Command
command_of (op ∷ key ∷ value ∷ []) = some (record { op = op; key = key; value = value })
command_of _ = none

unfoldable pub text_codec : Codec
unfolding emit_command emit fields
text_codec = record {
  marshal = λ c. some (emit_command c);
  unmarshal = λ text. command_of (fields text);
  states = map_codec;
}

pub text_codec_law :
    (c : Command) (text : String)
    → text_codec.marshal c ≡ some text
    → text_codec.unmarshal text ≡ some c
unfolding text_codec emit_command fields
text_codec_law c text e =
    subst (λ t. command_of (fields t) ≡ some c) (some-injective e)
      (ap command_of (
        fields-emit c.op (emit c.key (emit c.value ""))
        ∙ ap (λ fs. c.op ∷ fs)
            (fields-emit c.key (emit c.value "") ∙ ap (λ fs. c.key ∷ fs) (fields-emit c.value ""))))
