-- ===== src/Commands.antt =====
-- The commands of the client API, mirbft/request/command.go: a payload is a verb and its fields with
-- spaces between them. A text is the list of its code points.
pub mod Text
pub mod Decimals
pub mod Base64
pub mod RoundTrip
use iss_com_multipaxos.Prelude.{
  ℕ, ◌+◌, ◌-◌, ◌*◌, ◌^◌, Bool, Option, none, some, List, [], ◌∷◌, ◌++◌, ltb, if◌then◌else◌, ◌>>=◌,
}
use iss_com_multipaxos.Commands.Text.{codes, fields, eq_text}
use iss_com_multipaxos.Commands.Decimals.{ℤ, format_uint, format_int, parse_uint, parse_int}
use iss_com_multipaxos.Commands.Base64.{encode_to_string, decode_string}

abbrev pub verb_put : List ℕ
verb_put = codes "APIPUT"

abbrev pub verb_get : List ℕ
verb_get = codes "APIGET"

abbrev pub verb_delete : List ℕ
verb_delete = codes "APIDELETE"

abbrev pub verb_transfer : List ℕ
verb_transfer = codes "APITRANSFER"

-- `s + " " + t`
infixr 5 ◌+sp+◌
abbrev pub ◌+sp+◌ : List ℕ → List ℕ → List ℕ
s +sp+ t = s ++ 32 ∷ t

unfoldable pub encode_put : List ℕ → List ℕ → List ℕ
encode_put key value = verb_put +sp+ key +sp+ encode_to_string value

unfoldable pub encode_get : List ℕ → List ℕ
encode_get key = verb_get +sp+ key

unfoldable pub encode_delete : List ℕ → List ℕ
encode_delete key = verb_delete +sp+ key

unfoldable pub encode_transfer : ℕ → List ℕ → ℕ → List ℕ → ℤ → List ℕ
encode_transfer from_group from_key to_group to_key amount =
    verb_transfer
    +sp+ format_uint from_group
    +sp+ from_key
    +sp+ format_uint to_group
    +sp+ to_key
    +sp+ format_int amount

-- DecodedCommand, with a constructor for each verb and the fields that it sets.
pub data DecodedCommand : Type 0 where
  put : List ℕ → List ℕ → DecodedCommand
  get : List ℕ → DecodedCommand
  delete : List ℕ → DecodedCommand
  transfer : ℕ → List ℕ → ℕ → List ℕ → ℤ → DecodedCommand

unfoldable pub decode_put : List (List ℕ) → Option DecodedCommand
decode_put (key ∷ value ∷ more) = do v ← decode_string value; some (DecodedCommand.put key v)
decode_put _ = none

unfoldable pub decode_get : List (List ℕ) → Option DecodedCommand
decode_get [] = none
decode_get (key ∷ more) = some (DecodedCommand.get key)

unfoldable pub decode_delete : List (List ℕ) → Option DecodedCommand
decode_delete [] = none
decode_delete (key ∷ more) = some (DecodedCommand.delete key)

unfoldable pub decode_transfer : List (List ℕ) → Option DecodedCommand
decode_transfer (from_group ∷ from_key ∷ to_group ∷ to_key ∷ amount ∷ more) = do
  f ← parse_uint 32 from_group
  t ← parse_uint 32 to_group
  a ← parse_int 64 amount
  some (DecodedCommand.transfer f from_key t to_key a)
decode_transfer _ = none

-- The `switch` on the verb, for the fields after it.
unfoldable pub decode_verb : List ℕ → List (List ℕ) → Option DecodedCommand
unfolding decode_put decode_get decode_delete decode_transfer
decode_verb verb parts =
    if eq_text verb verb_put
    then decode_put parts
    else if eq_text verb verb_get
    then decode_get parts
    else if eq_text verb verb_delete
    then decode_delete parts
    else if eq_text verb verb_transfer
    then decode_transfer parts
    else none

-- `none` is `ok == false`.
unfoldable pub decode_api_command : List ℕ → Option DecodedCommand
unfolding decode_verb
decode_api_command payload = elim (fields payload) [
  | [] ↦ none
  | verb ∷ parts ↦ decode_verb verb parts
]
