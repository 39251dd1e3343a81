-- ===== src/Commands/RoundTrip.antt =====
-- What the client encodes is what a replica decodes.
use iss_com_multipaxos.Prelude.{ℕ, ◌^◌, ◌<◌, ◌≡◌, refl, none, some, List, [], length, arith, any}
use iss_com_multipaxos.Commands.{
  DecodedCommand, verb_put, verb_get, verb_delete, verb_transfer, encode_put, encode_get,
  encode_delete, encode_transfer, decode_put, decode_get, decode_delete, decode_transfer,
  decode_verb, decode_api_command, ◌+sp+◌,
}
use iss_com_multipaxos.Commands.Text.{
  is_space, IsWord, fields, eq_text, split_word, cons_word, fields-word, fields-last_word,
}
use iss_com_multipaxos.Commands.Decimals.{
  Fits, format_uint, format_int, parse_uint-format_uint, parse_int-format_int, format_uint-IsWord,
  format_int-IsWord,
}
use iss_com_multipaxos.Commands.Base64.{
  IsBytes, encode_to_string, decode_string-encode_to_string, encode_to_string-IsWord,
}

-- The function of the source that encodes a command.
unfoldable pub encode : DecodedCommand → List ℕ
unfolding encode_put encode_get encode_delete encode_transfer
encode (DecodedCommand.put key value) = encode_put key value
encode (DecodedCommand.get key) = encode_get key
encode (DecodedCommand.delete key) = encode_delete key
encode (DecodedCommand.transfer f fk t tk a) = encode_transfer f fk t tk a

-- Keys without spaces, values that are not empty, groups of 32 bits, and an amount of 64.
abbrev pub IsEncodable : DecodedCommand → Type 0
IsEncodable (DecodedCommand.put key value) = IsWord key × IsBytes value × (0 < length value)
IsEncodable (DecodedCommand.get key) = IsWord key
IsEncodable (DecodedCommand.delete key) = IsWord key
IsEncodable (DecodedCommand.transfer f fk t tk a) =
    (f < 2 ^ 32) × IsWord fk × (t < 2 ^ 32) × IsWord tk × Fits 64 a

-- The fields of a text that begins with a verb.
decode_api_command-word :
    (verb s : List ℕ) → IsWord verb → decode_api_command (verb +sp+ s) ≡ decode_verb verb (fields s)
unfolding decode_api_command
decode_api_command-word verb s h = rw (fields-word verb s h, decode_api_command) refl

IsWord-put : IsWord verb_put
unfolding is_space any
IsWord-put = (omega arith, refl)

IsWord-get : IsWord verb_get
unfolding is_space any
IsWord-get = (omega arith, refl)

IsWord-delete : IsWord verb_delete
unfolding is_space any
IsWord-delete = (omega arith, refl)

IsWord-transfer : IsWord verb_transfer
unfolding is_space any
IsWord-transfer = (omega arith, refl)

decode_verb-put : (ps : List (List ℕ)) → decode_verb verb_put ps ≡ decode_put ps
unfolding decode_verb eq_text
decode_verb-put ps = refl

decode_verb-get : (ps : List (List ℕ)) → decode_verb verb_get ps ≡ decode_get ps
unfolding decode_verb eq_text
decode_verb-get ps = refl

decode_verb-delete : (ps : List (List ℕ)) → decode_verb verb_delete ps ≡ decode_delete ps
unfolding decode_verb eq_text
decode_verb-delete ps = refl

decode_verb-transfer : (ps : List (List ℕ)) → decode_verb verb_transfer ps ≡ decode_transfer ps
unfolding decode_verb eq_text
decode_verb-transfer ps = refl

-- If the keys have no spaces, the value of a put is not empty, groups fit 32 bits and the amount 64,
-- then decoding what a command is encoded to gives that command.
pub decode_api_command-encode :
    (c : DecodedCommand) → IsEncodable c → decode_api_command (encode c) ≡ some c
unfolding encode encode_put encode_get encode_delete encode_transfer decode_put decode_get
    decode_delete decode_transfer
decode_api_command-encode (DecodedCommand.put key value) h =
    rw
      (
        decode_api_command-word verb_put (key +sp+ encode_to_string value) IsWord-put,
        decode_verb-put (fields (key +sp+ encode_to_string value)),
        fields-word key (encode_to_string value) h.0,
        fields-last_word (encode_to_string value) (encode_to_string-IsWord value h.1 h.2),
        decode_string-encode_to_string value h.1,
      )
      refl
decode_api_command-encode (DecodedCommand.get key) h =
    rw
      (
        decode_api_command-word verb_get key IsWord-get,
        decode_verb-get (fields key),
        fields-last_word key h,
      )
      refl
decode_api_command-encode (DecodedCommand.delete key) h =
    rw
      (
        decode_api_command-word verb_delete key IsWord-delete,
        decode_verb-delete (fields key),
        fields-last_word key h,
      )
      refl
decode_api_command-encode (DecodedCommand.transfer f fk t tk a) h =
    let s5 : List ℕ = format_int a in
    let s4 : List ℕ = tk +sp+ s5 in
    let s3 : List ℕ = format_uint t +sp+ s4 in
    let s2 : List ℕ = fk +sp+ s3 in
    let s1 : List ℕ = format_uint f +sp+ s2 in
    rw
      (
        decode_api_command-word verb_transfer s1 IsWord-transfer,
        decode_verb-transfer (fields s1),
        fields-word (format_uint f) s2 (format_uint-IsWord f),
        fields-word fk s3 h.1,
        fields-word (format_uint t) s4 (format_uint-IsWord t),
        fields-word tk s5 h.3,
        fields-last_word s5 (format_int-IsWord a),
        parse_uint-format_uint 32 f h.0,
        parse_uint-format_uint 32 t h.2,
        parse_int-format_int a h.4,
      )
      refl

-- The put of an empty value under a key without spaces is not decoded: it is no command.
pub decode_api_command-empty_put :
    (key : List ℕ) → IsWord key → decode_api_command (encode_put key []) ≡ none
unfolding encode_put decode_put encode_to_string fields split_word cons_word
decode_api_command-empty_put key h =
    rw
      (
        decode_api_command-word verb_put (key +sp+ []) IsWord-put,
        decode_verb-put (fields (key +sp+ [])),
        fields-word key [] h,
      )
      refl
