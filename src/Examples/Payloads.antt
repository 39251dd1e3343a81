-- ===== src/Examples/Payloads.antt =====
-- Commands of the client API, and replicas of two groups that apply them.
use iss_com_multipaxos.Prelude.{
  ℕ, ◌+◌, ◌%◌, ◌^◌, ◌≡◌, refl, true, false, none, some, List, [], ◌∷◌, any, if◌then◌else◌, arith,
  lookup, insert,
}
use iss_com_multipaxos.Commands.{DecodedCommand, encode_put, decode_api_command}
use iss_com_multipaxos.Commands.Text.{codes, is_space, eq_text, IsWord}
use iss_com_multipaxos.Commands.Decimals.{ℤ, format_uint, digits}
use iss_com_multipaxos.Commands.Base64.{encode_to_string, sextet_char}
use iss_com_multipaxos.Commands.RoundTrip.{
  encode, decode_api_command-encode, decode_api_command-empty_put,
}
use iss_com_multipaxos.Groups.{group_sn}
use iss_com_multipaxos.Request.{ClientRequest}
use iss_com_multipaxos.Store.{
  GroupState, apply_command, add_balance, pattern, encode_int64, decode_int64, new_replica,
  last_applied_of, apply_entry_in_order, hand_on, Effect,
}
use iss_com_multipaxos.Store.Texts.{lookup_text, insert_text}
use iss_com_multipaxos.Store.Transfer.{balance, transfer_conserves}
use iss_com_multipaxos.Store.Apply.{Call, run, PushesAbove, run-PushesAbove, run-first_lost}

base64_of_text : encode_to_string (codes "light w") ≡ codes "bGlnaHQgdw=="
unfolding encode_to_string sextet_char
base64_of_text = refl

encoded_put : encode_put (codes "k") (codes "hi") ≡ codes "APIPUT k aGk="
unfolding encode_put encode_to_string sextet_char
encoded_put = refl

decimal : format_uint 4096 ≡ codes "4096"
unfolding format_uint digits
decimal = refl

alice_IsWord : IsWord (codes "alice")
unfolding is_space any
alice_IsWord = (omega arith, refl)

bob_IsWord : IsWord (codes "bob")
unfolding is_space any
bob_IsWord = (omega arith, refl)

abbrev payment : DecodedCommand
payment = DecodedCommand.transfer 1 (codes "alice") 2 (codes "bob") (ℤ.negsuc 24)

decode_api_command-encode_example : decode_api_command (encode payment) ≡ some payment
decode_api_command-encode_example =
    decode_api_command-encode payment
      (omega arith, alice_IsWord, omega arith, bob_IsWord, omega arith)

decode_api_command-empty_put_example : decode_api_command (encode_put (codes "bob") []) ≡ none
decode_api_command-empty_put_example = decode_api_command-empty_put (codes "bob") bob_IsWord

abbrev ledger : GroupState
ledger = (codes "alice", 0 ∷ 0 ∷ 0 ∷ 0 ∷ 0 ∷ 0 ∷ 0 ∷ 100 ∷ []) ∷ []

-- A transfer within one group takes the amount and gives it to nobody.
lost_within_a_group :
    apply_command 1 (DecodedCommand.transfer 1 (codes "alice") 1 (codes "bob") (ℤ.pos 30)) ledger
    ≡ some (
      (codes "alice", 0 ∷ 0 ∷ 0 ∷ 0 ∷ 0 ∷ 0 ∷ 0 ∷ 70 ∷ []) ∷ [],
      0 ∷ 0 ∷ 0 ∷ 0 ∷ 0 ∷ 0 ∷ 0 ∷ 70 ∷ [],
      true,
    )
unfolding apply_command add_balance pattern encode_int64 decode_int64 lookup_text insert_text
    eq_text
lost_within_a_group = refl

transfer_conserves_example :
    (gf' : GroupState) × (gt' : GroupState) × (vf : List ℕ) × (vt : List ℕ) × (apply_command 1
        payment ledger
      ≡ some (gf', vf, true))
    × (apply_command 2 payment [] ≡ some (gt', vt, true))
    × ((balance (codes "alice") gf' + balance (codes "bob") gt') % 2 ^ 64
        ≡ (balance (codes "alice") ledger + balance (codes "bob") []) % 2 ^ 64)
    × (lookup_text (codes "carol") gf' ≡ (
        if eq_text (codes "alice") (codes "carol")
        then some vf
        else lookup_text (codes "carol") ledger))
    × (lookup_text (codes "carol") gt' ≡ (
        if eq_text (codes "bob") (codes "carol") then some vt else lookup_text (codes "carol") []))
transfer_conserves_example =
    transfer_conserves 1 2 (codes "alice") (codes "bob") (codes "carol") (ℤ.negsuc 24) ledger []
      (omega arith)

abbrev stored : ClientRequest
stored = record {
  client_id = 5;
  client_sn = 1;
  payload = codes "APIPUT k aGk=";
  group_id = 1;
  touched_groups = [];
  gsn = 0;
}

-- Two batches of one request, an empty one, and the first of them a second time.
abbrev calls : List Call
calls =
    (3, some (stored ∷ []), true)
    ∷ (4, some [], false)
    ∷ (3, some (stored ∷ []), true)
    ∷ (6, some (stored ∷ []), false)
    ∷ []

pushed :
    (run 1 calls new_replica).1
    ≡ Effect.push 3 (stored ∷ []) true ∷ Effect.push 6 (stored ∷ []) false ∷ []
unfolding run apply_entry_in_order hand_on last_applied_of new_replica lookup insert
pushed = refl

run-PushesAbove_example : PushesAbove (last_applied_of 1 new_replica) (run 1 calls new_replica).1
run-PushesAbove_example = run-PushesAbove 1 calls new_replica

run-first_lost_example :
    run 1 ((group_sn 0 0 3 0, some (stored ∷ []), true) ∷ calls) new_replica
    ≡ run 1 calls new_replica
run-first_lost_example = run-first_lost 1 3 (some (stored ∷ [])) true calls
