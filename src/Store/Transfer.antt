-- ===== src/Store/Transfer.antt =====
-- A transfer moves an amount from an account of one group to an account of another.
use iss_com_multipaxos.Prelude.{
  ℕ, ◌+◌, ◌-◌, ◌%◌, ◌^◌, ◌<◌, ◌≡◌, ◌≢◌, refl, sym, true, some, List, [], or_else, ◌==◌,
  if◌then◌else◌, arith, ==_iff, Bool-cases, inl, inr,
}
use iss_com_multipaxos.Commands.{DecodedCommand}
use iss_com_multipaxos.Commands.Decimals.{ℤ}
use iss_com_multipaxos.Commands.Text.{eq_text}
use iss_com_multipaxos.Store.Texts.{lookup_text, lookup-insert_text, eq_text_iff}
use iss_com_multipaxos.Store.{
  GroupState, pattern, decode_int64, encode_int64, add_balance, apply_command,
}

-- An int64 comes back from its eight bytes.
pub decode_int64-encode_int64 : (v : ℕ) → v < 2 ^ 64 → decode_int64 (encode_int64 v) ≡ v
unfolding decode_int64 encode_int64
decode_int64-encode_int64 v h = omega arith

-- The account under a key, 0 where there is none.
abbrev pub balance : List ℕ → GroupState → ℕ
balance key gs = decode_int64 (or_else (lookup_text key gs) [])

-- What an addition leaves under any key.
pub lookup-add_balance :
    (k key : List ℕ) (delta : ℕ) (gs : GroupState)
    → lookup_text k (add_balance key delta gs).0 ≡ (
        if eq_text key k
        then some (encode_int64 ((balance key gs + delta) % 2 ^ 64))
        else lookup_text k gs)
unfolding add_balance
lookup-add_balance k key delta gs =
    lookup-insert_text k key (encode_int64 ((balance key gs + delta) % 2 ^ 64)) gs

balance-add_balance :
    (key : List ℕ) (delta : ℕ) (gs : GroupState)
    → balance key (add_balance key delta gs).0 ≡ (balance key gs + delta) % 2 ^ 64
balance-add_balance key delta gs =
    rw
      (
        lookup-add_balance key key delta gs,
        (eq_text_iff key key).1 refl,
        decode_int64-encode_int64 ((balance key gs + delta) % 2 ^ 64) (omega arith),
      )
      refl

pattern-lt : (a : ℤ) → pattern a < 2 ^ 64
unfolding pattern
pattern-lt (ℤ.pos n) = omega arith
pattern-lt (ℤ.negsuc n) = omega arith

apply_command-from :
    (f t : ℕ) (fk tk : List ℕ) (a : ℤ) (gs : GroupState)
    → apply_command f (DecodedCommand.transfer f fk t tk a) gs
      ≡ some (
        (add_balance fk ((2 ^ 64 - pattern a) % 2 ^ 64) gs).0,
        (add_balance fk ((2 ^ 64 - pattern a) % 2 ^ 64) gs).1,
        true,
      )
unfolding apply_command
apply_command-from f t fk tk a gs = rw ((==_iff f f).1 refl) refl

apply_command-to :
    (f t : ℕ) (fk tk : List ℕ) (a : ℤ) (gs : GroupState)
    → f ≢ t
    → apply_command t (DecodedCommand.transfer f fk t tk a) gs
      ≡ some ((add_balance tk (pattern a) gs).0, (add_balance tk (pattern a) gs).1, true)
unfolding apply_command
apply_command-to f t fk tk a gs ne = elim (Bool-cases (t == f)) [
  | inl e ↦ absurd (ne (sym ((==_iff t f).0 e)))
  | inr e ↦ rw (e, (==_iff t t).1 refl) refl
]

stored :
    (k key : List ℕ) (delta : ℕ) (gs : GroupState)
    → lookup_text k (add_balance key delta gs).0
      ≡ (if eq_text key k then some (add_balance key delta gs).1 else lookup_text k gs)
unfolding add_balance
stored k key delta gs = lookup-add_balance k key delta gs

moved :
    (x y p : ℕ)
    → p < 2 ^ 64
    → ((x + (2 ^ 64 - p) % 2 ^ 64) % 2 ^ 64 + (y + p) % 2 ^ 64) % 2 ^ 64 ≡ (x + y) % 2 ^ 64
moved x y p h = omega arith

-- When a transfer between two groups is applied by a replica of each, both accept it, the two accounts
-- hold together what they held before, modulo 2 ^ 64, and under any other key nothing changes.
pub transfer_conserves :
    (f t : ℕ) (fk tk k : List ℕ) (a : ℤ) (gf gt : GroupState)
    → f ≢ t
    → (gf' : GroupState) × (gt' : GroupState) × (vf : List ℕ) × (vt : List ℕ) × (apply_command f
          (DecodedCommand.transfer f fk t tk a)
          gf
        ≡ some (gf', vf, true))
      × (apply_command t (DecodedCommand.transfer f fk t tk a) gt ≡ some (gt', vt, true))
      × ((balance fk gf' + balance tk gt') % 2 ^ 64 ≡ (balance fk gf + balance tk gt) % 2 ^ 64)
      × (lookup_text k gf' ≡ (if eq_text fk k then some vf else lookup_text k gf))
      × (lookup_text k gt' ≡ (if eq_text tk k then some vt else lookup_text k gt))
transfer_conserves f t fk tk k a gf gt ne =
    let df : ℕ = (2 ^ 64 - pattern a) % 2 ^ 64 in
    let sum : (balance fk (add_balance fk df gf).0 + balance tk (add_balance tk (pattern a) gt).0)
          % 2 ^ 64
        ≡ (balance fk gf + balance tk gt) % 2 ^ 64 =
      rw (balance-add_balance fk df gf, balance-add_balance tk (pattern a) gt)
        (moved (balance fk gf) (balance tk gt) (pattern a) (pattern-lt a)) in
    (
      (add_balance fk df gf).0,
      (add_balance tk (pattern a) gt).0,
      (add_balance fk df gf).1,
      (add_balance tk (pattern a) gt).1,
      apply_command-from f t fk tk a gf,
      apply_command-to f t fk tk a gt ne,
      sum,
      stored k fk df gf,
      stored k tk (pattern a) gt,
    )
