-- ===== src/Tests/Rules.antt =====
-- The small rules: nonces, challenges, names, policy and messages.
use blockchain_io_t_a.Fog.Validation.{name_matches}
use blockchain_io_t_a.Fog.Validation.Names.{IsName, name_matches_iff}
use blockchain_io_t_a.Merkle.Total.{given_twice, merkle_tree-refuses}
use blockchain_io_t_a.Merkle.Tree.{merkle_tree}
use blockchain_io_t_a.Policy.{actuator, check_policy, provisional_allowed}
use blockchain_io_t_a.Policy.Stop.{MayStop, check_policy-stop}
use blockchain_io_t_a.Prelude.{
  [], arith, false, raise, refl, true, value_error, ◌++◌, ◌↔◌, ◌∷◌, ◌≡◌, ◌≢◌, ◌⊎◌,
}
use blockchain_io_t_a.Prelude.Text.{Str, codes}
use blockchain_io_t_a.Tests.Toy.{toy}
use blockchain_io_t_a.Tokens.Nonces.{NonceBook, consume, is_dead, issue_nonce, nonce_ok, purge}
use blockchain_io_t_a.Tokens.Nonces.Once.{Steps, consume-once, here, issues, next}
use blockchain_io_t_a.Tokens.Token.{access_message}
use blockchain_io_t_a.Tokens.Token.Messages.{
  IsPlain, access_message-ambiguous, access_message-injective,
}

abbrev book : NonceBook
book = record {
  ttl = 30;
  entries =
      (
        codes "n1",
        record { purpose = codes "p"; subject = codes "s"; expires_at = 50; used = false },
      )
      ∷ [];
}

unfoldable runs : Unit {0}
unfolding consume is_dead purge issue_nonce
runs = tt

abbrev taken : NonceBook
taken = (consume book (codes "p") (codes "s") (codes "n1") 40).1

abbrev later : NonceBook
later = issue_nonce taken (codes "p") (codes "s") (codes "n2") 41

took : consume book (codes "p") (codes "s") (codes "n1") 40 ≡ (nonce_ok, taken)
unfolding runs
took = refl

steps : Steps (codes "n1") taken later
steps = next here (issues taken (codes "p") (codes "s") (codes "n2") 41 refl)

consume-once_example : (consume later (codes "p") (codes "s") (codes "n1") 42).0 ≢ nonce_ok
consume-once_example =
    consume-once book taken later (codes "p") (codes "s") (codes "n1") (codes "p") (codes "s") 40 42
      refl took steps

access_message-ambiguous_example :
    access_message (codes "t1") (codes "did:iiot:a1") (codes "n1") (codes "a|b") (codes "c")
    ≡ access_message (codes "t1") (codes "did:iiot:a1") (codes "n1") (codes "a") (codes "b|c")
access_message-ambiguous_example =
    access_message-ambiguous (codes "t1") (codes "did:iiot:a1") (codes "n1") (codes "a") (codes "b")
      (codes "c")

plain : IsPlain (codes "t1") (codes "did:iiot:a1") (codes "n1") (codes "plc") (codes "read")
plain = record { unicode = omega arith; no_bars = (refl, refl, refl, refl) }

access_message-injective_example :
    (codes "t1" ≡ codes "t1")
    × (codes "did:iiot:a1" ≡ codes "did:iiot:a1")
    × (codes "n1" ≡ codes "n1")
    × (codes "plc" ≡ codes "plc")
    × (codes "read" ≡ codes "read")
access_message-injective_example =
    access_message-injective (codes "t1") (codes "did:iiot:a1") (codes "n1") (codes "plc")
      (codes "read") (codes "t1") (codes "did:iiot:a1") (codes "n1") (codes "plc") (codes "read")
      plain plain refl

check_policy-stop_example :
    ((check_policy (codes "motor_controller") (codes "stop") actuator ≡ true)
      ↔ MayStop (codes "motor_controller") actuator)
    × ((own_type : Str)
        → provisional_allowed own_type (codes "motor_controller") (codes "stop") ≡ false)
check_policy-stop_example = check_policy-stop (codes "motor_controller") actuator

name_matches_iff_example :
    (name_matches (codes "pump_7") ≡ true)
    ↔ (IsName (codes "pump_7") ⊎ ((t : Str) × (codes "pump_7" ≡ t ++ 10 ∷ []) × IsName t))
name_matches_iff_example = name_matches_iff (codes "pump_7")

abbrev leaf_a : Str
leaf_a = codes "aaaaaaaaaaaaaaaaaaaaaaaaaaaaaaaa"

abbrev leaf_b : Str
leaf_b = codes "bbbbbbbbbbbbbbbbbbbbbbbbbbbbbbbb"

merkle_tree-refuses_example :
    merkle_tree toy (leaf_a ∷ leaf_b ∷ leaf_a ∷ []) true ≡ raise value_error
merkle_tree-refuses_example =
    merkle_tree-refuses toy (leaf_a ∷ leaf_b ∷ leaf_a ∷ []) true
      (given_twice [] leaf_a (leaf_b ∷ []) [])
