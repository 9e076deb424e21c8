-- ===== src/Ledger/Tampered.antt =====
-- A ledger file with a signature that is no hex.
use blockchain_io_t_a.Common.Crypto.{Crypto}
use blockchain_io_t_a.Ledger.{
  Ledger, Verdict, body_fields, body_of, bytes_of, check_block, check_blocks, check_signed,
  genesis_prev_hash, item, pick, trusted_key, verify_chain,
}
use blockchain_io_t_a.Ledger.Accepted.{check_block-IsLinked}
use blockchain_io_t_a.Prelude.{
  List, Option, Result-cases, [], arith, false, inl, inr, mem, nat_eq, none, ok, raise, refl, some,
  suc, sym, text_beq_iff, text_eq, true, value_error, ℕ, ◌++◌, ◌==◌, ◌∙◌, ◌∷◌, ◌≡◌,
}
use blockchain_io_t_a.Prelude.Dict.{insert, lookup-insert, lookup-insert_self}
use blockchain_io_t_a.Prelude.Json.{Object, Value, str}
use blockchain_io_t_a.Prelude.Text.{Bytes, Str, codes, from_hex}

item-insert_other :
    (k key : Str) (v : Value) (d : Object) → (k == key) ≡ false → item k (insert key v d) ≡ item k d
unfolding item
item-insert_other k key v d other = ground (arith, lookup-insert key k v d)

pick-insert_other :
    (ks : List Str) (key : Str) (v : Value) (d : Object)
    → mem key ks ≡ false
    → pick ks (insert key v d) ≡ pick ks d
unfolding pick
pick-insert_other [] key v d other = refl
pick-insert_other (k ∷ ks) key v d other = ground (
  arith,
  item-insert_other k key v d (ground (arith, text_beq_iff k key, text_beq_iff key k)),
  pick-insert_other ks key v d (ground arith),
)

-- `b["signature"] = bad`
abbrev pub with_signature : Str → Object → Object
with_signature bad b = insert (codes "signature") (str bad) b

module _ (c : Crypto) (pk : Bytes) (bad : Str) (b : Object) (behind : List Object) where
  check_block-bad :
      (i : ℕ) (prev hash : Value)
      → from_hex bad ≡ none
      → check_block c pk i prev b ≡ ok (inl hash)
      → check_block c pk i prev (with_signature bad b) ≡ raise value_error
  unfolding check_block check_signed body_of bytes_of item
  check_block-bad i prev hash no_hex passed =
      let w = check_block-IsLinked c pk i prev b hash passed in
      ground (
        arith,
        no_hex,
        w.fields,
        w.index_there,
        w.in_place,
        w.link_there,
        w.linked,
        pick-insert_other body_fields (codes "signature") (str bad) b refl,
        lookup-insert (codes "signature") (codes "block_index") (str bad) b,
        lookup-insert (codes "signature") (codes "prev_hash") (str bad) b,
        lookup-insert_self (codes "signature") (str bad) b,
      )

  check_blocks-bad :
      (i : ℕ) (prev : Value) (before : List Object) (v : Verdict)
      → from_hex bad ≡ none
      → check_blocks c pk i prev (before ++ b ∷ behind) ≡ ok (true, v)
      → check_blocks c pk i prev (before ++ with_signature bad b ∷ behind) ≡ raise value_error
  unfolding check_blocks
  check_blocks-bad i prev [] v no_hex h = elim (Result-cases (check_block c pk i prev b)) [
    | inr (x, raised) ↦ absurd (ground arith)
    | inl (inr verdict, broken) ↦ absurd (ground arith)
    | inl (inl hash, passed) ↦ ground (arith, check_block-bad i prev hash no_hex passed)
  ]
  check_blocks-bad i prev (x ∷ before) v no_hex h =
      elim (Result-cases (check_block c pk i prev x)) [
        | inr (x, raised) ↦ absurd (ground arith)
        | inl (inr verdict, broken) ↦ absurd (ground arith)
        | inl (inl hash, passed) ↦
            ground (arith, check_blocks-bad (suc i) hash before v no_hex (ground arith))
      ]

-- Take a ledger file that verify_chain accepts, and change the signature of any one of its blocks to
-- a text that is no hex. Then verify_chain raises ValueError; it does not answer that the chain is
-- invalid.
pub verify_chain-from_hex :
    (c : Crypto) (l : Ledger) (trusted : Option Bytes) (before : List Object) (b : Object)
    (behind : List Object) (bad : Str) (v : Verdict)
    → l.file ≡ some (before ++ b ∷ behind)
    → verify_chain c l trusted ≡ ok (true, v)
    → from_hex bad ≡ none
    → verify_chain c (record l { file = some (before ++ with_signature bad b ∷ behind) }) trusted
      ≡ raise value_error
unfolding verify_chain
verify_chain-from_hex c l trusted before b behind bad v file valid no_hex =
    let pk = trusted_key trusted l.fog_pk in
    let start = str genesis_prev_hash in
    let same : verify_chain c l trusted ≡ check_blocks c pk 0 start (before ++ b ∷ behind) =
      rw file refl in
    check_blocks-bad c pk bad b behind 0 start before v no_hex (sym same ∙ valid)
