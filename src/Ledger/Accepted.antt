-- ===== src/Ledger/Accepted.antt =====
-- Which ledger files verify_chain of registry/ledger.py accepts.
use blockchain_io_t_a.Common.Crypto.{Crypto, verify}
use blockchain_io_t_a.Ledger.{
  Ledger, Verdict, block_hash, body_of, bytes_of, chain_valid, check_block, check_blocks,
  check_hash, check_signed, genesis_prev_hash, item, trusted_key, value_eq, verify_chain,
}
use blockchain_io_t_a.Prelude.{
  List, Option, Result-cases, [], ap, arith, inl, inr, length, ok, refl, some, suc, sym, true, ℕ,
  ◌+◌, ◌↔◌, ◌∙◌, ◌∷◌, ◌≡◌,
}
use blockchain_io_t_a.Prelude.Json.{Object, Value, canonical_json, num, str}
use blockchain_io_t_a.Prelude.Text.{Bytes, codes}

module _ (c : Crypto) (pk : Bytes) where
  -- A block at position `i` that links to `prev`: it has the fields of a block, its own position as
  -- index and `prev` as link, a signature of its body under the key, and as `hash` the hash of its
  -- body and signature.
  pub record IsLinked (i : ℕ) (prev : Value) (b : Object) (hash : Value) : Type 0 where
    pub body : Object
    pub fields : body_of b ≡ ok body
    pub index : Value
    pub index_there : item (codes "block_index") b ≡ ok index
    pub in_place : value_eq index (num i) ≡ true
    pub link : Value
    pub link_there : item (codes "prev_hash") b ≡ ok link
    pub linked : value_eq link prev ≡ true
    pub signature : Value
    pub signature_there : item (codes "signature") b ≡ ok signature
    pub signature_bytes : Bytes
    pub readable : bytes_of signature ≡ ok signature_bytes
    pub signed : verify c pk (canonical_json body) signature_bytes ≡ true
    pub hash_there : item (codes "block_hash") b ≡ ok hash
    pub hashed : value_eq (str (block_hash c body signature)) hash ≡ true

  abbrev pub IsChain : ℕ → Value → List Object → Type 0
  IsChain i prev [] = Unit {0}
  IsChain i prev (b ∷ bs) = (hash : Value) × IsLinked i prev b hash × IsChain (suc i) hash bs

  check_signed-inl :
      (i : ℕ) (body b : Object) (hash : Value)
      → check_signed c pk i body b ≡ ok (inl hash)
      → (signature : Value) × (octets : Bytes) × (item (codes "signature") b ≡ ok signature)
        × (bytes_of signature ≡ ok octets)
        × (verify c pk (canonical_json body) octets ≡ true)
        × (item (codes "block_hash") b ≡ ok hash)
        × (value_eq (str (block_hash c body signature)) hash ≡ true)
  unfolding check_signed check_hash
  check_signed-inl i body b hash h = elim (Result-cases (item (codes "signature") b)) [
    | inr (x, raised) ↦ absurd (ground arith)
    | inl (signature, there) ↦ elim (Result-cases (bytes_of signature)) [
      | inr (x, raised) ↦ absurd (ground arith)
      | inl (octets, readable) ↦ elim (Result-cases (item (codes "block_hash") b)) [
        | inr (x, raised) ↦ absurd (ground arith)
        | inl (found_hash, there') ↦
            let same : found_hash ≡ hash = ground arith in
            (signature, octets, there, readable, ground arith, ground arith, ground arith)
      ]
    ]
  ]

  pub check_block-IsLinked :
      (i : ℕ) (prev : Value) (b : Object) (hash : Value)
      → check_block c pk i prev b ≡ ok (inl hash)
      → IsLinked i prev b hash
  unfolding check_block
  check_block-IsLinked i prev b hash h = elim (Result-cases (body_of b)) [
    | inr (x, raised) ↦ absurd (ground arith)
    | inl (body, fields) ↦ elim (Result-cases (item (codes "block_index") b)) [
      | inr (x, raised) ↦ absurd (ground arith)
      | inl (index, index_there) ↦ elim (Result-cases (item (codes "prev_hash") b)) [
        | inr (x, raised) ↦ absurd (ground arith)
        | inl (link, link_there) ↦
            let checked : check_signed c pk i body b ≡ ok (inl hash) = ground arith in
            let (signature, octets, there, readable, signed, there', hashed) =
              check_signed-inl i body b hash checked in
            record {
              body = body;
              fields = fields;
              index = index;
              index_there = index_there;
              in_place = ground arith;
              link = link;
              link_there = link_there;
              linked = ground arith;
              signature = signature;
              signature_there = there;
              signature_bytes = octets;
              readable = readable;
              signed = signed;
              hash_there = there';
              hashed = hashed;
            }
      ]
    ]
  ]

  IsLinked-check_block :
      (i : ℕ) (prev : Value) (b : Object) (hash : Value)
      → IsLinked i prev b hash
      → check_block c pk i prev b ≡ ok (inl hash)
  unfolding check_block check_signed check_hash
  IsLinked-check_block i prev b hash w = ground (
    arith, w.fields, w.index_there, w.in_place, w.link_there, w.linked, w.signature_there,
    w.readable, w.signed, w.hash_there, w.hashed,
  )

  check_blocks-IsChain :
      (i : ℕ) (prev : Value) (bs : List Object) (v : Verdict)
      → check_blocks c pk i prev bs ≡ ok (true, v)
      → IsChain i prev bs × (v ≡ chain_valid (i + length bs))
  unfolding check_blocks
  check_blocks-IsChain i prev [] v h = (tt, ground arith)
  check_blocks-IsChain i prev (b ∷ bs) v h = elim (Result-cases (check_block c pk i prev b)) [
    | inr (x, raised) ↦ absurd (ground arith)
    | inl (inr verdict, broken) ↦ absurd (ground arith)
    | inl (inl hash, passed) ↦
        let (rest, is_valid) = check_blocks-IsChain (suc i) hash bs v (ground arith) in
        ((hash, check_block-IsLinked i prev b hash passed, rest), ground arith)
  ]

  IsChain-check_blocks :
      (i : ℕ) (prev : Value) (bs : List Object)
      → IsChain i prev bs
      → check_blocks c pk i prev bs ≡ ok (true, chain_valid (i + length bs))
  unfolding check_blocks
  IsChain-check_blocks i prev [] w = ground arith
  IsChain-check_blocks i prev (b ∷ bs) (hash, linked, rest) =
      let passed = IsLinked-check_block i prev b hash linked in
      let valid = IsChain-check_blocks (suc i) hash bs rest in ground arith

-- verify_chain answers that a file is valid just if every block in it has its fields, its own
-- position as index, the hash of the block before it as link (the first one the link of a genesis
-- block), a signature that verifies under the key, and its own hash; and it then names the number
-- of the blocks. The key is the trusted one, where one is given that is not empty, and else the
-- fog's own.
pub verify_chain_iff :
    (c : Crypto) (l : Ledger) (trusted : Option Bytes) (bs : List Object) (v : Verdict)
    → l.file ≡ some bs
    → (verify_chain c l trusted ≡ ok (true, v)) ↔ (
        IsChain c (trusted_key trusted l.fog_pk) 0 (str genesis_prev_hash) bs
        × (v ≡ chain_valid (length bs)))
unfolding verify_chain
verify_chain_iff c l trusted bs v file =
    let pk = trusted_key trusted l.fog_pk in
    let start = str genesis_prev_hash in
    let same : verify_chain c l trusted ≡ check_blocks c pk 0 start bs = rw file refl in
    let count : 0 + length bs ≡ length bs = omega arith in
    (
      λ h.
          let (chain, is_valid) = check_blocks-IsChain c pk 0 start bs v (sym same ∙ h) in
          (chain, is_valid ∙ ap chain_valid count),
      λ (chain, is_valid).
          same
          ∙ IsChain-check_blocks c pk 0 start bs chain
          ∙ ap (λ n. ok (true, chain_valid n)) count
          ∙ ap (λ w. ok (true, w)) (sym is_valid),
    )
