-- ===== src/Ledger/Chain.antt =====
-- The chain stays valid: verify_chain accepts what anchor_root wrote.
use blockchain_io_t_a.Common.Crypto.{Crypto, Sound, public_key_bytes, sign, verify-sign}
use blockchain_io_t_a.Fog.Context.{found}
use blockchain_io_t_a.Ledger.{
  Ledger, Verdict, anchor_root, block_hash, body_of, bytes_of, chain_valid, check_block,
  check_blocks, check_hash, check_signed, genesis_prev_hash, item, last_block, new_block, new_body,
  pick, prev_hash_of, strs_eq, value_eq, verify_chain,
}
use blockchain_io_t_a.Ledger.Anchor.{anchor_root-ok}
use blockchain_io_t_a.Merkle.Proof.{root}
use blockchain_io_t_a.Prelude.{
  List, Result, Result-cases, [], ap, arith, false, inl, inr, length, none, ok, refl, some, suc,
  text_beq_refl, true, ℕ, ◌++◌, ◌+◌, ◌∙◌, ◌∷◌, ◌≡◌,
}
use blockchain_io_t_a.Prelude.Json.{
  Object, Value, bool, canonical_json, compound, null, num, real, str, strs,
}
use blockchain_io_t_a.Prelude.Text.{Bytes, Str, codes, from_hex-to_hex, to_hex}

strs_eq_refl : (l : List Str) → strs_eq l l ≡ true
strs_eq_refl [] = refl
strs_eq_refl (s ∷ l) = ground (arith, text_beq_refl s, strs_eq_refl l)

value_eq_refl : (v : Value) → value_eq v v ≡ true
value_eq_refl null = refl
value_eq_refl (bool true) = refl
value_eq_refl (bool false) = refl
value_eq_refl (num n) = ground arith
value_eq_refl (real s) = text_beq_refl s
value_eq_refl (str s) = text_beq_refl s
value_eq_refl (compound s) = text_beq_refl s
value_eq_refl (strs s) = strs_eq_refl s

-- The hash that a chain with these last blocks links to.
link_from : Value → List Object → Result Value
link_from prev blocks = elim (last_block blocks) [
  | none ↦ ok prev
  | some b ↦ item (codes "block_hash") b
]

last_block-cons :
    (b : Object) (bs : List Object) → (last : Object) × (last_block (b ∷ bs) ≡ some last)
unfolding last_block
last_block-cons b [] = (b, refl)
last_block-cons b (b' ∷ bs) = last_block-cons b' bs

link_from-cons :
    (prev hash : Value) (b : Object) (bs : List Object)
    → item (codes "block_hash") b ≡ ok hash
    → link_from prev (b ∷ bs) ≡ link_from hash bs
unfolding link_from last_block
link_from-cons prev hash b [] h = h
link_from-cons prev hash b (b' ∷ bs) h = let (last, is_last) = last_block-cons b' bs in ground arith

module _ (c : Crypto) (pk : Bytes) where
  check_block-inl :
      (i : ℕ) (prev hash : Value) (b : Object)
      → check_block c pk i prev b ≡ ok (inl hash)
      → item (codes "block_hash") b ≡ ok hash
  unfolding check_block check_signed check_hash
  check_block-inl i prev hash b h = elim (Result-cases (body_of b)) [
    | inr (x, raised) ↦ absurd (ground arith)
    | inl (body, has_body) ↦ elim (Result-cases (item (codes "block_hash") b)) [
      | inr (x, raised) ↦ absurd (ground arith)
      | inl (found, there) ↦ ground arith
    ]
  ]

  check_blocks-inl :
      (i : ℕ) (prev hash : Value) (b : Object) (bs : List Object)
      → check_block c pk i prev b ≡ ok (inl hash)
      → check_blocks c pk i prev (b ∷ bs) ≡ check_blocks c pk (suc i) hash bs
  unfolding check_blocks
  check_blocks-inl i prev hash b bs h = ground arith

  -- A valid chain goes on with the block after it.
  check_blocks-snoc :
      (i : ℕ) (prev : Value) (bs : List Object) (b : Object) (v : Verdict)
      → check_blocks c pk i prev bs ≡ ok (true, v)
      → (v ≡ chain_valid (i + length bs))
        × (hash : Value) × (link_from prev bs ≡ ok hash)
        × (check_blocks c pk i prev (bs ++ b ∷ [])
            ≡ check_blocks c pk (i + length bs) hash (b ∷ []))
  unfolding check_blocks link_from last_block
  check_blocks-snoc i prev [] b v h =
      (ground arith, prev, refl, ap (λ n. check_blocks c pk n prev (b ∷ [])) (omega arith))
  check_blocks-snoc i prev (b' ∷ bs) b v h = elim (Result-cases (check_block c pk i prev b')) [
    | inr (x, raised) ↦ absurd (ground arith)
    | inl (inr verdict, failed) ↦ absurd (ground arith)
    | inl (inl hash, passed) ↦
        let rest : check_blocks c pk (suc i) hash bs ≡ ok (true, v) = ground arith in
        let (is_valid, link, linked, same) = check_blocks-snoc (suc i) hash bs b v rest in
        (
          ground arith,
          link,
          link_from-cons prev hash b' bs (check_block-inl i prev hash b' passed) ∙ linked,
          check_blocks-inl i prev hash b' (bs ++ b ∷ []) passed
              ∙ same
              ∙ ap (λ n. check_blocks c pk n link (b ∷ [])) (omega arith),
        )
  ]

  new_block-valid :
      Sound c
      → (l : Ledger) (i epoch_id leaf_count : ℕ) (root_hex timestamp fog_id : Str) (prev : Value)
      → check_blocks c
          (public_key_bytes c l.signing_key)
          i
          prev
          (new_block c l (new_body i epoch_id root_hex leaf_count timestamp fog_id prev) ∷ [])
        ≡ ok (true, chain_valid (suc i))
  unfolding check_blocks check_block check_signed check_hash new_block new_body body_of pick item
      bytes_of
  new_block-valid sound l i epoch_id leaf_count root_hex timestamp fog_id prev = ground (
    arith,
    value_eq_refl prev,
    value_eq_refl (
        str (
          block_hash c (new_body i epoch_id root_hex leaf_count timestamp fog_id prev) (
            str (
              to_hex (
                sign c l.signing_key (
                  canonical_json
                    (new_body i epoch_id root_hex leaf_count timestamp fog_id prev))))))),
    verify-sign c sound l.signing_key
        (canonical_json (new_body i epoch_id root_hex leaf_count timestamp fog_id prev)),
    from_hex-to_hex
        (sign c l.signing_key
          (canonical_json (new_body i epoch_id root_hex leaf_count timestamp fog_id prev)))
        (unfold sign in
          sound.sign_bytes l.signing_key
            (canonical_json (new_body i epoch_id root_hex leaf_count timestamp fog_id prev))),
  )

-- The ledger of a running fog: its key is the one that it signs with, and its file holds its blocks.
pub record IsOpen (c : Crypto) (l : Ledger) : Type 0 where
  pub own_key : l.fog_pk ≡ public_key_bytes c l.signing_key
  pub written : elim l.file as (λ x. List Object) [ none ↦ [] | some bs ↦ bs ] ≡ l.blocks

module _ (c : Crypto) (sound : Sound c) (l : Ledger) (epoch_id leaf_count : ℕ)
    (root_hex timestamp : Str) (v : Verdict) where
  chain-new_block :
      (prev : Value)
      → check_blocks c (public_key_bytes c l.signing_key) 0 (str genesis_prev_hash) l.blocks
        ≡ ok (true, v)
      → prev_hash_of l.blocks ≡ ok prev
      → (v ≡ chain_valid (length l.blocks))
        × (check_blocks c (public_key_bytes c l.signing_key) 0 (str genesis_prev_hash) (
              l.blocks
              ++ new_block c l
                  (new_body (length l.blocks) epoch_id root_hex leaf_count timestamp l.fog_id prev)
                ∷ [])
            ≡ ok (true, chain_valid (suc (length l.blocks))))
  unfolding prev_hash_of link_from
  chain-new_block prev valid linked =
      let block =
        new_block c l
          (new_body (length l.blocks) epoch_id root_hex leaf_count timestamp l.fog_id prev) in
      let (is_valid, hash, link, same) =
        check_blocks-snoc c (public_key_bytes c l.signing_key) 0 (str genesis_prev_hash) l.blocks
          block v valid in
      let is_prev : hash ≡ prev = cc in
      (
        is_valid ∙ ap chain_valid (omega arith),
        same
            ∙ ap (λ n. check_blocks c (public_key_bytes c l.signing_key) n hash (block ∷ []))
                (omega arith)
            ∙ ap
                (λ h.
                  check_blocks c (public_key_bytes c l.signing_key) (length l.blocks) h
                    (block ∷ []))
                is_prev
            ∙ new_block-valid c (public_key_bytes c l.signing_key) sound l (length l.blocks)
                epoch_id leaf_count root_hex timestamp l.fog_id prev,
      )

module _ (c : Crypto) (sound : Sound c) (l l' : Ledger) (epoch_id leaf_count : ℕ)
    (root_hex timestamp : Str) (block : Object) (v : Verdict) where
  -- Take a ledger with its own key, whose file holds its blocks and whose chain is valid. After
  -- anchor_root that is so again, with one block more.
  pub anchor_root-valid :
      IsOpen c l
      → verify_chain c l none ≡ ok (true, v)
      → anchor_root c l epoch_id root_hex leaf_count timestamp ≡ ok (l', block)
      → IsOpen c l'
        × (v ≡ chain_valid (length l.blocks))
        × (verify_chain c l' none ≡ ok (true, chain_valid (suc (length l.blocks))))
  unfolding verify_chain
  anchor_root-valid opened valid h =
      let (new, root, is_root, size, prev_hash, linked, is_block, after) =
        anchor_root-ok c l l' epoch_id leaf_count root_hex timestamp block h in
      let (is_valid, accepted) =
        chain-new_block c sound l epoch_id leaf_count root_hex timestamp v prev_hash
          (rw (← opened.own_key, ← opened.written) valid) linked in
      (
        record { own_key = rw after opened.own_key; written = rw after refl },
        is_valid,
        rw (after, opened.own_key, is_block) accepted,
      )
