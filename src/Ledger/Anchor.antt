-- ===== src/Ledger/Anchor.antt =====
-- What anchor_root does to the roots: it adds one, and never replaces one.
use blockchain_io_t_a.Common.Crypto.{Crypto}
use blockchain_io_t_a.Ledger.{Ledger, anchor_root, get_root, new_block, new_body, prev_hash_of}
use blockchain_io_t_a.Merkle.Proof.{root}
use blockchain_io_t_a.Prelude.{
  Option-cases, Result-cases, [], arith, false, inl, inr, ledger_error, length, nat_beq, nat_eq,
  none, ok, raise, some, text_eq, true, ℕ, ◌++◌, ◌∷◌, ◌≡◌,
}
use blockchain_io_t_a.Prelude.Dict.{contains, insert, lookup-insert, lookup-insert_self}
use blockchain_io_t_a.Prelude.Json.{Object, Value}
use blockchain_io_t_a.Prelude.Text.{Bytes, Str, from_hex}

re_anchor :
    (c : Crypto) (l : Ledger) (epoch_id leaf_count : ℕ) (root_hex timestamp : Str)
    → contains epoch_id l.root_cache ≡ true
    → anchor_root c l epoch_id root_hex leaf_count timestamp ≡ raise ledger_error
unfolding anchor_root
re_anchor c l epoch_id leaf_count root_hex timestamp h = ground arith

module _ (c : Crypto) (l l' : Ledger) (epoch_id leaf_count : ℕ) (root_hex timestamp : Str)
    (block : Object) where
  pub anchor_root-ok :
      anchor_root c l epoch_id root_hex leaf_count timestamp ≡ ok (l', block)
      → (contains epoch_id l.root_cache ≡ false)
        × (root : Bytes) × (from_hex root_hex ≡ some root)
        × (nat_beq (length root) 32 ≡ true)
        × (prev_hash : Value) × (prev_hash_of l.blocks ≡ ok prev_hash)
        × (block
            ≡ new_block c l (
                new_body
                  (length l.blocks)
                  epoch_id
                  root_hex
                  leaf_count
                  timestamp
                  l.fog_id
                  prev_hash))
        × (l' ≡ record l {
          blocks = l.blocks ++ block ∷ [];
          root_cache = insert epoch_id root_hex l.root_cache;
          file = some (l.blocks ++ block ∷ []);
        })
  unfolding anchor_root
  anchor_root-ok h = elim (Option-cases (from_hex root_hex)) [
    | inl bad ↦ absurd (ground arith)
    | inr (root, is_root) ↦ elim (Result-cases (prev_hash_of l.blocks)) [
      | inr (x, raised) ↦ absurd (ground arith)
      | inl (prev_hash, linked) ↦
          (ground arith, root, is_root, ground arith, prev_hash, linked, ground arith, ground arith)
    ]
  ]

  -- After anchor_root, get_root answers the new root for its epoch and what it answered before for
  -- every other; the epoch had no root before, and anchoring it again raises LedgerError.
  pub anchor_root-append_only :
      anchor_root c l epoch_id root_hex leaf_count timestamp ≡ ok (l', block)
      → (get_root l epoch_id ≡ none)
        × (get_root l' epoch_id ≡ some root_hex)
        × ((n : ℕ) → nat_beq n epoch_id ≡ false → get_root l' n ≡ get_root l n)
        × ((again time : Str) (count : ℕ)
            → anchor_root c l' epoch_id again count time ≡ raise ledger_error)
  unfolding get_root
  anchor_root-append_only h =
      let (new, root, is_root, size, prev_hash, linked, is_block, after) = anchor_root-ok h in
      let there : get_root l' epoch_id ≡ some root_hex =
        rw after (lookup-insert_self epoch_id root_hex l.root_cache) in
      (
        ground arith,
        there,
        λ n other. rw after (ground (arith, lookup-insert epoch_id n root_hex l.root_cache)),
        λ again time count. re_anchor c l' epoch_id count again time (ground arith),
      )
