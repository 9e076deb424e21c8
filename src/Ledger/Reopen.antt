-- ===== src/Ledger/Reopen.antt =====
-- A ledger read back from its file.
use blockchain_io_t_a.Common.Crypto.{Crypto, public_key_bytes}
use blockchain_io_t_a.Ledger.{
  Ledger, anchor_root, cache_from, cached, item, last_block, latest_epoch, new_block, new_body,
  open_ledger,
}
use blockchain_io_t_a.Ledger.Anchor.{anchor_root-ok}
use blockchain_io_t_a.Merkle.Proof.{root, root_hex}
use blockchain_io_t_a.Prelude.{
  >>=-eq-ok, List, Option, [], arith, length, nat_eq, none, ok, refl, some, text_eq, ℕ, ◌++◌, ◌∙◌,
  ◌∷◌, ◌≡◌,
}
use blockchain_io_t_a.Prelude.Dict.{Dict, insert}
use blockchain_io_t_a.Prelude.Json.{Object, Value, num}
use blockchain_io_t_a.Prelude.Text.{Str, codes}

-- Opening the file with this key makes the same ledger: its blocks and its cache of roots are in
-- the file.
abbrev pub Reopens : Crypto → ℕ → Str → Ledger → Type 0
Reopens c signing_key fog_id l = open_ledger c l.file signing_key fog_id ≡ ok l

cache_from-append :
    (bs : List Object) (b : Object) (cache : Dict ℕ Str) {after : Dict ℕ Str}
    → cache_from bs cache ≡ ok after
    → cache_from (bs ++ b ∷ []) cache ≡ cache_from (b ∷ []) after
unfolding cache_from
cache_from-append [] b cache {after} h = ground arith
cache_from-append (x ∷ bs) b cache {after} h =
    let (epoch, has_epoch, more) = >>=-eq-ok (item (codes "epoch_id") x) _ h in
    let (root, has_root, rest) = >>=-eq-ok (item (codes "root") x) _ more in
    rw (has_epoch, has_root) (cache_from-append bs b (cached epoch root cache) rest)

cache_from-new_block :
    (c : Crypto) (l : Ledger) (i epoch_id leaf_count : ℕ) (root_hex timestamp fog_id : Str)
    (prev : Value) (cache : Dict ℕ Str)
    → cache_from
        (new_block c l (new_body i epoch_id root_hex leaf_count timestamp fog_id prev) ∷ [])
        cache
      ≡ ok (insert epoch_id root_hex cache)
unfolding cache_from new_block new_body item cached
cache_from-new_block c l i epoch_id leaf_count root_hex timestamp fog_id prev cache = refl

last_block-append : (bs : List Object) (b : Object) → last_block (bs ++ b ∷ []) ≡ some b
unfolding last_block
last_block-append [] b = refl
last_block-append (x ∷ []) b = refl
last_block-append (x ∷ y ∷ bs) b = last_block-append (y ∷ bs) b

item-new_block :
    (c : Crypto) (l : Ledger) (i epoch_id leaf_count : ℕ) (root_hex timestamp fog_id : Str)
    (prev : Value)
    → item
        (codes "epoch_id")
        (new_block c l (new_body i epoch_id root_hex leaf_count timestamp fog_id prev))
      ≡ ok (num epoch_id)
unfolding new_block new_body item
item-new_block c l i epoch_id leaf_count root_hex timestamp fog_id prev = refl

latest_of :
    (l : Ledger) (b : Object) (v : Value)
    → last_block l.blocks ≡ some b
    → item (codes "epoch_id") b ≡ ok v
    → latest_epoch l ≡ ok (some v)
unfolding latest_epoch
latest_of l b v last has = ground arith

module _ (c : Crypto) where
  -- The latest epoch is the one that was anchored last.
  pub anchor_root-latest :
      (l l' : Ledger) (epoch_id leaf_count : ℕ) (root_hex timestamp : Str) (block : Object)
      → anchor_root c l epoch_id root_hex leaf_count timestamp ≡ ok (l', block)
      → latest_epoch l' ≡ ok (some (num epoch_id))
  anchor_root-latest l l' epoch_id leaf_count root_hex timestamp block h =
      let (_, _, _, _, prev, _, is_block, after) =
        anchor_root-ok c l l' epoch_id leaf_count root_hex timestamp block h in
      let numbered : item (codes "epoch_id") block ≡ ok (num epoch_id) = rw is_block (
        item-new_block c l (length l.blocks) epoch_id leaf_count root_hex timestamp l.fog_id
          prev) in
      rw after (latest_of _ block (num epoch_id) (last_block-append l.blocks block) numbered)

  open_ledger-eq :
      (file : Option (List Object)) (signing_key : ℕ) (fog_id : Str) {l : Ledger}
      → open_ledger c file signing_key fog_id ≡ ok l
      → (cache_from l.blocks [] ≡ ok l.root_cache)
        × (l.fog_pk ≡ public_key_bytes c signing_key)
        × (l.signing_key ≡ signing_key)
        × (l.fog_id ≡ fog_id)
  unfolding open_ledger
  open_ledger-eq none signing_key fog_id {l} h =
      (ground arith, ground arith, ground arith, ground arith)
  open_ledger-eq (some bs) signing_key fog_id {l} h =
      let (cache, made, opened) = >>=-eq-ok (cache_from bs []) _ h in
      (ground arith, ground arith, ground arith, ground arith)

  open_ledger-some :
      (bs : List Object) (signing_key : ℕ) (fog_id : Str) (cache : Dict ℕ Str)
      → cache_from bs [] ≡ ok cache
      → open_ledger c (some bs) signing_key fog_id
        ≡ ok (record {
          signing_key = signing_key;
          fog_id = fog_id;
          fog_pk = public_key_bytes c signing_key;
          blocks = bs;
          root_cache = cache;
          file = some bs;
        })
  unfolding open_ledger
  open_ledger-some bs signing_key fog_id cache h = rw h refl

  -- A ledger that its file gives back is given back by its file after anchor_root, too.
  pub anchor_root-Reopens :
      (signing_key : ℕ) (fog_id : Str) (l l' : Ledger) (epoch_id leaf_count : ℕ)
      (root_hex timestamp : Str) (block : Object)
      → Reopens c signing_key fog_id l
      → anchor_root c l epoch_id root_hex leaf_count timestamp ≡ ok (l', block)
      → Reopens c signing_key fog_id l'
  anchor_root-Reopens signing_key fog_id l l' epoch_id leaf_count root_hex timestamp block w h =
      let (cached_all, pk, key, name) = open_ledger-eq l.file signing_key fog_id w in
      let (_, _, _, _, prev, _, is_block, after) =
        anchor_root-ok c l l' epoch_id leaf_count root_hex timestamp block h in
      let fresh : cache_from (block ∷ []) l.root_cache
          ≡ ok (insert epoch_id root_hex l.root_cache) =
        rw is_block (
          cache_from-new_block c l (length l.blocks) epoch_id leaf_count root_hex timestamp l.fog_id
            prev l.root_cache) in
      let again =
        open_ledger-some (l.blocks ++ block ∷ []) signing_key fog_id
          (insert epoch_id root_hex l.root_cache)
          (cache_from-append l.blocks block [] cached_all ∙ fresh) in
      rw (after, pk, key, name) again
