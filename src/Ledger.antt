-- ===== src/Ledger.antt =====
-- The root registry, a signed hash chain (registry/ledger.py). A block is a JSON object, as in the
-- code, and the ledger file is the list of blocks that json reads back from it.
pub mod Accepted
pub mod Anchor
pub mod Reopen
pub mod Chain
pub mod Tampered
use blockchain_io_t_a.Prelude.{
  Bool, Eq, List, Option, Result, [], false, if◌then◌else◌, inl, inr, key_error, ledger_error,
  length, nat_beq, nat_eq, none, not, ok, or_raise, raise, require, some, suc, text_beq, text_eq,
  true, type_error, value_error, ℕ, ◌++◌, ◌>>=◌, ◌>>◌, ◌∷◌, ◌⊎◌,
}
use blockchain_io_t_a.Common.Crypto.{Crypto, public_key_bytes, sign, verify}
use blockchain_io_t_a.Merkle.Proof.{root, root_hex}
use blockchain_io_t_a.Prelude.{◌&&◌}
use blockchain_io_t_a.Prelude.Dict.{Dict, contains, insert, lookup}
use blockchain_io_t_a.Prelude.Json.{
  Object, Value, bool, canonical_json, compound, null, num, real, str, strs,
}
use blockchain_io_t_a.Prelude.Text.{Bytes, Str, codes, from_hex, to_hex}

abbrev pub strs_eq : List Str → List Str → Bool
strs_eq [] [] = true
strs_eq (s ∷ l) (t ∷ m) = text_beq s t && strs_eq l m
strs_eq _ _ = false

-- `a == b` on JSON values; a bool is the number 0 or 1.
abbrev pub value_eq : Value → Value → Bool
value_eq null null = true
value_eq (bool true) (bool true) = true
value_eq (bool false) (bool false) = true
value_eq (bool true) (num n) = nat_beq n 1
value_eq (bool false) (num n) = nat_beq n 0
value_eq (num n) (bool true) = nat_beq n 1
value_eq (num n) (bool false) = nat_beq n 0
value_eq (num n) (num m) = nat_beq n m
value_eq (real s) (real t) = text_beq s t
value_eq (str s) (str t) = text_beq s t
value_eq (compound s) (compound t) = text_beq s t
value_eq (strs l) (strs m) = strs_eq l m
value_eq _ _ = false

-- `json_value["key"]`
unfoldable pub item : Str → Object → Result Value
item key d = or_raise (lookup key d) key_error

-- `bytes.fromhex(value)`
unfoldable pub bytes_of : Value → Result Bytes
bytes_of (str s) = or_raise (from_hex s) value_error
bytes_of _ = raise type_error

-- `"0" * 64`
abbrev pub genesis_prev_hash : Str
genesis_prev_hash = codes "0000000000000000000000000000000000000000000000000000000000000000"

pub record Ledger : Type 0 where
  pub signing_key : ℕ
  pub fog_id : Str
  pub fog_pk : Bytes
  pub blocks : List Object
  pub root_cache : Dict ℕ Str
  pub file : Option (List Object)

abbrev pub body_fields : List Str
body_fields =
    codes "block_index"
    ∷ codes "epoch_id"
    ∷ codes "root"
    ∷ codes "leaf_count"
    ∷ codes "timestamp"
    ∷ codes "fog_id"
    ∷ codes "prev_hash"
    ∷ []

-- `{k: block[k] for k in fields}`
unfoldable pub pick : List Str → Object → Result Object
unfolding item
pick [] block = ok []
pick (k ∷ ks) block = do v ← item k block; rest ← pick ks block; ok ((k, v) ∷ rest)

-- `_body`
unfoldable pub body_of : Object → Result Object
unfolding pick
body_of block = pick body_fields block

-- `self.blocks[-1]`
unfoldable pub last_block : List Object → Option Object
last_block [] = none
last_block (b ∷ []) = some b
last_block (b ∷ b' ∷ bs) = last_block (b' ∷ bs)

-- Only a text root under a number can be asked for; True is the key 1, and False the key 0.
unfoldable pub cached : Value → Value → Dict ℕ Str → Dict ℕ Str
cached (num n) (str r) cache = insert n r cache
cached (bool b) (str r) cache = insert (if b then 1 else 0) r cache
cached _ _ cache = cache

-- `{b["epoch_id"]: b["root"] for b in blocks}`.
unfoldable pub cache_from : List Object → Dict ℕ Str → Result (Dict ℕ Str)
unfolding item cached
cache_from [] cache = ok cache
cache_from (b ∷ bs) cache = do
  epoch ← item (codes "epoch_id") b
  root ← item (codes "root") b
  cache_from bs (cached epoch root cache)

-- `get_root`
unfoldable pub get_root : Ledger → ℕ → Option Str
get_root l epoch_id = lookup epoch_id l.root_cache

-- The loop of get_block; AnchorRecord(**b) shows the block.
unfoldable pub find_block : List Object → ℕ → Result (Option Object)
unfolding item
find_block [] epoch_id = ok none
find_block (b ∷ bs) epoch_id = do
  e ← item (codes "epoch_id") b
  if value_eq e (num epoch_id) then ok (some b) else find_block bs epoch_id

unfoldable pub get_block : Ledger → ℕ → Result (Option Object)
unfolding find_block
get_block l epoch_id = find_block l.blocks epoch_id

unfoldable pub latest_epoch : Ledger → Result (Option Value)
unfolding last_block item
latest_epoch l = elim (last_block l.blocks) [
  | none ↦ ok none
  | some b ↦ do e ← item (codes "epoch_id") b; ok (some e)
]

-- The `body` of anchor_root.
unfoldable pub new_body : ℕ → ℕ → Str → ℕ → Str → Str → Value → Object
new_body block_index epoch_id root_hex leaf_count timestamp fog_id prev_hash =
    (codes "block_index", num block_index)
    ∷ (codes "epoch_id", num epoch_id)
    ∷ (codes "root", str root_hex)
    ∷ (codes "leaf_count", num leaf_count)
    ∷ (codes "timestamp", str timestamp)
    ∷ (codes "fog_id", str fog_id)
    ∷ (codes "prev_hash", prev_hash)
    ∷ []

unfoldable pub prev_hash_of : List Object → Result Value
unfolding last_block item
prev_hash_of blocks = elim (last_block blocks) [
  | none ↦ ok (str genesis_prev_hash)
  | some b ↦ item (codes "block_hash") b
]

-- The messages of verify_chain, with the index of the block.
pub data Verdict : Type 0 where
  missing_field wrong_index bad_link bad_signature hash_mismatch : ℕ → Verdict
  chain_valid : ℕ → Verdict

-- `trusted_fog_pk or self.fog_pk`
abbrev pub trusted_key : Option Bytes → Bytes → Bytes
trusted_key none own = own
trusted_key (some []) own = own
trusted_key (some (b ∷ bs)) own = b ∷ bs

module _ (c : Crypto) where
  unfoldable pub block_hash : Object → Value → Str
  block_hash body signature =
      to_hex (c.sha256 (canonical_json (body ++ (codes "signature", signature) ∷ [])))

  -- `__init__` over a file, with `_load`
  unfoldable pub open_ledger : Option (List Object) → ℕ → Str → Result Ledger
  unfolding cache_from
  open_ledger file signing_key fog_id = do
    let blocks : List Object = elim file [ none ↦ [] | some bs ↦ bs ]
    cache ← cache_from blocks []
    ok (record {
      signing_key = signing_key;
      fog_id = fog_id;
      fog_pk = public_key_bytes c signing_key;
      blocks = blocks;
      root_cache = cache;
      file = file;
    })

  -- The block that anchor_root signs and appends.
  unfoldable pub new_block : Ledger → Object → Object
  new_block l body =
      let signature = to_hex (sign c l.signing_key (canonical_json body)) in
      body
      ++ (codes "signature", str signature)
        ∷ (codes "block_hash", str (block_hash body (str signature)))
        ∷ []

  -- `timestamp` is the text of the clock. The file is written here; Epochs/Unsaved has the case where
  -- `_save` raises.
  unfoldable pub anchor_root : Ledger → ℕ → Str → ℕ → Str → Result (Ledger × Object)
  anchor_root l epoch_id root_hex leaf_count timestamp = do
    require (not (contains epoch_id l.root_cache)) ledger_error
    root ← or_raise (from_hex root_hex) value_error
    require (nat_beq (length root) 32) ledger_error
    prev_hash ← prev_hash_of l.blocks
    let body = new_body (length l.blocks) epoch_id root_hex leaf_count timestamp l.fog_id prev_hash
    let block = new_block l body
    let blocks = l.blocks ++ block ∷ []
    ok (
      record l {
        blocks = blocks;
        root_cache = insert epoch_id root_hex l.root_cache;
        file = some blocks;
      },
      block,
    )

  -- The last test of a round of verify_chain, on a signed body.
  unfoldable pub check_hash : ℕ → Object → Value → Object → Result (Value ⊎ Verdict)
  check_hash i body signature b = do
    hash ← item (codes "block_hash") b
    ok (if value_eq (str (block_hash body signature)) hash then inl hash else inr (hash_mismatch i))

  -- The test of the signature, and the tests after it.
  unfoldable pub check_signed : Bytes → ℕ → Object → Object → Result (Value ⊎ Verdict)
  check_signed pk i body b = do
    signature ← item (codes "signature") b
    signature_bytes ← bytes_of signature
    let checked = check_hash i body signature b
    if verify c pk (canonical_json body) signature_bytes
        then checked
        else ok (inr (bad_signature i))

  -- One round of the loop of verify_chain: the hash to link to next, or the verdict.
  unfoldable pub check_block : Bytes → ℕ → Value → Object → Result (Value ⊎ Verdict)
  check_block pk i prev b = elim (body_of b) [
    | raise _ ↦ ok (inr (missing_field i))
    | ok body ↦ do
      index ← item (codes "block_index") b
      link ← item (codes "prev_hash") b
      let signed = check_signed pk i body b
      let linked = if value_eq link prev then signed else ok (inr (bad_link i))
      if value_eq index (num i) then linked else ok (inr (wrong_index i))
  ]

  unfoldable pub check_blocks : Bytes → ℕ → Value → List Object → Result (Bool × Verdict)
  check_blocks pk i prev [] = ok (true, chain_valid i)
  check_blocks pk i prev (b ∷ bs) = do
    r ← check_block pk i prev b
    elim r [ inr verdict ↦ ok (false, verdict) | inl hash ↦ check_blocks pk (suc i) hash bs ]

  unfoldable pub verify_chain : Ledger → Option Bytes → Result (Bool × Verdict)
  verify_chain l trusted_fog_pk =
      let pk = trusted_key trusted_fog_pk l.fog_pk in
      let blocks : List Object = elim l.file [ none ↦ [] | some bs ↦ bs ] in
      check_blocks pk 0 (str genesis_prev_hash) blocks

-- `len` of a ledger
unfoldable pub block_count : Ledger → ℕ
block_count l = length l.blocks
