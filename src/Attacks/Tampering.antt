-- ===== src/Attacks/Tampering.antt =====
-- The run of attacks/tamper_proof.py: two epochs, nine changed packages, a leaf changed after the root
-- was anchored, and a root edited in the ledger file. The keys that the script draws are arguments,
-- and what it prints is left out.
use blockchain_io_t_a.Prelude.{◌>>=◌}
use blockchain_io_t_a.Attacks.{new_identity, present}
use blockchain_io_t_a.Common.Canonical.{leaf_hash}
use blockchain_io_t_a.Common.Crypto.{Crypto, public_key_bytes}
use blockchain_io_t_a.Common.Schemas.{DeviceRecord, ProofPackage, ProofStep}
use blockchain_io_t_a.Epochs.{EpochResult, EpochState, add_leaf, epoch_manager, finalize_epoch}
use blockchain_io_t_a.Fog.Registration.{pending_record}
use blockchain_io_t_a.Ledger.{Ledger, get_root, open_ledger, verify_chain}
use blockchain_io_t_a.Merkle.Proof.{compute_root}
use blockchain_io_t_a.Prelude.{
  Bool, List, Result, [], false, if◌then◌else◌, index_error, key_error, nat_beq, nat_eq, none, not,
  ok, or_raise, os_error, raise, some, text_eq, true, value_error, ℕ, ◌%◌, ◌++◌, ◌+◌, ◌-◌, ◌==◌,
  ◌∷◌,
}
use blockchain_io_t_a.Prelude.Dict.{Dict, insert, lookup}
use blockchain_io_t_a.Prelude.Json.{Object, str}
use blockchain_io_t_a.Prelude.Text.{Bytes, Str, codes, from_hex, to_hex}
use blockchain_io_t_a.Storage.{text_is, upsert}

-- The record of a device that was only just added.
abbrev added_record : Str → Bytes → Str → DeviceRecord
added_record did pk name = record (pending_record did (to_hex pk)) { device_name = some name }

-- `p["did"][:-1] + ("0" if p["did"][-1] != "0" else "1")`
unfoldable pub change_last : Str → Result Str
change_last [] = raise index_error
change_last (x ∷ []) = ok ((if nat_beq x b'0' then b'1' else b'0') ∷ [])
change_last (x ∷ y ∷ s) = do rest ← change_last (y ∷ s); ok (x ∷ rest)

-- `s[0] ^= 0x01`
unfoldable pub flip_bit : Bytes → Result Bytes
flip_bit [] = raise index_error
flip_bit (b ∷ bs) = ok ((if nat_beq (b % 2) 0 then b + 1 else b - 1) ∷ bs)

-- `"L" if side == "R" else "R"`
unfoldable pub other_side : Str → Str
other_side side = if side == codes "R" then codes "L" else codes "R"

-- `path[:-1]`
unfoldable pub without_last : List ProofStep → List ProofStep
without_last [] = []
without_last (s ∷ []) = []
without_last (s ∷ t ∷ path) = s ∷ without_last (t ∷ path)

-- `path[0]`, changed
unfoldable pub change_first :
    (ProofStep → Result ProofStep) → List ProofStep → Result (List ProofStep)
change_first change [] = raise index_error
change_first change (s ∷ path) = do s' ← change s; ok (s' ∷ path)

unfoldable pub flip_sibling : ProofStep → Result ProofStep
unfolding flip_bit
flip_sibling s = do
  text ← or_raise s.sibling key_error
  sibling ← or_raise (from_hex text) value_error
  flipped ← flip_bit sibling
  ok (record s { sibling = some (to_hex flipped) })

unfoldable pub swap_side : ProofStep → Result ProofStep
unfolding other_side
swap_side s = do side ← or_raise s.side key_error; ok (record s { side = some (other_side side) })

-- `blocks[0]["root"] = "ff" * 32`
unfoldable pub edit_first_root : Str → List Object → Result (List Object)
edit_first_root forged [] = raise index_error
edit_first_root forged (b ∷ bs) = ok (insert (codes "root") (str forged) b ∷ bs)

module _ (c : Crypto) where
  -- One round of the loops that register devices.
  unfoldable pub add_device : ℕ → EpochState → Str × ℕ → Result (EpochState × Str)
  unfolding new_identity
  add_device now st (name, key) = do
    let (did, pk) = new_identity c key
    let devices = upsert st.devices (added_record did pk name)
    (manager, leaf) ← add_leaf c st.manager did pk now
    ok (record st { manager = manager; devices = devices }, did)

  unfoldable pub add_devices : ℕ → EpochState → List (Str × ℕ) → Result (EpochState × Dict Str Str)
  unfolding add_device
  add_devices now st [] = ok (st, [])
  add_devices now st (d ∷ ds) = do
    (st', did) ← add_device now st d
    (st'', ids) ← add_devices now st' ds
    ok (st'', (d.0, did) ∷ ids)

  -- The state before SETUP: a new ledger file and no device.
  unfoldable pub tamper_setup : ℕ → Result EpochState
  tamper_setup fog_key = do
    ledger ← open_ledger c none fog_key (codes "fog_A")
    manager ← epoch_manager ledger fog_key (codes "fog_A") true
    ok (record { manager = manager; devices = []; ledger = ledger })

  -- The attacks 1 to 8, each a copy of the genuine package with a change, and the epoch that it
  -- claims.
  unfoldable pub modified_did : ProofPackage → Result ProofPackage
  unfolding change_last
  modified_did p = do
    did ← change_last p.did
    pk ← or_raise (from_hex p.public_key) value_error
    leaf ← leaf_hash c did pk
    ok (record p { did = did; leaf = to_hex leaf })

  unfoldable pub with_key : Bytes → ProofPackage → Result ProofPackage
  with_key evil_pk p = do
    leaf ← leaf_hash c p.did evil_pk
    ok (record p { public_key = to_hex evil_pk; leaf = to_hex leaf })

  unfoldable pub with_identity : Str → Bytes → ProofPackage → Result ProofPackage
  with_identity evil_did evil_pk p = do
    leaf ← leaf_hash c evil_did evil_pk
    ok (record p { did = evil_did; public_key = to_hex evil_pk; leaf = to_hex leaf })

  unfoldable pub flipped_sibling : ProofPackage → Result ProofPackage
  flipped_sibling p = do
    path ← change_first flip_sibling p.proof_path
    ok (record p { proof_path = path })

  unfoldable pub swapped_side : ProofPackage → Result ProofPackage
  swapped_side p = do
    path ← change_first swap_side p.proof_path
    ok (record p { proof_path = path })

  -- `results`: whether the verdict is the expected one.
  unfoldable pub present_as : Bool → ProofPackage → Ledger → Bytes → Result Bool
  present_as expect_ok p ledger fog_pk = do
    r ← present c p ledger fog_pk none
    ok (if r.accepted then expect_ok else not expect_ok)

  -- COMMIT TAMPER: the leaves with the one of this DID replaced.
  unfoldable pub tampered_leaves : Str → Bytes → List (ℕ × Str × Str) → Result (List Bytes)
  tampered_leaves did forged_pk [] = ok []
  tampered_leaves did forged_pk ((i, leaf, owner) ∷ items) = do
    own ← (if owner == did then leaf_hash c did forged_pk else or_raise (from_hex leaf) value_error)
    rest ← tampered_leaves did forged_pk items
    ok (own ∷ rest)

  -- ATTACKS: the verdicts on the genuine package and on its nine changes.
  unfoldable pub attack_packages :
      ProofPackage → Str → Str × Bytes → Ledger → Bytes → Result (List Bool)
  unfolding flipped_sibling swapped_side modified_did with_key with_identity present_as
  attack_packages genuine camera_leaf (evil_did, evil_pk) ledger fog_pk = do
    r0 ← present_as true genuine ledger fog_pk
    p1 ← modified_did genuine
    r1 ← present_as false p1 ledger fog_pk
    p2 ← with_key evil_pk genuine
    r2 ← present_as false p2 ledger fog_pk
    p3 ← with_identity evil_did evil_pk genuine
    r3 ← present_as false p3 ledger fog_pk
    r3b ← present_as false (record genuine { leaf = camera_leaf }) ledger fog_pk
    p4 ← flipped_sibling genuine
    r4 ← present_as false p4 ledger fog_pk
    p5 ← swapped_side genuine
    r5 ← present_as false p5 ledger fog_pk
    let p6 = record genuine { proof_path = without_last genuine.proof_path }
    r6 ← present_as false p6 ledger fog_pk
    r7 ← present_as false (record genuine { epoch_id = 2 }) ledger fog_pk
    r8 ← present_as false (record genuine { epoch_id = 99 }) ledger fog_pk
    ok (r0 ∷ r1 ∷ r2 ∷ r3 ∷ r3b ∷ r4 ∷ r5 ∷ r6 ∷ r7 ∷ r8 ∷ [])

  unfoldable pub commit_tamper : Str → Bytes → EpochResult → Ledger → Result Bool
  unfolding tampered_leaves
  commit_tamper did forged_pk e1 ledger = do
    leaves ← tampered_leaves did forged_pk e1.sorted_leaves
    recomputed ← compute_root c leaves
    ok (not (text_is (get_root ledger 1) (to_hex recomputed)))

  -- LEDGER TAMPER: the file is edited behind the ledger's back.
  unfoldable pub ledger_tamper : Str → Ledger → Result Bool
  unfolding edit_first_root
  ledger_tamper forged ledger = do
    blocks ← or_raise ledger.file os_error
    edited ← edit_first_root forged blocks
    (valid, msg) ← verify_chain c (record ledger { file = some edited }) none
    ok (not valid)

  -- `mgr.finalize_epoch()`, whose exception ends the script
  unfoldable pub close_epoch : Str → EpochState → Result (EpochResult × EpochState)
  close_epoch timestamp st =
      let (result, st') = finalize_epoch c st [] timestamp in
      elim result [ ok r ↦ ok (r, st') | raise x ↦ raise x ]

  -- `main`: whether each attack went as expected. `keys` are the seven devices' in their order.
  unfoldable pub tamper_run :
      ℕ → List (Str × ℕ) → List (Str × ℕ) → ℕ → ℕ → ℕ → Str → Str → Result (List Bool)
  unfolding new_identity add_devices tamper_setup attack_packages commit_tamper ledger_tamper
      close_epoch
  tamper_run fog_key first second evil_key forged_key now timestamp forged_root = do
    start ← tamper_setup fog_key
    (waiting, ids) ← add_devices now start first
    (e1, closed) ← close_epoch timestamp waiting
    (waiting', ids') ← add_devices now closed second
    (e2, st) ← close_epoch timestamp waiting'
    temp ← or_raise (lookup (codes "temp01") ids) key_error
    camera ← or_raise (lookup (codes "camera01") ids) key_error
    genuine ← or_raise (lookup temp e1.packages) key_error
    other ← or_raise (lookup camera e1.packages) key_error
    let fog_pk = public_key_bytes c fog_key
    let evil = new_identity c evil_key
    attacks ← attack_packages genuine other.leaf evil st.ledger fog_pk
    commit ← commit_tamper camera (new_identity c forged_key).1 e1 st.ledger
    edited ← ledger_tamper forged_root st.ledger
    ok (attacks ++ commit ∷ edited ∷ [])
