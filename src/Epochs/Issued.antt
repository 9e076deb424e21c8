-- ===== src/Epochs/Issued.antt =====
-- What the packages of a closed epoch are made of, and that the verifier accepts them.
use blockchain_io_t_a.Common.Crypto.{Crypto, Sound, public_key_bytes}
use blockchain_io_t_a.Common.Schemas.{ProofPackage, registered}
use blockchain_io_t_a.Epochs.{
  EpochResult, EpochState, PendingEntry, blocked_dids, by_leaf, finalize_epoch,
}
use blockchain_io_t_a.Epochs.Close.{finalize_epoch-IsClosed, prepare-ok}
use blockchain_io_t_a.Epochs.Members.{
  Admits, Carries, build_packages-Every, by_leaf-Every, collect-Every,
}
use blockchain_io_t_a.Epochs.Ready.{AllHash-ready, IsReady}
use blockchain_io_t_a.Fog.Revocation.{given}
use blockchain_io_t_a.Merkle.Proof.{root}
use blockchain_io_t_a.Merkle.Proof.Levels.{AllHash}
use blockchain_io_t_a.Merkle.Sort.{sorted}
use blockchain_io_t_a.Merkle.Total.{AllHash-sorted}
use blockchain_io_t_a.Merkle.Tree.{MerkleTree, merkle_tree, merkle_tree-eq}
use blockchain_io_t_a.Prelude.{
  All, All-mem, List, Option, [], false, map, mem, nat_eq, ok, refl, some, sym, text_eq, true, ℕ,
  ◌≡◌,
}
use blockchain_io_t_a.Prelude.Dict.{values}
use blockchain_io_t_a.Prelude.Dict.Entries.{Every, Every-mono, lookup-Every}
use blockchain_io_t_a.Prelude.Text.{Bytes, Str, to_hex}
use blockchain_io_t_a.Proofs.{VerificationResult, build_proof_package, verify_proof_package}
use blockchain_io_t_a.Proofs.Complete.{success, verify_proof_package-build}
use blockchain_io_t_a.Storage.{by_status}

-- The verifier accepts the package against this root.
abbrev pub Verifies : Crypto → Option Str → ℕ → ProofPackage → Type 0
Verifies c trusted key pkg =
    (r : VerificationResult) × (verify_proof_package c pkg trusted (public_key_bytes c key) ≡ ok r)
    × (r.accepted ≡ true)

built-Verifies :
    (c : Crypto) (s : Sound c) (given : List Bytes) (tree : MerkleTree) (e : PendingEntry)
    (epoch_id : ℕ) (fog_id : Str) (key : ℕ) (pkg : ProofPackage)
    → AllHash tree.leaves
    → merkle_tree c given false ≡ ok tree
    → IsReady c e
    → mem e.leaf tree.leaves ≡ true
    → build_proof_package c e.did e.public_key e.leaf tree epoch_id fog_id key ≡ ok pkg
    → Verifies c (some (to_hex (root tree))) key pkg
built-Verifies c s given tree e epoch_id fog_id key pkg hashes made (pk, is_key, hashed) known
      built =
    let (pkg', built', verified) =
      verify_proof_package-build c s given false tree e.did e.public_key pk e.leaf epoch_id fog_id
        key hashes made is_key hashed known in
    let is_pkg : pkg' ≡ pkg = cc in
    (success (to_hex e.leaf) (to_hex (root tree)), rw (← is_pkg) verified, refl)

module _ (c : Crypto) (s : Sound c) (st st' : EpochState) (exclude_dids : List Str)
    (timestamp : Str) (result : EpochResult) (P : PendingEntry → Type 0)
    (Q : Str → ProofPackage → Type 0) where
  -- `Q` holds of the package that is made of an entry, where that package is accepted.
  abbrev pub Issues : Type 0
  Issues =
      (tree : MerkleTree) (e : PendingEntry) (pkg : ProofPackage)
      → P e
      → to_hex (root tree) ≡ result.root
      → build_proof_package c e.did e.public_key e.leaf tree st.manager.current_epoch_id
          st.manager.fog_id st.manager.signing_key
        ≡ ok pkg
      → Verifies c (some (to_hex (root tree))) st.manager.signing_key pkg
      → Q e.did pkg

  pub finalize_epoch-Every :
      ((e : PendingEntry) → P e → IsReady c e)
      → Every (Admits (λ did. P) (blocked_dids st.devices exclude_dids)) st.manager.pending
      → All
          (Carries (λ did. P) (blocked_dids st.devices exclude_dids))
          (by_status st.devices registered)
      → finalize_epoch c st exclude_dids timestamp ≡ (ok result, st')
      → Issues
      → Every Q result.packages
  finalize_epoch-Every ready admits carries h issued =
      let (tree, members, carried, new, ledger, w) =
        finalize_epoch-IsClosed c st st' exclude_dids timestamp result h in
      let m = st.manager in
      let blocked = blocked_dids st.devices exclude_dids in
      let (collected, made) =
        prepare-ok c m st.devices blocked tree members carried new w.prepared in
      let all_P =
        collect-Every (λ did. P) blocked c m st.devices members carried new admits carries
          collected in
      let all_ready = Every-mono (λ did. P) (λ did. IsReady c) (λ did. ready) members all_P in
      let given = sorted (map (λ (e : PendingEntry). e.leaf) (values members)) in
      let (is_leaves, _, _, _) = merkle_tree-eq c given false made in
      let hashes : AllHash tree.leaves =
        rw is_leaves (AllHash-sorted _ (AllHash-ready c s members all_ready)) in
      let of_leaf = λ (leaf : Bytes) (e : PendingEntry). (e.leaf ≡ leaf) × P e in
      let entries = by_leaf (values members) [] in
      let by = by_leaf-Every (λ did. P) of_leaf (λ did e p. (refl, p)) members [] all_P tt in
      build_packages-Every c Q tree m.current_epoch_id m.fog_id m.signing_key entries tree.leaves []
        result.packages
        (All-mem tree.leaves λ leaf known e pkg there built.
          let (same, p) = lookup-Every of_leaf leaf e entries by there in
          let built' : build_proof_package c e.did e.public_key e.leaf tree m.current_epoch_id
                m.fog_id m.signing_key
              ≡ ok pkg =
            rw same built in
          issued tree e pkg p (sym w.of_root) built' (
            built-Verifies c s given tree e m.current_epoch_id m.fog_id m.signing_key pkg hashes
              made (ready e p) (rw same known) built'))
        w.packaged tt
