-- ===== src/Epochs/Complete.antt =====
-- Every member of an epoch gets its package, and the epoch is closed.
use blockchain_io_t_a.Common.Crypto.{Crypto}
use blockchain_io_t_a.Common.Schemas.{ProofPackage}
use blockchain_io_t_a.Epochs.{
  EpochResult, EpochState, PendingEntry, blocked_dids, build_packages, by_leaf, collect,
  finalize_epoch,
}
use blockchain_io_t_a.Epochs.Batch.{collect-keyed, keyed}
use blockchain_io_t_a.Epochs.Close.{finalize_epoch-IsClosed, prepare-ok}
use blockchain_io_t_a.Epochs.Members.{build_packages-Every, by_leaf-Every}
use blockchain_io_t_a.Fog.Context.{found}
use blockchain_io_t_a.Merkle.Sort.{distinct, sorted}
use blockchain_io_t_a.Merkle.Sorting.{distinct-sorted, mem-sorted}
use blockchain_io_t_a.Merkle.Tree.{MerkleTree, merkle_tree-eq}
use blockchain_io_t_a.Prelude.{
  All-every, Bool-cases, List, Option-cases, Result-cases, [], arith, false, inl, inr, map, mem,
  nat_eq, ok, refl, some, sym, text_beq_iff, text_beq_refl, text_eq, true, ℕ, ◌==◌, ◌||◌, ◌∙◌, ◌∷◌,
  ◌≡◌,
}
use blockchain_io_t_a.Prelude.Dict.{
  Dict, contains, insert, lookup, lookup-insert, lookup-insert_self, values,
}
use blockchain_io_t_a.Prelude.Dict.Entries.{Every, Every-both, Every-contains, lookup-Every}
use blockchain_io_t_a.Prelude.Text.{Bytes, Str}
use blockchain_io_t_a.Proofs.{build_proof_package}

-- The leaves of these entries.
abbrev pub leaves_of : List PendingEntry → List Bytes
leaves_of es = map (λ (e : PendingEntry). e.leaf) es

by_leaf-other :
    (leaf : Bytes) (es : List PendingEntry) (d : Dict Bytes PendingEntry)
    → mem leaf (leaves_of es) ≡ false
    → lookup leaf (by_leaf es d) ≡ lookup leaf d
unfolding by_leaf
by_leaf-other leaf [] d h = refl
by_leaf-other leaf (e ∷ es) d h =
    ground (arith, by_leaf-other leaf es (insert e.leaf e d), lookup-insert e.leaf leaf e d)

-- Where no leaf is given twice, each entry is found under its leaf.
by_leaf-lookup :
    (did : Str) (e : PendingEntry) (d : Dict Str PendingEntry) (acc : Dict Bytes PendingEntry)
    → distinct (leaves_of (values d)) ≡ true
    → lookup did d ≡ some e
    → (lookup e.leaf (by_leaf (values d) acc) ≡ some e) × (mem e.leaf (leaves_of (values d)) ≡ true)
unfolding by_leaf distinct
by_leaf-lookup did e [] acc u h = cc
by_leaf-lookup did e ((k, f) ∷ d) acc u h = elim (Bool-cases (did == k)) [
  | inl same ↦
      let is_f : f ≡ e = ground arith in
      rw (← is_f) (
        ground (
          arith,
          by_leaf-other f.leaf (values d) (insert f.leaf f acc),
          lookup-insert_self f.leaf f acc,
        ),
        ground (arith, text_beq_refl f.leaf),
      )
  | inr other ↦
      let (there, known) =
        by_leaf-lookup did e d (insert f.leaf f acc) (ground arith) (ground arith) in
      (there, ground arith)
]

module _ (c : Crypto) (tree : MerkleTree) (epoch_id : ℕ) (fog_id : Str) (key : ℕ)
    (entries : Dict Bytes PendingEntry) where
  build_packages-contains :
      (leaves : List Bytes) (packages packages' : Dict Str ProofPackage) (leaf : Bytes)
      (e : PendingEntry)
      → build_packages c tree epoch_id fog_id key entries leaves packages ≡ ok packages'
      → lookup leaf entries ≡ some e
      → (mem leaf leaves || contains e.did packages) ≡ true
      → contains e.did packages' ≡ true
  unfolding build_packages
  build_packages-contains [] packages packages' leaf e h there m = ground arith
  build_packages-contains (l ∷ leaves) packages packages' leaf e h there m =
      elim (Option-cases (lookup l entries)) [
        | inl missing ↦ absurd (ground arith)
        | inr (f, found) ↦
            elim (Result-cases
              (build_proof_package c f.did f.public_key l tree epoch_id fog_id key)) [
                | inr (x, raised) ↦ absurd (ground arith)
                | inl (pkg, built) ↦
                    build_packages-contains leaves (insert f.did pkg packages) packages' leaf e
                      (ground arith) there
                      (ground (
                        arith,
                        text_beq_iff leaf l,
                        text_beq_refl e.did,
                        lookup-insert f.did e.did pkg packages,
                      ))
              ]
      ]

  packages-of_member :
      (members : Dict Str PendingEntry) (packages : Dict Str ProofPackage) (did : Str)
      → entries ≡ by_leaf (values members) []
      → Every (λ did e. did ≡ e.did) members
      → build_packages c tree epoch_id fog_id key entries tree.leaves [] ≡ ok packages
      → contains did packages ≡ true
      → contains did members ≡ true
  packages-of_member members packages did is_entries named built h =
      let named_in = λ (k : Str) (e : PendingEntry). (k ≡ e.did) × (contains k members ≡ true) in
      let of_member = λ (leaf : Bytes) (e : PendingEntry). contains e.did members ≡ true in
      let by =
        by_leaf-Every named_in of_member (λ k e (same, m). rw (← same) m) members []
          (Every-both (λ k e. k ≡ e.did) (λ k e. contains k members ≡ true) members named
            (Every-contains members members (λ k m. m)))
          tt in
      let of_package = λ (k : Str) (pkg : ProofPackage). contains k members ≡ true in
      let packed =
        build_packages-Every c of_package tree epoch_id fog_id key entries tree.leaves [] packages
          (All-every
            (λ leaf e pkg there made.
              lookup-Every of_member leaf e (by_leaf (values members) []) by
                (rw (← is_entries) there))
            tree.leaves)
          built tt in
      elim (Option-cases (lookup did packages)) [
        | inl missing ↦ absurd (ground arith)
        | inr (pkg, there) ↦ lookup-Every of_package did pkg packages packed there
      ]

  -- The packages are of the members, and of all of them.
  pub build_packages-members :
      (members : Dict Str PendingEntry) (packages : Dict Str ProofPackage) (did : Str)
      → entries ≡ by_leaf (values members) []
      → tree.leaves ≡ sorted (leaves_of (values members))
      → Every (λ did e. did ≡ e.did) members
      → distinct (leaves_of (values members)) ≡ true
      → build_packages c tree epoch_id fog_id key entries tree.leaves [] ≡ ok packages
      → contains did packages ≡ contains did members
  build_packages-members members packages did is_entries is_leaves named u built =
      elim (Option-cases (lookup did members)) [
        | inl missing ↦ elim (Bool-cases (contains did packages)) [
          | inl there ↦
              absurd (
                ground
                  (arith, packages-of_member members packages did is_entries named built there))
          | inr absent ↦ ground arith
        ]
        | inr (e, there) ↦
            let same : did ≡ e.did =
              lookup-Every (λ did e. did ≡ e.did) did e members named there in
            let (found, known) = by_leaf-lookup did e members [] u there in
            let in_tree : mem e.leaf tree.leaves ≡ true =
              rw is_leaves (mem-sorted e.leaf (leaves_of (values members)) ∙ known) in
            let packed : contains did packages ≡ true = rw same (
              build_packages-contains tree.leaves [] packages e.leaf e built (rw is_entries found)
                (ground arith)) in
            ground arith
      ]

pub finalize_epoch-members :
    (c : Crypto) (st st' : EpochState) (exclude_dids : List Str) (timestamp : Str)
    (result : EpochResult) (members : Dict Str PendingEntry) (carried new : ℕ)
    → keyed st.manager.pending ≡ true
    → collect c st.manager st.devices (blocked_dids st.devices exclude_dids)
      ≡ ok (members, carried, new)
    → finalize_epoch c st exclude_dids timestamp ≡ (ok result, st')
    → (did : Str) → contains did result.packages ≡ contains did members
finalize_epoch-members c st st' exclude_dids timestamp result members carried new k collected h
      did =
    let m = st.manager in
    let blocked = blocked_dids st.devices exclude_dids in
    let (tree, members', carried', new', ledger, w) =
      finalize_epoch-IsClosed c st st' exclude_dids timestamp result h in
    let (collected', made) =
      prepare-ok c m st.devices blocked tree members' carried' new' w.prepared in
    let given = sorted (leaves_of (values members')) in
    let (is_leaves, _, _, u) = merkle_tree-eq c given false made in
    let same : members' ≡ members = cc in
    rw (← same) (
      build_packages-members c tree m.current_epoch_id m.fog_id m.signing_key
        (by_leaf (values members') []) members' result.packages did refl is_leaves
        (collect-keyed c m st.devices blocked members' carried' new' k collected')
        (sym (distinct-sorted (leaves_of (values members'))) ∙ u) w.packaged)
