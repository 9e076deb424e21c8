-- ===== src/Epochs/Verified.antt =====
-- Every package of a closed epoch passes the verifier against the root in the ledger.
use blockchain_io_t_a.Common.Crypto.{Crypto, Sound}
use blockchain_io_t_a.Common.Schemas.{ProofPackage, registered}
use blockchain_io_t_a.Epochs.{EpochManager, EpochResult, EpochState, finalize_epoch, get_package}
use blockchain_io_t_a.Epochs.Close.{finalize_epoch-IsClosed}
use blockchain_io_t_a.Epochs.Issued.{Verifies, finalize_epoch-Every}
use blockchain_io_t_a.Epochs.Outcome.{finalize_epoch-closes}
use blockchain_io_t_a.Epochs.Ready.{AllLeaved, AllReady, IsLeaved, IsLeaved-carries, IsReady}
use blockchain_io_t_a.Ledger.{get_root}
use blockchain_io_t_a.Prelude.{All-mono, List, arith, nat_eq, ok, some, sym, text_eq, ℕ, ◌∙◌, ◌≡◌}
use blockchain_io_t_a.Prelude.Dict.{Dict, lookup, lookup-insert_self}
use blockchain_io_t_a.Prelude.Dict.Entries.{Every-mono, lookup-Every}
use blockchain_io_t_a.Prelude.Text.{Str}
use blockchain_io_t_a.Storage.{by_status}

-- The packages of the epoch that was closed last, as get_package finds them.
got_package :
    (m : EpochManager) (packages : Dict Str ProofPackage) (did : Str) (epoch_id : ℕ)
    → lookup epoch_id m.packages ≡ some packages
    → get_package m did (some epoch_id) ≡ lookup did packages
unfolding get_package
got_package m packages did epoch_id h = ground arith

module _ (c : Crypto) (s : Sound c) (st st' : EpochState) (exclude_dids : List Str)
    (timestamp : Str) (result : EpochResult) where
  -- Each package that finalize_epoch makes is accepted by the verifier against the root that the
  -- ledger then holds for the epoch, and against the fog's own key, provided that the leaves that
  -- were queued, and those of the registered records, are the hashes of their DIDs and keys.
  pub finalize_epoch-Verifies :
      AllReady c st.manager.pending
      → AllLeaved c (by_status st.devices registered)
      → finalize_epoch c st exclude_dids timestamp ≡ (ok result, st')
      → (did : Str) (pkg : ProofPackage)
      → get_package st'.manager did (some result.epoch_id) ≡ some pkg
      → Verifies c (get_root st'.ledger result.epoch_id) st.manager.signing_key pkg
  finalize_epoch-Verifies ready leaved h did pkg got =
      let m = st.manager in
      let (_, _, there, _, _, _, _, _) =
        finalize_epoch-closes c st st' exclude_dids timestamp result h in
      let verified =
        finalize_epoch-Every c s st st' exclude_dids timestamp result (IsReady c)
          (λ did. Verifies c (some result.root) m.signing_key) (λ e r. r)
          (Every-mono (λ did. IsReady c) _ (λ did e r kept. r) m.pending ready)
          (All-mono (IsLeaved c) _ (λ rec l kept text leaf. IsLeaved-carries c rec text leaf l)
            (by_status st.devices registered) leaved)
          h (λ tree e pkg p of_root built v. rw (← of_root) v) in
      let (tree, members, carried, new, ledger, w) =
        finalize_epoch-IsClosed c st st' exclude_dids timestamp result h in
      let found : get_package st'.manager did (some result.epoch_id) ≡ lookup did result.packages =
        got_package st'.manager result.packages did result.epoch_id
          (rw w.after (lookup-insert_self result.epoch_id result.packages st.manager.packages)) in
      rw there (
        lookup-Every (λ k. Verifies c (some result.root) m.signing_key) did pkg result.packages
          verified (sym found ∙ got))
