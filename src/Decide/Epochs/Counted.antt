-- ===== src/Decide/Epochs/Counted.antt =====
-- A decider counts each signature on a batch once, however often and whenever it looks (decide.go).
use shielder.Base.{
  ◌+◌, ◌≤◌, ◌<◌, ◌≡◌, ◌∙◌, ◌∷◌, ◌++◌, ◌==◌, refl, sym, ap, false, some, List, [], arith, length,
  length-append, all, get, ok, drop, take, take-append, take-drop, take_all, drop_all, nat_eq,
}
use mathlib.Core.Path.{subst, sym, ap, ◌∙◌}
use shielder.External.{External}
use shielder.Events
use shielder.Contract
use shielder.MainChain.{config_for_batch_index}
use shielder.Observe.Shielder.{BatchData}
use shielder.Decide.{Batch, Decider}
use shielder.Decide.Epochs.{verify_signature, count_signatures, sync_batch}

-- The signatures before the index are counted.
pub record IsCounted (x : External) (batch : Batch) (config : Contract.BatchConfig)
    (sigs : List Events.DecryptionSignature) : Type 0 where
  pub within : batch.decryption_signature_index ≤ length sigs
  pub counted :
      batch.signature_count
      ≡ count_signatures x batch config (take (batch.decryption_signature_index) sigs)

module _ (x : External) (config : Contract.BatchConfig) where
  count-append :
      (batch : Batch) (xs ys : List Events.DecryptionSignature)
      → count_signatures x batch config (xs ++ ys)
        ≡ count_signatures x batch config xs + count_signatures x batch config ys
  unfolding count_signatures
  count-append batch [] ys = omega arith
  count-append batch (s ∷ xs) ys = ground (arith, count-append batch xs ys)

  count-same :
      (b c : Batch)
      → c.decryption_signature_hash ≡ b.decryption_signature_hash
      → (xs : List Events.DecryptionSignature)
      → count_signatures x c config xs ≡ count_signatures x b config xs
  unfolding count_signatures verify_signature
  count-same b c e [] = refl
  count-same b c e (s ∷ xs) = rw (e, count-same b c e xs) refl

  -- What it counts stays so when more signatures come.
  IsCounted-append :
      (batch : Batch) (xs ys : List Events.DecryptionSignature)
      → IsCounted x batch config xs
      → IsCounted x batch config (xs ++ ys)
  IsCounted-append batch xs ys h = record {
    within = rw (length-append xs ys) (omega (arith, h.within));
    counted = h.counted ∙ rw (take-append (batch.decryption_signature_index) xs ys h.within) refl;
  }

  module _ (d : Decider x) (batch : Batch) (sh : BatchData)
      (known : get (batch.batch_index) (d.shielder.batches) ≡ some sh)
      (active : config_for_batch_index (d.main_chain) (batch.batch_index) ≡ ok (some config))
      (before : IsCounted x batch config (sh.decryption_signatures)) where
    abbrev sigs : List Events.DecryptionSignature
    sigs = sh.decryption_signatures

    abbrev after : Batch
    after = record batch {
      signature_count = count_signatures x batch config sigs;
      decryption_signature_index = length sigs;
    }

    -- The signatures before the index, and those from it on.
    all_counted :
        count_signatures x batch config (take (batch.decryption_signature_index) sigs)
          + count_signatures x batch config (drop (batch.decryption_signature_index) sigs)
        ≡ count_signatures x batch config sigs
    all_counted =
        sym (
          count-append batch (take (batch.decryption_signature_index) sigs)
            (drop (batch.decryption_signature_index) sigs))
        ∙ ap (count_signatures x batch config) (take-drop (batch.decryption_signature_index) sigs)

    synced : 0 < length (batch.decrypted_transactions) → sync_batch d batch ≡ ok after
    unfolding sync_batch
    synced h =
        let some_txs : (length (batch.decrypted_transactions) == 0) ≡ false = ground (arith, h) in
        rw (known, active, some_txs, before.counted, all_counted, sync_batch) refl

    after-IsCounted : IsCounted x after config sigs
    after-IsCounted = record {
      within = omega arith;
      counted = sym (
          count-same batch after refl (take (length sigs) sigs)
          ∙ ap (count_signatures x batch config) (take_all (length sigs) sigs (omega arith)));
    }

    synced_again : 0 < length (batch.decrypted_transactions) → sync_batch d after ≡ ok after
    unfolding sync_batch
    synced_again h =
        let none_more : count_signatures x batch config sigs + 0
            ≡ count_signatures x batch config sigs =
          omega arith in
        let some_txs : (length (batch.decrypted_transactions) == 0) ≡ false = ground (arith, h) in
        rw (known, active, some_txs, drop_all (length sigs) sigs (omega arith), sync_batch)
          (ap (λ n. ok (record after { signature_count = n })) none_more)

  -- For a batch that is decrypted and whose config is active, of which the signatures seen before
  -- are counted: when more signatures have come, `syncBatch` returns the batch with all of them
  -- counted, each once, by those that verify and are of a keyper; then again only new ones would
  -- count, and a second `syncBatch` changes nothing.
  pub sync_batch-IsCounted :
      (d : Decider x) (batch : Batch) (sh : BatchData)
      (seen fresh : List Events.DecryptionSignature)
      → get (batch.batch_index) (d.shielder.batches) ≡ some sh
      → config_for_batch_index (d.main_chain) (batch.batch_index) ≡ ok (some config)
      → sh.decryption_signatures ≡ seen ++ fresh
      → IsCounted x batch config seen
      → 0 < length (batch.decrypted_transactions)
      → (after : Batch) × (sync_batch d batch ≡ ok after)
        × (after.signature_count ≡ count_signatures x batch config (seen ++ fresh))
        × IsCounted x after config (seen ++ fresh)
        × (sync_batch d after ≡ ok after)
  sync_batch-IsCounted d batch sh seen fresh known active all before h =
      let b =
        subst (IsCounted x batch config) (sym all) (IsCounted-append batch seen fresh before) in
      (
        after d batch sh known active b,
        synced d batch sh known active b h,
        ap (count_signatures x batch config) all,
        subst (IsCounted x (after d batch sh known active b) config) all
            (after-IsCounted d batch sh known active b),
        synced_again d batch sh known active b h,
      )
