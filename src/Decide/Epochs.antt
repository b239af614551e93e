-- ===== src/Decide/Epochs.antt =====
-- What a keyper's decider does for the keys of epochs (keyper/decide.go): it publishes its shares,
-- collects those of the others, decrypts a batch when its key is there, and signs what it decrypted.
pub mod Counted
use shielder.Base.{
  ◌+◌, ◌-◌, ◌/◌, ◌%◌, ◌&&◌, ◌∷◌, ◌++◌, ◌==◌, if◌then◌else◌, ◌>>=◌, ℕ, zero, suc, Bool, true, false,
  none, some, List, [], ltb, leb, length, replicate, Map, get_or_else, has, get, put, add64, sub64,
  Result, ok, err, or_err, drop, nat_eq,
}
use shielder.Shmsg.{Bytes}
use shielder.Shmsg.New.{new_decryption_signature, new_epoch_secret_key_share}
use shielder.Panic.{Panic, fatal, nil_pointer, not_found, config_inactive}
use shielder.External.{External}
use shielder.Medley.{find_address_index}
use shielder.Events
use shielder.Shcrypto.Encryption.{decrypt}
use shielder.Shcrypto.Encoding.{unmarshal, compute_seed}
use shielder.PureDkg.Phases.{range}
use shielder.EpochKg.{
  EpochKg, EpochSecretKeyShare, own_epoch_secret_key_share, handle_epoch_secret_key_share,
}
use shielder.Contract
use shielder.Contract.{batch_end_block, batch_index}
use shielder.MainChain
use shielder.MainChain.{new_batch, active_config_index, config_at, config_for_batch_index}
use shielder.Observe.{find_batch_config_by_config_index}
use shielder.Observe.Shielder.{Eon, find_eon, find_eon_by_batch_index, get_epoch_secret_key_shares}
use shielder.Decide.{
  fold, Libraries, KeyperConfig, Batch, Ekg, Decider, send_message, find_ekg_by_eon,
}

-- The prefix of what is signed: 0x19, "dectx".
abbrev hash_prefix : Bytes
hash_prefix = 25 ∷ 100 ∷ 101 ∷ 99 ∷ 116 ∷ 120 ∷ []

-- The last `k` bytes of a number, the first one first.
big_endian_bytes : ℕ → ℕ → Bytes → Bytes
big_endian_bytes zero n rest = rest
big_endian_bytes (suc k) n rest = big_endian_bytes k (n / 256) ((n % 256) ∷ rest)

-- The loop of `transactionsHash`, from a hash on.
hash_from : (Bytes → Bytes) → Bytes → List Bytes → Bytes
hash_from keccak256 hash [] = hash
hash_from keccak256 hash (tx ∷ txs) = hash_from keccak256 (keccak256 (tx ++ hash)) txs

unfoldable pub transactions_hash : (Bytes → Bytes) → List Bytes → Bytes
unfolding hash_from
transactions_hash keccak256 txs = hash_from keccak256 (replicate 32 0) txs

module _ (x : External) where
  -- `VerifySignature`
  unfoldable pub verify_signature : Batch → ℕ → Bytes → Bool
  verify_signature batch sender signature =
      elim (x.recover_address (batch.decryption_signature_hash) signature) [
        | none ↦ false
        | some signer ↦ signer == sender
      ]

  -- The loop of `syncBatch`: how many signatures count.
  unfoldable pub count_signatures :
      Batch → Contract.BatchConfig → List Events.DecryptionSignature → ℕ
  unfolding verify_signature
  count_signatures batch config [] = 0
  count_signatures batch config (ev ∷ rest) =
      let others = count_signatures batch config rest in
      if Contract.is_keyper config ev.sender && verify_signature batch ev.sender ev.signature
      then 1 + others
      else others

module _ {x : External} where
  unfoldable pub sync_batch : Decider x → Batch → Result Panic Batch
  unfolding count_signatures
  sync_batch d batch = elim (get (batch.batch_index) (d.shielder.batches)) [
    | none ↦ ok batch
    | some sh ↦ config_for_batch_index (d.main_chain) (batch.batch_index) >>= elim [
      | none ↦ err config_inactive
      | some config ↦ ok (
          let sigs = sh.decryption_signatures in
          if length (batch.decrypted_transactions) == 0 then batch else record batch {
            signature_count =
                batch.signature_count
                + count_signatures x batch config (drop (batch.decryption_signature_index) sigs);
            decryption_signature_index = length sigs;
          })
    ]
  ]

  abbrev put_batch : Decider x → Batch → Decider x
  put_batch d batch = record d {
    state = record (d.state) { batches = put (batch.batch_index) batch (d.state.batches) };
  }

  -- The loop of `handleDecryptionSignatures`, over the batches in the order of Go's iteration.
  sync_all : Decider x → Map ℕ Batch → Result Panic (Map ℕ Batch)
  unfolding sync_batch
  sync_all d [] = ok []
  sync_all d ((i, batch) ∷ rest) = do
    batch' ← sync_batch d batch
    rest' ← sync_all d rest
    ok ((i, batch') ∷ rest')

  unfoldable pub handle_decryption_signatures : Decider x → Result Panic (Decider x)
  unfolding sync_all
  handle_decryption_signatures d = sync_all d (d.state.batches) >>= λ batches.
      ok (record d { state = record (d.state) { batches = batches } })

  unfoldable pub execution_timeout_reached_or_inactive : Decider x → ℕ → Result Panic Bool
  execution_timeout_reached_or_inactive d b = config_for_batch_index (d.main_chain) b >>= elim [
    | none ↦ ok true
    | some config ↦ batch_end_block config b >>= λ end.
        ok (leb (sub64 (add64 end (config.execution_timeout)) 1) (d.main_chain.current_block))
  ]

module _ {x : External} (lib : Libraries x) (kc : KeyperConfig) where
  unfoldable pub compute_decryption_signature_hash : ℕ → Bytes → Bytes → Bytes
  unfolding big_endian_bytes
  compute_decryption_signature_hash b cipher_batch_hash batch_hash = lib.keccak256 (
      hash_prefix
      ++ (lib.address_bytes (kc.batcher_contract_address)
          ++ (big_endian_bytes 8 b [] ++ (cipher_batch_hash ++ batch_hash))))

  -- The loop of `(*Batch).DecryptTransactions`: what cannot be read or decrypted is left out.
  decrypt_all : x.curve.G1 → List Bytes → List Bytes
  decrypt_all key [] = []
  decrypt_all key (tx ∷ rest) =
      let others = decrypt_all key rest in
      elim (unmarshal x.curve lib.read_g2 tx) [
        | err e ↦ others
        | ok m ↦ elim (decrypt x.curve lib.keccak256 m key) [
          | err e ↦ others
          | ok decrypted ↦ decrypted ∷ others
        ]
      ]

  -- `(*Batch).DecryptTransactions`
  unfoldable pub decrypt_batch : MainChain.Batch → x.curve.G1 → List Bytes
  unfolding decrypt_all
  decrypt_batch batch key =
      lib.shuffle (compute_seed lib.keccak256 (lib.marshal_g1 key))
        (decrypt_all key (batch.encrypted_transactions))

  unfoldable pub decrypt_transactions : Decider x → x.curve.G1 → ℕ → Decider x
  unfolding decrypt_batch compute_decryption_signature_hash transactions_hash
  decrypt_transactions d key epoch =
      let batch = get_or_else (get epoch (d.main_chain.batches)) (new_batch epoch) in
      let txs = decrypt_batch batch key in
      let hash = transactions_hash lib.keccak256 txs in
      put_batch d (record {
        batch_index = epoch;
        decryption_signature_hash =
            compute_decryption_signature_hash epoch (batch.encrypted_batch_hash) hash;
        decrypted_transactions = txs;
        decrypted_batch_hash = hash;
        decryption_signature_index = 0;
        signature_count = 0;
      })

  unfoldable pub send_decryption_signature : Decider x → ℕ → Result Panic (Decider x)
  unfolding sync_batch
  send_decryption_signature d epoch = elim (get epoch (d.state.batches)) [
    | none ↦ ok d
    | some old ↦ sync_batch d old >>= λ batch.
        let d' = put_batch d batch in
        config_for_batch_index (d.main_chain) epoch >>= elim [
          | none ↦ err config_inactive
          | some config ↦
              if ltb (batch.signature_count) (config.threshold)
                && ltb 0 (length (batch.decrypted_transactions))
              then (or_err (lib.sign (batch.decryption_signature_hash)) fatal >>= λ signature.
                  ok (send_message d' (new_decryption_signature epoch signature)))
              else ok d'
        ]
  ]

  -- The body of the loop of `syncEKGWithEon`, once a share has been handled without an error.
  use_key : Decider x → EpochKg x.curve → ℕ → Result Panic (Decider x)
  unfolding decrypt_transactions send_decryption_signature
  use_key d kg epoch = elim (get epoch (kg.secret_keys)) [
    | none ↦ ok d
    | some none ↦ err nil_pointer
    | some (some key) ↦
        let d' = decrypt_transactions d key epoch in
        execution_timeout_reached_or_inactive d' epoch >>= λ late.
        if late then ok d' else send_decryption_signature d' epoch
  ]

  -- The body of the loop of `syncEKGWithEon`.
  sync_share : Decider x × Ekg x → Events.EpochSecretKeyShare x → Result Panic (Decider x × Ekg x)
  unfolding use_key
  sync_share (d, ekg) share = elim (find_address_index (ekg.keypers) share.sender) [
    | none ↦ ok (d, ekg)
    | some sender ↦
        let msg : EpochSecretKeyShare x.curve = record {
          eon = share.eon;
          epoch = share.epoch;
          sender = sender;
          share = share.share;
        } in
        if has share.epoch (ekg.epoch_kg.secret_keys)
        then ok (d, ekg)
        else (handle_epoch_secret_key_share (ekg.epoch_kg) msg >>= λ r. elim r.1 [
          | some e ↦ ok (d, record ekg { epoch_kg = r.0 })
          | none ↦ use_key d r.0 share.epoch >>= λ d'. ok (d', record ekg { epoch_kg = r.0 })
        ])
  ]

  unfoldable pub sync_ekg_with_eon : Decider x → Ekg x → Eon x → Result Panic (Decider x × Ekg x)
  unfolding sync_share
  sync_ekg_with_eon d ekg eon =
      fold sync_share (d, ekg) (get_epoch_secret_key_shares eon (d.state.sync_height))

  -- The loop of `syncEKGs`; the eons before it are done.
  sync_ekgs_from : Decider x → List (Ekg x) → List (Ekg x) → Result Panic (Decider x)
  unfolding sync_ekg_with_eon
  sync_ekgs_from d before [] = ok (record d { state = record (d.state) { ekgs = before } })
  sync_ekgs_from d before (ekg ∷ rest) = do
    eon ← or_err (find_eon (d.shielder) (ekg.eon)) not_found
    p ← sync_ekg_with_eon d ekg eon
    sync_ekgs_from p.0 (before ++ p.1 ∷ []) rest

  unfoldable pub sync_ekgs : Decider x → Result Panic (Decider x)
  unfolding sync_ekgs_from
  sync_ekgs d = sync_ekgs_from d [] (d.state.ekgs)

module _ {x : External} (lib : Libraries x) where
  unfoldable pub send_epoch_secret_key_share : Decider x → EpochKg x.curve → ℕ → Decider x
  send_epoch_secret_key_share d kg epoch =
      if has epoch (kg.secret_keys)
      then d
      else send_message d (
          new_epoch_secret_key_share (kg.eon) epoch
            (lib.marshal_g1 (own_epoch_secret_key_share kg epoch)))

  unfoldable pub publish_epoch_secret_key_share : Decider x → ℕ → Decider x
  unfolding send_epoch_secret_key_share
  publish_epoch_secret_key_share d b = elim (find_eon_by_batch_index (d.shielder) b) [
    | none ↦ d
    | some eon ↦ elim (find_ekg_by_eon (d.state.ekgs) (eon.eon)) [
      | none ↦ d
      | some ekg ↦ send_epoch_secret_key_share d (ekg.epoch_kg) b
    ]
  ]

  -- The body of the loop of `publishEpochSecretKeyShares`.
  unfoldable pub publish_if_open : Decider x → ℕ → Result Panic (Decider x)
  unfolding publish_epoch_secret_key_share
  publish_if_open d b = execution_timeout_reached_or_inactive d b >>= λ late.
      ok (if late then d else publish_epoch_secret_key_share d b)

  unfoldable pub publish_epoch_secret_key_shares : Decider x → Result Panic (Decider x)
  unfolding publish_if_open
  publish_epoch_secret_key_shares d =
      let block = d.main_chain.current_block in
      active_config_index (d.main_chain) block >>= λ i. config_at (d.main_chain) i >>= λ bc.
      elim (find_batch_config_by_config_index (d.shielder.batch_configs) i) [
        | err e ↦ ok d
        | ok _ ↦ batch_index bc block >>= λ current.
            let next = d.state.next_epoch_secret_share in
            fold publish_if_open d (range next (current - next)) >>= λ d'.
            ok (record d' { state = record (d'.state) { next_epoch_secret_share = current } })
      ]

module _ {x : External} (lib : Libraries x) (kc : KeyperConfig) where
  unfoldable pub handle_epoch_kg : Decider x → Result Panic (Decider x)
  unfolding sync_ekgs publish_epoch_secret_key_shares
  handle_epoch_kg d = sync_ekgs lib kc d >>= publish_epoch_secret_key_shares lib
