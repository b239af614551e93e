-- ===== src/Observe/Shielder.antt =====
-- A keyper's view of the shuttermint chain (keyper/observe/shutter.go): the events that it has seen,
-- and the filter that forgets the old ones. Heights are `int64`, as the numbers with the same bits.
use shielder.Base.{
  ◌-◌, ◌||◌, ◌∷◌, ◌++◌, ◌==◌, if◌then◌else◌, ◌>>=◌, ℕ, Bool, false, not, Option, none, some, List,
  [], map, ltb, leb, length, get_elem?, set, Map, get_or_else, has, get, put, word_mod, signed_lt,
  signed_le, Result, ok, err, or_err, drop, any, nat_eq,
}
use shielder.Base.Search.{sort_search}
use shielder.Shmsg.{Address}
use shielder.External.{External}
use shielder.Config.{BatchConfig, is_keyper}
use shielder.Events
use shielder.Events.{
  Event, batch_config_event, eon_started_event, check_in_event, decryption_signature_event,
  poly_eval_event, poly_commitment_event, accusation_event, apology_event,
  epoch_secret_key_share_event,
}

pub record ShielderFilter : Type 0 where
  pub sync_height : ℕ
  pub batch_index : ℕ

unfoldable pub needs_update : ShielderFilter → ShielderFilter → Bool
needs_update filter new =
    signed_lt (filter.sync_height) (new.sync_height) || ltb (filter.batch_index) (new.batch_index)

pub record Eon (x : External) : Type 0 where
  pub eon : ℕ
  pub start_height : ℕ
  pub start_event : Events.EonStarted
  pub commitments : List (Events.PolyCommitment x)
  pub poly_evals : List Events.PolyEval
  pub accusations : List Events.Accusation
  pub apologies : List Events.Apology
  pub epoch_secret_key_shares : List (Events.EpochSecretKeyShare x)

pub record BatchData : Type 0 where
  pub batch_index : ℕ
  pub decryption_signatures : List Events.DecryptionSignature

-- Of `NodeStatus` only whether the node is catching up; nil is `none`.
pub record Shielder (x : External) : Type 0 where
  pub current_block : ℕ
  pub last_committed_height : ℕ
  pub node_catching_up : Option Bool
  pub keyper_encryption_keys : Map Address x.PublicKey
  pub batch_configs : List BatchConfig
  pub batches : Map ℕ BatchData
  pub eons : List (Eon x)
  pub filter : ShielderFilter

-- The elements from the first on whose height is not below the other: `nil` if there are none.
unfoldable pub from_height {ℓ} : {A : Type ℓ} → (A → ℕ) → ℕ → List A → List A
from_height height sync_height slice =
    let idx = sort_search (λ a. signed_le sync_height (height a)) slice in
    if idx == length slice then [] else drop idx slice

-- `filterBatchIndex`
unfoldable pub keep_batches : ℕ → Map ℕ BatchData → Map ℕ BatchData
keep_batches batch_index [] = []
keep_batches batch_index ((b, bd) ∷ rest) =
    let kept = keep_batches batch_index rest in if leb batch_index b then (b, bd) ∷ kept else kept

-- Why an event is not applied.
pub data ApplyError : Type 0 where
  eon_not_found eons_should_increase : ApplyError

module _ {x : External} where
  unfoldable pub new_shielder : Shielder x
  new_shielder = record {
    current_block = word_mod - 1;
    last_committed_height = 0;
    node_catching_up = none;
    keyper_encryption_keys = [];
    batch_configs = [];
    batches = [];
    eons = [];
    filter = record { sync_height = 0; batch_index = 0 };
  }

  unfoldable pub get_poly_commitments : Eon x → ℕ → List (Events.PolyCommitment x)
  unfolding from_height
  get_poly_commitments eon h = from_height (λ e. e.height) h (eon.commitments)

  unfoldable pub get_poly_evals : Eon x → ℕ → List Events.PolyEval
  unfolding from_height
  get_poly_evals eon h = from_height (λ e. e.height) h (eon.poly_evals)

  unfoldable pub get_accusations : Eon x → ℕ → List Events.Accusation
  unfolding from_height
  get_accusations eon h = from_height (λ e. e.height) h (eon.accusations)

  unfoldable pub get_apologies : Eon x → ℕ → List Events.Apology
  unfolding from_height
  get_apologies eon h = from_height (λ e. e.height) h (eon.apologies)

  unfoldable pub get_epoch_secret_key_shares : Eon x → ℕ → List (Events.EpochSecretKeyShare x)
  unfolding from_height
  get_epoch_secret_key_shares eon h = from_height (λ e. e.height) h (eon.epoch_secret_key_shares)

  -- `(*Eon).ApplyFilter`, which leaves the shares of epoch secret keys out.
  unfoldable pub filter_eon : ℕ → Eon x → Eon x
  unfolding get_poly_commitments get_poly_evals get_accusations get_apologies
  filter_eon h eon = record {
    eon = eon.eon;
    start_height = eon.start_height;
    start_event = eon.start_event;
    commitments = get_poly_commitments eon h;
    poly_evals = get_poly_evals eon h;
    accusations = get_accusations eon h;
    apologies = get_apologies eon h;
    epoch_secret_key_shares = [];
  }

  unfoldable pub apply_filter : Shielder x → ShielderFilter → Shielder x
  unfolding needs_update filter_eon keep_batches
  apply_filter s new = if not (needs_update (s.filter) new) then s else record s {
    filter = new;
    eons = map (filter_eon (new.sync_height)) (s.eons);
    batches = keep_batches (new.batch_index) (s.batches);
  }

  unfoldable pub get_batch_data : Shielder x → ℕ → BatchData
  get_batch_data s batch_index =
      get_or_else (get batch_index (s.batches))
        (record { batch_index = batch_index; decryption_signatures = [] })

  unfoldable pub search_eon : Shielder x → ℕ → ℕ
  search_eon s eon = sort_search (λ (e : Eon x). leb eon (e.eon)) (s.eons)

  -- The index and the eon that `FindEon` finds.
  unfoldable pub find_eon_at : Shielder x → ℕ → Option (ℕ × Eon x)
  unfolding search_eon
  find_eon_at s eon = elim (get_elem? (s.eons) (search_eon s eon)) [
    | none ↦ none
    | some e ↦ if ltb eon (e.eon) then none else some (search_eon s eon, e)
  ]

  unfoldable pub find_eon : Shielder x → ℕ → Option (Eon x)
  unfolding find_eon_at
  find_eon s eon = elim (find_eon_at s eon) [ none ↦ none | some (i, e) ↦ some e ]

  -- The loop of `FindEonByBatchIndex`, from the end.
  find_eon_from : List (Eon x) → ℕ → Option (Eon x)
  find_eon_from [] batch_index = none
  find_eon_from (e ∷ rest) batch_index = elim (find_eon_from rest batch_index) [
    | some later ↦ some later
    | none ↦ if leb (e.start_event.batch_index) batch_index then some e else none
  ]

  unfoldable pub find_eon_by_batch_index : Shielder x → ℕ → Option (Eon x)
  unfolding find_eon_from
  find_eon_by_batch_index s batch_index = find_eon_from (s.eons) batch_index

  -- A write through the pointer that `FindEon` returns.
  unfoldable pub change_eon : Shielder x → ℕ → (Eon x → Eon x) → Result ApplyError (Shielder x)
  unfolding find_eon_at
  change_eon s eon change = or_err (find_eon_at s eon) eon_not_found >>= λ p.
      ok (record s { eons = set (s.eons) p.0 (change p.1) })

  unfoldable pub apply_eon_started : Shielder x → Events.EonStarted → Result ApplyError (Shielder x)
  unfolding search_eon
  apply_eon_started s e =
      let started : Eon x = record {
        eon = e.eon;
        start_height = e.height;
        start_event = e;
        commitments = [];
        poly_evals = [];
        accusations = [];
        apologies = [];
        epoch_secret_key_shares = [];
      } in
      if ltb (search_eon s e.eon) (length (s.eons))
      then err eons_should_increase
      else ok (record s { eons = s.eons ++ started ∷ [] })

  unfoldable pub apply_decryption_signature : Shielder x → Events.DecryptionSignature → Shielder x
  unfolding get_batch_data
  apply_decryption_signature s e =
      let b = get_batch_data s e.batch_index in
      let b' : BatchData = record b { decryption_signatures = b.decryption_signatures ++ e ∷ [] } in
      record s { batches = put e.batch_index b' (s.batches) }

  -- The `switch` of `applyEvent`, with the methods that it calls.
  unfoldable pub apply : Shielder x → Event x → Result ApplyError (Shielder x)
  unfolding apply_eon_started change_eon apply_decryption_signature
  apply s (check_in_event e) = ok (record s {
    keyper_encryption_keys = put e.sender e.encryption_public_key (s.keyper_encryption_keys);
  })
  apply s (batch_config_event e) = ok (record s { batch_configs = s.batch_configs ++ e ∷ [] })
  apply s (decryption_signature_event e) = ok (apply_decryption_signature s e)
  apply s (eon_started_event e) = apply_eon_started s e
  apply s (poly_commitment_event e) =
      change_eon s e.eon (λ eon. record eon { commitments = eon.commitments ++ e ∷ [] })
  apply s (poly_eval_event e) =
      change_eon s e.eon (λ eon. record eon { poly_evals = eon.poly_evals ++ e ∷ [] })
  apply s (accusation_event e) =
      change_eon s e.eon (λ eon. record eon { accusations = eon.accusations ++ e ∷ [] })
  apply s (apology_event e) =
      change_eon s e.eon (λ eon. record eon { apologies = eon.apologies ++ e ∷ [] })
  apply s (epoch_secret_key_share_event e) =
      change_eon s e.eon
        (λ eon. record eon { epoch_secret_key_shares = eon.epoch_secret_key_shares ++ e ∷ [] })

  -- An error is logged, and nothing is applied.
  unfoldable pub or_same : Shielder x → Result ApplyError (Shielder x) → Shielder x
  or_same s (ok s') = s'
  or_same s (err e) = s

  unfoldable pub apply_event : Shielder x → Event x → Shielder x
  unfolding apply or_same
  apply_event s ev = or_same s (apply s ev)

  -- `applyTxEvents`, with what `MakeEvent` returns for each: `none` is malformed.
  unfoldable pub apply_tx_events : Shielder x → List (Option (Event x)) → Shielder x
  unfolding apply_event
  apply_tx_events s [] = s
  apply_tx_events s (none ∷ rest) = apply_tx_events s rest
  apply_tx_events s (some ev ∷ rest) = apply_tx_events (apply_event s ev) rest

  unfoldable pub is_checked_in : Shielder x → Address → Bool
  is_checked_in s addr = has addr (s.keyper_encryption_keys)

  unfoldable pub is_keyper_of_any : Shielder x → Address → Bool
  is_keyper_of_any s addr = any (λ cfg. is_keyper cfg addr) (s.batch_configs)

  unfoldable pub is_synced : Shielder x → Bool
  is_synced s = not (get_or_else (s.node_catching_up) false)
