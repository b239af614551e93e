-- ===== src/Observe/Signatures.antt =====
-- The signatures of a batch in the order of the keypers (keyper/observe/shutter.go).
use shielder.Base.{
  ◌∷◌, if◌then◌else◌, ◌>>=◌, ℕ, Option, none, some, List, [], map, ltb, put, Result, ok, nat_eq,
}
use shielder.Shmsg.{Bytes}
use shielder.External.{External}
use shielder.Panic.{Panic}
use shielder.Config.{BatchConfig, keyper_index}
use shielder.Events
use shielder.Observe.{find_batch_config_by_batch_index}
use shielder.Observe.Shielder.{Shielder, get_batch_data}

-- The loop over the signatures; a signer who is not a keyper is an error.
sigs_and_indices : BatchConfig → List Events.DecryptionSignature → Option (List (Bytes × ℕ))
sigs_and_indices config [] = some []
sigs_and_indices config (ev ∷ rest) = elim (keyper_index config ev.sender) [
  | none ↦ none
  | some i ↦ elim (sigs_and_indices config rest) [
    | none ↦ none
    | some others ↦ some ((ev.signature, i) ∷ others)
  ]
]

-- Go's `sort.Slice` by the index, as an insertion sort.
insert_by_index : Bytes × ℕ → List (Bytes × ℕ) → List (Bytes × ℕ)
insert_by_index (s, i) [] = (s, i) ∷ []
insert_by_index (s, i) ((t, j) ∷ rest) =
    let later = insert_by_index (s, i) rest in
    if ltb j i then (t, j) ∷ later else (s, i) ∷ (t, j) ∷ rest

unfoldable pub sort_by_index : List (Bytes × ℕ) → List (Bytes × ℕ)
unfolding insert_by_index
sort_by_index [] = []
sort_by_index (p ∷ rest) = insert_by_index p (sort_by_index rest)

-- `GetSortedDecryptionSignaturesWithIndices`; `getBatchData` adds the batch to the map when it is not there.
unfoldable pub get_sorted_decryption_signatures_with_indices :
    {x : External} → Shielder x → ℕ → Result Panic (Shielder x × Option (List Bytes × List ℕ))
unfolding sigs_and_indices sort_by_index
get_sorted_decryption_signatures_with_indices s b =
    find_batch_config_by_batch_index (s.batch_configs) b >>= λ config.
    let bd = get_batch_data s b in
    let s' = record s { batches = put b bd (s.batches) } in
    ok (elim (sigs_and_indices config bd.decryption_signatures) [
      | none ↦ (s', none)
      | some unsorted ↦
          let sorted = sort_by_index unsorted in
          (s', some (map (λ p. p.0) sorted, map (λ p. p.1) sorted))
    ])
