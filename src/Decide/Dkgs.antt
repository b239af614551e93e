-- ===== src/Decide/Dkgs.antt =====
-- What a keyper's decider does for its key generations (keyper/decide.go): it feeds the events of the
-- chain to the key generation, and begins the phases. An error of a handler is logged.
pub mod Kept
pub mod Begun
pub mod Followed
use shielder.Base.{
  ◌+◌, ◌&&◌, ◌∷◌, ◌++◌, ◌==◌, if◌then◌else◌, ◌>>=◌, ℕ, Bool, true, false, not, Option, none, some,
  List, [], map, ltb, leb, length, get, add64, Result, ok, err, or_err, nat_eq,
}
use shielder.Shmsg.{Bytes, Address, Message}
use shielder.Shmsg.New.{
  new_apology, new_accusation, new_poly_eval, new_eon_start_vote, new_poly_commitment, int_bytes,
}
use shielder.Panic.{Panic, fatal, not_found}
use shielder.External.{External}
use shielder.Medley.{find_address_index}
use shielder.Events
use shielder.App.Messages.{set_bytes}
use shielder.PureDkg.{
  Phase, off, dealing, accusing, apologizing, finalized, phase_number, PolyCommitmentMsg,
  PolyEvalMsg, AccusationMsg, ApologyMsg, DkgResult, new_pure_dkg, index,
  handle_poly_commitment_msg, handle_poly_eval_msg, handle_accusation_msg, handle_apology_msg,
}
use shielder.PureDkg.Phases.{
  start_phase1_dealing, start_phase2_accusing, start_phase3_apologizing, finalize,
}
use shielder.PureDkg.Outcome.{compute_result}
use shielder.EpochKg.{new_epoch_kg}
use shielder.Observe.{find_batch_config_by_batch_index}
use shielder.Observe.Shielder.{
  Eon, find_eon, get_poly_commitments, get_poly_evals, get_accusations, get_apologies,
}
use shielder.Fx.{eon_key_broadcast}
use shielder.Decide.{
  fold, Libraries, KeyperConfig, Dkg, Ekg, Decider, has_phase, get_phase_at_height, add_action,
  send_message, is_finalized,
}

module _ {x : External} (lib : Libraries x) where
  -- `newApology`
  apology_message : Dkg x → List ApologyMsg → Result Panic Message
  apology_message dkg apologies = do
    accusers ←
        fold (λ ks (a : ApologyMsg). index (dkg.keypers) a.accuser >>= λ k. ok (ks ++ k ∷ [])) []
          apologies
    new_apology lib.address_bytes (dkg.eon) accusers (map (λ a. a.eval) apologies)

  -- `newAccusation`
  accusation_message : Dkg x → List AccusationMsg → Result Panic Message
  accusation_message dkg accusations = do
    accused ←
        fold (λ ks (a : AccusationMsg). index (dkg.keypers) a.accused >>= λ k. ok (ks ++ k ∷ [])) []
          accusations
    ok (new_accusation lib.address_bytes (dkg.eon) accused)

  abbrev phase_of : Dkg x → Eon x → ℕ → Phase
  phase_of dkg eon height = get_phase_at_height (dkg.phase_length) height (eon.start_height)

  -- The body of the loop of `syncCommitments`.
  sync_commitment : Eon x → Dkg x → Events.PolyCommitment x → Result Panic (Dkg x)
  sync_commitment eon dkg comm =
      if not (has_phase (phase_of dkg eon comm.height) dealing)
      then ok dkg
      else (elim (find_address_index (dkg.keypers) comm.sender) [
        | none ↦ ok dkg
        | some sender ↦
            let msg : PolyCommitmentMsg x.curve = record {
              eon = comm.eon;
              sender = sender;
              gammas = comm.gammas;
            } in
            handle_poly_commitment_msg (dkg.pure) msg >>= λ r. ok (record dkg { pure = r.0 })
      ])

  unfoldable pub sync_commitments : ℕ → Eon x → Dkg x → Result Panic (Dkg x)
  unfolding sync_commitment
  sync_commitments sync_height eon dkg =
      fold (sync_commitment eon) dkg (get_poly_commitments eon sync_height)

  abbrev is_own : Option ℕ → ℕ → Bool
  is_own none keyper = false
  is_own (some i) keyper = i == keyper

  -- An evaluation that is decrypted goes to the key generation.
  take_eval : Dkg x → Events.PolyEval → ℕ → Option Bytes → Result Panic (Dkg x)
  take_eval dkg ev sender none = ok dkg
  take_eval dkg ev sender (some bytes) =
      handle_poly_eval_msg (dkg.pure) (record {
        eon = ev.eon;
        sender = sender;
        receiver = dkg.pure.keyper;
        eval = set_bytes bytes;
      })
      >>= λ r. ok (record dkg { pure = r.0 })

  -- The inner loop of `syncPolyEvals`, from index `j` on.
  sync_receivers : Dkg x → Events.PolyEval → ℕ → ℕ → List Address → Result Panic (Dkg x)
  unfolding take_eval
  sync_receivers dkg ev sender j [] = ok dkg
  sync_receivers dkg ev sender j (receiver ∷ rest) =
      let mine = index ev.encrypted_evals j >>= λ encrypted.
      take_eval dkg ev sender (lib.decrypt encrypted) in
      let receives = is_own (find_address_index (dkg.keypers) receiver) (dkg.pure.keyper) in
      (if receives then mine else ok dkg) >>= λ dkg'. sync_receivers dkg' ev sender (j + 1) rest

  -- The body of the loop of `syncPolyEvals`.
  sync_poly_eval : Eon x → Dkg x → Events.PolyEval → Result Panic (Dkg x)
  unfolding sync_receivers
  sync_poly_eval eon dkg ev =
      if not (has_phase (phase_of dkg eon ev.height) dealing)
      then ok dkg
      else (elim (find_address_index (dkg.keypers) ev.sender) [
        | none ↦ ok dkg
        | some sender ↦
            if sender == dkg.pure.keyper
            then ok dkg
            else sync_receivers dkg ev sender 0 ev.receivers
      ])

  unfoldable pub sync_poly_evals : ℕ → Eon x → Dkg x → Result Panic (Dkg x)
  unfolding sync_poly_eval
  sync_poly_evals sync_height eon dkg =
      fold (sync_poly_eval eon) dkg (get_poly_evals eon sync_height)

  -- An accusation goes to the key generation, if the accused is a keyper.
  take_accusation : Dkg x → ℕ → Option ℕ → Dkg x
  take_accusation dkg sender none = dkg
  take_accusation dkg sender (some i) =
      let msg : AccusationMsg = record { eon = dkg.eon; accuser = sender; accused = i } in
      record dkg { pure = (handle_accusation_msg (dkg.pure) msg).0 }

  -- The inner loop of `syncAccusations`.
  sync_accused : Dkg x → ℕ → List Address → Dkg x
  unfolding take_accusation
  sync_accused dkg sender [] = dkg
  sync_accused dkg sender (accused ∷ rest) =
      sync_accused (take_accusation dkg sender (find_address_index (dkg.keypers) accused)) sender
        rest

  sync_accusation : Eon x → Dkg x → Events.Accusation → Result Panic (Dkg x)
  unfolding sync_accused
  sync_accusation eon dkg a =
      if not (has_phase (phase_of dkg eon a.height) accusing)
      then ok dkg
      else (elim (find_address_index (dkg.keypers) a.sender) [
        | none ↦ ok dkg
        | some sender ↦ ok (sync_accused dkg sender a.accused)
      ])

  unfoldable pub sync_accusations : ℕ → Eon x → Dkg x → Result Panic (Dkg x)
  unfolding sync_accusation
  sync_accusations sync_height eon dkg =
      fold (sync_accusation eon) dkg (get_accusations eon sync_height)

  -- An apology goes to the key generation, if its accuser is a keyper.
  take_apology : Dkg x → Events.Apology → ℕ → ℕ → Option ℕ → Result Panic (Dkg x)
  take_apology dkg ev sender j none = ok dkg
  take_apology dkg ev sender j (some i) = index ev.poly_eval j >>= λ e.
      let msg : ApologyMsg = record { eon = dkg.eon; accuser = i; accused = sender; eval = e } in
      ok (record dkg { pure = (handle_apology_msg (dkg.pure) msg).0 })

  -- The inner loop of `syncApologies`, from index `j` on.
  sync_accusers : Dkg x → Events.Apology → ℕ → ℕ → List Address → Result Panic (Dkg x)
  unfolding take_apology
  sync_accusers dkg ev sender j [] = ok dkg
  sync_accusers dkg ev sender j (accuser ∷ rest) =
      take_apology dkg ev sender j (find_address_index (dkg.keypers) accuser) >>= λ dkg'.
      sync_accusers dkg' ev sender (j + 1) rest

  sync_apology : Eon x → Dkg x → Events.Apology → Result Panic (Dkg x)
  unfolding sync_accusers
  sync_apology eon dkg a =
      if not (has_phase (phase_of dkg eon a.height) apologizing)
      then ok dkg
      else (elim (find_address_index (dkg.keypers) a.sender) [
        | none ↦ ok dkg
        | some sender ↦ sync_accusers dkg a sender 0 a.accusers
      ])

  unfoldable pub sync_apologies : ℕ → Eon x → Dkg x → Result Panic (Dkg x)
  unfolding sync_apology
  sync_apologies sync_height eon dkg = fold (sync_apology eon) dkg (get_apologies eon sync_height)

  -- The evaluations that stay outgoing, with the receivers and the encrypted evaluations of the rest.
  sendable :
      Decider x
      → Dkg x
      → List PolyEvalMsg
      → Result Panic (List PolyEvalMsg × (List Address × List Bytes))
  unfolding int_bytes
  sendable d dkg [] = ok ([], ([], []))
  sendable d dkg (p ∷ rest) = do
    receiver ← index (dkg.keypers) p.receiver
    r ← sendable d dkg rest
    ok (elim (get receiver (d.shielder.keyper_encryption_keys)) [
      | none ↦ (p ∷ r.0, r.1)
      | some key ↦ (r.0, (receiver ∷ r.1.0, lib.encrypt key (int_bytes p.eval) ∷ r.1.1))
    ])

  unfoldable pub send_poly_evals : Decider x → Dkg x → Result Panic (Decider x × Dkg x)
  unfolding sendable
  send_poly_evals d dkg =
      if length (dkg.outgoing_poly_eval_msgs) == 0
      then ok (d, dkg)
      else if ltb (phase_number dealing) (phase_number (dkg.pure.phase))
      then ok (d, record dkg { outgoing_poly_eval_msgs = [] })
      else (sendable d dkg (dkg.outgoing_poly_eval_msgs) >>= λ r. ok (
          if ltb 0 (length r.1.0)
          then (
            send_message d (new_poly_eval lib.address_bytes (dkg.eon) r.1.0 r.1.1),
            record dkg { outgoing_poly_eval_msgs = r.0 },
          )
          else (d, dkg)))

  -- `startPhase1Dealing`; no polynomial is fatal.
  unfoldable pub begin_dealing : Decider x → Dkg x → Phase → Result Panic (Decider x × Dkg x)
  begin_dealing d dkg next =
      start_phase1_dealing (dkg.pure) (lib.random_polynomial (dkg.eon)) >>= λ r.
      or_err r.1 fatal >>= λ dealt.
      let started = record dkg { pure = r.0 } in
      ok (
        if not (has_phase next dealing) then (d, started) else (
          send_message d (new_poly_commitment x.curve (dkg.eon) (dealt.0.gammas)),
          record started { outgoing_poly_eval_msgs = dealt.1 },
        ))

  -- `startPhase2Accusing`
  unfoldable pub begin_accusing : Decider x → Dkg x → Phase → Result Panic (Decider x × Dkg x)
  unfolding accusation_message
  begin_accusing d dkg next = start_phase2_accusing (dkg.pure) >>= λ r.
      let started = record dkg { pure = r.0 } in
      if not (has_phase next accusing)
      then ok (d, started)
      else (accusation_message started r.1 >>= λ msg. ok (send_message d msg, started))

  -- `startPhase3Apologizing`
  unfoldable pub begin_apologizing : Decider x → Dkg x → Phase → Result Panic (Decider x × Dkg x)
  unfolding apology_message
  begin_apologizing d dkg next = start_phase3_apologizing (dkg.pure) >>= λ r.
      let started = record dkg { pure = r.0 } in
      if not (has_phase next apologizing)
      then ok (d, started)
      else (apology_message started r.1 >>= λ msg. ok (send_message d msg, started))

module _ {x : External} where
  unfoldable pub broadcast_eon_public_key : Decider x → DkgResult x.curve → ℕ → Decider x
  broadcast_eon_public_key d result start_batch_index = add_action d (
      eon_key_broadcast (record {
        keyper_index = result.keyper;
        start_batch_index = start_batch_index;
        eon_public_key = result.public_key;
      }))

  unfoldable pub dkg_finalize : Decider x → Dkg x → Result Panic (Decider x × Dkg x)
  unfolding broadcast_eon_public_key
  dkg_finalize d dkg = finalize (dkg.pure) >>= λ pure.
      let done = record dkg { pure = pure } in
      compute_result pure >>= elim [
        | err e ↦ ok (send_message d (new_eon_start_vote (dkg.start_batch_index)), done)
        | ok result ↦
            let ekg : Ekg x = record {
              eon = dkg.eon;
              keypers = dkg.keypers;
              epoch_kg = new_epoch_kg result;
            } in
            let d' = record d { state = record (d.state) { ekgs = d.state.ekgs ++ ekg ∷ [] } } in
            ok (broadcast_eon_public_key d' result (dkg.start_batch_index), done)
      ]

module _ {x : External} (lib : Libraries x) where
  -- A phase begins when the key generation is in the one before, and the next block's phase is reached.
  abbrev when :
      Bool
      → (Decider x → Dkg x → Result Panic (Decider x × Dkg x))
      → Decider x × Dkg x
      → Result Panic (Decider x × Dkg x)
  when b f p = if b then f p.0 p.1 else ok p

  abbrev is_due : Dkg x → Phase → Phase → Phase → Bool
  is_due dkg current begun next =
      has_phase (dkg.pure.phase) current && leb (phase_number begun) (phase_number next)

  unfoldable pub sync_dkg_with_eon : Decider x → Dkg x → Eon x → Result Panic (Decider x × Dkg x)
  unfolding begin_dealing begin_accusing begin_apologizing dkg_finalize
  sync_dkg_with_eon d dkg eon =
      let h = d.state.sync_height in
      let next =
        get_phase_at_height (d.phase_length) (add64 (d.shielder.current_block) 1)
          (eon.start_height) in
      do
        p ← when (is_due dkg off dealing next) (λ d dkg. begin_dealing lib d dkg next) (d, dkg)
        committed ← sync_commitments lib h eon p.1
        dealt ← sync_poly_evals lib h eon committed
        q ←
            when (is_due dealt dealing accusing next) (λ d dkg. begin_accusing lib d dkg next)
              (p.0, dealt)
        accused ← sync_accusations lib h eon q.1
        r ←
            when (is_due accused accusing apologizing next)
              (λ d dkg. begin_apologizing lib d dkg next) (q.0, accused)
        apologized ← sync_apologies lib h eon r.1
        when (is_due apologized apologizing finalized next) dkg_finalize (r.0, apologized)

  -- The loop of `handleDKGs`; the key generations before it are done.
  handle_from : Decider x → List (Dkg x) → List (Dkg x) → Result Panic (Decider x)
  unfolding sync_dkg_with_eon send_poly_evals
  handle_from d before [] = ok (record d { state = record (d.state) { dkgs = before } })
  handle_from d before (dkg ∷ rest) = elim (is_finalized dkg) [
    | true ↦ handle_from d (before ++ dkg ∷ []) rest
    | false ↦ or_err (find_eon (d.shielder) (dkg.eon)) not_found >>= λ eon.
        sync_dkg_with_eon d dkg eon >>= λ p.
        send_poly_evals lib p.0 p.1 >>= λ q. handle_from q.0 (before ++ q.1 ∷ []) rest
  ]

  unfoldable pub handle_dkgs : Decider x → Result Panic (Decider x)
  unfolding handle_from
  handle_dkgs d = handle_from d [] (d.state.dkgs)

module _ {x : External} (kc : KeyperConfig) where
  unfoldable pub start_dkg : Decider x → Eon x → Result Panic (Decider x)
  start_dkg d eon =
      let start = eon.start_event.batch_index in
      find_batch_config_by_batch_index (d.shielder.batch_configs) start >>= λ bc.
      elim (find_address_index bc.keypers (kc.address)) [
        | none ↦ ok d
        | some i ↦
            let dkg : Dkg x = record {
              eon = eon.eon;
              start_batch_index = start;
              keypers = bc.keypers;
              pure = new_pure_dkg (eon.eon) (length bc.keypers) bc.threshold i;
              outgoing_poly_eval_msgs = [];
              phase_length = d.phase_length;
            } in
            ok (record d { state = record (d.state) { dkgs = d.state.dkgs ++ dkg ∷ [] } })
      ]

  -- The body of the loop of `maybeStartDKG`.
  start_eon : Decider x → Eon x → Result Panic (Decider x)
  unfolding start_dkg
  start_eon d eon =
      if ltb (d.state.last_eon_started) (eon.eon)
      then (start_dkg d eon >>= λ d'.
          ok (record d' { state = record (d'.state) { last_eon_started = eon.eon } }))
      else ok d

  unfoldable pub maybe_start_dkg : Decider x → Result Panic (Decider x)
  unfolding start_eon
  maybe_start_dkg d = fold start_eon d (d.shielder.eons)
