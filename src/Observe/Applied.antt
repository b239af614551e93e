-- ===== src/Observe/Applied.antt =====
-- Whatever events a keyper applies, and whatever it filters, its eons stay in their order.
use shielder.Base.{
  ◌≤◌, ◌≡◌, ◌∷◌, ℕ, refl, sym, ap, inl, inr, Bool, Option, List, [], map, ltb, Bool-cases,
  Option-cases, length, Result, ok, err, le_of_ltb,
}
use mathlib.Core.Path.{subst}
use shielder.External.{External}
use shielder.Events
use shielder.Events.{
  Event, batch_config_event, eon_started_event, check_in_event, decryption_signature_event,
  poly_eval_event, poly_commitment_event, accusation_event, apology_event,
  epoch_secret_key_share_event,
}
use shielder.Observe.Shielder.{
  Eon, Shielder, ShielderFilter, ApplyError, new_shielder, needs_update, filter_eon, apply_filter,
  search_eon, find_eon_at, find_eon, change_eon, apply_eon_started, apply_decryption_signature,
  apply, or_same, apply_event,
}
use shielder.Observe.Eons.{
  IsAscending, numbers, eon_numbered, find_eon_lem, numbers-set, numbers-append, none_from,
  found_at, search_eon-first, IsAscending-append,
}

module _ {x : External} where
  -- The eons have the numbers that they had, if there is no error.
  abbrev HasNumbers : List ℕ → Result ApplyError (Shielder x) → Type 0
  HasNumbers ns (ok s) = numbers (s.eons) ≡ ns
  HasNumbers ns (err e) = Unit

  change_eon-HasNumbers :
      (s : Shielder x) (n : ℕ) (change : Eon x → Eon x)
      → ((e : Eon x) → (change e).eon ≡ e.eon)
      → HasNumbers (numbers (s.eons)) (change_eon s n change)
  unfolding change_eon
  change_eon-HasNumbers s n change same = elim (Option-cases (find_eon_at s n)) [
    | inl missing ↦ rw missing tt
    | inr ((i, e), there) ↦
        rw there (numbers-set (s.eons) i e (change e) (found_at s n i e there) (same e))
  ]

  -- The eons are in order, if there is no error.
  abbrev IsOrderly : Result ApplyError (Shielder x) → Type 0
  IsOrderly (ok s) = IsAscending (numbers (s.eons))
  IsOrderly (err e) = Unit

  HasNumbers-IsOrderly :
      (ns : List ℕ) (r : Result ApplyError (Shielder x))
      → IsAscending ns
      → HasNumbers ns r
      → IsOrderly r
  HasNumbers-IsOrderly ns (ok s) h same = rw same h
  HasNumbers-IsOrderly ns (err e) h same = tt

  changes :
      (s : Shielder x) (n : ℕ) (change : Eon x → Eon x)
      → IsAscending (numbers (s.eons))
      → ((e : Eon x) → (change e).eon ≡ e.eon)
      → IsOrderly (change_eon s n change)
  changes s n change h same =
      HasNumbers-IsOrderly (numbers (s.eons)) (change_eon s n change) h
        (change_eon-HasNumbers s n change same)

  starts :
      (s : Shielder x) (e : Events.EonStarted)
      → IsAscending (numbers (s.eons))
      → IsOrderly (apply_eon_started s e)
  unfolding apply_eon_started
  starts s e h = elim (Bool-cases (ltb (search_eon s e.eon) (length (s.eons)))) [
    | inl known ↦ rw known tt
    | inr new ↦
        let behind = none_from e.eon (s.eons) (
          subst (λ i. length (s.eons) ≤ i) (search_eon-first s e.eon h)
            (le_of_ltb (search_eon s e.eon) (length (s.eons)) new)) in
        rw new (
          subst IsAscending (sym (numbers-append (s.eons) _))
            (IsAscending-append (numbers (s.eons)) e.eon h behind))
  ]

  apply-IsOrderly :
      (s : Shielder x) (ev : Event x) → IsAscending (numbers (s.eons)) → IsOrderly (apply s ev)
  unfolding apply apply_decryption_signature
  apply-IsOrderly s (check_in_event e) h = h
  apply-IsOrderly s (batch_config_event e) h = h
  apply-IsOrderly s (decryption_signature_event e) h = h
  apply-IsOrderly s (eon_started_event e) h = starts s e h
  apply-IsOrderly s (poly_commitment_event e) h = changes s e.eon _ h (λ eon. refl)
  apply-IsOrderly s (poly_eval_event e) h = changes s e.eon _ h (λ eon. refl)
  apply-IsOrderly s (accusation_event e) h = changes s e.eon _ h (λ eon. refl)
  apply-IsOrderly s (apology_event e) h = changes s e.eon _ h (λ eon. refl)
  apply-IsOrderly s (epoch_secret_key_share_event e) h = changes s e.eon _ h (λ eon. refl)

  or_same-IsAscending :
      (s : Shielder x) (r : Result ApplyError (Shielder x))
      → IsAscending (numbers (s.eons))
      → IsOrderly r
      → IsAscending (numbers ((or_same s r).eons))
  unfolding or_same
  or_same-IsAscending s (ok s') h o = o
  or_same-IsAscending s (err e) h o = h

  apply_event-IsAscending :
      (s : Shielder x) (ev : Event x)
      → IsAscending (numbers (s.eons))
      → IsAscending (numbers ((apply_event s ev).eons))
  unfolding apply_event
  apply_event-IsAscending s ev h = or_same-IsAscending s (apply s ev) h (apply-IsOrderly s ev h)

  numbers-filter : (h : ℕ) (eons : List (Eon x)) → numbers (map (filter_eon h) eons) ≡ numbers eons
  unfolding filter_eon
  numbers-filter h [] = refl
  numbers-filter h (e ∷ rest) = ap (◌∷◌ (e.eon)) (numbers-filter h rest)

  apply_filter-IsAscending :
      (s : Shielder x) (f : ShielderFilter)
      → IsAscending (numbers (s.eons))
      → IsAscending (numbers ((apply_filter s f).eons))
  unfolding apply_filter
  apply_filter-IsAscending s f h = elim (Bool-cases (needs_update (s.filter) f)) [
    | inl update ↦ rw update (rw (numbers-filter (f.sync_height) (s.eons)) h)
    | inr same ↦ rw same h
  ]

  -- What a keyper can come to know: events are applied, the filter is, and blocks are synced.
  pub data Observed : Shielder x → Type 0 where
    nothing : Observed new_shielder
    applied : {s : Shielder x} (ev : Event x) → Observed s → Observed (apply_event s ev)
    filtered : {s : Shielder x} (f : ShielderFilter) → Observed s → Observed (apply_filter s f)
    synced :
        {s : Shielder x} (block last : ℕ) (catching_up : Option Bool)
        → Observed s
        → Observed (record s {
          current_block = block;
          last_committed_height = last;
          node_catching_up = catching_up;
        })

  Observed-IsAscending : {s : Shielder x} → Observed s → IsAscending (numbers (s.eons))
  unfolding new_shielder
  Observed-IsAscending nothing = tt
  Observed-IsAscending (applied ev o) = apply_event-IsAscending _ ev (Observed-IsAscending o)
  Observed-IsAscending (filtered f o) = apply_filter-IsAscending _ f (Observed-IsAscending o)
  Observed-IsAscending (synced block last catching_up o) = Observed-IsAscending o

  -- After any events that a keyper has applied, any filters and any syncs, the binary search for
  -- the eon of a number finds the first eon of the list that has this number, and nothing if there
  -- is none.
  pub find_eon-eon_numbered :
      {s : Shielder x} (n : ℕ) → Observed s → find_eon s n ≡ eon_numbered (s.eons) n
  find_eon-eon_numbered n o = find_eon_lem _ n (Observed-IsAscending o)
