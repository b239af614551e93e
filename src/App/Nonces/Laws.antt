-- ===== src/App/Nonces/Laws.antt =====
-- A nonce is free until it is added, and never again.
use shielder.Base.{
  ◌≡◌, ◌&&◌, ◌==◌, if◌then◌else◌, ℕ, refl, ap, inl, inr, Bool, true, false, Option, none, some, [],
  arith, Bool-cases, =ℕ_iff, Map, get_or_else, get-put, get, put, nat_eq,
}
use shielder.Shmsg.{Address}
use shielder.App.Nonces.{used, NonceTracker, new_nonce_tracker, check, add}

used-put :
    (o : Option (Map ℕ Bool)) (n k : ℕ)
    → used (some (put n true (get_or_else o []))) k ≡ (if n == k then true else used o k)
unfolding used get
used-put none n k =
    rw (get-put n k true []) (elim (Bool-cases (n == k)) [ inl e ↦ rw e | inr e ↦ rw e ])
used-put (some m) n k =
    rw (get-put n k true m) (elim (Bool-cases (n == k)) [ inl e ↦ rw e | inr e ↦ rw e ])

-- After a nonce of a sender's is added, the check fails for that nonce of that sender, and is what
-- it was for every other.
pub check-add :
    (t : NonceTracker) (s u : Address) (n k : ℕ)
    → check (add t s n) u k ≡ (if s == u && n == k then false else check t u k)
unfolding check add
check-add t s u n k =
    let m = put n true (get_or_else (get s t.random_nonces) []) in
    rw (get-put s u m t.random_nonces) (elim (Bool-cases (s == u)) [
      | inl e ↦ rw e (
          ground (
            arith,
            used-put (get s t.random_nonces) n k,
            ap (λ a. get a t.random_nonces) ((=ℕ_iff s u).0 e),
          ))
      | inr e ↦ rw e
    ])

pub check_new : (u : Address) (k : ℕ) → check new_nonce_tracker u k ≡ true
unfolding check new_nonce_tracker get
check_new u k = refl
