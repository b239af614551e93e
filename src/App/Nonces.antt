-- ===== src/App/Nonces.antt =====
-- Which nonces each sender has used (app/noncetracker.go).
pub mod Laws
use shielder.Base.{
  ℕ, Bool, true, false, not, Option, none, some, [], Map, get_or_else, get, put, nat_eq,
}
use shielder.Shmsg.{Address}

pub record NonceTracker : Type 0 where
  pub random_nonces : Map Address (Map ℕ Bool)

unfoldable pub new_nonce_tracker : NonceTracker
new_nonce_tracker = record { random_nonces = [] }

-- A missing entry of a `map[uint64]bool` reads as `false`.
used : Option (Map ℕ Bool) → ℕ → Bool
used none nonce = false
used (some m) nonce = get_or_else (get nonce m) false

unfoldable pub check : NonceTracker → Address → ℕ → Bool
unfolding used
check t sender nonce = not (used (get sender t.random_nonces) nonce)

-- The sender's map is made when it is missing, and then shared: the write reaches the tracker.
unfoldable pub add : NonceTracker → Address → ℕ → NonceTracker
add t sender nonce =
    let m = get_or_else (get sender t.random_nonces) [] in
    record t { random_nonces = put sender (put nonce true m) t.random_nonces }
