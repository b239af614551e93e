-- ===== src/Panic.antt =====
-- What stops the program: a Go panic, an index out of range, or `log.Fatalf`.
pub data Panic : Type 0 where
  guard_element_missing configs_empty index_out_of_range wrong_phase unexpected_error nil_pointer
        fatal bad_argument illegal_configs not_found config_inactive division_by_zero :
      Panic
