-- ===== src/Registry/Tests.antt =====
-- Concrete runs of the two registries.
use headless_db_mcp.HashMap.{get}
use headless_db_mcp.Prelude.{
  ℕ, ◌%◌, true, ◌==◌, nat_eq, text_eq, List, [], ◌∷◌, ◌≡◌, refl, arith, err,
}
use headless_db_mcp.Registry.Attempts.{
  u64_modulus, ConnectionAttemptRegistry, begin, is_current, forget, Op, begins, forgets, run,
}
use headless_db_mcp.Registry.Attempts.Fencing.{is_current-run, forget_revives_first_token, bumps}
use headless_db_mcp.Registry.Sessions.{SessionRegistry, insert_if_current}
use headless_db_mcp.Registry.Sessions.Handover.{insert_if_current_late}

-- Id 7 is in its second attempt.
abbrev busy : ConnectionAttemptRegistry
busy = record { generations = (7, 2) ∷ (9, 1) ∷ [] }

abbrev overtaking : List Op
overtaking = begins 9 ∷ forgets 8 ∷ begins 7 ∷ []

abbrev stored : SessionRegistry ℕ
stored = record { sessions = (7, 50) ∷ [] }

is_current-run_example :
    is_current (run (begin busy 7).0 overtaking) (begin busy 7).1
    ≡ (bumps 7 overtaking % u64_modulus) == 0
is_current-run_example = is_current-run busy 7 overtaking refl

forget_revives_first_token_example :
    is_current (begin (forget (begin busy 8).0 8) 8).0 (begin busy 8).1 ≡ true
unfolding get
forget_revives_first_token_example = forget_revives_first_token busy 8 refl

insert_if_current_late_example :
    insert_if_current stored busy (run (begin busy 7).0 overtaking) (begin busy 7).1 60
    ≡ (err 60, stored)
insert_if_current_late_example =
    insert_if_current_late stored busy 7 overtaking busy 60 refl (omega arith) (omega arith)
