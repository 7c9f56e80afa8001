-- ===== src/Limiter/Tests.antt =====
-- Runs of the limiter at concrete calls.
use ghapp_demo.Base.{◌*◌, ◌≤◌, ◌≡◌, refl, List, [], ◌∷◌, some, arith}
use ghapp_demo.Base.Int.{pos, negsuc}
use ghapp_demo.Limiter.{Counter, allow, new_limiter}
use ghapp_demo.Limiter.Laws.{Call, passed, passed-le_twice}
use ghapp_demo.Text.{codes, trim_space, equal}
use ghapp_demo.Text.Dict.{Dict, lookup, insert}

abbrev calls : List Call
calls =
    (codes "7", 10) ∷ (codes " 7 ", 11) ∷ (codes "8", 11) ∷ (codes "7", 12) ∷ (codes "7", 19) ∷ []

abbrev used : Dict Counter
used = (codes "7", record { window_start = 5; count = 2 }) ∷ []

three_calls : passed (codes "7") (pos 3) (pos 10) calls new_limiter ≡ 3
unfolding passed allow trim_space lookup equal insert
three_calls = refl

passed-le_twice_example : passed (codes "7") (pos 3) (negsuc 0) calls (some used) ≤ 2 * 3
passed-le_twice_example =
    passed-le_twice (codes "7") (pos 3) (negsuc 0) 10 refl refl calls used (omega arith)
