-- ===== src/Config/Tests.antt =====
-- An allowlist of the shape in server/internal/config/config_test.go.
use ghapp_demo.Base.{◌≡◌, refl, [], ◌∷◌}
use ghapp_demo.Config.{parse_csv_allowlist}
use ghapp_demo.Text.{codes, equal, split, trim_space}
use ghapp_demo.Text.Collect.{collect}

allowlist : parse_csv_allowlist (codes " a, ,b ,a") ≡ codes "a" ∷ codes "b" ∷ []
unfolding parse_csv_allowlist collect split trim_space equal
allowlist = refl
