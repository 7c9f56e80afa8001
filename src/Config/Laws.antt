-- ===== src/Config/Laws.antt =====
-- The audience allowlist of the configuration.
use ghapp_demo.Base.{◌≡◌, [], All, any}
use ghapp_demo.Config.{parse_csv_allowlist}
use ghapp_demo.Text.{Text, equal, split}
use ghapp_demo.Text.Collect.{IsDistinct, IsItem, collect-IsGood, collect_has, gives}

-- The allowlist has no item twice and no blank one, every item is trimmed, and it holds exactly the
-- trimmed fields between the commas that are not blank.
parse_csv_allowlist_lem :
    (value x : Text)
    → IsDistinct (parse_csv_allowlist value)
      × All IsItem (parse_csv_allowlist value)
      × (any (equal x) (parse_csv_allowlist value) ≡ any (gives x) (split b',' value))
unfolding parse_csv_allowlist
parse_csv_allowlist_lem value x =
    let (d, a) = collect-IsGood (split b',' value) [] (tt, tt) in
    (d, a, collect_has (split b',' value) [] x)
