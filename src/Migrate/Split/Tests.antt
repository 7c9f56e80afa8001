-- ===== src/Migrate/Split/Tests.antt =====
-- The inputs of server/internal/postgres/migrate_test.go, shortened, and instances of the laws.
use ghapp_demo.Base.{◌≡◌, refl, List, [], ◌∷◌, arith, All}
use ghapp_demo.Migrate.Split.{split_statements, is_tag_byte}
use ghapp_demo.Migrate.Split.Clean.{IsClean, split_statements-All}
use ghapp_demo.Migrate.Split.Pieces.{Piece, byte, quoted, comment, block, script, statements}
use ghapp_demo.Migrate.Split.RoundTrip.{split_statements-script}
use ghapp_demo.Text.{codes, trim_space, starts_with}

comment_and_block :
    split_statements (codes "\n-- c;\nA (x);\n\nDO $$\nB ';' ;\nEND $$;\nC;\n")
    ≡ codes "A (x)" ∷ codes "DO $$\nB ';' ;\nEND $$" ∷ codes "C" ∷ []
unfolding split_statements trim_space starts_with
comment_and_block = refl

tagged_block :
    split_statements (codes "\nDO $func$\nB 1;\n$func$;\n\nS 'a'';b';\n")
    ≡ codes "DO $func$\nB 1;\n$func$" ∷ codes "S 'a'';b'" ∷ []
unfolding split_statements trim_space starts_with
tagged_block = refl

abbrev pieces : List (List Piece)
pieces =
    (comment (codes "it's;") ∷ byte b'A' ∷ quoted (codes "x';--") ∷ [])
    ∷ (byte b'B' ∷ block (codes "f") (codes ";'") ∷ [])
    ∷ []

pieces-script : script pieces ≡ codes "--it's;\nA'x'';--';B$f$;'$f$;"
pieces-script = refl

split_statements-script_example : split_statements (script pieces) ≡ statements pieces
unfolding is_tag_byte starts_with
split_statements-script_example = split_statements-script pieces (ground arith)

split_statements-All_example : All IsClean (split_statements (codes " A ;; B"))
split_statements-All_example = split_statements-All (codes " A ;; B")
