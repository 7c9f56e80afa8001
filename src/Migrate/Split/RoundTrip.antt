-- ===== src/Migrate/Split/RoundTrip.antt =====
-- The loop over each kind of piece, and over a whole script.
use ghapp_demo.Base.{
  ℕ, ◌≡◌, ◌≢◌, refl, sym, ap, ◌∙◌, true, false, List, [], ◌∷◌, ◌++◌, some, arith, All, Bool-cases,
  inl, inr, append_assoc, append-nil, ◌==◌, if◌then◌else◌, length, ==_self,
}
use ghapp_demo.Migrate.Split.{
  Mode, plain, line_comment, single_quote, double_quote, dollar, Scan, next_is, is_tag_byte,
  tag_rest, end_stmt, in_quote, in_plain, step_in, step, scan, split_statements,
}
use ghapp_demo.Migrate.Split.Pieces.{
  Piece, byte, quoted, ident, comment, block, doubled, tag_of, render, kept, Avoids, Fits,
  render_all, kept_all, FitAll, script, FitScript, statements,
}
use ghapp_demo.Text.{Text, is_empty, trim_space, starts_with}

abbrev here : Mode → Text → List Text → Scan
here m cur ss = record { mode = m; skip = 0; current = cur; stmts = ss }

scan-skip :
    (t rest : Text) (m : Mode) (cur : Text) (ss : List Text)
    → scan (record { mode = m; skip = length t; current = cur; stmts = ss }) (t ++ rest)
      ≡ scan (here m cur ss) rest
unfolding scan
scan-skip [] rest m cur ss = refl
scan-skip (c ∷ t) rest m cur ss = scan-skip t rest m cur ss

scan-comment :
    (s rest cur : Text) (ss : List Text)
    → All (λ c. c ≢ b'\n') s
    → scan (here line_comment cur ss) (s ++ (b'\n' ∷ rest))
      ≡ scan (here plain (cur ++ b'\n' ∷ []) ss) rest
unfolding scan
scan-comment [] rest cur ss h = refl
scan-comment (c ∷ s) rest cur ss (h, hs) = ground (arith, scan-comment s rest cur ss hs)

module _ (q : ℕ) (m : Mode)
    (reads : (p : Scan) (c : ℕ) (s : Text) → step_in m p c s ≡ in_quote q p c s) where
  scan-close :
      (rest cur : Text) (ss : List Text)
      → next_is q rest ≡ false
      → scan (here m cur ss) (q ∷ rest) ≡ scan (here plain (cur ++ q ∷ []) ss) rest
  unfolding scan step in_quote
  scan-close rest cur ss h = rw reads (rw (==_self q) (rw h))

  scan-byte :
      (c : ℕ) (rest cur : Text) (ss : List Text)
      → (c == q) ≡ false
      → scan (here m cur ss) (c ∷ rest) ≡ scan (here m (cur ++ c ∷ []) ss) rest
  unfolding scan step in_quote
  scan-byte c rest cur ss h = rw reads (rw h)

  scan-pair :
      (c : ℕ) (rest cur : Text) (ss : List Text)
      → (c == q) ≡ true
      → scan (here m cur ss) (c ∷ q ∷ rest) ≡ scan (here m (cur ++ c ∷ q ∷ []) ss) rest
  unfolding scan step in_quote
  scan-pair c rest cur ss h = rw reads (rw h (rw (==_self q)))

  scan-doubled :
      (s rest cur : Text) (ss : List Text)
      → next_is q rest ≡ false
      → scan (here m cur ss) (doubled q s ++ (q ∷ rest))
        ≡ scan (here plain (cur ++ (doubled q s ++ q ∷ [])) ss) rest
  scan-doubled [] rest cur ss h = scan-close rest cur ss h
  scan-doubled (c ∷ s) rest cur ss h = elim (Bool-cases (c == q)) [
    | inl same ↦ rw same (
        scan-pair c _ cur ss same
        ∙ scan-doubled s rest (cur ++ c ∷ q ∷ []) ss h
        ∙ simp append_assoc)
    | inr other ↦
        rw other (
          scan-byte c _ cur ss other ∙ scan-doubled s rest (cur ++ c ∷ []) ss h ∙ simp append_assoc)
  ]

tag_rest-name :
    (name rest : Text)
    → All (λ c. is_tag_byte c ≡ true) name
    → tag_rest (name ++ (b'$' ∷ rest)) ≡ some (name ++ b'$' ∷ [])
unfolding tag_rest
tag_rest-name [] rest h = refl
tag_rest-name (c ∷ name) rest (h, hs) = ground (arith, tag_rest-name name rest hs)

starts_with-append : (t rest : Text) → starts_with (t ++ rest) t ≡ true
unfolding starts_with
starts_with-append [] rest = refl
starts_with-append (c ∷ t) rest = rw (==_self c) (starts_with-append t rest)

module _ (tag : Text) where
  step-body :
      (c : ℕ) (u cur : Text) (ss : List Text)
      → starts_with (c ∷ u) tag ≡ false
      → step 0 (here (dollar tag) cur ss) c u ≡ here (dollar tag) (cur ++ c ∷ []) ss
  unfolding step step_in
  step-body c u cur ss h = rw h

  scan-body :
      (s rest cur : Text) (ss : List Text)
      → Avoids tag s rest
      → scan (here (dollar tag) cur ss) (s ++ rest) ≡ scan (here (dollar tag) (cur ++ s) ss) rest
  unfolding scan
  scan-body [] rest cur ss h = rw append-nil
  scan-body (c ∷ s) rest cur ss (h, hs) =
      ap (λ p. scan p (s ++ rest)) (step-body c (s ++ rest) cur ss h)
      ∙ scan-body s rest (cur ++ c ∷ []) ss hs
      ∙ rw append_assoc

step-block_end :
    (c : ℕ) (t rest cur : Text) (ss : List Text)
    → step 0 (here (dollar (c ∷ t)) cur ss) c (t ++ rest)
      ≡ record { mode = plain; skip = length t; current = cur ++ (c ∷ t); stmts = ss }
unfolding step step_in
step-block_end c t rest cur ss = rw (starts_with-append (c ∷ t) rest) (ground arith)

scan-block_end :
    (c : ℕ) (t rest cur : Text) (ss : List Text)
    → scan (here (dollar (c ∷ t)) cur ss) (c ∷ (t ++ rest))
      ≡ scan (here plain (cur ++ (c ∷ t)) ss) rest
unfolding scan
scan-block_end c t rest cur ss =
    ap (λ p. scan p (t ++ rest)) (step-block_end c t rest cur ss)
    ∙ scan-skip t rest plain (cur ++ (c ∷ t)) ss

step-block_start :
    (name rest cur : Text) (ss : List Text)
    → All (λ c. is_tag_byte c ≡ true) name
    → step 0 (here plain cur ss) b'$' (name ++ (b'$' ∷ rest)) ≡ record {
      mode = dollar (tag_of name);
      skip = length (name ++ b'$' ∷ []);
      current = cur ++ tag_of name;
      stmts = ss;
    }
unfolding step step_in in_plain
step-block_start name rest cur ss h = rw (tag_rest-name name rest h) (ground arith)

scan-block :
    (name s rest cur : Text) (ss : List Text)
    → All (λ c. is_tag_byte c ≡ true) name
    → Avoids (tag_of name) s (tag_of name ++ rest)
    → scan (here plain cur ss) (tag_of name ++ (s ++ (tag_of name ++ rest)))
      ≡ scan (here plain (cur ++ (tag_of name ++ (s ++ tag_of name))) ss) rest
unfolding scan
scan-block name s rest cur ss h clean =
    let t : Text = name ++ b'$' ∷ [] in
    let u : Text = s ++ (tag_of name ++ rest) in
    let opened : Scan = record {
      mode = dollar (tag_of name);
      skip = length t;
      current = cur ++ tag_of name;
      stmts = ss;
    } in
    ap (λ x. scan (here plain cur ss) (b'$' ∷ x)) (append_assoc name (b'$' ∷ []) u)
    ∙ ap (λ p. scan p (name ++ (b'$' ∷ u))) (step-block_start name u cur ss h)
    ∙ ap (scan opened) (sym (append_assoc name (b'$' ∷ []) u))
    ∙ scan-skip t u (dollar (tag_of name)) (cur ++ tag_of name) ss
    ∙ scan-body (tag_of name) s (tag_of name ++ rest) (cur ++ tag_of name) ss clean
    ∙ scan-block_end b'$' t rest ((cur ++ tag_of name) ++ s) ss
    ∙ simp append_assoc

step-byte :
    (c : ℕ) (rest cur : Text) (ss : List Text)
    → Fits (byte c) rest
    → step 0 (here plain cur ss) c rest ≡ here plain (cur ++ c ∷ []) ss
unfolding step step_in in_plain
step-byte c rest cur ss (a, b, d, e, f) = rw f (ground arith)

scan-piece :
    (x : Piece) (rest cur : Text) (ss : List Text)
    → Fits x rest
    → scan (here plain cur ss) (render x rest) ≡ scan (here plain (cur ++ kept x) ss) rest
unfolding scan step step_in in_plain
scan-piece (byte c) rest cur ss h = ap (λ p. scan p rest) (step-byte c rest cur ss h)
scan-piece (quoted s) rest cur ss h =
    scan-doubled b'\'' single_quote (λ p c u. refl) s rest (cur ++ b'\'' ∷ []) ss h
    ∙ simp append_assoc
scan-piece (ident s) rest cur ss h =
    scan-doubled b'"' double_quote (λ p c u. refl) s rest (cur ++ b'"' ∷ []) ss h
    ∙ simp append_assoc
scan-piece (comment s) rest cur ss h = scan-comment s rest cur ss h
scan-piece (block name s) rest cur ss (h, clean) = scan-block name s rest cur ss h clean

scan-pieces :
    (xs : List Piece) (rest cur : Text) (ss : List Text)
    → FitAll xs rest
    → scan (here plain cur ss) (render_all xs rest) ≡ scan (here plain (cur ++ kept_all xs) ss) rest
scan-pieces [] rest cur ss h = rw append-nil
scan-pieces (x ∷ xs) rest cur ss (h, hs) =
    scan-piece x (render_all xs rest) cur ss h
    ∙ scan-pieces xs rest (cur ++ kept x) ss hs
    ∙ rw append_assoc

scan-semicolon :
    (rest cur : Text) (ss : List Text)
    → scan (here plain cur ss) (b';' ∷ rest)
      ≡ scan
          (here plain [] (ss ++ (if is_empty (trim_space cur) then [] else trim_space cur ∷ [])))
          rest
unfolding scan step step_in in_plain end_stmt
scan-semicolon rest cur ss = elim (Bool-cases (is_empty (trim_space cur))) [
  | inl blank ↦ rw (blank, append-nil) refl
  | inr filled ↦ rw filled refl
]

scan-script :
    (xss : List (List Piece)) (ss : List Text)
    → FitScript xss
    → scan (here plain [] ss) (script xss) ≡ here plain [] (ss ++ statements xss)
unfolding scan
scan-script [] ss h = rw append-nil
scan-script (xs ∷ xss) ss (h, hs) =
    scan-pieces xs (b';' ∷ script xss) [] ss h
    ∙ scan-semicolon (script xss) (kept_all xs) ss
    ∙ scan-script xss _ hs
    ∙ elim (Bool-cases (is_empty (trim_space (kept_all xs)))) [
      | inl blank ↦ rw blank (rw append-nil)
      | inr filled ↦ rw filled (rw append_assoc)
    ]

-- Splitting a script gives back its statements: quoted text, quoted names and dollar-quoted blocks
-- stay whole, with the semicolons, quotes and dashes in them, and comments go. The script is a list
-- of statements with a semicolon behind each, and every piece of it is readable where it stands.
pub split_statements-script :
    (xss : List (List Piece)) → FitScript xss → split_statements (script xss) ≡ statements xss
unfolding split_statements end_stmt trim_space
split_statements-script xss h = rw (scan-script xss [] h)
