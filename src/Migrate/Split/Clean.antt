-- ===== src/Migrate/Split/Clean.antt =====
-- What every statement of a split looks like.
use ghapp_demo.Base.{
  ℕ, zero, suc, ◌≡◌, false, [], ◌∷◌, arith, All, All-append, Bool-cases, inl, inr,
}
use ghapp_demo.Migrate.Split.{
  Mode, plain, Scan, end_stmt, in_plain, step_in, step, scan, initial, split_statements,
}
use ghapp_demo.Text.{Text, is_empty, trim_space}
use ghapp_demo.Text.Laws.{trim_space_idem}

-- A statement that is not empty and has no white space at either end.
abbrev pub IsClean : Text → Type 0
IsClean s = (is_empty s ≡ false) × (trim_space s ≡ s)

end_stmt-All : (p : Scan) → All IsClean p.stmts → All IsClean (end_stmt p).stmts
unfolding end_stmt
end_stmt-All p h = elim (Bool-cases (is_empty (trim_space p.current))) [
  | inl blank ↦ rw blank h
  | inr filled ↦
      rw filled (All-append IsClean p.stmts _ h ((filled, trim_space_idem p.current), tt))
]

in_plain-All :
    (p : Scan) (c : ℕ) (s : Text) → All IsClean p.stmts → All IsClean (in_plain p c s).stmts
unfolding in_plain
in_plain-All p c s h = ground (arith, end_stmt-All p h)

step_in-All :
    (m : Mode) (p : Scan) (c : ℕ) (s : Text)
    → All IsClean p.stmts
    → All IsClean (step_in m p c s).stmts
unfolding step_in
step_in-All plain p c s h = in_plain-All p c s h
step_in-All _ p c s h = ground arith

step-All :
    (k : ℕ) (p : Scan) (c : ℕ) (s : Text) → All IsClean p.stmts → All IsClean (step k p c s).stmts
unfolding step
step-All zero p c s h = step_in-All p.mode p c s h
step-All (suc k) p c s h = h

scan-All : (s : Text) (p : Scan) → All IsClean p.stmts → All IsClean (scan p s).stmts
unfolding scan step
scan-All [] p h = h
scan-All (c ∷ s) p h = scan-All s (step p.skip p c s) (step-All p.skip p c s h)

-- Whatever the input, no statement is empty and none has white space at its ends.
pub split_statements-All : (sql : Text) → All IsClean (split_statements sql)
unfolding split_statements
split_statements-All sql = end_stmt-All (scan initial sql) (scan-All sql initial tt)
