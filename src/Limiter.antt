-- ===== src/Limiter.antt =====
-- server/web/handler/server.go: `fixedWindowLimiter`. Instants and durations are nanoseconds; the
-- mutex makes each call one step, so a run of the server is a list of calls.
pub mod Laws
mod Tests
use ghapp_demo.Base.{
  ℕ, ◌+◌, ◌*◌, ◌^◌, Bool, true, false, List, [], ◌∷◌, Option, none, some, leb, if◌then◌else◌,
}
use ghapp_demo.Base.Int.{ℤ, pos_part, is_positive}
use ghapp_demo.Text.{Text, is_empty, trim_space}
use ghapp_demo.Text.Dict.{Dict, lookup, insert}

pub record Counter : Type 0 where
  pub window_start : ℕ
  pub count : ℕ

abbrev pub minute : ℕ
minute = 60 * 10 ^ 9

-- A duration that is not positive counts as a minute.
abbrev pub window_or_minute : ℤ → ℕ
window_or_minute window = if is_positive window then pos_part window else minute

abbrev pub fresh : ℕ → Counter
fresh now = record { window_start = now; count = 1 }

-- The decision on the counter of a key. `now.Sub(start) >= window` with a positive window.
unfoldable pub hit : Option Counter → ℕ → ℕ → ℕ → Bool × Counter
hit none limit window now = (true, fresh now)
hit (some c) limit window now =
    if leb (c.window_start + window) now
    then (true, fresh now)
    else if leb limit c.count
    then (false, c)
    else (true, record c { count = c.count + 1 })

-- The body behind the nil check.
unfoldable pub allow_in : Dict Counter → Text → ℤ → ℤ → ℕ → Bool × Dict Counter
unfolding hit
allow_in hits key limit window now =
    let k = trim_space key in
    let (ok, c) = hit (lookup k hits) (pos_part limit) (window_or_minute window) now in
    if is_empty k
    then (false, hits)
    else if is_positive limit
    then (ok, if ok then insert k c hits else hits)
    else (true, hits)

-- `none` is a nil limiter.
unfoldable pub allow : Option (Dict Counter) → Text → ℤ → ℤ → ℕ → Bool × Option (Dict Counter)
unfolding allow_in
allow none key limit window now = (true, none)
allow (some hits) key limit window now =
    let (ok, hits') = allow_in hits key limit window now in (ok, some hits')

-- `newFixedWindowLimiter`
abbrev pub new_limiter : Option (Dict Counter)
new_limiter = some []
