-- ===== src/Store/Columns.antt =====
-- What the columns of `runs` and `repos` take of the values that an upload gives them
-- (server/db/migrations/0001_init.sql and 0006_schema.sql).
use ghapp_demo.Base.{◌^◌, Bool, true, ◌&&◌, List, [], ◌∷◌, Option, none, some, ltb}
use ghapp_demo.Base.Int.{ℤ, pos, negsuc}
use ghapp_demo.Store.Tables.{RunFacts}
use ghapp_demo.Text.{Text}

-- How PostgreSQL reads a text: as a value of a TEXT column, within the bounds of the indices over it,
-- and as JSONB.
pub record Columns : Type 0 where
  pub text : Text → Bool
  pub jsonb : Text → Bool

-- INT
unfoldable pub is_int4 : ℤ → Bool
is_int4 (pos n) = ltb n (2 ^ 31)
is_int4 (negsuc n) = ltb n (2 ^ 31)

abbrev all_text : Columns → List Text → Bool
all_text columns [] = true
all_text columns (t ∷ ts) = columns.text t && all_text columns ts

abbrev is_text_or_null : Columns → Option Text → Bool
is_text_or_null columns none = true
is_text_or_null columns (some t) = columns.text t

-- Every other column is a BIGINT or an instant, whose values are in range.
unfoldable pub takes_facts : Columns → RunFacts → Bool
unfolding is_int4
takes_facts columns f =
    columns.jsonb f.egress_json
    && is_int4 f.run_attempt
    && is_text_or_null columns f.job_display_name
    && all_text columns (
        f.commit_sha ∷ f.workflow_name ∷ f.job_workflow_ref ∷ f.branch ∷ f.event_name ∷ f.actor
        ∷ f.workflow_ref ∷ f.workflow_sha ∷ f.job_workflow_sha ∷ f.runner_environment ∷ f.job_key
        ∷ f.runner_name ∷ f.runner_os ∷ f.payload_sha256 ∷ [])
