-- ===== src/Telemetry/Issue.antt =====
-- physicalTelemetry/validation.ts: what a check reports.
use kootha.Prelude.{Bool, true, false, List, [], ◌∷◌}
use kootha.Prelude.Json.{Text}

pub data IssueCode : Type 0 where
  required unsupported invalid_type invalid_value out_of_range too_long too_many_items
        unexpected_field :
      IssueCode

pub record ValidationIssue : Type 0 where
  pub path : Text
  pub code : IssueCode

-- `if (wrong) issue(issues, path, code)`.
abbrev pub issue_if : Bool → Text → IssueCode → List ValidationIssue
issue_if true path code = record { path = path; code = code } ∷ []
issue_if false path code = []
