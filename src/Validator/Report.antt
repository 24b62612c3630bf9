-- ===== src/Validator/Report.antt =====
-- `validate_report`: Scripts/report_validator.py.
use freaky_ocs.Base.{
  String, ◌≡◌, Bool, true, false, Option, none, some, List, [], ◌∷◌, map, arith, refl,
}
use freaky_ocs.Validator.Json.{Value, null, bool, num, str, arr, obj, type_ok}
use freaky_ocs.Validator.Node.{Issue, validate_node, validate_fields, key, NodePath}
use freaky_ocs.Validator.Schema.{schema}
use freaky_ocs.Validator.Conforms.{conforms}
use freaky_ocs.Validator.Soundness.{validate_node-conforms}
use freaky_ocs.Validator.Completeness.{validate_node-accepts}

-- What the file system and `json.load` give for the path: the texts are those of the exceptions.
pub data FileContent : Type 0 where
  no_file : FileContent
  bad_json : String → FileContent
  unreadable : String → FileContent
  content : Value → FileContent

pub data ReportError : Type 0 where
  does_not_exist : ReportError
  invalid_json : String → ReportError
  error_reading : String → ReportError
  node : Issue → ReportError

pub record Verdict : Type 0 where
  pub is_valid : Bool
  pub errors : List ReportError
  pub warnings : List Issue
  pub cleaned_data : Option Value

abbrev rejected : ReportError → Verdict
rejected e = record { is_valid = false; errors = e ∷ []; warnings = []; cleaned_data = none }

abbrev root : NodePath
root = key "Root" ∷ []

-- `len(self.errors) == 0`
abbrev no_errors : List Issue → Bool
no_errors [] = true
no_errors (e ∷ es) = false

unfoldable pub validate_report : FileContent → Verdict
validate_report no_file = rejected does_not_exist
validate_report (bad_json e) = rejected (invalid_json e)
validate_report (unreadable e) = rejected (error_reading e)
validate_report (content v) =
    let w = validate_node v schema root in
    record {
      is_valid = no_errors w.errors;
      errors = map node w.errors;
      warnings = w.warnings;
      cleaned_data = w.cleaned;
    }

no_errors-eq-nil : (es : List Issue) → no_errors es ≡ true → es ≡ []
no_errors-eq-nil [] h = refl
no_errors-eq-nil (e ∷ es) h = cc

-- A value without errors under the schema is an object, and is returned.
cleaned_root :
    (v : Value)
    → (validate_node v schema root).errors ≡ []
    → (c : Value) × ((validate_node v schema root).cleaned ≡ some c)
unfolding validate_node schema type_ok
cleaned_root null h = cc
cleaned_root (bool b) h = cc
cleaned_root (num n) h = cc
cleaned_root (str s) h = cc
cleaned_root (arr xs) h = cc
cleaned_root (obj fs) h = (obj (validate_fields fs schema root).cleaned, refl)

-- A report that is declared valid was read as JSON, has no errors, and its cleaned data conforms to
-- the schema of hardware reports.
pub validate_report_valid :
    (f : FileContent)
    → (validate_report f).is_valid ≡ true
    → (v : Value) × (c : Value) × (f ≡ content v)
      × ((validate_report f).errors ≡ [])
      × ((validate_report f).cleaned_data ≡ some c)
      × (conforms c schema ≡ true)
unfolding validate_report
validate_report_valid no_file h = absurd (ground arith)
validate_report_valid (bad_json e) h = absurd (ground arith)
validate_report_valid (unreadable e) h = absurd (ground arith)
validate_report_valid (content v) h =
    let clean = no_errors-eq-nil (validate_node v schema root).errors h in
    let (c, e) = cleaned_root v clean in
    (v, c, refl, rw clean, e, validate_node-conforms v schema root c clean e)

-- A report whose JSON conforms to the schema is declared valid, without errors or warnings, and its
-- data is returned unchanged.
pub validate_report_accepts :
    (v : Value)
    → conforms v schema ≡ true
    → validate_report (content v)
      ≡ record { is_valid = true; errors = []; warnings = []; cleaned_data = some v }
unfolding validate_report
validate_report_accepts v h = rw (validate_node-accepts v schema root h)
