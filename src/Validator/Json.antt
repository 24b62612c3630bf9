-- ===== src/Validator/Json.antt =====
-- The values that `json.load` makes of a report, and the rules of a schema
-- (Scripts/report_validator.py).
use freaky_ocs.Base.{String, Bool, true, false, Option, none, some, str_eq, if◌then◌else◌}
use freaky_ocs.Validator.Regex.{Regex}

mutual
  -- The keys of an object are distinct.
  pub data Fields : Type 0 where
    end : Fields
    field : String → Value → Fields → Fields

  -- The members of a list.
  pub data Items : Type 0 where
    nil : Items
    cons : Value → Items → Items

  -- A number is kept as its text.
  pub data Value : Type 0 where
    obj : Fields → Value
    arr : Items → Value
    str num : String → Value
    bool : Bool → Value
    null : Value

-- The types that a rule can ask for.
pub data Kind : Type 0 where
  dict text list : Kind

mutual
  -- The keys "type", "pattern", "required", "schema", "values_rule" and "item_rule" of a rule.
  pub data Rule : Type 0 where
    rule : Option Kind → Option Regex → Bool → Rules → OptRule → OptRule → Rule

  pub data Rules : Type 0 where
    no_rules : Rules
    entry : String → Rule → Rules → Rules

  pub data OptRule : Type 0 where
    absent : OptRule
    present : Rule → OptRule

abbrev pub expected_type : Rule → Option Kind
expected_type (rule k p q s v i) = k

abbrev pub pattern_of : Rule → Option Regex
pattern_of (rule k p q s v i) = p

abbrev pub required : Rule → Bool
required (rule k p q s v i) = q

abbrev pub schema_of : Rule → Rules
schema_of (rule k p q s v i) = s

abbrev pub values_rule : Rule → OptRule
values_rule (rule k p q s v i) = v

abbrev pub item_rule : Rule → OptRule
item_rule (rule k p q s v i) = i

-- `schema_keys[key]` if `key in schema_keys`
unfoldable pub lookup_rule : String → Rules → OptRule
lookup_rule k no_rules = absent
lookup_rule k (entry j r rs) = if str_eq j k then present r else lookup_rule k rs

-- `key in cleaned_data`
unfoldable pub has_key : String → Fields → Bool
has_key k end = false
has_key k (field j v fs) = if str_eq j k then true else has_key k fs

-- `isinstance(data, expected_type)`
abbrev pub is_instance : Value → Kind → Bool
is_instance (str s) text = true
is_instance (arr xs) list = true
is_instance (obj fs) dict = true
is_instance _ _ = false

unfoldable pub type_ok : Value → Option Kind → Bool
type_ok v none = true
type_ok v (some k) = is_instance v k

abbrev pub is_present : OptRule → Bool
is_present absent = false
is_present (present r) = true

abbrev pub any_keys : Rules → Bool
any_keys no_rules = false
any_keys (entry k r rs) = true
