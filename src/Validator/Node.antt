-- ===== src/Validator/Node.antt =====
-- `_validate_node`: Scripts/report_validator.py. Errors and warnings are values, with the place in
-- the report as a list of steps, innermost first, in place of formatted text.
use freaky_ocs.Base.{ℕ, ◌+◌, String, Bool, Option, none, some, List, [], ◌∷◌, ◌++◌, if◌then◌else◌}
use freaky_ocs.Validator.Regex.{Regex, matches, not_empty}
use freaky_ocs.Validator.Json.{
  Value, null, bool, num, str, arr, obj, Items, nil, cons, Fields, end, field, Kind, Rule, Rules,
  no_rules, entry, OptRule, absent, present, expected_type, pattern_of, required, schema_of,
  values_rule, item_rule, lookup_rule, has_key, type_ok, any_keys,
}

pub data Place : Type 0 where
  key : String → Place
  index : ℕ → Place

abbrev pub NodePath : Type 0
NodePath = List Place

pub data Issue : Type 0 where
  wrong_type : NodePath → Kind → Value → Issue
  no_match : NodePath → String → Issue
  missing_key : NodePath → String → Issue
  unknown_key : NodePath → String → Issue

-- What a call returns, with what it adds to `self.errors` and `self.warnings`.
pub record Validated {ℓ} (A : Type ℓ) : Type ℓ where
  pub cleaned : A
  pub errors : List Issue
  pub warnings : List Issue

abbrev pub validated {ℓ} : {A : Type ℓ} → A → List Issue → List Issue → Validated A
validated a es ws = record { cleaned = a; errors = es; warnings = ws }

-- The value that a node without errors of its own returns: `None` is dropped by the caller.
abbrev pub unless_null : Value → Option Value
unless_null null = none
unless_null v = some v

-- The pattern of the rule, or that the text is not empty.
unfoldable pub text_ok : Option Regex → String → Bool
text_ok none s = not_empty s
text_ok (some p) s = matches p s

-- The loop over the required keys.
unfoldable pub missing : NodePath → Rules → Fields → List Issue
missing p no_rules fs = []
missing p (entry k r rs) fs =
    let rest = missing p rs fs in
    if required r then (if has_key k fs then rest else missing_key p k ∷ rest) else rest

-- `if cleaned_val is not None: cleaned_data[key] = cleaned_val`
abbrev pub put_field : String → Option Value → Fields → Fields
put_field k none fs = fs
put_field k (some v) fs = field k v fs

abbrev pub put_item : Option Value → Items → Items
put_item none xs = xs
put_item (some v) xs = cons v xs

-- The rule for the value of a key: the schema's, or else the one for all values.
unfoldable pub rule_for : String → Rule → OptRule
unfolding lookup_rule
rule_for k r = elim (lookup_rule k (schema_of r)) [ present s ↦ present s | absent ↦ values_rule r ]

abbrev unknown : NodePath → Rule → String → List Issue
unknown p r k = if any_keys (schema_of r) then unknown_key p k ∷ [] else []

abbrev wrap_obj : Rule → NodePath → Validated Fields → Validated (Option Value)
wrap_obj r p w =
    validated (some (obj w.cleaned)) (w.errors ++ missing p (schema_of r) w.cleaned) w.warnings

abbrev wrap_arr : Validated Items → Validated (Option Value)
wrap_arr w = validated (some (arr w.cleaned)) w.errors w.warnings

abbrev wrong : Value → Rule → NodePath → Validated (Option Value)
wrong v r p = elim (expected_type r) [
  | none ↦ validated none [] []
  | some k ↦ validated none (wrong_type p k v ∷ []) []
]

-- A value with no parts that is not a text.
abbrev leaf : Value → Rule → NodePath → Validated (Option Value)
leaf v r p = if type_ok v (expected_type r) then validated (unless_null v) [] [] else wrong v r p

-- One round of the loop over `data.items()`, with the check of the value and the other rounds.
abbrev pub add_field :
    OptRule
    → (Rule → Validated (Option Value))
    → NodePath
    → Rule
    → String
    → Validated Fields
    → Validated Fields
add_field (present s) check p r k rest =
    let w = check s in
    validated (put_field k w.cleaned rest.cleaned) (w.errors ++ rest.errors)
      (w.warnings ++ rest.warnings)
add_field absent check p r k rest =
    validated rest.cleaned rest.errors (unknown p r k ++ rest.warnings)

unfoldable mutual
  pub validate_node : Value → Rule → NodePath → Validated (Option Value)
  validate_node null r p = leaf null r p
  validate_node (bool b) r p = leaf (bool b) r p
  validate_node (num n) r p = leaf (num n) r p
  validate_node (str s) r p =
      if type_ok (str s) (expected_type r)
      then if text_ok (pattern_of r) s
        then validated (some (str s)) [] []
        else validated none (no_match p s ∷ []) []
      else wrong (str s) r p
  validate_node (arr xs) r p =
      let inner = validate_items xs (item_rule r) p 0 in
      if type_ok (arr xs) (expected_type r) then wrap_arr inner else wrong (arr xs) r p
  validate_node (obj fs) r p =
      let inner = validate_fields fs r p in
      if type_ok (obj fs) (expected_type r) then wrap_obj r p inner else wrong (obj fs) r p

  -- The loop over `data.items()`.
  pub validate_fields : Fields → Rule → NodePath → Validated Fields
  validate_fields end r p = validated end [] []
  validate_fields (field k v fs) r p =
      add_field (rule_for k r) (λ s. validate_node v s (key k ∷ p)) p r k (validate_fields fs r p)

  -- The loop over a list, from the index `i`. With no rule for the items the list is copied.
  pub validate_items : Items → OptRule → NodePath → ℕ → Validated Items
  validate_items xs absent p i = validated xs [] []
  validate_items nil (present r) p i = validated nil [] []
  validate_items (cons x xs) (present r) p i =
      let w = validate_node x r (index i ∷ p) in
      let rest = validate_items xs (present r) p (i + 1) in
      validated (put_item w.cleaned rest.cleaned) (w.errors ++ rest.errors)
        (w.warnings ++ rest.warnings)
