-- ===== src/Validator/Conforms.antt =====
-- What the validator promises of the data that it returns, told without its error lists.
use freaky_ocs.Base.{Bool, true, false, ◌&&◌, if◌then◌else◌}
use freaky_ocs.Validator.Json.{
  Value, null, bool, num, str, arr, obj, Items, nil, cons, Fields, end, field, Rule, Rules,
  no_rules, entry, OptRule, absent, present, expected_type, pattern_of, required, schema_of,
  item_rule, has_key, type_ok,
}
use freaky_ocs.Validator.Node.{text_ok, rule_for}

-- Every required key is there.
unfoldable pub has_required : Rules → Fields → Bool
has_required no_rules fs = true
has_required (entry k r rs) fs = (if required r then has_key k fs else true) && has_required rs fs

abbrev pub by_rule : OptRule → (Rule → Bool) → Bool
by_rule (present s) check = check s
by_rule absent check = false

unfoldable mutual
  -- The value has the type and the pattern that the rule asks for, its parts conform to their
  -- rules, no key is unknown and no required key is missing.
  pub conforms : Value → Rule → Bool
  conforms null r = false
  conforms (bool b) r = type_ok (bool b) (expected_type r)
  conforms (num n) r = type_ok (num n) (expected_type r)
  conforms (str s) r = type_ok (str s) (expected_type r) && text_ok (pattern_of r) s
  conforms (arr xs) r = type_ok (arr xs) (expected_type r) && conform_items xs (item_rule r)
  conforms (obj fs) r =
      type_ok (obj fs) (expected_type r) && (has_required (schema_of r) fs && conform_fields fs r)

  pub conform_fields : Fields → Rule → Bool
  conform_fields end r = true
  conform_fields (field k v fs) r =
      by_rule (rule_for k r) (λ s. conforms v s) && conform_fields fs r

  pub conform_items : Items → OptRule → Bool
  conform_items xs absent = true
  conform_items nil (present r) = true
  conform_items (cons x xs) (present r) = conforms x r && conform_items xs (present r)
