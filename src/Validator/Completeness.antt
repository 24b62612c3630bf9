-- ===== src/Validator/Completeness.antt =====
-- The validator accepts data that conforms, and changes nothing in it.
use freaky_ocs.Base.{ℕ, ◌+◌, String, ◌≡◌, true, some, [], ◌∷◌, arith, refl, and_true}
use freaky_ocs.Validator.Json.{
  Value, null, bool, num, str, arr, obj, Items, nil, cons, Fields, end, field, Rule, Rules,
  no_rules, entry, OptRule, absent, present, schema_of, item_rule, type_ok,
}
use freaky_ocs.Validator.Node.{
  NodePath, key, index, validated, missing, add_field, rule_for, validate_node, validate_fields,
  validate_items,
}
use freaky_ocs.Validator.Conforms.{has_required, conforms, conform_fields, conform_items, by_rule}
use freaky_ocs.Validator.Soundness.{validate_node-conforms}

missing_of_has_required :
    (p : NodePath) (rs : Rules) (fs : Fields) → has_required rs fs ≡ true → missing p rs fs ≡ []
unfolding missing has_required
missing_of_has_required p no_rules fs h = refl
missing_of_has_required p (entry k r rs) fs h = ground (arith, missing_of_has_required p rs fs)

-- A round of the loop over the fields.
field-accepted :
    (o : OptRule) (k : String) (v : Value) (r : Rule) (p : NodePath) (fs : Fields)
    → ((s : Rule) → conforms v s ≡ true → validate_node v s (key k ∷ p) ≡ validated (some v) [] [])
    → by_rule o (λ s. conforms v s) ≡ true
    → add_field o (λ s. validate_node v s (key k ∷ p)) p r k (validated fs [] [])
      ≡ validated (field k v fs) [] []
field-accepted absent k v r p fs node h = cc
field-accepted (present s) k v r p fs node h = rw (node s h)

mutual
  unfolding validate_node conforms type_ok

  node-accepted :
      (v : Value) (r : Rule) (p : NodePath)
      → conforms v r ≡ true
      → validate_node v r p ≡ validated (some v) [] []
  node-accepted null r p h = cc
  node-accepted (bool b) r p h = ground arith
  node-accepted (num n) r p h = ground arith
  node-accepted (str s) r p h = ground arith
  node-accepted (arr xs) r p h = ground (arith, items-accepted xs (item_rule r) p 0)
  node-accepted (obj fs) r p h =
      ground (arith, fields-accepted fs r p, missing_of_has_required p (schema_of r) fs)

  fields-accepted :
      (fs : Fields) (r : Rule) (p : NodePath)
      → conform_fields fs r ≡ true
      → validate_fields fs r p ≡ validated fs [] []
  fields-accepted end r p h = refl
  fields-accepted (field k v fs) r p h =
      let (own, others) =
        and_true (by_rule (rule_for k r) (λ s. conforms v s)) (conform_fields fs r) h in
      rw (fields-accepted fs r p others)
        (field-accepted (rule_for k r) k v r p fs (λ s. node-accepted v s (key k ∷ p)) own)

  items-accepted :
      (xs : Items) (o : OptRule) (p : NodePath) (i : ℕ)
      → conform_items xs o ≡ true
      → validate_items xs o p i ≡ validated xs [] []
  items-accepted xs absent p i h = refl
  items-accepted nil (present r) p i h = refl
  items-accepted (cons x xs) (present r) p i h =
      let (own, others) = and_true (conforms x r) (conform_items xs (present r)) h in
      rw (node-accepted x r (index i ∷ p) own, items-accepted xs (present r) p (i + 1) others)

-- A value that conforms to the rule is returned as it is, without an error or a warning.
pub validate_node-accepts :
    (v : Value) (r : Rule) (p : NodePath)
    → conforms v r ≡ true
    → validate_node v r p ≡ validated (some v) [] []
validate_node-accepts v r p h = node-accepted v r p h

-- Validating what the validator returned without an error returns the same data once more, without
-- an error and without a warning.
pub validate_node_idem :
    (v : Value) (r : Rule) (p q : NodePath) (c : Value)
    → (validate_node v r p).errors ≡ []
    → (validate_node v r p).cleaned ≡ some c
    → validate_node c r q ≡ validated (some c) [] []
validate_node_idem v r p q c h e = validate_node-accepts c r q (validate_node-conforms v r p c h e)
