-- ===== src/Validator/Soundness.antt =====
-- Data that the validator returns without an error conforms to the rule.
use freaky_ocs.Base.{
  ℕ, ◌+◌, String, ◌≡◌, true, Option, none, some, List, [], ◌∷◌, ◌++◌, arith, refl,
}
use freaky_ocs.Validator.Json.{
  Value, null, bool, num, str, arr, obj, Items, nil, cons, Fields, end, field, Rule, Rules,
  no_rules, entry, OptRule, absent, present, schema_of, item_rule, type_ok,
}
use freaky_ocs.Validator.Node.{
  NodePath, key, index, Validated, missing, put_field, put_item, add_field, rule_for, validate_node,
  validate_fields, validate_items,
}
use freaky_ocs.Validator.Conforms.{has_required, conforms, conform_fields, conform_items}

append-eq-nil {ℓ} : {A : Type ℓ} (xs ys : List A) → xs ++ ys ≡ [] → (xs ≡ []) × (ys ≡ [])
append-eq-nil [] ys h = (refl, h)
append-eq-nil (x ∷ xs) ys h = cc

missing-eq-nil :
    (p : NodePath) (rs : Rules) (fs : Fields) → missing p rs fs ≡ [] → has_required rs fs ≡ true
unfolding missing has_required
missing-eq-nil p no_rules fs h = refl
missing-eq-nil p (entry k r rs) fs h = ground (arith, missing-eq-nil p rs fs)

-- A round of the loop over the fields.
field-conforms :
    (o : OptRule) (k : String) (v : Value) (r : Rule) (p : NodePath) (rest : Validated Fields)
    → rule_for k r ≡ o
    → ((s : Rule) (q : NodePath) (c : Value)
        → (validate_node v s q).errors ≡ []
        → (validate_node v s q).cleaned ≡ some c
        → conforms c s ≡ true)
    → (rest.errors ≡ [] → conform_fields rest.cleaned r ≡ true)
    → (add_field o (λ s. validate_node v s (key k ∷ p)) p r k rest).errors ≡ []
    → conform_fields (add_field o (λ s. validate_node v s (key k ∷ p)) p r k rest).cleaned r ≡ true
unfolding conforms
field-conforms absent k v r p rest e node fields h = fields h
field-conforms (present s) k v r p rest e node fields h =
    let w = validate_node v s (key k ∷ p) in
    let (own, others) = append-eq-nil w.errors rest.errors h in
    kept w.cleaned refl own (fields others)
  where
    kept :
        (c : Option Value)
        → (validate_node v s (key k ∷ p)).cleaned ≡ c
        → (validate_node v s (key k ∷ p)).errors ≡ []
        → conform_fields rest.cleaned r ≡ true
        → conform_fields (put_field k c rest.cleaned) r ≡ true
    kept none e' own more = more
    kept (some c) e' own more = ground (arith, node s (key k ∷ p) c own e')

item-conforms :
    (x : Value) (r : Rule) (q : NodePath) (rest : Validated Items)
    → ((c : Value)
        → (validate_node x r q).errors ≡ []
        → (validate_node x r q).cleaned ≡ some c
        → conforms c r ≡ true)
    → (rest.errors ≡ [] → conform_items rest.cleaned (present r) ≡ true)
    → (validate_node x r q).errors ++ rest.errors ≡ []
    → conform_items (put_item (validate_node x r q).cleaned rest.cleaned) (present r) ≡ true
unfolding conforms
item-conforms x r q rest node items h =
    let w = validate_node x r q in
    let (own, others) = append-eq-nil w.errors rest.errors h in
    kept w.cleaned refl own (items others)
  where
    kept :
        (c : Option Value)
        → (validate_node x r q).cleaned ≡ c
        → (validate_node x r q).errors ≡ []
        → conform_items rest.cleaned (present r) ≡ true
        → conform_items (put_item c rest.cleaned) (present r) ≡ true
    kept none e' own more = more
    kept (some c) e' own more = ground (arith, node c own e')

mutual
  unfolding validate_node conforms type_ok

  node-conforms :
      (v : Value) (r : Rule) (p : NodePath) (c : Value)
      → (validate_node v r p).errors ≡ []
      → (validate_node v r p).cleaned ≡ some c
      → conforms c r ≡ true
  node-conforms null r p c h e = ground arith
  node-conforms (bool b) r p c h e = ground arith
  node-conforms (num n) r p c h e = ground arith
  node-conforms (str s) r p c h e = ground arith
  node-conforms (arr xs) r p c h e = ground (arith, items-conform xs (item_rule r) p 0)
  node-conforms (obj fs) r p c h e =
      let w = validate_fields fs r p in
      ground (
        arith,
        append-eq-nil w.errors (missing p (schema_of r) w.cleaned),
        missing-eq-nil p (schema_of r) w.cleaned,
        fields-conform fs r p,
      )

  fields-conform :
      (fs : Fields) (r : Rule) (p : NodePath)
      → (validate_fields fs r p).errors ≡ []
      → conform_fields (validate_fields fs r p).cleaned r ≡ true
  fields-conform end r p h = refl
  fields-conform (field k v fs) r p h =
      field-conforms (rule_for k r) k v r p (validate_fields fs r p) refl
        (λ s q c. node-conforms v s q c) (fields-conform fs r p) h

  items-conform :
      (xs : Items) (o : OptRule) (p : NodePath) (i : ℕ)
      → (validate_items xs o p i).errors ≡ []
      → conform_items (validate_items xs o p i).cleaned o ≡ true
  items-conform xs absent p i h = refl
  items-conform nil (present r) p i h = refl
  items-conform (cons x xs) (present r) p i h =
      item-conforms x r (index i ∷ p) (validate_items xs (present r) p (i + 1))
        (λ c. node-conforms x r (index i ∷ p) c) (items-conform xs (present r) p (i + 1)) h

-- What the validator returns for a value, when it finds no error, conforms to the rule: every part
-- has the type and pattern asked for, every key is known and every required key is there.
pub validate_node-conforms :
    (v : Value) (r : Rule) (p : NodePath) (c : Value)
    → (validate_node v r p).errors ≡ []
    → (validate_node v r p).cleaned ≡ some c
    → conforms c r ≡ true
validate_node-conforms v r p c h e = node-conforms v r p c h e
