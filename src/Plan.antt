-- ===== src/Plan.antt =====
-- pkg/terraform_plan/plan_parser.go: the changes of a plan, as they are presented. The decoder of the
-- JSON plan with its tests of actions (terraform-json) and the template are parameters.
pub mod Laws
use tfbuddy.Prelude.{
  ℕ, ◌+◌, Bool, true, false, not, ◌&&◌, ◌||◌, Option, none, some, List, [], ◌∷◌, ◌++◌,
  if◌then◌else◌, is_empty, length, ltb, ◌==◌, tally,
}
use tfbuddy.Text.{Text, text_eq}

pub data Action : Type 0 where
  no_op create read update delete : Action

-- A value of the plan: an object has its fields, each with its value as `%v` prints it, in the order in
-- which they are visited.
pub data Json : Type 0 where
  null : Json
  object : List (Text × Text) → Json
  other : Json

pub record ResourceChange : Type 0 where
  pub address : Text
  pub actions : List Action
  pub importing : Bool
  pub before : Json
  pub after : Json
  pub after_unknown : Json
  pub after_sensitive : Json

-- `ForcesReplacement` is never set.
pub record FieldChange : Type 0 where
  pub field : Text
  pub before : Text
  pub after : Text

pub record PlanTemplateData : Type 0 where
  pub import_count : ℕ
  pub imports : List Text
  pub addition_count : ℕ
  pub additions : List Text
  pub change_count : ℕ
  pub changes : List (Text × List FieldChange)
  pub destruction_count : ℕ
  pub destructions : List Text
  pub replacement_count : ℕ
  pub replacements : List (Text × List FieldChange)
  pub tfc_url : Text

-- The methods of `tfjson.Actions`.
pub record ActionTests : Type 0 where
  pub is_no_op : List Action → Bool
  pub is_create : List Action → Bool
  pub is_update : List Action → Bool
  pub is_delete : List Action → Bool
  pub is_replacement : List Action → Bool

-- `v.(map[string]interface{})`; `none` is its panic.
abbrev pub as_map : Json → Option (List (Text × Text))
as_map (object fields) = some fields
as_map _ = none

abbrev pub as_sensitive : Json → Option (List (Text × Text))
as_sensitive null = some []
as_sensitive v = as_map v

unfoldable pub has_field : Text → List (Text × Text) → Bool
has_field k [] = false
has_field k ((j, v) ∷ fields) = text_eq j k || has_field k fields

abbrev pub creates_or_deletes : Action → Bool
creates_or_deletes create = true
creates_or_deletes delete = true
creates_or_deletes _ = false

unfoldable pub is_replace : List Action → Bool
is_replace actions = if ltb (length actions) 2 then false else tally creates_or_deletes actions == 2

abbrev pub is_first : Action → List Action → Bool
is_first create (create ∷ _) = true
is_first update (update ∷ _) = true
is_first _ _ = false

-- What the switch appends for a field. An empty slice of actions is a panic in the code.
unfoldable pub switched : List Action → FieldChange → List FieldChange
switched actions rc =
    if is_replace actions
    then (if is_empty rc.after then record rc { after = rc.before } else rc) ∷ []
    else (if is_first create actions
        then rc ∷ []
        else (if is_first update actions && not (text_eq rc.before rc.after) then rc ∷ [] else []))

-- A round of the loop: what the field adds to the changes. The first test compares the printed value
-- with itself, as the code does, and the branches before the last add nothing.
unfoldable pub field_changes :
    List Action
    → List (Text × Text)
    → List (Text × Text)
    → List (Text × Text)
    → Text × Text
    → List FieldChange
field_changes actions after sensitive unknown (k, v) =
    if has_field k after && not (text_eq v v)
    then []
    else (if has_field k sensitive
        then []
        else (if has_field k unknown
            then []
            else switched actions (record { field = k; before = v; after = [] })))

unfoldable pub all_field_changes :
    List Action
    → List (Text × Text)
    → List (Text × Text)
    → List (Text × Text)
    → List (Text × Text)
    → List FieldChange
all_field_changes actions after sensitive unknown [] = []
all_field_changes actions after sensitive unknown (kv ∷ fields) =
    field_changes actions after sensitive unknown kv
    ++ all_field_changes actions after sensitive unknown fields

-- The three maps that the code asserts, and the sensitive one; `none` is a panic.
abbrev pub both : {A B : Type 0} → Option A → Option B → Option (A × B)
both (some a) (some b) = some (a, b)
both _ _ = none

abbrev pub changes_of :
    List Action
    → Option ((List (Text × Text) × List (Text × Text)) × (List (Text × Text) × List (Text × Text)))
    → Option (List FieldChange)
changes_of actions none = none
changes_of actions (some ((before, after), (unknown, sensitive))) =
    some (all_field_changes actions after sensitive unknown before)

unfoldable pub process_changes : ResourceChange → Option (List FieldChange)
process_changes chg = changes_of chg.actions (
    both (both (as_map chg.before) (as_map chg.after))
      (both (as_map chg.after_unknown) (as_sensitive chg.after_sensitive)))

-- `m[k] = v`
abbrev pub put :
    Text → List FieldChange → List (Text × List FieldChange) → List (Text × List FieldChange)
put k v [] = (k, v) ∷ []
put k v ((j, w) ∷ m) = if text_eq j k then (k, v) ∷ m else (j, w) ∷ put k v m

abbrev pub import_of : ResourceChange → PlanTemplateData → PlanTemplateData
import_of chg d = record d {
  import_count = d.import_count + 1;
  imports = d.imports ++ chg.address ∷ [];
}

-- The import of a change that may be one too.
abbrev pub maybe_import : ResourceChange → PlanTemplateData → PlanTemplateData
maybe_import chg d = if chg.importing then import_of chg d else d

unfoldable pub changed :
    ResourceChange → PlanTemplateData → Option (List FieldChange) → Option PlanTemplateData
changed chg d none = none
changed chg d (some rows) =
    some (record d { change_count = d.change_count + 1; changes = put chg.address rows d.changes })

unfoldable pub replaced :
    ResourceChange → PlanTemplateData → Option (List FieldChange) → Option PlanTemplateData
replaced chg d none = none
replaced chg d (some rows) = some (record d {
  replacement_count = d.replacement_count + 1;
  replacements = put chg.address rows d.replacements;
})

module _ (tests : ActionTests) where
  -- A round of the loop over the resource changes.
  unfoldable pub present_change : ResourceChange → PlanTemplateData → Option PlanTemplateData
  present_change chg d =
      if tests.is_no_op chg.actions
      then some (maybe_import chg d)
      else (if tests.is_create chg.actions
          then some (record d {
            addition_count = d.addition_count + 1;
            additions = d.additions ++ chg.address ∷ [];
          })
          else (if tests.is_update chg.actions
              then changed chg (maybe_import chg d) (process_changes chg)
              else (if tests.is_delete chg.actions
                  then some (record d {
                    destruction_count = d.destruction_count + 1;
                    destructions = d.destructions ++ chg.address ∷ [];
                  })
                  else (if tests.is_replacement chg.actions
                      then replaced chg (maybe_import chg d) (process_changes chg)
                      else some d))))

  unfoldable pub present_changes : List ResourceChange → PlanTemplateData → Option PlanTemplateData
  present_changes [] d = some d
  present_changes (chg ∷ chgs) d = elim (present_change chg d) [
    | none ↦ none
    | some d' ↦ present_changes chgs d'
  ]

  abbrev pub no_changes : Text → PlanTemplateData
  no_changes url = record {
    import_count = 0;
    imports = [];
    addition_count = 0;
    additions = [];
    change_count = 0;
    changes = [];
    destruction_count = 0;
    destructions = [];
    replacement_count = 0;
    replacements = [];
    tfc_url = url;
  }

  module _ (parse_json_plan : Text → Option (List ResourceChange))
      (render : PlanTemplateData → Text) where
    -- `none` is a panic; a plan that does not parse gives the empty text.
    unfoldable pub present_plan_changes_as_markdown : Text → Text → Option Text
    present_plan_changes_as_markdown b url = elim (parse_json_plan b) [
      | none ↦ some []
      | some chgs ↦ elim (present_changes chgs (no_changes url)) [
        | none ↦ none
        | some d ↦ some (render d)
      ]
    ]
