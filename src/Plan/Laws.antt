-- ===== src/Plan/Laws.antt =====
-- What the presentation of a plan tells, and what it leaves out.
use tfbuddy.Prelude.{
  ◌≡◌, refl, ap, ◌∙◌, Bool, not, ◌&&◌, ◌||◌, some, List, [], ◌∷◌, ◌++◌, map, if◌then◌else◌,
  is_empty, length, length-append, keep, arith, append_assoc, append-nil, Option-cases, inl, inr,
}
use tfbuddy.Text.{Text, text_eq}
use tfbuddy.Text.Laws.{text_eq_refl}
use tfbuddy.Plan.{
  update, ResourceChange, FieldChange, PlanTemplateData, ActionTests, as_map, as_sensitive,
  has_field, is_replace, switched, field_changes, all_field_changes, process_changes, changed,
  replaced, present_change, present_changes, no_changes,
}

-- A field whose value is neither sensitive nor known only after the apply, and prints as some text.
abbrev pub is_shown : List (Text × Text) → List (Text × Text) → Text × Text → Bool
is_shown sensitive unknown (k, v) =
    not (has_field k sensitive) && not (has_field k unknown) && not (is_empty v)

-- The row of a field: its old value, and no new one.
abbrev pub old_row : Text × Text → FieldChange
old_row (k, v) = record { field = k; before = v; after = [] }

empty_text_eq : (v : Text) → text_eq v [] ≡ is_empty v
unfolding text_eq
empty_text_eq [] = refl
empty_text_eq (c ∷ v) = refl

field_changes-update :
    (after sensitive unknown : List (Text × Text)) (k v : Text)
    → field_changes (update ∷ []) after sensitive unknown (k, v)
      ≡ (if is_shown sensitive unknown (k, v) then old_row (k, v) ∷ [] else [])
unfolding field_changes switched is_replace
field_changes-update after sensitive unknown k v = ground (arith, text_eq_refl v, empty_text_eq v)

all_field_changes-update :
    (after sensitive unknown fields : List (Text × Text))
    → all_field_changes (update ∷ []) after sensitive unknown fields
      ≡ map old_row (keep (is_shown sensitive unknown) fields)
unfolding all_field_changes
all_field_changes-update after sensitive unknown [] = refl
all_field_changes-update after sensitive unknown ((k, v) ∷ fields) = ground (
  arith,
  field_changes-update after sensitive unknown k v,
  all_field_changes-update after sensitive unknown fields,
)

-- The changes of a resource that is updated are the old values of the fields that it had, whether or
-- not they change, but for those that are sensitive, known only after the apply, or empty; no new value
-- is ever shown. The four values are maps, or nothing is sensitive.
pub process_changes-update :
    (chg : ResourceChange) (before after unknown sensitive : List (Text × Text))
    → chg.actions ≡ update ∷ []
    → as_map chg.before ≡ some before
    → as_map chg.after ≡ some after
    → as_map chg.after_unknown ≡ some unknown
    → as_sensitive chg.after_sensitive ≡ some sensitive
    → process_changes chg ≡ some (map old_row (keep (is_shown sensitive unknown) before))
unfolding process_changes
process_changes-update chg before after unknown sensitive a b c d e =
    rw (a, b, c, d, e) (rw (all_field_changes-update after sensitive unknown before))

module _ (tests : ActionTests) where
  -- Which list a resource change stands in: the tests are made in this order.
  abbrev pub creates : ResourceChange → Bool
  creates chg = not (tests.is_no_op chg.actions) && tests.is_create chg.actions

  abbrev pub deletes : ResourceChange → Bool
  deletes chg =
      not (tests.is_no_op chg.actions)
      && not (tests.is_create chg.actions)
      && not (tests.is_update chg.actions)
      && tests.is_delete chg.actions

  -- An import stands for itself, or comes with an update or a replacement.
  abbrev pub is_imported : ResourceChange → Bool
  is_imported chg =
      chg.importing
      && (tests.is_no_op chg.actions
          || (not (tests.is_create chg.actions)
              && (tests.is_update chg.actions
                  || (not (tests.is_delete chg.actions) && tests.is_replacement chg.actions))))

  abbrev pub addresses : (ResourceChange → Bool) → List ResourceChange → List Text
  addresses p [] = []
  addresses p (chg ∷ chgs) = (if p chg then chg.address ∷ [] else []) ++ addresses p chgs

  -- `d'` has the addresses of `chgs` behind those of `d`, and as many more.
  abbrev Tells : List ResourceChange → PlanTemplateData → PlanTemplateData → Type 0
  Tells chgs d d' =
      (d'.additions ≡ d.additions ++ addresses creates chgs)
      × (d'.destructions ≡ d.destructions ++ addresses deletes chgs)
      × (d'.imports ≡ d.imports ++ addresses is_imported chgs)

  abbrev pub IsCounted : PlanTemplateData → Type 0
  IsCounted d =
      (d.addition_count ≡ length d.additions)
      × (d.destruction_count ≡ length d.destructions)
      × (d.import_count ≡ length d.imports)

  present_change-Tells :
      (chg : ResourceChange) (d d' : PlanTemplateData)
      → present_change tests chg d ≡ some d'
      → Tells (chg ∷ []) d d'
  unfolding present_change changed replaced
  present_change-Tells chg d d' e =
      ground (arith, append-nil d.additions, append-nil d.destructions, append-nil d.imports)

  present_change-IsCounted :
      (chg : ResourceChange) (d d' : PlanTemplateData)
      → present_change tests chg d ≡ some d'
      → IsCounted d
      → IsCounted d'
  unfolding present_change changed replaced
  present_change-IsCounted chg d d' e c = ground (
    arith,
    length-append d.additions (chg.address ∷ []),
    length-append d.destructions (chg.address ∷ []),
    length-append d.imports (chg.address ∷ []),
  )

  addresses-cons :
      (p : ResourceChange → Bool) (xs : List Text) (chg : ResourceChange)
      (chgs : List ResourceChange)
      → (xs ++ addresses p (chg ∷ [])) ++ addresses p chgs ≡ xs ++ addresses p (chg ∷ chgs)
  addresses-cons p xs chg chgs =
      ground (arith, append_assoc xs (chg.address ∷ []) (addresses p chgs), append-nil xs)

  later :
      (chg : ResourceChange) (chgs : List ResourceChange) (d d1 d' : PlanTemplateData)
      → present_change tests chg d ≡ some d1
      → present_changes tests (chg ∷ chgs) d ≡ some d'
      → present_changes tests chgs d1 ≡ some d'
  unfolding present_changes
  later chg chgs d d1 d' f e = rw (f, present_changes) at e

  present_changes-Tells :
      (chgs : List ResourceChange) (d d' : PlanTemplateData)
      → present_changes tests chgs d ≡ some d'
      → IsCounted d
      → Tells chgs d d' × IsCounted d'
  unfolding present_changes
  present_changes-Tells [] d d' e c =
      ground (arith, append-nil d.additions, append-nil d.destructions, append-nil d.imports)
  present_changes-Tells (chg ∷ chgs) d d' e c = elim (Option-cases (present_change tests chg d)) [
    | inl n ↦ ground (arith, e, n)
    | inr (d1, f) ↦
        let (a, b, i) = present_change-Tells chg d d1 f in
        let ((a', b', i'), c') =
          present_changes-Tells chgs d1 d' (later chg chgs d d1 d' f e)
            (present_change-IsCounted chg d d1 f c) in
        (
          (
            a'
                ∙ ap (λ xs. xs ++ addresses creates chgs) a
                ∙ addresses-cons creates d.additions chg chgs,
            b'
                ∙ ap (λ xs. xs ++ addresses deletes chgs) b
                ∙ addresses-cons deletes d.destructions chg chgs,
            i'
                ∙ ap (λ xs. xs ++ addresses is_imported chgs) i
                ∙ addresses-cons is_imported d.imports chg chgs,
          ),
          c',
        )
  ]

  -- Where no value panics, the presented plan lists as additions, as destructions and as imports the
  -- addresses of the resource changes of that kind, in their order, and counts them.
  pub present_changes-lists :
      (chgs : List ResourceChange) (url : Text) (d : PlanTemplateData)
      → present_changes tests chgs (no_changes tests url) ≡ some d
      → (d.additions ≡ addresses creates chgs)
        × (d.destructions ≡ addresses deletes chgs)
        × (d.imports ≡ addresses is_imported chgs)
        × IsCounted d
  present_changes-lists chgs url d e =
      let ((a, b, i), c) =
        present_changes-Tells chgs (no_changes tests url) d e (refl, refl, refl) in
      (a, b, i, c)
