-- ===== src/Trigger/Tags.antt =====
-- Terraform Cloud as the keeper of the tags of one workspace: what the queries of go-tfe answer after
-- the calls that added and removed tags. The service is a parameter, and this is what its
-- documentation says of it: a tag is added once, tags are removed by name, and a query answers the
-- tags that contain its text. A call that fails changes nothing.
use tfbuddy.Prelude.{
  ◌≡◌, refl, ap, ◌∙◌, Bool, true, false, not, ◌&&◌, List, [], ◌∷◌, ◌++◌, if◌then◌else◌, any, keep,
  All,
}
use tfbuddy.Text.{Text, text_eq, contains}
use tfbuddy.Effects.{
  Call, World, Answers, Res, ok, err, History, workspaces_add_tags, workspaces_remove_tags,
  workspaces_list_tags,
}
use tfbuddy.Effects.Kinds.{Kind, kind, tagging, untagging}
use mathlib.Core.List.{append_assoc, append-nil}

abbrev pub succeeded : Res (Unit {0}) → Bool
succeeded (ok _) = true
succeeded (err _) = false

abbrev pub is_missing : List Text → Text → Bool
is_missing tags name = not (any (text_eq name) tags)

-- A kind of calls that write no tags.
abbrev pub IsQuiet : Kind → Type 0
IsQuiet tagging = ⊥
IsQuiet untagging = ⊥
IsQuiet _ = Unit

module _ (units : Answers (Unit {0})) (id : Text) where
  -- The tags of the workspace after a call.
  abbrev pub after_call : History → Call → List Text → List Text
  after_call h (workspaces_add_tags i names) tags =
      if text_eq i id && succeeded (units h (workspaces_add_tags i names))
      then tags ++ keep (is_missing tags) names
      else tags
  after_call h (workspaces_remove_tags i names) tags =
      if text_eq i id && succeeded (units h (workspaces_remove_tags i names))
      then keep (is_missing names) tags
      else tags
  after_call h _ tags = tags

  abbrev pub replay : History → List Text → List Call → List Text
  replay h tags [] = tags
  replay h tags (c ∷ cs) = replay (h ++ c ∷ []) (after_call h c tags) cs

  pub replay-append :
      (h : History) (tags : List Text) (cs ds : List Call)
      → replay h tags (cs ++ ds) ≡ replay (h ++ cs) (replay h tags cs) ds
  replay-append h tags [] ds = rw append-nil
  replay-append h tags (c ∷ cs) ds =
      replay-append (h ++ c ∷ []) (after_call h c tags) cs ds
      ∙ ap (λ k. replay k (replay (h ++ c ∷ []) (after_call h c tags) cs) ds)
          (append_assoc h (c ∷ []) cs)

  after_call-IsQuiet :
      (h : History) (c : Call) (tags : List Text) → IsQuiet (kind c) → after_call h c tags ≡ tags
  after_call-IsQuiet h (workspaces_add_tags i names) tags q = absurd q
  after_call-IsQuiet h (workspaces_remove_tags i names) tags q = absurd q
  after_call-IsQuiet h _ tags q = refl

  -- Calls that write no tags leave the tags alone.
  pub replay-IsQuiet :
      (h : History) (tags : List Text) (cs : List Call)
      → All (λ c. IsQuiet (kind c)) cs
      → replay h tags cs ≡ tags
  replay-IsQuiet h tags [] q = refl
  replay-IsQuiet h tags (c ∷ cs) (q, qs) =
      ap (λ ts. replay (h ++ c ∷ []) ts cs) (after_call-IsQuiet h c tags q)
      ∙ replay-IsQuiet (h ++ c ∷ []) tags cs qs

-- The queries on the workspace answer its tags, which were `tags` at first.
abbrev pub KeepsTags : World → Text → List Text → Type 0
KeepsTags w id tags =
    (h : History) (query : Text)
    → w.text_lists h (workspaces_list_tags id query)
      ≡ ok (keep (λ tag. contains tag query) (replay w.units id [] tags h))
