-- ===== src/Project/Touching.antt =====
-- Which workspaces a directory touches, described without the loops of the code.
use tfbuddy.Prelude.{
  ◌≡◌, ap, ◌↔◌, ◌⊎◌, inl, inr, Bool, true, List, [], ◌∷◌, ◌++◌, Bool-cases, Any, Any-append_left,
  Any-append_right,
}
use tfbuddy.Text.{Text}
use tfbuddy.Types.{TfcWorkspace}
use tfbuddy.Effects.{Res, ok, err}
use tfbuddy.Project.{Glob, is_match, matches_of, workspaces_for_trigger_dir}

Any-append_cases :
    {A : Type 0} (P : A → Type 0) (xs ys : List A) → Any P (xs ++ ys) → Any P xs ⊎ Any P ys
Any-append_cases P [] ys h = inr h
Any-append_cases P (x ∷ xs) ys (inl p) = inl (inl p)
Any-append_cases P (x ∷ xs) ys (inr h) = elim (Any-append_cases P xs ys h) [
  | inl l ↦ inl (inr l)
  | inr r ↦ inr r
]

-- One of the workspace's patterns matches the directory.
abbrev pub IsMatched : Glob → Text → List Text → Type 0
IsMatched glob d patterns = Any (λ td. glob td d ≡ ok true) patterns

is_match_iff : (r : Res Bool) → (is_match r ≡ true) ↔ (r ≡ ok true)
is_match_iff (ok b) = (λ e. ap ok e, λ e. cc)
is_match_iff (err e) = (λ f. cc, λ f. cc)

module _ (glob : Glob) (P : TfcWorkspace → Type 0) (d : Text) where
  matches_of_iff :
      (ws : TfcWorkspace) (tds : List Text)
      → Any P (matches_of glob ws d tds) ↔ (P ws × IsMatched glob d tds)
  unfolding matches_of
  matches_of_iff ws [] = ((λ h. absurd h), λ (_, h). absurd h)
  matches_of_iff ws (td ∷ tds) =
      let later = matches_of_iff ws tds in
      let here = is_match_iff (glob td d) in
      elim (Bool-cases (is_match (glob td d))) [
        | inl m ↦ rw m (
          (λ h. elim h [
            | inl p ↦ (p, inl (here.0 m))
            | inr x ↦ ((later.0 x).0, inr (later.0 x).1)
          ]),
          λ (p, _). inl p,
        )
        | inr m ↦ rw m (
          (λ x. ((later.0 x).0, inr (later.0 x).1)),
          λ (p, h). elim h [ inl e ↦ absurd (cc (here.1 e, m)) | inr x ↦ later.1 (p, x) ],
        )
      ]

  -- The workspaces of the trigger directories are those with a pattern that matches.
  pub workspaces_for_trigger_dir_iff :
      (workspaces : List TfcWorkspace)
      → Any P (workspaces_for_trigger_dir glob workspaces d)
        ↔ Any (λ w. P w × IsMatched glob d w.trigger_dirs) workspaces
  unfolding workspaces_for_trigger_dir
  workspaces_for_trigger_dir_iff [] = ((λ h. h), λ h. h)
  workspaces_for_trigger_dir_iff (ws ∷ rest) =
      let here = matches_of_iff ws ws.trigger_dirs in
      let later = workspaces_for_trigger_dir_iff rest in
      (
        (λ h. elim (Any-append_cases P (matches_of glob ws d ws.trigger_dirs) _ h) [
          | inl x ↦ inl (here.0 x)
          | inr x ↦ inr (later.0 x)
        ]),
        (λ h. elim h [
          | inl x ↦ Any-append_left P (matches_of glob ws d ws.trigger_dirs) _ (here.1 x)
          | inr x ↦ Any-append_right P (matches_of glob ws d ws.trigger_dirs) _ (later.1 x)
        ]),
      )
