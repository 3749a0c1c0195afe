-- ===== src/Project/Changes.antt =====
-- Which workspaces a list of modified files touches.
use tfbuddy.Prelude.{
  ◌≡◌, refl, ◌↔◌, ◌⊎◌, inl, inr, Bool, true, false, List, [], ◌∷◌, ◌++◌, arith, Bool-cases, Any,
  sym, ◌∙◌,
}
use tfbuddy.Text.{Text}
use tfbuddy.Text.Laws.{text_eq_iff, has_prefix_iff}
use tfbuddy.Paths.{dir, dot}
use tfbuddy.Errors.{Error}
use tfbuddy.Types.{TfcWorkspace}
use tfbuddy.Effects.{Res, ok, err}
use tfbuddy.Project.{
  Glob, trigger_dir_hit, changed_dir, is_root_dir, own_file, has_changes_for_workspace,
}

module _ (glob : Glob) where
  -- The pattern is known not to match, neither the directory nor the file.
  abbrev pub Misses : Text → Text → Type 0
  Misses mf td = (glob td (dir mf) ≡ ok false) × (glob td mf ≡ ok false)

  -- The file is one of the workspace's own: for a root workspace a file directly in the root, for
  -- any other one whose path begins with the workspace's directory.
  abbrev pub IsOwn : Text → Text → Type 0
  IsOwn ws_dir mf =
      ((is_root_dir ws_dir ≡ true) × (dir mf ≡ dot))
      ⊎ ((is_root_dir ws_dir ≡ false) × ((r : Text) × (mf ≡ ws_dir ++ r)))

  -- The file is the workspace's own, or one of its patterns is not known to miss it.
  abbrev pub IsRelevant : TfcWorkspace → Text → Type 0
  IsRelevant ws mf = IsOwn (changed_dir ws.dir) mf ⊎ Any (λ td. ¬ Misses mf td) ws.trigger_dirs

  own_file_iff : (d mf : Text) → (own_file d mf ≡ true) ↔ IsOwn d mf
  unfolding own_file
  own_file_iff d mf = (
    λ h. elim (Bool-cases (is_root_dir d)) [
      | inl root ↦ inl (root, (text_eq_iff (dir mf) dot).0 (rw root at h))
      | inr inner ↦ inr (inner, (has_prefix_iff mf d).0 (rw inner at h))
    ],
    λ p. elim p [
      | inl (root, e) ↦ rw root ((text_eq_iff (dir mf) dot).1 e)
      | inr (inner, e) ↦ rw inner ((has_prefix_iff mf d).1 e)
    ],
  )

  Res-cases : (r : Res Bool) → (r ≡ ok false) ⊎ ((r ≡ ok true) ⊎ ((e : Error) × (r ≡ err e)))
  Res-cases (ok false) = inl refl
  Res-cases (ok true) = inr (inl refl)
  Res-cases (err e) = inr (inr (e, refl))

  hit-miss :
      (mf td : Text) (tds : List Text)
      → Misses mf td
      → trigger_dir_hit glob (dir mf) mf (td ∷ tds) ≡ trigger_dir_hit glob (dir mf) mf tds
  unfolding trigger_dir_hit
  hit-miss mf td tds (on_dir, on_file) = ground (arith, on_dir, on_file)

  hit-first :
      (mf td : Text) (tds : List Text)
      → ¬ Misses mf td
      → trigger_dir_hit glob (dir mf) mf (td ∷ tds) ≡ true
  unfolding trigger_dir_hit
  hit-first mf td tds hit = elim (Res-cases (glob td (dir mf))) [
    | inr (inl e) ↦ ground (arith, e)
    | inr (inr (x, e)) ↦ ground (arith, e)
    | inl on_dir ↦ elim (Res-cases (glob td mf)) [
      | inr (inl e) ↦ ground (arith, on_dir, e)
      | inr (inr (x, e)) ↦ ground (arith, on_dir, e)
      | inl on_file ↦ absurd (hit (on_dir, on_file))
    ]
  ]

  Misses-cases : (mf td : Text) → Misses mf td ⊎ (¬ Misses mf td)
  Misses-cases mf td = elim (Res-cases (glob td (dir mf))) [
    | inr (inl e) ↦ inr (λ (on_dir, on_file). cc (e, on_dir))
    | inr (inr (x, e)) ↦ inr (λ (on_dir, on_file). cc (e, on_dir))
    | inl on_dir ↦ elim (Res-cases (glob td mf)) [
      | inr (inl e) ↦ inr (λ (_, on_file). cc (e, on_file))
      | inr (inr (x, e)) ↦ inr (λ (_, on_file). cc (e, on_file))
      | inl on_file ↦ inl (on_dir, on_file)
    ]
  ]

  trigger_dir_hit_sound :
      (mf : Text) (tds : List Text)
      → trigger_dir_hit glob (dir mf) mf tds ≡ true
      → Any (λ td. ¬ Misses mf td) tds
  unfolding trigger_dir_hit
  trigger_dir_hit_sound mf [] h = cc
  trigger_dir_hit_sound mf (td ∷ tds) h = elim (Misses-cases mf td) [
    | inr hit ↦ inl hit
    | inl miss ↦ inr (trigger_dir_hit_sound mf tds (sym (hit-miss mf td tds miss) ∙ h))
  ]

  trigger_dir_hit_complete :
      (mf : Text) (tds : List Text)
      → Any (λ td. ¬ Misses mf td) tds
      → trigger_dir_hit glob (dir mf) mf tds ≡ true
  trigger_dir_hit_complete mf [] h = absurd h
  trigger_dir_hit_complete mf (td ∷ tds) (inl hit) = hit-first mf td tds hit
  trigger_dir_hit_complete mf (td ∷ tds) (inr later) = elim (Misses-cases mf td) [
    | inr hit ↦ hit-first mf td tds hit
    | inl miss ↦ hit-miss mf td tds miss ∙ trigger_dir_hit_complete mf tds later
  ]

  round_sound :
      (ws : TfcWorkspace) (mf : Text) (files : List Text)
      → has_changes_for_workspace glob ws (mf ∷ files) ≡ true
      → IsRelevant ws mf ⊎ (has_changes_for_workspace glob ws files ≡ true)
  unfolding has_changes_for_workspace
  round_sound ws mf files h = elim (Bool-cases (own_file (changed_dir ws.dir) mf)) [
    | inl own ↦ inl (inl ((own_file_iff _ mf).0 own))
    | inr other ↦ elim (Bool-cases (trigger_dir_hit glob (dir mf) mf ws.trigger_dirs)) [
      | inl hit ↦ inl (inr (trigger_dir_hit_sound mf ws.trigger_dirs hit))
      | inr miss ↦ inr (rw (other, miss) at h)
    ]
  ]

  round_complete :
      (ws : TfcWorkspace) (mf : Text) (files : List Text)
      → IsRelevant ws mf ⊎ (has_changes_for_workspace glob ws files ≡ true)
      → has_changes_for_workspace glob ws (mf ∷ files) ≡ true
  unfolding has_changes_for_workspace
  round_complete ws mf files (inl (inl own)) = rw ((own_file_iff _ mf).1 own)
  round_complete ws mf files (inl (inr hit)) =
      ground (arith, trigger_dir_hit_complete mf ws.trigger_dirs hit)
  round_complete ws mf files (inr later) = ground (arith, later)

  -- A workspace has changes exactly when one of the files is relevant to it: its own, or one that
  -- a pattern of its triggerDirs, matched against the file's directory and against the file, is
  -- not known to miss. A malformed pattern misses nothing.
  pub has_changes_for_workspace_iff :
      (ws : TfcWorkspace) (files : List Text)
      → (has_changes_for_workspace glob ws files ≡ true) ↔ Any (IsRelevant ws) files
  unfolding has_changes_for_workspace
  has_changes_for_workspace_iff ws [] = (λ h. cc, λ h. absurd h)
  has_changes_for_workspace_iff ws (mf ∷ files) = (
    λ h. elim (round_sound ws mf files h) [
      | inl here ↦ inl here
      | inr later ↦ inr ((has_changes_for_workspace_iff ws files).0 later)
    ],
    λ p. elim p [
      | inl here ↦ round_complete ws mf files (inl here)
      | inr later ↦
          round_complete ws mf files (inr ((has_changes_for_workspace_iff ws files).1 later))
    ],
  )
