-- ===== src/Project/Triggered.antt =====
-- The workspaces that a merge request triggers, by their directories.
use tfbuddy.Prelude.{
  ◌≡◌, refl, ◌↔◌, ◌⊎◌, inl, inr, Option, none, some, List, [], ◌∷◌, Bool-cases, Any, sym, ◌∙◌,
  subst,
}
use tfbuddy.Text.{Text, text_eq}
use tfbuddy.Text.Laws.{text_eq_iff}
use tfbuddy.Paths.{dir}
use tfbuddy.Types.{TfcWorkspace}
use tfbuddy.Project.Owner.{Owns, workspace_for_dir_iff}
use tfbuddy.Project.Touching.{IsMatched, workspaces_for_trigger_dir_iff}
use tfbuddy.Project.{
  Glob, DirMap, put, values, put_found, put_all, workspaces_for_trigger_dir, workspace_for_dir,
  triggered_from, triggered_workspaces,
}

-- The map holds an entry for the directory.
abbrev HasDir : Text → DirMap → Type 0
HasDir d m = Any (λ (k, v). k ≡ d) m

-- Each workspace stands under its own directory, and no directory stands twice.
abbrev IsProper : DirMap → Type 0
IsProper [] = Unit
IsProper ((k, v) ∷ m) = (v.dir ≡ k) × (¬ HasDir k m) × IsProper m

put-HasDir :
    (k d : Text) (v : TfcWorkspace) (m : DirMap) → HasDir d (put k v m) → (k ≡ d) ⊎ HasDir d m
unfolding put
put-HasDir k d v [] (inl e) = inl e
put-HasDir k d v [] (inr h) = elim h [ ]
put-HasDir k d v ((j, w) ∷ m) h = elim (Bool-cases (text_eq j k)) [
  | inl same ↦ elim (rw same at h) [ inl e ↦ inl e | inr later ↦ inr (inr later) ]
  | inr other ↦ elim (rw other at h) [
    | inl e ↦ inr (inl e)
    | inr later ↦ elim (put-HasDir k d v m later) [ inl e ↦ inl e | inr old ↦ inr (inr old) ]
  ]
]

HasDir-put :
    (k d : Text) (v : TfcWorkspace) (m : DirMap) → (k ≡ d) ⊎ HasDir d m → HasDir d (put k v m)
unfolding put
HasDir-put k d v [] (inl e) = inl e
HasDir-put k d v [] (inr h) = absurd h
HasDir-put k d v ((j, w) ∷ m) h = elim (Bool-cases (text_eq j k)) [
  | inl same ↦ rw same (elim h [
    | inl e ↦ inl e
    | inr (inl e) ↦ inl (sym ((text_eq_iff j k).0 same) ∙ e)
    | inr (inr later) ↦ inr later
  ])
  | inr other ↦ rw other (elim h [
    | inl e ↦ inr (HasDir-put k d v m (inl e))
    | inr (inl e) ↦ inl e
    | inr (inr later) ↦ inr (HasDir-put k d v m (inr later))
  ])
]

put-IsProper : (ws : TfcWorkspace) (m : DirMap) → IsProper m → IsProper (put ws.dir ws m)
unfolding put
put-IsProper ws [] h = (refl, (λ x. x), tt)
put-IsProper ws ((j, w) ∷ m) (e, new, h) = elim (Bool-cases (text_eq j ws.dir)) [
  | inl same ↦
      let k : j ≡ ws.dir = (text_eq_iff j ws.dir).0 same in
      rw same (refl, subst (λ d. ¬ HasDir d m) k new, h)
  | inr other ↦ rw other (
    e,
    (λ x. elim (put-HasDir ws.dir j ws m x) [
      | inl k ↦ absurd (cc ((text_eq_iff j ws.dir).1 (sym k), other))
      | inr old ↦ new old
    ]),
    put-IsProper ws m h,
  )
]

-- A workspace of the list has the directory.
abbrev HasDirOf : Text → List TfcWorkspace → Type 0
HasDirOf d l = Any (λ w. w.dir ≡ d) l

put_all-HasDir_iff :
    (d : Text) (l : List TfcWorkspace) (m : DirMap)
    → HasDir d (put_all l m) ↔ (HasDirOf d l ⊎ HasDir d m)
put_all-HasDir_iff d [] m = (λ h. inr h, λ h. elim h [ inl x ↦ absurd x | inr x ↦ x ])
put_all-HasDir_iff d (w ∷ l) m = (
  λ h. elim ((put_all-HasDir_iff d l (put w.dir w m)).0 h) [
    | inl later ↦ inl (inr later)
    | inr before ↦ elim (put-HasDir w.dir d w m before) [ inl e ↦ inl (inl e) | inr x ↦ inr x ]
  ],
  λ h. (put_all-HasDir_iff d l (put w.dir w m)).1 (elim h [
    | inl (inl e) ↦ inr (HasDir-put w.dir d w m (inl e))
    | inl (inr later) ↦ inl later
    | inr x ↦ inr (HasDir-put w.dir d w m (inr x))
  ]),
)

put_all-IsProper : (l : List TfcWorkspace) (m : DirMap) → IsProper m → IsProper (put_all l m)
put_all-IsProper [] m h = h
put_all-IsProper (w ∷ l) m h = put_all-IsProper l (put w.dir w m) (put-IsProper w m h)

put_found-IsProper : (o : Option TfcWorkspace) (m : DirMap) → IsProper m → IsProper (put_found o m)
put_found-IsProper none m h = h
put_found-IsProper (some w) m h = put-IsProper w m h

-- The file's directory is owned by a workspace of that directory, or a pattern of one matches it.
abbrev pub Touches : Glob → List TfcWorkspace → Text → Text → Type 0
Touches glob workspaces d mf =
    ((w : TfcWorkspace) × Owns (dir mf) workspaces w × (w.dir ≡ d))
    ⊎ Any (λ w. (w.dir ≡ d) × IsMatched glob (dir mf) w.trigger_dirs) workspaces

put_found-HasDir :
    (o : Option TfcWorkspace) (d : Text) (m : DirMap)
    → HasDir d (put_found o m)
    → ((w : TfcWorkspace) × (o ≡ some w) × (w.dir ≡ d)) ⊎ HasDir d m
put_found-HasDir none d m h = inr h
put_found-HasDir (some w) d m h = elim (put-HasDir w.dir d w m h) [
  | inl e ↦ inl (w, refl, e)
  | inr x ↦ inr x
]

HasDir-put_found :
    (o : Option TfcWorkspace) (d : Text) (m : DirMap)
    → ((w : TfcWorkspace) × (o ≡ some w) × (w.dir ≡ d)) ⊎ HasDir d m
    → HasDir d (put_found o m)
HasDir-put_found none d m (inl (w, e, _)) = cc
HasDir-put_found none d m (inr h) = h
HasDir-put_found (some v) d m (inl (w, e, k)) =
    let same : v.dir ≡ w.dir = cc in HasDir-put v.dir d v m (inl (same ∙ k))
HasDir-put_found (some v) d m (inr h) = HasDir-put v.dir d v m (inr h)

module _ (glob : Glob) (workspaces : List TfcWorkspace) where
  triggered_from-IsProper :
      (files : List Text) (m : DirMap)
      → IsProper m
      → IsProper (triggered_from glob workspaces files m)
  unfolding triggered_from
  triggered_from-IsProper [] m h = h
  triggered_from-IsProper (mf ∷ files) m h = triggered_from-IsProper files _ (
      put_all-IsProper (workspaces_for_trigger_dir glob workspaces (dir mf)) _
        (put_found-IsProper (workspace_for_dir workspaces (dir mf)) m h))

  triggered_from-HasDir_iff :
      (d : Text) (files : List Text) (m : DirMap)
      → HasDir d (triggered_from glob workspaces files m)
        ↔ (Any (Touches glob workspaces d) files ⊎ HasDir d m)
  unfolding triggered_from
  triggered_from-HasDir_iff d [] m = (λ h. inr h, λ h. elim h [ inl x ↦ absurd x | inr x ↦ x ])
  triggered_from-HasDir_iff d (mf ∷ files) m =
      let found = workspace_for_dir workspaces (dir mf) in
      let matched = workspaces_for_trigger_dir glob workspaces (dir mf) in
      let later = triggered_from-HasDir_iff d files (put_all matched (put_found found m)) in
      let all = put_all-HasDir_iff d matched (put_found found m) in
      let patterns = workspaces_for_trigger_dir_iff glob (λ w. w.dir ≡ d) (dir mf) workspaces in
      let owner = workspace_for_dir_iff (dir mf) workspaces in
      (
        (λ h. elim (later.0 h) [
          | inl x ↦ inl (inr x)
          | inr x ↦ elim (all.0 x) [
            | inl y ↦ inl (inl (inr (patterns.0 y)))
            | inr y ↦ elim (put_found-HasDir found d m y) [
              | inl (w, e, k) ↦ inl (inl (inl (w, (owner w).0 e, k)))
              | inr z ↦ inr z
            ]
          ]
        ]),
        (λ h. later.1 (elim h [
          | inl (inr x) ↦ inl x
          | inl (inl (inr y)) ↦ inr (all.1 (inl (patterns.1 y)))
          | inl (inl (inl (w, o, k))) ↦
              inr (all.1 (inr (HasDir-put_found found d m (inl (w, (owner w).1 o, k)))))
          | inr z ↦ inr (all.1 (inr (HasDir-put_found found d m (inr z))))
        ])),
      )

HasDir-values : (d : Text) (m : DirMap) → IsProper m → HasDirOf d (values m) ↔ HasDir d m
HasDir-values d [] h = ((λ x. x), λ x. x)
HasDir-values d ((k, v) ∷ m) (e, _, h) =
    let later = HasDir-values d m h in
    (
      (λ x. elim x [ inl y ↦ inl (sym e ∙ y) | inr y ↦ inr (later.0 y) ]),
      (λ x. elim x [ inl y ↦ inl (e ∙ y) | inr y ↦ inr (later.1 y) ]),
    )

-- A directory stands among the triggered workspaces exactly when the directory of a modified file
-- touches it: a workspace of the directory owns it, or has a pattern that matches it. The root of the
-- repository is owned by the first root workspace, where there is one, and all else by the first of the
-- deepest workspaces that fit. A pattern is matched against the file's directory, not the file.
pub triggered_workspaces_iff :
    (glob : Glob) (workspaces : List TfcWorkspace) (files : List Text) (d : Text)
    → Any (λ w. w.dir ≡ d) (triggered_workspaces glob workspaces files)
      ↔ Any (Touches glob workspaces d) files
unfolding triggered_workspaces
triggered_workspaces_iff glob workspaces files d =
    let all = triggered_from-HasDir_iff glob workspaces d files [] in
    let same = HasDir-values d _ (triggered_from-IsProper glob workspaces files [] tt) in
    ((λ h. elim (all.0 (same.0 h)) [ inl x ↦ x | inr x ↦ absurd x ]), (λ h. same.1 (all.1 (inl h))))

-- No two of the list have one directory.
abbrev pub HasDistinctDirs : List TfcWorkspace → Type 0
HasDistinctDirs [] = Unit
HasDistinctDirs (w ∷ l) = (¬ Any (λ v. v.dir ≡ w.dir) l) × HasDistinctDirs l

values-HasDistinctDirs : (m : DirMap) → IsProper m → HasDistinctDirs (values m)
values-HasDistinctDirs [] h = tt
values-HasDistinctDirs ((k, v) ∷ m) (e, new, h) = (
  λ x. new (subst (λ d. HasDir d m) e ((HasDir-values v.dir m h).0 x)),
  values-HasDistinctDirs m h,
)

-- Each directory is triggered once, however many files and patterns touch it, and however many
-- workspaces are configured for it.
pub triggered_workspaces-HasDistinctDirs :
    (glob : Glob) (workspaces : List TfcWorkspace) (files : List Text)
    → HasDistinctDirs (triggered_workspaces glob workspaces files)
unfolding triggered_workspaces
triggered_workspaces-HasDistinctDirs glob workspaces files =
    values-HasDistinctDirs _ (triggered_from-IsProper glob workspaces files [] tt)
