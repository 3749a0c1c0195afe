-- ===== src/Project/Owner.antt =====
-- The workspace that a directory belongs to, described without the loop of the code.
use tfbuddy.Prelude.{
  ℕ, ◌<◌, ◌≤◌, ◌≡◌, refl, ap, ◌↔◌, ◌⊎◌, inl, inr, true, false, Option, none, some, List, [], ◌∷◌,
  ltb, ◌&&◌, arith, Bool-cases, All, and_parts, sym, ◌∙◌, subst,
}
use tfbuddy.Text.{Text, text_eq}
use tfbuddy.Text.Laws.{text_eq_iff, text_eq_refl}
use tfbuddy.Paths.{dot}
use tfbuddy.Types.{TfcWorkspace}
use tfbuddy.Project.{with_slash, dir_matches, workspace_from, workspace_for_dir}
use tfbuddy.Project.Dirs.{
  is_root, Fits, depth_of, NoDeeper, round_root, round_skip, round_take, fails_shallow, depth-pos,
}

-- The first root workspace of the list.
abbrev pub IsFirstRoot : List TfcWorkspace → TfcWorkspace → Type 0
IsFirstRoot [] w = ⊥
IsFirstRoot (ws ∷ l) w = ((is_root ws ≡ true) × (ws ≡ w)) ⊎ ((is_root ws ≡ false) × IsFirstRoot l w)

-- The first of the deepest workspaces that fit the directory.
abbrev pub IsFirstDeepest : Text → List TfcWorkspace → TfcWorkspace → Type 0
IsFirstDeepest d [] w = ⊥
IsFirstDeepest d (ws ∷ l) w =
    ((ws ≡ w) × Fits d ws × NoDeeper d (depth_of ws) l)
    ⊎ (IsFirstDeepest d l w × (Fits d ws → depth_of ws < depth_of w))

-- The directory of the repository itself belongs to the first root workspace, if there is one; any
-- other one belongs to the first of the deepest that fit it.
abbrev pub Owns : Text → List TfcWorkspace → TfcWorkspace → Type 0
Owns d l w =
    ((d ≡ dot) × IsFirstRoot l w)
    ⊎ (((d ≡ dot) → All (λ ws. is_root ws ≡ false) l) × IsFirstDeepest d l w)

IsFirstDeepest-le :
    (d : Text) (k : ℕ) (l : List TfcWorkspace) (w : TfcWorkspace)
    → IsFirstDeepest d l w
    → NoDeeper d k l
    → depth_of w ≤ k
IsFirstDeepest-le d k [] w h n = absurd h
IsFirstDeepest-le d k (ws ∷ l) w (inl (e, f, _)) (p, n) = subst (λ v. depth_of v ≤ k) e (p f)
IsFirstDeepest-le d k (ws ∷ l) w (inr (h, _)) (p, n) = IsFirstDeepest-le d k l w h n

first_deepest_unique :
    (d : Text) (l : List TfcWorkspace) (v w : TfcWorkspace)
    → IsFirstDeepest d l v
    → IsFirstDeepest d l w
    → v ≡ w
first_deepest_unique d [] v w h g = absurd h
first_deepest_unique d (ws ∷ l) v w (inl (e, _, _)) (inl (e', _, _)) = sym e ∙ e'
first_deepest_unique d (ws ∷ l) v w (inl (_, f, n)) (inr (g, lt)) =
    let le = IsFirstDeepest-le d (depth_of ws) l w g n in let less = lt f in absurd (omega arith)
first_deepest_unique d (ws ∷ l) v w (inr (g, lt)) (inl (_, f, n)) =
    let le = IsFirstDeepest-le d (depth_of ws) l v g n in let less = lt f in absurd (omega arith)
first_deepest_unique d (ws ∷ l) v w (inr (h, _)) (inr (g, _)) = first_deepest_unique d l v w h g

-- What the loop returns: the workspace that it came with, or the first of the deeper ones.
abbrev Found : Text → Option TfcWorkspace → ℕ → List TfcWorkspace → Option TfcWorkspace → Type 0
Found d m k l r =
    ((r ≡ m) × NoDeeper d k l)
    ⊎ ((w : TfcWorkspace) × (r ≡ some w) × IsFirstDeepest d l w × (k < depth_of w))

module _ (d : Text) (m : Option TfcWorkspace) (k : ℕ) (ws : TfcWorkspace) (l : List TfcWorkspace)
    (r : Option TfcWorkspace) where
  passed : (Fits d ws → depth_of ws ≤ k) → Found d m k l r → Found d m k (ws ∷ l) r
  passed p (inl (e, h)) = inl (e, (p, h))
  passed p (inr (w, e, h, lt)) = inr (w, e, inr (h, λ f. (let q = p f in omega arith)), lt)

  taken : Fits d ws → k < depth_of ws → Found d (some ws) (depth_of ws) l r → Found d m k (ws ∷ l) r
  taken f lt (inl (e, h)) = inr (ws, e, inl (refl, f, h), lt)
  taken f lt (inr (w, e, h, lt')) = inr (w, e, inr (h, λ _. lt'), omega arith)

workspace_from-Found :
    (d : Text) (m : Option TfcWorkspace) (k : ℕ) (l : List TfcWorkspace)
    → ((d ≡ dot) → All (λ ws. is_root ws ≡ false) l)
    → Found d m k l (workspace_from d m k l)
unfolding workspace_from
workspace_from-Found d m k [] nr = inl (refl, tt)
workspace_from-Found d m k (ws ∷ l) nr =
    let next = λ (p : Fits d ws → depth_of ws ≤ k).
      passed d m k ws l _ p (workspace_from-Found d m k l (λ e. (nr e).1)) in
    elim (Bool-cases (is_root ws)) [
      | inl root ↦ elim (Bool-cases (text_eq d dot)) [
        | inl here ↦ absurd (cc (root, (nr ((text_eq_iff d dot).0 here)).0))
        | inr elsewhere ↦
            subst (Found d m k (ws ∷ l)) (sym (round_root d m k ws l root elsewhere))
              (next (λ (inner, _). cc (root, inner)))
      ]
      | inr inner ↦ elim (Bool-cases (dir_matches (with_slash ws.dir) d && ltb k (depth_of ws))) [
        | inr fails ↦
            subst (Found d m k (ws ∷ l)) (sym (round_skip d m k ws l inner fails))
              (next (fails_shallow d m k ws l fails))
        | inl passes ↦
            let (fits, deeper) = and_parts (dir_matches _ d) (ltb k (depth_of ws)) passes in
            subst (Found d m k (ws ∷ l)) (sym (round_take d m k ws l (inner, fits) deeper)) (
              taken d m k ws l _ (inner, fits) (ground (arith, deeper))
                (workspace_from-Found d (some ws) (depth_of ws) l (λ e. (nr e).1)))
      ]
    ]

workspace_from-first_root :
    (m : Option TfcWorkspace) (k : ℕ) (l : List TfcWorkspace) (w : TfcWorkspace)
    → IsFirstRoot l w
    → workspace_from dot m k l ≡ some w
unfolding workspace_from
workspace_from-first_root m k [] w h = absurd h
workspace_from-first_root m k (ws ∷ l) w (inl (root, e)) = rw (root, text_eq_refl dot) (ap some e)
workspace_from-first_root m k (ws ∷ l) w (inr (inner, h)) =
    elim (Bool-cases (dir_matches (with_slash ws.dir) dot && ltb k (depth_of ws))) [
      | inr fails ↦ round_skip dot m k ws l inner fails ∙ workspace_from-first_root m k l w h
      | inl passes ↦
          let (fits, deeper) = and_parts (dir_matches _ dot) (ltb k (depth_of ws)) passes in
          round_take dot m k ws l (inner, fits) deeper
          ∙ workspace_from-first_root (some ws) (depth_of ws) l w h
    ]

IsFirstRoot-cases :
    (l : List TfcWorkspace)
    → All (λ ws. is_root ws ≡ false) l ⊎ ((w : TfcWorkspace) × IsFirstRoot l w)
IsFirstRoot-cases [] = inl tt
IsFirstRoot-cases (ws ∷ l) = elim (Bool-cases (is_root ws)) [
  | inl root ↦ inr (ws, inl (root, refl))
  | inr inner ↦ elim (IsFirstRoot-cases l) [
    | inl none_left ↦ inl (inner, none_left)
    | inr (w, h) ↦ inr (w, inr (inner, h))
  ]
]

module _ (d : Text) (l : List TfcWorkspace) (w : TfcWorkspace) where
  deepest-found :
      ((d ≡ dot) → All (λ ws. is_root ws ≡ false) l)
      → workspace_for_dir l d ≡ some w
      → IsFirstDeepest d l w
  unfolding workspace_for_dir
  deepest-found nr e = elim (workspace_from-Found d none 0 l nr) [
    | inl (f, _) ↦ absurd (let g : none ≡ some w = sym f ∙ e in cc)
    | inr (v, f, h, _) ↦
        let g : v ≡ w = (let o : some v ≡ some w = sym f ∙ e in cc) in
        subst (IsFirstDeepest d l) g h
  ]

  found-deepest :
      ((d ≡ dot) → All (λ ws. is_root ws ≡ false) l)
      → IsFirstDeepest d l w
      → workspace_for_dir l d ≡ some w
  unfolding workspace_for_dir
  found-deepest nr h = elim (workspace_from-Found d none 0 l nr) [
    | inl (_, n) ↦
        let le = IsFirstDeepest-le d 0 l w h n in
        absurd (omega (arith, depth-pos (with_slash w.dir)))
    | inr (v, f, g, _) ↦ f ∙ ap some (first_deepest_unique d l v w g h)
  ]

  found-root : d ≡ dot → (v : TfcWorkspace) → IsFirstRoot l v → workspace_for_dir l d ≡ some v
  unfolding workspace_for_dir
  found-root e v h = rw e (workspace_from-first_root none 0 l v h)

  -- The search for the workspace of a directory finds a workspace exactly when this one owns the
  -- directory: the root of the repository belongs to the first root workspace, where there is one; any
  -- other directory, and the root where there is none, to the first of the deepest workspaces whose
  -- directory, with a slash at its end, ends it, itself taken with or without one.
  pub workspace_for_dir_iff : (workspace_for_dir l d ≡ some w) ↔ Owns d l w
  workspace_for_dir_iff = (
    λ e. elim (Bool-cases (text_eq d dot)) [
      | inl here ↦
          let at = (text_eq_iff d dot).0 here in
          elim (IsFirstRoot-cases l) [
            | inl none_left ↦ inr ((λ _. none_left), deepest-found (λ _. none_left) e)
            | inr (v, h) ↦
                let g : v ≡ w = (let o : some v ≡ some w = sym (found-root at v h) ∙ e in cc) in
                inl (at, subst (IsFirstRoot l) g h)
          ]
      | inr elsewhere ↦
          let away = λ (at : d ≡ dot).
            absurd {A = All (λ ws. is_root ws ≡ false) l}
              (cc ((text_eq_iff d dot).1 at, elsewhere)) in
          inr (away, deepest-found away e)
    ],
    λ h. elim h [
      | inl (at, root) ↦ found-root at w root
      | inr (nr, deepest) ↦ found-deepest nr deepest
    ],
  )
