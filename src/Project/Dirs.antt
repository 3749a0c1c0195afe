-- ===== src/Project/Dirs.antt =====
-- Which workspace a directory belongs to.
use tfbuddy.Prelude.{
  ℕ, ◌≤◌, ◌<◌, ◌≡◌, refl, ◌⊎◌, inl, inr, Bool, true, false, Option, none, some, List, [], ◌∷◌,
  length, ltb, ◌&&◌, arith, Bool-cases, All, Any, and_parts, subst, sym, ◌∙◌,
}
use mathlib.Core.List.{Memᴰ}
use tfbuddy.Text.{Text, text_eq, split, part_cons}
use tfbuddy.Text.Laws.{text_eq_refl}
use tfbuddy.Paths.{slash, dot}
use tfbuddy.Types.{TfcWorkspace}
use tfbuddy.Project.{with_slash, depth, dir_matches, workspace_from, workspace_for_dir}

abbrev pub is_root : TfcWorkspace → Bool
is_root ws = text_eq (with_slash ws.dir) slash

-- The workspace is not the root, and its directory, with a slash at its end, ends the directory.
abbrev pub Fits : Text → TfcWorkspace → Type 0
Fits d ws = (is_root ws ≡ false) × (dir_matches (with_slash ws.dir) d ≡ true)

abbrev pub depth_of : TfcWorkspace → ℕ
depth_of ws = depth (with_slash ws.dir)

-- The directory is not that of a root workspace.
abbrev pub HasNoRoot : Text → List TfcWorkspace → Type 0
HasNoRoot d workspaces = All (λ ws. (is_root ws && text_eq d dot) ≡ false) workspaces

abbrev pub NoDeeper : Text → ℕ → List TfcWorkspace → Type 0
NoDeeper d k workspaces = All (λ ws. Fits d ws → depth_of ws ≤ k) workspaces

abbrev pub IsBest : Text → List TfcWorkspace → TfcWorkspace → Type 0
IsBest d workspaces w = Fits d w × Memᴰ w workspaces × NoDeeper d (depth_of w) workspaces

abbrev pub Chosen : Text → List TfcWorkspace → Option TfcWorkspace → Type 0
Chosen d workspaces none = All (λ ws. ¬ Fits d ws) workspaces
Chosen d workspaces (some w) = IsBest d workspaces w

NoDeeper-le : (d : Text) (k m : ℕ) (l : List TfcWorkspace) → k ≤ m → NoDeeper d k l → NoDeeper d m l
NoDeeper-le d k m [] le h = tt
NoDeeper-le d k m (ws ∷ l) le (p, h) = (λ f. (let q = p f in omega arith), NoDeeper-le d k m l le h)

-- What the loop returns: the workspace that it came with, or a deeper one.
abbrev Result : Text → Option TfcWorkspace → ℕ → List TfcWorkspace → Option TfcWorkspace → Type 0
Result d m k l r =
    ((r ≡ m) × NoDeeper d k l)
    ⊎ ((w : TfcWorkspace) × (r ≡ some w)
        × (k < depth_of w)
        × Fits d w
        × Memᴰ w l
        × NoDeeper d (depth_of w) l)

module _ (d : Text) (m : Option TfcWorkspace) (k : ℕ) (ws : TfcWorkspace)
    (l : List TfcWorkspace) where
  skip :
      (r : Option TfcWorkspace)
      → (Fits d ws → depth_of ws ≤ k)
      → Result d m k l r
      → Result d m k (ws ∷ l) r
  skip r p (inl (e, h)) = inl (e, (p, h))
  skip r p (inr (w, e, lt, f, mem, h)) =
      inr (w, e, lt, f, Memᴰ.tail mem, ((λ g. (let q = p g in omega arith), h)))

  take :
      (r : Option TfcWorkspace)
      → Fits d ws
      → k < depth_of ws
      → Result d (some ws) (depth_of ws) l r
      → Result d m k (ws ∷ l) r
  take r f lt (inl (e, h)) = inr (ws, e, lt, f, Memᴰ.head refl, ((λ _. omega arith), h))
  take r f lt (inr (w, e, lt', g, mem, h)) =
      inr (w, e, omega arith, g, Memᴰ.tail mem, ((λ _. omega arith), h))

module _ (d : Text) (m : Option TfcWorkspace) (k : ℕ) (ws : TfcWorkspace)
    (l : List TfcWorkspace) where
  pub round_root :
      is_root ws ≡ true
      → text_eq d dot ≡ false
      → workspace_from d m k (ws ∷ l) ≡ workspace_from d m k l
  unfolding workspace_from
  round_root root elsewhere = rw (root, elsewhere)

  pub round_skip :
      is_root ws ≡ false
      → (dir_matches (with_slash ws.dir) d && ltb k (depth_of ws)) ≡ false
      → workspace_from d m k (ws ∷ l) ≡ workspace_from d m k l
  unfolding workspace_from
  round_skip inner fails = ground arith

  pub round_take :
      Fits d ws
      → ltb k (depth_of ws) ≡ true
      → workspace_from d m k (ws ∷ l) ≡ workspace_from d (some ws) (depth_of ws) l
  unfolding workspace_from
  round_take (inner, fits) deeper = ground arith

  pub fails_shallow :
      (dir_matches (with_slash ws.dir) d && ltb k (depth_of ws)) ≡ false
      → Fits d ws
      → depth_of ws ≤ k
  fails_shallow fails (_, fits) = ground arith

workspace_from-Result :
    (d : Text) (m : Option TfcWorkspace) (k : ℕ) (l : List TfcWorkspace)
    → HasNoRoot d l
    → Result d m k l (workspace_from d m k l)
unfolding workspace_from
workspace_from-Result d m k [] h = inl (refl, tt)
workspace_from-Result d m k (ws ∷ l) (n, h) =
    let passed =
      λ (p : Fits d ws → depth_of ws ≤ k). skip d m k ws l _ p (workspace_from-Result d m k l h) in
    elim (Bool-cases (is_root ws)) [
      | inl root ↦
          let elsewhere : text_eq d dot ≡ false = ground arith in
          subst (Result d m k (ws ∷ l)) (sym (round_root d m k ws l root elsewhere))
            (passed (λ (inner, _). cc (root, inner)))
      | inr inner ↦ elim (Bool-cases (dir_matches (with_slash ws.dir) d && ltb k (depth_of ws))) [
        | inr fails ↦
            subst (Result d m k (ws ∷ l)) (sym (round_skip d m k ws l inner fails))
              (passed (fails_shallow d m k ws l fails))
        | inl passes ↦
            let (fits, deeper) = and_parts (dir_matches _ d) (ltb k (depth_of ws)) passes in
            subst (Result d m k (ws ∷ l)) (sym (round_take d m k ws l (inner, fits) deeper)) (
              take d m k ws l _ (inner, fits) (ground (arith, deeper))
                (workspace_from-Result d (some ws) (depth_of ws) l h))
      ]
    ]

part_cons-pos : (c : ℕ) (ps : List Text) → 0 < length (part_cons c ps)
part_cons-pos c [] = omega arith
part_cons-pos c (p ∷ ps) = omega arith

pub depth-pos : (s : Text) → 0 < depth s
unfolding depth split
depth-pos [] = omega arith
depth-pos (c ∷ s) = ground (arith, part_cons-pos c (split b'/' s))

All-not_Fits : (d : Text) (l : List TfcWorkspace) → NoDeeper d 0 l → All (λ ws. ¬ Fits d ws) l
All-not_Fits d [] h = tt
All-not_Fits d (ws ∷ l) (p, h) =
    (λ f. (let q = p f in omega (arith, depth-pos (with_slash ws.dir))), All-not_Fits d l h)

-- Of the workspaces whose directory ends the given one, the deepest is chosen, and none only if
-- there is none. The root workspace stands aside: it is not the directory's.
pub workspace_for_dir-Chosen :
    (workspaces : List TfcWorkspace) (d : Text)
    → HasNoRoot d workspaces
    → Chosen d workspaces (workspace_for_dir workspaces d)
unfolding workspace_for_dir
workspace_for_dir-Chosen workspaces d h = elim (workspace_from-Result d none 0 workspaces h) [
  | inl (e, shallow) ↦ rw e (All-not_Fits d workspaces shallow)
  | inr (w, e, _, f, mem, deepest) ↦ rw e (f, mem, deepest)
]

workspace_from-root :
    (m : Option TfcWorkspace) (k : ℕ) (l : List TfcWorkspace)
    → Any (λ ws. is_root ws ≡ true) l
    → (w : TfcWorkspace) × (workspace_from dot m k l ≡ some w) × (is_root w ≡ true) × Memᴰ w l
unfolding workspace_from
workspace_from-root m k [] h = absurd h
workspace_from-root m k (ws ∷ l) h = elim (Bool-cases (is_root ws)) [
  | inl root ↦ (ws, rw root (rw (text_eq_refl dot)), root, Memᴰ.head refl)
  | inr inner ↦
      let later : Any (λ v. is_root v ≡ true) l = elim h [
        | inl root ↦ absurd (cc (root, inner))
        | inr p ↦ p
      ] in
      elim (Bool-cases (dir_matches (with_slash ws.dir) dot && ltb k (depth_of ws))) [
        | inr fails ↦
            let (w, e, root, mem) = workspace_from-root m k l later in
            (w, round_skip dot m k ws l inner fails ∙ e, root, Memᴰ.tail mem)
        | inl passes ↦
            let (fits, deeper) = and_parts (dir_matches _ dot) (ltb k (depth_of ws)) passes in
            let (w, e, root, mem) = workspace_from-root (some ws) (depth_of ws) l later in
            (w, round_take dot m k ws l (inner, fits) deeper ∙ e, root, Memᴰ.tail mem)
      ]
]

-- The root directory belongs to a root workspace, if there is one.
pub workspace_for_dir-root :
    (workspaces : List TfcWorkspace)
    → Any (λ ws. is_root ws ≡ true) workspaces
    → (w : TfcWorkspace) × (workspace_for_dir workspaces dot ≡ some w)
      × (is_root w ≡ true)
      × Memᴰ w workspaces
unfolding workspace_for_dir
workspace_for_dir-root workspaces h = workspace_from-root none 0 workspaces h
