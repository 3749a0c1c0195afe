-- ===== src/AllowList/Laws.antt =====
-- The decisions of the allow lists, against descriptions that do not follow the loops.
use tfbuddy.Prelude.{
  ◌≡◌, refl, ◌≢◌, ◌↔◌, ◌⊎◌, inl, inr, true, List, [], ◌∷◌, ◌++◌, is_empty, any, All, Any, arith,
  Bool-cases, or_parts, not_empty, not_empty_of_ne, nil_of_empty, sym,
}
use tfbuddy.Text.{Text, text_eq, has_prefix, trim_space}
use tfbuddy.Text.Laws.{has_prefix_iff, text_eq_iff}
use tfbuddy.Config.{Config}
use tfbuddy.AllowList.{
  get_allow_list, is_github_repo_allowed, is_gitlab_project_allowed, qualify, qualify_all,
  is_workspace_allowed,
}

-- An entry that is not blank, and is a beginning of the name.
abbrev pub Permits : Text → Text → Type 0
Permits name entry = (trim_space entry ≢ []) × ((r : Text) × (name ≡ trim_space entry ++ r))

abbrev pub IsBlank : Text → Type 0
IsBlank entry = trim_space entry ≡ []

any-get_allow_list_sound :
    (name : Text) (l : List Text)
    → any (has_prefix name) (get_allow_list l) ≡ true
    → Any (Permits name) l
unfolding get_allow_list
any-get_allow_list_sound name [] h = cc
any-get_allow_list_sound name (e ∷ l) h = elim (Bool-cases (is_empty (trim_space e))) [
  | inl blank ↦ inr (any-get_allow_list_sound name l (ground arith))
  | inr full ↦ elim (or_parts (has_prefix name (trim_space e)) _ (rw full at h)) [
    | inl here ↦ inl (not_empty _ full, (has_prefix_iff name (trim_space e)).0 here)
    | inr later ↦ inr (any-get_allow_list_sound name l later)
  ]
]

any-get_allow_list_complete :
    (name : Text) (l : List Text)
    → Any (Permits name) l
    → any (has_prefix name) (get_allow_list l) ≡ true
unfolding get_allow_list
any-get_allow_list_complete name [] h = absurd h
any-get_allow_list_complete name (e ∷ l) (inl (full, begins)) =
    rw (not_empty_of_ne _ full) (rw ((has_prefix_iff name (trim_space e)).1 begins))
any-get_allow_list_complete name (e ∷ l) (inr later) =
    ground (arith, any-get_allow_list_complete name l later)

get_allow_list-All : (l : List Text) → get_allow_list l ≡ [] → All IsBlank l
unfolding get_allow_list
get_allow_list-All [] e = tt
get_allow_list-All (x ∷ l) e = elim (Bool-cases (is_empty (trim_space x))) [
  | inl blank ↦ (nil_of_empty _ blank, get_allow_list-All l (ground arith))
  | inr full ↦ ground arith
]

All-get_allow_list : (l : List Text) → All IsBlank l → get_allow_list l ≡ []
unfolding get_allow_list
All-get_allow_list [] h = refl
All-get_allow_list (x ∷ l) (blank, h) = rw blank (All-get_allow_list l h)

-- A GitHub repository is allowed exactly when a beginning of its full name is, but for white space
-- around it, an entry of the list that is not blank. With no such entry nothing is allowed.
pub is_github_repo_allowed_iff :
    (cfg : Config) (name : Text)
    → (is_github_repo_allowed cfg name ≡ true) ↔ Any (Permits name) cfg.github_repo_allow_list
unfolding is_github_repo_allowed
is_github_repo_allowed_iff cfg name = (
  λ h. any-get_allow_list_sound name cfg.github_repo_allow_list (ground arith),
  λ p. (let h = any-get_allow_list_complete name cfg.github_repo_allow_list p in ground arith),
)

-- A GitLab project is allowed exactly when an entry of the list permits it, or the list has blank
-- entries only and an entry of the legacy list permits it: an entry of the new list that is not
-- blank puts the legacy list out of use.
pub is_gitlab_project_allowed_iff :
    (cfg : Config) (name : Text)
    → (is_gitlab_project_allowed cfg name ≡ true) ↔ (
        Any (Permits name) cfg.gitlab_project_allow_list
        ⊎ (All IsBlank cfg.gitlab_project_allow_list
            × Any (Permits name) cfg.legacy_project_allow_list))
unfolding is_gitlab_project_allowed
is_gitlab_project_allowed_iff cfg name = (
  λ h. elim (Bool-cases (is_empty (get_allow_list cfg.gitlab_project_allow_list))) [
    | inl none_left ↦ inr (
      get_allow_list-All _ (nil_of_empty _ none_left),
      any-get_allow_list_sound name cfg.legacy_project_allow_list (ground arith),
    )
    | inr some_left ↦
        inl (any-get_allow_list_sound name cfg.gitlab_project_allow_list (ground arith))
  ],
  λ p. elim p [
    | inl here ↦
        let h = any-get_allow_list_complete name cfg.gitlab_project_allow_list here in ground arith
    | inr (blank, legacy) ↦
        let e = All-get_allow_list cfg.gitlab_project_allow_list blank in
        let h = any-get_allow_list_complete name cfg.legacy_project_allow_list legacy in
        ground arith
  ],
)

-- An entry of a workspace list, brought into the form "organization/workspace", is the name.
abbrev pub Names : Text → Text → Text → Type 0
Names default_org name entry = qualify default_org entry ≡ name

any-qualify_all_sound :
    (org name : Text) (l : List Text)
    → any (text_eq name) (qualify_all org l) ≡ true
    → Any (Names org name) l
unfolding qualify_all
any-qualify_all_sound org name [] h = cc
any-qualify_all_sound org name (e ∷ l) h = elim (or_parts (text_eq name (qualify org e)) _ h) [
  | inl here ↦ inl (sym ((text_eq_iff name (qualify org e)).0 here))
  | inr later ↦ inr (any-qualify_all_sound org name l later)
]

any-qualify_all_complete :
    (org name : Text) (l : List Text)
    → Any (Names org name) l
    → any (text_eq name) (qualify_all org l) ≡ true
unfolding qualify_all
any-qualify_all_complete org name [] h = absurd h
any-qualify_all_complete org name (e ∷ l) (inl here) =
    rw ((text_eq_iff name (qualify org e)).1 (sym here))
any-qualify_all_complete org name (e ∷ l) (inr later) =
    ground (arith, any-qualify_all_complete org name l later)

pub is_empty-qualify_all : (org : Text) (l : List Text) → is_empty (qualify_all org l) ≡ is_empty l
unfolding qualify_all
is_empty-qualify_all org [] = refl
is_empty-qualify_all org (e ∷ l) = refl

is_empty-nil : (l : List Text) → l ≡ [] → is_empty l ≡ true
is_empty-nil l e = rw e

-- A workspace is allowed exactly when no entry of the deny list names it and either an entry of the
-- allow list does or there is no allow list: denial goes before permission.
pub is_workspace_allowed_iff :
    (cfg : Config) (workspace org : Text)
    → let name = org ++ b'/' ∷ workspace in
      let named = Any (Names cfg.default_tfc_organization name) in
      (is_workspace_allowed cfg workspace org ≡ true) ↔ (
        (¬ named cfg.workspace_deny_list)
        × (named cfg.workspace_allow_list ⊎ (cfg.workspace_allow_list ≡ [])))
unfolding is_workspace_allowed
is_workspace_allowed_iff cfg workspace org = (
  λ h. (
    λ denied. (let d = any-qualify_all_complete org' name deny denied in ground arith),
    elim (Bool-cases (any (text_eq name) (qualify_all org' allow))) [
      | inl listed ↦ inl (any-qualify_all_sound org' name allow listed)
      | inr unlisted ↦
          inr (nil_of_empty allow (ground (arith, is_empty-qualify_all org' allow, unlisted)))
    ],
  ),
  λ p. elim (Bool-cases (any (text_eq name) (qualify_all org' deny))) [
    | inl denied ↦ absurd (p.0 (any-qualify_all_sound org' name deny denied))
    | inr passed ↦ elim p.1 [
      | inl listed ↦ let a = any-qualify_all_complete org' name allow listed in ground arith
      | inr no_list ↦
          let e = is_empty-nil allow no_list in
          let q = is_empty-qualify_all org' allow in ground arith
    ]
  ],
)
  where
    name : Text
    name = org ++ b'/' ∷ workspace

    org' : Text
    org' = cfg.default_tfc_organization

    allow : List Text
    allow = cfg.workspace_allow_list

    deny : List Text
    deny = cfg.workspace_deny_list
