-- ===== src/Vcs/OldRuns/Laws.antt =====
-- Which notes `GetOldRunUrls` deletes.
use tfbuddy.Prelude.{
  ℕ, ◌≡◌, refl, inl, inr, true, false, List, [], ◌∷◌, map, reverse, All, All-append, Any,
  Bool-cases,
}
use tfbuddy.Text.{Text}
use tfbuddy.Vcs.OldRuns.{Note, id_of, Collected, is_ours, is_root, scan}
use mathlib.Core.List.{reverse-append}

module _ (P : ℕ → Type 0) where
  All-reverse : (xs : List ℕ) → All P xs → All P (reverse xs)
  All-reverse [] h = tt
  All-reverse (x ∷ xs) (p, h) =
      rw (reverse-append (x ∷ []) xs)
        (All-append P (reverse xs) (x ∷ []) (All-reverse xs h) (p, tt))

pub All-weaken {ℓ} :
    {A : Type ℓ} (P Q : A → Type 0) (xs : List A) → ((x : A) → P x → Q x) → All P xs → All Q xs
All-weaken P Q [] f h = tt
All-weaken P Q (x ∷ xs) f (p, h) = (f x p, All-weaken P Q xs f h)

module _ (show_status : Text → Text) (user workspace action : Text) (root_note_id : ℕ) where
  -- The note is one of a discussion that the user began, that is marked with the workspace and the
  -- action, and that does not begin with the root note.
  abbrev pub IsOld : ℕ → List Note → Type 0
  IsOld id notes =
      Any (λ n. n.note_id ≡ id) notes
      × (is_ours show_status user workspace action root_note_id notes ≡ true)
      × (is_root show_status user workspace action root_note_id notes ≡ false)

  abbrev pub Deletable : List (List Note) → ℕ → Type 0
  Deletable discussions id = Any (IsOld id) discussions

  ids_of : (notes : List Note) → All (λ id. Any (λ n. n.note_id ≡ id) notes) (map id_of notes)
  ids_of [] = tt
  ids_of (n ∷ notes) = (inl refl, All-weaken _ _ (map id_of notes) (λ id. inr) (ids_of notes))

  later :
      (notes : List Note) (discussions : List (List Note)) (ids : List (List ℕ))
      → All (All (Deletable discussions)) ids
      → All (All (Deletable (notes ∷ discussions))) ids
  later notes discussions ids h = All-weaken _ _ ids (λ xs. All-weaken _ _ xs (λ id. inr)) h

  here :
      (notes : List Note) (discussions : List (List Note))
      → is_ours show_status user workspace action root_note_id notes ≡ true
      → is_root show_status user workspace action root_note_id notes ≡ false
      → All (Deletable (notes ∷ discussions)) (reverse (map id_of notes))
  here notes discussions e f =
      All-weaken _ _ (reverse (map id_of notes)) (λ id p. inl (p, e, f))
        (All-reverse _ (map id_of notes) (ids_of notes))

  -- Each note that is deleted is old.
  pub scan-Deletable :
      (discussions : List (List Note)) (c : Collected)
      → All
          (All (Deletable discussions))
          (scan show_status user workspace action root_note_id discussions c).1
  unfolding scan
  scan-Deletable [] c = tt
  scan-Deletable (notes ∷ discussions) c =
      elim (Bool-cases (is_ours show_status user workspace action root_note_id notes)) [
        | inl e ↦ elim (Bool-cases (is_root show_status user workspace action root_note_id notes)) [
          | inl f ↦ rw (e, f) (later notes discussions _ (scan-Deletable discussions _))
          | inr f ↦
              rw (e, f)
                (
                  here notes discussions e f,
                  later notes discussions _ (scan-Deletable discussions _),
                )
        ]
        | inr e ↦ rw e (later notes discussions _ (scan-Deletable discussions _))
      ]
