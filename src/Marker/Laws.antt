-- ===== src/Marker/Laws.antt =====
-- The marker that is written is the one that is read.
use tfbuddy.Prelude.{
  ℕ, ◌≡◌, refl, sym, ap, ◌∙◌, ◌≢◌, false, some, [], ◌∷◌, ◌++◌, append_assoc, is_empty, length, All,
  All-append, ◌==◌, arith,
}
use tfbuddy.Text.{Text, lit, cut, drop}
use tfbuddy.Text.Laws.{has_prefix-append}
use tfbuddy.Marker.{
  format_tfbuddy_marker, parse_tfbuddy_marker, capture_substring, marker_prefix, marker_suffix,
  action_sep,
}

-- The character does not occur.
abbrev pub Without : ℕ → Text → Type 0
Without c s = All (λ d. d ≢ c) s

drop-append : (s t : Text) → drop (length s) (s ++ t) ≡ t
unfolding drop
drop-append [] t = refl
drop-append (c ∷ s) t = drop-append s t

-- A separator is found at its first place, where its first character does not occur before.
cut-append :
    (p : Text) (c : ℕ) (sep rest : Text)
    → Without c p
    → cut (p ++ (c ∷ sep) ++ rest) (c ∷ sep) ≡ some (p, rest)
unfolding cut
cut-append [] c sep rest h = rw (has_prefix-append (c ∷ sep) rest, drop-append (c ∷ sep) rest) refl
cut-append (x ∷ p) c sep rest (ne, h) =
    let differ : (x == c) ≡ false = ground (arith, ne) in
    rw (differ, cut-append p c sep rest h) refl

not_empty-append : (s t : Text) → is_empty s ≡ false → is_empty (s ++ t) ≡ false
not_empty-append [] t h = absurd (ground (arith, h))
not_empty-append (c ∷ s) t h = refl

-- What may stand in a marker.
abbrev pub IsMarkerPart : Text → Type 0
IsMarkerPart s = Without b' ' s × (is_empty s ≡ false)

module _ (before workspace action behind : Text) where
  abbrev raw : Text
  raw = workspace ++ (action_sep ++ action)

  -- A note, its parts in the order in which they are cut.
  note_parts :
      before ++ format_tfbuddy_marker workspace action ++ behind
      ≡ before ++ marker_prefix ++ (raw ++ marker_suffix ++ behind)
  unfolding format_tfbuddy_marker
  note_parts = simp append_assoc refl

  captured :
      Without b'<' before
      → Without b' ' raw
      → capture_substring
          (before ++ format_tfbuddy_marker workspace action ++ behind)
          marker_prefix
          marker_suffix
        ≡ raw
  unfolding capture_substring lit
  captured h k =
      rw
        (
          note_parts,
          cut-append before b'<' (lit "!-- tfbuddy:ws=") (raw ++ marker_suffix ++ behind) h,
          cut-append raw b' ' (lit "-->") behind k,
        )
        refl

  raw-Without : Without b' ' workspace → Without b' ' action → Without b' ' raw
  unfolding lit
  raw-Without h k =
      All-append (λ d. d ≢ b' ') workspace (action_sep ++ action) h
        (All-append (λ d. d ≢ b' ') action_sep action (ground arith) k)

  cut-raw : Without b':' workspace → cut raw action_sep ≡ some (workspace, action)
  unfolding lit
  cut-raw h =
      ap (λ s. cut s action_sep) (sym (append_assoc workspace action_sep action))
      ∙ cut-append workspace b':' (lit "action=") action h

  -- The parts of a marker are read back from a note that holds it, wherever it stands in the note, if
  -- the note has no "<" before it, no part is empty or has a space, and the workspace has no colon.
  pub parse_tfbuddy_marker-format :
      Without b'<' before
      → Without b':' workspace
      → IsMarkerPart workspace
      → IsMarkerPart action
      → parse_tfbuddy_marker (before ++ format_tfbuddy_marker workspace action ++ behind)
        ≡ some (workspace, action)
  unfolding parse_tfbuddy_marker lit
  parse_tfbuddy_marker-format h no_colon (no_space, some_ws) (no_space', some_action) =
      rw
        (
          captured h (raw-Without no_space no_space'),
          not_empty-append workspace (action_sep ++ action) some_ws,
          cut-raw no_colon,
          some_ws,
          some_action,
        )
        refl
