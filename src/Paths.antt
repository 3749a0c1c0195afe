-- ===== src/Paths.antt =====
-- Go's package `path`: `Clean`, `Dir` and `Join`.
use tfbuddy.Prelude.{
  Bool, false, List, [], ◌∷◌, reverse, ◌||◌, if◌then◌else◌, is_empty, keep, not, ◌==◌,
}
use tfbuddy.Text.{Text, text_eq, split, join}

abbrev pub slash : Text
slash = b'/' ∷ []

abbrev pub dot : Text
dot = b'.' ∷ []

abbrev pub dot_dot : Text
dot_dot = b'.' ∷ b'.' ∷ []

-- ".." after the elements that are kept, the last of them in front.
abbrev pub back : Bool → List Text → List Text
back rooted [] = if rooted then [] else dot_dot ∷ []
back rooted (e ∷ stack) = if text_eq e dot_dot then dot_dot ∷ e ∷ stack else stack

clean_from : Bool → List Text → List Text → List Text
clean_from rooted stack [] = reverse stack
clean_from rooted stack (e ∷ es) =
    clean_from rooted
      (if is_empty e || text_eq e dot
        then stack
        else (if text_eq e dot_dot then back rooted stack else e ∷ stack))
      es

abbrev pub is_rooted : Text → Bool
is_rooted [] = false
is_rooted (c ∷ s) = c == b'/'

unfoldable pub clean : Text → Text
unfolding clean_from
clean p =
    let body = join slash (clean_from (is_rooted p) [] (split b'/' p)) in
    if is_rooted p then b'/' ∷ body else (if is_empty body then dot else body)

-- Up to the last slash, the slash included.
unfoldable pub dir_part : Text → Text
dir_part [] = []
dir_part (c ∷ s) =
    let rest = dir_part s in if is_empty rest then (if c == b'/' then slash else []) else c ∷ rest

unfoldable pub dir : Text → Text
unfolding clean dir_part
dir p = clean (dir_part p)

unfoldable pub join_path : List Text → Text
unfolding clean
join_path es =
    let parts = keep (λ e. not (is_empty e)) es in
    if is_empty parts then [] else clean (join slash parts)
