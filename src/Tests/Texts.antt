-- ===== src/Tests/Texts.antt =====
-- Runs of the functions on texts and paths.
use tfbuddy.Prelude.{◌≡◌, refl, [], ◌∷◌, some}
use tfbuddy.Text.{lit, text_eq, cut, trim_space, is_space, fields, split, join, itoa, atoi}
use tfbuddy.Paths.{dir, join_path}

dir_nested : dir (lit "a/b/../c//d.tf") ≡ lit "a/c"
unfolding lit dir text_eq split join
dir_nested = refl

dir_root : dir (lit "main.tf") ≡ lit "."
unfolding lit dir text_eq split join
dir_root = refl

dir_above : dir (lit "../x/../y.tf") ≡ lit ".."
unfolding lit dir text_eq split join
dir_above = refl

joined : join_path (lit "/tmp/x" ∷ lit "" ∷ lit "terraform/dev/" ∷ []) ≡ lit "/tmp/x/terraform/dev"
unfolding lit join_path text_eq split join
joined = refl

words : fields (lit "  tfc apply -w  x ") ≡ lit "tfc" ∷ lit "apply" ∷ lit "-w" ∷ lit "x" ∷ []
unfolding lit fields is_space
words = refl

trimmed : trim_space (lit " a b ") ≡ lit "a b"
unfolding lit trim_space is_space
trimmed = refl

cut_in_two : cut (lit "a:b:c") (lit ":") ≡ some (lit "a", lit "b:c")
unfolding lit cut
cut_in_two = refl

number : itoa 1203 ≡ lit "1203"
unfolding lit itoa
number = refl

number_back : atoi (lit "1203") ≡ some 1203
unfolding lit atoi
number_back = refl
