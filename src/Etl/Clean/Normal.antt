-- ===== src/Etl/Clean/Normal.antt =====
-- The texts of backend/etl/clean.py: invisible characters, white space, and the regular
-- expressions that clean it.
use lumina_ai.Prelude.{ℕ, Bool, true, false, ◌||◌, List, [], ◌∷◌, ◌==◌, if◌then◌else◌}
use lumina_ai.Prelude.Texts.{Text, is_space, strip, join}

-- `_INVISIBLE`, and `text.translate(_INVISIBLE)`.
abbrev pub is_invisible : ℕ → Bool
is_invisible c =
    c == 0x200b || c == 0x200c || c == 0x200d || c == 0x2060 || c == 0xfeff || c == 0xad

unfoldable pub remove_invisible : Text → Text
remove_invisible [] = []
remove_invisible (c ∷ t) =
    let rest = remove_invisible t in if is_invisible c then rest else c ∷ rest

-- `text.split()`: the words, of which the first may go on.
abbrev pub push_word : ℕ → Bool → List Text → List Text
push_word c joins [] = (c ∷ []) ∷ []
push_word c joins (w ∷ ws) = if joins then (c ∷ w) ∷ ws else (c ∷ []) ∷ w ∷ ws

abbrev pub starts_word : Text → Bool
starts_word [] = false
starts_word (c ∷ t) = if is_space c then false else true

unfoldable pub words : Text → List Text
words [] = []
words (c ∷ t) = let rest = words t in if is_space c then rest else push_word c (starts_word t) rest

unfoldable pub normalize_for_match : Text → Text
unfolding remove_invisible words join
normalize_for_match text = join (32 ∷ []) (words (remove_invisible text))

abbrev pub at_line_end : Text → Bool
at_line_end [] = true
at_line_end (c ∷ t) = c == 10

-- `_TRAILING_SPACE`: spaces and tabs before the end of a line.
unfoldable pub remove_trailing : Text → Text
remove_trailing [] = []
remove_trailing (c ∷ t) =
    let rest = remove_trailing t in
    if c == 32 || c == 9 then (if at_line_end rest then rest else c ∷ rest) else c ∷ rest

abbrev pub two_breaks : Text → Bool
two_breaks (c ∷ d ∷ t) = if c == 10 then d == 10 else false
two_breaks _ = false

-- `_EXCESS_BLANK_LINES`: of a run of line breaks two stay.
unfoldable pub collapse_breaks : Text → Text
collapse_breaks [] = []
collapse_breaks (c ∷ t) =
    let rest = collapse_breaks t in
    if c == 10 then (if two_breaks rest then rest else c ∷ rest) else c ∷ rest

unfoldable pub normalize : Text → Text
unfolding remove_invisible remove_trailing collapse_breaks strip
normalize text = strip (collapse_breaks (remove_trailing (remove_invisible text)))
