-- ===== src/Text.antt =====
-- Texts as lists of code points, with what the code asks of `str`.
use juris.Base.{Bool, List, [], false, if◌then◌else◌, leb, true, ℕ, ◌&&◌, ◌==◌, ◌||◌, ◌∷◌}

-- `==` of two texts
abbrev pub same_text : List ℕ → List ℕ → Bool
same_text [] [] = true
same_text [] (d ∷ t) = false
same_text (c ∷ s) [] = false
same_text (c ∷ s) (d ∷ t) = c == d && same_text s t

-- `str.isspace` of one character
abbrev pub is_space : ℕ → Bool
is_space c =
    (leb 9 c && leb c 13)
    || (leb 28 c && leb c 32)
    || c == 133
    || c == 160
    || c == 5760
    || (leb 8192 c && leb c 8202)
    || c == 8232
    || c == 8233
    || c == 8239
    || c == 8287
    || c == 12288

abbrev pub lstrip : List ℕ → List ℕ
lstrip [] = []
lstrip (c ∷ s) = if is_space c then lstrip s else c ∷ s

abbrev rstrip : List ℕ → List ℕ
rstrip [] = []
rstrip (c ∷ s) = elim (rstrip s) [ [] ↦ (if is_space c then [] else c ∷ []) | d ∷ t ↦ c ∷ d ∷ t ]

-- `str.strip()`
unfoldable pub strip : List ℕ → List ℕ
strip s = rstrip (lstrip s)
