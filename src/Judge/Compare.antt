-- ===== src/Judge/Compare.antt =====
-- services/judge/app/compare.py
use dsa_platform.Prelude.{
  ℕ, Bool, true, false, List, [], ◌∷◌, ◌==◌, ◌&&◌, ◌||◌, leb, list_eq, if◌then◌else◌,
}
use dsa_platform.Judge.Contracts.{CompareMode}

-- The bytes that `bytes.split` separates at.
abbrev pub is_space : ℕ → Bool
is_space c = (leb 9 c && leb c 13) || c == 32

-- A byte is put before the first token, where the next byte belongs to it too.
abbrev pub glue : ℕ → List ℕ → List (List ℕ) → List (List ℕ)
glue c [] words = (c ∷ []) ∷ words
glue c (d ∷ text) [] = (c ∷ []) ∷ []
glue c (d ∷ text) (word ∷ words) =
    if is_space d then (c ∷ []) ∷ word ∷ words else (c ∷ word) ∷ words

-- `_tokens`
unfoldable pub tokens : List ℕ → List (List ℕ)
tokens [] = []
tokens (c ∷ text) = let words = tokens text in if is_space c then words else glue c text words

abbrev pub lists_eq : List (List ℕ) → List (List ℕ) → Bool
lists_eq [] [] = true
lists_eq (x ∷ xs) (y ∷ ys) = list_eq x y && lists_eq xs ys
lists_eq _ _ = false

unfoldable pub outputs_match : List ℕ → List ℕ → CompareMode → Bool
outputs_match actual expected CompareMode.exact = list_eq actual expected
outputs_match actual expected CompareMode.whitespace = lists_eq (tokens actual) (tokens expected)
