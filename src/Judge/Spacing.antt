-- ===== src/Judge/Spacing.antt =====
-- What the whitespace-tolerant comparison ignores, and what it does not.
use dsa_platform.Prelude.{
  and_both, ℕ, true, false, List, [], ◌∷◌, ◌++◌, ◌≡◌, refl, sym, ap, ◌∙◌, inl, inr, not, Bool-cases,
  All, arith, ◌==◌, ==_iff, ==_refl, list_eq,
}
use dsa_platform.Prelude.Table.{select}
use dsa_platform.Judge.Contracts.{CompareMode}
use dsa_platform.Judge.Compare.{is_space, glue, tokens, lists_eq, outputs_match}

list_eq_refl : (xs : List ℕ) → list_eq xs xs ≡ true
list_eq_refl [] = refl
list_eq_refl (x ∷ xs) = rw (==_refl x) (list_eq_refl xs)

lists_eq_refl : (xs : List (List ℕ)) → lists_eq xs xs ≡ true
lists_eq_refl [] = refl
lists_eq_refl (x ∷ xs) = rw (list_eq_refl x) (lists_eq_refl xs)

list_eq_sound : (xs ys : List ℕ) → list_eq xs ys ≡ true → xs ≡ ys
list_eq_sound [] [] h = refl
list_eq_sound (x ∷ xs) (y ∷ ys) h =
    let (here, rest) = and_both (x == y) (list_eq xs ys) h in
    let e = (==_iff x y).0 here in let es = list_eq_sound xs ys rest in λ i. e i ∷ es i
list_eq_sound _ _ h = ground arith

lists_eq_sound : (xs ys : List (List ℕ)) → lists_eq xs ys ≡ true → xs ≡ ys
lists_eq_sound [] [] h = refl
lists_eq_sound (x ∷ xs) (y ∷ ys) h =
    let (here, rest) = and_both (list_eq x y) (lists_eq xs ys) h in
    let e = list_eq_sound x y here in let es = lists_eq_sound xs ys rest in λ i. e i ∷ es i
lists_eq_sound _ _ h = ground arith

-- Before a space, and at the end, a token starts anew.
glue-space :
    (x s : ℕ) (ys : List ℕ) (ws : List (List ℕ))
    → is_space s ≡ true
    → glue x (s ∷ ys) ws ≡ (x ∷ []) ∷ ws
glue-space x s ys [] h = refl
glue-space x s ys (w ∷ ws) h = rw h refl

glue-append :
    (x y : ℕ) (xs zs : List ℕ) (w : List ℕ) (ws vs : List (List ℕ))
    → glue x (y ∷ zs) ((w ∷ ws) ++ vs) ≡ glue x (y ∷ xs) (w ∷ ws) ++ vs
glue-append x y xs zs w ws vs = elim (Bool-cases (is_space y)) [
  | inl h ↦ rw h refl
  | inr h ↦ rw h refl
]

glue-cons :
    (x : ℕ) (xs : List ℕ) (ws : List (List ℕ))
    → (v : List ℕ) × (vs : List (List ℕ)) × (glue x xs ws ≡ v ∷ vs)
glue-cons x [] ws = (x ∷ [], ws, refl)
glue-cons x (y ∷ xs) [] = (x ∷ [], [], refl)
glue-cons x (y ∷ xs) (w ∷ ws) = elim (Bool-cases (is_space y)) [
  | inl h ↦ (x ∷ [], w ∷ ws, rw h refl)
  | inr h ↦ (x ∷ w, ws, rw h refl)
]

tokens-none : tokens [] ≡ []
unfolding tokens
tokens-none = refl

tokens-skip : (c : ℕ) (text : List ℕ) → is_space c ≡ true → tokens (c ∷ text) ≡ tokens text
unfolding tokens
tokens-skip c text h = rw h refl

tokens-glue :
    (c : ℕ) (text : List ℕ) → is_space c ≡ false → tokens (c ∷ text) ≡ glue c text (tokens text)
unfolding tokens
tokens-glue c text h = rw h refl

-- The first byte of a text is put before what its tail separates into.
glue-split :
    (x y : ℕ) (xs zs : List ℕ) (vs : List (List ℕ))
    → glue x (y ∷ zs) (tokens (y ∷ xs) ++ vs) ≡ glue x (y ∷ xs) (tokens (y ∷ xs)) ++ vs
glue-split x y xs zs vs = elim (Bool-cases (is_space y)) [
  | inl h ↦
      glue-space x y zs (tokens (y ∷ xs) ++ vs) h
      ∙ ap (λ ws. ws ++ vs) (sym (glue-space x y xs (tokens (y ∷ xs)) h))
  | inr h ↦
      let (w, ws, e) = glue-cons y xs (tokens xs) in
      rw (tokens-glue y xs h) (rw e (glue-append x y xs zs w ws vs))
]

-- A space separates: the tokens of both sides stand one after the other.
tokens-space :
    (xs ys : List ℕ) (s : ℕ) → is_space s ≡ true → tokens (xs ++ s ∷ ys) ≡ tokens xs ++ tokens ys
tokens-space [] ys s h = tokens-skip s ys h ∙ ap (λ ws. ws ++ tokens ys) (sym tokens-none)
tokens-space (x ∷ []) ys s h = elim (Bool-cases (is_space x)) [
  | inl skip ↦
      tokens-skip x (s ∷ ys) skip
      ∙ tokens-skip s ys h
      ∙ ap (λ ws. ws ++ tokens ys) (sym (tokens-skip x [] skip ∙ tokens-none))
  | inr word ↦
      tokens-glue x (s ∷ ys) word
      ∙ glue-space x s ys (tokens (s ∷ ys)) h
      ∙ ap (λ ws. (x ∷ []) ∷ ws) (tokens-skip s ys h)
      ∙ ap (λ ws. ws ++ tokens ys)
          (sym (tokens-glue x [] word ∙ ap (λ ws. (x ∷ []) ∷ ws) tokens-none))
]
tokens-space (x ∷ y ∷ xs) ys s h = elim (Bool-cases (is_space x)) [
  | inl skip ↦
      rw (tokens-skip x (y ∷ xs ++ s ∷ ys) skip)
        (rw (tokens-skip x (y ∷ xs) skip) (tokens-space (y ∷ xs) ys s h))
  | inr word ↦ rw (tokens-glue x (y ∷ xs ++ s ∷ ys) word) (
      rw (tokens-glue x (y ∷ xs) word)
        (rw (tokens-space (y ∷ xs) ys s h) (glue-split x y xs (xs ++ s ∷ ys) (tokens ys))))
]

tokens-spaces : (ss ys : List ℕ) → All (λ c. is_space c ≡ true) ss → tokens (ss ++ ys) ≡ tokens ys
unfolding tokens
tokens-spaces [] ys h = refl
tokens-spaces (s ∷ ss) ys h = rw (h.0) (tokens-spaces ss ys h.1)

-- For a separator that is not empty, what it consists of does not matter.
tokens-separated :
    (xs ys : List ℕ) (s : ℕ) (ss : List ℕ)
    → is_space s ≡ true
    → All (λ c. is_space c ≡ true) ss
    → tokens (xs ++ s ∷ (ss ++ ys)) ≡ tokens xs ++ tokens ys
tokens-separated xs ys s ss h hs =
    tokens-space xs (ss ++ ys) s h ∙ ap (λ ws. tokens xs ++ ws) (tokens-spaces ss ys hs)

-- The tokens put together are the text without its spaces.
abbrev pub joined : List (List ℕ) → List ℕ
joined [] = []
joined (w ∷ ws) = w ++ joined ws

glue-joined : (x : ℕ) (xs : List ℕ) (ws : List (List ℕ)) → joined (glue x xs ws) ≡ x ∷ joined ws
glue-joined x [] ws = refl
glue-joined x (y ∷ xs) [] = refl
glue-joined x (y ∷ xs) (w ∷ ws) = elim (Bool-cases (is_space y)) [
  | inl h ↦ rw h refl
  | inr h ↦ rw h refl
]

abbrev pub dense : List ℕ → List ℕ
dense text = select (λ c. not (is_space c)) text

joined-tokens : (text : List ℕ) → joined (tokens text) ≡ dense text
unfolding tokens select
joined-tokens [] = refl
joined-tokens (c ∷ text) = elim (Bool-cases (is_space c)) [
  | inl h ↦ rw h (joined-tokens text)
  | inr h ↦ rw h (glue-joined c text (tokens text) ∙ ap (λ ys. c ∷ ys) (joined-tokens text))
]

-- The whitespace-tolerant comparison does not see which spaces, or how many, stand between two
-- parts of an output.
pub spacing_ignored :
    (xs ys : List ℕ) (s t : ℕ) (ss ts : List ℕ)
    → is_space s ≡ true
    → is_space t ≡ true
    → All (λ c. is_space c ≡ true) ss
    → All (λ c. is_space c ≡ true) ts
    → outputs_match (xs ++ s ∷ (ss ++ ys)) (xs ++ t ∷ (ts ++ ys)) CompareMode.whitespace ≡ true
unfolding outputs_match
spacing_ignored xs ys s t ss ts hs ht hss hts =
    rw (tokens-separated xs ys s ss hs hss, tokens-separated xs ys t ts ht hts)
      (lists_eq_refl (tokens xs ++ tokens ys))

-- What the mode says of outputs that match.
abbrev pub Matching : CompareMode → List ℕ → List ℕ → Type 0
Matching CompareMode.exact actual expected = actual ≡ expected
Matching CompareMode.whitespace actual expected = dense actual ≡ dense expected

-- Outputs that match are the same in exact mode; in the whitespace-tolerant mode they are the same
-- but for their spaces.
pub outputs_match-Matching :
    (actual expected : List ℕ) (mode : CompareMode)
    → outputs_match actual expected mode ≡ true
    → Matching mode actual expected
unfolding outputs_match
outputs_match-Matching actual expected CompareMode.exact h = list_eq_sound actual expected h
outputs_match-Matching actual expected CompareMode.whitespace h =
    sym (joined-tokens actual)
    ∙ ap joined (lists_eq_sound (tokens actual) (tokens expected) h)
    ∙ joined-tokens expected
