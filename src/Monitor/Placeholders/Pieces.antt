-- ===== src/Monitor/Placeholders/Pieces.antt =====
-- Rendering a template of plain pieces and tokens substitutes the tokens and nothing else.
use mathlib.Core.Path.{subst}
use sim_connectivity_monitor.Prelude.{
  ℕ, zero, suc, ◌≡◌, refl, ap, ◌∙◌, sym, Bool, true, false, ◌||◌, not, ◌&&◌, none, some, List, [],
  ◌∷◌, ◌++◌, append_assoc, Text, length, All, is_lower, ◌==◌, Bool-cases, ==_iff, length-append,
  inl, inr, arith,
}
use sim_connectivity_monitor.Monitor.Placeholders.{
  Context, is_name_char, name_tail, token, Rendered, in_front, put_token, render_from, render,
}

pub data Piece : Type 0 where
  plain : Text → Piece
  name_of : ℕ → Text → Piece

-- A text whose opening braces each stand before a character that begins no name: literal braces of
-- a JSON body.
unfoldable pub is_inert : Text → Bool
is_inert [] = true
is_inert (c ∷ []) = not (c == b'{')
is_inert (c ∷ d ∷ s) = (not (c == b'{') || not (is_lower d)) && is_inert (d ∷ s)

-- A plain piece is inert, and a name is a lower-case letter and name characters.
unfoldable pub IsPiece : Piece → Type 0
IsPiece (plain text) = is_inert text ≡ true
IsPiece (name_of c tail) = (is_lower c ≡ true) × All (λ x. is_name_char x ≡ true) tail

-- The template of the pieces.
unfoldable pub template_of : List Piece → Text
template_of [] = []
template_of (plain text ∷ pieces) = text ++ template_of pieces
template_of (name_of c tail ∷ pieces) = b'{' ∷ c ∷ tail ++ (b'}' ∷ template_of pieces)

module _ (context : Context) where
  -- Piece by piece: the plain ones stay, the tokens are looked up.
  unfoldable pub substituted : List Piece → Rendered
  unfolding put_token
  substituted [] = ([], [])
  substituted (plain text ∷ pieces) = in_front text (substituted pieces)
  substituted (name_of c tail ∷ pieces) = put_token context (c ∷ tail) (substituted pieces)

  name_tail-name :
      (tail rest : Text)
      → All (λ x. is_name_char x ≡ true) tail
      → name_tail (tail ++ (b'}' ∷ rest)) ≡ some tail
  unfolding name_tail
  name_tail-name [] rest a = refl
  name_tail-name (c ∷ tail) rest a = ground (arith, a.0, name_tail-name tail rest a.1)

  token-name :
      (c : ℕ) (tail rest : Text)
      → is_lower c ≡ true
      → All (λ x. is_name_char x ≡ true) tail
      → token (c ∷ tail ++ (b'}' ∷ rest)) ≡ some (c ∷ tail)
  unfolding token
  token-name c tail rest h a = rw (h, name_tail-name tail rest a) refl

  token-other : (c : ℕ) (s : Text) → is_lower c ≡ false → token (c ∷ s) ≡ none
  unfolding token
  token-other c s h = rw h refl

  skipped :
      (front rest : Text)
      → render_from context (length front) (front ++ rest) ≡ render_from context zero rest
  unfolding render_from
  skipped [] rest = refl
  skipped (c ∷ front) rest = skipped front rest

  one_on :
      (c : ℕ) (s : Text)
      → ((c == b'{') ≡ false)
      → render_from context zero (c ∷ s) ≡ in_front (c ∷ []) (render_from context zero s)
  unfolding render_from
  one_on c s h = rw (h, render_from) refl

  brace_on :
      (s : Text)
      → token s ≡ none
      → render_from context zero (b'{' ∷ s) ≡ in_front (b'{' ∷ []) (render_from context zero s)
  unfolding render_from
  brace_on s h = rw (h, render_from) refl

  token_on :
      (s name : Text)
      → token s ≡ some name
      → render_from context zero (b'{' ∷ s)
        ≡ put_token context name (render_from context (suc (length name)) s)
  unfolding render_from
  token_on s name h = rw (h, render_from) refl

  render-plain :
      (text rest : Text)
      → is_inert text ≡ true
      → render_from context zero (text ++ rest) ≡ in_front text (render_from context zero rest)
  unfolding is_inert
  render-plain [] rest h = refl
  render-plain (c ∷ []) rest h = one_on c rest (ground (arith, h))
  render-plain (c ∷ d ∷ s) rest h = elim (Bool-cases (c == b'{')) [
    | inr e ↦
        one_on c (d ∷ s ++ rest) e
        ∙ ap (λ r. in_front (c ∷ []) r) (render-plain (d ∷ s) rest (ground (arith, h)))
    | inl e ↦
        subst
          (λ x.
            render_from context zero (x ∷ d ∷ s ++ rest)
            ≡ in_front (x ∷ d ∷ s) (render_from context zero rest))
          (sym ((==_iff c 123).0 e))
          (brace_on (d ∷ s ++ rest) (token-other d (s ++ rest) (ground (arith, h, e)))
            ∙ ap (λ r. in_front (b'{' ∷ []) r) (render-plain (d ∷ s) rest (ground (arith, h))))
  ]

  render-name :
      (c : ℕ) (tail rest : Text)
      → is_lower c ≡ true
      → All (λ x. is_name_char x ≡ true) tail
      → render_from context zero (b'{' ∷ c ∷ tail ++ (b'}' ∷ rest))
        ≡ put_token context (c ∷ tail) (render_from context zero rest)
  render-name c tail rest h a =
      token_on (c ∷ tail ++ (b'}' ∷ rest)) (c ∷ tail) (token-name c tail rest h a)
      ∙ ap (λ r. put_token context (c ∷ tail) r)
          (ap (λ (k : ℕ). render_from context k (c ∷ tail ++ (b'}' ∷ rest))) size
            ∙ ap (λ s. render_from context (length name) s)
                (sym (append_assoc (c ∷ tail) (b'}' ∷ []) rest))
            ∙ skipped name rest)
    where
      name : Text
      name = (c ∷ tail) ++ (b'}' ∷ [])

      size : suc (length (c ∷ tail)) ≡ length name
      size = omega (arith, length-append (c ∷ tail) (b'}' ∷ []))

  -- Take a template that is put together of tokens and of texts in which no opening brace stands
  -- last or before a lower-case letter, as the literal braces of JSON. It is rendered piece by
  -- piece: the texts stay, a token with a value becomes the value, one without becomes nothing, and
  -- an unknown one stays and is reported.
  pub render-pieces :
      (pieces : List Piece)
      → All IsPiece pieces
      → render context (template_of pieces) ≡ substituted pieces
  unfolding render template_of substituted IsPiece
  render-pieces [] a = refl
  render-pieces (plain text ∷ pieces) a =
      render-plain text (template_of pieces) a.0
      ∙ ap (λ r. in_front text r) (render-pieces pieces a.1)
  render-pieces (name_of c tail ∷ pieces) a =
      render-name c tail (template_of pieces) (a.0).0 (a.0).1
      ∙ ap (λ r. put_token context (c ∷ tail) r) (render-pieces pieces a.1)
