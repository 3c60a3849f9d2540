-- ===== src/Monitor/Placeholders/Tests.antt =====
-- A JSON body with literal braces, a known, an empty and an unknown token.
use sim_connectivity_monitor.Prelude.{
  ◌≡◌, refl, none, some, List, [], ◌∷◌, ◌++◌, Text, codes, arith,
}
use sim_connectivity_monitor.Monitor.Placeholders.{Context, render}
use sim_connectivity_monitor.Monitor.Placeholders.Pieces.{
  Piece, plain, name_of, IsPiece, is_inert, template_of, substituted, render-pieces,
}

abbrev known : Context
known = (codes "iccid", some (codes "8944")) ∷ (codes "ip", none) ∷ []

-- An opening brace before a quotation mark.
abbrev opening : Text
opening = 123 ∷ 34 ∷ []

abbrev pieces : List Piece
pieces =
    plain opening
    ∷ name_of b'i' (codes "ccid")
    ∷ name_of b'i' (codes "p")
    ∷ name_of b'x' []
    ∷ plain (125 ∷ [])
    ∷ []

rendered :
    render known (template_of pieces)
    ≡ (opening ++ codes "8944" ++ (123 ∷ 120 ∷ 125 ∷ 125 ∷ []), codes "x" ∷ [])
unfolding render template_of
rendered = refl

render-pieces_example : render known (template_of pieces) ≡ substituted known pieces
unfolding IsPiece is_inert
render-pieces_example =
    render-pieces known pieces
      (refl, ((refl, ground arith), ((refl, ground arith), ((refl, tt), (refl, tt)))))
