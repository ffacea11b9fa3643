-- ===== src/Scanner/Credentials/File.antt =====
-- The file of default credentials (backend/scanner/credentials.go).
use seagles.Common.{
  ℕ, zero, suc, ◌+◌, ◌≡◌, refl, Option, none, some, List, [], ◌∷◌, arith, take, Option-cases, inl,
  inr,
}
use seagles.Text.{Text}
use seagles.Scanner.Credentials.{Credential, parse_line, load_lines}

abbrev onto : Option Credential → List Credential → List Credential
onto none cs = cs
onto (some c) cs = c ∷ cs

-- The credentials of all the lines that have one.
abbrev pub parsed : List Text → List Credential
parsed [] = []
parsed (text ∷ rest) = onto (parse_line text) (parsed rest)

load_lines-take :
    (n k : ℕ) (lines : List Text) → n + k ≡ 99 → load_lines n lines ≡ take (suc k) (parsed lines)
unfolding load_lines
load_lines-take n k [] h = refl
load_lines-take n zero (text ∷ rest) h = elim (Option-cases (parse_line text)) [
  | inl e ↦ rw (e, load_lines) (load_lines-take n zero rest h)
  | inr (c, e) ↦ ground (arith, e, h)
]
load_lines-take n (suc k) (text ∷ rest) h = elim (Option-cases (parse_line text)) [
  | inl e ↦ rw (e, load_lines) (load_lines-take n (suc k) rest h)
  | inr (c, e) ↦ ground (arith, e, h, load_lines-take (n + 1) k rest (omega (arith, h)))
]

-- The loop loads the first hundred of the credentials that the lines hold, in their order.
pub load_lines-first : (lines : List Text) → load_lines 0 lines ≡ take 100 (parsed lines)
load_lines-first lines = load_lines-take 0 99 lines refl
