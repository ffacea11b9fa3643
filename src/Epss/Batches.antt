-- ===== src/Epss/Batches.antt =====
-- The batches in which the EPSS scores are asked for (backend/kev/epss.go).
use seagles.Common.{
  ℕ, zero, suc, ◌≤◌, ◌≡◌, ◌∙◌, refl, ap, List, [], ◌∷◌, ◌++◌, arith, length, take, drop, All,
}
use seagles.Text.{Text}
use seagles.Epss.{batches, batches_loop}

abbrev pub concat : List (List Text) → List Text
concat [] = []
concat (xs ∷ xss) = xs ++ concat xss

take-drop : (n : ℕ) (xs : List Text) → take n xs ++ drop n xs ≡ xs
take-drop zero xs = refl
take-drop (suc n) [] = refl
take-drop (suc n) (x ∷ xs) = ap (λ ys. x ∷ ys) (take-drop n xs)

length-take : (n : ℕ) (xs : List Text) → length (take n xs) ≤ n
length-take zero xs = omega arith
length-take (suc n) [] = omega arith
length-take (suc n) (x ∷ xs) = omega (arith, length-take n xs)

length-drop : (n : ℕ) (xs : List Text) → length (drop n xs) ≤ length xs
length-drop zero xs = omega arith
length-drop (suc n) [] = omega arith
length-drop (suc n) (x ∷ xs) = omega (arith, length-drop n xs)

abbrev pub IsBatch : List Text → Type 0
IsBatch batch = (1 ≤ length batch) × (length batch ≤ 30)

loop_covers :
    (n : ℕ) (ids : List Text)
    → length ids ≤ n
    → (concat (batches_loop n ids) ≡ ids) × All IsBatch (batches_loop n ids)
unfolding batches_loop
loop_covers zero [] h = (refl, tt)
loop_covers zero (id ∷ ids) h = absurd (omega (arith, h))
loop_covers (suc n) [] h = (refl, tt)
loop_covers (suc n) (id ∷ ids) h =
    let (e, a) = loop_covers n (drop 29 ids) (omega (arith, h, length-drop 29 ids)) in
    (
      ap (λ ys. take 30 (id ∷ ids) ++ ys) e ∙ take-drop 30 (id ∷ ids),
      ((omega arith, length-take 30 (id ∷ ids)), a),
    )

-- The batches are the ids in their order, each of them in one batch, and a batch has between one and
-- 30 ids.
pub batches_cover : (ids : List Text) → (concat (batches ids) ≡ ids) × All IsBatch (batches ids)
unfolding batches
batches_cover ids = loop_covers (length ids) ids (omega arith)
