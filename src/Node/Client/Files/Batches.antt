-- ===== src/Node/Client/Files/Batches.antt =====
-- `chunks(16)`, as `send_file` of core/nexus-core/src/node.rs uses it.
use nexus_p2p.Base.{
  ℕ, zero, suc, ◌≤◌, ◌≡◌, refl, ap, ◌∙◌, List, [], ◌∷◌, ◌++◌, arith, All, length, take, drop,
  length-take, take-append-drop,
}
use nexus_p2p.Node.Client.Files.{batches_of, batches}

abbrev concat : {A : Type 0} → List (List A) → List A
concat [] = []
concat (x ∷ xs) = x ++ concat xs

module _ {A : Type 0} where
  length-drop : (n : ℕ) (xs : List A) → length (drop n xs) ≤ length xs
  length-drop zero xs = omega arith
  length-drop (suc n) [] = omega arith
  length-drop (suc n) (x ∷ xs) = omega (arith, length-drop n xs)

  concat-batches_of : (fuel : ℕ) (xs : List A) → length xs ≤ fuel → concat (batches_of fuel xs) ≡ xs
  unfolding batches_of
  concat-batches_of zero [] h = refl
  concat-batches_of zero (x ∷ xs) h = absurd (omega (arith, h))
  concat-batches_of (suc fuel) [] h = refl
  concat-batches_of (suc fuel) (x ∷ xs) h =
      ap (λ (r : List A). take 16 (x ∷ xs) ++ r)
        (concat-batches_of fuel (drop 16 (x ∷ xs)) (omega (arith, h, length-drop 15 xs)))
      ∙ take-append-drop 16 (x ∷ xs)

  -- The fuel is enough: the batches of a list hold all of it, in its order.
  concat-batches : (xs : List A) → concat (batches xs) ≡ xs
  unfolding batches
  concat-batches xs = concat-batches_of (length xs) xs (omega arith)

  batches_of_small : (fuel : ℕ) (xs : List A) → All (λ b. length b ≤ 16) (batches_of fuel xs)
  unfolding batches_of
  batches_of_small zero xs = tt
  batches_of_small (suc fuel) [] = tt
  batches_of_small (suc fuel) (x ∷ xs) =
      (omega (arith, length-take 15 xs), batches_of_small fuel (drop 16 (x ∷ xs)))

  -- No batch has more than 16.
  batches_small : (xs : List A) → All (λ b. length b ≤ 16) (batches xs)
  unfolding batches
  batches_small xs = batches_of_small (length xs) xs
