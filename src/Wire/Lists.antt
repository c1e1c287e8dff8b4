-- ===== src/Wire/Lists.antt =====
-- A list that was written item by item, and its size.
use lan_link.Prelude.{
  ℕ, suc, ◌+◌, ◌*◌, ◌≤◌, ◌≡◌, refl, ◌∙◌, List, [], ◌∷◌, ◌++◌, append_assoc, arith, ok, length,
  length-append,
}
use lan_link.Wire.{Reader, pure, read_many}
use lan_link.Wire.Laws.{next_ok}

-- `bytes` is one piece for each of the items: `r` reads a piece, and it has no more than `limit`
-- bytes.
pub data Spells {ℓ} {A : Type ℓ} (limit : ℕ) (r : Reader A) : List A → List ℕ → Type ℓ where
  no_items : {bytes : List ℕ} → bytes ≡ [] → Spells limit r [] bytes
  item :
      {a : A} {items : List A} {bytes : List ℕ} (piece others : List ℕ)
      → ((ys : List ℕ) → r (piece ++ ys) ≡ ok (a, ys))
      → length piece ≤ limit
      → bytes ≡ piece ++ others
      → Spells limit r items others
      → Spells limit r (a ∷ items) bytes

module _ {ℓ} {A : Type ℓ} where
  -- As many items as were written are read.
  pub read_many_next :
      (limit : ℕ) (r : Reader A) (items : List A) (bytes ys : List ℕ)
      → Spells limit r items bytes
      → read_many (length items) r (bytes ++ ys) ≡ ok (items, ys)
  unfolding read_many pure
  read_many_next limit r [] bytes ys (no_items e) = rw e refl
  read_many_next limit r (a ∷ items) bytes ys (item piece others one size e t) =
      rw (e, append_assoc piece others ys)
        (next_ok r _ (piece ++ (others ++ ys)) (others ++ ys) a (one (others ++ ys))
          ∙ next_ok (read_many (length items) r) _ (others ++ ys) ys items
              (read_many_next limit r items others ys t))

  pub Spells-size :
      (limit : ℕ) (r : Reader A) (items : List A) (bytes : List ℕ)
      → Spells limit r items bytes
      → length bytes ≤ limit * length items
  Spells-size limit r [] bytes (no_items e) = rw e (omega arith)
  Spells-size limit r (a ∷ items) bytes (item piece others one size e t) =
      let rest = Spells-size limit r items others t in
      let step : limit * suc (length items) ≡ limit + limit * length items = omega arith in
      rw (e, length-append piece others) (rw step (omega (arith, rest, size)))
