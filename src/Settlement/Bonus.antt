-- ===== src/Settlement/Bonus.antt =====
-- packages/domain/src/settlement.ts, the bonuses: sorting the approved ids keeps them, and the pool
-- is divided exactly among them.
use Prim.Native.Nat.{min}
use pods.Base.{
  ℕ, zero, suc, ◌+◌, ◌-◌, ◌*◌, ◌/◌, ◌%◌, ◌<◌, ◌≡◌, refl, Bool, false, ◌||◌, List, [], ◌∷◌, arith,
  ltb, ◌==◌, if◌then◌else◌, Text, same_text, same_text_iff, keys, has, IsUnique, length, sum_of,
}
use pods.Settlement.{assign_bonus, insert_sorted, sort_ids}

-- How many of the `n` indices from `index` on stand below `remainder`.
below : ℕ → ℕ → ℕ → ℕ
below remainder index zero = 0
below remainder index (suc n) =
    (if ltb index remainder then 1 else 0) + below remainder (suc index) n

below-eq : (n r i : ℕ) → below r i n ≡ min (r - i) n
unfolding below
below-eq zero r i = omega arith
below-eq (suc n) r i = ground (arith, below-eq n r (suc i))

sum_of-assign_bonus :
    (b r i : ℕ) (ids : List Text)
    → sum_of (λ e. e.1) (assign_bonus b r i ids) ≡ b * length ids + below r i (length ids)
unfolding assign_bonus below
sum_of-assign_bonus b r i [] = omega arith
sum_of-assign_bonus b r i (x ∷ xs) = ground (arith, sum_of-assign_bonus b r (suc i) xs)

-- The quotient for everybody and 1 more for the first members up to the remainder add up to the
-- pool, where there is a member.
pub assign_bonus-total :
    (pool : ℕ) (ids : List Text)
    → 0 < length ids
    → sum_of (λ e. e.1) (assign_bonus (pool / length ids) (pool % length ids) 0 ids) ≡ pool
assign_bonus-total pool ids h = grind (
  arith,
  sum_of-assign_bonus (pool / length ids) (pool % length ids) 0 ids,
  below-eq (length ids) (pool % length ids) 0,
)

pub assign_bonus-total_or_zero :
    (pool : ℕ) (ids : List Text)
    → sum_of
        (λ e. e.1)
        (assign_bonus
          (if ltb 0 (length ids) then pool / length ids else 0)
          (if ltb 0 (length ids) then pool % length ids else 0)
          0
          ids)
      ≡ (if length ids == 0 then 0 else pool)
assign_bonus-total_or_zero pool [] = unfold assign_bonus in refl
assign_bonus-total_or_zero pool (x ∷ xs) = ground (arith, assign_bonus-total pool (x ∷ xs))

pub keys-assign_bonus : (b r i : ℕ) (ids : List Text) → keys (assign_bonus b r i ids) ≡ ids
unfolding assign_bonus
keys-assign_bonus b r i [] = refl
keys-assign_bonus b r i (x ∷ xs) = ground (arith, keys-assign_bonus b r (suc i) xs)

module _ (locale_le : Text → Text → Bool) where
  has-insert_sorted :
      (k x : Text) (xs : List Text)
      → has k (insert_sorted locale_le x xs) ≡ (same_text x k || has k xs)
  unfolding insert_sorted
  has-insert_sorted k x [] = refl
  has-insert_sorted k x (y ∷ ys) = ground (arith, has-insert_sorted k x ys)

  pub has-sort_ids : (k : Text) (xs : List Text) → has k (sort_ids locale_le xs) ≡ has k xs
  unfolding sort_ids
  has-sort_ids k [] = refl
  has-sort_ids k (x ∷ xs) =
      ground (arith, has-insert_sorted k x (sort_ids locale_le xs), has-sort_ids k xs)

  insert_sorted-IsUnique :
      (x : Text) (xs : List Text)
      → has x xs ≡ false
      → IsUnique xs
      → IsUnique (insert_sorted locale_le x xs)
  unfolding insert_sorted
  insert_sorted-IsUnique x [] h u = ground arith
  insert_sorted-IsUnique x (y ∷ ys) h u = ground (
    arith,
    same_text_iff x y,
    same_text_iff y x,
    has-insert_sorted y x ys,
    insert_sorted-IsUnique x ys,
  )

  pub sort_ids-IsUnique : (xs : List Text) → IsUnique xs → IsUnique (sort_ids locale_le xs)
  unfolding sort_ids
  sort_ids-IsUnique [] u = tt
  sort_ids-IsUnique (x ∷ xs) u =
      insert_sorted-IsUnique x (sort_ids locale_le xs) (ground (arith, has-sort_ids x xs))
        (sort_ids-IsUnique xs u.1)

  length-insert_sorted :
      (x : Text) (xs : List Text) → length (insert_sorted locale_le x xs) ≡ suc (length xs)
  unfolding insert_sorted
  length-insert_sorted x [] = refl
  length-insert_sorted x (y ∷ ys) = ground (arith, length-insert_sorted x ys)

  pub length-sort_ids : (xs : List Text) → length (sort_ids locale_le xs) ≡ length xs
  unfolding sort_ids
  length-sort_ids [] = refl
  length-sort_ids (x ∷ xs) =
      ground (arith, length-insert_sorted x (sort_ids locale_le xs), length-sort_ids xs)
