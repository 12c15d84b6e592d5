-- ===== src/Database/Table.antt =====
-- Rows in a table: what an update does to the rows that are found and counted.
use mathlib.Core.Path.{subst}
use mathlib.Core.Option.{some-injective}
use pods.Base.{
  ◌+◌, ◌≡◌, refl, sym, ap, ◌∙◌, Bool, true, false, Option, none, some, List, [], ◌∷◌, map, Text,
  same_text_iff, has, IsUnique, find, one_if, count, some_of, if◌then◌else◌, Bool-cases,
  Option-cases, inl, inr, arith, or_false,
}

module _ {ℓ} {R : Type ℓ} where
  -- `update … set … where`, on every row that the condition holds of.
  unfoldable pub patch : (R → Bool) → (R → R) → List R → List R
  patch where_ set [] = []
  patch where_ set (r ∷ rows) = (if where_ r then set r else r) ∷ patch where_ set rows

  -- The first row that `returning` gives.
  abbrev pub returned : (R → Bool) → (R → R) → List R → Option R
  returned where_ set rows = elim (find where_ rows) [ none ↦ none | some r ↦ some (set r) ]

  abbrev pub changed : (R → Bool) → (R → R) → R → R
  changed where_ set r = if where_ r then set r else r

module _ {ℓ} {R : Type ℓ} where
  pub find-some : (q : R → Bool) (rows : List R) {r : R} → find q rows ≡ some r → q r ≡ true
  find-some q [] h = cc
  find-some q (x ∷ rows) {r} h = elim (Bool-cases (q x)) [
    | inl e ↦ ground arith
    | inr e ↦ find-some q rows {r = r} (rw e at h)
  ]

  -- An update that leaves what a search looks at alone is seen by the search.
  pub find-patch :
      (q where_ : R → Bool) (set : R → R) (rows : List R)
      → ((r : R) → q (set r) ≡ q r)
      → find q (patch where_ set rows)
        ≡ (elim (find q rows) [ none ↦ none | some r ↦ some (changed where_ set r) ])
  unfolding patch
  find-patch q where_ set [] h = refl
  find-patch q where_ set (r ∷ rows) h = ground (arith, h r, find-patch q where_ set rows h)

module _ {ℓ} {R : Type ℓ} (id_of : R → Text) where
  abbrev pub ids : List R → List Text
  ids rows = map id_of rows

  pub ids-patch :
      (where_ : R → Bool) (set : R → R) (rows : List R)
      → ((r : R) → id_of (set r) ≡ id_of r)
      → ids (patch where_ set rows) ≡ ids rows
  unfolding patch
  ids-patch where_ set [] h = refl
  ids-patch where_ set (r ∷ rows) h = ground (arith, h r, ids-patch where_ set rows h)

  -- An update of rows with an identity that no row has.
  count-patch_absent :
      (q where_ : R → Bool) (set : R → R) (k : Text) (rows : List R)
      → ((r : R) → where_ r ≡ true → id_of r ≡ k)
      → has k (ids rows) ≡ false
      → count q (patch where_ set rows) ≡ count q rows
  unfolding patch
  count-patch_absent q where_ set k [] w h = refl
  count-patch_absent q where_ set k (r ∷ rows) w h = ground (
    arith,
    w r,
    same_text_iff (id_of r) k,
    same_text_iff k (id_of r),
    count-patch_absent q where_ set k rows w,
  )

  pub has-find :
      (found : R → Bool) (rows : List R) {r : R}
      → find found rows ≡ some r
      → has (id_of r) (ids rows) ≡ true
  has-find found [] h = cc
  has-find found (x ∷ rows) {r} h = elim (Bool-cases (found x)) [
    | inl here ↦
        let same : x ≡ r = ground arith in
        ground (arith, ap id_of same, same_text_iff (id_of x) (id_of r))
    | inr other ↦ ground (arith, has-find found rows {r = r} (rw other at h))
  ]

  not_where :
      {where_ : R → Bool} (x r : R) (ks : List Text)
      → ((y : R) → where_ y ≡ true → id_of y ≡ id_of r)
      → has (id_of x) ks ≡ false
      → has (id_of r) ks ≡ true
      → where_ x ≡ false
  not_where {where_} x r ks h u k = elim (Bool-cases (where_ x)) [
    | inl e ↦ cc (ap (λ (t : Text). has t ks) (h x e))
    | inr e ↦ e
  ]

  -- An update of the one row with an identity counts that row anew.
  pub count-patch :
      (q where_ found : R → Bool) (set : R → R) (rows : List R) {r : R}
      → IsUnique (ids rows)
      → find found rows ≡ some r
      → where_ r ≡ true
      → ((x : R) → where_ x ≡ true → id_of x ≡ id_of r)
      → count q (patch where_ set rows) + one_if (q r) ≡ count q rows + one_if (q (set r))
  unfolding patch
  count-patch q where_ found set [] u f w h = cc
  count-patch q where_ found set (x ∷ rows) {r} u f w h = elim (Bool-cases (found x)) [
    | inl here ↦
        let same : x ≡ r = ground arith in
        let rest =
          count-patch_absent q where_ set (id_of r) rows h
            (subst (λ y. has (id_of y) (ids rows) ≡ false) same u.0) in
        ground (arith, rest, ap where_ same, ap q same, ap (λ (y : R). q (set y)) same)
    | inr other ↦
        let later : find found rows ≡ some r = ground arith in
        let ih = count-patch q where_ found set rows {r = r} u.1 later w h in
        let apart : where_ x ≡ false = not_where x r (ids rows) h u.0 (has-find found rows later) in
        ground (arith, ih, apart)
  ]

  -- With unique identities, the row with an identity is found by any search that it passes.
  pub find_unique :
      (found q : R → Bool) (rows : List R) {r : R}
      → IsUnique (ids rows)
      → find found rows ≡ some r
      → q r ≡ true
      → ((x : R) → q x ≡ true → id_of x ≡ id_of r)
      → find q rows ≡ some r
  find_unique found q [] u f w h = cc
  find_unique found q (x ∷ rows) {r} u f w h = elim (Bool-cases (found x)) [
    | inl here ↦ let same : x ≡ r = ground arith in ground (arith, ap q same, same)
    | inr other ↦
        let later : find found rows ≡ some r = ground arith in
        let ih = find_unique found q rows {r = r} u.1 later w h in
        let apart : q x ≡ false = not_where x r (ids rows) h u.0 (has-find found rows later) in
        ground (arith, ih, apart)
  ]

module _ {ℓ} {R : Type ℓ} where
  pub count-patch_same :
      (q where_ : R → Bool) (set : R → R) (rows : List R)
      → ((r : R) → q (set r) ≡ q r)
      → count q (patch where_ set rows) ≡ count q rows
  unfolding patch
  count-patch_same q where_ set [] h = refl
  count-patch_same q where_ set (r ∷ rows) h =
      ground (arith, h r, count-patch_same q where_ set rows h)

  -- The row that `returning` gives is the one that was found, as it is set.
  pub returned-some :
      (where_ : R → Bool) (set : R → R) (rows : List R) {r : R}
      → returned where_ set rows ≡ some r
      → (row : R) × (find where_ rows ≡ some row) × (set row ≡ r)
  returned-some where_ set rows {r} h = elim (Option-cases (find where_ rows)) [
    | inl n ↦ cc (rw (n, returned) at h)
    | inr (row, e) ↦ (row, e, some-injective _ _ (rw (e, returned) at h))
  ]

  pub find-none_of :
      (p q : R → Bool) (rows : List R) {r : R}
      → some_of p rows ≡ false
      → find q rows ≡ some r
      → p r ≡ false
  find-none_of p q [] h f = cc
  find-none_of p q (x ∷ rows) {r} h f =
      let (here, later) = or_false (p x) (some_of p rows) h in
      elim (Bool-cases (q x)) [
        | inl e ↦ let same : x ≡ r = ground arith in sym (ap p same) ∙ here
        | inr e ↦ find-none_of p q rows {r = r} later (rw e at f)
      ]
