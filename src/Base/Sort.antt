-- ===== src/Base/Sort.antt =====
-- `Array.prototype.sort` with a comparison: a stable sort. `before a b` says that the comparison
-- of `a` with `b` is negative.
use podlog.Base.Test.{if◌then◌else◌, Bool-cases}
use mathlib.Core.Path.{◌≡◌, refl, sym, ap, ◌∙◌}
use mathlib.Core.Bool.{Bool, true, false}
use mathlib.Core.Logic.{inl, inr}
use mathlib.Core.List.{List, [], ◌∷◌, Perm}
use mathlib.Core.List.Perm
use podlog.Base.Lists.{All, keep, keep-no}

module _ {ℓ} {A : Type ℓ} (before : A → A → Bool) where
  unfoldable pub insert_sorted : A → List A → List A
  insert_sorted x [] = x ∷ []
  insert_sorted x (y ∷ ys) = if before y x then y ∷ insert_sorted x ys else x ∷ y ∷ ys

  unfoldable pub sort : List A → List A
  unfolding insert_sorted
  sort [] = []
  sort (x ∷ xs) = insert_sorted x (sort xs)

  insert_sorted-perm : (x : A) (xs : List A) → Perm (insert_sorted x xs) (x ∷ xs)
  unfolding insert_sorted
  insert_sorted-perm x [] = Perm.refl (x ∷ [])
  insert_sorted-perm x (y ∷ ys) = elim (Bool-cases (before y x)) [
    | inl h ↦ rw h (Perm.trans (Perm.cons y (insert_sorted-perm x ys)) (Perm.swap x y ys))
    | inr h ↦ rw h (Perm.refl (x ∷ y ∷ ys))
  ]

  pub sort-perm : (xs : List A) → Perm (sort xs) xs
  unfolding sort
  sort-perm [] = Perm.refl []
  sort-perm (x ∷ xs) = Perm.trans (insert_sorted-perm x (sort xs)) (Perm.cons x (sort-perm xs))

  module _ (same : A → Bool)
      (tied : (a b : A) → same a ≡ true → same b ≡ true → before a b ≡ false) where
    keep-insert_sorted : (x : A) (xs : List A) → keep same (insert_sorted x xs) ≡ keep same (x ∷ xs)
    unfolding insert_sorted
    keep-insert_sorted x [] = refl
    keep-insert_sorted x (y ∷ ys) = elim (Bool-cases (before y x)) [
      | inl h ↦ elim (Bool-cases (same y)) [
        | inl p ↦ elim (Bool-cases (same x)) [
          | inl q ↦ (let e : false ≡ true = sym (tied y x p q) ∙ h in cc)
          | inr q ↦ rw (h, p, q) (ap (◌∷◌ y) (keep-insert_sorted x ys ∙ keep-no same x ys q))
        ]
        | inr p ↦ rw (h, p) (keep-insert_sorted x ys)
      ]
      | inr h ↦ rw h refl
    ]

    -- Entries of which none stands before another keep their order.
    pub keep-sort : (xs : List A) → keep same (sort xs) ≡ keep same xs
    unfolding sort
    keep-sort [] = refl
    keep-sort (x ∷ xs) =
        keep-insert_sorted x (sort xs) ∙ ap (λ r. if same x then x ∷ r else r) (keep-sort xs)

  -- No entry stands after one that the comparison puts behind it.
  abbrev pub IsSorted : List A → Type 0
  IsSorted [] = Unit
  IsSorted (x ∷ xs) = All (λ y. before y x ≡ false) xs × IsSorted xs

  module _ (asymmetric : (a b : A) → before a b ≡ true → before b a ≡ false)
      (negatively_transitive : (a b c : A)
        → before b a ≡ false
        → before c b ≡ false
        → before c a ≡ false) where
    All-insert_sorted :
        (b x : A) (xs : List A)
        → before x b ≡ false
        → All (λ y. before y b ≡ false) xs
        → All (λ y. before y b ≡ false) (insert_sorted x xs)
    unfolding insert_sorted
    All-insert_sorted b x [] p h = (p, tt)
    All-insert_sorted b x (y ∷ ys) p (q, h) = elim (Bool-cases (before y x)) [
      | inl e ↦ rw e (q, All-insert_sorted b x ys p h)
      | inr e ↦ rw e (p, (q, h))
    ]

    All-transitive :
        (a b : A) (xs : List A)
        → before b a ≡ false
        → All (λ y. before y b ≡ false) xs
        → All (λ y. before y a ≡ false) xs
    All-transitive a b [] p h = tt
    All-transitive a b (x ∷ xs) p (q, h) =
        (negatively_transitive a b x p q, All-transitive a b xs p h)

    insert_sorted-IsSorted : (x : A) (xs : List A) → IsSorted xs → IsSorted (insert_sorted x xs)
    unfolding insert_sorted
    insert_sorted-IsSorted x [] h = (tt, tt)
    insert_sorted-IsSorted x (y ∷ ys) (q, h) = elim (Bool-cases (before y x)) [
      | inl e ↦ rw e (All-insert_sorted y x ys (asymmetric y x e) q, insert_sorted-IsSorted x ys h)
      | inr e ↦ rw e ((e, All-transitive x y ys e q), (q, h))
    ]

    pub sort-IsSorted : (xs : List A) → IsSorted (sort xs)
    unfolding sort
    sort-IsSorted [] = tt
    sort-IsSorted (x ∷ xs) = insert_sorted-IsSorted x (sort xs) (sort-IsSorted xs)
