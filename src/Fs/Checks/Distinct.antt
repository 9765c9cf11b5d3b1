-- ===== src/Fs/Checks/Distinct.antt =====
-- Distinct addresses: inserted one by one, none is met twice.
use ostep_projects_finish.Common.{
  ℕ, ◌≡◌, refl, sym, subst, ◌↔◌, Bool, true, false, ◌||◌, Option, none, some, List, [], ◌∷◌, All,
  ◌==◌, if◌then◌else◌, ==→ne, ne→==,
}

abbrev pub member : ℕ → List ℕ → Bool
member a [] = false
member a (x ∷ xs) = a == x || member a xs

abbrev pub IsDistinct : List ℕ → Type 0
IsDistinct [] = Unit
IsDistinct (x ∷ xs) = (member x xs ≡ false) × IsDistinct xs

-- Adding addresses one by one, until one is there already.
unfoldable pub insert_all : List ℕ → List ℕ → Option (List ℕ)
insert_all seen [] = some seen
insert_all seen (a ∷ xs) =
    let rest = insert_all (a ∷ seen) xs in if member a seen then none else rest

pub insert_all_new :
    (seen : List ℕ) (a : ℕ) (xs : List ℕ)
    → member a seen ≡ false
    → insert_all seen (a ∷ xs) ≡ insert_all (a ∷ seen) xs
unfolding insert_all
insert_all_new seen a xs e = rw e

pub insert_all_old :
    (seen : List ℕ) (a : ℕ) (xs : List ℕ) → member a seen ≡ true → insert_all seen (a ∷ xs) ≡ none
unfolding insert_all
insert_all_old seen a xs e = rw e

-- None of `xs` is in `seen`.
abbrev pub IsNew : List ℕ → List ℕ → Type 0
IsNew seen xs = All (λ x. member x seen ≡ false) xs

abbrev pub IsSome : Option (List ℕ) → Type 0
IsSome none = ⊥
IsSome (some s) = Unit

or_false : (a b : Bool) → (a || b) ≡ false → (a ≡ false) × (b ≡ false)
or_false true b h = cc
or_false false b h = (refl, h)

-- `x` is in no list of addresses that are new to a list with `x` in it.
IsNew-cons→ :
    (x : ℕ) (seen xs : List ℕ) → IsNew (x ∷ seen) xs → (member x xs ≡ false) × IsNew seen xs
IsNew-cons→ x seen [] h = (refl, tt)
IsNew-cons→ x seen (y ∷ ys) h =
    let (a, b) = or_false (y == x) (member y seen) h.0 in
    let (c, d) = IsNew-cons→ x seen ys h.1 in (rw (ne→== x y (λ q. ==→ne y x a (sym q))) c, (b, d))

IsNew-cons : (x : ℕ) (seen xs : List ℕ) → member x xs ≡ false → IsNew seen xs → IsNew (x ∷ seen) xs
IsNew-cons x seen [] h k = tt
IsNew-cons x seen (y ∷ ys) h k =
    let (a, b) = or_false (x == y) (member x ys) h in
    (rw (ne→== y x (λ q. ==→ne x y a (sym q))) k.0, IsNew-cons x seen ys b k.1)

pub insert_all_iff :
    (seen xs : List ℕ) → IsSome (insert_all seen xs) ↔ (IsNew seen xs × IsDistinct xs)
insert_all_iff seen [] = (λ q. (tt, tt), λ q. unfold insert_all in tt)
insert_all_iff seen (x ∷ xs) = go (member x seen) refl (insert_all_iff (x ∷ seen) xs)
  where
    go :
        (b : Bool)
        → member x seen ≡ b
        → (IsSome (insert_all (x ∷ seen) xs) ↔ (IsNew (x ∷ seen) xs × IsDistinct xs))
        → IsSome (insert_all seen (x ∷ xs)) ↔ (IsNew seen (x ∷ xs) × IsDistinct (x ∷ xs))
    go true e ih = (λ q. absurd (subst IsSome (insert_all_old seen x xs e) q), λ q. cc (q.0.0))
    go false e ih = (
      λ q.
          let (new, dist) = ih.0 (subst IsSome (insert_all_new seen x xs e) q) in
          let (out, rest) = IsNew-cons→ x seen xs new in ((e, rest), (out, dist)),
      λ q.
          subst IsSome (sym (insert_all_new seen x xs e))
            (ih.1 (IsNew-cons x seen xs q.1.0 q.0.1, q.1.1)),
    )

pub IsNew-nil : (xs : List ℕ) → IsNew [] xs
IsNew-nil [] = tt
IsNew-nil (x ∷ xs) = (refl, IsNew-nil xs)
