-- ===== src/MapReduce/Reduce.antt =====
-- `MR_reduce` with wordcount's reducer ends, and prints how often each key stands in its partition.
use ostep_projects_finish.Common.{
  ℕ, zero, suc, ◌+◌, ◌≤◌, ◌<◌, ◌≡◌, ◌⊎◌, refl, sym, ap, ap₂, ◌∙◌, subst, true, false, Option, none,
  some, List, [], ◌∷◌, arith, length, drop-drop, get_elem?, drop, drop-cons, get_elem?-none,
  if◌then◌else◌, Bool-cases, inl, inr, str_eq, str_eq→eq, str_eq_refl,
}
use ostep_projects_finish.MapReduce.{
  Bytes, MapData, Part, get_next, count_values, Line, reduce, mr_reduce,
}

-- A key in front of the groups of the pairs behind it.
abbrev pub push_key : Bytes → List Line → List Line
push_key k [] = (k, 1) ∷ []
push_key k ((j, n) ∷ ls) = if str_eq k j then (j, n + 1) ∷ ls else (k, 1) ∷ (j, n) ∷ ls

-- Each group of neighbours with one key, as a line.
abbrev pub groups : List MapData → List Line
groups [] = []
groups (d ∷ ds) = push_key d.key (groups ds)

abbrev leading : Bytes → List MapData → ℕ
leading k [] = 0
leading k (d ∷ ds) = if str_eq d.key k then leading k ds + 1 else 0

abbrev after : Bytes → List MapData → List MapData
after k [] = []
after k (d ∷ ds) = if str_eq d.key k then after k ds else d ∷ ds

str_ne : (s t : Bytes) → str_eq s t ≡ false → str_eq t s ≡ false
str_ne s t h = go (Bool-cases (str_eq t s))
  where
    go : (str_eq t s ≡ true) ⊎ (str_eq t s ≡ false) → str_eq t s ≡ false
    go (inl e) = cc (h, str_eq_refl s, str_eq→eq t s e)
    go (inr e) = e

groups-leading :
    (k : Bytes) (ds : List MapData)
    → push_key k (groups ds) ≡ (k, leading k ds + 1) ∷ groups (after k ds)
groups-leading k [] = refl
groups-leading k (d ∷ ds) = elim (Bool-cases (str_eq d.key k)) [
  | inl e ↦ rw (groups-leading d.key ds, str_eq→eq d.key k e, str_eq_refl k) refl
  | inr e ↦
      rw (groups-leading d.key ds, e, str_ne d.key k e)
        (ap (λ t. (k, 1) ∷ t) (sym (groups-leading d.key ds)))
]

-- A partition at the position `i`.
abbrev at : List MapData → ℕ → Part
at l i = record { data_list = l; part_count = i }

get_next_same :
    (l : List MapData) (i : ℕ) (k : Bytes) (d : MapData) (ds : List MapData)
    → drop i l ≡ d ∷ ds
    → str_eq d.key k ≡ true
    → get_next k (at l i) ≡ (some d.value, at l (i + 1))
unfolding get_next
get_next_same l i k d ds e h = rw ((drop-cons i l d ds e).0, h)

get_next_other :
    (l : List MapData) (i : ℕ) (k : Bytes) (d : MapData) (ds : List MapData)
    → drop i l ≡ d ∷ ds
    → str_eq d.key k ≡ false
    → get_next k (at l i) ≡ (none, at l i)
unfolding get_next
get_next_other l i k d ds e h = rw ((drop-cons i l d ds e).0, h)

get_next_end :
    (l : List MapData) (i : ℕ) (k : Bytes) → drop i l ≡ [] → get_next k (at l i) ≡ (none, at l i)
unfolding get_next
get_next_end l i k e = rw (get_elem?-none i l e)

count_stops :
    (fuel : ℕ) (k : Bytes) (c : ℕ) (p : Part)
    → get_next k p ≡ (none, p)
    → count_values (suc fuel) k c p ≡ some (c, p)
unfolding count_values
count_stops fuel k c p e = rw (e, count_values) (ap (λ r. some (c, r.1)) e)

count_goes_on :
    (fuel : ℕ) (k : Bytes) (c : ℕ) (p q : Part) (v : Bytes)
    → get_next k p ≡ (some v, q)
    → count_values (suc fuel) k c p ≡ count_values fuel k (c + 1) q
unfolding count_values
count_goes_on fuel k c p q v e = rw (e, count_values) (ap (λ r. count_values fuel k (c + 1) r.1) e)

stay :
    (a b : ℕ) (l : List MapData) (i j : ℕ)
    → a ≡ b
    → i ≡ j
    → ◌≡◌ {A = Option (ℕ × Part)} (some (a, at l i)) (some (b, at l j))
stay a b l i j p q = ap₂ (λ x y. some (x, at l y)) p q

-- The reducer takes the pairs with its key, and stops at the first other.
count_values-leading :
    (ds : List MapData) (l : List MapData) (i fuel : ℕ) (k : Bytes) (c : ℕ)
    → drop i l ≡ ds
    → length ds < fuel
    → count_values fuel k c (at l i) ≡ some (c + leading k ds, at l (i + leading k ds))
count_values-leading ds l i zero k c e h = absurd (omega arith)
count_values-leading [] l i (suc fuel) k c e h =
    count_stops fuel k c (at l i) (get_next_end l i k e)
    ∙ stay c (c + 0) l i (i + 0) (omega arith) (omega arith)
count_values-leading (d ∷ ds) l i (suc fuel) k c e h = elim (Bool-cases (str_eq d.key k)) [
  | inl same ↦
      count_goes_on fuel k c (at l i) (at l (i + 1)) d.value (get_next_same l i k d ds e same)
      ∙ count_values-leading ds l (i + 1) fuel k (c + 1) (next e) (omega arith)
      ∙ rw same (stay _ _ l _ _ (omega arith) (omega arith))
  | inr other ↦
      count_stops fuel k c (at l i) (get_next_other l i k d ds e other)
      ∙ rw other (stay _ _ l _ _ (omega arith) (omega arith))
]
  where
    next : drop i l ≡ d ∷ ds → drop (i + 1) l ≡ ds
    next q =
        subst (λ j. drop j l ≡ ds) (let z : suc i ≡ i + 1 = omega arith in z)
          (drop-cons i l d ds q).1

drop-after : (k : Bytes) (ds : List MapData) → drop (leading k ds) ds ≡ after k ds
drop-after k [] = refl
drop-after k (d ∷ ds) = elim (Bool-cases (str_eq d.key k)) [
  | inl e ↦ rw e (
      ap (λ n. drop n (d ∷ ds)) (let z : leading k ds + 1 ≡ suc (leading k ds) = omega arith in z)
      ∙ drop-after k ds)
  | inr e ↦ rw e
]

length-after : (k : Bytes) (ds : List MapData) → length (after k ds) ≤ length ds
length-after k [] = omega arith
length-after k (d ∷ ds) = elim (Bool-cases (str_eq d.key k)) [
  | inl e ↦ rw e (omega (arith, length-after k ds))
  | inr e ↦ rw e (omega arith)
]

reduce_lem :
    (l : List MapData) (i fuel : ℕ) (d : MapData) (ds : List MapData)
    → drop i l ≡ d ∷ ds
    → suc (length ds) < fuel
    → reduce fuel d.key (at l i)
      ≡ some ((d.key, leading d.key ds + 1), at l (i + (leading d.key ds + 1)))
unfolding reduce
reduce_lem l i fuel d ds e h =
    rw (count_values-leading (d ∷ ds) l i fuel d.key 0 e h, reduce, str_eq_refl d.key)
      (ap (λ n. some ((d.key, n), at l (i + (leading d.key ds + 1))))
        (let z : 0 + (leading d.key ds + 1) ≡ leading d.key ds + 1 = omega arith in z))

mr_reduce_end :
    (fuel i : ℕ) (l : List MapData) → drop i l ≡ [] → mr_reduce (suc fuel) (at l i) ≡ some []
unfolding mr_reduce
mr_reduce_end fuel i l e = rw (get_elem?-none i l e)

mr_reduce_step :
    (fuel i : ℕ) (l : List MapData) (d : MapData) (line : Line) (p : Part) (lines : List Line)
    → get_elem? l i ≡ some d
    → reduce (suc fuel) d.key (at l i) ≡ some (line, p)
    → mr_reduce fuel p ≡ some lines
    → mr_reduce (suc fuel) (at l i) ≡ some (line ∷ lines)
unfolding mr_reduce
mr_reduce_step fuel i l d line p lines e r m = rw (e, r, m, mr_reduce)

-- Enough fuel is one more than the pairs that are left.
mr_reduce-groups :
    (fuel : ℕ) (ds l : List MapData) (i : ℕ)
    → drop i l ≡ ds
    → length ds < fuel
    → mr_reduce fuel (at l i) ≡ some (groups ds)
mr_reduce-groups zero ds l i e h = absurd (omega arith)
mr_reduce-groups (suc fuel) [] l i e h = mr_reduce_end fuel i l e
mr_reduce-groups (suc fuel) (d ∷ ds) l i e h =
    mr_reduce_step fuel i l d (d.key, leading d.key ds + 1) (at l (i + (leading d.key ds + 1)))
      (groups (after d.key ds)) (drop-cons i l d ds e).0
      (reduce_lem l i (suc fuel) d ds e (omega arith))
      (mr_reduce-groups fuel (after d.key ds) l (i + (leading d.key ds + 1)) rest
        (omega (arith, length-after d.key ds)))
    ∙ ap some (sym (groups-leading d.key ds))
  where
    rest : drop (i + (leading d.key ds + 1)) l ≡ after d.key ds
    rest =
        ap (λ n. drop n l)
          (let z : i + (leading d.key ds + 1) ≡ suc i + leading d.key ds = omega arith in z)
        ∙ sym (drop-drop (suc i) (leading d.key ds) l)
        ∙ ap (drop (leading d.key ds)) (drop-cons i l d ds e).1
        ∙ drop-after d.key ds

-- `MR_reduce` with wordcount's reducer always ends, one round more than there are pairs being
-- enough, and prints a line for each group of neighbours with one key, with the group's size.
pub mr_reduce_total :
    (l : List MapData)
    → mr_reduce (suc (length l)) (record { data_list = l; part_count = 0 }) ≡ some (groups l)
mr_reduce_total l = mr_reduce-groups (suc (length l)) l l 0 refl (omega arith)
