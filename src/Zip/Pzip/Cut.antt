-- ===== src/Zip/Pzip/Cut.antt =====
-- One file cut into pages: none is empty, and put in a row they are the file.
use ostep_projects_finish.Common.{
  ℕ, zero, suc, ◌+◌, ◌-◌, ◌*◌, ◌/◌, ◌%◌, ◌≤◌, ◌<◌, ◌≡◌, refl, sym, ap, ap₂, ◌∙◌, subst, false, List,
  [], ◌∷◌, ◌++◌, append-nil, map, arith, length, take, drop, take-append-drop, take_all, drop-drop,
  drop_all, length-drop, All, ◌==◌, ltb, ltb→lt, ltb→le, Bool-cases, ==→eq, eq→==, ne→==, inl, inr,
}
use native.Mathlib.Nat.{div-add-mod', mod-lt}
use ostep_projects_finish.Zip.Wzip.RoundTrip.{concat}
use ostep_projects_finish.Zip.Pzip.{
  Buffer, is_cut, pages_in_file, size_of_last, buffer_at, buffers_from, producer,
}
use ostep_projects_finish.Zip.Pzip.Join.{IsPage}

-- The bytes that a consumer reads of a page.
abbrev pub page_of : Buffer → List ℕ
page_of b = take b.last_page_size b.address

abbrev pub HasBytes : List ℕ → Type 0
HasBytes file = 0 < length file

-- A division with rest, and what its quotient says of the pages.
fit_arith_cut :
    (q r p st : ℕ)
    → q * p + r ≡ st
    → r < p
    → q * p < st
    → (0 < q + 1) × ((q + 1 - 1) * p + r ≡ st) × (0 < r) × (r ≤ p)
fit_arith_cut q r p st e h c =
    let k : q + 1 - 1 ≡ q = omega arith in (omega arith, rw k e, omega arith, omega arith)

fit_arith_whole :
    (q r p st : ℕ)
    → q * p + r ≡ st
    → r < p
    → 0 < st
    → st ≤ q * p
    → (0 < q) × ((q - 1) * p + p ≡ st) × (0 < p) × (p ≤ p)
fit_arith_whole zero r p st e h s c = absurd (omega arith)
fit_arith_whole (suc q) r p st e h s c =
    let k : suc q - 1 ≡ q = omega arith in
    (omega arith, rw k (omega arith), omega arith, omega arith)

pub IsPage-take : (n : ℕ) (xs : List ℕ) → 0 < n → 0 < length xs → IsPage (take n xs)
IsPage-take zero xs p h = absurd (omega arith)
IsPage-take (suc n) [] p h = absurd (omega arith)
IsPage-take (suc n) (x ∷ xs) p h = tt

module _ (page_size : ℕ) (some_size : 0 < page_size) where
  -- The pages are enough for the file, and the last is not empty and not too large.
  pub pages_fit :
      (st : ℕ)
      → 0 < st
      → (0 < pages_in_file page_size st)
        × ((pages_in_file page_size st - 1) * page_size + size_of_last page_size st ≡ st)
        × (0 < size_of_last page_size st)
        × (size_of_last page_size st ≤ page_size)
  unfolding pages_in_file size_of_last is_cut
  pages_fit st h = elim (Bool-cases (ltb (st / page_size * page_size) st)) [
    | inl e ↦ rw e (
        fit_arith_cut (st / page_size) (st % page_size) page_size st (div-add-mod' st page_size)
          (mod-lt st some_size) (ltb→lt (st / page_size * page_size) st e))
    | inr e ↦ rw e (
        fit_arith_whole (st / page_size) (st % page_size) page_size st (div-add-mod' st page_size)
          (mod-lt st some_size) h (ltb→le (st / page_size * page_size) st e))
  ]

  page_of_last :
      (i : ℕ) (file : List ℕ) (j : ℕ)
      → 0 < length file
      → j + 1 ≡ pages_in_file page_size (length file)
      → page_of (buffer_at page_size i file j) ≡ drop (j * page_size) file
  unfolding buffer_at
  page_of_last i file j h e = rw (eq→== _ _ e) (
      take_all (size_of_last page_size (length file)) (drop (j * page_size) file)
        (rw (length-drop (j * page_size) file) rest))
    where
      before : pages_in_file page_size (length file) - 1 ≡ j
      before = omega arith

      total : j * page_size + size_of_last page_size (length file) ≡ length file
      total =
          subst (λ k. k * page_size + size_of_last page_size (length file) ≡ length file) before
            (pages_fit (length file) h).1

      rest : length file - j * page_size ≤ size_of_last page_size (length file)
      rest = omega (arith, total)

  page_of_inner :
      (i : ℕ) (file : List ℕ) (j : ℕ)
      → (j + 1 == pages_in_file page_size (length file)) ≡ false
      → page_of (buffer_at page_size i file j) ≡ take page_size (drop (j * page_size) file)
  unfolding buffer_at
  page_of_inner i file j e = rw e

  after_last :
      (file : List ℕ)
      → 0 < length file
      → length file ≤ pages_in_file page_size (length file) * page_size
  after_last file h = go (pages_in_file page_size (length file)) (pages_fit (length file) h)
    where
      go :
          (n : ℕ)
          → (0 < n)
            × ((n - 1) * page_size + size_of_last page_size (length file) ≡ length file)
            × (0 < size_of_last page_size (length file))
            × (size_of_last page_size (length file) ≤ page_size)
          → length file ≤ n * page_size
      go zero f = absurd (omega (arith, f.0))
      go (suc n) f = let k : suc n - 1 ≡ n = omega arith in omega (arith, rw k at f.1, f.3)

  -- The pages from number `j` on are the bytes from there on.
  pub concat-buffers_from :
      (i : ℕ) (file : List ℕ) (j r : ℕ)
      → 0 < length file
      → j + r ≡ pages_in_file page_size (length file)
      → concat (map page_of (buffers_from page_size i file j r)) ≡ drop (j * page_size) file
  unfolding buffers_from
  concat-buffers_from i file j zero h e = sym (
      drop_all (j * page_size) file
        (subst (λ n. length file ≤ n * page_size) (sym all) (after_last file h)))
    where
      all : j ≡ pages_in_file page_size (length file)
      all = omega arith
  concat-buffers_from i file j (suc r) h e =
      ap (λ t. page_of (buffer_at page_size i file j) ++ t)
        (concat-buffers_from i file (j + 1) r h (omega arith))
      ∙ elim (Bool-cases (j + 1 == pages_in_file page_size (length file))) [
        | inl last ↦
            ap₂ ◌++◌ (page_of_last i file j h (==→eq _ _ last)) (
              drop_all ((j + 1) * page_size) file (
                subst (λ n. length file ≤ n * page_size) (sym (==→eq _ _ last))
                  (after_last file h)))
            ∙ append-nil (drop (j * page_size) file)
        | inr inner ↦
            ap (λ t. t ++ drop ((j + 1) * page_size) file) (page_of_inner i file j inner)
            ∙ ap (λ t. take page_size (drop (j * page_size) file) ++ t) next
            ∙ take-append-drop page_size (drop (j * page_size) file)
      ]
    where
      next : drop ((j + 1) * page_size) file ≡ drop page_size (drop (j * page_size) file)
      next =
          ap (λ k. drop k file)
            (let q : (j + 1) * page_size ≡ j * page_size + page_size = omega arith in q)
          ∙ sym (drop-drop (j * page_size) page_size file)

  starts_inside :
      (file : List ℕ) (j n : ℕ)
      → (n - 1) * page_size + size_of_last page_size (length file) ≡ length file
      → 0 < size_of_last page_size (length file)
      → j + 1 ≤ n
      → j * page_size < length file
  starts_inside file j zero e p h = absurd (omega arith)
  starts_inside file j (suc n) e p h = let k : suc n - 1 ≡ n = omega arith in go (rw k at e)
    where
      go :
          n * page_size + size_of_last page_size (length file) ≡ length file
          → j * page_size < length file
      go e' = let m : j * page_size ≤ n * page_size = grind arith in omega arith

  last_page_size_pos :
      (i : ℕ) (file : List ℕ) (j : ℕ)
      → 0 < length file
      → 0 < (buffer_at page_size i file j).last_page_size
  unfolding buffer_at
  last_page_size_pos i file j h =
      let f = pages_fit (length file) h in
      elim (Bool-cases (j + 1 == pages_in_file page_size (length file))) [
        | inl e ↦ rw e f.2
        | inr e ↦ rw e some_size
      ]

  starts :
      (i : ℕ) (file : List ℕ) (j : ℕ)
      → j * page_size < length file
      → 0 < length (buffer_at page_size i file j).address
  unfolding buffer_at
  starts i file j h = omega (arith, length-drop (j * page_size) file)

  pub buffers_from-IsPage :
      (i : ℕ) (file : List ℕ) (j r : ℕ)
      → 0 < length file
      → j + r ≡ pages_in_file page_size (length file)
      → All IsPage (map page_of (buffers_from page_size i file j r))
  unfolding buffers_from
  buffers_from-IsPage i file j zero h e = tt
  buffers_from-IsPage i file j (suc r) h e =
      let f = pages_fit (length file) h in
      (
        IsPage-take (buffer_at page_size i file j).last_page_size _ (last_page_size_pos i file j h)
            (starts i file j (starts_inside file j _ f.1 f.2 (omega arith))),
        buffers_from-IsPage i file (j + 1) r h (omega arith),
      )

module _ (page_size : ℕ) where
  pub producer-cons :
      (i : ℕ) (x : ℕ) (xs : List ℕ) (files : List (List ℕ))
      → producer page_size i ((x ∷ xs) ∷ files)
        ≡ buffers_from page_size i (x ∷ xs) 0 (pages_in_file page_size (length (x ∷ xs)))
          ++ producer page_size (i + 1) files
  unfolding producer
  producer-cons i x xs files = rw (ne→== (suc (length xs)) 0 (omega arith))

  pub producer_empty :
      (i : ℕ) (files : List (List ℕ))
      → producer page_size i ([] ∷ files) ≡ producer page_size (i + 1) files
  unfolding producer
  producer_empty i files = refl
