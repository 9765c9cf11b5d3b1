-- ===== src/Common/Ring.antt =====
-- The entries of a circular array, from an index on and going round at `n`, and what a write behind
-- them and a step of the index do. The server and the parallel compressor both keep such a queue.
use Prim.Native.Nat.{ℕ, zero, suc, ◌+◌, ◌-◌, ◌%◌, ◌≤◌, ◌<◌}
use mathlib.Core.Path.{◌≡◌, refl, sym, ap, ap₂, ◌∙◌}
use mathlib.Core.Logic.{◌≢◌}
use mathlib.Core.List.{List, [], ◌∷◌, ◌++◌}
use native.Mathlib.Nat.{mod-add-mod, mod-eq_of_lt, mod-eq-sub-mod, mod-lt}
use native.Mathlib.Decide.{dec_lt}
use native.Mathlib.Omega.{arith}
use ostep_projects_finish.Common.Lists.{length, get_or, set, get_or-set_self, get_or-set_ne}

-- Two entries less than a round apart have different places.
places_differ : (n h a b : ℕ) → h < n → a < b → b < n → (h + b) % n ≢ (h + a) % n
places_differ n h a b hh hab hb = elim (dec_lt (h + b) n) [
  | yes p ↦ omega (arith, mod-eq_of_lt p, mod-eq_of_lt {n = h + a} {m = n} (omega arith))
  | no p ↦
      let wrap : (h + b) % n ≡ h + b - n =
        mod-eq-sub-mod {n = h + b} {m = n} (omega arith)
        ∙ mod-eq_of_lt {n = h + b - n} {m = n} (omega arith) in
      elim (dec_lt (h + a) n) [
        | yes q ↦ omega (arith, wrap, mod-eq_of_lt q)
        | no q ↦
            let wrap' : (h + a) % n ≡ h + a - n =
              mod-eq-sub-mod {n = h + a} {m = n} (omega arith)
              ∙ mod-eq_of_lt {n = h + a - n} {m = n} (omega arith) in
            omega (arith, wrap, wrap')
      ]
]

module _ {ℓ} {A : Type ℓ} (d : A) (n : ℕ) where
  -- The `c` entries from number `j` behind index `h` on.
  abbrev pub slots : List A → ℕ → ℕ → ℕ → List A
  slots buf h j zero = []
  slots buf h j (suc c) = get_or buf ((h + j) % n) d ∷ slots buf h (j + 1) c

  length-slots : (buf : List A) (h j c : ℕ) → length (slots buf h j c) ≡ c
  length-slots buf h j zero = refl
  length-slots buf h j (suc c) = ap suc (length-slots buf h (j + 1) c)

  slots-set_from :
      (buf : List A) (h j c i : ℕ) (v : A)
      → n ≤ length buf
      → h < n
      → j + c < n
      → i ≡ j + c
      → slots (set buf ((h + i) % n) v) h j (suc c) ≡ slots buf h j c ++ (v ∷ [])
  slots-set_from buf h j zero i v s hh hj e =
      ap (λ x. x ∷ [])
        (ap (λ k. get_or (set buf ((h + k) % n) v) ((h + j) % n) d)
            (let q : i ≡ j = omega arith in q)
          ∙ get_or-set_self buf ((h + j) % n) v d
              (let q : (h + j) % n < n = mod-lt (h + j) (omega arith) in omega arith))
  slots-set_from buf h j (suc c) i v s hh hj e =
      ap₂ ◌∷◌
        (get_or-set_ne buf ((h + i) % n) ((h + j) % n) v d
          (places_differ n h j i hh (omega arith) (omega arith)))
        (slots-set_from buf h (j + 1) c i v s hh (omega arith) (omega arith))

  -- A write behind the last entry adds it.
  pub slots-set :
      (buf : List A) (h c : ℕ) (v : A)
      → n ≤ length buf
      → h < n
      → c < n
      → slots (set buf ((h + c) % n) v) h 0 (suc c) ≡ slots buf h 0 c ++ (v ∷ [])
  slots-set buf h c v s hh hc = slots-set_from buf h 0 c c v s hh (omega arith) (omega arith)

  slots_shift : (buf : List A) (h j c : ℕ) → slots buf ((h + 1) % n) j c ≡ slots buf h (j + 1) c
  slots_shift buf h j zero = refl
  slots_shift buf h j (suc c) =
      ap₂ (λ i t. get_or buf i d ∷ t)
        (mod-add-mod (h + 1) n j
          ∙ ap (λ k. k % n) (let q : h + 1 + j ≡ h + (j + 1) = omega arith in q))
        (slots_shift buf h (j + 1) c)

  -- The first entry, and the entries once the index has moved on.
  pub slots-suc :
      (buf : List A) (h c : ℕ)
      → h < n
      → slots buf h 0 (suc c) ≡ get_or buf h d ∷ slots buf ((h + 1) % n) 0 c
  slots-suc buf h c hh =
      ap₂ (λ i t. get_or buf i d ∷ t)
        (ap (λ k. k % n) (let q : h + 0 ≡ h = omega arith in q) ∙ mod-eq_of_lt hh)
        (sym (slots_shift buf h 0 c))
