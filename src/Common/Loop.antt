-- ===== src/Common/Loop.antt =====
-- Counted loops with an early exit: `for (j = i; n rounds; j++)` whose body may end the program.
use Prim.Native.Nat.{ℕ, zero, suc, ◌+◌, ◌≤◌, ◌<◌}
use mathlib.Core.Path.{◌≡◌, refl, sym, ◌∙◌, subst}
use mathlib.Core.Logic.{◌↔◌}
use native.Mathlib.Decide.{dec_lt}
use native.Mathlib.Omega.{arith}

pub data Result {ℓ} (E : Type 0) (S : Type ℓ) : Type ℓ where
  ok : S → Result E S
  err : E → Result E S

infixl 5 ◌>>=◌
abbrev pub ◌>>=◌ {ℓ κ} :
    {E : Type 0} {S : Type ℓ} {T : Type κ} → Result E S → (S → Result E T) → Result E T
ok s >>= f = f s
err e >>= f = err e

module _ {ℓ} {E : Type 0} {S : Type ℓ} where
  unfoldable pub for_loop : ℕ → ℕ → (ℕ → S → Result E S) → S → Result E S
  for_loop zero j body s = ok s
  for_loop (suc n) j body s = elim (body j s) [ ok s' ↦ for_loop n (j + 1) body s' | err e ↦ err e ]

  pub for_loop-ok :
      (n j : ℕ) (body : ℕ → S → Result E S) (s s' : S)
      → body j s ≡ ok s'
      → for_loop (suc n) j body s ≡ for_loop n (j + 1) body s'
  unfolding for_loop
  for_loop-ok n j body s s' h = rw (h, for_loop)

  pub for_loop-err :
      (n j : ℕ) (body : ℕ → S → Result E S) (s : S) (e : E)
      → body j s ≡ err e
      → for_loop (suc n) j body s ≡ err e
  unfolding for_loop
  for_loop-err n j body s e h = rw (h, for_loop)

-- A loop whose body only decides whether to go on runs to its end exactly when the body goes on in
-- every round.
module _ {κ} {E : Type 0} (P : ℕ → Type κ) (body : ℕ → Unit {0} → Result E (Unit {0})) where
  for_loop-ok→all :
      ((k : ℕ) → body k tt ≡ ok tt → P k)
      → (n j : ℕ) → for_loop n j body tt ≡ ok tt
      → (k : ℕ) → j ≤ k
      → k < j + n
      → P k
  for_loop-ok→all sound zero j e k lo hi = absurd (omega arith)
  for_loop-ok→all sound (suc n) j e k lo hi =
      go (body j tt) refl (dec_lt j k)
        (λ e' lo'. for_loop-ok→all sound n (j + 1) e' k lo' (omega arith))
    where
      go :
          (r : Result E (Unit {0}))
          → body j tt ≡ r
          → Dec (j < k)
          → (for_loop n (j + 1) body tt ≡ ok tt → j + 1 ≤ k → P k)
          → P k
      go (err x) q d rest = cc (for_loop-err n j body tt x q)
      go (ok u) q (yes later) rest = rest (sym (for_loop-ok n j body tt u q) ∙ e) (omega arith)
      go (ok u) q (no now) rest = subst P (let p : j ≡ k = omega arith in p) (sound j q)

  for_loop-all→ok :
      ((k : ℕ) → P k → body k tt ≡ ok tt)
      → (n j : ℕ) → ((k : ℕ) → j ≤ k → k < j + n → P k)
      → for_loop n j body tt ≡ ok tt
  for_loop-all→ok complete zero j h = unfold for_loop in refl
  for_loop-all→ok complete (suc n) j h =
      for_loop-ok n j body tt tt (complete j (h j (omega arith) (omega arith)))
      ∙ for_loop-all→ok complete n (j + 1) (λ k lo hi. h k (omega arith) (omega arith))

  pub for_loop-ok_iff :
      ((k : ℕ) → (body k tt ≡ ok tt) ↔ P k)
      → (n j : ℕ) → (for_loop n j body tt ≡ ok tt) ↔ ((k : ℕ) → j ≤ k → k < j + n → P k)
  for_loop-ok_iff h n j = (for_loop-ok→all (λ k. (h k).0) n j, for_loop-all→ok (λ k. (h k).1) n j)

pub >>=-ok_iff :
    {E : Type 0} (m : Result E (Unit {0})) (f : Unit {0} → Result E (Unit {0}))
    → ((m >>= f) ≡ ok tt) ↔ ((m ≡ ok tt) × (f tt ≡ ok tt))
>>=-ok_iff (ok u) f = (λ q. (refl, q), λ q. q.1)
>>=-ok_iff (err e) f = (λ q. (q, cc), λ q. q.0)
