-- ===== src/Zip/Pzip2/Fair.antt =====
-- The invariant of the threads of concurrency-pzip/wzip/pzip2.c, and that every step preserves it.
use ostep_projects_finish.Common.{
  ℕ, zero, suc, ◌+◌, ◌≤◌, ◌<◌, ◌≡◌, ◌≢◌, refl, sym, ap, ◌∙◌, subst, Bool, true, false, Option, none,
  some, List, [], ◌∷◌, length, get_or, set, replicate, arith, length-set, get_or-set_self,
  get_or-set_ne, ◌⊎◌, inl, inr, ◌==◌, Bool-cases, ==→eq, ==→ne, length-replicate, all_set,
  get_or-set_other,
}
use mathlib.Core.Bool.{false≢true}
use ostep_projects_finish.Zip.Runs.{Run}
use ostep_projects_finish.Zip.Pzip2.{Buffer, compress}
use ostep_projects_finish.Zip.Pzip2.Threads.{
  Thread, looping, compressing, testing, seen_last, returned, Compressors, blank, thread_at, to,
  result_at, Step, measure, add, finish, claim, claim_none, compress_buffer, see_last, see_more,
  leave, stay, start_compressors, Reach, start, later,
}

-- What holds of every thread still does when one of them moves to a state of which it holds.
all_threads :
    (P : Thread → Type 0) (ths : List Thread) (t : ℕ) (v : Thread)
    → ((u : ℕ) → P (get_or ths u looping))
    → P v
    → (u : ℕ) → P (get_or (set ths t v) u looping)
all_threads P ths t v h p u = all_set P ths t v looping h p u

-- A thread keeps its state when another moves.
same_thread :
    (ths : List Thread) (t u : ℕ) (v old now : Thread)
    → get_or ths t looping ≡ old
    → get_or ths u looping ≡ now
    → old ≢ now
    → get_or (set ths t v) u looping ≡ now
same_thread ths t u v old now a b ne = get_or-set_other ths t u v looping old now a b ne

abbrev pub is_compressing : Thread → Bool
is_compressing (compressing i) = true
is_compressing _ = false

pub quiet-ne : (old : Thread) (i : ℕ) → is_compressing old ≡ false → old ≢ compressing i
quiet-ne old i q e = false≢true (sym q ∙ ap is_compressing e)

pub in_range-compressing :
    (ths : List Thread) (t i : ℕ) → get_or ths t looping ≡ compressing i → t < length ths
in_range-compressing [] t i e = absurd (quiet-ne looping i refl e)
in_range-compressing (x ∷ ths) zero i e = omega arith
in_range-compressing (x ∷ ths) (suc t) i e = let h = in_range-compressing ths t i e in omega arith

abbrev pub index_of : Thread → ℕ
index_of (compressing i) = i
index_of _ = 0

module _ (buffers : List Buffer) where
  -- A thread in `compress` has claimed its buffer; one that may return has seen the last index.
  abbrev pub ThreadFits : ℕ → Thread → Type 0
  ThreadFits index looping = Unit {0}
  ThreadFits index (compressing i) = i < index
  ThreadFits index testing = Unit {0}
  ThreadFits index seen_last = index ≡ length buffers
  ThreadFits index returned = index ≡ length buffers

  abbrev pub Compressed : List (Option (List Run)) → ℕ → Type 0
  Compressed results i = result_at results i ≡ some (compress (get_or buffers i blank))

  -- A buffer that is claimed is compressed, or a thread is at it.
  abbrev pub Claimed : Compressors → Type 0
  Claimed s =
      (i : ℕ)
      → i < s.index_cthread
      → Compressed s.results i ⊎ ((t : ℕ) × (thread_at s t ≡ compressing i))

  pub record IsFair (s : Compressors) : Type 0 where
    pub sized : s.listsize ≡ length buffers
    pub counted : s.count ≤ length buffers
    pub claimed : s.index_cthread ≤ s.count
    pub stored : length s.results ≡ length buffers
    pub fits : (t : ℕ) → ThreadFits s.index_cthread (thread_at s t)
    pub done : Claimed s

  later_index :
      (index : ℕ) (v : Thread)
      → ThreadFits index v
      → index < length buffers
      → ThreadFits (index + 1) v
  later_index index looping f h = tt
  later_index index (compressing i) f h = omega arith
  later_index index testing f h = tt
  later_index index seen_last f h = absurd (omega arith)
  later_index index returned f h = absurd (omega arith)

  -- A thread that is not in `compress` moves to where it fits.
  moves :
      (s : Compressors) (t : ℕ) (v old : Thread)
      → IsFair s
      → thread_at s t ≡ old
      → is_compressing old ≡ false
      → ThreadFits s.index_cthread v
      → IsFair (to t v s)
  moves s t v old f at_old quiet v_fits = record {
    sized = f.sized;
    counted = f.counted;
    claimed = f.claimed;
    stored = f.stored;
    fits = all_threads (ThreadFits s.index_cthread) s.threads t v f.fits v_fits;
    done = λ i h. elim (f.done i h) [
      | inl c ↦ inl c
      | inr (u, at_u) ↦
          inr
            (u, same_thread s.threads t u v old (compressing i) at_old at_u (quiet-ne old i quiet))
    ];
  }

  claims :
      (s : Compressors) (t : ℕ)
      → IsFair s
      → t < length s.threads
      → thread_at s t ≡ looping
      → s.index_cthread < s.count
      → IsFair
          (record (to t (compressing s.index_cthread) s) { index_cthread = s.index_cthread + 1 })
  claims s t f in_range at_top h = record {
    sized = f.sized;
    counted = f.counted;
    claimed = omega arith;
    stored = f.stored;
    fits =
        all_threads (ThreadFits (s.index_cthread + 1)) s.threads t (compressing s.index_cthread)
          (λ u. later_index s.index_cthread (thread_at s u) (f.fits u) (omega (arith, f.counted)))
          (omega arith);
    done = λ i below. elim (Bool-cases (i == s.index_cthread)) [
      | inl e ↦ inr (
        t,
        get_or-set_self s.threads t (compressing s.index_cthread) looping in_range
            ∙ ap compressing (sym (==→eq i s.index_cthread e)),
      )
      | inr e ↦ elim (f.done i (let q = ==→ne i s.index_cthread e in omega arith)) [
        | inl c ↦ inl c
        | inr (u, at_u) ↦ inr (
          u,
          same_thread s.threads t u (compressing s.index_cthread) looping (compressing i) at_top
              at_u (quiet-ne looping i refl),
        )
      ]
    ];
  }

  compresses :
      (s : Compressors) (t do_index : ℕ)
      → IsFair s
      → thread_at s t ≡ compressing do_index
      → IsFair (record (to t testing s) {
        results = set s.results do_index (some (compress (get_or buffers do_index blank)));
      })
  compresses s t do_index f at_t = record {
    sized = f.sized;
    counted = f.counted;
    claimed = f.claimed;
    stored = length-set s.results do_index _ ∙ f.stored;
    fits = all_threads (ThreadFits s.index_cthread) s.threads t testing f.fits tt;
    done = λ i below. elim (Bool-cases (do_index == i)) [
      | inl e ↦ inl (
          subst
            (λ k.
              Compressed (set s.results do_index (some (compress (get_or buffers do_index blank))))
                k)
            (==→eq do_index i e) (get_or-set_self s.results do_index _ none in_range))
      | inr e ↦ elim (f.done i below) [
        | inl c ↦ inl (get_or-set_ne s.results do_index i _ none (==→ne do_index i e) ∙ c)
        | inr (u, at_u) ↦ inr (
          u,
          same_thread s.threads t u testing (compressing do_index) (compressing i) at_t at_u
              (λ q. ==→ne do_index i e (ap index_of q)),
        )
      ]
    ];
  }
    where
      in_range : do_index < length s.results
      in_range =
          let own : do_index < s.index_cthread =
            subst (ThreadFits s.index_cthread) at_t (f.fits t) in
          omega (arith, f.stored, f.claimed, f.counted)

  Step-IsFair : (s u : Compressors) → IsFair s → Step buffers s u → IsFair u
  Step-IsFair s u f (measure n h) = record {
    sized = let z = f.sized in omega arith;
    counted = f.counted;
    claimed = f.claimed;
    stored = f.stored;
    fits = f.fits;
    done = f.done;
  }
  Step-IsFair s u f (add e h) = record {
    sized = f.sized;
    counted = omega arith;
    claimed = let c = f.claimed in omega arith;
    stored = f.stored;
    fits = f.fits;
    done = f.done;
  }
  Step-IsFair s u f (finish e) = record {
    sized = f.sized;
    counted = f.counted;
    claimed = f.claimed;
    stored = f.stored;
    fits = f.fits;
    done = f.done;
  }
  Step-IsFair s u f (claim t r a h) = claims s t f r a h
  Step-IsFair s u f (claim_none t r a h) = moves s t testing looping f a refl tt
  Step-IsFair s u f (compress_buffer t i r a) = compresses s t i f a
  Step-IsFair s u f (see_last t r a e) = moves s t seen_last testing f a refl (e ∙ f.sized)
  Step-IsFair s u f (see_more t r a e) = moves s t looping testing f a refl tt
  Step-IsFair s u f (leave t r a e) =
      moves s t returned seen_last f a refl (subst (ThreadFits s.index_cthread) a (f.fits t))
  Step-IsFair s u f (stay t r a e) = moves s t looping seen_last f a refl tt

  looping_all : (n t : ℕ) → get_or (replicate n looping) t looping ≡ looping
  looping_all zero t = refl
  looping_all (suc n) zero = refl
  looping_all (suc n) (suc t) = looping_all n t

  start-IsFair : (n : ℕ) → IsFair (start_compressors buffers n (length buffers))
  start-IsFair n = record {
    sized = refl;
    counted = omega arith;
    claimed = omega arith;
    stored = length-replicate (length buffers) none;
    fits = λ t. subst (ThreadFits 0) (sym (looping_all n t)) tt;
    done = λ i h. absurd (omega arith);
  }

  pub Reach-IsFair :
      (n : ℕ) (s : Compressors)
      → Reach buffers (start_compressors buffers n (length buffers)) s
      → IsFair s
  Reach-IsFair n s start = start-IsFair n
  Reach-IsFair n s (later {t} r step) = Step-IsFair t s (Reach-IsFair n t r) step
