-- ===== src/Zip/Pzip/Outputs.antt =====
-- concurrency-pzip/wzip/pzip3.c: the invariant of the consumers, and what `out` holds when they have
-- returned.
use ostep_projects_finish.Common.{
  ℕ, zero, suc, ◌+◌, ◌≤◌, ◌<◌, ◌≡◌, ◌≢◌, refl, sym, ap, ◌∙◌, subst, Bool, true, false, none, some,
  List, [], ◌∷◌, ◌++◌, length, length-append, get_or, set, arith, length-set, get_or-set_self,
  get_or-set_ne, ◌⊎◌, inl, inr, ◌==◌, Bool-cases, ==→eq, ==→ne, length-replicate, all_set,
  get_or-set_other, get_or-middle, get_or-replicate,
}
use mathlib.Core.Bool.{false≢true}
use ostep_projects_finish.Zip.Pzip.{Buffer, rle_compress}
use ostep_projects_finish.Zip.Pzip.Queue
use ostep_projects_finish.Zip.Pzip.Queue.{
  Threads, get, empty_buffer, queued, queue_conserves, nothing_to_put, got_all,
}
use ostep_projects_finish.Zip.Pzip.Consumers.{
  Consumer, waiting, compressing, testing, returned, Program, consumer_at, to, got_one, IsOver,
  Step, produce, take_buffer, store, again, leave, leave_queue, Reach, start, later,
}

abbrev pub is_compressing : Consumer → Bool
is_compressing (compressing temp) = true
is_compressing _ = false

pub quiet-ne :
    (old : Consumer) (temp : Buffer) → is_compressing old ≡ false → old ≢ compressing temp
quiet-ne old temp q e = false≢true (sym q ∙ ap is_compressing e)

pub in_range-compressing :
    (cs : List Consumer) (c : ℕ) (temp : Buffer)
    → get_or cs c waiting ≡ compressing temp
    → c < length cs
in_range-compressing [] c temp e = absurd (quiet-ne waiting temp refl e)
in_range-compressing (x ∷ cs) zero temp e = omega arith
in_range-compressing (x ∷ cs) (suc c) temp e =
    let h = in_range-compressing cs c temp e in omega arith

abbrev temp_of : Consumer → Buffer
temp_of (compressing temp) = temp
temp_of _ = empty_buffer

module _ (position : Buffer → ℕ) (pages : List Buffer) where
  abbrev pub page : ℕ → Buffer
  page k = get_or pages k empty_buffer

  -- What a consumer compresses is one of the pages that have been got.
  abbrev pub ConsumerFits : Threads → Consumer → Type 0
  ConsumerFits t (compressing temp) = (k : ℕ) × ((k < length t.got) × (temp ≡ page k))
  ConsumerFits t returned = IsOver t
  ConsumerFits t _ = Unit {0}

  -- A page that has been got is in its place, or a consumer is at it.
  abbrev pub Got : Program → Type 0
  Got s =
      (k : ℕ)
      → k < length s.shared.got
      → (get_or s.out k none ≡ some (rle_compress (page k)))
        ⊎ ((c : ℕ) × (consumer_at s c ≡ compressing (page k)))

  pub record IsFair (s : Program) : Type 0 where
    pub reached : Queue.Reach pages s.shared
    pub stored : length s.out ≡ length pages
    pub fits : (c : ℕ) → ConsumerFits s.shared (consumer_at s c)
    pub done : Got s

  got_below : (t : Threads) → Queue.Reach pages t → length t.got ≤ length pages
  got_below t r =
      let e = ap length ((queue_conserves pages t r).1) in
      omega (arith, length-append t.got (queued t.queue ++ t.to_put))

  -- The next buffer of the queue is the next page.
  next_page :
      (t : Threads)
      → Queue.Reach pages t
      → t.queue.q_size ≢ 0
      → (get t.queue).0 ≡ page (length t.got)
  next_page t r h =
      sym (get_or-middle t.got (get t.queue).0 (queued ((get t.queue).1) ++ t.to_put) empty_buffer)
      ∙ ap (λ l. get_or l (length t.got) empty_buffer)
          ((queue_conserves pages (got_one t) (Queue.Reach.later r (Queue.Step.consume h))).1)

  length-got_one : (t : Threads) → length (got_one t).got ≡ length t.got + 1
  length-got_one t = length-append t.got ((get t.queue).0 ∷ [])

  still-IsOver :
      (s t : Threads) → Queue.Reach pages s → Queue.Step s t → t.got ≡ s.got → IsOver s → IsOver t
  still-IsOver s t r (Queue.Step.find_room h) e o = o
  still-IsOver s t r (Queue.Step.produce b rest room p) e o =
      absurd (let z = nothing_to_put pages s r o.0 in cc)
  still-IsOver s t r (Queue.Step.finish p) e o = (refl, o.1)
  still-IsOver s t r (Queue.Step.consume h) e o = absurd (h o.1)

  same_got :
      (s t : Threads) (v : Consumer)
      → (IsOver s → IsOver t)
      → length s.got ≤ length t.got
      → ConsumerFits s v
      → ConsumerFits t v
  same_got s t waiting o h f = tt
  same_got s t (compressing temp) o h (k, (below, e)) = (k, (omega arith, e))
  same_got s t testing o h f = tt
  same_got s t returned o h f = o f

  -- A consumer that is not at a page moves to where it fits.
  moves :
      (s : Program) (c : ℕ) (v old : Consumer)
      → IsFair s
      → consumer_at s c ≡ old
      → is_compressing old ≡ false
      → ConsumerFits s.shared v
      → IsFair (to c v s)
  moves s c v old f at_old quiet v_fits = record {
    reached = f.reached;
    stored = f.stored;
    fits = λ u. all_set (ConsumerFits s.shared) s.consumers c v waiting f.fits v_fits u;
    done = λ k h. elim (f.done k h) [
      | inl a ↦ inl a
      | inr (u, at_u) ↦ inr (
        u,
        get_or-set_other s.consumers c u v waiting old (compressing (page k)) at_old at_u
            (quiet-ne old (page k) quiet),
      )
    ];
  }

  taken_fits :
      (s : Threads) (v : Consumer)
      → s.queue.q_size ≢ 0
      → ConsumerFits s v
      → ConsumerFits (got_one s) v
  taken_fits s v h f =
      let z = length-got_one s in same_got s (got_one s) v (λ o. absurd (h o.1)) (omega arith) f

  takes :
      (s : Program) (c : ℕ)
      → IsFair s
      → c < length s.consumers
      → consumer_at s c ≡ waiting
      → s.shared.queue.q_size ≢ 0
      → IsFair (record (to c (compressing (get s.shared.queue).0) s) { shared = got_one s.shared })
  takes s c f in_range at_top h = record {
    reached = Queue.Reach.later f.reached (Queue.Step.consume h);
    stored = f.stored;
    fits = λ u.
        all_set (ConsumerFits (got_one s.shared)) s.consumers c (compressing (get s.shared.queue).0)
          waiting (λ u'. taken_fits s.shared (consumer_at s u') h (f.fits u'))
          (
            length s.shared.got,
            (omega (arith, length-got_one s.shared), next_page s.shared f.reached h),
          )
          u;
    done = λ k below. elim (Bool-cases (k == length s.shared.got)) [
      | inl e ↦ inr (
        c,
        get_or-set_self s.consumers c (compressing (get s.shared.queue).0) waiting in_range
            ∙ ap compressing
                (next_page s.shared f.reached h ∙ ap page (sym (==→eq k (length s.shared.got) e))),
      )
      | inr e ↦
          elim (f.done k
            (let q = ==→ne k (length s.shared.got) e in omega (arith, length-got_one s.shared))) [
              | inl a ↦ inl a
              | inr (u, at_u) ↦ inr (
                u,
                get_or-set_other s.consumers c u (compressing (get s.shared.queue).0) waiting
                    waiting (compressing (page k)) at_top at_u (quiet-ne waiting (page k) refl),
              )
            ]
    ];
  }

  stores :
      (s : Program) (c : ℕ) (temp : Buffer)
      → ((k : ℕ) → k < length pages → position (page k) ≡ k)
      → IsFair s
      → consumer_at s c ≡ compressing temp
      → IsFair
          (record (to c testing s) { out = set s.out (position temp) (some (rle_compress temp)) })
  stores s c temp places f at_c = record {
    reached = f.reached;
    stored = length-set s.out (position temp) _ ∙ f.stored;
    fits = λ u. all_set (ConsumerFits s.shared) s.consumers c testing waiting f.fits tt u;
    done = λ k below. elim (Bool-cases (position temp == k)) [
      | inl e ↦ inl (
          ap (λ i. get_or (set s.out (position temp) (some (rle_compress temp))) i none)
            (sym (==→eq (position temp) k e))
          ∙ get_or-set_self s.out (position temp) _ none in_range
          ∙ ap (λ b. some (rle_compress b))
              (own.1.1 ∙ ap page (sym own_place ∙ ==→eq (position temp) k e)))
      | inr e ↦ elim (f.done k below) [
        | inl a ↦ inl (get_or-set_ne s.out (position temp) k _ none (==→ne (position temp) k e) ∙ a)
        | inr (u, at_u) ↦ inr (
          u,
          get_or-set_other s.consumers c u testing waiting (compressing temp) (compressing (page k))
              at_c at_u
              (λ q. ==→ne (position temp) k e (
                ap (λ v. position (temp_of v)) q
                ∙ places k (let z = got_below s.shared f.reached in omega arith))),
        )
      ]
    ];
  }
    where
      own : ConsumerFits s.shared (compressing temp)
      own = subst (ConsumerFits s.shared) at_c (f.fits c)

      own_below : own.0 < length pages
      own_below = omega (arith, own.1.0, got_below s.shared f.reached)

      own_place : position temp ≡ own.0
      own_place = ap position own.1.1 ∙ places own.0 own_below

      in_range : position temp < length s.out
      in_range = omega (arith, own_place, own_below, f.stored)

  Step-IsFair :
      (s t : Program)
      → ((k : ℕ) → k < length pages → position (page k) ≡ k)
      → IsFair s
      → Step position s t
      → IsFair t
  Step-IsFair s u places f (produce t d e) = record {
    reached = Queue.Reach.later f.reached d;
    stored = f.stored;
    fits = λ c.
        same_got s.shared t (consumer_at s c) (still-IsOver s.shared t f.reached d e)
          (let z = ap length e in omega arith) (f.fits c);
    done = λ k h. f.done k (let z = ap length e in omega arith);
  }
  Step-IsFair s u places f (take_buffer c r a h) = takes s c f r a h
  Step-IsFair s u places f (store c temp r a) = stores s c temp places f a
  Step-IsFair s u places f (again c r a h) = moves s c waiting testing f a refl tt
  Step-IsFair s u places f (leave c r a o) = moves s c returned testing f a refl o
  Step-IsFair s u places f (leave_queue c r a o) = moves s c returned waiting f a refl o

  pub Reach-IsFair :
      (n : ℕ) (s : Program)
      → ((k : ℕ) → k < length pages → position (page k) ≡ k)
      → Reach position pages n s
      → IsFair s
  Reach-IsFair n s places start = record {
    reached = Queue.Reach.start;
    stored = length-replicate (length pages) none;
    fits = λ c. subst (ConsumerFits s.shared) (sym (get_or-replicate n c waiting)) tt;
    done = λ k h. absurd (omega arith);
  }
  Reach-IsFair n s places (later {s = t} r d) = Step-IsFair t s places (Reach-IsFair n t places r) d
