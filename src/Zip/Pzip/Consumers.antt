-- ===== src/Zip/Pzip/Consumers.antt =====
-- concurrency-pzip/wzip/pzip3.c: the consumers with the array `out`, over the queue of Zip.Pzip.Queue. A
-- step is what a thread does with the mutex held, the call of `RLECompress` with the store of its result,
-- or the test behind the `do`. The steps come in any order.
-- The condition variables are left out: a thread that waits may look at its condition at any time, where
-- in the code a consumer can miss the last broadcast and sleep for ever.
use ostep_projects_finish.Common.{
  ℕ, ◌<◌, ◌≡◌, ◌≢◌, true, Option, none, some, List, [], ◌∷◌, ◌++◌, length, get_or, set, replicate,
}
use ostep_projects_finish.Zip.Pzip.{Buffer, Output, rle_compress}
use ostep_projects_finish.Zip.Pzip.Queue
use ostep_projects_finish.Zip.Pzip.Queue.{Threads, start_threads, get, empty_buffer}

-- Where a consumer is: in front of the mutex, with a buffer behind it, at the test, or at its end.
pub data Consumer : Type 0 where
  waiting : Consumer
  compressing : (temp : Buffer) → Consumer
  testing : Consumer
  returned : Consumer

-- `out` are its first `total_pages` entries, `none` where a consumer has not stored an output. `main`
-- allocates 1,024,000 entries; there are to be no more pages than these.
pub record Program : Type 0 where
  pub shared : Threads
  pub out : List (Option Output)
  pub consumers : List Consumer

abbrev pub consumer_at : Program → ℕ → Consumer
consumer_at s c = get_or s.consumers c waiting

abbrev pub to : ℕ → Consumer → Program → Program
to c v s = record s { consumers = set s.consumers c v }

-- The queue when a consumer has got a buffer.
abbrev pub got_one : Threads → Threads
got_one t = record {
  queue = (get t.queue).1;
  is_complete = t.is_complete;
  to_put = t.to_put;
  has_room = t.has_room;
  got = t.got ++ ((get t.queue).0 ∷ []);
}

-- What the consumers test to return.
abbrev pub IsOver : Threads → Type 0
IsOver t = (t.is_complete ≡ true) × (t.queue.q_size ≡ 0)

-- `position` is `calculateOutputPosition`, whose array `pages_per_file` the producer has filled up to the
-- buffer's file before it puts the buffer.
module _ (position : Buffer → ℕ) where
  pub data Step (s : Program) : Program → Type 0 where
    produce :
        (t : Threads)
        → Queue.Step s.shared t
        → t.got ≡ s.shared.got
        → Step s (record s { shared = t })
    take_buffer :
        (c : ℕ)
        → c < length s.consumers
        → consumer_at s c ≡ waiting
        → s.shared.queue.q_size ≢ 0
        → Step s
            (record (to c (compressing (get s.shared.queue).0) s) { shared = got_one s.shared })
    store :
        (c : ℕ) (temp : Buffer)
        → c < length s.consumers
        → consumer_at s c ≡ compressing temp
        → Step s
            (record (to c testing s) { out = set s.out (position temp) (some (rle_compress temp)) })
    again :
        (c : ℕ)
        → c < length s.consumers
        → consumer_at s c ≡ testing
        → ¬ (IsOver s.shared)
        → Step s (to c waiting s)
    leave :
        (c : ℕ)
        → c < length s.consumers
        → consumer_at s c ≡ testing
        → IsOver s.shared
        → Step s (to c returned s)
    leave_queue :
        (c : ℕ)
        → c < length s.consumers
        → consumer_at s c ≡ waiting
        → IsOver s.shared
        → Step s (to c returned s)

  -- `n` consumers at their start, when the producer has `pages` to put.
  abbrev pub start_program : List Buffer → ℕ → Program
  start_program pages n = record {
    shared = start_threads pages;
    out = replicate (length pages) none;
    consumers = replicate n waiting;
  }

  pub data Reach (pages : List Buffer) (n : ℕ) : Program → Type 0 where
    start : Reach pages n (start_program pages n)
    later : {s t : Program} → Reach pages n s → Step s t → Reach pages n t

-- `out` as `printOutput` reads it; `none` when an entry is not set.
unfoldable pub all_outputs : List (Option Output) → Option (List Output)
all_outputs [] = some []
all_outputs (none ∷ out) = none
all_outputs (some o ∷ out) = elim (all_outputs out) [ none ↦ none | some rest ↦ some (o ∷ rest) ]
