-- ===== src/Zip/Pzip/Queue.antt =====
-- concurrency-pzip/wzip/pzip3.c: the circular queue `buf`, and the producer and the consumers as a step
-- relation. A step is what a thread does from the end of a wait to the unlock. The producer waits for
-- room under one lock and puts under another, so these are two steps; there is one producer and any
-- number of consumers, and their steps come in any order.
use ostep_projects_finish.Common.{
  ℕ, suc, ◌+◌, ◌-◌, ◌%◌, ◌≤◌, ◌<◌, ◌≡◌, ◌≢◌, refl, sym, ap, ◌∙◌, Bool, true, false, List, [], ◌∷◌,
  ◌++◌, append-nil, append_assoc, map, some, length, get_or, set, replicate, length-set,
  length-replicate, arith,
}
use ostep_projects_finish.Common.Ring.{slots, slots-set, slots-suc}
use ostep_projects_finish.Zip.Wzip.{wzip}
use ostep_projects_finish.Zip.Wzip.RoundTrip.{concat}
use ostep_projects_finish.Zip.Pzip.{Buffer, rle_compress, print_output, producer}
use ostep_projects_finish.Zip.Pzip.Cut.{HasBytes}
use ostep_projects_finish.Zip.Pzip.Pages.{pzip-eq-wzip}
use native.Mathlib.Nat.{mod-add-mod, mod-lt}

abbrev pub q_capacity : ℕ
q_capacity = 10

-- What the static array holds at the start.
abbrev pub empty_buffer : Buffer
empty_buffer = record { address = []; file_number = 0; page_number = 0; last_page_size = 0 }

pub record Queue : Type 0 where
  pub buf : List Buffer
  pub q_head : ℕ
  pub q_tail : ℕ
  pub q_size : ℕ

abbrev pub empty_queue : Queue
empty_queue = record { buf = replicate q_capacity empty_buffer; q_head = 0; q_tail = 0; q_size = 0 }

unfoldable pub put : Buffer → Queue → Queue
put b q = record {
  buf = set q.buf q.q_head b;
  q_head = (q.q_head + 1) % q_capacity;
  q_tail = q.q_tail;
  q_size = q.q_size + 1;
}

unfoldable pub get : Queue → Buffer × Queue
get q = (
  get_or q.buf q.q_tail empty_buffer,
  record q { q_tail = (q.q_tail + 1) % q_capacity; q_size = q.q_size - 1 },
)

-- The queue and `isComplete`; the buffers that the producer has still to put, and whether it has seen
-- room for the next one; and for the record the buffers that consumers have got, in order.
pub record Threads : Type 0 where
  pub queue : Queue
  pub is_complete : Bool
  pub to_put : List Buffer
  pub has_room : Bool
  pub got : List Buffer

abbrev pub start_threads : List Buffer → Threads
start_threads pages = record {
  queue = empty_queue;
  is_complete = false;
  to_put = pages;
  has_room = false;
  got = [];
}

pub data Step (s : Threads) : Threads → Type 0 where
  find_room : s.queue.q_size ≢ q_capacity → Step s (record s { has_room = true })
  produce :
      (b : Buffer) (rest : List Buffer)
      → s.has_room ≡ true
      → s.to_put ≡ b ∷ rest
      → Step s (record {
        queue = put b s.queue;
        is_complete = s.is_complete;
        to_put = rest;
        has_room = false;
        got = s.got;
      })
  finish : s.to_put ≡ [] → Step s (record s { is_complete = true })
  consume :
      s.queue.q_size ≢ 0
      → Step s (record {
        queue = (get s.queue).1;
        is_complete = s.is_complete;
        to_put = s.to_put;
        has_room = s.has_room;
        got = s.got ++ ((get s.queue).0 ∷ []);
      })

pub data Reach (pages : List Buffer) : Threads → Type 0 where
  start : Reach pages (start_threads pages)
  later : {s t : Threads} → Reach pages s → Step s t → Reach pages t

-- The buffers in the queue, the oldest first.
abbrev pub queued : Queue → List Buffer
queued q = slots empty_buffer q_capacity q.buf q.q_tail 0 q.q_size

abbrev IsQueue : Queue → Type 0
IsQueue q =
    (q.q_size ≤ q_capacity)
    × (q.q_tail < q_capacity)
    × (length q.buf ≡ q_capacity)
    × (q.q_head ≡ (q.q_tail + q.q_size) % q_capacity)

put-IsQueue : (b : Buffer) (q : Queue) → IsQueue q → q.q_size < q_capacity → IsQueue (put b q)
unfolding put
put-IsQueue b q w h = (
  omega arith,
  w.1,
  length-set q.buf q.q_head b ∙ w.2,
  ap (λ k. (k + 1) % q_capacity) w.3
      ∙ mod-add-mod (q.q_tail + q.q_size) q_capacity 1
      ∙ ap (λ k. k % q_capacity)
          (let e : q.q_tail + q.q_size + 1 ≡ q.q_tail + (q.q_size + 1) = omega arith in e),
)

queued-put :
    (b : Buffer) (q : Queue)
    → IsQueue q
    → q.q_size < q_capacity
    → queued (put b q) ≡ queued q ++ (b ∷ [])
unfolding put
queued-put b q w h =
    ap (λ c. slots empty_buffer q_capacity (set q.buf q.q_head b) q.q_tail 0 c)
      (let e : q.q_size + 1 ≡ suc q.q_size = omega arith in e)
    ∙ ap (λ i. slots empty_buffer q_capacity (set q.buf i b) q.q_tail 0 (suc q.q_size)) w.3
    ∙ slots-set empty_buffer q_capacity q.buf q.q_tail q.q_size b (omega (arith, w.2)) w.1 h

get-IsQueue : (q : Queue) → IsQueue q → q.q_size ≢ 0 → IsQueue ((get q).1)
unfolding get
get-IsQueue q w h = (
  omega arith,
  mod-lt (q.q_tail + 1) (omega arith),
  w.2,
  w.3
      ∙ ap (λ k. k % q_capacity)
          (let e : q.q_tail + q.q_size ≡ q.q_tail + 1 + (q.q_size - 1) = omega arith in e)
      ∙ sym (mod-add-mod (q.q_tail + 1) q_capacity (q.q_size - 1)),
)

queued-get : (q : Queue) → IsQueue q → q.q_size ≢ 0 → queued q ≡ (get q).0 ∷ queued ((get q).1)
unfolding get
queued-get q w h =
    ap (λ c. slots empty_buffer q_capacity q.buf q.q_tail 0 c)
      (let e : q.q_size ≡ suc (q.q_size - 1) = omega arith in e)
    ∙ slots-suc empty_buffer q_capacity q.buf q.q_tail (q.q_size - 1) w.1

-- The queue is well-formed, has room when the producer relies on it, and no buffer is lost or doubled;
-- the producer says that it is done only when it is.
record IsRunning (pages : List Buffer) (s : Threads) : Type 0 where
  well : IsQueue s.queue
  room : s.has_room ≡ true → s.queue.q_size < q_capacity
  order : s.got ++ (queued s.queue ++ s.to_put) ≡ pages
  done : s.is_complete ≡ true → s.to_put ≡ []

Step-IsRunning :
    (pages : List Buffer) (s t : Threads) → Step s t → IsRunning pages s → IsRunning pages t
Step-IsRunning pages s t (Step.find_room h) i =
    let w = i.well in
    record { well = i.well; room = λ q. omega (arith, w.0); order = i.order; done = i.done }
Step-IsRunning pages s t (Step.produce b rest r e) i = record {
  well = put-IsQueue b s.queue i.well (i.room r);
  room = λ q. cc;
  order =
      ap (λ l. s.got ++ (l ++ rest)) (queued-put b s.queue i.well (i.room r))
      ∙ ap (λ l. s.got ++ l) (append_assoc (queued s.queue) (b ∷ []) rest)
      ∙ ap (λ l. s.got ++ (queued s.queue ++ l)) (sym e)
      ∙ i.order;
  done = λ c. let z = i.done c in cc;
}
Step-IsRunning pages s t (Step.finish e) i = record {
  well = i.well;
  room = i.room;
  order = i.order;
  done = λ q. e;
}
Step-IsRunning pages s t (Step.consume h) i = record {
  well = get-IsQueue s.queue i.well h;
  room = λ r. let k = i.room r in unfold get in omega arith;
  order =
      append_assoc s.got ((get s.queue).0 ∷ []) (queued ((get s.queue).1) ++ s.to_put)
      ∙ ap (λ l. s.got ++ (l ++ s.to_put)) (sym (queued-get s.queue i.well h))
      ∙ i.order;
  done = i.done;
}

Reach-IsRunning : (pages : List Buffer) (s : Threads) → Reach pages s → IsRunning pages s
Reach-IsRunning pages s (Reach.start) = record {
  well = (omega arith, omega arith, length-replicate 10 empty_buffer, omega arith);
  room = λ r. cc;
  order = refl;
  done = λ r. cc;
}
Reach-IsRunning pages s (Reach.later {s = s'} r d) =
    Step-IsRunning pages s' s d (Reach-IsRunning pages s' r)

-- In every state that the producer and the consumers reach, the queue holds at most `q_capacity`
-- buffers, and the buffers that consumers have got, in order, those in the queue and those still to be
-- put are together the producer's buffers in their order: none is lost, doubled or overwritten.
pub queue_conserves :
    (pages : List Buffer) (s : Threads)
    → Reach pages s
    → (s.queue.q_size ≤ q_capacity) × (s.got ++ (queued s.queue ++ s.to_put) ≡ pages)
queue_conserves pages s r = let i = Reach-IsRunning pages s r in (i.well.0, i.order)

nothing_queued : (q : Queue) → q.q_size ≡ 0 → queued q ≡ []
nothing_queued q e = ap (λ c. slots empty_buffer q_capacity q.buf q.q_tail 0 c) e

-- Once the producer has ended, it has nothing left to put.
pub nothing_to_put :
    (pages : List Buffer) (s : Threads) → Reach pages s → s.is_complete ≡ true → s.to_put ≡ []
nothing_to_put pages s r = (Reach-IsRunning pages s r).done

-- When the producer has ended and the queue is empty, consumers have got all pages.
pub got_all :
    (pages : List Buffer) (s : Threads)
    → Reach pages s
    → s.is_complete ≡ true
    → s.queue.q_size ≡ 0
    → s.got ≡ pages
got_all pages s r c z =
    let i = Reach-IsRunning pages s r in
    sym (append-nil s.got)
    ∙ ap (λ l. s.got ++ l) (sym (ap (λ l. l ++ s.to_put) (nothing_queued s.queue z) ∙ i.done c))
    ∙ i.order

-- For files that are not all empty, in every reached state in which the consumers' condition to return
-- holds, `isComplete` being set and the queue empty, the pages that consumers have got, compressed and
-- printed in order, are what the sequential wzip writes for the files, whatever the schedule was.
pub schedule-eq-wzip :
    (page_size : ℕ) (f : List ℕ) (fs : List (List ℕ)) (s : Threads)
    → 0 < page_size
    → HasBytes (concat (f ∷ fs))
    → Reach (producer page_size 0 (f ∷ fs)) s
    → s.is_complete ≡ true
    → s.queue.q_size ≡ 0
    → print_output (map rle_compress s.got) ≡ (wzip (map some (f ∷ fs))).out
schedule-eq-wzip page_size f fs s pos some_bytes r c z =
    ap (λ l. print_output (map rle_compress l)) (got_all (producer page_size 0 (f ∷ fs)) s r c z)
    ∙ pzip-eq-wzip page_size pos f fs some_bytes
