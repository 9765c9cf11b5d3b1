-- ===== src/Zip/Pzip/Tests.antt =====
-- Runs of pzip3 with two consumers, which store their outputs in the other order.
use ostep_projects_finish.Common.{
  ℕ, ◌<◌, ◌≡◌, refl, zero, suc, List, [], ◌∷◌, map, true, false, none, some, arith,
}
use mathlib.Core.Option
use ostep_projects_finish.Zip.Wzip.{wzip}
use ostep_projects_finish.Zip.Pzip.{
  Buffer, rle_compress, print_output, producer, pages_per_file, calculate_output_position,
  buffer_at, buffers_from, pages_in_file, is_cut,
}
use ostep_projects_finish.Zip.Pzip.Queue
use ostep_projects_finish.Zip.Pzip.Queue.{put, get, empty_queue}
use ostep_projects_finish.Zip.Pzip.Consumers
use ostep_projects_finish.Zip.Pzip.Consumers.{
  Program, waiting, compressing, returned, consumer_at, all_outputs, Reach,
}
use ostep_projects_finish.Zip.Pzip.Returned.{consumers-eq-wzip}

abbrev one : List ℕ
one = 97 ∷ 97 ∷ 98 ∷ []

abbrev first : Buffer
first = buffer_at 2 0 one 0

abbrev second : Buffer
second = buffer_at 2 0 one 1

abbrev over : Program
over = record {
  shared = record {
    queue = (get (get (put second (put first empty_queue))).1).1;
    is_complete = true;
    to_put = [];
    has_room = false;
    got = first ∷ second ∷ [];
  };
  out = some (rle_compress first) ∷ some (rle_compress second) ∷ [];
  consumers = returned ∷ returned ∷ [];
}

abbrev position : Buffer → ℕ
position = calculate_output_position (pages_per_file 2 (7 ∷ []) (one ∷ []))

over-Reach : Reach position (producer 2 0 (one ∷ [])) 2 over
unfolding producer buffers_from pages_in_file is_cut put get calculate_output_position buffer_at
over-Reach =
    Reach.later
      (Reach.later
        (Reach.later
          (Reach.later
            (Reach.later
              (Reach.later
                (Reach.later
                  (Reach.later
                    (Reach.later
                      (Reach.later
                        (Reach.later Reach.start
                          (Consumers.Step.produce _ (Queue.Step.find_room (λ e. omega arith)) refl))
                        (Consumers.Step.produce _ (Queue.Step.produce first (second ∷ []) refl refl)
                          refl))
                      (Consumers.Step.produce _ (Queue.Step.find_room (λ e. omega arith)) refl))
                    (Consumers.Step.produce _ (Queue.Step.produce second [] refl refl) refl))
                  (Consumers.Step.take_buffer 0 (omega arith) refl (λ e. omega arith)))
                (Consumers.Step.take_buffer 1 (omega arith) refl (λ e. omega arith)))
              (Consumers.Step.store 1 second (omega arith) refl))
            (Consumers.Step.store 0 first (omega arith) refl))
          (Consumers.Step.produce _ (Queue.Step.finish refl) refl))
        (Consumers.Step.leave 0 (omega arith) refl (refl, refl)))
      (Consumers.Step.leave 1 (omega arith) refl (refl, refl))

all_over : (c : ℕ) → c < 2 → consumer_at over c ≡ returned
all_over zero h = refl
all_over (suc zero) h = refl
all_over (suc (suc c)) h = absurd (omega arith)

consumers-eq-wzip_example :
    Option.map print_output (all_outputs over.out) ≡ some (wzip (map some (one ∷ []))).out
consumers-eq-wzip_example =
    consumers-eq-wzip 2 (7 ∷ []) one [] 2 over (omega arith) refl (omega arith, tt) (omega arith)
      over-Reach all_over

abbrev halfway : Program
halfway = record {
  shared = record {
    queue = (get (put first empty_queue)).1;
    is_complete = false;
    to_put = second ∷ [];
    has_room = false;
    got = first ∷ [];
  };
  out = none ∷ none ∷ [];
  consumers = compressing first ∷ waiting ∷ [];
}

halfway-Reach : Reach position (producer 2 0 (one ∷ [])) 2 halfway
unfolding producer buffers_from pages_in_file is_cut put get calculate_output_position buffer_at
halfway-Reach =
    Reach.later
      (Reach.later
        (Reach.later Reach.start
          (Consumers.Step.produce _ (Queue.Step.find_room (λ e. omega arith)) refl))
        (Consumers.Step.produce _ (Queue.Step.produce first (second ∷ []) refl refl) refl))
      (Consumers.Step.take_buffer 0 (omega arith) refl (λ e. omega arith))
