-- ===== src/Zip/Tests.antt =====
-- Runs of the theorems about wzip, wunzip and pzip on small files.
use ostep_projects_finish.Common.{
  ℕ, ◌≤◌, ◌≡◌, refl, List, [], ◌∷◌, ◌++◌, map, true, false, none, some, length, arith, codes,
}
use ostep_projects_finish.Zip.Wzip.{wzip, wunzip}
use ostep_projects_finish.Zip.Wzip.ToFile
use ostep_projects_finish.Zip.Wzip.ToFile.{on_stdout, wzip-main}
use ostep_projects_finish.Zip.Wzip.RoundTrip.{concat, wunzip-wzip}
use ostep_projects_finish.Zip.Pzip.Queue.{
  q_capacity, put, get, Threads, start_threads, Step, Reach, queued, queue_conserves,
  schedule-eq-wzip,
}
use ostep_projects_finish.Zip.Pzip.{
  Buffer, buffers_from, pages_in_file, is_cut, print_output, rle_compress, producer, buffer_at,
  pages_per_file, calculate_output_position,
}
use ostep_projects_finish.Zip.Pzip.Pages.{pzip-eq-wzip}
use ostep_projects_finish.Zip.Pzip1
use ostep_projects_finish.Zip.Pzip.Position.{range_from, calculate_output_position-producer}

abbrev one : List ℕ
one = 97 ∷ 97 ∷ 98 ∷ []

abbrev two : List ℕ
two = 98 ∷ 98 ∷ 99 ∷ []

wunzip-wzip_example :
    wunzip 7 (some (wzip (map some (one ∷ two ∷ []))).out ∷ [])
    ≡ record { out = concat (one ∷ two ∷ []); status = 0 }
wunzip-wzip_example = wunzip-wzip 7 one (two ∷ []) (omega arith)

two_files :
    print_output (map rle_compress (producer 2 0 (one ∷ two ∷ [])))
    ≡ (wzip (map some (one ∷ two ∷ []))).out
two_files = pzip-eq-wzip 2 (omega arith) one (two ∷ []) (omega arith)

three_places :
    map
      (calculate_output_position (pages_per_file 2 (7 ∷ 8 ∷ []) (one ∷ two ∷ [])))
      (producer 2 0 (one ∷ two ∷ []))
    ≡ range_from 0 (length (producer 2 0 (one ∷ two ∷ [])))
three_places =
    calculate_output_position-producer 2 (7 ∷ 8 ∷ []) (one ∷ two ∷ []) refl
      (omega arith, (omega arith, tt))

-- One file of three bytes on pages of two, and a schedule: the first page is put and got before the
-- second is put.
abbrev pages : List Buffer
pages = producer 2 0 (one ∷ [])

abbrev first : Buffer
first = buffer_at 2 0 one 0

abbrev second : Buffer
second = buffer_at 2 0 one 1

pages_two : pages ≡ first ∷ second ∷ []
unfolding producer buffers_from pages_in_file is_cut
pages_two = refl

abbrev seen : Threads → Threads
seen s = record s { has_room = true }

abbrev puts : Buffer → List Buffer → Threads → Threads
puts b rest s = record {
  queue = put b s.queue;
  is_complete = s.is_complete;
  to_put = rest;
  has_room = false;
  got = s.got;
}

abbrev gets : Threads → Threads
gets s = record {
  queue = (get s.queue).1;
  is_complete = s.is_complete;
  to_put = s.to_put;
  has_room = s.has_room;
  got = s.got ++ ((get s.queue).0 ∷ []);
}

abbrev halfway : Threads
halfway = gets (puts first (second ∷ []) (seen (start_threads pages)))

halfway-Reach : Reach pages halfway
unfolding put
halfway-Reach =
    Reach.later
      (Reach.later (Reach.later Reach.start (Step.find_room (omega arith)))
        (Step.produce first (second ∷ []) refl pages_two))
      (Step.consume (omega arith))

abbrev over : Threads
over = gets (record (puts second [] (seen halfway)) { is_complete = true })

over-Reach : Reach pages over
unfolding put get
over-Reach =
    Reach.later
      (Reach.later
        (Reach.later (Reach.later halfway-Reach (Step.find_room (omega arith)))
          (Step.produce second [] refl refl))
        (Step.finish refl))
      (Step.consume (omega arith))

over_empty : over.queue.q_size ≡ 0
unfolding put get
over_empty = refl

queue_conserves_example :
    (halfway.queue.q_size ≤ q_capacity)
    × (halfway.got ++ (queued halfway.queue ++ halfway.to_put) ≡ pages)
queue_conserves_example = queue_conserves pages halfway halfway-Reach

got_in_order : print_output (map rle_compress over.got) ≡ (wzip (map some (one ∷ []))).out
got_in_order = schedule-eq-wzip 2 one [] over (omega arith) (omega arith) over-Reach refl over_empty

abbrev eleven : List ℕ
eleven = one ++ (one ++ (two ++ (97 ∷ 97 ∷ [])))

-- Five bytes are fewer than three of the four parts would need.
five_bytes : Pzip1.pzip (λ i. []) (one ++ (97 ∷ 97 ∷ [])) ≡ none
unfolding Pzip1.pzip Pzip1.cut
five_bytes = refl

error_to_stdout :
    wzip (some one ∷ none ∷ [])
    ≡ on_stdout (codes "1\n") (ToFile.main (codes "1\n") (some one ∷ none ∷ []))
error_to_stdout = wzip-main (codes "1\n") (some one ∷ none ∷ [])
