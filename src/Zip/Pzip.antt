-- ===== src/Zip/Pzip.antt =====
-- concurrency-pzip/wzip/pzip3.c, the code that runs in one thread at a time: how the producer cuts a
-- file into pages, what a consumer does with a page, and how the outputs are joined and printed. A
-- mapped file is the list of its bytes; `page_size` is what sysconf returns.
pub mod Compress
pub mod Cut
pub mod Position
pub mod Join
pub mod Pages
pub mod Queue
pub mod Consumers
mod Outputs
pub mod Returned
mod Tests
use ostep_projects_finish.Common.{
  ℕ, zero, suc, ◌+◌, ◌-◌, ◌*◌, ◌/◌, ◌%◌, Bool, true, false, List, [], ◌∷◌, ◌++◌, length, get_or,
  set, take, drop, ◌==◌, ltb, if◌then◌else◌,
}
use ostep_projects_finish.Zip.Wzip.{diwrite}

-- `struct output`: `data` is `chars` here.
pub record Output : Type 0 where
  pub chars : List ℕ
  pub count : List ℕ
  pub size : ℕ

-- `struct buffer`; `address` is the mapping from that address on.
pub record Buffer : Type 0 where
  pub address : List ℕ
  pub file_number : ℕ
  pub page_number : ℕ
  pub last_page_size : ℕ

pub add_run : ℕ → ℕ → Output → Output
add_run c n o = record { chars = c ∷ o.chars; count = n ∷ o.count; size = o.size + 1 }

-- The two loops of `RLECompress` inside a run: `n` bytes `c` are counted, the list is what follows.
pub compress_run : ℕ → ℕ → List ℕ → Output
compress_run c n [] = record { chars = c ∷ []; count = n ∷ []; size = 1 }
compress_run c n (y ∷ ys) = elim (c == y) [
  | true ↦ compress_run c (n + 1) ys
  | false ↦ add_run c n (compress_run y 1 ys)
]

pub compress_bytes : List ℕ → Output
compress_bytes [] = record { chars = []; count = []; size = 0 }
compress_bytes (c ∷ ys) = compress_run c 1 ys

unfoldable pub rle_compress : Buffer → Output
unfolding compress_bytes compress_run add_run
rle_compress temp = compress_bytes (take temp.last_page_size temp.address)

-- The records of the first `n` entries.
unfoldable pub emit : ℕ → List ℕ → List ℕ → List ℕ
emit zero chars count = []
emit (suc n) (c ∷ chars) (k ∷ count) = diwrite k c ++ emit n chars count
emit (suc n) _ _ = []

-- The `if` of `printOutput` for outputs `i` and `i + 1`.
unfoldable pub join_edge : Output → Output → Output × Output
join_edge o p =
    if get_or o.chars (o.size - 1) 0 == get_or p.chars 0 0
    then (
      record o { size = o.size - 1 },
      record p { count = set p.count 0 (get_or p.count 0 0 + get_or o.count (o.size - 1) 0) },
    )
    else (o, p)

unfoldable pub print_from : Output → List Output → List ℕ
print_from o [] = emit o.size o.chars o.count
print_from o (p ∷ rest) =
    let (o', p') = join_edge o p in emit o'.size o'.chars o'.count ++ print_from p' rest

unfoldable pub print_output : List Output → List ℕ
unfolding print_from join_edge emit diwrite
print_output [] = []
print_output (o ∷ rest) = print_from o rest

module _ (page_size : ℕ) where
  -- `((double)sb.st_size/page_size)>pages_in_file`: the quotient is not whole.
  unfoldable pub is_cut : ℕ → Bool
  is_cut st_size = ltb (st_size / page_size * page_size) st_size

  unfoldable pub pages_in_file : ℕ → ℕ
  pages_in_file st_size = if is_cut st_size then st_size / page_size + 1 else st_size / page_size

  unfoldable pub size_of_last : ℕ → ℕ
  size_of_last st_size = if is_cut st_size then st_size % page_size else page_size

  -- Step 6 of `producer` for page `j` of file `i`.
  unfoldable pub buffer_at : ℕ → List ℕ → ℕ → Buffer
  buffer_at i file j = record {
    address = drop (j * page_size) file;
    file_number = i;
    page_number = j;
    last_page_size =
        if j + 1 == pages_in_file (length file) then size_of_last (length file) else page_size;
  }

  unfoldable pub buffers_from : ℕ → List ℕ → ℕ → ℕ → List Buffer
  buffers_from i file j zero = []
  buffers_from i file j (suc r) = buffer_at i file j ∷ buffers_from i file (j + 1) r

  -- The buffers that `producer` puts for the files from number `i` on, in order. An empty file is
  -- skipped.
  unfoldable pub producer : ℕ → List (List ℕ) → List Buffer
  producer i [] = []
  producer i (file ∷ files) =
      (if length file == 0 then [] else buffers_from i file 0 (pages_in_file (length file)))
      ++ producer (i + 1) files

  -- `pages_per_file` after `producer`. The array comes from malloc with the contents `garbage`, and
  -- the entry of an empty file is not written.
  pub pages_per_file : List ℕ → List (List ℕ) → List ℕ
  pages_per_file [] files = []
  pages_per_file garbage [] = garbage
  pages_per_file (g ∷ garbage) (file ∷ files) =
      (if length file == 0 then g else pages_in_file (length file)) ∷ pages_per_file garbage files

pub sum_first : ℕ → List ℕ → ℕ
sum_first zero ppf = 0
sum_first (suc n) [] = 0
sum_first (suc n) (p ∷ ppf) = p + sum_first n ppf

unfoldable pub calculate_output_position : List ℕ → Buffer → ℕ
unfolding sum_first
calculate_output_position ppf temp = sum_first temp.file_number ppf + temp.page_number
