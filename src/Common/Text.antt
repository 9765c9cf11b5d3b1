-- ===== src/Common/Text.antt =====
-- C strings: the bytes before the NUL, and the library functions on them that the sources call.
use Prim.Native.Nat.{ℕ, zero, suc, ◌+◌, ◌/◌, ◌%◌}
use Prim.Native.String.{String}
use mathlib.Core.Bool.{Bool, true, false, ◌&&◌, ◌||◌}
use mathlib.Core.Option.{Option, none, some}
use mathlib.Core.List.{List, [], ◌∷◌, ◌++◌}
use ostep_projects_finish.Common.Tests.{◌==◌, ltb, leb, if◌then◌else◌, codes}

abbrev pub Bytes : Type 0
Bytes = List ℕ

-- The string that a buffer holds.
abbrev pub cstr : Bytes → Bytes
cstr [] = []
cstr (c ∷ mem) = let s = cstr mem in if c == 0 then [] else c ∷ s

abbrev pub is_prefix : Bytes → Bytes → Bool
is_prefix [] s = true
is_prefix (x ∷ p) [] = false
is_prefix (x ∷ p) (y ∷ s) = x == y && is_prefix p s

-- `strstr(s, word) != NULL`
abbrev pub strstr : Bytes → Bytes → Bool
strstr [] word = is_prefix word []
strstr (x ∷ s) word = is_prefix word (x ∷ s) || strstr s word

-- What is in front of the first `c` and what is behind it, if there is one.
abbrev pub split_at : ℕ → Bytes → Bytes × Option Bytes
split_at c [] = ([], none)
split_at c (x ∷ s) =
    let (front, back) = split_at c s in if x == c then ([], some s) else (x ∷ front, back)

-- The last byte, and `d` if there is none.
abbrev pub last_or : Bytes → ℕ → ℕ
last_or [] d = d
last_or (x ∷ s) d = last_or s x

abbrev pub is_space : ℕ → Bool
is_space c = c == 32 || (leb 9 c && leb c 13)

-- The words that `%s` reads one after another.
abbrev pub words : Bytes → List Bytes
words [] = []
words (c ∷ []) = if is_space c then [] else ((c ∷ []) ∷ [])
words (c ∷ d ∷ s) =
    let rest = words (d ∷ s) in
    if is_space c
    then rest
    else if is_space d
    then ((c ∷ []) ∷ rest)
    else elim rest [ [] ↦ ((c ∷ []) ∷ []) | w ∷ ws ↦ ((c ∷ w) ∷ ws) ]

abbrev pub lower : ℕ → ℕ
lower c = if leb 65 c && leb c 90 then c + 32 else c

-- `%lu` and `%d` of a number below 2 ^ 64, which has at most 20 digits.
abbrev pub digits : ℕ → ℕ → Bytes
digits zero n = []
digits (suc k) n =
    let front = digits k (n / 10) in
    if ltb n 10 then ((48 + n) ∷ []) else front ++ ((48 + n % 10) ∷ [])

abbrev pub decimal : ℕ → Bytes
decimal n = digits 20 n

abbrev pub crlf : Bytes
crlf = 13 ∷ 10 ∷ []

-- A line of text and its `\r\n`.
abbrev pub line : String → Bytes
line s = codes s ++ crlf
