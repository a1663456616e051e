-- ===== src/Utils/Text.antt =====
-- The string functions of src/utils.c that only read: a string is the list of its characters, and
-- its end stands for the NUL that is read there. A `char` is a byte without sign.
pub mod Compare
pub mod Words
mod Tests
use ducreu_os.Base.{
  ℕ, ◌+◌, ◌-◌, ◌%◌, ◌^◌, List, [], ◌∷◌, ◌==◌, not, ◌&&◌, Bool, true, false, if◌then◌else◌,
}

abbrev pub space : ℕ
space = 32

unfoldable pub mstrlen : List ℕ → ℕ
mstrlen [] = 0
mstrlen (c ∷ cs) = 1 + mstrlen cs

-- `*a - *b`, an `int`
abbrev pub difference : ℕ → ℕ → ℕ
difference a b = (a + 2 ^ 32 - b) % 2 ^ 32

pub mstrcmp : List ℕ → List ℕ → ℕ
mstrcmp [] [] = 0
mstrcmp [] (b ∷ ds) = difference 0 b
mstrcmp (a ∷ cs) [] = difference a 0
mstrcmp (a ∷ cs) (b ∷ ds) =
    let rest = mstrcmp cs ds in if not (difference a b == 0) then difference a b else rest

pub samestr : List ℕ → List ℕ → ℕ
unfolding mstrcmp
samestr a b = if mstrcmp a b == 0 then 1 else 0

-- the end of a word: a NUL or a space
abbrev pub ends : List ℕ → Bool
ends [] = true
ends (c ∷ cs) = c == space

abbrev pub first : List ℕ → ℕ
first [] = 0
first (c ∷ cs) = c

-- Both strings go on where the first characters are the same and end no word.
pub msstrcmp : List ℕ → List ℕ → ℕ
msstrcmp [] b = if ends b then 0 else difference 0 (first b)
msstrcmp (c ∷ cs) [] = if c == space then 0 else difference c 0
msstrcmp (c ∷ cs) (d ∷ ds) =
    let rest = msstrcmp cs ds in
    if (c == space) && (d == space)
    then 0
    else if not (difference c d == 0)
    then difference c d
    else rest

pub samecmd : List ℕ → List ℕ → ℕ
unfolding msstrcmp
samecmd cmd ref = if msstrcmp cmd ref == 0 then 1 else 0

-- what `msstrcpy` copies, and `msstrlen` counts
pub msstrcpy : List ℕ → List ℕ
msstrcpy [] = []
msstrcpy (c ∷ cs) = let rest = msstrcpy cs in if c == space then [] else c ∷ rest

pub msstrlen : List ℕ → ℕ
msstrlen [] = 0
msstrlen (c ∷ cs) = let rest = msstrlen cs in if c == space then 0 else 1 + rest

pub data State : Type 0 where
  in_word in_space : State

-- the loop of `countargs` from a state on
pub count_from : State → List ℕ → ℕ
count_from s [] = 0
count_from in_space (c ∷ cs) =
    let in_gap = count_from in_space cs in
    let behind = count_from in_word cs in if c == space then in_gap else 1 + behind
count_from in_word (c ∷ cs) =
    let in_gap = count_from in_space cs in
    let behind = count_from in_word cs in if c == space then in_gap else behind

pub countargs : List ℕ → ℕ
unfolding count_from
countargs cmd = count_from in_space cmd

-- the loop of `make_argv`: the strings that it stores, in their order
pub argv_from : State → List ℕ → List (List ℕ)
unfolding msstrcpy
argv_from s [] = []
argv_from in_space (c ∷ cs) =
    let in_gap = argv_from in_space cs in
    let behind = argv_from in_word cs in if c == space then in_gap else msstrcpy (c ∷ cs) ∷ behind
argv_from in_word (c ∷ cs) =
    let in_gap = argv_from in_space cs in
    let behind = argv_from in_word cs in if c == space then in_gap else behind

pub make_argv : List ℕ → List (List ℕ)
unfolding argv_from
make_argv cmd = argv_from in_space cmd
