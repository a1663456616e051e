-- ===== src/Utils/Text/Words.antt =====
-- The words of a command line, as `countargs` and `make_argv` of src/utils.c find them.
use ducreu_os.Base.{ℕ, zero, suc, ◌≡◌, ◌≢◌, refl, ap, ◌∙◌, List, [], ◌∷◌, ◌++◌, length, arith}
use ducreu_os.Utils.Text.{
  space, State, in_word, in_space, msstrcpy, count_from, countargs, argv_from, make_argv,
}

abbrev pub NoSpace : List ℕ → Type 0
NoSpace [] = Unit {0}
NoSpace (c ∷ cs) = (c ≢ space) × NoSpace cs

abbrev pub AreWords : List (List ℕ) → Type 0
AreWords [] = Unit {0}
AreWords (w ∷ ws) = (w ≢ []) × NoSpace w × AreWords ws

abbrev pub spaces : ℕ → List ℕ
spaces zero = []
spaces (suc n) = space ∷ spaces n

abbrev pub texts : List (ℕ × List ℕ) → List (List ℕ)
texts [] = []
texts ((g, w) ∷ ws) = w ∷ texts ws

-- what follows a word: a space, more of them and a word, each time, and `k` spaces up to the end
abbrev pub behind : List (ℕ × List ℕ) → ℕ → List ℕ
behind [] k = spaces k
behind ((g, w) ∷ ws) k = space ∷ (spaces g ++ (w ++ behind ws k))

-- the line with spaces in front of the words, between them and behind them
abbrev pub unwords : List (ℕ × List ℕ) → ℕ → List ℕ
unwords [] k = spaces k
unwords ((g, w) ∷ ws) k = spaces g ++ (w ++ behind ws k)

-- The line ends, or a space is next.
abbrev Ends : List ℕ → Type 0
Ends [] = Unit {0}
Ends (c ∷ r) = c ≡ space

behind-Ends : (ws : List (ℕ × List ℕ)) (k : ℕ) → Ends (behind ws k)
behind-Ends [] zero = tt
behind-Ends [] (suc k) = refl
behind-Ends ((g, w) ∷ ws) k = refl

msstrcpy-append : (w r : List ℕ) → NoSpace w → Ends r → msstrcpy (w ++ r) ≡ w
unfolding msstrcpy
msstrcpy-append [] [] n e = refl
msstrcpy-append [] (c ∷ r) n e = ground (arith, e)
msstrcpy-append (c ∷ w) r (ne, n) e = ground (arith, msstrcpy-append w r n e, ne)

argv_past : (w r : List ℕ) → NoSpace w → argv_from in_word (w ++ r) ≡ argv_from in_word r
unfolding argv_from
argv_past [] r n = refl
argv_past (c ∷ w) r (ne, n) = ground (arith, argv_past w r n, ne)

argv_word :
    (w r : List ℕ)
    → w ≢ []
    → NoSpace w
    → Ends r
    → argv_from in_space (w ++ r) ≡ w ∷ argv_from in_word r
unfolding argv_from
argv_word [] r ne n e = absurd (ne refl)
argv_word (c ∷ w) r ne n e = ground (arith, msstrcpy-append (c ∷ w) r n e, argv_past w r n.1, n.0)

argv_spaces : (g : ℕ) (r : List ℕ) → argv_from in_space (spaces g ++ r) ≡ argv_from in_space r
unfolding argv_from
argv_spaces zero r = refl
argv_spaces (suc g) r = argv_spaces g r

argv_end : (k : ℕ) → argv_from in_space (spaces k) ≡ []
unfolding argv_from
argv_end zero = refl
argv_end (suc k) = argv_end k

argv_behind :
    (ws : List (ℕ × List ℕ)) (k : ℕ)
    → AreWords (texts ws)
    → argv_from in_word (behind ws k) ≡ texts ws
unfolding argv_from
argv_behind [] zero a = refl
argv_behind [] (suc k) a = argv_end k
argv_behind ((g, w) ∷ ws) k (ne, n, a) =
    argv_spaces g (w ++ behind ws k)
    ∙ argv_word w (behind ws k) ne n (behind-Ends ws k)
    ∙ ap (λ r. w ∷ r) (argv_behind ws k a)

-- The arguments of a line of words, with any number of spaces in front of the first, at least one
-- between two of them and any number or none behind the last, are these words.
pub make_argv-unwords :
    (ws : List (ℕ × List ℕ)) (k : ℕ) → AreWords (texts ws) → make_argv (unwords ws k) ≡ texts ws
unfolding make_argv
make_argv-unwords [] k a = argv_end k
make_argv-unwords ((g, w) ∷ ws) k (ne, n, a) =
    argv_spaces g (w ++ behind ws k)
    ∙ argv_word w (behind ws k) ne n (behind-Ends ws k)
    ∙ ap (λ r. w ∷ r) (argv_behind ws k a)

count_lem : (s : State) (cmd : List ℕ) → count_from s cmd ≡ length (argv_from s cmd)
unfolding count_from argv_from
count_lem in_word [] = refl
count_lem in_space [] = refl
count_lem in_word (c ∷ cmd) = ground (arith, count_lem in_space cmd, count_lem in_word cmd)
count_lem in_space (c ∷ cmd) = ground (arith, count_lem in_space cmd, count_lem in_word cmd)

msstrcpy-NoSpace : (cs : List ℕ) → NoSpace (msstrcpy cs)
unfolding msstrcpy
msstrcpy-NoSpace [] = tt
msstrcpy-NoSpace (c ∷ cs) = ground (arith, msstrcpy-NoSpace cs)

argv-AreWords : (s : State) (cmd : List ℕ) → AreWords (argv_from s cmd)
unfolding argv_from msstrcpy
argv-AreWords in_word [] = tt
argv-AreWords in_space [] = tt
argv-AreWords in_word (c ∷ cmd) =
    ground (arith, argv-AreWords in_space cmd, argv-AreWords in_word cmd)
argv-AreWords in_space (c ∷ cmd) =
    ground (arith, argv-AreWords in_space cmd, argv-AreWords in_word cmd, msstrcpy-NoSpace cmd)

-- On any line `make_argv` finds as many arguments as `countargs` counted for its array, and each of
-- them is not empty and has no space.
pub make_argv_lem :
    (cmd : List ℕ) → (length (make_argv cmd) ≡ countargs cmd) × AreWords (make_argv cmd)
unfolding make_argv countargs
make_argv_lem cmd = (omega (arith, count_lem in_space cmd), argv-AreWords in_space cmd)
