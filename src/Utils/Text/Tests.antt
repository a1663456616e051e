-- ===== src/Utils/Text/Tests.antt =====
-- Runs of the string functions of src/utils.c, and the conditions of their theorems there.
use ducreu_os.Base.{ℕ, ◌≡◌, refl, List, [], ◌∷◌, arith}
use ducreu_os.Utils.Text.{mstrlen, msstrlen, countargs, make_argv}
use ducreu_os.Utils.Text.Compare.{AllChars}
use ducreu_os.Utils.Text.Words.{AreWords, texts, make_argv-unwords}

-- "ls", "ls -a" and " ls  a"
abbrev ls : List ℕ
ls = 108 ∷ 115 ∷ []

abbrev ls_all : List ℕ
ls_all = 108 ∷ 115 ∷ 32 ∷ 45 ∷ 97 ∷ []

abbrev spaced : List ℕ
spaced = 32 ∷ 108 ∷ 115 ∷ 32 ∷ 32 ∷ 97 ∷ []

lengths : (mstrlen ls_all ∷ msstrlen ls_all ∷ countargs spaced ∷ []) ≡ (5 ∷ 2 ∷ 2 ∷ [])
unfolding mstrlen msstrlen countargs
lengths = refl

ls-AllChars : AllChars ls
ls-AllChars = ground arith

ls_all-AllChars : AllChars ls_all
ls_all-AllChars = ground arith

abbrev two_words : List (ℕ × List ℕ)
two_words = (1, ls) ∷ (1, 97 ∷ []) ∷ []

two_words-AreWords : AreWords (texts two_words)
two_words-AreWords = ground arith

make_argv-unwords_example : make_argv spaced ≡ ls ∷ (97 ∷ []) ∷ []
make_argv-unwords_example = make_argv-unwords two_words 0 two_words-AreWords
