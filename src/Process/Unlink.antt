-- ===== src/Process/Unlink.antt =====
-- `process_remove` of src/process.c: the node of the process is led past and given back.
use mathlib.Core.Path.{subst}
use ducreu_os.Base.{
  ℕ, zero, suc, ◌<◌, ◌≡◌, refl, sym, ap, ◌∙◌, [], ◌∷◌, ◌++◌, ◌==◌, if◌then◌else◌, length, some,
  none, arith,
}
use ducreu_os.Base.Linked.{Nodes, put}
use ducreu_os.Base.Linked.Chain.{
  Cells, node, first, final, NotIn, Distinct, Chain, Chain-put, Chain-append, Chain-left,
  Chain-right, NotIn-left, NotIn-right, NotIn-append, NotIn-removed, Distinct-left, Distinct-right,
  Distinct-remove,
}
use ducreu_os.Base.Linked.Relink.{
  load-ok, set_next-ok, set_prev-ok, release-ok, final-node, NotIn-final, NotIn-final_right,
  Chain-set_first, Chain-set_final,
}
use ducreu_os.Process.{ProcessList, find_process, unlink, process_remove}
use ducreu_os.Process.Lists.{IsList}
use ducreu_os.Process.Place.{ProcessList_eta}

-- the list without the first node of the process, the cells in front of that node, and the rest
abbrev pub remove_cell : ℕ → Cells ℕ → Cells ℕ
remove_cell r [] = []
remove_cell r ((a, v) ∷ xs) = if v == r then xs else (a, v) ∷ remove_cell r xs

abbrev skip : ℕ → Cells ℕ → Cells ℕ
skip r [] = []
skip r ((a, v) ∷ xs) = if v == r then [] else (a, v) ∷ skip r xs

abbrev found : ℕ → Cells ℕ → Cells ℕ
found r [] = []
found r ((a, v) ∷ xs) = if v == r then (a, v) ∷ xs else found r xs

skip-append-found : (r : ℕ) (xs : Cells ℕ) → skip r xs ++ found r xs ≡ xs
skip-append-found r [] = refl
skip-append-found r ((a, v) ∷ xs) = ground (arith, skip-append-found r xs)

remove_cell_none : (r : ℕ) (xs : Cells ℕ) → found r xs ≡ [] → remove_cell r xs ≡ xs
remove_cell_none r [] e = refl
remove_cell_none r ((a, v) ∷ xs) e = ground (arith, remove_cell_none r xs)

remove_cell_some :
    (r : ℕ) (xs : Cells ℕ) (n w : ℕ) (zs : Cells ℕ)
    → found r xs ≡ (n, w) ∷ zs
    → remove_cell r xs ≡ skip r xs ++ zs
remove_cell_some r [] n w zs e = absurd (ground arith)
remove_cell_some r ((a, v) ∷ xs) n w zs e = ground (arith, remove_cell_some r xs n w zs)

find_process_lem :
    (k r : ℕ) (h : Nodes ℕ) (before : ℕ) (xs : Cells ℕ)
    → Chain h before xs 0
    → length xs < k
    → find_process k r (first xs 0) h ≡ some (first (found r xs) 0, h)
unfolding find_process
find_process_lem zero r h before xs c le = elim le [ ]
find_process_lem (suc k) r h before [] c le = refl
find_process_lem (suc k) r h before ((a, v) ∷ xs) c le =
    ground (arith, c, load-ok h a v (first xs 0) before, find_process_lem k r h a xs c.2)

-- The node `n` between the cells `ys` and `zs` is led past; `n` keeps its contents.
module _ (h : Nodes ℕ) (n r : ℕ) where
  abbrev Past : Cells ℕ → Cells ℕ → Type 0
  Past ys zs =
      (h' : Nodes ℕ) × (unlink (record { head = first (ys ++ ((n, r) ∷ zs)) 0; mutex = 0 }) n h
        ≡ some (record { head = first (ys ++ zs) 0; mutex = 0 }, h'))
      × Chain h' 0 (ys ++ zs) 0
      × (h' n ≡ h n)
      × ((x : ℕ) → NotIn x (ys ++ zs) → h' x ≡ h x)

  Past-front : (zs : Cells ℕ) → Distinct ((n, r) ∷ zs) → Chain h 0 ((n, r) ∷ zs) 0 → Past [] zs
  unfolding unlink
  Past-front [] d c = (h, ground (arith, c, load-ok h n r 0 0), tt, refl, λ x o. refl)
  Past-front ((b, u) ∷ zs) d c = (
    put h b (some (node u (first zs 0) 0)),
    ground (arith, c, load-ok h n r b 0, set_prev-ok h b u (first zs 0) n 0),
    Chain-set_first h n 0 0 b u zs d.1 c.2,
    ground (arith, d),
    λ x o. ground arith,
  )

  Past-behind :
      (a v : ℕ) (ys zs : Cells ℕ)
      → Distinct (((a, v) ∷ ys) ++ ((n, r) ∷ zs))
      → Chain h 0 (((a, v) ∷ ys) ++ ((n, r) ∷ zs)) 0
      → Past ((a, v) ∷ ys) zs
  unfolding unlink
  Past-behind a v ys [] d c =
      let (w, q, z, e) = final-node h 0 n a v ys (Chain-left h 0 0 ((a, v) ∷ ys) ((n, r) ∷ []) c) in
      let cr = Chain-right h 0 0 ((a, v) ∷ ys) ((n, r) ∷ []) c in
      (
        put h (final a ys) (some (node w 0 q)),
        ground (
          arith,
          cr,
          load-ok h n r 0 (final a ys),
          set_next-ok h (final a ys) w n q 0,
          NotIn-final_right a v ys ((n, r) ∷ []) d,
          load-ok (put h (final a ys) (some (node w 0 q))) n r 0 (final a ys),
        ),
        Chain-append _ 0 0 ((a, v) ∷ ys) []
            (Chain-set_final h 0 n 0 a v w q ys (Distinct-left ((a, v) ∷ ys) ((n, r) ∷ []) d)
              (Chain-left h 0 0 ((a, v) ∷ ys) ((n, r) ∷ []) c) e)
            tt,
        ground (arith, NotIn-final_right a v ys ((n, r) ∷ []) d),
        λ x o. ground (arith, NotIn-final x a v ys (NotIn-left x ((a, v) ∷ ys) [] o)),
      )
  Past-behind a v ys ((b, u) ∷ zs) d c =
      let (w, q, z, e) =
        final-node h 0 n a v ys (Chain-left h 0 0 ((a, v) ∷ ys) ((n, r) ∷ (b, u) ∷ zs) c) in
      let cr = Chain-right h 0 0 ((a, v) ∷ ys) ((n, r) ∷ (b, u) ∷ zs) c in
      let dr = Distinct-right ((a, v) ∷ ys) ((n, r) ∷ (b, u) ∷ zs) d in
      let zr = NotIn-final_right a v ys ((n, r) ∷ (b, u) ∷ zs) d in
      let ds = Distinct-remove ((a, v) ∷ ys) ((b, u) ∷ zs) n r d in
      let bl = NotIn-left b ((a, v) ∷ ys) zs (NotIn-removed ((a, v) ∷ ys) zs b u ds) in
      (
        put (put h (final a ys) (some (node w b q))) b (some (node u (first zs 0) (final a ys))),
        ground (
          arith,
          cr,
          dr,
          zr,
          load-ok h n r b (final a ys),
          set_next-ok h (final a ys) w n q b,
          load-ok (put h (final a ys) (some (node w b q))) n r b (final a ys),
          set_prev-ok (put h (final a ys) (some (node w b q))) b u (first zs 0) n (final a ys),
        ),
        Chain-append _ 0 0 ((a, v) ∷ ys) ((b, u) ∷ zs)
            (Chain-put _ b _ 0 b ((a, v) ∷ ys) bl (
              Chain-set_final h 0 n b a v w q ys
                (Distinct-left ((a, v) ∷ ys) ((n, r) ∷ (b, u) ∷ zs) d)
                (Chain-left h 0 0 ((a, v) ∷ ys) ((n, r) ∷ (b, u) ∷ zs) c) e))
            (
              cr.2.0,
              ground arith,
              Chain-put _ b _ b 0 zs dr.1.0 (Chain-put _ (final a ys) _ b 0 zs zr.1.1 cr.2.2),
            ),
        ground (arith, dr, zr),
        λ x o. ground (
          arith,
          NotIn-final x a v ys (NotIn-left x ((a, v) ∷ ys) ((b, u) ∷ zs) o),
          NotIn-right x ((a, v) ∷ ys) ((b, u) ∷ zs) o,
        ),
      )

  past :
      (ys zs : Cells ℕ)
      → Distinct (ys ++ ((n, r) ∷ zs))
      → Chain h 0 (ys ++ ((n, r) ∷ zs)) 0
      → Past ys zs
  past [] zs d c = Past-front zs d c
  past ((a, v) ∷ ys) zs d c = Past-behind a v ys zs d c

-- What process_remove does where the process is in the list, and where it is not.
abbrev Removed : ℕ → Nodes ℕ → ℕ → Cells ℕ → Cells ℕ → Type 0
Removed fuel h r xs ys =
    (h' : Nodes ℕ) × (process_remove fuel (record { head = first xs 0; mutex = 1 }) r h
      ≡ some (record { head = first ys 0; mutex = 1 }, h'))
    × Chain h' 0 ys 0
    × Distinct ys
    × ((x : ℕ) → NotIn x xs → h' x ≡ h x)

Removed-at :
    (fuel : ℕ) (h : Nodes ℕ) (r n w : ℕ) (ys zs : Cells ℕ)
    → find_process fuel r (first (ys ++ ((n, w) ∷ zs)) 0) h ≡ some (n, h)
    → Distinct (ys ++ ((n, w) ∷ zs))
    → Chain h 0 (ys ++ ((n, w) ∷ zs)) 0
    → Removed fuel h r (ys ++ ((n, w) ∷ zs)) (ys ++ zs)
unfolding process_remove
Removed-at fuel h r n w ys zs f d c =
    let (h', run, chain, same, frame) = past h n w ys zs d c in
    let cr = Chain-right h 0 0 ys ((n, w) ∷ zs) c in
    (
      put h' n none,
      ground (arith, f, run, same, cr, release-ok h' n w (first zs 0) (final 0 ys)),
      Chain-put h' n none 0 0 (ys ++ zs) (NotIn-removed ys zs n w d) chain,
      Distinct-remove ys zs n w d,
      λ x o. ground (
        arith,
        NotIn-right x ys ((n, w) ∷ zs) o,
        frame x (
            NotIn-append x ys zs (NotIn-left x ys ((n, w) ∷ zs) o)
              (NotIn-right x ys ((n, w) ∷ zs) o).1),
      ),
    )

Removed-found :
    (fuel : ℕ) (h : Nodes ℕ) (r : ℕ) (xs us : Cells ℕ)
    → found r xs ≡ us
    → Distinct xs
    → Chain h 0 xs 0
    → length xs < fuel
    → Removed fuel h r xs (remove_cell r xs)
unfolding process_remove
Removed-found fuel h r xs [] e d c le = (
  h,
  ground (arith, find_process_lem fuel r h 0 xs c le, e, remove_cell_none r xs e),
  subst (λ l. Chain h 0 l 0) (sym (remove_cell_none r xs e)) c,
  subst (λ l. Distinct l) (sym (remove_cell_none r xs e)) d,
  λ x o. refl,
)
Removed-found fuel h r xs ((n, w) ∷ zs) e d c le =
    let parts : skip r xs ++ ((n, w) ∷ zs) ≡ xs = rw (← e) (skip-append-found r xs) in
    let f : find_process fuel r (first xs 0) h ≡ some (n, h) =
      find_process_lem fuel r h 0 xs c le ∙ ap (λ l. some (first l 0, h)) e in
    subst (λ l. Removed fuel h r xs l) (sym (remove_cell_some r xs n w zs e))
      (subst (λ l. Removed fuel h r l (skip r xs ++ zs)) parts
        (Removed-at fuel h r n w (skip r xs) zs
          (subst (λ l. find_process fuel r (first l 0) h ≡ some (n, h)) (sym parts) f)
          (subst (λ l. Distinct l) (sym parts) d) (subst (λ l. Chain h 0 l 0) (sym parts) c)))

-- On an unlocked list, process_remove returns with the list unlocked; the first node of the process
-- is gone from it, the order of the others is as before, and a list without the process is left as
-- it was. Nodes outside the list keep their contents.
pub process_remove_lem :
    (fuel : ℕ) (h : Nodes ℕ) (r : ℕ) (pl : ProcessList) (xs : Cells ℕ)
    → IsList h pl xs
    → length xs < fuel
    → (pl' : ProcessList) × (h' : Nodes ℕ) × (process_remove fuel pl r h ≡ some (pl', h'))
      × IsList h' pl' (remove_cell r xs)
      × ((x : ℕ) → NotIn x xs → h' x ≡ h x)
process_remove_lem fuel h r pl xs is le =
    let (h', run, chain, d, frame) =
      Removed-found fuel h r xs (found r xs) refl is.distinct is.chain le in
    (
      record { head = first (remove_cell r xs) 0; mutex = 1 },
      h',
      subst
          (λ l.
            process_remove fuel l r h
            ≡ some (record { head = first (remove_cell r xs) 0; mutex = 1 }, h'))
          (sym (ProcessList_eta pl (first xs 0) is.start is.unlocked)) run,
      record { unlocked = refl; start = refl; chain = chain; distinct = d },
      frame,
    )
