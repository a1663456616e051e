-- ===== src/Process/Place.antt =====
-- `process_insert` of src/process.c as a whole: the list with the process at its place.
use mathlib.Core.Path.{subst}
use ducreu_os.Base.{
  ℕ, ◌≤◌, ◌<◌, ◌≡◌, ◌≢◌, refl, sym, ap, [], ◌∷◌, ◌++◌, leb, length, length-append, some, true,
  false, arith, Bool-cases, inl, inr,
}
use ducreu_os.Base.Linked.{Nodes, put}
use ducreu_os.Base.Linked.Chain.{
  Cells, node, first, final, NotIn, Distinct, Chain, Chain-put, NotIn-left, NotIn-right,
  Distinct-insert, Chain-left, Chain-right, Distinct-left,
}
use ducreu_os.Base.Linked.Relink.{
  load-ok, set_item-ok, set_next-ok, set_prev-ok, final-node, NotIn-final,
}
use ducreu_os.Process.{ProcessList, find_place, insert_behind, process_insert}
use ducreu_os.Process.Lists.{IsList, lower, upper, insert_cell, lower-append-upper}
use ducreu_os.Process.Insert.{
  find_place_lem, first_heap, insert_first_run, first_heap-Chain, last_heap, insert_last_run,
  last_heap-Chain, middle_heap, insert_middle_run, middle_heap-Chain,
}

pub ProcessList_eta :
    (pl : ProcessList) (a : ℕ) → pl.head ≡ a → pl.mutex ≡ 1 → pl ≡ record { head = a; mutex = 1 }
ProcessList_eta pl a e m = λ i. record { head = e i; mutex = m i }

-- Only nodes of the list and the new node may change.
abbrev pub Frame : Cells ℕ → ℕ → Nodes ℕ → Nodes ℕ → Type 0
Frame xs f h h' = (a : ℕ) → NotIn a xs → a ≢ f → h' a ≡ h a

first_frame : (h : Nodes ℕ) (f p p₀ b u n x : ℕ) → x ≢ b → x ≢ f → first_heap h f p p₀ b u n x ≡ h x
unfolding first_heap
first_frame h f p p₀ b u n x nb nf = ground arith

last_frame : (h : Nodes ℕ) (f p n₀ z w q x : ℕ) → x ≢ z → x ≢ f → last_heap h f p n₀ z w q x ≡ h x
unfolding last_heap
last_frame h f p n₀ z w q x nz nf = ground arith

middle_frame :
    (h : Nodes ℕ) (f p p₀ z w q b u n x : ℕ)
    → x ≢ z
    → x ≢ b
    → x ≢ f
    → middle_heap h f p p₀ z w q b u n x ≡ h x
unfolding middle_heap
middle_frame h f p p₀ z w q b u n x nz nb nf = ground arith

module _ (vr : ℕ → ℕ) where
  insert_behind_lem :
      (fuel : ℕ) (h : Nodes ℕ) (f p n₀ p₀ a v nx : ℕ) (ys us : Cells ℕ)
      → f ≢ 0
      → h f ≡ some (node p n₀ p₀)
      → h a ≡ some (node v nx 0)
      → find_place vr fuel p nx h ≡ some (first us 0, h)
      → NotIn f (((a, v) ∷ ys) ++ us)
      → Distinct (((a, v) ∷ ys) ++ us)
      → Chain h 0 (((a, v) ∷ ys) ++ us) 0
      → length ys < fuel
      → (h' : Nodes ℕ) × (insert_behind vr fuel p f a h ≡ some (tt, h'))
        × Chain h' 0 (((a, v) ∷ ys) ++ ((f, p) ∷ us)) 0
        × Frame (((a, v) ∷ ys) ++ us) f h h'
  unfolding insert_behind
  insert_behind_lem fuel h f p n₀ p₀ a v nx ys [] ne new ea fp out d c le =
      let (w, q, z, e) = final-node h 0 0 a v ys (Chain-left h 0 0 ((a, v) ∷ ys) [] c) in
      let out' = NotIn-left f ((a, v) ∷ ys) [] out in
      let d' = Distinct-left ((a, v) ∷ ys) [] d in
      let c' = Chain-left h 0 0 ((a, v) ∷ ys) [] c in
      (
        last_heap h f p n₀ (final a ys) w q,
        ground (
          arith,
          load-ok h a v nx 0,
          c.0,
          insert_last_run h f p n₀ p₀ ne new a v w q ys out' d' c' z e fuel le,
        ),
        last_heap-Chain h f p n₀ p₀ ne new a v w q ys out' d' c' z e,
        λ x off ne'.
            last_frame h f p n₀ (final a ys) w q x
              (NotIn-final x a v ys (NotIn-left x ((a, v) ∷ ys) [] off)) ne',
      )
  insert_behind_lem fuel h f p n₀ p₀ a v nx ys ((b, u) ∷ us) ne new ea fp out d c le =
      let (w, q, z, e) = final-node h 0 b a v ys (Chain-left h 0 0 ((a, v) ∷ ys) ((b, u) ∷ us) c) in
      (
        middle_heap h f p p₀ (final a ys) w q b u (first us 0),
        ground (
          arith,
          load-ok h a v nx 0,
          c.0,
          Chain-right h 0 0 ((a, v) ∷ ys) ((b, u) ∷ us) c,
          insert_middle_run h f p n₀ p₀ ne new a v w q ys b u us out d c z e,
        ),
        middle_heap-Chain h f p n₀ p₀ ne new a v w q ys b u us out d c z e,
        λ x off ne'.
            middle_frame h f p p₀ (final a ys) w q b u (first us 0) x
              (NotIn-final x a v ys (NotIn-left x ((a, v) ∷ ys) ((b, u) ∷ us) off))
              (NotIn-right x ((a, v) ∷ ys) ((b, u) ∷ us) off).0 ne',
      )

  -- The heap with the process stored in the new node.
  abbrev stored : Nodes ℕ → (f p n₀ p₀ : ℕ) → Nodes ℕ
  stored h f p n₀ p₀ = put h f (some (node p n₀ p₀))

  abbrev Placed : ℕ → Nodes ℕ → (f p head : ℕ) → Cells ℕ → Type 0
  Placed fuel h f p head xs =
      (h' : Nodes ℕ) × (process_insert vr fuel f (record { head = head; mutex = 1 }) p h
        ≡ some (record { head = first (insert_cell vr f p xs) 0; mutex = 1 }, h'))
      × Chain h' 0 (insert_cell vr f p xs) 0
      × Frame xs f h h'

  module _ (fuel : ℕ) (h : Nodes ℕ) (f p old n₀ p₀ : ℕ) (pne : p ≢ 0) (ne : f ≢ 0)
      (new : h f ≡ some (node old n₀ p₀)) where
    place_empty : Placed fuel h f p 0 []
    unfolding process_insert
    place_empty = (
      put (put (stored h f p n₀ p₀) f (some (node p 0 p₀))) f (some (node p 0 0)),
      ground (
        arith,
        set_item-ok h f old n₀ p₀ p,
        set_next-ok (stored h f p n₀ p₀) f p n₀ p₀ 0,
        set_prev-ok (put (stored h f p n₀ p₀) f (some (node p 0 p₀))) f p 0 p₀ 0,
      ),
      (ne, ground arith, tt),
      λ x off nf. ground arith,
    )

    module _ (b u : ℕ) (zs : Cells ℕ) (out : NotIn f ((b, u) ∷ zs)) (d : Distinct ((b, u) ∷ zs))
        (c : Chain h 0 ((b, u) ∷ zs) 0) where
      stored-Chain : Chain (stored h f p n₀ p₀) 0 ((b, u) ∷ zs) 0
      stored-Chain = Chain-put h f (some (node p n₀ p₀)) 0 0 ((b, u) ∷ zs) out c

      place_front : leb (vr p) (vr u) ≡ true → Placed fuel h f p b ((b, u) ∷ zs)
      unfolding process_insert
      place_front e = rw e (
        first_heap (stored h f p n₀ p₀) f p p₀ b u (first zs 0),
        ground (
          arith,
          set_item-ok h f old n₀ p₀ p,
          stored-Chain,
          load-ok (stored h f p n₀ p₀) b u (first zs 0) 0,
          insert_first_run (stored h f p n₀ p₀) f p n₀ p₀ ne (ground arith)
              (record { head = b; mutex = 0 }) b u zs out stored-Chain,
        ),
        first_heap-Chain (stored h f p n₀ p₀) f p n₀ p₀ ne (ground arith) b u zs out d stored-Chain,
        λ x off nf. ground (arith, first_frame (stored h f p n₀ p₀) f p p₀ b u (first zs 0) x),
      )

      place_behind :
          leb (vr p) (vr u) ≡ false → length zs < fuel → Placed fuel h f p b ((b, u) ∷ zs)
      unfolding process_insert
      place_behind e le =
          let es = sym (lower-append-upper vr p zs) in
          let s = stored h f p n₀ p₀ in
          let (h', run, chain, frame) =
            insert_behind_lem fuel s f p n₀ p₀ b u (first zs 0) (lower vr p zs) (upper vr p zs) ne
              (ground arith) stored-Chain.1 (find_place_lem vr fuel p s b zs stored-Chain.2 le)
              (subst (λ l. NotIn f ((b, u) ∷ l)) es out) (subst (λ l. Distinct ((b, u) ∷ l)) es d)
              (subst (λ l. Chain s 0 ((b, u) ∷ l) 0) es stored-Chain)
              (omega (arith, ap length es, length-append (lower vr p zs) (upper vr p zs))) in
          rw e (
            h',
            ground (
              arith,
              set_item-ok h f old n₀ p₀ p,
              stored-Chain,
              load-ok s b u (first zs 0) 0,
              run,
            ),
            chain,
            λ x off nf. ground (arith, frame x (subst (λ l. NotIn x ((b, u) ∷ l)) es off) nf),
          )

  placed :
      (fuel : ℕ) (h : Nodes ℕ) (f p old n₀ p₀ : ℕ) (xs : Cells ℕ)
      → p ≢ 0
      → f ≢ 0
      → h f ≡ some (node old n₀ p₀)
      → NotIn f xs
      → Distinct xs
      → Chain h 0 xs 0
      → length xs ≤ fuel
      → Placed fuel h f p (first xs 0) xs
  placed fuel h f p old n₀ p₀ [] pne ne new out d c le = place_empty fuel h f p old n₀ p₀ pne ne new
  placed fuel h f p old n₀ p₀ ((b, u) ∷ zs) pne ne new out d c le =
      elim (Bool-cases (leb (vr p) (vr u))) [
        | inl e ↦ place_front fuel h f p old n₀ p₀ pne ne new b u zs out d c e
        | inr e ↦ place_behind fuel h f p old n₀ p₀ pne ne new b u zs out d c e (omega arith)
      ]

  -- On an unlocked list, process_insert of a process other than NULL, with a node from the
  -- allocator that is not in the list, returns; the process is then in front of the first process
  -- that is not ahead of it, the list is unlocked, and nodes outside it are as before.
  pub process_insert_lem :
      (fuel : ℕ) (h : Nodes ℕ) (f p old n₀ p₀ : ℕ) (pl : ProcessList) (xs : Cells ℕ)
      → p ≢ 0
      → f ≢ 0
      → h f ≡ some (node old n₀ p₀)
      → IsList h pl xs
      → NotIn f xs
      → length xs ≤ fuel
      → (pl' : ProcessList) × (h' : Nodes ℕ) × (process_insert vr fuel f pl p h ≡ some (pl', h'))
        × IsList h' pl' (insert_cell vr f p xs)
        × Frame xs f h h'
  process_insert_lem fuel h f p old n₀ p₀ pl xs pne ne new is out le =
      let (h', run, chain, frame) =
        placed fuel h f p old n₀ p₀ xs pne ne new out is.distinct is.chain le in
      (
        record { head = first (insert_cell vr f p xs) 0; mutex = 1 },
        h',
        subst
            (λ l.
              process_insert vr fuel f l p h
              ≡ some (record { head = first (insert_cell vr f p xs) 0; mutex = 1 }, h'))
            (sym (ProcessList_eta pl (first xs 0) is.start is.unlocked)) run,
        record {
          unlocked = refl;
          start = refl;
          chain = chain;
          distinct =
              Distinct-insert (lower vr p xs) (upper vr p xs) f p
                (subst (λ l. Distinct l) (sym (lower-append-upper vr p xs)) is.distinct)
                (subst (λ l. NotIn f l) (sym (lower-append-upper vr p xs)) out);
        },
        frame,
      )
