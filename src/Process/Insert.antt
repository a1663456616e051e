-- ===== src/Process/Insert.antt =====
-- `process_insert` of src/process.c puts a node for the process in front of the first process that
-- is not ahead of it, and touches no node outside the list.
use ducreu_os.Base.{ℕ, zero, suc, ◌<◌, ◌≡◌, ◌≢◌, refl, [], ◌∷◌, ◌++◌, length, some, arith}
use ducreu_os.Base.Linked.{Nodes, put}
use ducreu_os.Base.Linked.Chain.{
  Cells, node, first, final, NotIn, Distinct, Chain, Chain-put, Chain-append, Chain-left,
  Chain-right, Distinct-left, Distinct-right, NotIn-left, NotIn-right, NotIn-removed,
}
use ducreu_os.Base.Linked.Relink.{
  load-ok, set_next-ok, set_prev-ok, Chain-set_final, NotIn-final, NotIn-final_right,
}
use ducreu_os.Process.{ProcessList, find_place, find_end, insert_first, insert_middle, insert_last}
use ducreu_os.Process.Lists.{upper}

module _ (vr : ℕ → ℕ) where
  pub find_place_lem :
      (k p : ℕ) (h : Nodes ℕ) (before : ℕ) (xs : Cells ℕ)
      → Chain h before xs 0
      → length xs < k
      → find_place vr k p (first xs 0) h ≡ some (first (upper vr p xs) 0, h)
  unfolding find_place
  find_place_lem zero p h before xs c fuel = elim fuel [ ]
  find_place_lem (suc k) p h before [] c fuel = refl
  find_place_lem (suc k) p h before ((a, v) ∷ xs) c fuel =
      ground (arith, c, load-ok h a v (first xs 0) before, find_place_lem k p h a xs c.2)

pub find_end_lem :
    (k : ℕ) (h : Nodes ℕ) (before a v : ℕ) (xs : Cells ℕ)
    → Chain h before ((a, v) ∷ xs) 0
    → length xs < k
    → find_end k a h ≡ some (final a xs, h)
unfolding find_end
find_end_lem zero h before a v xs c fuel = elim fuel [ ]
find_end_lem (suc k) h before a v [] c fuel = ground (arith, c, load-ok h a v 0 before)
find_end_lem (suc k) h before a v ((b, u) ∷ xs) c fuel =
    ground (arith, c, load-ok h a v b before, find_end_lem k h a b u xs c.2)

-- The heaps that the three ways in leave: the new node `f` before `b`, behind the last node, or
-- between the node `z` and `b`.
unfoldable pub first_heap : Nodes ℕ → (f p p₀ b u n : ℕ) → Nodes ℕ
first_heap h f p p₀ b u n =
    put (put (put h b (some (node u n f))) f (some (node p b p₀))) f (some (node p b 0))

unfoldable pub last_heap : Nodes ℕ → (f p n₀ z w q : ℕ) → Nodes ℕ
last_heap h f p n₀ z w q =
    put (put (put h z (some (node w f q))) f (some (node p n₀ z))) f (some (node p 0 z))

unfoldable pub middle_heap : Nodes ℕ → (f p p₀ z w q b u n : ℕ) → Nodes ℕ
middle_heap h f p p₀ z w q b u n =
    put (put (put (put h z (some (node w f q))) b (some (node u n f))) f (some (node p b p₀))) f
      (some (node p b z))

-- The runs of the three ways in, and the chains in the heaps that they leave.
module _ (h : Nodes ℕ) (f p n₀ p₀ : ℕ) (ne : f ≢ 0) (new : h f ≡ some (node p n₀ p₀)) where
  pub insert_first_run :
      (pl : ProcessList) (b u : ℕ) (zs : Cells ℕ)
      → NotIn f ((b, u) ∷ zs)
      → Chain h 0 ((b, u) ∷ zs) 0
      → insert_first pl f b h ≡ some (record pl { head = f }, first_heap h f p p₀ b u (first zs 0))
  unfolding insert_first first_heap
  insert_first_run pl b u zs out c = ground (
    arith,
    c,
    out,
    set_prev-ok h b u (first zs 0) 0 f,
    set_next-ok (put h b (some (node u (first zs 0) f))) f p n₀ p₀ b,
    set_prev-ok (put (put h b (some (node u (first zs 0) f))) f (some (node p b p₀))) f p b p₀ 0,
  )

  pub first_heap-Chain :
      (b u : ℕ) (zs : Cells ℕ)
      → NotIn f ((b, u) ∷ zs)
      → Distinct ((b, u) ∷ zs)
      → Chain h 0 ((b, u) ∷ zs) 0
      → Chain (first_heap h f p p₀ b u (first zs 0)) 0 ((f, p) ∷ (b, u) ∷ zs) 0
  unfolding first_heap
  first_heap-Chain b u zs out d c = (
    ne,
    ground arith,
    (
      c.0,
      ground (arith, out),
      Chain-put _ f _ b 0 zs out.1 (Chain-put _ f _ b 0 zs out.1 (Chain-put h b _ b 0 zs d.0 c.2)),
    ),
  )

  module _ (a v w q : ℕ) (ys : Cells ℕ) where
    module _ (out : NotIn f ((a, v) ∷ ys)) (d : Distinct ((a, v) ∷ ys))
        (c : Chain h 0 ((a, v) ∷ ys) 0) (z : final a ys ≢ 0)
        (e : h (final a ys) ≡ some (node w 0 q)) where
      pub insert_last_run :
          (fuel : ℕ)
          → length ys < fuel
          → insert_last fuel f a h ≡ some (tt, last_heap h f p n₀ (final a ys) w q)
      unfolding insert_last last_heap
      insert_last_run fuel le = ground (
        arith,
        find_end_lem fuel h 0 a v ys c le,
        NotIn-final f a v ys out,
        set_next-ok h (final a ys) w 0 q f,
        set_prev-ok (put h (final a ys) (some (node w f q))) f p n₀ p₀ (final a ys),
        set_next-ok (put (put h (final a ys) (some (node w f q))) f (some (node p n₀ (final a ys))))
            f p n₀ (final a ys) 0,
      )

      pub last_heap-Chain :
          Chain (last_heap h f p n₀ (final a ys) w q) 0 (((a, v) ∷ ys) ++ ((f, p) ∷ [])) 0
      unfolding last_heap
      last_heap-Chain =
          Chain-append _ 0 0 ((a, v) ∷ ys) ((f, p) ∷ [])
            (Chain-put _ f _ 0 f ((a, v) ∷ ys) out
              (Chain-put _ f _ 0 f ((a, v) ∷ ys) out (Chain-set_final h 0 0 f a v w q ys d c e)))
            (ne, ground arith, tt)

    module _ (b u : ℕ) (zs : Cells ℕ) where
      module _ (out : NotIn f (((a, v) ∷ ys) ++ ((b, u) ∷ zs)))
          (d : Distinct (((a, v) ∷ ys) ++ ((b, u) ∷ zs)))
          (c : Chain h 0 (((a, v) ∷ ys) ++ ((b, u) ∷ zs)) 0) (z : final a ys ≢ 0)
          (e : h (final a ys) ≡ some (node w b q)) where
        pub insert_middle_run :
            insert_middle f b h ≡ some (tt, middle_heap h f p p₀ (final a ys) w q b u (first zs 0))
        unfolding insert_middle middle_heap
        insert_middle_run = ground (
          arith,
          Chain-right h 0 0 ((a, v) ∷ ys) ((b, u) ∷ zs) c,
          NotIn-final f a v ys (NotIn-left f ((a, v) ∷ ys) ((b, u) ∷ zs) out),
          NotIn-right f ((a, v) ∷ ys) ((b, u) ∷ zs) out,
          NotIn-final_right a v ys ((b, u) ∷ zs) d,
          load-ok h b u (first zs 0) (final a ys),
          set_next-ok h (final a ys) w b q f,
          set_prev-ok (put h (final a ys) (some (node w f q))) b u (first zs 0) (final a ys) f,
          set_next-ok
              (put (put h (final a ys) (some (node w f q))) b (some (node u (first zs 0) f))) f p n₀
              p₀ b,
          set_prev-ok
              (put (put (put h (final a ys) (some (node w f q))) b (some (node u (first zs 0) f))) f
                (some (node p b p₀)))
              f p b p₀ (final a ys),
        )

        pub middle_heap-Chain :
            Chain
              (middle_heap h f p p₀ (final a ys) w q b u (first zs 0))
              0
              (((a, v) ∷ ys) ++ ((f, p) ∷ (b, u) ∷ zs))
              0
        unfolding middle_heap
        middle_heap-Chain =
            let fl = NotIn-left f ((a, v) ∷ ys) ((b, u) ∷ zs) out in
            let fr = NotIn-right f ((a, v) ∷ ys) ((b, u) ∷ zs) out in
            let zr = NotIn-final_right a v ys ((b, u) ∷ zs) d in
            let bl = NotIn-left b ((a, v) ∷ ys) zs (NotIn-removed ((a, v) ∷ ys) zs b u d) in
            let cr = Chain-right h 0 0 ((a, v) ∷ ys) ((b, u) ∷ zs) c in
            let dr = Distinct-right ((a, v) ∷ ys) ((b, u) ∷ zs) d in
            Chain-append _ 0 0 ((a, v) ∷ ys) ((f, p) ∷ (b, u) ∷ zs)
              (Chain-put _ f _ 0 f ((a, v) ∷ ys) fl (
                Chain-put _ f _ 0 f ((a, v) ∷ ys) fl (
                  Chain-put _ b _ 0 f ((a, v) ∷ ys) bl (
                    Chain-set_final h 0 b f a v w q ys (Distinct-left ((a, v) ∷ ys) ((b, u) ∷ zs) d)
                      (Chain-left h 0 0 ((a, v) ∷ ys) ((b, u) ∷ zs) c) e))))
              (
                ne,
                ground arith,
                (
                  cr.0,
                  ground (arith, fr.0),
                  Chain-put _ f _ b 0 zs fr.1 (
                      Chain-put _ f _ b 0 zs fr.1 (
                        Chain-put _ b _ b 0 zs dr.0 (Chain-put _ (final a ys) _ b 0 zs zr.1 cr.2))),
                ),
              )
