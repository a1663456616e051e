-- ===== src/Sched/Wake.antt =====
-- Waking a process in src/sched.c: it leaves the sleeping list and enters the other at its place.
use ducreu_os.Base.{ℕ, ◌<◌, ◌≤◌, ◌≡◌, ◌≢◌, none, some, length, [], ◌∷◌, ◌++◌, refl, sym, arith}
use mathlib.Core.Path.{◌∙◌, subst, ap}
use ducreu_os.Base.Linked.{Nodes, Cmd, pure, ◌>>=◌}
use ducreu_os.Base.Linked.Chain.{Cells, node, NotIn, Chain, NotIn-append, NotIn-left, NotIn-right}
use ducreu_os.Process.{ProcessList, process_insert, process_remove}
use ducreu_os.Process.Lists.{IsList, insert_cell, lower, upper, lower-append-upper}
use ducreu_os.Process.Place.{process_insert_lem}
use ducreu_os.Process.Unlink.{remove_cell, process_remove_lem}
use ducreu_os.Sched.{Sched, set_running, wake}

-- no node is in both lists
abbrev pub Apart : Cells ℕ → Cells ℕ → Type 0
Apart [] ys = Unit
Apart ((a, v) ∷ xs) ys = NotIn a ys × Apart xs ys

NotIn-apart : (a v : ℕ) (xs ys : Cells ℕ) → Apart xs ((a, v) ∷ ys) → NotIn a xs
NotIn-apart a v [] ys ap = tt
NotIn-apart a v ((b, w) ∷ xs) ys ap = ((λ e. ap.0.0 (sym e)), NotIn-apart a v xs ys ap.1)

Apart-rest : (a v : ℕ) (xs ys : Cells ℕ) → Apart xs ((a, v) ∷ ys) → Apart xs ys
Apart-rest a v [] ys ap = tt
Apart-rest a v ((b, w) ∷ xs) ys ap = (ap.0.1, Apart-rest a v xs ys ap.1)

Apart-remove : (p : ℕ) (xs ys : Cells ℕ) → Apart xs ys → Apart (remove_cell p xs) ys
Apart-remove p [] ys ap = tt
Apart-remove p ((a, v) ∷ xs) ys ap = ground (arith, ap, Apart-remove p xs ys ap.1)

NotIn-remove : (a p : ℕ) (xs : Cells ℕ) → NotIn a xs → NotIn a (remove_cell p xs)
NotIn-remove a p [] out = tt
NotIn-remove a p ((b, v) ∷ xs) out = ground (arith, out, NotIn-remove a p xs out.1)

-- a chain survives what happens to other nodes
Chain-frame :
    (h h' : Nodes ℕ) (before after : ℕ) (xs ys : Cells ℕ)
    → ((x : ℕ) → NotIn x xs → h' x ≡ h x)
    → Apart xs ys
    → Chain h before ys after
    → Chain h' before ys after
Chain-frame h h' before after xs [] same ap ch = tt
Chain-frame h h' before after xs ((a, v) ∷ ys) same ap ch = (
  ch.0,
  same a (NotIn-apart a v xs ys ap) ∙ ch.1,
  Chain-frame h h' a after xs ys same (Apart-rest a v xs ys ap) ch.2,
)

Chain-keep :
    (h h' : Nodes ℕ) (f before after : ℕ) (ys xs : Cells ℕ)
    → ((x : ℕ) → NotIn x ys → x ≢ f → h' x ≡ h x)
    → Apart xs ys
    → NotIn f xs
    → Chain h before xs after
    → Chain h' before xs after
Chain-keep h h' f before after ys [] same ap out ch = tt
Chain-keep h h' f before after ys ((a, v) ∷ xs) same ap out ch = (
  ch.0,
  same a ap.0 (λ e. out.0 (sym e)) ∙ ch.1,
  Chain-keep h h' f a after ys xs same ap.1 out.1 ch.2,
)

bind-run :
    {B C : Type 0} (m : Cmd ℕ B) (k : B → Cmd ℕ C) {h h' : Nodes ℕ} {b : B}
    → m h ≡ some (b, h')
    → (m >>= k) h ≡ k b h'
bind-run m k e = ap (λ r. elim r [ none ↦ none | some (b, h') ↦ k b h' ]) e

Apart-insert :
    (vr : ℕ → ℕ) (f p : ℕ) (xs ys : Cells ℕ)
    → Apart xs ys
    → NotIn f xs
    → Apart xs (insert_cell vr f p ys)
Apart-insert vr f p [] ys ap out = tt
Apart-insert vr f p ((a, v) ∷ xs) ys ap out =
    let split : NotIn a (lower vr p ys ++ upper vr p ys) =
      subst (NotIn a) (sym (lower-append-upper vr p ys)) ap.0 in
    (
      NotIn-append a (lower vr p ys) ((f, p) ∷ upper vr p ys)
          (NotIn-left a (lower vr p ys) (upper vr p ys) split)
          ((λ e. out.0 (sym e)), NotIn-right a (lower vr p ys) (upper vr p ys) split),
      Apart-insert vr f p xs ys ap.1 out.1,
    )

module _ (vr : ℕ → ℕ) (bound : ℕ) where
  abbrev both : Sched → ℕ → ProcessList → ProcessList → Sched
  both s p sl wl = record {
    process_state = set_running p s.process_state;
    sleeping = sl;
    waiting = wl;
  }

  wake-run :
      (h h₁ h₂ : Nodes ℕ) (f p : ℕ) (s : Sched) (sl wl : ProcessList)
      → process_remove bound s.sleeping p h ≡ some (sl, h₁)
      → process_insert vr bound f s.waiting p h₁ ≡ some (wl, h₂)
      → wake vr bound f s p h ≡ some (both s p sl wl, h₂)
  unfolding wake
  wake-run h h₁ h₂ f p s sl wl run₁ run₂ =
      bind-run (process_remove bound s.sleeping p)
        (λ sl. process_insert vr bound f s.waiting p >>= λ wl. pure (both s p sl wl)) run₁
      ∙ bind-run (process_insert vr bound f s.waiting p) (λ wl. pure (both s p sl wl)) run₂

  -- On well-formed lists without a common node, the scheduler's wake takes a process off the sleeping list and puts it into the other list in
  -- front of the first process that is not ahead of it, with a fresh node; it returns, both lists
  -- stay well formed and unlocked, share no node, and only the process is marked anew, as running.
  pub wake_lem :
      (h : Nodes ℕ) (f p old n₀ p₀ : ℕ) (s : Sched) (xs ys : Cells ℕ)
      → p ≢ 0
      → f ≢ 0
      → h f ≡ some (node old n₀ p₀)
      → IsList h s.sleeping xs
      → IsList h s.waiting ys
      → Apart xs ys
      → NotIn f xs
      → NotIn f ys
      → length xs < bound
      → length ys ≤ bound
      → (s' : Sched) × (h' : Nodes ℕ) × (wake vr bound f s p h ≡ some (s', h'))
        × IsList h' s'.sleeping (remove_cell p xs)
        × IsList h' s'.waiting (insert_cell vr f p ys)
        × Apart (remove_cell p xs) (insert_cell vr f p ys)
        × (s'.process_state ≡ set_running p s.process_state)
  wake_lem h f p old n₀ p₀ s xs ys pne fne new sl wl ap fx fy lx ly =
      let (sl', h₁, run₁, is₁, same₁) = process_remove_lem bound h p s.sleeping xs sl lx in
      let wl₁ : IsList h₁ s.waiting ys = record {
        unlocked = wl.unlocked;
        start = wl.start;
        chain = Chain-frame h h₁ 0 0 xs ys same₁ ap wl.chain;
        distinct = wl.distinct;
      } in
      let (wl', h₂, run₂, is₂, same₂) =
        process_insert_lem vr bound h₁ f p old n₀ p₀ s.waiting ys pne fne (same₁ f fx ∙ new) wl₁ fy
          ly in
      (
        both s p sl' wl',
        h₂,
        wake-run h h₁ h₂ f p s sl' wl' run₁ run₂,
        record {
          unlocked = is₁.unlocked;
          start = is₁.start;
          chain =
              Chain-keep h₁ h₂ f 0 0 ys (remove_cell p xs) same₂ (Apart-remove p xs ys ap)
                (NotIn-remove f p xs fx) is₁.chain;
          distinct = is₁.distinct;
        },
        is₂,
        Apart-insert vr f p (remove_cell p xs) ys (Apart-remove p xs ys ap)
            (NotIn-remove f p xs fx),
        refl,
      )
