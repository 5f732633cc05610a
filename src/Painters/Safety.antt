-- ===== src/Painters/Safety.antt =====
-- What holds in every state of a run of the painters.
use mathlib.Core.Path.{subst}
use public_systems_projects.Base.{
  ℕ, ◌≡◌, ◌≢◌, ◌⊎◌, refl, sym, ap, ap₂, ◌∙◌, true, false, some, List, get_elem?, lt_of_get_elem?,
  get_elem?-set_cases, ret, fault, arith, ◌==◌, inl, inr, some_inj,
}
use public_systems_projects.Threads.{Pthread, IsPthread}
use public_systems_projects.Painters.{
  at_lock, test_red, at_unlock, backtrack, after_test, paint_at, Painter, Canvas, paint_step, Step,
  turn, Reach, begin, next,
}
use public_systems_projects.Painters.Locks.{
  InCanvas, critical, lock_at, IsPainter, KeepsOthers, Turned, resting, pixel_at_lem,
}
use public_systems_projects.Painters.Turn.{paint_step_lem}

module _ (l : Pthread) where
  -- painters on the canvas, before the call of trylock
  abbrev pub Starts : List Painter → Type 0
  Starts ps =
      (i : ℕ) (p : Painter)
      → get_elem? ps i ≡ some p
      → InCanvas p.artist.x p.artist.y × (p.stage ≡ at_lock)

  abbrev pub ArePainters : Canvas l → List Painter → Type 0
  ArePainters c ps = (i : ℕ) (p : Painter) → get_elem? ps i ≡ some p → IsPainter l c i p

  -- a painter whose locks all stay
  keep_painter :
      (c d : Canvas l) (i j : ℕ) (p : Painter)
      → KeepsOthers l i c d
      → j ≢ i
      → IsPainter l c j p
      → IsPainter l d j p
  keep_painter c d i j p keep ne is = record {
    on_canvas = is.on_canvas;
    came_from = is.came_from;
    holds = λ f. keep j _ _ ne (is.holds f);
  }

  module _ (laws : IsPthread l) where
    -- A step that returns: the painter of the thread and the others.
    stepped :
        (i draw : ℕ) (c d : Canvas l) (p p' : Painter)
        → IsPainter l c i p
        → paint_step l i draw c p ≡ ret (d, p')
        → KeepsOthers l i c d × IsPainter l d i p'
    stepped i draw c d p p' is e = elim (paint_step_lem l laws i draw c p is) [
      | inl t ↦ subst (Turned l i c) e t
      | inr x ↦ absurd (cc (x.2, e))
    ]

    Step-ArePainters :
        (c d : Canvas l) (ps qs : List Painter)
        → Step l c ps d qs
        → ArePainters c ps
        → ArePainters d qs
    Step-ArePainters c d ps qs (turn i draw _ _ _ p p' at_i rounds e) are j q at_j =
        elim (get_elem?-set_cases ps i j p' (lt_of_get_elem? ps i p at_i) at_j) [
          | inl x ↦
              subst (λ k. IsPainter l d k q) x.0
                (subst (IsPainter l d i) (sym x.1) (stepped i draw c d p p' (are i p at_i) e).1)
          | inr x ↦
              keep_painter c d i j q (stepped i draw c d p p' (are i p at_i) e).0 (λ h. x.0 (sym h))
                (are j q x.1)
        ]

    Reach-ArePainters :
        (start : List Painter) (c : Canvas l) (ps : List Painter)
        → Starts start
        → Reach l start c ps
        → ArePainters c ps
    Reach-ArePainters start c ps starts begin =
        λ i p at_i. resting l c i p (starts i p at_i).0 (ap critical (starts i p at_i).1)
    Reach-ArePainters start c ps starts (next b _ qs _ before step) =
        Step-ArePainters b c qs ps step (Reach-ArePainters start b qs starts before)

    -- A painter who has locked a pixel whose red is not 255 goes back to the pixel before the move and
    -- unlocks that one. Unless the thread holds the lock of that pixel, this is undefined.
    pub backtrack_faults :
        (i draw draw' : ℕ) (c d : Canvas l) (p : Painter)
        → IsPainter l c i p
        → p.stage ≡ test_red
        → (c p.artist.x p.artist.y).r ≢ 255
        → lock_at l d p.current_x p.current_y ≢ some i
        → (p' : Painter) × (paint_step l i draw c p ≡ ret (c, p'))
          × (paint_step l i draw' d p' ≡ fault)
    unfolding paint_step paint_at after_test backtrack
    backtrack_faults i draw draw' c d p is e other loose = (
      record (backtrack p) { stage = at_unlock },
      ap (λ s. paint_at l s i draw c p) e ∙ tested,
      rw
          (
            pixel_at_lem l d p.current_x p.current_y (is.came_from (ap critical e)),
            laws.unlock_other i _ loose,
          )
          refl,
    )
      where
        differ : ((c p.artist.x p.artist.y).r == 255) ≡ false
        differ = ground arith

        tested :
            paint_at l test_red i draw c p ≡ ret (c, record (backtrack p) { stage = at_unlock })
        tested = rw (pixel_at_lem l c p.artist.x p.artist.y is.on_canvas, differ) refl

    -- In every state of a run of painters who start on the canvas, each painter is on the canvas, so that
    -- `canvas[x][y]` exists.
    pub Reach-InCanvas :
        (start : List Painter) (c : Canvas l) (ps : List Painter) (i : ℕ) (p : Painter)
        → Starts start
        → Reach l start c ps
        → get_elem? ps i ≡ some p
        → InCanvas p.artist.x p.artist.y
    Reach-InCanvas start c ps i p starts reach at_i =
        (Reach-ArePainters start c ps starts reach i p at_i).on_canvas

    -- Two painters who are between trylock and unlock, at the tests or the assignments.
    apart :
        (start : List Painter) (c : Canvas l) (ps : List Painter) (i j : ℕ) (p q : Painter)
        → Starts start
        → Reach l start c ps
        → get_elem? ps i ≡ some p
        → get_elem? ps j ≡ some q
        → i ≢ j
        → critical p.stage ≡ true
        → critical q.stage ≡ true
        → ¬ ((p.artist.x ≡ q.artist.x) × (p.artist.y ≡ q.artist.y))
    apart start c ps i j p q starts reach at_i at_j ne crit_p crit_q (ex, ey) =
        ne (some_inj (sym (is_p.holds crit_p) ∙ ap₂ (lock_at l c) ex ey ∙ is_q.holds crit_q))
      where
        is_p : IsPainter l c i p
        is_p = Reach-ArePainters start c ps starts reach i p at_i

        is_q : IsPainter l c j q
        is_q = Reach-ArePainters start c ps starts reach j q at_j

    -- In every state of a run of painters who start on the canvas, two painters who are between trylock
    -- and unlock, at the tests or the assignments, are at different pixels. From each of these states each
    -- painter has a next step, after which no other thread has lost a lock, with one exception, which ends
    -- the run: an unlock of a pixel whose lock the painter does not hold is undefined, and what follows it
    -- is not covered.
    pub mutual_exclusion :
        (start : List Painter) (c : Canvas l) (ps : List Painter)
        → Starts start
        → Reach l start c ps
        → ((i j : ℕ) (p q : Painter)
            → get_elem? ps i ≡ some p
            → get_elem? ps j ≡ some q
            → i ≢ j
            → critical p.stage ≡ true
            → critical q.stage ≡ true
            → ¬ ((p.artist.x ≡ q.artist.x) × (p.artist.y ≡ q.artist.y)))
          × ((i draw : ℕ) (p : Painter)
              → get_elem? ps i ≡ some p
              → Turned l i c (paint_step l i draw c p)
                ⊎ ((p.stage ≡ at_unlock)
                    × (lock_at l c p.artist.x p.artist.y ≢ some i)
                    × (paint_step l i draw c p ≡ fault)))
    mutual_exclusion start c ps starts reach = (
      λ i j p q at_i at_j ne crit_p crit_q.
          apart start c ps i j p q starts reach at_i at_j ne crit_p crit_q,
      λ i draw p at_i.
          paint_step_lem l laws i draw c p (Reach-ArePainters start c ps starts reach i p at_i),
    )
