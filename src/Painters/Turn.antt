-- ===== src/Painters/Turn.antt =====
-- One step of one painter: it stays on the canvas, holds the lock of the pixel that it works on, and takes
-- no lock from another painter.
use mathlib.Core.Option
use native.Mathlib.Decide.{ℕ_discrete}
use public_systems_projects.Base.{
  ℕ, ◌≡◌, ◌≢◌, refl, sym, ap, ◌∙◌, true, Option, none, some, ltb, fault, Bool-cases, ◌⊎◌, inl, inr,
  some_inj,
}
use public_systems_projects.Threads.{Pthread, IsPthread}
use public_systems_projects.Painters.{
  Pixel, Stage, at_lock, test_red, test_green, test_blue, put_red, put_green, put_blue, at_unlock,
  Painter, backtrack, next_round, Canvas, put_pixel, try_pixel, paint_at, paint_step,
}
use public_systems_projects.Painters.Locks.{
  InCanvas, critical, move_lem, lock_at, pixel_at_lem, IsPainter, KeepsOthers, Turned,
  put_pixel_keeps, lock_at_self, put_colour, after_test_lem, resting,
}

module _ (l : Pthread) where
  module _ (laws : IsPthread l) where
    try_pixel_lem :
        (i : ℕ) (c : Canvas l) (m : Painter) (o : Option ℕ)
        → InCanvas m.artist.x m.artist.y
        → InCanvas m.current_x m.current_y
        → lock_at l c m.artist.x m.artist.y ≡ o
        → Turned l i c (try_pixel l i c m)
    unfolding try_pixel backtrack next_round
    try_pixel_lem i c m (some j) on from held =
        rw (pixel_at_lem l c m.artist.x m.artist.y on, laws.trylock_held i j _ held)
          (put_pixel_keeps l i c m.artist.x m.artist.y _ (λ k ne h. h), resting l _ i _ from refl)
    try_pixel_lem i c m none on from free =
        let (taken, held) = laws.trylock_free i _ free in
        rw (pixel_at_lem l c m.artist.x m.artist.y on, taken)
          (elim (Bool-cases (ltb m.actually_painted 5000)) [
            | inl e ↦ rw e (
              keep _,
              record {
                on_canvas = on;
                came_from = λ _. from;
                holds = λ _. lock_at_self l c m.artist.x m.artist.y _ ∙ held;
              },
            )
            | inr e ↦ rw e (keep _, resting l _ i _ from refl)
          ])
      where
        keep : (q : Pixel l.Mutex) → KeepsOthers l i c (put_pixel l c m.artist.x m.artist.y q)
        keep q = put_pixel_keeps l i c m.artist.x m.artist.y q (λ k ne h. absurd (cc (h, free)))

    unlock_lem :
        (i draw : ℕ) (c : Canvas l) (p : Painter)
        → IsPainter l c i p
        → ((lock_at l c p.artist.x p.artist.y ≡ some i)
            × Turned l i c (paint_at l at_unlock i draw c p))
          ⊎ ((lock_at l c p.artist.x p.artist.y ≢ some i)
              × (paint_at l at_unlock i draw c p ≡ fault))
    unfolding paint_at next_round
    unlock_lem i draw c p is =
        elim (Option.discrete ℕ_discrete (lock_at l c p.artist.x p.artist.y) (some i)) [
          | yes e ↦
              let (n, eq, free) = laws.unlock_held i _ e in
              inl (
                e,
                rw (pixel_at_lem l c p.artist.x p.artist.y is.on_canvas, eq)
                    (
                      put_pixel_keeps l i c p.artist.x p.artist.y _
                          (λ j ne h. absurd (ne (some_inj (sym h ∙ e)))),
                      resting l _ i _ is.on_canvas refl,
                    ),
              )
          | no e ↦ inr (
            e,
            rw (pixel_at_lem l c p.artist.x p.artist.y is.on_canvas, laws.unlock_other i _ e) refl,
          )
        ]

    -- the steps between a successful trylock and the unlock
    critical_lem :
        (stage : Stage) (i draw : ℕ) (c : Canvas l) (p : Painter)
        → critical stage ≡ true
        → p.stage ≡ stage
        → IsPainter l c i p
        → Turned l i c (paint_at l stage i draw c p)
    unfolding paint_at
    critical_lem test_red i draw c p crit e is =
        rw (pixel_at_lem l c p.artist.x p.artist.y is.on_canvas)
          (after_test_lem l i ((c p.artist.x p.artist.y).r) c test_green p is (ap critical e))
    critical_lem test_green i draw c p crit e is =
        rw (pixel_at_lem l c p.artist.x p.artist.y is.on_canvas)
          (after_test_lem l i ((c p.artist.x p.artist.y).g) c test_blue p is (ap critical e))
    critical_lem test_blue i draw c p crit e is =
        rw (pixel_at_lem l c p.artist.x p.artist.y is.on_canvas)
          (after_test_lem l i ((c p.artist.x p.artist.y).b) c put_red p is (ap critical e))
    critical_lem put_red i draw c p crit e is =
        rw (pixel_at_lem l c p.artist.x p.artist.y is.on_canvas) (
          put_colour l i c p (record p { stage = put_green }) _ is refl (ap critical e) refl refl
            refl)
    critical_lem put_green i draw c p crit e is =
        rw (pixel_at_lem l c p.artist.x p.artist.y is.on_canvas) (
          put_colour l i c p (record p { stage = put_blue }) _ is refl (ap critical e) refl refl
            refl)
    critical_lem put_blue i draw c p crit e is =
        rw (pixel_at_lem l c p.artist.x p.artist.y is.on_canvas) (
          put_colour l i c p (record p { stage = at_unlock }) _ is refl (ap critical e) refl refl
            refl)
    critical_lem at_lock i draw c p crit e is = absurd (cc crit)
    critical_lem at_unlock i draw c p crit e is = absurd (cc crit)

    move_try :
        (i draw : ℕ) (c : Canvas l) (p : Painter)
        → IsPainter l c i p
        → Turned l i c (paint_at l at_lock i draw c p)
    unfolding paint_at
    move_try i draw c p is =
        let (m, e, on, ex, ey, _) = move_lem draw p in
        rw e (
          try_pixel_lem i c m (lock_at l c m.artist.x m.artist.y) on (rw (ex, ey) is.on_canvas)
            refl)

    -- A step of a painter who is on the canvas and holds the lock of the pixel that it works on ends, with a
    -- painter of whom the same is true, and no other thread loses a lock. The one exception is an unlock
    -- of a pixel whose lock the thread does not hold, which is undefined.
    pub paint_step_lem :
        (i draw : ℕ) (c : Canvas l) (p : Painter)
        → IsPainter l c i p
        → Turned l i c (paint_step l i draw c p)
          ⊎ ((p.stage ≡ at_unlock)
              × (lock_at l c p.artist.x p.artist.y ≢ some i)
              × (paint_step l i draw c p ≡ fault))
    unfolding paint_step
    paint_step_lem i draw c p is = at_stage p.stage refl
      where
        at_stage :
            (stage : Stage)
            → p.stage ≡ stage
            → Turned l i c (paint_at l stage i draw c p)
              ⊎ ((p.stage ≡ at_unlock)
                  × (lock_at l c p.artist.x p.artist.y ≢ some i)
                  × (paint_at l stage i draw c p ≡ fault))
        at_stage at_lock e = inl (move_try i draw c p is)
        at_stage at_unlock e = elim (unlock_lem i draw c p is) [
          | inl x ↦ inl x.1
          | inr x ↦ inr (e, x.0, x.1)
        ]
        at_stage test_red e = inl (critical_lem test_red i draw c p refl e is)
        at_stage test_green e = inl (critical_lem test_green i draw c p refl e is)
        at_stage test_blue e = inl (critical_lem test_blue i draw c p refl e is)
        at_stage put_red e = inl (critical_lem put_red i draw c p refl e is)
        at_stage put_green e = inl (critical_lem put_green i draw c p refl e is)
        at_stage put_blue e = inl (critical_lem put_blue i draw c p refl e is)
