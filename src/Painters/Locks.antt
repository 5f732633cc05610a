-- ===== src/Painters/Locks.antt =====
-- Who is where on the canvas and holds which lock, and what the accesses to one pixel do to that.

use public_systems_projects.Base.{
  ℕ, ◌%◌, ◌<◌, ◌≡◌, ◌≢◌, refl, ap, ap₂, ◌∙◌, Bool, true, false, Option, some, ◌==◌, ◌&&◌,
  if◌then◌else◌, get_elem?_of_lt, ℤ, pos, negsuc, Outcome, ret, arith, Bool-cases, inl, inr,
}
use public_systems_projects.Threads.{Pthread}
use public_systems_projects.Painters.{
  Pixel, canvas_width, canvas_height, movement, shift, clamp, Stage, at_lock, at_unlock, Painter,
  move, backtrack, Canvas, pixel_at, put_pixel, after_test,
}

abbrev pub InCanvas : ℕ → ℕ → Type 0
InCanvas x y = (x < canvas_width) × (y < canvas_height)

-- the stages in which a painter works on a pixel
abbrev pub critical : Stage → Bool
critical at_lock = false
critical at_unlock = false
critical _ = true

clamp_lt : (limit : ℕ) (d : ℤ) → 0 < limit → clamp limit d < limit
unfolding clamp
clamp_lt limit (pos n) h = ground arith
clamp_lt limit (negsuc n) h = h

abbrev moved : ℤ × ℤ → Painter → Painter
moved (dx, dy) p = record p {
  current_x = p.artist.x;
  current_y = p.artist.y;
  artist = record (p.artist) {
    x = clamp canvas_width (shift p.artist.x dx);
    y = clamp canvas_height (shift p.artist.y dy);
  };
}

-- A move ends on the canvas, wherever it starts.
pub move_lem :
    (draw : ℕ) (p : Painter)
    → (m : Painter) × (move draw p ≡ ret m)
      × InCanvas m.artist.x m.artist.y
      × (m.current_x ≡ p.artist.x)
      × (m.current_y ≡ p.artist.y)
      × (m.actually_painted ≡ p.actually_painted)
unfolding move
move_lem draw p =
    let (d, e) = get_elem?_of_lt movement (draw % 8) (omega arith) in
    (
      moved d p,
      rw e refl,
      (
        clamp_lt canvas_width (shift p.artist.x d.0) (omega arith),
        clamp_lt canvas_height (shift p.artist.y d.1) (omega arith),
      ),
      refl,
      refl,
      refl,
    )

module _ (l : Pthread) where
  abbrev pub lock_at : Canvas l → ℕ → ℕ → Option ℕ
  lock_at c x y = l.holder ((c x y).lock)

  pub pixel_at_lem : (c : Canvas l) (x y : ℕ) → InCanvas x y → pixel_at l c x y ≡ ret (c x y)
  unfolding pixel_at
  pixel_at_lem c x y (hx, hy) = ground arith

  -- the painter `p` of thread `i` is on the canvas, and holds the lock of the pixel that it works on
  pub record IsPainter (c : Canvas l) (i : ℕ) (p : Painter) : Type 0 where
    pub on_canvas : InCanvas p.artist.x p.artist.y
    pub came_from : critical p.stage ≡ true → InCanvas p.current_x p.current_y
    pub holds : critical p.stage ≡ true → lock_at c p.artist.x p.artist.y ≡ some i

  -- what the other threads hold, they hold after the step
  abbrev pub KeepsOthers : ℕ → Canvas l → Canvas l → Type 0
  KeepsOthers i c d = (j x y : ℕ) → j ≢ i → lock_at c x y ≡ some j → lock_at d x y ≡ some j

  abbrev pub Turned : ℕ → Canvas l → Outcome (Canvas l × Painter) → Type 0
  Turned i c (ret (d, p)) = KeepsOthers i c d × IsPainter d i p
  Turned i c _ = ⊥

  -- one pixel is changed: it is free or the thread's own, or its lock stays
  pub put_pixel_keeps :
      (i : ℕ) (c : Canvas l) (x y : ℕ) (q : Pixel l.Mutex)
      → ((j : ℕ) → j ≢ i → lock_at c x y ≡ some j → l.holder q.lock ≡ some j)
      → KeepsOthers i c (put_pixel l c x y q)
  unfolding put_pixel
  put_pixel_keeps i c x y q keep j x' y' ne held = elim (Bool-cases (x' == x && y' == y)) [
    | inl e ↦ inside e ∙ keep j ne (ap₂ (λ a b. lock_at c a b) (both e).0 (both e).1 ∙ held)
    | inr e ↦ outside e ∙ held
  ]
    where
      both : ((x' == x && y' == y) ≡ true) → (x ≡ x') × (y ≡ y')
      both e = (ground arith, ground arith)

      inside : (x' == x && y' == y) ≡ true → lock_at (put_pixel l c x y q) x' y' ≡ l.holder q.lock
      inside e = ap (λ t. l.holder ((if t then q else c x' y').lock)) e

      outside : (x' == x && y' == y) ≡ false → lock_at (put_pixel l c x y q) x' y' ≡ lock_at c x' y'
      outside e = ap (λ t. l.holder ((if t then q else c x' y').lock)) e

  put_pixel_self : (c : Canvas l) (x y : ℕ) (q : Pixel l.Mutex) → put_pixel l c x y q x y ≡ q
  unfolding put_pixel
  put_pixel_self c x y q = ground arith

  pub lock_at_self :
      (c : Canvas l) (x y : ℕ) (q : Pixel l.Mutex)
      → lock_at (put_pixel l c x y q) x y ≡ l.holder q.lock
  lock_at_self c x y q = ap (λ r. l.holder r.lock) (put_pixel_self c x y q)

  -- A write to the pixel of `p` that leaves its lock: what `p` holds, it still holds.
  pub put_colour :
      (i : ℕ) (c : Canvas l) (p p' : Painter) (q : Pixel l.Mutex)
      → IsPainter c i p
      → q.lock ≡ (c p.artist.x p.artist.y).lock
      → critical p.stage ≡ true
      → p'.artist ≡ p.artist
      → p'.current_x ≡ p.current_x
      → p'.current_y ≡ p.current_y
      → Turned i c (ret (put_pixel l c p.artist.x p.artist.y q, p'))
  put_colour i c p p' q is same crit ea ex ey = (
    put_pixel_keeps i c p.artist.x p.artist.y q (λ j ne held. ap l.holder same ∙ held),
    record {
      on_canvas = rw ea is.on_canvas;
      came_from = λ _. rw (ex, ey) (is.came_from crit);
      holds =
          λ _. rw ea (lock_at_self c p.artist.x p.artist.y q ∙ ap l.holder same ∙ is.holds crit);
    },
  )

  -- the answer to a test of a colour
  pub after_test_lem :
      (i colour : ℕ) (c : Canvas l) (next : Stage) (p : Painter)
      → IsPainter c i p
      → critical p.stage ≡ true
      → Turned i c (ret (c, after_test l colour next p))
  unfolding after_test backtrack
  after_test_lem i colour c next p is crit = elim (Bool-cases (colour == 255)) [
    | inl e ↦ rw e (
      (λ j x y ne held. held),
      record {
        on_canvas = is.on_canvas;
        came_from = λ _. is.came_from crit;
        holds = λ _. is.holds crit;
      },
    )
    | inr e ↦ rw e (
      (λ j x y ne held. held),
      record {
        on_canvas = is.came_from crit;
        came_from = λ f. absurd (cc f);
        holds = λ f. absurd (cc f);
      },
    )
  ]

  -- A painter between two pixels.
  pub resting :
      (d : Canvas l) (i : ℕ) (p : Painter)
      → InCanvas p.artist.x p.artist.y
      → critical p.stage ≡ false
      → IsPainter d i p
  resting d i p on rest = record {
    on_canvas = on;
    came_from = λ f. absurd (cc (f, rest));
    holds = λ f. absurd (cc (f, rest));
  }
