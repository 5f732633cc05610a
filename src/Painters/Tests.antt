-- ===== src/Painters/Tests.antt =====
-- Two painters on the canvas.
use mathlib.Core.Path.{subst}
use public_systems_projects.Base.{
  some, fault, true, get_elem?, ◌⊎◌, ◌≢◌, ℕ, zero, suc, ◌≡◌, ◌≢◌, ◌<◌, ◌⊎◌, refl, Option, some,
  List, [], ◌∷◌, ret, fault, arith, some_inj,
}
use public_systems_projects.Threads.Simple.{take, threads, threads-IsPthread}
use public_systems_projects.Painters.{
  Pixel, Stage, at_lock, test_red, at_unlock, Painter, Canvas, put_pixel, init_canvas, paint_step,
  Step, turn, Reach, begin, next,
}
use public_systems_projects.Painters.Locks.{critical, InCanvas, IsPainter, Turned, lock_at}
use public_systems_projects.Painters.Turn.{paint_step_lem}
use public_systems_projects.Painters.Safety.{Starts, mutual_exclusion, backtrack_faults}

abbrev brush : ℕ → ℕ → Stage → Painter
brush x y stage = record {
  stage = stage;
  z = 0;
  actually_painted = 0;
  current_x = 20;
  current_y = y;
  artist = record { x = x; y = y; r = 1; g = 2; b = 3 };
}

abbrev two_painters : List Painter
two_painters = brush 20 45 at_lock ∷ brush 20 90 at_lock ∷ []

starts_at :
    (x y : ℕ) (p : Painter)
    → x < 256
    → y < 256
    → some (brush x y at_lock) ≡ some p
    → InCanvas p.artist.x p.artist.y × (p.stage ≡ at_lock)
starts_at x y p hx hy e =
    subst (λ q. InCanvas q.artist.x q.artist.y × (q.stage ≡ at_lock)) (some_inj e) ((hx, hy), refl)

two_painters-Starts : Starts threads two_painters
two_painters-Starts zero p e = starts_at 20 45 p (omega arith) (omega arith) e
two_painters-Starts (suc zero) p e = starts_at 20 90 p (omega arith) (omega arith) e
two_painters-Starts (suc (suc i)) p e = absurd (cc e)

abbrev white : Option ℕ → Pixel (Option ℕ)
white m = record { r = 255; g = 255; b = 255; lock = m }

abbrev one_locked : Canvas threads
one_locked = put_pixel threads (init_canvas threads) 21 45 (white (some 0))

abbrev two_locked : Canvas threads
two_locked = put_pixel threads one_locked 21 90 (white (some 1))

abbrev both_locked : List Painter
both_locked = brush 21 45 test_red ∷ brush 21 90 test_red ∷ []

first_move :
    Step threads
      (init_canvas threads)
      two_painters
      one_locked
      (brush 21 45 test_red ∷ brush 20 90 at_lock ∷ [])
unfolding paint_step take init_canvas
first_move = turn 0 4 _ _ _ (brush 20 45 at_lock) (brush 21 45 test_red) refl (omega arith) refl

second_move :
    Step threads one_locked (brush 21 45 test_red ∷ brush 20 90 at_lock ∷ []) two_locked both_locked
unfolding paint_step take init_canvas
second_move = turn 1 4 _ _ _ (brush 20 90 at_lock) (brush 21 90 test_red) refl (omega arith) refl

both_move : Reach threads two_painters two_locked both_locked
both_move = next _ _ _ _ (next _ _ _ _ begin first_move) second_move

mutual_exclusion_example :
    ((i j : ℕ) (p q : Painter)
      → get_elem? both_locked i ≡ some p
      → get_elem? both_locked j ≡ some q
      → i ≢ j
      → critical p.stage ≡ true
      → critical q.stage ≡ true
      → ¬ ((p.artist.x ≡ q.artist.x) × (p.artist.y ≡ q.artist.y)))
    × ((i draw : ℕ) (p : Painter)
        → get_elem? both_locked i ≡ some p
        → Turned threads i two_locked (paint_step threads i draw two_locked p)
          ⊎ ((p.stage ≡ at_unlock)
              × (lock_at threads two_locked p.artist.x p.artist.y ≢ some i)
              × (paint_step threads i draw two_locked p ≡ fault)))
mutual_exclusion_example =
    mutual_exclusion threads threads-IsPthread two_painters two_locked both_locked
      two_painters-Starts both_move

-- the painter 0 has locked a pixel that is painted already
abbrev painted : Canvas threads
painted =
    put_pixel threads (init_canvas threads) 21 45 (record { r = 7; g = 7; b = 7; lock = some 0 })

painted-IsPainter : IsPainter threads painted 0 (brush 21 45 test_red)
unfolding put_pixel
painted-IsPainter = record {
  on_canvas = (omega arith, omega arith);
  came_from = λ _. (omega arith, omega arith);
  holds = λ _. refl;
}

seven : (painted 21 45).r ≢ 255
unfolding put_pixel
seven = omega arith

loose : lock_at threads painted 20 45 ≢ some 0
unfolding put_pixel init_canvas
loose e = cc e

paint_step_lem_example :
    Turned threads 0 painted (paint_step threads 0 3 painted (brush 21 45 test_red))
    ⊎ ((test_red ≡ at_unlock)
        × (lock_at threads painted 21 45 ≢ some 0)
        × (paint_step threads 0 3 painted (brush 21 45 test_red) ≡ fault))
paint_step_lem_example =
    paint_step_lem threads threads-IsPthread 0 3 painted (brush 21 45 test_red) painted-IsPainter

backtrack_faults_example :
    (p' : Painter) × (paint_step threads 0 3 painted (brush 21 45 test_red) ≡ ret (painted, p'))
    × (paint_step threads 0 3 painted p' ≡ fault)
backtrack_faults_example =
    backtrack_faults threads threads-IsPthread 0 3 3 painted painted (brush 21 45 test_red)
      painted-IsPainter refl seven loose
