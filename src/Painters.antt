-- ===== src/Painters.antt =====
-- Assignment7_ConcurrentArtists/part2/painters.c: painters on one canvas. Each runs `paint` in a thread
-- of its own; a step of a thread is one access to the canvas, together with the work on the painter's
-- own data before it. The mutexes of pthread are a parameter, and so are the answers of rand.
pub mod Locks
pub mod Turn
pub mod Safety
mod Tests
use public_systems_projects.Base.{
  ℕ, suc, ◌+◌, ◌-◌, ◌%◌, ◌<◌, ◌≡◌, ◌≢◌, Bool, true, false, Option, none, some, List, [], ◌∷◌, ◌==◌,
  ◌&&◌, leb, ltb, if◌then◌else◌, get_elem?, set, ℤ, pos, negsuc, Outcome, ret, fault, ◌>>=◌, deref,
}
use public_systems_projects.Threads.{Pthread}

pub record Pixel (M : Type 0) : Type 0 where
  pub r : ℕ
  pub g : ℕ
  pub b : ℕ
  pub lock : M

pub record Artist : Type 0 where
  pub x : ℕ
  pub y : ℕ
  pub r : ℕ
  pub g : ℕ
  pub b : ℕ

abbrev pub canvas_width : ℕ
canvas_width = 256

abbrev pub canvas_height : ℕ
canvas_height = 256

abbrev pub movement : List (ℤ × ℤ)
movement =
    (negsuc 0, pos 0)
    ∷ (negsuc 0, pos 1)
    ∷ (pos 0, pos 1)
    ∷ (pos 1, pos 1)
    ∷ (pos 1, pos 0)
    ∷ (pos 1, negsuc 0)
    ∷ (pos 0, negsuc 0)
    ∷ (negsuc 0, negsuc 0)
    ∷ []

-- `x + d`
pub shift : ℕ → ℤ → ℤ
shift x (pos n) = pos (x + n)
shift x (negsuc n) = if ltb n x then pos (x - (n + 1)) else negsuc (n - x)

-- the clamp to 0 and to `limit - 1`
pub clamp : ℕ → ℤ → ℕ
clamp limit (negsuc n) = 0
clamp limit (pos n) = if ltb (limit - 1) n then limit - 1 else n

-- Where a thread is in the body of its loop: at the call of trylock, at the tests of the three colours,
-- at the assignments, and at the calls of unlock.
pub data Stage : Type 0 where
  at_lock test_red test_green test_blue put_red put_green put_blue at_unlock : Stage

-- the locals of `paint` and the artist that it is given
pub record Painter : Type 0 where
  pub stage : Stage
  pub z : ℕ
  pub actually_painted : ℕ
  pub current_x : ℕ
  pub current_y : ℕ
  pub artist : Artist

-- the moves before the call of trylock, for an answer `draw` of rand
pub move : ℕ → Painter → Outcome Painter
unfolding shift clamp
move draw p = do
  (dx, dy) ← deref (get_elem? movement (draw % 8))
  ret (record p {
    current_x = p.artist.x;
    current_y = p.artist.y;
    artist = record (p.artist) {
      x = clamp canvas_width (shift p.artist.x dx);
      y = clamp canvas_height (shift p.artist.y dy);
    };
  })

-- back to the pixel before the move
pub backtrack : Painter → Painter
backtrack p = record p { artist = record (p.artist) { x = p.current_x; y = p.current_y } }

-- the end of a round of the loop
pub next_round : Painter → Painter
next_round p = record p { stage = at_lock; z = p.z + 1 }

module _ (l : Pthread) where
  abbrev pub Canvas : Type 0
  Canvas = ℕ → ℕ → Pixel l.Mutex

  -- `canvas[x][y]`, undefined outside the canvas
  pub pixel_at : Canvas → ℕ → ℕ → Outcome (Pixel l.Mutex)
  pixel_at c x y = if ltb x canvas_width && ltb y canvas_height then ret (c x y) else fault

  pub put_pixel : Canvas → ℕ → ℕ → Pixel l.Mutex → Canvas
  put_pixel c x y q x' y' = if x' == x && y' == y then q else c x' y'

  pub init_canvas : Canvas
  init_canvas x y = record { r = 255; g = 255; b = 255; lock = l.fresh }

  -- the answer to a colour: on with the next test, or back to the pixel before the move and unlock it
  pub after_test : ℕ → Stage → Painter → Painter
  unfolding backtrack
  after_test colour stage p =
      if colour == 255
      then record p { stage = stage }
      else record (backtrack p) { stage = at_unlock }

  -- `pthread_mutex_trylock(...) == 0 && actuallyPainted < 5000`, for a painter who has moved
  pub try_pixel : (i : ℕ) → Canvas → Painter → Outcome (Canvas × Painter)
  unfolding backtrack next_round pixel_at put_pixel
  try_pixel i c m = do
    q ← pixel_at c m.artist.x m.artist.y
    let (taken, lock) = l.trylock i q.lock
    ret (
      put_pixel c m.artist.x m.artist.y (record q { lock = lock }),
      if taken && ltb m.actually_painted 5000
          then record m { stage = test_red }
          else next_round (backtrack m),
    )

  -- One step of thread `i` at a stage.
  pub paint_at : Stage → (i draw : ℕ) → Canvas → Painter → Outcome (Canvas × Painter)
  unfolding move try_pixel after_test
  paint_at at_lock i draw c p = do m ← move draw p; try_pixel i c m
  paint_at test_red i draw c p = do
    q ← pixel_at c p.artist.x p.artist.y
    ret (c, after_test q.r test_green p)
  paint_at test_green i draw c p = do
    q ← pixel_at c p.artist.x p.artist.y
    ret (c, after_test q.g test_blue p)
  paint_at test_blue i draw c p = do
    q ← pixel_at c p.artist.x p.artist.y
    ret (c, after_test q.b put_red p)
  paint_at put_red i draw c p = do
    q ← pixel_at c p.artist.x p.artist.y
    ret (
      put_pixel c p.artist.x p.artist.y (record q { r = p.artist.r }),
      record p { stage = put_green },
    )
  paint_at put_green i draw c p = do
    q ← pixel_at c p.artist.x p.artist.y
    ret (
      put_pixel c p.artist.x p.artist.y (record q { g = p.artist.g }),
      record p { stage = put_blue },
    )
  paint_at put_blue i draw c p = do
    q ← pixel_at c p.artist.x p.artist.y
    ret (
      put_pixel c p.artist.x p.artist.y (record q { b = p.artist.b }),
      record p { stage = at_unlock },
    )
  paint_at at_unlock i draw c p = do
    q ← pixel_at c p.artist.x p.artist.y
    lock ← l.unlock i q.lock
    ret (
      put_pixel c p.artist.x p.artist.y (record q { lock = lock }),
      next_round (record p { actually_painted = p.actually_painted + 1 }),
    )

  pub paint_step : (i draw : ℕ) → Canvas → Painter → Outcome (Canvas × Painter)
  unfolding paint_at
  paint_step i draw c p = paint_at p.stage i draw c p

  -- A step of one thread that has rounds left. An undefined one, such as an unlock of a pixel that the thread
  -- does not hold, ends the run: there is no state behind it.
  pub data Step : Canvas → List Painter → Canvas → List Painter → Type 0 where
    turn :
        (i draw : ℕ) (c d : Canvas) (ps : List Painter) (p p' : Painter)
        → get_elem? ps i ≡ some p
        → p.z < 20000
        → paint_step i draw c p ≡ ret (d, p')
        → Step c ps d (set ps i p')

  -- the steps of a run from the white canvas
  pub data Reach (start : List Painter) : Canvas → List Painter → Type 0 where
    begin : Reach start init_canvas start
    next :
        (c d : Canvas) (ps qs : List Painter) → Reach start c ps → Step c ps d qs → Reach start d qs
