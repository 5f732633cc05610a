-- ===== src/Queue/Slots.antt =====
-- The items of a queue: `n` places of its array from place `i` on, going round at `cap`.
use native.Mathlib.Nat.{mod-lt, mod-eq_of_lt, mod-eq-sub-mod, mod-add-mod, mod-mod}
use native.Mathlib.Decide.{dec_lt}
use public_systems_projects.Base.{
  ℕ, zero, suc, ◌+◌, ◌-◌, ◌%◌, ◌<◌, ◌≡◌, ◌≢◌, refl, ap, ap₂, ◌∙◌, sym, List, [], ◌∷◌, ◌++◌, arith,
  length, get_or, set, get_or-set_ne, get_or-set_self,
}

abbrev pub slots : List ℕ → ℕ → ℕ → ℕ → List ℕ
slots xs cap i zero = []
slots xs cap i (suc n) = get_or xs (i % cap) 0 ∷ slots xs cap (i + 1) n

pub length-slots : (xs : List ℕ) (cap i n : ℕ) → length (slots xs cap i n) ≡ n
length-slots xs cap i zero = refl
length-slots xs cap i (suc n) = ap suc (length-slots xs cap (i + 1) n)

-- Only the remainder of the start matters.
pub slots-mod :
    (xs : List ℕ) (cap i j n : ℕ) → i % cap ≡ j % cap → slots xs cap i n ≡ slots xs cap j n
slots-mod xs cap i j zero e = refl
slots-mod xs cap i j (suc n) e = ap₂ ◌∷◌ (rw e) (
    slots-mod xs cap (i + 1) (j + 1) n
      (sym (mod-add-mod i cap 1) ∙ ap (λ k. (k + 1) % cap) e ∙ mod-add-mod j cap 1))

-- Fewer than `cap` steps do not come round to the same place.
mod-ne : (cap i k : ℕ) → 0 < k → k < cap → i % cap ≢ (i + k) % cap
mod-ne cap i k pos small e = elim (dec_lt (i % cap + k) cap) [
  | yes p ↦ omega (arith, mod-add-mod i cap k, mod-eq_of_lt p)
  | no p ↦ omega (
    arith,
    mod-add-mod i cap k,
    mod-lt i {m = cap} (omega arith),
    mod-eq-sub-mod {n = i % cap + k} {m = cap} (omega arith),
    mod-eq_of_lt {n = i % cap + k - cap} {m = cap}
        (omega (arith, mod-lt i {m = cap} (omega arith))),
  )
]

-- A write `n` places on, within one round, leaves the `n` items as they are.
pub slots-set :
    (xs : List ℕ) (cap i n x : ℕ)
    → n < cap
    → slots (set xs ((i + n) % cap) x) cap i n ≡ slots xs cap i n
slots-set xs cap i zero x small = refl
slots-set xs cap i (suc n) x small =
    ap₂ ◌∷◌
      (get_or-set_ne xs ((i + suc n) % cap) (i % cap) x 0
        (λ e. mod-ne cap i (suc n) (omega arith) small (sym e)))
      (ap (λ k. slots (set xs (k % cap) x) cap (i + 1) n) (omega arith)
        ∙ slots-set xs cap (i + 1) n x (omega arith))

pub slots-snoc :
    (xs : List ℕ) (cap i n : ℕ)
    → slots xs cap i (suc n) ≡ slots xs cap i n ++ (get_or xs ((i + n) % cap) 0 ∷ [])
slots-snoc xs cap i zero = ap (λ k. get_or xs (k % cap) 0 ∷ []) (omega arith)
slots-snoc xs cap i (suc n) =
    ap (λ l. get_or xs (i % cap) 0 ∷ l)
      (slots-snoc xs cap (i + 1) n
        ∙ ap (λ k. slots xs cap (i + 1) n ++ (get_or xs (k % cap) 0 ∷ [])) (omega arith))

-- Writing at the place behind the items appends to them.
pub slots-grow :
    (xs : List ℕ) (cap i n x : ℕ)
    → n < cap
    → length xs ≡ cap
    → slots (set xs ((i + n) % cap) x) cap i (suc n) ≡ slots xs cap i n ++ (x ∷ [])
slots-grow xs cap i n x small sized =
    slots-snoc (set xs ((i + n) % cap) x) cap i n
    ∙ ap₂ (λ l v. l ++ (v ∷ [])) (slots-set xs cap i n x small)
        (get_or-set_self xs ((i + n) % cap) x 0
          (omega (arith, mod-lt (i + n) {m = cap} (omega arith))))

-- Dropping the first item moves the start one place on.
pub slots-shrink :
    (xs : List ℕ) (cap i n : ℕ)
    → n ≢ 0
    → slots xs cap i n ≡ get_or xs (i % cap) 0 ∷ slots xs cap ((i + 1) % cap) (n - 1)
slots-shrink xs cap i zero some_item = absurd (some_item refl)
slots-shrink xs cap i (suc n) some_item =
    ap (λ l. get_or xs (i % cap) 0 ∷ l)
      (slots-mod xs cap (i + 1) ((i + 1) % cap) n (sym (mod-mod (i + 1) cap))
        ∙ ap (slots xs cap ((i + 1) % cap)) (omega arith))
