-- ===== src/Memory/Extend.antt =====
-- A new node at the end of a linked list.

use public_systems_projects.Base.{
  ◌≡◌, ◌≢◌, refl, sym, ap, false, true, none, some, [], ◌∷◌, ◌++◌, ◌∙◌, arith, ret,
}
use public_systems_projects.Memory.{Ptr, null, node, Heap, write, set_next}
use public_systems_projects.Memory.Chain.{
  Cells, first, has, Chain, Chain-write, write_ne, write_self, has-append, set_next_lem,
}

module _ {P : Type 0} where
  -- the address of the last node, or `d` for no node
  abbrev pub last_ptr : Ptr → Cells P → Ptr
  last_ptr d [] = d
  last_ptr d ((a, _) ∷ xs) = last_ptr a xs

  pub has-last_ptr : (a : Ptr) (v : P) (xs : Cells P) → has (last_ptr a xs) ((a, v) ∷ xs) ≡ true
  has-last_ptr a v [] = ground arith
  has-last_ptr a v ((b, w) ∷ xs) = ground (arith, has-last_ptr b w xs)

  last_ptr_apart :
      (q a : Ptr) (v : P) (xs : Cells P) → has q ((a, v) ∷ xs) ≡ false → q ≢ last_ptr a xs
  last_ptr_apart q a v xs out e =
      absurd (cc (ap (λ r. has r ((a, v) ∷ xs)) e, has-last_ptr a v xs, out))

  pub first-append :
      (stop : Ptr) (xs ys : Cells P) → first stop (xs ++ ys) ≡ first (first stop ys) xs
  first-append stop [] ys = refl
  first-append stop (x ∷ xs) ys = refl

  pub Chain-append :
      (h : Heap P) (stop q : Ptr) (b : P) (xs : Cells P)
      → Chain h q xs
      → has q xs ≡ false
      → Chain h stop ((q, b) ∷ [])
      → Chain h stop (xs ++ ((q, b) ∷ []))
  Chain-append h stop q b [] c out d = d
  Chain-append h stop q b ((a, v) ∷ xs) (ne, at_a, fresh, c) out d = (
    ne,
    at_a ∙ ap (λ r. some (node v r)) (sym (first-append stop xs ((q, b) ∷ []))),
    has-append a xs ((q, b) ∷ []) ∙ ground arith,
    Chain-append h stop q b xs c (ground arith) d,
  )

  -- The last node of a chain points to its end, and can be given another one.
  pub Chain-retarget :
      (h : Heap P) (stop q a : Ptr) (v : P) (xs : Cells P)
      → Chain h stop ((a, v) ∷ xs)
      → (w : P) × (h (last_ptr a xs) ≡ some (node w stop))
        × (last_ptr a xs ≢ null)
        × Chain (write h (last_ptr a xs) (some (node w q))) q ((a, v) ∷ xs)
  Chain-retarget h stop q a v [] (ne, at_a, _, _) = (v, at_a, ne, (ne, write_self h a _, refl, tt))
  Chain-retarget h stop q a v ((b, u) ∷ xs) (ne, at_a, out, c) =
      let (w, at_l, nn, d) = Chain-retarget h stop q b u xs c in
      (w, at_l, nn, (ne, write_ne h _ a _ (last_ptr_apart a b u xs out) ∙ at_a, out, d))

  -- Link the node `q` behind the last one.
  pub set_next-Chain :
      (h : Heap P) (q a : Ptr) (b v : P) (xs : Cells P)
      → Chain h null ((a, v) ∷ xs)
      → q ≢ null
      → h q ≡ none
      → has q ((a, v) ∷ xs) ≡ false
      → (g : Heap P) × (last_ptr a xs ≢ null)
        × (set_next (write h q (some (node b null))) (last_ptr a xs) q ≡ ret g)
        × Chain g null (((a, v) ∷ xs) ++ ((q, b) ∷ []))
        × ((r : Ptr) → r ≢ q → has r ((a, v) ∷ xs) ≡ false → g r ≡ h r)
  set_next-Chain h q a b v xs c ne unused out =
      let k : Heap P = write h q (some (node b null)) in
      let (w, at_l, nn, d) =
        Chain-retarget k null q a v xs
          (Chain-write h null q (some (node b null)) ((a, v) ∷ xs) c out) in
      (
        write k (last_ptr a xs) (some (node w q)),
        nn,
        set_next_lem k (last_ptr a xs) q _ nn at_l,
        Chain-append _ null q b ((a, v) ∷ xs) d out
            (ne, write_ne k _ q _ (last_ptr_apart q a v xs out) ∙ write_self h q _, refl, tt),
        λ r away off. write_ne k _ r _ (last_ptr_apart r a v xs off) ∙ write_ne h q r _ away,
      )
