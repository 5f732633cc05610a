-- ===== src/Memory/Chain.antt =====
-- Linked lists in a heap: `Chain h stop xs` says that the nodes `xs`, at distinct addresses, are
-- linked in this order and the last one points to `stop`.
use mathlib.Core.Bool.{or_assoc}
use native.Mathlib.Decide.{ℕ_discrete}
use public_systems_projects.Base.{
  ℕ, zero, suc, ◌<◌, length, ◌≡◌, ◌≢◌, refl, ap, ap₂, Bool, false, true, ◌||◌, Option, none, some,
  List, [], ◌∷◌, ◌++◌, arith, ◌==◌, ◌∙◌, sym, if◌then◌else◌, ret,
}
use public_systems_projects.Memory.{
  Ptr, null, Node, node, Heap, write, load, set_next, free_node, free_nodes,
}

-- address and payload of each node, in order
abbrev pub Cells : Type 0 → Type 0
Cells P = List (Ptr × P)

module _ {P : Type 0} where
  -- where a chain begins
  abbrev pub first : Ptr → Cells P → Ptr
  first stop [] = stop
  first stop ((a, _) ∷ _) = a

  abbrev pub has : Ptr → Cells P → Bool
  has a [] = false
  has a ((p, _) ∷ xs) = (a == p) || has a xs

  abbrev pub payloads : Cells P → List P
  payloads [] = []
  payloads ((_, v) ∷ xs) = v ∷ payloads xs

  abbrev pub Chain : Heap P → Ptr → Cells P → Type 0
  Chain h stop [] = Unit {0}
  Chain h stop ((a, v) ∷ xs) =
      (a ≢ null) × (h a ≡ some (node v (first stop xs))) × (has a xs ≡ false) × Chain h stop xs

  -- `g` and `h` hold the same nodes away from `xs`
  abbrev pub SameOutside : Cells P → Heap P → Heap P → Type 0
  SameOutside xs h g = (a : Ptr) → has a xs ≡ false → g a ≡ h a

  -- `g` is `h` less the nodes of `xs`
  abbrev pub Without : Cells P → Heap P → Heap P → Type 0
  Without xs h g = (a : Ptr) → g a ≡ (if has a xs then none else h a)

  pub has-append : (a : Ptr) (xs ys : Cells P) → has a (xs ++ ys) ≡ (has a xs || has a ys)
  has-append a [] ys = refl
  has-append a ((p, _) ∷ xs) ys = rw (has-append a xs ys, or_assoc)

  pub load_lem : (h : Heap P) (p : Ptr) (n : Node P) → p ≢ null → h p ≡ some n → load h p ≡ ret n
  unfolding load
  load_lem h p n ne e = ground arith

  pub free_node_lem :
      (h : Heap P) (p : Ptr) (n : Node P)
      → p ≢ null
      → h p ≡ some n
      → free_node h p ≡ ret (write h p none)
  unfolding free_node load
  free_node_lem h p n ne e = ground arith

  pub set_next_lem :
      (h : Heap P) (p q : Ptr) (n : Node P)
      → p ≢ null
      → h p ≡ some n
      → set_next h p q ≡ ret (write h p (some (node n.payload q)))
  unfolding set_next load
  set_next_lem h p q n ne e = ground arith

  pub write_self : (h : Heap P) (p : Ptr) (c : Option (Node P)) → write h p c p ≡ c
  unfolding write
  write_self h p c = ground arith

  pub write_ne : (h : Heap P) (p a : Ptr) (c : Option (Node P)) → a ≢ p → write h p c a ≡ h a
  unfolding write
  write_ne h p a c ne = ground arith

  -- A chain survives a change of the heap away from its nodes.
  pub Chain-frame :
      (h g : Heap P) (stop : Ptr) (xs : Cells P)
      → Chain h stop xs
      → ((a : Ptr) → has a xs ≡ true → g a ≡ h a)
      → Chain g stop xs
  Chain-frame h g stop [] c same = tt
  Chain-frame h g stop ((p, v) ∷ xs) (ne, at_p, fresh, c) same =
      (ne, ground (arith, same p), fresh, Chain-frame h g stop xs c λ a m. same a (ground arith))

  pub Chain-write :
      (h : Heap P) (stop p : Ptr) (c : Option (Node P)) (xs : Cells P)
      → Chain h stop xs
      → has p xs ≡ false
      → Chain (write h p c) stop xs
  unfolding write
  Chain-write h stop p c xs chain out = Chain-frame h _ stop xs chain λ a m. ground arith

  -- An address with no node is in no chain.
  pub has_of_none :
      (h : Heap P) (stop p : Ptr) (xs : Cells P) → Chain h stop xs → h p ≡ none → has p xs ≡ false
  has_of_none h stop p [] c unused = refl
  has_of_none h stop p ((a, v) ∷ xs) (ne, at_a, fresh, c) unused =
      ground (arith, has_of_none h stop p xs c unused)

  pub length-payloads : (xs : Cells P) → length (payloads xs) ≡ length xs
  length-payloads [] = refl
  length-payloads (x ∷ xs) = ap suc (length-payloads xs)

  -- the cells with another payload at one address
  unfoldable pub modify : Ptr → (P → P) → Cells P → Cells P
  modify p f [] = []
  modify p f ((a, w) ∷ xs) = if a == p then (a, f w) ∷ xs else (a, w) ∷ modify p f xs

  pub first-modify :
      (stop p : Ptr) (f : P → P) (xs : Cells P) → first stop (modify p f xs) ≡ first stop xs
  unfolding modify
  first-modify stop p f [] = refl
  first-modify stop p f ((a, w) ∷ xs) = ground arith

  pub has-modify : (a p : Ptr) (f : P → P) (xs : Cells P) → has a (modify p f xs) ≡ has a xs
  unfolding modify
  has-modify a p f [] = refl
  has-modify a p f ((b, w) ∷ xs) = ground (arith, has-modify a p f xs)

  -- An address of a chain holds a node.
  pub node_at :
      (h : Heap P) (stop p : Ptr) (xs : Cells P)
      → Chain h stop xs
      → has p xs ≡ true
      → (p ≢ null) × ((w : P) × (q : Ptr) × (h p ≡ some (node w q)))
  node_at h stop p [] c m = absurd (cc m)
  node_at h stop p ((a, w) ∷ xs) (ne, at_a, out, c) m = elim (ℕ_discrete p a) [
    | yes e ↦ (ground arith, (w, first stop xs, ap h e ∙ at_a))
    | no e ↦ node_at h stop p xs c (ground arith)
  ]

  pub node-next_inj :
      {v w : P} {p q : Ptr} → ◌≡◌ {A = Option (Node P)} (some (node v p)) (some (node w q)) → p ≡ q
  node-next_inj e = cc e

  pub node-payload_inj :
      {v w : P} {p q : Ptr} → ◌≡◌ {A = Option (Node P)} (some (node v p)) (some (node w q)) → v ≡ w
  node-payload_inj e = cc e

  -- Another payload in a node of a chain changes its cell and no other.
  pub Chain-modify :
      (h : Heap P) (stop p q : Ptr) (w : P) (f : P → P) (xs : Cells P)
      → Chain h stop xs
      → has p xs ≡ true
      → h p ≡ some (node w q)
      → Chain (write h p (some (node (f w) q))) stop (modify p f xs)
  unfolding modify
  Chain-modify h stop p q w f [] c m at_p = tt
  Chain-modify h stop p q w f ((a, u) ∷ xs) (ne, at_a, out, c) m at_p = elim (ℕ_discrete a p) [
    | yes e ↦
        let same : (a == p) ≡ true = ground arith in
        let both = sym at_p ∙ sym (ap h e) ∙ at_a in
        rw same (
          ne,
          ap (write h p (some (node (f w) q))) e
              ∙ write_self h p _
              ∙ ap₂ (λ b r. some (node (f b) r)) (node-payload_inj both) (node-next_inj both),
          out,
          Chain-write h stop p _ xs c (ground arith),
        )
    | no e ↦
        let other : (a == p) ≡ false = ground arith in
        rw other (
          ne,
          write_ne h p a _ e ∙ at_a ∙ ap (λ b. some (node u b)) (sym (first-modify stop p f xs)),
          has-modify a p f xs ∙ out,
          Chain-modify h stop p q w f xs c (ground arith) at_p,
        )
  ]

  -- The loop frees exactly the nodes of the chain.
  pub free_nodes_lem :
      (k : ℕ) (h : Heap P) (xs : Cells P)
      → Chain h null xs
      → length xs < k
      → (g : Heap P) × (free_nodes k h (first null xs) ≡ ret g) × Without xs h g
  unfolding free_nodes write
  free_nodes_lem zero h xs c fuel = absurd (omega arith)
  free_nodes_lem (suc k) h [] c fuel = (h, refl, λ a. refl)
  free_nodes_lem (suc k) h ((a, x) ∷ xs) (ne, at_a, out, c) fuel =
      let (g, e, gone) =
        free_nodes_lem k (write h a none) xs (Chain-write h null a none xs c out) (omega arith) in
      (
        g,
        rw (load_lem h a _ ne at_a, free_node_lem h a _ ne at_a) (ground (arith, e)),
        λ b. ground (arith, gone b),
      )
