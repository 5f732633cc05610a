-- ===== src/KernelStrings/Fills.antt =====
-- memset by bytes and by words, and the string that safestrcpy makes.
use native.Mathlib.Decide.{ℕ_discrete}
use public_systems_projects.Base.{
  ℕ, zero, suc, ◌+◌, ◌-◌, ◌*◌, ◌/◌, ◌%◌, ◌≤◌, ◌<◌, ◌≡◌, ◌⊎◌, inl, inr, refl, ap, ◌∙◌, ◌&&◌, ltb,
  leb, ◌==◌, if◌then◌else◌, Bool-cases, store, store_ne, arith,
}
use public_systems_projects.KernelStrings.{
  stosb, store_word, stosl, memset, safestrcpy_loop, safestrcpy,
}
use public_systems_projects.KernelStrings.Moves.{moved, first_moved}

-- the memory `m` with the byte `b` at the `n` addresses from `a` on
unfoldable pub filled : (m : ℕ → ℕ) (a b n : ℕ) → ℕ → ℕ
filled m a b n x = if leb a x && ltb x (a + n) then b else m x

stosb_lem : (m : ℕ → ℕ) (a c n x : ℕ) → stosb m a c n x ≡ filled m a (c % 256) n x
unfolding stosb filled store
stosb_lem m a c zero x = ground arith
stosb_lem m a c (suc n) x = stosb_lem (store m a (c % 256)) (a + 1) c n x ∙ ground arith

module _ (b : ℕ) (small : b < 256) where
  word : ℕ
  word = b * 16777216 + b * 65536 + b * 256 + b

  word_bytes :
      (word % 256 ≡ b)
      × (word / 256 % 256 ≡ b)
      × (word / 65536 % 256 ≡ b)
      × (word / 16777216 % 256 ≡ b)
  unfolding word
  word_bytes =
      (omega (arith, small), omega (arith, small), omega (arith, small), omega (arith, small))

  four :
      (m : ℕ → ℕ) (a n x : ℕ)
      → filled (store_word m a word) (a + 4) b (4 * n) x ≡ filled m a b (4 * suc n) x
  unfolding filled store_word store
  four m a n x = let (b0, b1, b2, b3) = word_bytes in rw (b0, b1, b2, b3) (ground arith)

  stosl_lem : (m : ℕ → ℕ) (a n x : ℕ) → stosl m a word n x ≡ filled m a b (4 * n) x
  unfolding stosl filled
  stosl_lem m a zero x = ground arith
  stosl_lem m a (suc n) x = stosl_lem (store_word m a word) (a + 4) n x ∙ four m a n x

-- memset leaves the byte `c` modulo 256 at the `n` addresses from `dst` on, and every other byte as it was,
-- whether it stores words or bytes.
pub memset_lem : (m : ℕ → ℕ) (dst c n x : ℕ) → memset m dst c n x ≡ filled m dst (c % 256) n x
unfolding memset word
memset_lem m dst c n x = elim (Bool-cases ((dst % 4 == 0) && (n % 4 == 0))) [
  | inl words ↦
      let back : 4 * (n / 4) ≡ n = ground arith in
      rw words (
        stosl_lem (c % 256) (omega arith) m dst (n / 4) x
        ∙ ap (λ k. filled m dst (c % 256) k x) back)
  | inr bytes ↦ rw bytes (stosb_lem m dst c n x)
]

-- how many of at most `n` bytes are copied from `t`, a terminating 0 included
unfoldable pub copied : (m : ℕ → ℕ) (t n : ℕ) → ℕ
copied m t zero = 0
copied m t (suc n) = let rest = copied m (t + 1) n in if m t == 0 then 1 else suc rest

copied_le : (m : ℕ → ℕ) (t n : ℕ) → copied m t n ≤ n
unfolding copied
copied_le m t zero = omega arith
copied_le m t (suc n) = ground (arith, copied_le m (t + 1) n)

copied-store :
    (m : ℕ → ℕ) (s c t n : ℕ) → (s < t) ⊎ (t + n ≤ s) → copied (store m s c) t n ≡ copied m t n
unfolding copied
copied-store m s c t zero apart = refl
copied-store m s c t (suc n) apart =
    rw (store_ne m s c t (ground arith), copied-store m s c (t + 1) n (ground arith)) refl

moved_none : (m : ℕ → ℕ) (s t x : ℕ) → m x ≡ moved m s t 0 x
unfolding moved
moved_none m s t x = ground arith

moved_one : (m : ℕ → ℕ) (s t x : ℕ) → store m s (m t) x ≡ moved m s t 1 x
unfolding moved store
moved_one m s t x = elim (ℕ_discrete x s) [
  | yes at ↦ let e : t + (x - s) ≡ t = omega arith in rw e (ground arith)
  | no ne ↦ ground arith
]

store-congr : (f g : ℕ → ℕ) (a b c x : ℕ) → f x ≡ g x → a ≡ b → store f a c x ≡ store g b c x
unfolding store
store-congr f g a b c x e e' = rw (e, e') refl

loop_lem :
    (m : ℕ → ℕ) (s t n : ℕ)
    → (s + n < t) ⊎ (t + n ≤ s)
    → (x : ℕ)
    → safestrcpy_loop m s t n x ≡ store (moved m s t (copied m t n)) (s + copied m t n) 0 x
unfolding safestrcpy_loop copied
loop_lem m s t zero apart x =
    store-congr m (moved m s t 0) s (s + 0) 0 x (moved_none m s t x) (omega arith)
loop_lem m s t (suc n) apart x = elim (Bool-cases (m t == 0)) [
  | inl ends ↦
      rw ends
        (store-congr (store m s (m t)) (moved m s t 1) (s + 1) (s + 1) 0 x (moved_one m s t x) refl)
  | inr goes ↦
      let k = copied m (t + 1) n in
      let same = copied-store m s (m t) (t + 1) n (ground arith) in
      let later = loop_lem (store m s (m t)) (s + 1) (t + 1) n (ground arith) x in
      rw goes (
        later
        ∙ ap (λ i. store (moved (store m s (m t)) (s + 1) (t + 1) i) (s + 1 + i) 0 x) same
        ∙ store-congr (moved (store m s (m t)) (s + 1) (t + 1) k) (moved m s t (suc k)) (s + 1 + k)
            (s + suc k) 0 x (first_moved m s t k (ground (arith, copied_le m (t + 1) n)) x)
            (omega arith))
]

-- safestrcpy to `n + 1` bytes apart from the string puts there as many bytes of it as it has up to its
-- terminating 0, at most `n`, then a 0, and leaves every other byte as it was.
pub safestrcpy_lem :
    (m : ℕ → ℕ) (s t n : ℕ)
    → (s + n < t) ⊎ (t + n ≤ s)
    → (x : ℕ)
    → (safestrcpy m s t (suc n) x ≡ store (moved m s t (copied m t n)) (s + copied m t n) 0 x)
      × (copied m t n ≤ n)
unfolding safestrcpy
safestrcpy_lem m s t n apart x = (loop_lem m s t n apart x, copied_le m t n)
