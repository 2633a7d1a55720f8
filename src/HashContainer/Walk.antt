-- ===== src/HashContainer/Walk.antt =====
-- Loops over a container of src/data_info/hash_container.c: `hash_dup`, `hash_clear` and the
-- iterators.
use foren6_analyzer.Prelude.{
  ℕ, zero, suc, ◌+◌, ◌<◌, ◌≤◌, ltb, ◌==◌, Bool-cases, true, false, List, [], ◌∷◌, ◌++◌, length,
  take, some, ◌⊎◌, inl, inr, ◌≡◌, refl, ap, arith,
}
use foren6_analyzer.Refs.{Key}
use foren6_analyzer.Uthash.{Uthash}
use foren6_analyzer.Uthash.Assoc.{get_elem?}
use foren6_analyzer.HashContainer.{
  HashContainer, hash_add, hash_add_ref, dup_from, hash_dup, hash_clear, hash_size, clear_each,
  pointed, copy_at,
}
use foren6_analyzer.HashContainer.Iterator.{
  Pointer, element, null, HashIterator, point, before, hash_it_at, hash_it_inc, hash_it_dec,
  hash_it_equ, first,
}

module _ {A : Type 0} where
  -- A position is behind the last element, or it is one of an element.
  abbrev pub Behind : List A → ℕ → Type 0
  Behind xs i = (length xs ≤ i) × (take i xs ≡ xs)

  abbrev pub Inside : List A → ℕ → Type 0
  Inside xs i =
      (x : A) × (i < length xs)
      × (get_elem? xs i ≡ some x)
      × (take (suc i) xs ≡ take i xs ++ (x ∷ []))

  pub get_elem?_cases : (xs : List A) (i : ℕ) → Behind xs i ⊎ Inside xs i
  get_elem?_cases [] zero = inl (omega arith, refl)
  get_elem?_cases [] (suc i) = inl (omega arith, refl)
  get_elem?_cases (x ∷ xs) zero = inr (x, omega arith, refl, refl)
  get_elem?_cases (x ∷ xs) (suc i) = elim (get_elem?_cases xs i) [
    | inl (h, e) ↦ inl (omega (arith, h), ap (◌∷◌ x) e)
    | inr (y, h, e, t) ↦ inr (y, omega (arith, h), e, ap (◌∷◌ x) t)
  ]

  -- An iterator at a position, which may be the end.
  abbrev pub walk_at : List A → ℕ → Pointer → HashIterator
  walk_at head i prev = record {
    current_data = point head i;
    next = point head (suc i);
    prev = prev;
  }

  pub first-walk_at : (head : List A) → first head ≡ walk_at head 0 null
  first-walk_at [] = refl
  first-walk_at (x ∷ xs) =
      let some_left : (suc (length xs) == 0) ≡ false = ground arith in
      let inside : ltb 0 (suc (length xs)) ≡ true = ground arith in rw (some_left, inside) refl

  pub hash_it_inc_next :
      (head : List A) (i : ℕ) (current prev : Pointer)
      → hash_it_inc head (record { current_data = current; next = point head (suc i); prev = prev })
        ≡ some (walk_at head (suc i) current)
  unfolding hash_it_inc
  hash_it_inc_next head i current prev = elim (Bool-cases (ltb (suc i) (length head))) [
    | inl more ↦ rw more refl
    | inr last ↦
        let over : ltb (suc (suc i)) (length head) ≡ false = ground arith in rw (last, over) refl
  ]

module _ {K V : Type 0} ⦃key : Key K⦄ ⦃ut : Uthash K V⦄ (container : HashContainer K V) where
  -- One turn of the loop of `hash_dup`.
  copy_at-walk_at :
      (i : ℕ) (prev : Pointer)
      → Inside container.head i
      → copy_at container
          (record container { head = take i container.head })
          (pointed container (point container.head i))
          (hash_it_inc container.head (walk_at container.head i prev))
        ≡ some (
          walk_at container.head (suc i) (point container.head i),
          record container { head = take (suc i) container.head },
        )
  unfolding copy_at hash_add hash_add_ref
  copy_at-walk_at i prev (e, inside, here, next) =
      let within : ltb i (length container.head) ≡ true = ground arith in
      rw
        (
          hash_it_inc_next container.head i (point container.head i) prev,
          within,
          here,
          next,
          ut.hash_add_keyptr_law (take i container.head) e.0 e.1,
        )
        refl

  dup_from-walk_at :
      (fuel i : ℕ) (prev : Pointer)
      → i ≤ length container.head
      → length container.head < fuel + i
      → dup_from fuel container
          (walk_at container.head i prev)
          (record container { head = take i container.head })
        ≡ some container
  unfolding dup_from hash_it_equ
  dup_from-walk_at zero i prev b h = ground arith
  dup_from-walk_at (suc fuel) i prev b h = elim (get_elem?_cases container.head i) [
    | inl (behind, all) ↦
        let over : ltb i (length container.head) ≡ false = ground arith in rw (over, all) refl
    | inr inside ↦
        let within : ltb i (length container.head) ≡ true = ground (arith, inside.1) in
        rw (copy_at-walk_at i prev inside, within)
          (dup_from-walk_at fuel (suc i) (element i) (omega (arith, inside.1)) (omega (arith, h)))
  ]

  -- Given more fuel than the container has elements, `hash_dup` returns, and the copy has the same
  -- keys and data in the same order.
  pub hash_dup_total :
      (fuel : ℕ) → length container.head < fuel → hash_dup fuel container ≡ some container
  unfolding hash_dup
  hash_dup_total fuel h =
      rw (first-walk_at container.head)
        (dup_from-walk_at fuel 0 null (omega arith) (omega (arith, h)))

  clear_each-same : (head : List (K × V)) → clear_each head head ≡ []
  clear_each-same [] = refl
  clear_each-same (e ∷ head) =
      rw (ut.hash_del_law (e ∷ head) 0 (omega arith)) (clear_each-same head)

  -- `hash_clear` leaves no element, and `hash_size` is then 0.
  pub hash_clear_empty : ((hash_clear container).head ≡ []) × (hash_size (hash_clear container) ≡ 0)
  unfolding hash_clear hash_size
  hash_clear_empty = let e = clear_each-same container.head in (e, rw e refl)

-- From an iterator at an element, the last one included, `hash_it_inc` returns one from which
-- `hash_it_dec` comes back.
pub hash_it_inc-hash_it_dec :
    {A : Type 0} (head : List A) (i : ℕ)
    → (next_it : HashIterator) × (hash_it_inc head (hash_it_at head i) ≡ some next_it)
      × (hash_it_dec head next_it ≡ some (hash_it_at head i))
unfolding hash_it_dec
hash_it_inc-hash_it_dec head i =
    (walk_at head (suc i) (element i), hash_it_inc_next head i (element i) (before i), refl)
