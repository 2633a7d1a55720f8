-- ===== src/Uthash/Assoc.antt =====
-- Lists of keys with values: what the laws of a hash table are stated with.
use foren6_analyzer.Prelude.{
  ℕ, zero, suc, ◌<◌, true, false, true_ne_false, Bool-cases, List, [], ◌∷◌, ◌++◌, length, All,
  Option, none, some, if◌then◌else◌, ◌≡◌, ◌≢◌, inl, inr, refl, sym, ◌∙◌, arith,
}
use foren6_analyzer.Refs.{Key}

module _ {ℓ} {A : Type ℓ} where
  abbrev pub get_elem? : List A → ℕ → Option A
  get_elem? [] i = none
  get_elem? (x ∷ xs) zero = some x
  get_elem? (x ∷ xs) (suc i) = get_elem? xs i

  abbrev pub remove_at : List A → ℕ → List A
  remove_at [] i = []
  remove_at (x ∷ xs) zero = xs
  remove_at (x ∷ xs) (suc i) = x ∷ remove_at xs i

abbrev pub up : Option ℕ → Option ℕ
up none = none
up (some i) = some (suc i)

some_ne_none : {A : Type 0} {a : A} → some a ≢ none
some_ne_none e = ground arith

not_up : (p : Option ℕ) → up p ≡ none → p ≡ none
not_up none h = refl
not_up (some i) h = cc

module _ {K V : Type 0} where
  -- The value at a position; the key stays.
  abbrev pub set_value : List (K × V) → ℕ → V → List (K × V)
  set_value [] i v = []
  set_value ((k, w) ∷ xs) zero v = (k, v) ∷ xs
  set_value (x ∷ xs) (suc i) v = x ∷ set_value xs i v

  -- No element has the key.
  abbrev pub Absent : K → List (K × V) → Type 0
  Absent k = All (λ (e : K × V). e.0 ≢ k)

  -- No two elements have one key.
  abbrev pub IsDistinct : List (K × V) → Type 0
  IsDistinct [] = Unit
  IsDistinct (e ∷ xs) = Absent e.0 xs × IsDistinct xs

module _ {K : Type 0} ⦃key : Key K⦄ where
  pub same_refl : (k : K) → key.same k k ≡ true
  same_refl k = (key.same_iff k k).1 refl

  pub same_ne : (j k : K) → j ≢ k → key.same j k ≡ false
  same_ne j k h = elim (Bool-cases (key.same j k)) [
    | inl e ↦ absurd (h ((key.same_iff j k).0 e))
    | inr e ↦ e
  ]

  pub ne_same : (j k : K) → key.same j k ≡ false → j ≢ k
  ne_same j k e h = true_ne_false (sym ((key.same_iff j k).1 h) ∙ e)

  pub same_sym : (j k : K) → key.same j k ≡ key.same k j
  same_sym j k = elim (Bool-cases (key.same j k)) [
    | inl e ↦ e ∙ sym ((key.same_iff k j).1 (sym ((key.same_iff j k).0 e)))
    | inr e ↦ e ∙ sym (same_ne k j (λ h. ne_same j k e (sym h)))
  ]

  -- A key other than `k` is not one that equals `k`.
  pub apart_keys : (i j k : K) → key.same i k ≡ false → key.same i j ≡ true → key.same k j ≡ false
  apart_keys i j k e f = same_ne k j (λ q. ne_same i k e ((key.same_iff i j).0 f ∙ sym q))

module _ {K V : Type 0} ⦃key : Key K⦄ where
  abbrev pub position : List (K × V) → K → Option ℕ
  position [] k = none
  position (e ∷ xs) k = if key.same e.0 k then some 0 else up (position xs k)

  abbrev pub lookup : K → List (K × V) → Option V
  lookup k [] = none
  lookup k (e ∷ xs) = if key.same e.0 k then some e.1 else lookup k xs

  pub lookup-Absent : (k : K) (xs : List (K × V)) → Absent k xs → lookup k xs ≡ none
  lookup-Absent k [] h = refl
  lookup-Absent k (e ∷ xs) h = rw (same_ne e.0 k h.0) (lookup-Absent k xs h.1)

  pub Absent-position : (k : K) (xs : List (K × V)) → position xs k ≡ none → Absent k xs
  Absent-position k [] h = _
  Absent-position k (e ∷ xs) h = elim (Bool-cases (key.same e.0 k)) [
    | inl s ↦ absurd (some_ne_none (rw s at h))
    | inr s ↦ (ne_same e.0 k s, Absent-position k xs (not_up (position xs k) (rw s at h)))
  ]

  pub Absent-lookup : (k : K) (xs : List (K × V)) → lookup k xs ≡ none → Absent k xs
  Absent-lookup k [] h = _
  Absent-lookup k (e ∷ xs) h = elim (Bool-cases (key.same e.0 k)) [
    | inl s ↦ absurd (some_ne_none (rw s at h))
    | inr s ↦ (ne_same e.0 k s, Absent-lookup k xs (rw s at h))
  ]

  pub lookup-append :
      (j k : K) (v : V) (xs : List (K × V))
      → Absent k xs
      → lookup j (xs ++ ((k, v) ∷ [])) ≡ (if key.same k j then some v else lookup j xs)
  lookup-append j k v [] h = refl
  lookup-append j k v (e ∷ xs) h = elim (Bool-cases (key.same e.0 j)) [
    | inl s ↦ rw (s, apart_keys e.0 j k (same_ne e.0 k h.0) s) refl
    | inr s ↦ rw s (lookup-append j k v xs h.1)
  ]

  -- A key at the position that is found: what is there, and what replacing or removing it does.
  pub record At (xs : List (K × V)) (k : K) (i : ℕ) : Type 0 where
    pub inside : i < length xs
    pub value : V
    pub here : get_elem? xs i ≡ some (k, value)
    pub known : lookup k xs ≡ some value
    pub stored :
        (j : K) (v : V)
        → lookup j (set_value xs i v) ≡ (if key.same k j then some v else lookup j xs)
    pub stored_here : (v : V) → get_elem? (set_value xs i v) i ≡ some (k, v)
    pub removed :
        (j : K)
        → IsDistinct xs
        → lookup j (remove_at xs i) ≡ (if key.same k j then none else lookup j xs)

  head-At : (e : K × V) (xs : List (K × V)) → At (e ∷ xs) e.0 0
  head-At e xs = record {
    inside = omega arith;
    value = e.1;
    here = refl;
    known = rw (same_refl e.0) refl;
    stored = λ j v. elim (Bool-cases (key.same e.0 j)) [ inl s ↦ rw s refl | inr s ↦ rw s refl ];
    stored_here = λ v. refl;
    removed = λ j d. elim (Bool-cases (key.same e.0 j)) [
      | inl s ↦ rw (s, sym ((key.same_iff e.0 j).0 s)) (lookup-Absent e.0 xs d.0)
      | inr s ↦ rw s refl
    ];
  }

  later-At :
      (e : K × V) (xs : List (K × V)) (k : K) (i : ℕ)
      → key.same e.0 k ≡ false
      → At xs k i
      → At (e ∷ xs) k (suc i)
  later-At e xs k i s a = record {
    inside = omega (arith, a.inside);
    value = a.value;
    here = a.here;
    known = rw s a.known;
    stored = λ j v. elim (Bool-cases (key.same e.0 j)) [
      | inl f ↦ rw (f, apart_keys e.0 j k s f) refl
      | inr f ↦ rw f (a.stored j v)
    ];
    stored_here = λ v. a.stored_here v;
    removed = λ j d. elim (Bool-cases (key.same e.0 j)) [
      | inl f ↦ rw (f, apart_keys e.0 j k s f) refl
      | inr f ↦ rw f (a.removed j d.1)
    ];
  }

  -- What `position` finds.
  abbrev pub Outcome : List (K × V) → K → Option ℕ → Type 0
  Outcome xs k none = Absent k xs
  Outcome xs k (some i) = At xs k i

  later-Outcome :
      (e : K × V) (xs : List (K × V)) (k : K) (o : Option ℕ)
      → key.same e.0 k ≡ false
      → Outcome xs k o
      → Outcome (e ∷ xs) k (up o)
  later-Outcome e xs k none s h = (ne_same e.0 k s, h)
  later-Outcome e xs k (some i) s h = later-At e xs k i s h

  pub position-Outcome : (k : K) (xs : List (K × V)) → Outcome xs k (position xs k)
  position-Outcome k [] = _
  position-Outcome k (e ∷ xs) = elim (Bool-cases (key.same e.0 k)) [
    | inl s ↦ rw (s, sym ((key.same_iff e.0 k).0 s)) (head-At e xs)
    | inr s ↦ rw s (later-Outcome e xs k (position xs k) s (position-Outcome k xs))
  ]

module _ {K V : Type 0} where
  pub Absent-append :
      (j k : K) (v : V) (xs : List (K × V)) → k ≢ j → Absent j xs → Absent j (xs ++ ((k, v) ∷ []))
  Absent-append j k v [] n h = (n, _)
  Absent-append j k v (e ∷ xs) n h = (h.0, Absent-append j k v xs n h.1)

  pub IsDistinct-append :
      (k : K) (v : V) (xs : List (K × V))
      → Absent k xs
      → IsDistinct xs
      → IsDistinct (xs ++ ((k, v) ∷ []))
  IsDistinct-append k v [] h d = (_, _)
  IsDistinct-append k v (e ∷ xs) h d =
      (Absent-append e.0 k v xs (λ q. h.0 (sym q)) d.0, IsDistinct-append k v xs h.1 d.1)

  Absent-set_value :
      (k : K) (xs : List (K × V)) (i : ℕ) (v : V) → Absent k xs → Absent k (set_value xs i v)
  Absent-set_value k [] i v h = _
  Absent-set_value k (e ∷ xs) zero v h = h
  Absent-set_value k (e ∷ xs) (suc i) v h = (h.0, Absent-set_value k xs i v h.1)

  pub IsDistinct-set_value :
      (xs : List (K × V)) (i : ℕ) (v : V) → IsDistinct xs → IsDistinct (set_value xs i v)
  IsDistinct-set_value [] i v d = _
  IsDistinct-set_value (e ∷ xs) zero v d = d
  IsDistinct-set_value (e ∷ xs) (suc i) v d =
      (Absent-set_value e.0 xs i v d.0, IsDistinct-set_value xs i v d.1)

  Absent-remove_at : (k : K) (xs : List (K × V)) (i : ℕ) → Absent k xs → Absent k (remove_at xs i)
  Absent-remove_at k [] i h = _
  Absent-remove_at k (e ∷ xs) zero h = h.1
  Absent-remove_at k (e ∷ xs) (suc i) h = (h.0, Absent-remove_at k xs i h.1)

  pub IsDistinct-remove_at :
      (xs : List (K × V)) (i : ℕ) → IsDistinct xs → IsDistinct (remove_at xs i)
  IsDistinct-remove_at [] i d = _
  IsDistinct-remove_at (e ∷ xs) zero d = d.1
  IsDistinct-remove_at (e ∷ xs) (suc i) d =
      (Absent-remove_at e.0 xs i d.0, IsDistinct-remove_at xs i d.1)
