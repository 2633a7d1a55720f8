-- ===== src/Utlist.antt =====
-- The list macros of utlist.h that the program uses, as an interface: a list is the sequence of
-- its elements, and a pointer to an element is its position.
use foren6_analyzer.Prelude.{ℕ, zero, suc, ◌<◌, List, [], ◌∷◌, ◌++◌, length, ◌≡◌, refl}

pub record Utlist (A : Type 0) : Type 0 where
  -- LL_PREPEND
  pub ll_prepend : List A → A → List A
  -- LL_DELETE of the element at a position
  pub ll_delete : List A → ℕ → List A
  -- DL_APPEND
  pub dl_append : List A → A → List A
  pub ll_prepend_law : (xs : List A) (x : A) → ll_prepend xs x ≡ (x ∷ xs)
  pub ll_delete_head : (x : A) (xs : List A) → ll_delete (x ∷ xs) 0 ≡ xs
  pub ll_delete_tail :
      (x : A) (xs : List A) (i : ℕ)
      → i < length xs
      → ll_delete (x ∷ xs) (suc i) ≡ (x ∷ ll_delete xs i)
  pub dl_append_law : (xs : List A) (x : A) → dl_append xs x ≡ (xs ++ (x ∷ []))

-- Lists without pointers, for runs on concrete inputs.
abbrev delete_at : {A : Type 0} → List A → ℕ → List A
delete_at [] i = []
delete_at (x ∷ xs) zero = xs
delete_at (x ∷ xs) (suc i) = x ∷ delete_at xs i

abbrev pub plain_lists : {A : Type 0} → Utlist A
plain_lists = record {
  ll_prepend = λ xs x. x ∷ xs;
  ll_delete = delete_at;
  dl_append = λ xs x. xs ++ (x ∷ []);
  ll_prepend_law = λ xs x. refl;
  ll_delete_head = λ x xs. refl;
  ll_delete_tail = λ x xs i h. refl;
  dl_append_law = λ xs x. refl;
}
