-- ===== src/KernelLists.antt =====
-- The linked lists of kernel/libc/kernel/list.c as their clients see them: an interface, with the
-- elements of a list from front to back and what the operations do to them.
pub mod Plain
pub mod Members
use angl_os.Base.{ℕ, ◌≡◌, ◌≢◌, List, [], ◌∷◌, ◌++◌}

-- `e` is not in a list.
abbrev pub Absent : ℕ → List ℕ → Type 0
Absent e [] = Unit {0}
Absent e (x ∷ xs) = (x ≢ e) × Absent e xs

-- `list_remove` unlinks an element from the list that it stands in, and so changes no other list.
pub record ListOps : Type 1 where
  pub Lst : Type 0
  pub elements : Lst → List ℕ
  pub list_init : Lst
  pub list_push_back : Lst → ℕ → Lst
  pub list_remove : ℕ → Lst → Lst
  pub init-elements : elements list_init ≡ []
  pub push_back-elements :
      (l : Lst) (e : ℕ) → elements (list_push_back l e) ≡ elements l ++ (e ∷ [])
  pub remove-elements :
      (l : Lst) (e : ℕ) (xs ys : List ℕ)
      → Absent e xs
      → elements l ≡ xs ++ (e ∷ ys)
      → elements (list_remove e l) ≡ xs ++ ys
  pub remove-absent :
      (l : Lst) (e : ℕ) → Absent e (elements l) → elements (list_remove e l) ≡ elements l
