-- ===== src/KernelLists/Plain.antt =====
-- The interface of kernel/libc/kernel/list.c met by lists as they are.
use angl_os.Base.{ℕ, ◌≡◌, refl, ap, List, [], ◌∷◌, ◌++◌, ◌==◌, if◌then◌else◌, ==_iff, ==_ne}
use angl_os.KernelLists.{ListOps, Absent}

abbrev pub remove_first : ℕ → List ℕ → List ℕ
remove_first e [] = []
remove_first e (x ∷ xs) = let rest = remove_first e xs in if x == e then xs else x ∷ rest

pub remove_first_lem :
    (e : ℕ) (xs ys : List ℕ) → Absent e xs → remove_first e (xs ++ (e ∷ ys)) ≡ xs ++ ys
remove_first_lem e [] ys h = rw ((==_iff e e).1 refl) refl
remove_first_lem e (x ∷ xs) ys h =
    rw (==_ne x e h.0) (ap (λ l. x ∷ l) (remove_first_lem e xs ys h.1))

pub remove_first-Absent : (e : ℕ) (xs : List ℕ) → Absent e xs → remove_first e xs ≡ xs
remove_first-Absent e [] h = refl
remove_first-Absent e (x ∷ xs) h =
    rw (==_ne x e h.0) (ap (λ l. x ∷ l) (remove_first-Absent e xs h.1))

abbrev pub plain_lists : ListOps
plain_lists = record {
  Lst = List ℕ;
  elements = λ l. l;
  list_init = [];
  list_push_back = λ l e. l ++ (e ∷ []);
  list_remove = remove_first;
  init-elements = refl;
  push_back-elements = λ l e. refl;
  remove-elements = λ l e xs ys absent eq. rw eq (remove_first_lem e xs ys absent);
  remove-absent = λ l e absent. remove_first-Absent e l absent;
}
