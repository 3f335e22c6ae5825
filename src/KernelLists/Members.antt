-- ===== src/KernelLists/Members.antt =====
-- The elements of the lists of kernel/libc/kernel/list.c as sets.
use angl_os.Base.{ℕ, ◌≡◌, ◌≢◌, ◌⊎◌, ◌↔◌, refl, inl, inr, ap, sym, List, [], ◌∷◌, ◌++◌}
use angl_os.KernelLists.{ListOps, Absent}
use native.Mathlib.Decide.{ℕ_discrete}
use mathlib.Core.Path.{subst}

pub data Listed (p : ℕ) : List ℕ → Type 0 where
  here : {ps : List ℕ} → Listed p (p ∷ ps)
  there : {q : ℕ} {ps : List ℕ} → Listed p ps → Listed p (q ∷ ps)

-- No element stands in a list twice.
abbrev pub Unique : List ℕ → Type 0
Unique [] = Unit {0}
Unique (x ∷ xs) = Absent x xs × Unique xs

pub Listed-cases : (p q : ℕ) (ps : List ℕ) → Listed p (q ∷ ps) → (p ≡ q) ⊎ Listed p ps
Listed-cases p q ps here = inl refl
Listed-cases p q ps (there h) = inr h

pub Listed-append : (q : ℕ) (xs ys : List ℕ) → Listed q (xs ++ ys) ↔ (Listed q xs ⊎ Listed q ys)
Listed-append q [] ys = (λ h. inr h, λ h. elim h [ inl k ↦ elim k [ ] | inr k ↦ k ])
Listed-append q (x ∷ xs) ys =
    let ih = Listed-append q xs ys in
    (
      λ h. elim (Listed-cases q x (xs ++ ys) h) [
        | inl e ↦ inl (subst (λ z. Listed q (z ∷ xs)) e here)
        | inr k ↦ elim (ih.0 k) [ inl l ↦ inl (there l) | inr r ↦ inr r ]
      ],
      λ h. elim h [
        | inl l ↦ elim (Listed-cases q x xs l) [
          | inl e ↦ subst (λ z. Listed q (z ∷ (xs ++ ys))) e here
          | inr k ↦ there (ih.1 (inl k))
        ]
        | inr r ↦ there (ih.1 (inr r))
      ],
    )

Absent-not : (e : ℕ) (l : List ℕ) → Absent e l → ¬ (Listed e l)
Absent-not e l a h = elim_absent e l a h
  where
    elim_absent : (e : ℕ) (l : List ℕ) → Absent e l → Listed e l → ⊥
    elim_absent e [] a h = elim h [ ]
    elim_absent e (x ∷ xs) a here = a.0 refl
    elim_absent e (x ∷ xs) a (there h) = elim_absent e xs a.1 h

pub Absent-of : (e : ℕ) (l : List ℕ) → ¬ (Listed e l) → Absent e l
Absent-of e [] h = tt
Absent-of e (x ∷ xs) h =
    ((λ eq. h (subst (λ z. Listed e (z ∷ xs)) (sym eq) here)), Absent-of e xs (λ k. h (there k)))

-- An element stands in a list at a first place, or nowhere.
first_place :
    (e : ℕ) (l : List ℕ)
    → ((xs : List ℕ) × (ys : List ℕ) × (l ≡ xs ++ (e ∷ ys)) × Absent e xs) ⊎ Absent e l
first_place e [] = inr tt
first_place e (x ∷ xs) = elim (ℕ_discrete x e) [
  | yes eq ↦ inl ([], xs, ap (λ z. z ∷ xs) eq, tt)
  | no ne ↦ elim (first_place e xs) [
    | inl (ws, ys, eq, a) ↦ inl (x ∷ ws, ys, ap (λ l. x ∷ l) eq, (ne, a))
    | inr a ↦ inr (ne, a)
  ]
]

Absent-append : (e : ℕ) (xs ys : List ℕ) → Absent e (xs ++ ys) ↔ (Absent e xs × Absent e ys)
Absent-append e [] ys = (λ h. (tt, h), λ h. h.1)
Absent-append e (x ∷ xs) ys =
    let ih = Absent-append e xs ys in
    (λ h. ((h.0, (ih.0 h.1).0), (ih.0 h.1).1), λ h. (h.0.0, ih.1 (h.0.1, h.1)))

-- Taking an element out of the middle of a list without doubles.
Unique-middle :
    (e : ℕ) (xs ys : List ℕ) → Unique (xs ++ (e ∷ ys)) → Unique (xs ++ ys) × Absent e (xs ++ ys)
Unique-middle e [] ys u = (u.1, u.0)
Unique-middle e (x ∷ xs) ys u =
    let (v, a) = Unique-middle e xs ys u.1 in
    let (ax, ay) = (Absent-append x xs (e ∷ ys)).0 u.0 in
    (((Absent-append x xs ys).1 (ax, ay.1), v), ((λ eq. ay.0 (sym eq)), a))

Unique-snoc : (e : ℕ) (xs : List ℕ) → Unique xs → Absent e xs → Unique (xs ++ (e ∷ []))
Unique-snoc e [] u a = (tt, tt)
Unique-snoc e (x ∷ xs) u a =
    ((Absent-append x xs (e ∷ [])).1 (u.0, ((λ eq. a.0 (sym eq)), tt)), Unique-snoc e xs u.1 a.1)

-- A list without doubles whose elements are those that `P` holds of.
pub record Holds (P : ℕ → Type 0) (l : List ℕ) : Type 0 where
  pub members : (q : ℕ) → Listed q l ↔ P q
  pub unique : Unique l

pub Holds-iff : (P Q : ℕ → Type 0) (l : List ℕ) → ((q : ℕ) → P q ↔ Q q) → Holds P l → Holds Q l
Holds-iff P Q l same h = record {
  members = λ q. (λ k. (same q).0 ((h.members q).0 k), λ k. (h.members q).1 ((same q).1 k));
  unique = h.unique;
}

module _ (ops : ListOps) (P : ℕ → Type 0) (l : ops.Lst) (e : ℕ) (h : Holds P (ops.elements l)) where
  pub push_back-Holds : ¬ (P e) → Holds (λ q. P q ⊎ (q ≡ e)) (ops.elements (ops.list_push_back l e))
  push_back-Holds new =
      let absent = Absent-of e (ops.elements l) (λ k. new ((h.members e).0 k)) in
      subst (Holds (λ q. P q ⊎ (q ≡ e))) (sym (ops.push_back-elements l e)) (record {
        members = λ q. (
          λ k. elim ((Listed-append q (ops.elements l) (e ∷ [])).0 k) [
            | inl old ↦ inl ((h.members q).0 old)
            | inr last ↦ elim (Listed-cases q e [] last) [
              | inl eq ↦ inr eq
              | inr none_left ↦ elim none_left [ ]
            ]
          ],
          λ k. (Listed-append q (ops.elements l) (e ∷ [])).1 (elim k [
            | inl old ↦ inl ((h.members q).1 old)
            | inr eq ↦ inr (subst (λ z. Listed q (z ∷ [])) eq here)
          ]),
        );
        unique = Unique-snoc e (ops.elements l) h.unique absent;
      })

  removed :
      (xs ys : List ℕ) → ops.elements l ≡ xs ++ (e ∷ ys) → Holds (λ q. P q × (q ≢ e)) (xs ++ ys)
  removed xs ys eq =
      let (u, a) = Unique-middle e xs ys (subst Unique eq h.unique) in
      record {
        members = λ q. (
          λ k. (
            (h.members q).0 (
                subst (Listed q) (sym eq) (
                  (Listed-append q xs (e ∷ ys)).1 (elim ((Listed-append q xs ys).0 k) [
                    | inl f ↦ inl f
                    | inr b ↦ inr (there b)
                  ]))),
            (λ same. Absent-not e (xs ++ ys) a (subst (λ z. Listed z (xs ++ ys)) same k)),
          ),
          λ (k, ne).
              (Listed-append q xs ys).1
                (elim ((Listed-append q xs (e ∷ ys)).0 (subst (Listed q) eq ((h.members q).1 k))) [
                  | inl f ↦ inl f
                  | inr b ↦ elim (Listed-cases q e ys b) [
                    | inl same ↦ absurd (ne same)
                    | inr r ↦ inr r
                  ]
                ]),
        );
        unique = u;
      }

  -- `list_remove` takes its element out, whether it is there or not.
  pub remove-Holds : Holds (λ q. P q × (q ≢ e)) (ops.elements (ops.list_remove e l))
  remove-Holds = elim (first_place e (ops.elements l)) [
    | inl (xs, ys, eq, a) ↦
        subst (Holds (λ q. P q × (q ≢ e))) (sym (ops.remove-elements l e xs ys a eq))
          (removed xs ys eq)
    | inr a ↦ subst (Holds (λ q. P q × (q ≢ e))) (sym (ops.remove-absent l e a)) (
        Holds-iff P (λ q. P q × (q ≢ e)) (ops.elements l)
          (λ q. (
            λ k. (
              k,
              λ same.
                  Absent-not e (ops.elements l) a
                    (subst (λ z. Listed z (ops.elements l)) same ((h.members q).1 k)),
            ),
            λ k. k.0,
          ))
          h)
  ]
