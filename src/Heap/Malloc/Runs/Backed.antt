-- ===== src/Heap/Malloc/Runs/Backed.antt =====
-- What the callers of kernel/mm/heap/heap.c hold and the blocks in use behind it.
use angl_os.Base.{ℕ, ◌+◌, ◌*◌, ◌≤◌, ◌≡◌, ◌≢◌, sym, List, [], ◌∷◌, ◌++◌, arith}
use angl_os.Heap.{Tag}
use angl_os.Heap.Valid.{UsedIn}
use mathlib.Core.Path.{subst}
use angl_os.Heap.Malloc.Runs.{Held}

abbrev pub Other : ℕ → List Held → Type 0
Other p [] = Unit {0}
Other p (f ∷ fs) = (p ≢ f.0) × Other p fs

-- Each pointer is that of a block of its own that is in use and large enough.
abbrev pub Backed : ℕ → List Tag → List Held → Type 0
Backed a bs [] = Unit {0}
Backed a bs (e ∷ es) =
    ((p : ℕ) × (b : Tag) × UsedIn a bs p b × (e.0 ≡ p + 8) × (e.1 + 16 ≤ 8 * b.size))
    × Other e.0 es
    × Backed a bs es

pub Other-split :
    (p : ℕ) (xs : List Held) (e : Held) (ys : List Held)
    → Other p (xs ++ (e ∷ ys))
    → Other p (xs ++ ys) × (p ≢ e.0)
Other-split p [] e ys h = (h.1, h.0)
Other-split p (x ∷ xs) e ys h = let (rest, ne) = Other-split p xs e ys h.1 in ((h.0, rest), ne)

-- Without one of them.
pub Backed-split :
    (a : ℕ) (bs : List Tag) (xs : List Held) (e : Held) (ys : List Held)
    → Backed a bs (xs ++ (e ∷ ys))
    → ((p : ℕ) × (b : Tag) × UsedIn a bs p b × (e.0 ≡ p + 8) × (e.1 + 16 ≤ 8 * b.size))
      × Other e.0 (xs ++ ys)
      × Backed a bs (xs ++ ys)
Backed-split a bs [] e ys h = h
Backed-split a bs (x ∷ xs) e ys (block, other, rest) =
    let (mine, apart, left) = Backed-split a bs xs e ys rest in
    let (others, ne) = Other-split x.0 xs e ys other in
    (mine, ((λ k. ne (sym k)), apart), (block, others, left))

-- The blocks in use of another list.
pub Backed-same :
    (a : ℕ) (bs cs : List Tag) (p : ℕ) (held : List Held)
    → ((q : ℕ) (d : Tag) → UsedIn a bs q d → q ≢ p → UsedIn a cs q d)
    → Other (p + 8) held
    → Backed a bs held
    → Backed a cs held
Backed-same a bs cs p [] keep other h = tt
Backed-same a bs cs p (e ∷ es) keep (ne, other) ((q, b, used, at_q, room), apart, rest) = (
  (q, b, keep q b used (λ k. ne (omega arith)), at_q, room),
  apart,
  Backed-same a bs cs p es keep other rest,
)

-- A block that is not in use is no one's.
pub Backed-new :
    (a : ℕ) (bs : List Tag) (p : ℕ) (held : List Held)
    → ((d : Tag) → ¬ (UsedIn a bs p d))
    → Backed a bs held
    → Other (p + 8) held
Backed-new a bs p [] new h = tt
Backed-new a bs p (e ∷ es) new ((q, b, used, at_q, room), apart, rest) = (
  (λ k. let same : q ≡ p = omega arith in new b (subst (λ z. UsedIn a bs z b) same used)),
  Backed-new a bs p es new rest,
)

-- The same of a block that was in use at most as the one at `p`.
pub Backed-moved :
    (a : ℕ) (bs : List Tag) (p z : ℕ) (held : List Held)
    → ((d : Tag) → UsedIn a bs z d → z ≡ p)
    → Other (p + 8) held
    → Backed a bs held
    → Other (z + 8) held
Backed-moved a bs p z [] moved other h = tt
Backed-moved a bs p z (e ∷ es) moved (ne, other) ((q, b, used, at_q, room), apart, rest) = (
  (λ k.
      let same : q ≡ z = omega arith in
      let back = moved b (subst (λ w. UsedIn a bs w b) same used) in ne (omega arith)),
  Backed-moved a bs p z es moved other rest,
)

-- The blocks in use with the same tags.
pub Backed-iff :
    (a : ℕ) (bs cs : List Tag) (held : List Held)
    → ((q : ℕ) (d : Tag) → UsedIn a bs q d → UsedIn a cs q d)
    → Backed a bs held
    → Backed a cs held
Backed-iff a bs cs [] keep h = tt
Backed-iff a bs cs (e ∷ es) keep ((q, b, used, at_q, room), apart, rest) =
    ((q, b, keep q b used, at_q, room), apart, Backed-iff a bs cs es keep rest)
