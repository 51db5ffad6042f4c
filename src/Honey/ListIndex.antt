-- ===== src/Honey/ListIndex.antt =====
-- The index interface is met by a list that is sorted when it is read.
use moab.Base.{
  ℕ, ◌≤◌, ◌≡◌, refl, ◌≢◌, inl, inr, Bool, true, false, ◌&&◌, List, [], ◌∷◌, none, some, arith,
  if◌then◌else◌, leb, take, All, In, Bool-cases,
}
use moab.Honey.{Item, Index, IsSorted}
use moab.Honey.ListTable.{same}

module _ {P R : Type 0} (dp : Discrete P) (di : Discrete (Item R)) where
  unfoldable pub holds : List (P × Item R) → P → Item R → Bool
  holds [] p i = false
  holds ((q, j) ∷ e) p i = if same dp q p && same di j i then true else holds e p i

  unfoldable pub discard : List (P × Item R) → P → Item R → List (P × Item R)
  discard [] p i = []
  discard ((q, j) ∷ e) p i =
      let rest = discard e p i in if same dp q p && same di j i then rest else (q, j) ∷ rest

  unfoldable pub insert_sorted : Item R → List (Item R) → List (Item R)
  insert_sorted i [] = i ∷ []
  insert_sorted i (j ∷ js) =
      let rest = insert_sorted i js in if leb i.time j.time then i ∷ j ∷ js else j ∷ rest

  unfoldable pub sorted_items : List (P × Item R) → P → List (Item R)
  sorted_items [] p = []
  sorted_items ((q, j) ∷ e) p =
      let rest = sorted_items e p in if same dp q p then insert_sorted j rest else rest

  unfoldable pub between : ℕ → ℕ → List (Item R) → List (Item R)
  between lo hi [] = []
  between lo hi (j ∷ js) =
      let rest = between lo hi js in if leb lo j.time && leb j.time hi then j ∷ rest else rest

  pub holds-discard_self :
      (e : List (P × Item R)) (p : P) (i : Item R) → holds (discard e p i) p i ≡ false
  unfolding holds discard
  holds-discard_self [] p i = refl
  holds-discard_self ((q, j) ∷ e) p i = ground (arith, holds-discard_self e p i)

  pub holds-discard_ne :
      (e : List (P × Item R)) (p : P) (i j : Item R)
      → i ≢ j
      → holds (discard e p i) p j ≡ holds e p j
  unfolding holds discard
  holds-discard_ne [] p i j h = refl
  holds-discard_ne ((q, k) ∷ e) p i j h = ground (arith, holds-discard_ne e p i j h)

  pub holds-discard_other :
      (e : List (P × Item R)) (p q : P) (i j : Item R)
      → p ≢ q
      → holds (discard e p i) q j ≡ holds e q j
  unfolding holds discard
  holds-discard_other [] p q i j h = refl
  holds-discard_other ((s, k) ∷ e) p q i j h = ground (arith, holds-discard_other e p q i j h)

  All-insert {κ} :
      (Q : Item R → Type κ) (i : Item R) (js : List (Item R))
      → Q i
      → All Q js
      → All Q (insert_sorted i js)
  unfolding insert_sorted
  All-insert Q i [] h hs = (h, tt)
  All-insert Q i (j ∷ js) h hs = elim (Bool-cases (leb i.time j.time)) [
    | inl e ↦ rw e (h, hs)
    | inr e ↦ rw e (hs.0, All-insert Q i js h hs.1)
  ]

  All-later :
      (t u : ℕ) (js : List (Item R)) → t ≤ u → All (λ y. u ≤ y.time) js → All (λ y. t ≤ y.time) js
  All-later t u [] h hs = tt
  All-later t u (j ∷ js) h hs = (omega arith, All-later t u js h hs.1)

  insert-IsSorted : (i : Item R) (js : List (Item R)) → IsSorted js → IsSorted (insert_sorted i js)
  unfolding insert_sorted
  insert-IsSorted i [] h = (tt, tt)
  insert-IsSorted i (j ∷ js) h = elim (Bool-cases (leb i.time j.time)) [
    | inl e ↦ rw e ((ground arith, All-later i.time j.time js (ground arith) h.0), h)
    | inr e ↦
        rw e (All-insert (λ y. j.time ≤ y.time) i js (ground arith) h.0, insert-IsSorted i js h.1)
  ]

  pub sorted_items-IsSorted : (e : List (P × Item R)) (p : P) → IsSorted (sorted_items e p)
  unfolding sorted_items
  sorted_items-IsSorted [] p = tt
  sorted_items-IsSorted ((q, j) ∷ e) p = elim (Bool-cases (same dp q p)) [
    | inl h ↦ rw h (insert-IsSorted j (sorted_items e p) (sorted_items-IsSorted e p))
    | inr h ↦ rw h (sorted_items-IsSorted e p)
  ]

  In-insert_self : (i : Item R) (js : List (Item R)) → In i (insert_sorted i js)
  unfolding insert_sorted
  In-insert_self i [] = inl refl
  In-insert_self i (j ∷ js) = elim (Bool-cases (leb i.time j.time)) [
    | inl e ↦ rw e (inl refl)
    | inr e ↦ rw e (inr (In-insert_self i js))
  ]

  In-insert : (i k : Item R) (js : List (Item R)) → In k js → In k (insert_sorted i js)
  unfolding insert_sorted
  In-insert i k [] h = absurd h
  In-insert i k (j ∷ js) h = elim (Bool-cases (leb i.time j.time)) [
    | inl e ↦ rw e (inr h)
    | inr e ↦ rw e (elim h [ inl x ↦ inl x | inr x ↦ inr (In-insert i k js x) ])
  ]

  holds_sound_step :
      (q : P) (j : Item R) (e : List (P × Item R)) (p : P) (js : List (Item R))
      → All (λ i. holds e p i ≡ true) js
      → All (λ i. holds ((q, j) ∷ e) p i ≡ true) js
  unfolding holds
  holds_sound_step q j e p [] h = tt
  holds_sound_step q j e p (k ∷ js) h = (ground arith, holds_sound_step q j e p js h.1)

  pub holds-cons_self : (e : List (P × Item R)) (p : P) (i : Item R) → holds ((p, i) ∷ e) p i ≡ true
  unfolding holds
  holds-cons_self e p i = ground arith

  pub holds-cons_ne :
      (e : List (P × Item R)) (p : P) (i j : Item R) → i ≢ j → holds ((p, i) ∷ e) p j ≡ holds e p j
  unfolding holds
  holds-cons_ne e p i j h = ground arith

  pub holds-cons_other :
      (e : List (P × Item R)) (p q : P) (i j : Item R)
      → p ≢ q
      → holds ((p, i) ∷ e) q j ≡ holds e q j
  unfolding holds
  holds-cons_other e p q i j h = ground arith

  same_eq : (q p : P) → same dp q p ≡ true → q ≡ p
  same_eq q p h = ground arith

  pub sorted_items_sound :
      (e : List (P × Item R)) (p : P) → All (λ i. holds e p i ≡ true) (sorted_items e p)
  unfolding sorted_items
  sorted_items_sound [] p = tt
  sorted_items_sound ((q, j) ∷ e) p = elim (Bool-cases (same dp q p)) [
    | inl h ↦ rw h (
        All-insert (λ i. holds ((q, j) ∷ e) p i ≡ true) j (sorted_items e p)
          (let eq = same_eq q p h in rw eq (holds-cons_self e p j))
          (holds_sound_step q j e p (sorted_items e p) (sorted_items_sound e p)))
    | inr h ↦ rw h (holds_sound_step q j e p (sorted_items e p) (sorted_items_sound e p))
  ]

  pub sorted_items_complete :
      (e : List (P × Item R)) (p : P) (i : Item R) → holds e p i ≡ true → In i (sorted_items e p)
  unfolding holds sorted_items
  sorted_items_complete [] p i h = cc
  sorted_items_complete ((q, j) ∷ e) p i h = elim (dp q p) [
    | yes hp ↦ elim (di j i) [
      | yes hi ↦ ground (arith, In-insert_self j (sorted_items e p))
      | no hi ↦ ground (arith, In-insert j i (sorted_items e p), sorted_items_complete e p i)
    ]
    | no hp ↦ ground (arith, sorted_items_complete e p i)
  ]

  pub between_sound :
      (Q : Item R → Type 0) (lo hi : ℕ) (js : List (Item R))
      → All Q js
      → All (λ i. Q i × (lo ≤ i.time) × (i.time ≤ hi)) (between lo hi js)
  unfolding between
  between_sound Q lo hi [] h = tt
  between_sound Q lo hi (j ∷ js) h = elim (Bool-cases (leb lo j.time && leb j.time hi)) [
    | inl e ↦ rw e ((h.0, ground arith, ground arith), between_sound Q lo hi js h.1)
    | inr e ↦ rw e (between_sound Q lo hi js h.1)
  ]

  pub between_complete :
      (lo hi : ℕ) (i : Item R) (js : List (Item R))
      → In i js
      → lo ≤ i.time
      → i.time ≤ hi
      → In i (between lo hi js)
  unfolding between
  between_complete lo hi i [] m a b = absurd m
  between_complete lo hi i (j ∷ js) (inl e) a b = ground arith
  between_complete lo hi i (j ∷ js) (inr m) a b = ground (arith, between_complete lo hi i js m)

  All-between :
      (Q : Item R → Type 0) (lo hi : ℕ) (js : List (Item R)) → All Q js → All Q (between lo hi js)
  unfolding between
  All-between Q lo hi [] h = tt
  All-between Q lo hi (j ∷ js) h = elim (Bool-cases (leb lo j.time && leb j.time hi)) [
    | inl e ↦ rw e (h.0, All-between Q lo hi js h.1)
    | inr e ↦ rw e (All-between Q lo hi js h.1)
  ]

  pub between-IsSorted :
      (lo hi : ℕ) (js : List (Item R)) → IsSorted js → IsSorted (between lo hi js)
  unfolding between
  between-IsSorted lo hi [] h = tt
  between-IsSorted lo hi (j ∷ js) h = elim (Bool-cases (leb lo j.time && leb j.time hi)) [
    | inl e ↦ rw e (All-between (λ y. j.time ≤ y.time) lo hi js h.0, between-IsSorted lo hi js h.1)
    | inr e ↦ rw e (between-IsSorted lo hi js h.1)
  ]

  unfoldable pub list_index : Index P R
  unfolding holds discard sorted_items insert_sorted between
  list_index = record {
    Entries = List (P × Item R);
    has = holds;
    add = λ e p i. (p, i) ∷ e;
    remove = discard;
    items = sorted_items;
    in_range = λ e p lo hi. between lo hi (sorted_items e p);
    page = λ e p token n. record {
      items = take n (elim token [ none ↦ sorted_items e p | some _ ↦ [] ]);
      next = none;
      previous = none;
    };
    has-add_self = holds-cons_self;
    has-add_ne = holds-cons_ne;
    has-add_other = holds-cons_other;
    has-remove_self = holds-discard_self;
    has-remove_ne = holds-discard_ne;
    has-remove_other = holds-discard_other;
    items_sound = sorted_items_sound;
    items_complete = sorted_items_complete;
    items-IsSorted = sorted_items-IsSorted;
    range_sound = λ e p lo hi.
        between_sound (λ i. holds e p i ≡ true) lo hi (sorted_items e p) (sorted_items_sound e p);
    range_complete = λ e p lo hi i h a b.
        between_complete lo hi i (sorted_items e p) (sorted_items_complete e p i h) a b;
    range-IsSorted =
        λ e p lo hi. between-IsSorted lo hi (sorted_items e p) (sorted_items-IsSorted e p);
  }
