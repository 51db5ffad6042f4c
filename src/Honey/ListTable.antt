-- ===== src/Honey/ListTable.antt =====
-- The table interface is met by an association list.
use moab.Base.{
  ℕ, zero, suc, ◌≤◌, ◌<◌, ◌≡◌, refl, sym, ap, ◌∙◌, ◌≢◌, Bool, true, false, List, [], ◌∷◌, Option,
  none, some, arith, if◌then◌else◌, ltb, length, take,
}
use moab.Honey.{Token, Page, Table}

abbrev pub same {ℓ} : {A : Type ℓ} → Discrete A → A → A → Bool
same d a b = elim (d a b) [ yes _ ↦ true | no _ ↦ false ]

module _ {K P V : Type 0} (dk : Discrete K) (dp : Discrete P) (prefix : K → P) where
  unfoldable pub find : List (K × V) → K → Option V
  find [] k = none
  find ((j, v) ∷ r) k = if same dk j k then some v else find r k

  unfoldable pub drop_key : List (K × V) → K → List (K × V)
  drop_key [] k = []
  drop_key ((j, v) ∷ r) k = let rest = drop_key r k in if same dk j k then rest else (j, v) ∷ rest

  unfoldable pub rows_under : List (K × V) → P → List V
  rows_under [] p = []
  rows_under ((j, v) ∷ r) p =
      let rest = rows_under r p in if same dp (prefix j) p then v ∷ rest else rest

  unfoldable pub first_page : List V → ℕ → Page V
  first_page vs n = record {
    items = take n vs;
    next = if ltb n (length vs) then some (record { key = []; reverse = false }) else none;
    previous = none;
  }

  pub find-drop_self : (r : List (K × V)) (k : K) → find (drop_key r k) k ≡ none
  unfolding find drop_key
  find-drop_self [] k = refl
  find-drop_self ((j, v) ∷ r) k = ground (arith, find-drop_self r k)

  pub find-drop_ne : (r : List (K × V)) (k j : K) → k ≢ j → find (drop_key r k) j ≡ find r j
  unfolding find drop_key
  find-drop_ne [] k j h = refl
  find-drop_ne ((i, v) ∷ r) k j h = ground (arith, find-drop_ne r k j h)

  length-take_full : (n : ℕ) (vs : List V) → n ≤ length vs → length (take n vs) ≡ n
  length-take_full zero vs h = refl
  length-take_full (suc n) [] h = absurd (omega arith)
  length-take_full (suc n) (x ∷ xs) h = omega (arith, length-take_full n xs)

  pub length-first_page :
      (vs : List V) (n : ℕ) (t : Token)
      → (first_page vs n).next ≡ some t
      → length (first_page vs n).items ≡ n
  unfolding first_page
  length-first_page vs n t h = length-take_full n vs (ground arith)

  unfoldable pub put : List (K × V) → K → V → List (K × V)
  unfolding drop_key
  put r k v = (k, v) ∷ drop_key r k

  pub find-put_self : (r : List (K × V)) (k : K) (v : V) → find (put r k v) k ≡ some v
  unfolding find put
  find-put_self r k v = ground arith

  pub find-put_ne : (r : List (K × V)) (k j : K) (v : V) → k ≢ j → find (put r k v) j ≡ find r j
  unfolding find put
  find-put_ne r k j v h = ground (arith, find-drop_ne r k j h)

  abbrev pub remaining : List (K × V) → P → Option Token → ℕ
  remaining r p none = length (rows_under r p)
  remaining r p (some _) = 0

  pub advances :
      (r : List (K × V)) (p : P) (from : Option Token) (n : ℕ) (t : Token)
      → (first_page (elim from [ none ↦ rows_under r p | some _ ↦ [] ]) n).next ≡ some t
      → remaining r p (some t) < remaining r p from
  unfolding first_page
  advances r p none n t h = ground arith
  advances r p (some _) n t h = ground arith

  length-drop_key :
      (r : List (K × V)) (k : K) (p : P)
      → length (rows_under (drop_key r k) p) ≤ length (rows_under r p)
  unfolding rows_under drop_key
  length-drop_key [] k p = omega arith
  length-drop_key ((j, v) ∷ r) k p = ground (arith, length-drop_key r k p)

  pub remaining-drop_key :
      (r : List (K × V)) (k : K) (p : P) (from : Option Token)
      → remaining (drop_key r k) p from ≤ remaining r p from
  remaining-drop_key r k p none = length-drop_key r k p
  remaining-drop_key r k p (some _) = omega arith

  rows_under-drop_other :
      (r : List (K × V)) (k : K) (p : P)
      → prefix k ≢ p
      → rows_under (drop_key r k) p ≡ rows_under r p
  unfolding rows_under drop_key
  rows_under-drop_other [] k p h = refl
  rows_under-drop_other ((j, v) ∷ r) k p h = elim (dk j k) [
    | yes e ↦
        let apart : prefix j ≢ p = λ x. h (ap prefix (sym e) ∙ x) in
        ground (arith, e, apart, rows_under-drop_other r k p h)
    | no ne ↦ ground (arith, ne, rows_under-drop_other r k p h)
  ]

  pub remaining-put :
      (r : List (K × V)) (k : K) (v : V) (p : P) (from : Option Token)
      → prefix k ≢ p
      → remaining (put r k v) p from ≡ remaining r p from
  unfolding rows_under put
  remaining-put r k v p none h = ground (arith, rows_under-drop_other r k p h)
  remaining-put r k v p (some _) h = refl

  unfoldable pub list_table : Table K P V
  unfolding find drop_key put rows_under first_page
  list_table = record {
    Rows = List (K × V);
    get = find;
    set = put;
    erase = drop_key;
    missing = λ r k. elim (find r k) [ none ↦ true | some _ ↦ false ];
    page = λ r p token n. first_page (elim token [ none ↦ rows_under r p | some _ ↦ [] ]) n;
    get-set_self = find-put_self;
    get-set_ne = find-put_ne;
    get-erase_self = find-drop_self;
    get-erase_ne = find-drop_ne;
    missing_present = λ r k v h. rw h;
    page_full = λ r p n t h. length-first_page (rows_under r p) n t h;
    prefix = prefix;
    remaining = remaining;
    page_advances = λ r p from n t _ h. advances r p from n t h;
    remaining-erase = remaining-drop_key;
    remaining-set_other = remaining-put;
  }
