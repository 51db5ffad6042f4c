-- ===== src/Honey.antt =====
-- What the cores use of github.com/evrblk/yellowstone-common/honey over BadgerDB, which the
-- repository does not hold: a table of rows and a time-ordered index, as interfaces. The laws are
-- the documented behaviour that the cores rely on. Within a transaction a read sees the writes
-- before it; no operation fails but for a row that is not there.
pub mod ListTable
pub mod ListIndex
use moab.Base.{
  ℕ, ◌≤◌, ◌<◌, ◌≡◌, ◌≢◌, Bool, true, false, List, [], ◌∷◌, Option, none, some, Result, ok, fail,
  Fault, not_found, if◌then◌else◌, length, All, In, Option-cases, inl, inr, arith,
}

-- honey.PaginationToken.
pub record Token : Type 0 where
  pub key : List ℕ
  pub reverse : Bool

-- One page of a listing, with the tokens of its neighbours.
pub record Page (V : Type 0) : Type 0 where
  pub items : List V
  pub next : Option Token
  pub previous : Option Token

-- honey.BinaryTable and honey.Uint64Table: rows of type `V` under keys `K`, listed by a key prefix
-- `P`. `missing r k` says whether `Delete` reports `ErrNotFound` for the row; it may do so only
-- where the row is absent. `remaining` counts the rows under a prefix that a listing from a token has
-- still to visit: a page that has a next one gets ahead, and writes under other prefixes do not count.
pub record Table (K P V : Type 0) : Type 1 where
  pub Rows : Type 0
  pub get : Rows → K → Option V
  pub set : Rows → K → V → Rows
  pub erase : Rows → K → Rows
  pub missing : Rows → K → Bool
  pub page : Rows → P → Option Token → ℕ → Page V
  pub get-set_self : (r : Rows) (k : K) (v : V) → get (set r k v) k ≡ some v
  pub get-set_ne : (r : Rows) (k j : K) (v : V) → k ≢ j → get (set r k v) j ≡ get r j
  pub get-erase_self : (r : Rows) (k : K) → get (erase r k) k ≡ none
  pub get-erase_ne : (r : Rows) (k j : K) → k ≢ j → get (erase r k) j ≡ get r j
  pub missing_present : (r : Rows) (k : K) (v : V) → get r k ≡ some v → missing r k ≡ false
  pub page_full :
      (r : Rows) (p : P) (limit : ℕ) (t : Token)
      → (page r p none limit).next ≡ some t
      → length (page r p none limit).items ≡ limit
  pub prefix : K → P
  pub remaining : Rows → P → Option Token → ℕ
  pub page_advances :
      (r : Rows) (p : P) (from : Option Token) (limit : ℕ) (t : Token)
      → 0 < limit
      → (page r p from limit).next ≡ some t
      → remaining r p (some t) < remaining r p from
  pub remaining-erase :
      (r : Rows) (k : K) (p : P) (from : Option Token)
      → remaining (erase r k) p from ≤ remaining r p from
  pub remaining-set_other :
      (r : Rows) (k : K) (v : V) (p : P) (from : Option Token)
      → prefix k ≢ p
      → remaining (set r k v) p from ≡ remaining r p from

-- `Delete`.
abbrev pub delete : {K P V : Type 0} (t : Table K P V) → t.Rows → K → Result t.Rows
delete t r k = if t.missing r k then fail not_found else ok (t.erase r k)

-- `Delete` where a missing row is no error.
abbrev pub forget : {K P V : Type 0} (t : Table K P V) → t.Rows → K → t.Rows
forget t r k = if t.missing r k then r else t.erase r k

pub get-forget_self :
    {K P V : Type 0} (t : Table K P V) (r : t.Rows) (k : K) → t.get (forget t r k) k ≡ none
get-forget_self t r k = elim (Option-cases (t.get r k)) [
  | inl gone ↦ ground (arith, gone, t.get-erase_self r k)
  | inr (v, here) ↦ ground (arith, t.missing_present r k v here, t.get-erase_self r k)
]

pub get-forget_ne :
    {K P V : Type 0} (t : Table K P V) (r : t.Rows) (k j : K)
    → k ≢ j
    → t.get (forget t r k) j ≡ t.get r j
get-forget_ne t r k j h = ground (arith, t.get-erase_ne r k j h)

-- An index entry: a time, as the bit pattern of an int64, and what it refers to. Entries are stored
-- as big-endian bytes, so they are ordered by the pattern.
pub record Item (R : Type 0) : Type 0 where
  pub time : ℕ
  pub ref : R

abbrev pub IsSorted : {R : Type 0} → List (Item R) → Type 0
IsSorted [] = Unit
IsSorted (x ∷ xs) = All (λ y. x.time ≤ y.time) xs × IsSorted xs

-- honey.OneToManySortedIndex, a sorted set of items under each key `P`, and honey.SortedIndex, which
-- has one key. `has` is the set; `items` is `ListAll`; `in_range` is `ListInRange` between two
-- time prefixes, both ends included.
pub record Index (P R : Type 0) : Type 1 where
  pub Entries : Type 0
  pub has : Entries → P → Item R → Bool
  pub add : Entries → P → Item R → Entries
  pub remove : Entries → P → Item R → Entries
  pub items : Entries → P → List (Item R)
  pub in_range : Entries → P → ℕ → ℕ → List (Item R)
  pub page : Entries → P → Option Token → ℕ → Page (Item R)
  pub has-add_self : (e : Entries) (p : P) (i : Item R) → has (add e p i) p i ≡ true
  pub has-add_ne : (e : Entries) (p : P) (i j : Item R) → i ≢ j → has (add e p i) p j ≡ has e p j
  pub has-add_other :
      (e : Entries) (p q : P) (i j : Item R) → p ≢ q → has (add e p i) q j ≡ has e q j
  pub has-remove_self : (e : Entries) (p : P) (i : Item R) → has (remove e p i) p i ≡ false
  pub has-remove_ne :
      (e : Entries) (p : P) (i j : Item R) → i ≢ j → has (remove e p i) p j ≡ has e p j
  pub has-remove_other :
      (e : Entries) (p q : P) (i j : Item R) → p ≢ q → has (remove e p i) q j ≡ has e q j
  pub items_sound : (e : Entries) (p : P) → All (λ i. has e p i ≡ true) (items e p)
  pub items_complete : (e : Entries) (p : P) (i : Item R) → has e p i ≡ true → In i (items e p)
  pub items-IsSorted : (e : Entries) (p : P) → IsSorted (items e p)
  pub range_sound :
      (e : Entries) (p : P) (lo hi : ℕ)
      → All (λ i. (has e p i ≡ true) × (lo ≤ i.time) × (i.time ≤ hi)) (in_range e p lo hi)
  pub range_complete :
      (e : Entries) (p : P) (lo hi : ℕ) (i : Item R)
      → has e p i ≡ true
      → lo ≤ i.time
      → i.time ≤ hi
      → In i (in_range e p lo hi)
  pub range-IsSorted : (e : Entries) (p : P) (lo hi : ℕ) → IsSorted (in_range e p lo hi)
