-- ===== src/VSet/Single.antt =====
-- src/VSet.tcc: the operations on one element.
use rustmc.Prelude.{
  ℕ, suc, ◌+◌, ◌≤◌, ◌≡◌, refl, not, ◌&&◌, ◌||◌, [], ◌∷◌, ◌==◌, leb, if◌then◌else◌, arith, length,
}
use rustmc.VSet.Order.{From, IsSorted, elem, From-mono, elem_below, elem_lower}
use rustmc.VSet.{VSet, lower_bound, find, count, insert_at, insert, erase_at, erase}

count-From : (y lo : ℕ) (s : VSet) → From lo s → count s y ≡ (if elem y s then 1 else 0)
unfolding count find lower_bound elem
count-From y lo [] f = refl
count-From y lo (x ∷ xs) f =
    ground (arith, count-From y (suc x) xs f.1, elem_below y (suc x) xs f.1)

-- On a sorted vector `count` answers 1 on the members, and 0 on what is none.
pub count-elem : (y : ℕ) (s : VSet) → IsSorted s → count s y ≡ (if elem y s then 1 else 0)
count-elem y s f = count-From y 0 s f

insert_at-From : (el lo : ℕ) (s : VSet) → lo ≤ el → From lo s → From lo (insert_at s el)
unfolding insert_at
insert_at-From el lo [] h f = (h, tt)
insert_at-From el lo (x ∷ xs) h f = ground (arith, insert_at-From el (suc x) xs)

insert_at-elem :
    (y el lo : ℕ) (s : VSet) → From lo s → elem y (insert_at s el) ≡ (y == el || elem y s)
unfolding insert_at elem
insert_at-elem y el lo [] f = refl
insert_at-elem y el lo (x ∷ xs) f = ground (arith, insert_at-elem y el (suc x) xs f.1)

insert_at-length :
    (el lo : ℕ) (s : VSet)
    → From lo s
    → length (insert_at s el) + (if elem el s then 1 else 0) ≡ length s + 1
unfolding insert_at elem
insert_at-length el lo [] f = refl
insert_at-length el lo (x ∷ xs) f =
    ground (arith, insert_at-length el (suc x) xs f.1, elem_below el (suc x) xs f.1)

pub insert-IsSorted : (el : ℕ) (s : VSet) → IsSorted s → IsSorted (insert s el).0
unfolding insert
insert-IsSorted el s f = insert_at-From el 0 s (omega arith) f

-- On a sorted vector, after `insert` of an element the members are those before, and the element.
pub elem-insert :
    (y el : ℕ) (s : VSet) → IsSorted s → elem y (insert s el).0 ≡ (y == el || elem y s)
unfolding insert
elem-insert y el s f = insert_at-elem y el 0 s f

erase_at-From : (el lo : ℕ) (s : VSet) → From lo s → From lo (erase_at s el)
unfolding erase_at
erase_at-From el lo [] f = tt
erase_at-From el lo (x ∷ xs) f =
    ground (arith, erase_at-From el (suc x) xs f.1, From-mono {lo = suc x} {lo' = lo} xs)

erase_at-elem :
    (y el lo : ℕ) (s : VSet) → From lo s → elem y (erase_at s el) ≡ (elem y s && not (y == el))
unfolding erase_at elem
erase_at-elem y el lo [] f = refl
erase_at-elem y el lo (x ∷ xs) f = ground (
  arith,
  erase_at-elem y el (suc x) xs f.1,
  elem_below y (suc x) xs f.1,
  elem_below el (suc x) xs f.1,
)

erase_at-length :
    (el lo : ℕ) (s : VSet)
    → From lo s
    → length (erase_at s el) + (if elem el s then 1 else 0) ≡ length s
unfolding erase_at elem
erase_at-length el lo [] f = refl
erase_at-length el lo (x ∷ xs) f =
    ground (arith, erase_at-length el (suc x) xs f.1, elem_below el (suc x) xs f.1)

pub erase-IsSorted : (el : ℕ) (s : VSet) → IsSorted s → IsSorted (erase s el).0
unfolding erase
erase-IsSorted el s f = erase_at-From el 0 s f

-- On a sorted vector, after `erase` of an element the members are those before, but for the element.
pub elem-erase :
    (y el : ℕ) (s : VSet) → IsSorted s → elem y (erase s el).0 ≡ (elem y s && not (y == el))
unfolding erase
elem-erase y el s f = erase_at-elem y el 0 s f

-- On a sorted vector, what `insert` returns beside the vector says whether the vector has grown, and
-- that is whether the element was no member.
pub length-insert :
    (el : ℕ) (s : VSet)
    → IsSorted s
    → (length (insert s el).0 ≡ length s + (if (insert s el).1 then 1 else 0))
      × ((insert s el).1 ≡ not (elem el s))
unfolding insert count
length-insert el s f = ground (arith, insert_at-length el 0 s f, count-elem el s f)

-- On a sorted vector, what `erase` of an element returns is by how much the vector has shrunk.
pub length-erase :
    (el : ℕ) (s : VSet) → IsSorted s → length (erase s el).0 + (erase s el).1 ≡ length s
unfolding erase
length-erase el s f = ground (arith, erase_at-length el 0 s f, count-elem el s f)

lower_bound-From :
    (y k lo : ℕ) (s : VSet) → From lo s → elem y (lower_bound s k) ≡ (elem y s && leb k y)
unfolding lower_bound elem
lower_bound-From y k lo [] f = refl
lower_bound-From y k lo (x ∷ xs) f =
    ground (arith, lower_bound-From y k (suc x) xs f.1, elem_lower y (suc x) xs f.1)

-- In a sorted vector, the elements from the lower bound of `k` on are those that are not below `k`.
pub elem-lower_bound :
    (y k : ℕ) (s : VSet) → IsSorted s → elem y (lower_bound s k) ≡ (elem y s && leb k y)
elem-lower_bound y k s f = lower_bound-From y k 0 s f

-- A set is not empty after an insertion.
pub length-insert-pos : (s : VSet) (el : ℕ) → 1 ≤ length (insert s el).0
unfolding insert insert_at
length-insert-pos [] el = omega arith
length-insert-pos (x ∷ xs) el = ground arith
