-- ===== src/Worklist.antt =====
-- src/WorkSet.hpp and the work list of src/GenMCDriver.cpp: for each stamp a stack of revisits to
-- explore, and the choices that are kept by stamp.
-- The map from stamps is the list of its entries from the greatest stamp on, which is how the code
-- goes over it, and a work set is the list of its items from the back of the vector on. What a
-- revisit is does not matter here.
pub mod Stacks
use rustmc.Prelude.{
  ℕ, Bool, true, false, not, ◌&&◌, List, [], ◌∷◌, Option, none, some, ltb, leb, ◌==◌, if◌then◌else◌,
}

module _ {ℓ} (A : Type ℓ) where
  abbrev pub WorkSet : Type ℓ
  WorkSet = List A

  pub record Entry : Type ℓ where
    pub stamp : ℕ
    pub wset : WorkSet

  abbrev pub Worklist : Type ℓ
  Worklist = List Entry

  -- What `getNextItem` gives: the stamp and the item, and the work list that is left.
  pub record Next : Type ℓ where
    pub stamp : ℕ
    pub item : A
    pub rest : Worklist

module _ {ℓ} {A : Type ℓ} where
  -- `WorkSet::empty`
  unfoldable pub is_empty : WorkSet A → Bool
  is_empty [] = true
  is_empty (x ∷ xs) = false

  -- `addToWorklist`: the entry of the stamp is made where it is missing.
  pub add_to_worklist : ℕ → A → Worklist A → Worklist A
  add_to_worklist stamp item [] = record { stamp = stamp; wset = item ∷ [] } ∷ []
  add_to_worklist stamp item (e ∷ es) =
      let further = e ∷ add_to_worklist stamp item es in
      if ltb e.stamp stamp
      then record { stamp = stamp; wset = item ∷ [] } ∷ e ∷ es
      else if e.stamp == stamp
      then record { stamp = e.stamp; wset = item ∷ e.wset } ∷ es
      else further

  -- Behind an entry that is passed over.
  behind : Entry A → Option (Next A) → Option (Next A)
  behind e none = none
  behind e (some n) = some (record { stamp = n.stamp; item = n.item; rest = e ∷ n.rest })

  -- The first item of an entry, by `getNext`, if it has one; else what the entries behind it give.
  pop : ℕ → WorkSet A → Worklist A → Option (Next A) → Option (Next A)
  unfolding behind
  pop stamp [] es further = behind (record { stamp = stamp; wset = [] }) further
  pop stamp (x ∷ xs) es further =
      some (record { stamp = stamp; item = x; rest = record { stamp = stamp; wset = xs } ∷ es })

  -- `getNextItem`; `none` is the null item.
  pub get_next_item : Worklist A → Option (Next A)
  unfolding pop
  get_next_item [] = none
  get_next_item (e ∷ es) = pop e.stamp e.wset es (get_next_item es)

  -- `restrictWorklist`: the entries past the stamp that are empty go.
  pub restrict_worklist : ℕ → Worklist A → Worklist A
  unfolding is_empty
  restrict_worklist stamp [] = []
  restrict_worklist stamp (e ∷ es) =
      let rest = restrict_worklist stamp es in
      if ltb stamp e.stamp && is_empty e.wset then rest else e ∷ rest

  -- `restrictChoices`, over a map from stamps in order: the entries past the stamp go.
  pub restrict_choices : ℕ → List (ℕ × A) → List (ℕ × A)
  restrict_choices stamp [] = []
  restrict_choices stamp (c ∷ cs) =
      let rest = restrict_choices stamp cs in if ltb stamp c.0 then rest else c ∷ rest
