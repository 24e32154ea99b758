-- ===== src/ExecutionGraph/Coherence.antt =====
-- src/ExecutionGraph.hpp and src/ExecutionGraph.cpp: the coherence order. An iterator over the stores of an access
-- is the list of the stores of its word that overlap with the access, in coherence order; of the members
-- that are there twice this is the one that does not change the graph, for which a word without an entry is
-- an abort, unless it is said that the entry is made.
use rustmc.Prelude.{
  ℕ, Bool, true, false, not, ◌&&◌, List, [], ◌∷◌, ◌++◌, Option, none, some, ltb, if◌then◌else◌,
  ◌>>=◌, length, take, drop,
}
use rustmc.Event.{Event, same, is_initializer}
use rustmc.SAddr.{SAddr, align}
use rustmc.MemAccess.{AAccess}
use rustmc.EventLabel.{Role, MemAccess, read, write}
use rustmc.ExecutionGraph.{
  ExecutionGraph, LocMap, get_event_label, at_loc, or_empty, put_loc, remove_if,
}
use rustmc.ExecutionGraph.Change.{access_at}
use rustmc.ExecutionGraph.Updates.{overlapping}

abbrev pub word_of : AAccess → SAddr
word_of a = align (AAccess.addr a)

-- From `co_begin` to `co_end`, where the word has an entry.
unfoldable pub co_list : ExecutionGraph → AAccess → Option (List Event)
unfolding overlapping at_loc
co_list g a = at_loc g.coherence (word_of a) >>= λ es. some (overlapping g a es)

-- The same where the entry is made: `operator[]`.
unfoldable pub co_stores : ExecutionGraph → AAccess → List Event
unfolding overlapping at_loc or_empty
co_stores g a = overlapping g a (or_empty (at_loc g.coherence (word_of a)))

unfoldable pub first_of : List Event → Option Event
first_of [] = none
first_of (e ∷ es) = some e

unfoldable pub last_store : List Event → Option Event
last_store [] = none
last_store (e ∷ []) = some e
last_store (e ∷ f ∷ es) = last_store (f ∷ es)

abbrev pub is_nil : List Event → Bool
is_nil [] = true
is_nil (e ∷ es) = false

unfoldable pub is_loc_empty : ExecutionGraph → AAccess → Option Bool
unfolding co_list
is_loc_empty g a = co_list g a >>= λ es. some (is_nil es)

pub has_loc_more_than_one_store : ExecutionGraph → AAccess → Option Bool
unfolding co_list
has_loc_more_than_one_store g a = co_list g a >>= λ es. some (ltb 1 (length es))

-- The stores behind a store, and in front of it with the nearest first.
unfoldable pub stores_after : Event → List Event → List Event
stores_after w [] = []
stores_after w (e ∷ es) = let rest = stores_after w es in if same e w then es else rest

unfoldable pub stores_before : Event → List Event → List Event → List Event
stores_before w seen [] = []
stores_before w seen (e ∷ es) =
    let rest = stores_before w (e ∷ seen) es in if same e w then seen else rest

-- `co_imm_succ` and `co_imm_pred` of a store that is in the coherence order.
unfoldable pub co_imm_succ : ExecutionGraph → Event → Option (Option Event)
unfolding access_at at_loc stores_after overlapping first_of
co_imm_succ g w = access_at g w >>= λ a.
    at_loc g.coherence (word_of a) >>= λ es. some (first_of (overlapping g a (stores_after w es)))

unfoldable pub co_imm_pred : ExecutionGraph → Event → Option (Option Event)
unfolding access_at at_loc stores_before overlapping first_of
co_imm_pred g w = access_at g w >>= λ a. at_loc g.coherence (word_of a) >>= λ es.
    some (first_of (overlapping g a (stores_before w [] es)))

-- `fr_imm_succ` of a read, whose first store is of the given role.
fr_succ_of : ExecutionGraph → MemAccess → Event → Role → Option (Option Event)
unfolding co_imm_succ co_list first_of
fr_succ_of g m w (write k n v at rs) = co_imm_succ g w
fr_succ_of g m w role = co_list g m.access >>= λ es. some (first_of es)

fr_succ_in : ExecutionGraph → Role → Option (Option Event)
unfolding fr_succ_of get_event_label
fr_succ_in g (read k m ((w, a) ∷ rfs)) = get_event_label g w >>= λ l. fr_succ_of g m w l.role
fr_succ_in g role = none

pub fr_imm_succ : ExecutionGraph → Event → Option (Option Event)
unfolding fr_succ_in get_event_label
fr_imm_succ g r = get_event_label g r >>= λ l. fr_succ_in g l.role

-- From `fr_imm_pred_begin` to `fr_imm_pred_end`: the readers of the store before.
unfoldable pub readers_of : Role → Option (List Event)
readers_of (write k m v at rs) = some rs
readers_of role = none

fr_pred_from : ExecutionGraph → Event → Option Event → Option (List Event)
unfolding readers_of access_at get_event_label at_loc overlapping
fr_pred_from g w none =
    access_at g w >>= λ a. at_loc g.init_rfs (word_of a) >>= λ es. some (overlapping g a es)
fr_pred_from g w (some v) = get_event_label g v >>= λ l. readers_of l.role

pub fr_imm_preds : ExecutionGraph → Event → Option (List Event)
unfolding fr_pred_from co_imm_pred
fr_imm_preds g w = co_imm_pred g w >>= λ v. fr_pred_from g w v

unfoldable pub same_as : Event → Option Event → Bool
same_as e none = false
same_as e (some f) = same e f

unfoldable pub is_co_maximal : ExecutionGraph → AAccess → Event → Option Bool
unfolding is_loc_empty last_store co_stores same_as
is_co_maximal g a e = is_loc_empty g a >>= λ b.
    some (if is_initializer e then b else not b && same_as e (last_store (co_stores g a)))

-- An entry is made for a word that has none.
unfoldable pub with_entry : LocMap → SAddr → LocMap
unfolding at_loc put_loc or_empty
with_entry m a = put_loc m a (or_empty (at_loc m a))

unfoldable pub track_coherence_at_loc : ExecutionGraph → AAccess → ExecutionGraph
unfolding with_entry
track_coherence_at_loc g a = record g {
  coherence = with_entry g.coherence (word_of a);
  init_rfs = with_entry g.init_rfs (word_of a);
}

-- The store goes in front of the store at a place of the coherence order, or to its end.
unfoldable pub add_stores_to_co : ExecutionGraph → List Event → AAccess → ℕ → ExecutionGraph
unfolding put_loc at_loc or_empty
add_stores_to_co g ws a i =
    let es = or_empty (at_loc g.coherence (word_of a)) in
    record g { coherence = put_loc g.coherence (word_of a) (take i es ++ (ws ++ drop i es)) }

unfoldable pub add_store_to_co : ExecutionGraph → Event → ℕ → Option ExecutionGraph
unfolding add_stores_to_co access_at
add_store_to_co g w i = access_at g w >>= λ a. some (add_stores_to_co g (w ∷ []) a i)

unfoldable pub remove_store_from_co : ExecutionGraph → Event → Option ExecutionGraph
unfolding access_at put_loc at_loc or_empty remove_if
remove_store_from_co g w = access_at g w >>= λ a. some (record g {
  coherence =
      put_loc g.coherence (word_of a)
        (remove_if (λ e. same e w) (or_empty (at_loc g.coherence (word_of a))));
})
