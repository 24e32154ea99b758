-- ===== src/ExecutionGraph/Cut.antt =====
-- src/ExecutionGraph.cpp: stamps and the restriction of a graph to the events up to a stamp. The maps from
-- words are walked in the order in which the model lists their entries.
use rustmc.Prelude.{
  ℕ, zero, suc, ◌+◌, ◌%◌, ◌^◌, Bool, true, false, not, ◌||◌, List, [], ◌∷◌, ◌++◌, Option, none,
  some, ltb, leb, ◌==◌, if◌then◌else◌, ◌>>=◌, length, get_elem?, take, drop,
}
use rustmc.Event.{Event, same}
use rustmc.View.{View, empty_view, size, get_max, set_max, contains}
use rustmc.SAddr.{SAddr, align}
use rustmc.MemAccess.{AAccess}
use rustmc.EventLabel.{EventLabel, Role, Rfs, MemAccess, thread_finish, read, write, malloc, free}
use rustmc.ExecutionGraph.{ExecutionGraph, LocMap, at_loc, or_empty, put_loc, remove_if}
use rustmc.ExecutionGraph.Change.{mem_in}

-- The index of the last of `k` labels with a stamp up to `st`.
unfoldable pub scan_back : ℕ → List EventLabel → ℕ → Option ℕ
scan_back st thr zero = none
scan_back st thr (suc j) =
    let rest = scan_back st thr j in
    elim (get_elem? thr j) as (λ x. Option ℕ) [
      | none ↦ none
      | some l ↦ if leb (EventLabel.stamp l) st then some j else rest
    ]

-- The loop of `getViewFromStamp` over the threads, of which `i` are behind it.
unfoldable pub view_from : ℕ → List (List EventLabel) → ℕ → View → View
unfolding scan_back
view_from st [] i v = v
view_from st (thr ∷ thrs) i v =
    view_from st thrs (suc i) (elim (scan_back st thr (length thr)) as (λ x. View) [
      | none ↦ v
      | some j ↦ set_max v (record { thread = i; index = j })
    ])

unfoldable pub get_view_from_stamp : ExecutionGraph → ℕ → View
unfolding view_from
get_view_from_stamp g st = view_from st g.events 0 empty_view

-- `removeAfter`: the words of the accesses up to a view.
label_words : List EventLabel → List SAddr
label_words [] = []
label_words (l ∷ ls) = elim (mem_in (EventLabel.role l)) as (λ x. List SAddr) [
  | none ↦ label_words ls
  | some m ↦ align (AAccess.addr (MemAccess.access m)) ∷ label_words ls
]

words_from : View → List (List EventLabel) → ℕ → List SAddr
unfolding label_words
words_from v [] i = []
words_from v (thr ∷ thrs) i =
    if ltb i (size v)
    then label_words (take (suc (get_max v i)) thr) ++ words_from v thrs (suc i)
    else words_from v thrs (suc i)

has_word : SAddr → List SAddr → Bool
has_word a [] = false
has_word a (b ∷ bs) = b == a || has_word a bs

-- The readers of a word's initial value that stay, in a part of the map that has the word, or at its end.
prune_at : View → SAddr → LocMap → LocMap
unfolding at_loc or_empty put_loc remove_if
prune_at v a m = put_loc m a (remove_if (λ e. not (contains v e)) (or_empty (at_loc m a)))

has_loc : LocMap → SAddr → Bool
unfolding at_loc
has_loc m a = elim (at_loc m a) as (λ x. Bool) [ none ↦ false | some es ↦ true ]

-- The walk over the two maps side by side: of the second, `front` is behind the walk and `back` ahead. The
-- entry of a word that is not kept is erased, and the entry of the second map at the same place with it.
walk : View → List SAddr → LocMap → LocMap → LocMap → Option (LocMap × LocMap)
unfolding has_word remove_if prune_at has_loc
walk v keep [] front back = some ([], front ++ back)
walk v keep ((a, es) ∷ m) front back =
    let found = has_loc front (align a) in
    let front' = if found then prune_at v (align a) front else front in
    let back' = if found then back else prune_at v (align a) back in
    let go_on = elim back' as (λ x. Option (LocMap × LocMap)) [
      | [] ↦ none
      | r ∷ rs ↦ walk v keep m (front' ++ r ∷ []) rs >>= λ p.
          some ((a, remove_if (λ e. not (contains v e)) es) ∷ p.0, p.1)
    ] in
    let erase = elim back as (λ x. Option (LocMap × LocMap)) [
      | [] ↦ none
      | r ∷ rs ↦ walk v keep m front rs
    ] in
    if has_word (align a) keep then go_on else erase

unfoldable pub remove_after : ExecutionGraph → View → Option ExecutionGraph
unfolding words_from walk
remove_after g v = walk v (words_from v g.events 0) g.coherence [] g.init_rfs >>= λ p.
    some (record g { coherence = p.0; init_rfs = p.1 })

-- The loop that removes sources of a read while it walks over them: `cells` is the storage of the
-- vector, of which the first `n` are its elements, and the walk goes over the cells there were.
keep_stores : Event → Rfs → Rfs
keep_stores w [] = []
keep_stores w ((x, a) ∷ rfs) = if same x w then keep_stores w rfs else (x, a) ∷ keep_stores w rfs

unfoldable pub prune_loop : View → ℕ → ℕ → Rfs → ℕ → Rfs
unfolding keep_stores
prune_loop v zero i cells n = take n cells
prune_loop v (suc left) i cells n =
    let here = get_elem? cells i in
    elim here as (λ x. Rfs) [
      | none ↦ take n cells
      | some (w, a) ↦
          let kept = keep_stores w (take n cells) in
          let gone = prune_loop v left (suc i) (kept ++ drop (length kept) cells) (length kept) in
          let next = prune_loop v left (suc i) cells n in if contains v w then next else gone
    ]

unfoldable pub prune_rfs : View → Rfs → Rfs
unfolding prune_loop
prune_rfs v rfs = prune_loop v (length rfs) 0 rfs (length rfs)

in_view : View → Option Event → Option Event
in_view v none = none
in_view v (some e) = if contains v e then some e else none

mem_in_view : View → MemAccess → MemAccess
unfolding in_view
mem_in_view v m = record m { alloc = in_view v m.alloc }

-- What the cut does to a label that stays.
unfoldable pub clean : View → Role → Role
unfolding prune_rfs mem_in_view remove_if in_view
clean v (read k m rfs) = read k (mem_in_view v m) (prune_rfs v rfs)
clean v (write k m x at rs) =
    write k (mem_in_view v m) x at (remove_if (λ e. not (contains v e)) rs)
clean v (thread_finish j) = thread_finish (in_view v j)
clean v (free k x a) = free k x (in_view v a)
clean v (malloc x n d ms) = malloc x n (in_view v d) (remove_if (λ e. not (contains v e)) ms)
clean v role = role

clean_first : View → ℕ → List EventLabel → List EventLabel
unfolding clean
clean_first v zero ls = ls
clean_first v (suc n) [] = []
clean_first v (suc n) (l ∷ ls) =
    (record l { role = clean v (EventLabel.role l) }) ∷ clean_first v n ls

-- The threads, cleaned up to the view and cut behind it.
unfoldable pub cut_threads : View → List (List EventLabel) → ℕ → List (List EventLabel)
unfolding clean_first
cut_threads v [] i = []
cut_threads v (thr ∷ thrs) i =
    take (suc (get_max v i)) (if ltb i (size v) then clean_first v (suc (get_max v i)) thr else thr)
    ∷ cut_threads v thrs (suc i)

unfoldable pub cut_to_stamp : ExecutionGraph → ℕ → Option ExecutionGraph
unfolding get_view_from_stamp remove_after cut_threads
cut_to_stamp g st =
    let v = get_view_from_stamp g st in
    remove_after g v >>= λ h. some (record h { events = cut_threads v h.events 0 })

-- `compressStampsAfter`: the labels in the order of the graph, and the next stamp.
unfoldable pub compress_thread : ℕ → ℕ → List EventLabel → List EventLabel × ℕ
compress_thread st next [] = ([], next)
compress_thread st next (l ∷ ls) =
    let above = ltb st (EventLabel.stamp l) in
    let rest = compress_thread st (if above then (next + 1) % 2 ^ 32 else next) ls in
    ((if above then record l { has_stamp = true; stamp = next } else l) ∷ rest.0, rest.1)

unfoldable pub compress_threads : ℕ → ℕ → List (List EventLabel) → List (List EventLabel) × ℕ
unfolding compress_thread
compress_threads st next [] = ([], next)
compress_threads st next (thr ∷ thrs) =
    let here = compress_thread st next thr in
    let rest = compress_threads st here.1 thrs in (here.0 ∷ rest.0, rest.1)

unfoldable pub compress_stamps_after : ExecutionGraph → ℕ → ExecutionGraph
unfolding compress_threads
compress_stamps_after g st =
    let p = compress_threads st ((st + 1) % 2 ^ 32) g.events in
    record g { events = p.0; timestamp = p.1 }
