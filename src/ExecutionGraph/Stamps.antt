-- ===== src/ExecutionGraph/Stamps.antt =====
-- src/ExecutionGraph.cpp: the view of the events up to a stamp.
use mathlib.Core.Option.{none-ne-some, some-injective}
use rustmc.Prelude.{
  ◌==◌, ◌||◌, Bool, ℕ, zero, suc, ◌+◌, ◌≤◌, ◌<◌, ◌≡◌, refl, sym, ap, subst, ◌∙◌, Bool, false,
  Option-cases, trichotomy, inl, inr, List, [], ◌∷◌, Option, none, some, leb, ◌==◌, if◌then◌else◌,
  length, get_elem?, get_or, arith,
}
use rustmc.Event.{Event}
use rustmc.View.{View, empty_view, get_max, set_max, contains}
use rustmc.View.Laws.{get_max-set_max, get_max-get_or}
use rustmc.EventLabel.{EventLabel}
use rustmc.ExecutionGraph.{ExecutionGraph, get_event_label, thread_at}
use rustmc.ExecutionGraph.Cut.{scan_back, view_from, get_view_from_stamp}

-- Stamps do not decrease along a thread.
abbrev pub IsIncreasing : List EventLabel → Type 0
IsIncreasing thr =
    (i j : ℕ) (k l : EventLabel)
    → i ≤ j
    → get_elem? thr i ≡ some k
    → get_elem? thr j ≡ some l
    → k.stamp ≤ l.stamp

get_elem?-some {ℓ} :
    {A : Type ℓ} (xs : List A) (i : ℕ) → i < length xs → (a : A) × (get_elem? xs i ≡ some a)
get_elem?-some [] i h = elim h [ ]
get_elem?-some (x ∷ xs) zero h = (x, refl)
get_elem?-some (x ∷ xs) (suc i) h = get_elem?-some xs i (omega arith)

get_elem?-lt {ℓ} :
    {A : Type ℓ} (xs : List A) (i : ℕ) (a : A) → get_elem? xs i ≡ some a → i < length xs
get_elem?-lt [] i a h = absurd (none-ne-some _ h)
get_elem?-lt (x ∷ xs) zero a h = omega arith
get_elem?-lt (x ∷ xs) (suc i) a h = omega (arith, get_elem?-lt xs i a h)

abbrev is_up_to : ℕ → Option ℕ → Bool
is_up_to i none = false
is_up_to i (some j) = leb i j

scan_step :
    (st : ℕ) (thr : List EventLabel) (j : ℕ) (m : EventLabel)
    → get_elem? thr j ≡ some m
    → scan_back st thr (suc j) ≡ (if leb m.stamp st then some j else scan_back st thr j)
unfolding scan_back
scan_step st thr j m e = rw (e, scan_back) refl

scan_end :
    (st : ℕ) (thr : List EventLabel) (j : ℕ)
    → get_elem? thr j ≡ none
    → scan_back st thr (suc j) ≡ none
unfolding scan_back
scan_end st thr j e = rw (e, scan_back) refl

scan_back-lt :
    (st : ℕ) (thr : List EventLabel) (k i : ℕ) → k ≤ i → is_up_to i (scan_back st thr k) ≡ false
unfolding scan_back
scan_back-lt st thr zero i h = refl
scan_back-lt st thr (suc j) i h = elim (Option-cases (get_elem? thr j)) [
  | inl n ↦ ap (is_up_to i) (scan_end st thr j n)
  | inr p ↦ ground (arith, h, scan_step st thr j p.0 p.1, scan_back-lt st thr j i)
]

scan_back-up_to :
    (st : ℕ) (thr : List EventLabel) (k i : ℕ) (l : EventLabel)
    → IsIncreasing thr
    → k ≤ length thr
    → i < k
    → get_elem? thr i ≡ some l
    → is_up_to i (scan_back st thr k) ≡ leb l.stamp st
scan_back-up_to st thr zero i l up h b e = absurd (omega (arith, b))
scan_back-up_to st thr (suc j) i l up h b e =
    let (m, at) = get_elem?-some thr j (omega (arith, h)) in
    let step = scan_step st thr j m at in
    elim (trichotomy i j) [
      | inl lt ↦ ground (
        arith,
        step,
        lt,
        up i j l m (omega (arith, b)) e at,
        scan_back-up_to st thr j i l up (omega (arith, h)) lt e,
      )
      | inr (inl eq) ↦
          let same_label : l ≡ m =
            some-injective _ _ (sym e ∙ subst (λ u. get_elem? thr u ≡ some m) (sym eq) at) in
          ground (arith, step, eq, ap EventLabel.stamp same_label, scan_back-lt st thr j i)
      | inr (inr gt) ↦ absurd (omega (arith, gt, b))
    ]

-- What the scan of a thread makes of its entry in the view.
abbrev entry : Option ℕ → ℕ → ℕ
entry none d = d
entry (some j) d = j

abbrev put_entry : View → ℕ → Option ℕ → View
put_entry v i none = v
put_entry v i (some j) = set_max v (record { thread = i; index = j })

put_entry-max :
    (v : View) (i t : ℕ) (o : Option ℕ)
    → get_max (put_entry v i o) t ≡ (if t == i then entry o (get_max v t) else get_max v t)
put_entry-max v i t none = ground arith
put_entry-max v i t (some j) = get_max-set_max v (record { thread = i; index = j }) t

view_step :
    (st : ℕ) (thr : List EventLabel) (thrs : List (List EventLabel)) (i : ℕ) (v : View)
    → view_from st (thr ∷ thrs) i v
      ≡ view_from st thrs (suc i) (put_entry v i (scan_back st thr (length thr)))
unfolding view_from
view_step st thr thrs i v = ground arith

view_from-behind :
    (st : ℕ) (thrs : List (List EventLabel)) (i t : ℕ) (v : View)
    → t < i
    → get_max (view_from st thrs i v) t ≡ get_max v t
unfolding view_from
view_from-behind st [] i t v h = refl
view_from-behind st (thr ∷ thrs) i t v h =
    ap (λ w. get_max w t) (view_step st thr thrs i v)
    ∙ view_from-behind st thrs (suc i) t (put_entry v i (scan_back st thr (length thr)))
        (omega arith)
    ∙ ground (arith, h, put_entry-max v i t (scan_back st thr (length thr)))

view_from-at :
    (st : ℕ) (thrs : List (List EventLabel)) (i j t : ℕ) (v : View) (thr : List EventLabel)
    → t ≡ i + j
    → get_elem? thrs j ≡ some thr
    → get_max (view_from st thrs i v) t ≡ entry (scan_back st thr (length thr)) (get_max v t)
view_from-at st [] i j t v thr q e = absurd (none-ne-some _ e)
view_from-at st (x ∷ thrs) i zero t v thr q e =
    let first : get_max (view_from st (x ∷ thrs) i v) t
        ≡ entry (scan_back st x (length x)) (get_max v t) =
      ap (λ w. get_max w t) (view_step st x thrs i v)
      ∙ view_from-behind st thrs (suc i) t (put_entry v i (scan_back st x (length x)))
          (omega (arith, q))
      ∙ ground (arith, q, put_entry-max v i t (scan_back st x (length x))) in
    subst
      (λ u.
        get_max (view_from st (x ∷ thrs) i v) t ≡ entry (scan_back st u (length u)) (get_max v t))
      (some-injective _ _ e) first
view_from-at st (x ∷ thrs) i (suc j) t v thr q e =
    let kept : get_max (put_entry v i (scan_back st x (length x))) t ≡ get_max v t =
      ground (arith, q, put_entry-max v i t (scan_back st x (length x))) in
    ap (λ w. get_max w t) (view_step st x thrs i v)
    ∙ view_from-at st thrs (suc i) j t (put_entry v i (scan_back st x (length x))) thr
        (omega (arith, q)) e
    ∙ ap (entry (scan_back st thr (length thr))) kept

thread_found :
    (thrs : List (List EventLabel)) (t i : ℕ) (l : EventLabel)
    → get_elem? (get_or thrs t []) i ≡ some l
    → get_elem? thrs t ≡ some (get_or thrs t [])
thread_found [] t i l e = absurd (none-ne-some _ e)
thread_found (x ∷ thrs) zero i l e = refl
thread_found (x ∷ thrs) (suc t) i l e = thread_found thrs t i l e

entry_up_to : (o : Option ℕ) (i : ℕ) → leb i (entry o 0) ≡ (i == 0 || is_up_to i o)
entry_up_to none i = ground arith
entry_up_to (some j) i = ground arith

-- When stamps do not decrease along the thread of an event, the view that `getViewFromStamp` gives contains
-- the event exactly when its stamp is not greater than the given one, or it is the first of its thread,
-- which every view contains.
pub get_view_from_stamp-contains :
    (g : ExecutionGraph) (st : ℕ) (e : Event) (l : EventLabel)
    → IsIncreasing (thread_at g e.thread)
    → get_event_label g e ≡ some l
    → contains (get_view_from_stamp g st) e ≡ (e.index == 0 || leb l.stamp st)
unfolding contains get_view_from_stamp get_event_label
get_view_from_stamp-contains g st e l up at =
    let thr = thread_at g e.thread in
    let max =
      view_from-at st g.events 0 e.thread e.thread empty_view thr (omega arith)
        (thread_found g.events e.thread e.index l at) in
    let zero_before : get_max empty_view e.thread ≡ 0 = get_max-get_or empty_view e.thread in
    ap (leb e.index) (max ∙ ap (entry (scan_back st thr (length thr))) zero_before)
    ∙ entry_up_to (scan_back st thr (length thr)) e.index
    ∙ ap (λ b. e.index == 0 || b)
        (scan_back-up_to st thr (length thr) e.index l up (omega arith)
          (get_elem?-lt thr e.index l at) at)
