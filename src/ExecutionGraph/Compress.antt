-- ===== src/ExecutionGraph/Compress.antt =====
-- src/ExecutionGraph.cpp: the new stamps of `compressStampsAfter`.
use rustmc.Prelude.{
  ℕ, zero, suc, ◌+◌, ◌%◌, ◌^◌, ◌<◌, ◌≡◌, refl, sym, ap, subst, ◌∙◌, Bool-cases, inl, inr, List, [],
  ◌∷◌, ◌++◌, map, ltb, lt→ltb, if◌then◌else◌, length, arith, length-append,
}
use rustmc.EventLabel.{EventLabel}
use rustmc.ExecutionGraph.{ExecutionGraph}
use rustmc.ExecutionGraph.Cut.{compress_thread, compress_threads, compress_stamps_after}

unfoldable pub stamps_in : List EventLabel → List ℕ
stamps_in ls = map EventLabel.stamp ls

-- The stamps of a graph, in the order of its labels.
unfoldable pub stamps : List (List EventLabel) → List ℕ
unfolding stamps_in
stamps [] = []
stamps (thr ∷ thrs) = stamps_in thr ++ stamps thrs

unfoldable pub above : ℕ → List ℕ → List ℕ
above st [] = []
above st (x ∷ xs) = if ltb st x then x ∷ above st xs else above st xs

unfoldable pub up_to : ℕ → List ℕ → List ℕ
up_to st [] = []
up_to st (x ∷ xs) = if ltb st x then up_to st xs else x ∷ up_to st xs

unfoldable pub numbers_from : ℕ → ℕ → List ℕ
numbers_from first zero = []
numbers_from first (suc n) = first ∷ numbers_from (suc first) n

above-append : (st : ℕ) (xs ys : List ℕ) → above st (xs ++ ys) ≡ above st xs ++ above st ys
unfolding above
above-append st [] ys = refl
above-append st (x ∷ xs) ys = ground (arith, above-append st xs ys)

up_to-append : (st : ℕ) (xs ys : List ℕ) → up_to st (xs ++ ys) ≡ up_to st xs ++ up_to st ys
unfolding up_to
up_to-append st [] ys = refl
up_to-append st (x ∷ xs) ys = ground (arith, up_to-append st xs ys)

numbers_from-append :
    (a m n : ℕ) → numbers_from a m ++ numbers_from (a + m) n ≡ numbers_from a (m + n)
unfolding numbers_from
numbers_from-append a zero n =
    let here : a + 0 ≡ a = omega arith in
    let rest : n ≡ 0 + n = omega arith in ap (λ u. numbers_from u n) here ∙ ap (numbers_from a) rest
numbers_from-append a (suc m) n =
    let here : a + suc m ≡ suc a + m = omega arith in
    let rest : suc (m + n) ≡ suc m + n = omega arith in
    ap (λ u. a ∷ (numbers_from (suc a) m ++ numbers_from u n)) here
    ∙ ap (λ u. a ∷ u) (numbers_from-append (suc a) m n)
    ∙ ap (numbers_from a) rest

abbrev count_above : ℕ → List ℕ → ℕ
count_above st xs = length (above st xs)

-- The labels above the stamp are numbered from `next` on, and the others keep their stamps.
abbrev IsCompressed : ℕ → ℕ → List ℕ → List ℕ × ℕ → Type 0
IsCompressed st next old (new, after) =
    (after ≡ next + count_above st old)
    × (above st new ≡ numbers_from next (count_above st old))
    × (up_to st new ≡ up_to st old)

compress_thread-IsCompressed :
    (st next : ℕ) (ls : List EventLabel)
    → st < next
    → next + count_above st (stamps_in ls) < 2 ^ 32
    → IsCompressed st next
        (stamps_in ls)
        (stamps_in (compress_thread st next ls).0, (compress_thread st next ls).1)
unfolding compress_thread stamps_in above up_to numbers_from
compress_thread-IsCompressed st next [] h b = (omega arith, refl, refl)
compress_thread-IsCompressed st next (l ∷ ls) h b = elim (Bool-cases (ltb st l.stamp)) [
  | inl y ↦
      let room : next + suc (count_above st (stamps_in ls)) < 2 ^ 32 = rw y at b in
      let following : (next + 1) % 2 ^ 32 ≡ suc next = omega (arith, room) in
      let ih =
        compress_thread-IsCompressed st ((next + 1) % 2 ^ 32) ls (omega (arith, following, h))
          (omega (arith, following, room)) in
      rw y (
        omega (arith, ih.0, following),
        rw (lt→ltb st next h) (
            ap (λ u. next ∷ u)
              (ih.1 ∙ ap (λ u. numbers_from u (count_above st (stamps_in ls))) following)),
        rw (lt→ltb st next h) ih.2,
      )
  | inr n ↦
      let room : next + count_above st (stamps_in ls) < 2 ^ 32 = rw n at b in
      let ih = compress_thread-IsCompressed st next ls h room in
      rw n (ih.0, rw n ih.1, rw n (ap (λ u. l.stamp ∷ u) ih.2))
]

count_above-append :
    (st : ℕ) (xs ys : List ℕ) → count_above st (xs ++ ys) ≡ count_above st xs + count_above st ys
count_above-append st xs ys =
    ap length (above-append st xs ys) ∙ length-append (above st xs) (above st ys)

compress_threads-IsCompressed :
    (st next : ℕ) (thrs : List (List EventLabel))
    → st < next
    → next + count_above st (stamps thrs) < 2 ^ 32
    → IsCompressed st next
        (stamps thrs)
        (stamps (compress_threads st next thrs).0, (compress_threads st next thrs).1)
unfolding compress_threads stamps
compress_threads-IsCompressed st next [] h b =
    let none_above : count_above st [] ≡ 0 = unfold above in refl in
    (omega (arith, none_above), unfold above numbers_from in refl, refl)
compress_threads-IsCompressed st next (thr ∷ thrs) h b =
    let counts = count_above-append st (stamps_in thr) (stamps thrs) in
    let p = compress_thread st next thr in
    let here = compress_thread-IsCompressed st next thr h (omega (arith, b, counts)) in
    let q = compress_threads st p.1 thrs in
    let rest =
      compress_threads-IsCompressed st p.1 thrs (omega (arith, here.0, h))
        (omega (arith, b, counts, here.0)) in
    let m = count_above st (stamps_in thr) in
    let n = count_above st (stamps thrs) in
    (
      omega (arith, here.0, rest.0, counts),
      above-append st (stamps_in p.0) (stamps q.0)
          ∙ ap (λ u. u ++ above st (stamps q.0)) here.1
          ∙ ap (λ u. numbers_from next m ++ u) (rest.1 ∙ ap (λ u. numbers_from u n) here.0)
          ∙ numbers_from-append next m n
          ∙ ap (numbers_from next) (sym counts),
      up_to-append st (stamps_in p.0) (stamps q.0)
          ∙ ap (λ u. u ++ up_to st (stamps q.0)) here.2
          ∙ ap (λ u. up_to st (stamps_in thr) ++ u) rest.2
          ∙ sym (up_to-append st (stamps_in thr) (stamps thrs)),
    )

-- When the stamps that are needed fit 32 bits, `compressStampsAfter` leaves the stamps up to the given one as
-- they are, and numbers the labels with a greater stamp, in the order of the graph, by consecutive
-- stamps from the next one on; the counter is then just behind the last of them.
pub compress_stamps_after-IsCompressed :
    (g : ExecutionGraph) (st : ℕ)
    → st + 1 + count_above st (stamps g.events) < 2 ^ 32
    → (ExecutionGraph.timestamp (compress_stamps_after g st)
        ≡ st + 1 + count_above st (stamps g.events))
      × (above st (stamps (ExecutionGraph.events (compress_stamps_after g st)))
          ≡ numbers_from (st + 1) (count_above st (stamps g.events)))
      × (up_to st (stamps (ExecutionGraph.events (compress_stamps_after g st)))
          ≡ up_to st (stamps g.events))
unfolding compress_stamps_after
compress_stamps_after-IsCompressed g st b =
    let fits : (st + 1) % 2 ^ 32 ≡ st + 1 = omega (arith, b) in
    subst
      (λ u.
        IsCompressed st (st + 1) (stamps g.events)
          (stamps (compress_threads st u g.events).0, (compress_threads st u g.events).1))
      (sym fits) (compress_threads-IsCompressed st (st + 1) g.events (omega arith) b)
