-- ===== src/SExpr/Clone.antt =====
-- src/SExpr.hpp: the copies that `clone` makes. A copied arithmetic node is created anew without a
-- width, and so takes that of its left kid; the other classes keep theirs.
use rustmc.Prelude.{◌≡◌, ◌↔◌, refl, sym, ap, ◌∙◌, Bool, true, ◌&&◌, ◌==◌, arith}
use rustmc.SExpr.{
  SExpr, Kids, nil, cons, concrete, register, select, logical, negation, cast, arithmetic,
  comparison, get_width, create_arithmetic,
}

unfoldable mutual
  unfolding create_arithmetic

  pub clone : SExpr → SExpr
  clone (concrete w v) = concrete w v
  clone (register w reg name) = register w reg name
  clone (select w c t f) = select w (clone c) (clone t) (clone f)
  clone (logical op e es) = logical op (clone e) (clone_kids es)
  clone (negation e) = negation (clone e)
  clone (cast op w e) = cast op w (clone e)
  clone (arithmetic op w l r) = create_arithmetic op (clone l) (clone r)
  clone (comparison op l r) = comparison op (clone l) (clone r)

  pub clone_kids : Kids → Kids
  clone_kids nil = nil
  clone_kids (cons e es) = cons (clone e) (clone_kids es)

-- Every arithmetic node has the width of its left kid.
mutual
  unfolding get_width

  pub sized : SExpr → Bool
  sized (concrete w v) = true
  sized (register w reg name) = true
  sized (select w c t f) = sized c && sized t && sized f
  sized (logical op e es) = sized e && sized_kids es
  sized (negation e) = sized e
  sized (cast op w e) = sized e
  sized (arithmetic op w l r) = w == get_width l && sized l && sized r
  sized (comparison op l r) = sized l && sized r

  sized_kids : Kids → Bool
  sized_kids nil = true
  sized_kids (cons e es) = sized e && sized_kids es

mutual
  unfolding clone sized get_width create_arithmetic

  sized-clone : (e : SExpr) → sized (clone e) ≡ true
  sized-clone (concrete w v) = refl
  sized-clone (register w reg name) = refl
  sized-clone (select w c t f) = rw (sized-clone c, sized-clone t, sized-clone f) refl
  sized-clone (logical op e es) = rw (sized-clone e, sized_kids-clone es) refl
  sized-clone (negation e) = sized-clone e
  sized-clone (cast op w e) = sized-clone e
  sized-clone (arithmetic op w l r) = rw (sized-clone l, sized-clone r) (ground arith)
  sized-clone (comparison op l r) = rw (sized-clone l, sized-clone r) refl

  sized_kids-clone : (es : Kids) → sized_kids (clone_kids es) ≡ true
  sized_kids-clone nil = refl
  sized_kids-clone (cons e es) = rw (sized-clone e, sized_kids-clone es) refl

mutual
  unfolding clone sized create_arithmetic

  clone-sized : (e : SExpr) → sized e ≡ true → clone e ≡ e
  clone-sized (concrete w v) h = refl
  clone-sized (register w reg name) h = refl
  clone-sized (select w c t f) h =
      rw
        (
          clone-sized c (ground (arith, h)),
          clone-sized t (ground (arith, h)),
          clone-sized f (ground (arith, h)),
        )
        refl
  clone-sized (logical op e es) h =
      rw (clone-sized e (ground (arith, h)), clone_kids-sized es (ground (arith, h))) refl
  clone-sized (negation e) h = ap negation (clone-sized e h)
  clone-sized (cast op w e) h = ap (cast op w) (clone-sized e h)
  clone-sized (arithmetic op w l r) h =
      let width : get_width l ≡ w = ground (arith, h) in
      rw (clone-sized l (ground (arith, h)), clone-sized r (ground (arith, h)), width) refl
  clone-sized (comparison op l r) h =
      rw (clone-sized l (ground (arith, h)), clone-sized r (ground (arith, h))) refl

  clone_kids-sized : (es : Kids) → sized_kids es ≡ true → clone_kids es ≡ es
  clone_kids-sized nil h = refl
  clone_kids-sized (cons e es) h =
      rw (clone-sized e (ground (arith, h)), clone_kids-sized es (ground (arith, h))) refl

-- A copy is equal to its original exactly when every arithmetic node of the original has the width of
-- its left kid.
pub clone-sized_iff : (e : SExpr) → (clone e ≡ e) ↔ (sized e ≡ true)
clone-sized_iff e = (λ h. ap sized (sym h) ∙ sized-clone e, clone-sized e)

-- A copy of a copy is the copy.
clone-clone : (e : SExpr) → clone (clone e) ≡ clone e
clone-clone e = clone-sized (clone e) (sized-clone e)
