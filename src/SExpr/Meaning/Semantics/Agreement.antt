-- ===== src/SExpr/Meaning/Semantics/Agreement.antt =====
-- src/SExprVisitor.hpp: the evaluator against what expressions mean.
use rustmc.Prelude.{
  ℕ, ◌≡◌, refl, sym, ap, ◌∙◌, Bool, true, false, ◌&&◌, Option, none, some, ◌>>=◌, if◌then◌else◌,
  Bool-cases, inl, inr, ◌==◌, arith,
}
use rustmc.SVal.{SVal, get_bool, apply, eq, ne}
use rustmc.SVal.Order.{ult-ltb, ule-leb, ugt-ltb, uge-leb, slt-ltℤ, sle-ltℤ, sgt-ltℤ, sge-ltℤ}
use rustmc.SExpr.{
  SExpr, Kids, nil, cons, concrete, register, select, logical, negation, cast, arithmetic,
  comparison, LogicalOp, ArithmeticOp, CmpOp, CastOp,
}
use rustmc.SExpr.Evaluate.{
  Evaluator, VMap, value_or_42, of_bool, apply_arithmetic, apply_cmp, ends, evaluate,
}
use rustmc.SExpr.Meaning.{meaning, meaning_kids}
use rustmc.SExpr.Meaning.Semantics.{
  result, relates, value_of, all_true, any_true, is_plain_op, is_plain, are_plain,
}
use rustmc.SExpr.Meaning.Known.{evaluate-known}
use rustmc.SExpr.Meaning.Values.{evaluate-meaning}

apply_arithmetic-result :
    (op : ArithmeticOp) (a b : SVal)
    → is_plain_op op ≡ true
    → apply_arithmetic op a b ≡ result op a b
unfolding apply_arithmetic apply result is_plain_op
apply_arithmetic-result ArithmeticOp.u_rem a b h = absurd (ground (arith, h))
apply_arithmetic-result ArithmeticOp.s_rem a b h = absurd (ground (arith, h))
apply_arithmetic-result ArithmeticOp.s_div a b h = absurd (ground (arith, h))
apply_arithmetic-result ArithmeticOp.a_shr a b h = absurd (ground (arith, h))
apply_arithmetic-result op a b h = refl

apply_cmp-relates : (op : CmpOp) (a b : SVal) → apply_cmp op a b ≡ relates op a b
unfolding apply_cmp relates eq ne
apply_cmp-relates CmpOp.eq a b = refl
apply_cmp-relates CmpOp.ne a b = refl
apply_cmp-relates CmpOp.ult a b = ult-ltb a b
apply_cmp-relates CmpOp.ule a b = ule-leb a b
apply_cmp-relates CmpOp.ugt a b = ugt-ltb a b
apply_cmp-relates CmpOp.uge a b = uge-leb a b
apply_cmp-relates CmpOp.slt a b = slt-ltℤ a b
apply_cmp-relates CmpOp.sle a b = sle-ltℤ a b
apply_cmp-relates CmpOp.sgt a b = sgt-ltℤ a b
apply_cmp-relates CmpOp.sge a b = sge-ltℤ a b

-- Two computations that begin alike and go on alike.
bind-same :
    (o p : Option SVal) (f g : SVal → Option SVal)
    → o ≡ p
    → ((v : SVal) → f v ≡ g v)
    → (o >>= f) ≡ (p >>= g)
bind-same none p f g e h = ap (λ q. q >>= g) e
bind-same (some v) p f g e h = h v ∙ ap (λ q. q >>= g) e

-- The first kid that decides, or else the answer when none does.
kid_of_all :
    (b : SVal) (o : Bool → Option SVal) (p : Option SVal)
    → o true ≡ p
    → (if ends LogicalOp.conjunction (get_bool b)
        then some (of_bool (get_bool b))
        else o (get_bool b))
      ≡ (if b == 0 then some 0 else p)
unfolding ends get_bool of_bool
kid_of_all b o p e = elim (Bool-cases (b == 0)) [ inl y ↦ rw y refl | inr n ↦ rw n e ]

kid_of_any :
    (b : SVal) (o : Bool → Option SVal) (p : Option SVal)
    → o false ≡ p
    → (if ends LogicalOp.disjunction (get_bool b)
        then some (of_bool (get_bool b))
        else o (get_bool b))
      ≡ (if b == 0 then p else some 1)
unfolding ends get_bool of_bool
kid_of_any b o p e = elim (Bool-cases (b == 0)) [ inl y ↦ rw y e | inr n ↦ rw n refl ]

choice :
    (b : SVal) (x y z w : Option SVal)
    → x ≡ z
    → y ≡ w
    → (if get_bool b then x else y) ≡ (if b == 0 then w else z)
unfolding get_bool
choice b x y z w e f = elim (Bool-cases (b == 0)) [ inl y ↦ rw y f | inr n ↦ rw n e ]

both_left : (a b : Bool) → (a && b) ≡ true → a ≡ true
both_left a b h = ground (arith, h)

both_right : (a b : Bool) → (a && b) ≡ true → b ≡ true
both_right a b h = ground (arith, h)

mutual
  unfolding meaning value_of is_plain of_bool

  meaning-value_of :
      (env : ℕ → Option SVal) (e : SExpr) → is_plain e ≡ true → meaning env e ≡ value_of env e
  meaning-value_of env (concrete w v) h = refl
  meaning-value_of env (register w reg name) h = refl
  meaning-value_of env (select w c t f) h =
      let both = both_right (is_plain c) _ h in
      bind-same _ _ _ _ (meaning-value_of env c (both_left (is_plain c) _ h)) (λ b.
        choice b _ _ _ _ (meaning-value_of env t (both_left (is_plain t) _ both))
          (meaning-value_of env f (both_right (is_plain t) _ both)))
  meaning-value_of env (logical LogicalOp.conjunction e es) h =
      bind-same _ _ _ _ (meaning-value_of env e (both_left (is_plain e) _ h)) (λ b.
        kid_of_all b (λ c. meaning_kids env LogicalOp.conjunction c es) _
          (meaning_kids-all_true env es (both_right (is_plain e) _ h)))
  meaning-value_of env (logical LogicalOp.disjunction e es) h =
      bind-same _ _ _ _ (meaning-value_of env e (both_left (is_plain e) _ h)) (λ b.
        kid_of_any b (λ c. meaning_kids env LogicalOp.disjunction c es) _
          (meaning_kids-any_true env es (both_right (is_plain e) _ h)))
  meaning-value_of env (negation e) h = absurd (ground (arith, h))
  meaning-value_of env (cast CastOp.z_ext w e) h = meaning-value_of env e h
  meaning-value_of env (cast CastOp.trunc w e) h = absurd (ground (arith, h))
  meaning-value_of env (cast CastOp.s_ext w e) h = absurd (ground (arith, h))
  meaning-value_of env (arithmetic op w l r) h =
      let both = both_right (is_plain_op op) _ h in
      bind-same _ _ _ _ (meaning-value_of env l (both_left (is_plain l) _ both)) (λ a.
        bind-same _ _ _ _ (meaning-value_of env r (both_right (is_plain l) _ both))
          (λ b. apply_arithmetic-result op a b (both_left (is_plain_op op) _ h)))
  meaning-value_of env (comparison op l r) h =
      bind-same _ _ _ _ (meaning-value_of env l (both_left (is_plain l) _ h)) (λ a.
        bind-same _ _ _ _ (meaning-value_of env r (both_right (is_plain l) _ h))
          (λ b. ap (λ t. some (if t then 1 else 0)) (apply_cmp-relates op a b)))

  meaning_kids-all_true :
      (env : ℕ → Option SVal) (es : Kids)
      → are_plain es ≡ true
      → meaning_kids env LogicalOp.conjunction true es ≡ all_true env es
  meaning_kids-all_true env nil h = refl
  meaning_kids-all_true env (cons e es) h =
      bind-same _ _ _ _ (meaning-value_of env e (both_left (is_plain e) _ h)) (λ b.
        kid_of_all b (λ c. meaning_kids env LogicalOp.conjunction c es) _
          (meaning_kids-all_true env es (both_right (is_plain e) _ h)))

  meaning_kids-any_true :
      (env : ℕ → Option SVal) (es : Kids)
      → are_plain es ≡ true
      → meaning_kids env LogicalOp.disjunction false es ≡ any_true env es
  meaning_kids-any_true env nil h = refl
  meaning_kids-any_true env (cons e es) h =
      bind-same _ _ _ _ (meaning-value_of env e (both_left (is_plain e) _ h)) (λ b.
        kid_of_any b (λ c. meaning_kids env LogicalOp.disjunction c es) _
          (meaning_kids-any_true env es (both_right (is_plain e) _ h)))

-- For an expression without negations, sign extensions, truncations, remainders, signed quotients and
-- arithmetic right shifts, evaluation by a map answers the value that the expression has in 64-bit
-- arithmetic when a register has the map's value, and 42 when the map lacks it.
pub evaluate-value_of :
    (s : Evaluator) (e : SExpr) (m : VMap)
    → s.brute_force ≡ false
    → is_plain e ≡ true
    → (evaluate s e m >>= λ r. some r.0) ≡ value_of (λ reg. some (value_or_42 (m reg))) e
evaluate-value_of s e m h plain =
    evaluate-meaning s e m h ∙ meaning-value_of (λ reg. some (value_or_42 (m reg))) e plain

-- For an expression without negations, sign extensions, truncations, remainders, signed quotients and
-- arithmetic right shifts, when an evaluation by a map reports no unknown register, its value is the one
-- that the expression has in 64-bit arithmetic under every assignment that extends the map.
pub evaluate_known-value_of :
    (s : Evaluator) (e : SExpr) (m : VMap) (env : ℕ → Option SVal) (w : SVal) (s' : Evaluator)
    → s.brute_force ≡ false
    → is_plain e ≡ true
    → ((reg : ℕ) (a : SVal) → m reg ≡ some a → env reg ≡ some a)
    → evaluate s e m ≡ some (w, 0, s')
    → value_of env e ≡ some w
evaluate_known-value_of s e m env w s' h plain agree run =
    sym (meaning-value_of env e plain) ∙ evaluate-known s e m env w s' h agree run
