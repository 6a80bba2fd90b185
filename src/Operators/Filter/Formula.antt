-- ===== src/Operators/Filter/Formula.antt =====
-- The loop of filter.c evaluates a chain from left to right, and a parenthesis as a unit.
use squel.Common.{&&_comm, &&_true, Bool, ap, ok, true, ||_comm, ◌&&◌, ◌||◌, ◌∙◌, ◌≡◌}
use squel.Parser.Syntax.{NodeType, and, or}
use squel.Planner.Plan.{FilterInfo, Filters, comparison, none_left, wrapper}
use squel.Operators.Filter.{
  Operands, combine, evaluate_filter_op, evaluate_filter_ops, evaluate_loop,
}

-- A condition, fully parenthesised.
pub data Formula : Type 0 where
  test : FilterInfo → Formula
  both : Formula → Formula → Formula
  either : Formula → Formula → Formula

abbrev pub truth : (FilterInfo → Bool) → Formula → Bool
truth t (test info) = t info
truth t (both f g) = truth t f && truth t g
truth t (either f g) = truth t f || truth t g

-- The operators for a condition, before those of `rest`: a conjunction or disjunction continues
-- the chain of its left part, and its right part is one comparison or a parenthesis.
mutual
  pub chain : Formula → NodeType → Filters → Filters
  chain (test info) next rest = comparison info next rest
  chain (both f g) next rest = chain f and (operand g next rest)
  chain (either f g) next rest = chain f or (operand g next rest)

  pub operand : Formula → NodeType → Filters → Filters
  operand (test info) next rest = comparison info next rest
  operand (both f g) next rest = wrapper (chain f and (operand g and none_left)) next rest
  operand (either f g) next rest = wrapper (chain f or (operand g and none_left)) next rest

-- Every comparison of the condition gives `t` of it at the operands that `I` admits.
abbrev pub Decided {ℓ} : (FilterInfo → Bool) → (Operands → Type ℓ) → Formula → Type ℓ
Decided t I (test info) =
    (s : Operands) → I s → (s' : Operands) × (evaluate_filter_op info s ≡ ok (t info, s')) × I s'
Decided t I (both f g) = Decided t I f × Decided t I g
Decided t I (either f g) = Decided t I f × Decided t I g

module _ {ℓ} (t : FilterInfo → Bool) (I : Operands → Type ℓ) where
  mutual
    unfolding evaluate_loop chain operand

    evaluate-chain :
        (f : Formula) (next : NodeType) (rest : Filters) (s : Operands)
        → Decided t I f
        → I s
        → (s' : Operands) × (evaluate_loop (chain f next rest) and true s
            ≡ evaluate_loop rest next (truth t f) s')
          × I s'
    evaluate-chain (test info) next rest s d i =
        let (s', run, i') = d s i in (s', rw (run, &&_true), i')
    evaluate-chain (both f g) next rest s d i =
        let (s₁, run₁, i₁) = evaluate-chain f and (operand g next rest) s d.0 i in
        let (s₂, run₂, i₂) =
          evaluate-operand g next rest and (truth t f) s₁ (truth t f && truth t g)
            (ap ok (&&_comm (truth t g) (truth t f))) d.1 i₁ in
        (s₂, run₁ ∙ run₂, i₂)
    evaluate-chain (either f g) next rest s d i =
        let (s₁, run₁, i₁) = evaluate-chain f or (operand g next rest) s d.0 i in
        let (s₂, run₂, i₂) =
          evaluate-operand g next rest or (truth t f) s₁ (truth t f || truth t g)
            (ap ok (||_comm (truth t g) (truth t f))) d.1 i₁ in
        (s₂, run₁ ∙ run₂, i₂)

    evaluate-operand :
        (g : Formula) (next : NodeType) (rest : Filters) (op : NodeType) (value : Bool)
        (s : Operands) (out : Bool)
        → combine op (truth t g) value ≡ ok out
        → Decided t I g
        → I s
        → (s' : Operands) × (evaluate_loop (operand g next rest) op value s
            ≡ evaluate_loop rest next out s')
          × I s'
    evaluate-operand (test info) next rest op value s out e d i =
        let (s', run, i') = d s i in (s', rw (run, e), i')
    evaluate-operand (both f g) next rest op value s out e d i =
        let (s₁, run₁, i₁) = evaluate-chain f and (operand g and none_left) s d.0 i in
        let (s₂, run₂, i₂) =
          evaluate-operand g and none_left and (truth t f) s₁ (truth t f && truth t g)
            (ap ok (&&_comm (truth t g) (truth t f))) d.1 i₁ in
        (s₂, rw (run₁, run₂, e), i₂)
    evaluate-operand (either f g) next rest op value s out e d i =
        let (s₁, run₁, i₁) = evaluate-chain f or (operand g and none_left) s d.0 i in
        let (s₂, run₂, i₂) =
          evaluate-operand g and none_left or (truth t f) s₁ (truth t f || truth t g)
            (ap ok (||_comm (truth t g) (truth t f))) d.1 i₁ in
        (s₂, rw (run₁, run₂, e), i₂)

  -- The evaluation of the operators for a condition gives its truth value, where each comparison in
  -- it is decided at the operands that it may meet, and leads to such operands again.
  pub evaluate_filter_ops-truth :
      (f : Formula) (s : Operands)
      → Decided t I f
      → I s
      → (s' : Operands) × (evaluate_filter_ops (chain f and none_left) s ≡ ok (truth t f, s'))
        × I s'
  unfolding evaluate_filter_ops
  evaluate_filter_ops-truth f s d i = evaluate-chain f and none_left s d i
