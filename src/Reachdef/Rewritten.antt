-- ===== src/Reachdef/Rewritten.antt =====
-- The copy that `rewritten` makes changes what is read, and nothing else.
use sast_engine.Prelude.{
  ℕ, zero, suc, ◌+◌, ◌≡◌, refl, some, List, [], ◌∷◌, ◌++◌, length, get_elem?, arith,
}
use sast_engine.Ir.{Flow, Arg, Call, Function}
use sast_engine.Reachdef.Split.{Rewrites, or_keep, rewritten_args}

some_eq : {A : Type 0} {x y : A} → some x ≡ some y → x ≡ y
some_eq h = cc

arg_at :
    (s : Rewrites) (m n i k : ℕ) (xs : List Arg) (x : Arg)
    → n + i ≡ k
    → get_elem? xs i ≡ some x
    → get_elem? (rewritten_args s m n xs) i
      ≡ some (record x { value_id = or_keep (s.call_arg m k) x.value_id })
unfolding rewritten_args
arg_at s m n i k [] x e a = cc
arg_at s m n zero k (y ∷ xs) x e a =
    let q : n ≡ k = omega arith in let y_x = some_eq a in rw (q, y_x) refl
arg_at s m n (suc i) k (y ∷ xs) x e a = arg_at s m (n + 1) i k xs x (omega arith) a

-- How a rewritten copy stands to its function.
pub record Copies (fn : Function) (s : Rewrites) (out : Function) : Type 0 where
  pub others : out ≡ record fn { values = out.values; flows = out.flows; calls = out.calls }
  pub values : out.values ≡ fn.values ++ s.new_vals
  pub flow_count : length out.flows ≡ length fn.flows + length s.added
  pub flows :
      (i : ℕ) (f : Flow)
      → get_elem? fn.flows i ≡ some f
      → get_elem? out.flows i ≡ some (record f { from = or_keep (s.flow_from i) f.from })
  pub added :
      (i : ℕ) (f : Flow)
      → get_elem? s.added i ≡ some f
      → get_elem? out.flows (length fn.flows + i) ≡ some f
  pub call_count : length out.calls ≡ length fn.calls
  pub calls :
      (i : ℕ) (c : Call)
      → get_elem? fn.calls i ≡ some c
      → get_elem? out.calls i
        ≡ some (record c {
          receiver_id = or_keep (s.receiver i) c.receiver_id;
          args = rewritten_args s i 0 c.args;
        })
  pub arguments :
      (i j : ℕ) (c : Call) (x : Arg)
      → get_elem? fn.calls i ≡ some c
      → get_elem? c.args j ≡ some x
      → get_elem? (rewritten_args s i 0 c.args) j
        ≡ some (record x { value_id = or_keep (s.call_arg i j) x.value_id })
