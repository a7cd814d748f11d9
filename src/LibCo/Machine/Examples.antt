-- ===== src/LibCo/Machine/Examples.antt =====
-- The switches of libco/co-first.c on a list of two coroutines.
use the_code_back_up_in_ubun.Base.{
  ℕ, ◌≡◌, refl, false, none, some, List, [], ◌∷◌, ◌==◌, if◌then◌else◌, arith,
}
use the_code_back_up_in_ubun.LibCo.{State}
use the_code_back_up_in_ubun.LibCo.Choice.{WellFormed}
use the_code_back_up_in_ubun.LibCo.Machine.{Machine, in_function, Control, co_yield}
use the_code_back_up_in_ubun.LibCo.Machine.Good.{Good}
use the_code_back_up_in_ubun.LibCo.Machine.Yields.{Yielded, co_yield_lem}

-- At 10 and 11, with the names a and b.
abbrev pair : ℕ → ℕ → ℕ → State
pair a b current = record {
  name = λ p. if p == 10 then some (b'a' ∷ []) else if p == 11 then some (b'b' ∷ []) else none;
  status = λ p. if p == 10 then a else if p == 11 then b else 0;
  next = λ p. if p == 1 then 10 else if p == 10 then 11 else 0;
  brother = λ p. 0;
  current = current;
}

abbrev nodes : List ℕ
nodes = 10 ∷ 11 ∷ []

pair-WellFormed : (a b current : ℕ) → WellFormed (pair a b current) nodes
pair-WellFormed a b current = record {
  listed = (refl, (omega arith), (refl, (omega arith), refl));
  own = ground arith;
  off_pool = ground arith;
  head_status = refl;
  no_pool = λ p. refl;
  named = ((_, refl), ((_, refl), tt));
  own_names = ground arith;
}

-- Both have a context.
abbrev machine : ℕ → ℕ → ℕ → Machine
machine a b current = record {
  state = pair a b current;
  context = λ p. some (in_function p);
  freed = λ p. false;
}

machine-Good : (a b current : ℕ) → Good (machine a b current) nodes
machine-Good a b current = record {
  listed = pair-WellFormed a b current;
  live = (refl, (refl, tt));
  contexts = ((λ e. (_, refl)), ((λ e. (_, refl)), tt));
}

co_yield_lem_example :
    (q : ℕ) × ((c : Control) × (m' : Machine) × (co_yield 4 7 (in_function 10) (machine 2 1 10)
        ≡ some (c, m'))
      × Yielded (machine 2 1 10) (in_function 10) q c m'
      × Good m' nodes)
co_yield_lem_example =
    co_yield_lem 4 7 0 (in_function 10) (machine 2 1 10) nodes (machine-Good 2 1 10) (omega arith)
      refl (omega arith) (omega arith)
