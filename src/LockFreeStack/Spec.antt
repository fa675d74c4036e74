-- ===== src/LockFreeStack/Spec.antt =====
-- The contract of the stack: a list of data, with calls that take effect one at a time.
use login_server_chat.Prelude.{assign, ℕ, suc, List, [], ◌∷◌, ◌++◌, Option, none, some, ◌≡◌}
use login_server_chat.LockFreeStack.{Stack, Event, pushed, popped, found_empty, returned, Step}

-- The data, the latest first, and for each thread what its `Pop` is going to return.
pub record Spec : Type 0 where
  pub contents : List ℕ
  pub result : ℕ → Option (Option ℕ)

abbrev pub empty_spec : Spec
empty_spec = record { contents = []; result = λ i. none }

-- The event has its effect on the list: `popped` takes the first, `found_empty` finds none, and
-- `returned` returns what the thread took.
pub data Does : Spec → Event → Spec → Type 0 where
  does_push :
      (p : Spec) (i value : ℕ)
      → Does p (pushed i value) (record p { contents = value ∷ p.contents })
  does_pop :
      (p : Spec) (i value : ℕ) (rest : List ℕ)
      → p.contents ≡ value ∷ rest
      → Does p
          (popped i value)
          (record p { contents = rest; result = assign p.result i (some (some value)) })
  does_find_empty :
      (p : Spec) (i : ℕ)
      → p.contents ≡ []
      → Does p (found_empty i) (record p { result = assign p.result i (some none) })
  does_return :
      (p : Spec) (i : ℕ) (value : Option ℕ)
      → p.result i ≡ some value
      → Does p (returned i value) (record p { result = assign p.result i none })

-- A sequence of events, the first one first.
pub data DoesAll : Spec → List Event → Spec → Type 0 where
  done : (p : Spec) → DoesAll p [] p
  first :
      {p q r : Spec} {e : Event} {es : List Event}
      → Does p e q
      → DoesAll q es r
      → DoesAll p (e ∷ es) r

pub DoesAll-append :
    {p q r : Spec} {es fs : List Event} → DoesAll p es q → DoesAll q fs r → DoesAll p (es ++ fs) r
DoesAll-append (done p) after = after
DoesAll-append (first d ds) after = first d (DoesAll-append ds after)

-- Steps of the threads one after the other, with what they did.
pub data Steps (s : Stack) : List Event → Stack → Type 0 where
  start : Steps s [] s
  step : {t u : Stack} {es fs : List Event} → Steps s es t → Step t fs u → Steps s (es ++ fs) u

abbrev pub pop_count : List Event → ℕ
pop_count [] = 0
pop_count (pushed i value ∷ es) = pop_count es
pop_count (popped i value ∷ es) = suc (pop_count es)
pop_count (found_empty i ∷ es) = pop_count es
pop_count (returned i value ∷ es) = pop_count es
