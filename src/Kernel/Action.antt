-- ===== src/Kernel/Action.antt =====
-- A call in the kernel: it changes the state and returns a value. `none` is a call that does not
-- return, or that goes through a pointer to an object that is gone.
use tp2_so_g.Base.{ℕ, Option, none, some, update, ◌≡◌, arith}
use tp2_so_g.Kernel.{Kernel, Pipe, File}

abbrev pub Action : Type 0 → Type 0
Action A = Kernel → Option (A × Kernel)

abbrev pub pure : {A : Type 0} → A → Action A
pure a k = some (a, k)

infixl 5 ◌>>=◌ ◌>>◌
abbrev pub ◌>>=◌ : {A B : Type 0} → Action A → (A → Action B) → Action B
◌>>=◌ m f k = elim (m k) [ none ↦ none | some (a, k') ↦ f a k' ]

abbrev pub ◌>>◌ : {A B : Type 0} → Action A → Action B → Action B
m >> n = m >>= λ _. n

pub after :
    {A B : Type 0} (m : Action A) (n : Action B) (a : A) (k k' : Kernel)
    → m k ≡ some (a, k')
    → (m >> n) k ≡ n k'
after m n a k k' e = ground arith

abbrev pub gets : {A : Type 0} → (Kernel → A) → Action A
gets f k = some (f k, k)

abbrev pub change : (Kernel → Kernel) → Action (Unit {0})
change f k = some (tt, f k)

-- A call that always returns, and one that returns nothing.
abbrev pub lift : {A : Type 0} → (Kernel → A × Kernel) → Action A
lift f k = some (f k)

abbrev pub try : (Kernel → Option Kernel) → Action (Unit {0})
try f k = elim (f k) [ none ↦ none | some k' ↦ some (tt, k') ]

abbrev pub put_pipe : ℕ → Option Pipe → Kernel → Kernel
put_pipe a p k = record k { pipes = update k.pipes a p }

abbrev pub put_file : ℕ → Option File → Kernel → Kernel
put_file a f k = record k { files = update k.files a f }

-- Through a pointer.
abbrev pub at_pipe : {A : Type 0} → ℕ → (Pipe → Action A) → Action A
at_pipe a body k = elim (k.pipes a) [ none ↦ none | some p ↦ body p k ]

abbrev pub at_file : {A : Type 0} → ℕ → (File → Action A) → Action A
at_file a body k = elim (k.files a) [ none ↦ none | some f ↦ body f k ]
