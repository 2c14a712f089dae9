-- ===== src/SafeList/Heap.antt =====
-- include/safe_list.hpp, `struct listHook`: hooks at addresses, and the commands that read and
-- write them. The library never allocates or frees a hook; an address with no object is a fault.
use fredlib.Base.{ℕ, Option, none, some, ◌==◌, if◌then◌else◌}

abbrev pub Ptr : Type 0
Ptr = ℕ

-- nullptr
abbrev pub null : Ptr
null = 0

pub record ListHook : Type 0 where
  pub prev : Ptr
  pub next : Ptr

abbrev pub hook : Ptr → Ptr → ListHook
hook p n = record { prev = p; next = n }

-- The hook that `listHook`'s member initialisers, `reset` and `unlink` leave.
abbrev pub clean : ListHook
clean = hook null null

abbrev pub Heap : Type 0
Heap = Ptr → Option ListHook

unfoldable pub write : Heap → Ptr → ListHook → Heap
write h p n a = if a == p then some n else h a

-- What an action comes to: a value and the heap it leaves, or a fault, which stands for undefined
-- behaviour of the C++ program.
pub data Outcome {ℓ} (R : Type ℓ) : Type ℓ where
  fault : Outcome R
  ok : R → Heap → Outcome R

module _ {R S : Type 0} where
  -- A fault ends the action that it occurs in.
  abbrev pub proceed : Outcome R → (R → Heap → Outcome S) → Outcome S
  proceed fault next = fault
  proceed (ok r g) next = next r g

abbrev pub Action : Type 0 → Type 0
Action R = (start : Heap) → Outcome R

module _ {R S : Type 0} where
  infixl 5 ◌>>=◌
  abbrev pub ◌>>=◌ : Action R → (R → Action S) → Action S
  first >>= next = λ start. proceed (first start) next

  infixl 5 ◌>>◌
  abbrev pub ◌>>◌ : Action R → Action S → Action S
  first >> next = first >>= λ _. next

abbrev pub pure : {R : Type 0} → R → Action R
pure r start = ok r start

-- `*p`: a fault at `nullptr` and at an address that holds no object.
abbrev read : Option ListHook → Action ListHook
read none start = fault
read (some n) start = ok n start

unfoldable pub load : Ptr → Action ListHook
load p start = if p == null then fault else read (start p) start

-- `p->prev = v` and `p->next = v`
unfoldable pub set_prev : Ptr → Ptr → Action (Unit {0})
set_prev p v = do n ← load p; λ h. ok tt (write h p (record n { prev = v }))

unfoldable pub set_next : Ptr → Ptr → Action (Unit {0})
set_next p v = do n ← load p; λ h. ok tt (write h p (record n { next = v }))

-- `if (p) m;`
unfoldable pub when_set : Ptr → Action (Unit {0}) → Action (Unit {0})
when_set p m = if p == null then pure tt else m
