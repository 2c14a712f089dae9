-- ===== src/SafeList/View.antt =====
-- What a `SafeList` stands for: the sequence of the hooks that are linked in it.
use fredlib.Base.{
  ◌%◌, ◌≡◌, refl, ap, Bool, true, false, some, List, [], ◌∷◌, ◌++◌, arith, has, Distinct, first_or,
  last_or, length,
}
use fredlib.SafeList.Heap.{Ptr, null, clean, ListHook, Heap}
use fredlib.SafeList.Ops.{SafeList, new_list, u32_mod, is_empty}
use fredlib.SafeList.Chain.{Seg}

abbrev pub is_nil : List Ptr → Bool
is_nil [] = true
is_nil (x ∷ xs) = false

-- `l` is a well-formed list of the hooks `xs`, in this order. `awake`: no thread sleeps on the
-- condition variable while there is an element.
pub record IsList (h : Heap) (l : SafeList) (xs : List Ptr) : Type 0 where
  pub chain : Seg h null xs null
  pub distinct : Distinct xs
  pub head : l.head ≡ first_or null xs
  pub tail : l.tail ≡ last_or null xs
  pub size : l.size ≡ length xs % u32_mod
  pub awake : is_nil xs ≡ false → l.asleep ≡ []

-- Every hook outside the list is unlinked, as `listHook` is initialised and as `unlink` leaves it.
abbrev pub RestClean : Heap → List Ptr → Type 0
RestClean h xs = (p : Ptr) (n : ListHook) → h p ≡ some n → has p xs ≡ false → n ≡ clean

-- The test of the code is the emptiness of the sequence.
pub is_empty-is_nil :
    (h : Heap) (l : SafeList) (xs : List Ptr) → IsList h l xs → is_empty l ≡ is_nil xs
unfolding is_empty
is_empty-is_nil h l [] is = ground arith
is_empty-is_nil h l (x ∷ xs) is = ground arith

pub new_list-IsList : (h : Heap) → IsList h new_list []
new_list-IsList h = record {
  chain = tt;
  distinct = tt;
  head = refl;
  tail = refl;
  size = refl;
  awake = λ e. refl;
}

-- A non-empty list ends with its last element.
pub snoc_view :
    (x : Ptr) (xs : List Ptr) → (front : List Ptr) × (x ∷ xs ≡ front ++ last_or x xs ∷ [])
snoc_view x [] = ([], refl)
snoc_view x (y ∷ ys) =
    let (front, e) = snoc_view y ys in (x ∷ front, ap {B = List Ptr} (λ r. x ∷ r) e)
