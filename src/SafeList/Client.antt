-- ===== src/SafeList/Client.antt =====
-- What a client of include/safe_list.hpp's `SafeList` relies on: each call keeps a world of hooks and
-- does what the sequence says.
use fredlib.Base.{
  ℕ, ◌%◌, ◌≡◌, refl, Bool, true, false, List, [], ◌∷◌, ◌++◌, arith, has, has-append, length,
}
use fredlib.SafeList.Heap.{Ptr, Heap}
use fredlib.SafeList.Returns
use fredlib.SafeList.Returns.{Returns, returns}
use fredlib.SafeList.Ops.{SafeList, popped, u32_mod, push_back, pop_front, size}
use fredlib.SafeList.World.{World, World-grown, World-Shrunk}
use fredlib.SafeList.Push.{push_back-snoc}
use fredlib.SafeList.Remove.{pop_front-first}

pub push_back-World :
    (pool : List Ptr) (h : Heap) (l : SafeList) (xs : List Ptr) (new : Ptr)
    → World pool h l xs
    → has new pool ≡ true
    → has new xs ≡ false
    → Returns (λ (b, l') g. World pool g l' (xs ++ new ∷ [])) (push_back new l h)
push_back-World pool h l xs new w i f =
    let (n, at) = w.alive new i in
    Returns.weaken (push_back-snoc h l new n at xs w.view f (λ _. w.rest new n at.holds f))
      λ (b, l') g (e, view, same).
        World-grown pool h l xs w (xs ++ new ∷ []) g l' view same
          (λ p o. ground (arith, has-append p xs (new ∷ [])))

pub pop_front-World :
    (pool : List Ptr) (h : Heap) (l : SafeList) (x : Ptr) (xs : List Ptr) (thread timeout : ℕ)
    (expired : Bool)
    → World pool h l (x ∷ xs)
    → Returns
        (λ (r, l') g. (r ≡ popped x) × World pool g l' xs)
        (pop_front thread timeout expired l h)
pop_front-World pool h l x xs thread timeout expired w =
    Returns.weaken (pop_front-first h l thread timeout expired x xs w.view)
      λ (r, l') g (e, s). (e, World-Shrunk pool h l (x ∷ xs) w [] x xs g l' refl s)

pub size-World :
    (pool : List Ptr) (h : Heap) (l : SafeList) (xs : List Ptr)
    → World pool h l xs
    → size l ≡ length xs % u32_mod
unfolding size
size-World pool h l xs w = w.view.size
