-- ===== src/Pub/Links.antt =====
-- Sessions and what they wait for in src/hp_pub.c: `hp_sub_t`, its list, and the `hp_sub_async_t` that the
-- owed callbacks will be given.
use libhp.Common.{
  ℕ, ◌≤◌, ◌≡◌, refl, ap, Bool, true, false, Option, none, some, List, [], ◌∷◌, ◌++◌, arith, ◌==◌,
  if◌then◌else◌,
}
use libhp.Pub.{Sub, Pending, Pub}
use libhp.Pub.Replies.{list_del}

abbrev pub has : ℕ → List ℕ → Bool
has a [] = false
has a (b ∷ bs) = if a == b then true else has a bs

abbrev pub Distinct : List ℕ → Type 0
Distinct [] = Unit
Distinct (a ∷ rest) = (has a rest ≡ false) × Distinct rest

abbrev pub privs : List Pending → List ℕ
privs [] = []
privs (p ∷ ps) = p.privdata ∷ privs ps

-- An owed callback's memory: cut off from a session that is gone, or in the list of its session.
pub data Waits (subs : ℕ → Option Sub) (a : ℕ) : Option (Option ℕ) → Type 0 where
  cut_off : Waits subs a (some none)
  listed :
      (d : ℕ) (x : Sub) → subs d ≡ some x → has a x.async_list ≡ true → Waits subs a (some (some d))

-- `run` is what the callbacks that are running have been given.
pub record Links (run : List ℕ) (subs : ℕ → Option Sub) (asyncs : ℕ → Option (Option ℕ)) (next : ℕ)
    (attached : ℕ → Option ℕ) (pending : List Pending) : Type 0 where
  pub fresh_async : (a : ℕ) → next ≤ a → asyncs a ≡ none
  pub fresh_sub : (d : ℕ) → next ≤ d → subs d ≡ none
  pub owned :
      (d : ℕ) (x : Sub) (a : ℕ)
      → subs d ≡ some x
      → has a x.async_list ≡ true
      → asyncs a ≡ some (some d)
  pub waits : (a : ℕ) → has a (run ++ privs pending) ≡ true → Waits subs a (asyncs a)
  pub distinct : Distinct (run ++ privs pending)
  pub alive : (ctx d : ℕ) → attached ctx ≡ some d → (x : Sub) × (subs d ≡ some x)
  pub home : (d : ℕ) (x : Sub) → subs d ≡ some x → attached x.subc ≡ some d
  pub single : (c c' d : ℕ) → attached c ≡ some d → attached c' ≡ some d → c ≡ c'

abbrev pub Linked : {W : Type 0} → List ℕ → Pub W → Type 0
Linked run s = Links run s.subs s.asyncs s.next s.attached s.pending

pub has-append : (a : ℕ) (xs ys : List ℕ) → has a (xs ++ ys) ≡ (if has a xs then true else has a ys)
has-append a [] ys = refl
has-append a (x ∷ xs) ys = ground (arith, has-append a xs ys)

pub has-list_del :
    (a b : ℕ) (xs : List ℕ) → has b (list_del a xs) ≡ (if a == b then false else has b xs)
unfolding list_del
has-list_del a b [] = ground arith
has-list_del a b (x ∷ xs) = ground (arith, has-list_del a b xs)

pub privs-append : (xs ys : List Pending) → privs (xs ++ ys) ≡ privs xs ++ privs ys
privs-append [] ys = refl
privs-append (x ∷ xs) ys = ap (λ zs. x.privdata ∷ zs) (privs-append xs ys)

pub Distinct-snoc : (a : ℕ) (xs : List ℕ) → Distinct xs → has a xs ≡ false → Distinct (xs ++ a ∷ [])
Distinct-snoc a [] h f = (refl, tt)
Distinct-snoc a (x ∷ xs) (new, more) f =
    (ground (arith, has-append x xs (a ∷ [])), Distinct-snoc a xs more (ground arith))

-- The one in the middle is not among the others.
pub Distinct-middle :
    (xs : List ℕ) (a : ℕ) (ys : List ℕ)
    → Distinct (xs ++ a ∷ ys)
    → (has a (xs ++ ys) ≡ false) × Distinct (xs ++ ys)
Distinct-middle [] a ys (new, more) = (new, more)
Distinct-middle (x ∷ xs) a ys (new, more) =
    let (h, rest) = Distinct-middle xs a ys more in
    (
      ground (arith, has-append x xs (a ∷ ys)),
      (ground (arith, has-append x xs (a ∷ ys), has-append x xs ys), rest),
    )

pub has-middle :
    (b : ℕ) (xs : List ℕ) (a : ℕ) (ys : List ℕ) → has b (a ∷ (xs ++ ys)) ≡ has b (xs ++ a ∷ ys)
has-middle b xs a ys = ground (arith, has-append b xs ys, has-append b xs (a ∷ ys))
