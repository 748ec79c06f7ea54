-- ===== src/Pub/History.antt =====
-- What a session of src/hp_pub.c is told of the messages that it has missed.
use libhp.Common.{ℕ, zero, suc, ◌≡◌, Bool, true, false, some, List, [], ◌∷◌, ◌++◌, map, Bytes}
use mathlib.Core.List.{Permᴰ}
use libhp.Common.Int.{ℤ, pos, negsuc}
use libhp.Pub.{Heard, message, Pub, Item, Env}
use libhp.Pub.Replies.{comp}

-- A message as the callback gets it; its topic is not NULL.
abbrev pub heard_of : Item → Bytes → Heard
heard_of i topic = message topic i.id i.msg

abbrev pub HasTopics : List Item → List Heard → Type 0
HasTopics [] [] = Unit
HasTopics [] (h ∷ hs) = ⊥
HasTopics (i ∷ is) [] = ⊥
HasTopics (i ∷ is) (h ∷ hs) =
    ((topic : Bytes) × (i.topic ≡ some topic) × (h ≡ heard_of i topic)) × HasTopics is hs

abbrev HasTopic : Item → Type 0
HasTopic i = (t : Bytes) × (i.topic ≡ some t)

-- a <= 0
abbrev pub is_nonpositive : ℤ → Bool
is_nonpositive (pos zero) = true
is_nonpositive (pos (suc n)) = false
is_nonpositive (negsuc n) = true

module _ {W : Type 0} (env : Env W) where
  -- No id is above the next one.
  abbrev pub InOrder : List Bytes → Type 0
  InOrder [] = Unit
  InOrder (x ∷ []) = Unit
  InOrder (x ∷ y ∷ ys) = (is_nonpositive (env.sdscmp x y) ≡ true) × InOrder (y ∷ ys)

  -- qsort puts the elements in order, and neither loses nor doubles one.
  pub record Sorts (items : List Item) : Type 0 where
    pub same : Permᴰ items (env.qsort (comp env) items)
    pub ordered : InOrder (map (λ i. i.id) (env.qsort (comp env) items))

  -- The client's callback calls nothing of the library.
  pub record IsSilent : Type 0 where
    pub silent :
        (f d : ℕ) (topic id msg : Bytes) (w : W) → (env.on_message f d topic id msg w).1 ≡ []

  -- What telling does not change
  pub record Told (s s' : Pub W) (hs : List Heard) : Type 0 where
    pub heard_eq : s'.heard ≡ s.heard ++ hs
    pub subs_eq : s'.subs ≡ s.subs
    pub asyncs_eq : s'.asyncs ≡ s.asyncs
    pub sent_eq : s'.sent ≡ s.sent
