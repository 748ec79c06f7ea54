-- ===== src/Iocp/Sync.antt =====
-- The polling thread of src/hp_iocp.c keeps up with the table of items: the messages that are posted never
-- fail an assertion there.
use libhp.Common.{
  ℕ, ◌<◌, ◌≡◌, refl, ap, ◌∙◌, false, Option, none, some, List, [], ◌∷◌, ◌++◌, length,
}
use libhp.Iocp.Search.{nth, IsAscending, bsearch, bsearch-nth, bsearch-above}
use libhp.Iocp.Data.{Flags, no_flags, is_empty, Msg, wm_add, wm_rm, Iocp, remove_at, update_at, ids}
use libhp.Iocp.Poller.{Polld, poll_ids, pd_find, on_add, on_rm, on_msg, or_failed, on_msgs}
use libhp.Iocp.Order.{map-remove_at, map-update_at, map-append_one}

-- Taking the messages that are posted, the polling thread gets to the ids of the items.
pub record Follows (posted : List Msg) (pds : List Polld) (xs : List ℕ) : Type 0 where
  pub pds' : List Polld
  pub applied : on_msgs posted pds ≡ some pds'
  pub same : poll_ids pds' ≡ xs

-- The ids ascend below the next one, and the polling thread follows them.
pub record Synced {W : Type 0} (pds : List Polld) (s : Iocp W) : Type 0 where
  pub ascending : IsAscending (ids s)
  pub below : (i : ℕ) → i < length (ids s) → nth (ids s) i < s.ioid
  pub follows : Follows s.posted pds (ids s)

on_msgs-append :
    (ms : List Msg) (m : Msg) (pds : List Polld)
    → on_msgs (ms ++ m ∷ []) pds ≡ or_failed (on_msg m) (on_msgs ms pds)
unfolding on_msgs or_failed
on_msgs-append [] m pds = one (on_msg m pds)
  where
    one : (o : Option (List Polld)) → or_failed (on_msgs []) o ≡ o
    one (some x) = refl
    one none = refl
on_msgs-append (m' ∷ ms) m pds = more (on_msgs-append ms m) (on_msg m' pds)
  where
    more :
        ((ps : List Polld) → on_msgs (ms ++ m ∷ []) ps ≡ or_failed (on_msg m) (on_msgs ms ps))
        → (o : Option (List Polld))
        → or_failed (on_msgs (ms ++ m ∷ [])) o ≡ or_failed (on_msg m) (or_failed (on_msgs ms) o)
    more rest (some x) = rest x
    more rest none = refl

-- One more message is applied.
follow :
    (posted : List Msg) (m : Msg) (pds pds'' : List Polld) (xs ys : List ℕ)
    (f : Follows posted pds xs)
    → on_msg m f.pds' ≡ some pds''
    → poll_ids pds'' ≡ ys
    → Follows (posted ++ m ∷ []) pds ys
unfolding or_failed
follow posted m pds pds'' xs ys f e q = record {
  pds' = pds'';
  applied = on_msgs-append posted m pds ∙ ap (or_failed (on_msg m)) f.applied ∙ e;
  same = q;
}

-- A new socket.
pub follow_add :
    (posted : List Msg) (id fd : ℕ) (pds : List Polld) (xs : List ℕ)
    → IsAscending xs
    → ((i : ℕ) → i < length xs → nth xs i < id)
    → Follows posted pds xs
    → Follows (posted ++ wm_add id fd ∷ []) pds (xs ++ id ∷ [])
unfolding on_msg on_add pd_find
follow_add posted id fd pds xs asc low f =
    let gone : bsearch (poll_ids f.pds') id ≡ none =
      ap (λ ys. bsearch ys id) f.same ∙ bsearch-above xs id asc low in
    follow posted (wm_add id fd) pds _ xs (xs ++ id ∷ []) f (ap (λ o. on_add o id fd f.pds') gone)
      (map-append_one (λ p. p.id) f.pds' _ ∙ ap (λ ys. ys ++ id ∷ []) f.same)

found_at :
    (posted : List Msg) (pds : List Polld) (xs : List ℕ) (i : ℕ) (f : Follows posted pds xs)
    → IsAscending xs
    → i < length xs
    → bsearch (poll_ids f.pds') (nth xs i) ≡ some i
found_at posted pds xs i f asc l = ap (λ ys. bsearch ys (nth xs i)) f.same ∙ bsearch-nth xs i asc l

-- A socket is asked for events.
pub follow_flags :
    (posted : List Msg) (flags : Flags) (pds : List Polld) (xs : List ℕ) (i : ℕ)
    → is_empty flags ≡ false
    → IsAscending xs
    → i < length xs
    → Follows posted pds xs
    → Follows (posted ++ wm_rm (nth xs i) flags ∷ []) pds xs
unfolding on_msg on_rm pd_find
follow_flags posted flags pds xs i e asc l f =
    follow posted (wm_rm (nth xs i) flags) pds
      (update_at i (λ p. record p { flags = flags }) f.pds') xs xs f
      (ap (λ o. on_rm o flags f.pds') (found_at posted pds xs i f asc l) ∙ rw e refl)
      (map-update_at (λ p. p.id) i _ f.pds' (λ p. refl) ∙ f.same)

-- A socket is taken out.
pub follow_removal :
    (posted : List Msg) (pds : List Polld) (xs : List ℕ) (i : ℕ)
    → IsAscending xs
    → i < length xs
    → Follows posted pds xs
    → Follows (posted ++ wm_rm (nth xs i) no_flags ∷ []) pds (remove_at i xs)
unfolding on_msg on_rm pd_find
follow_removal posted pds xs i asc l f =
    follow posted (wm_rm (nth xs i) no_flags) pds (remove_at i f.pds') xs (remove_at i xs) f
      (ap (λ o. on_rm o no_flags f.pds') (found_at posted pds xs i f asc l))
      (map-remove_at (λ p. p.id) i f.pds' ∙ ap (remove_at i) f.same)
