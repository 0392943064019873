-- ===== src/Database/Journal/Replay.antt =====
-- Accesses that are made one after the other, and accesses to some tables only.
use a_multi_threaded_key_val.Prelude.{
  ◌≡◌, refl, ◌∙◌, Bool, true, false, List, [], ◌∷◌, ◌++◌, arith, sym,
}
use a_multi_threaded_key_val.Text.{Str, =str_iff}
use a_multi_threaded_key_val.Database.Journal.{Access, read, wrote, Contents, store, replay, Agrees}

pub replay-append : (l k : List Access) (m : Contents) → replay (l ++ k) m ≡ replay k (replay l m)
replay-append [] k m = refl
replay-append (read n key r ∷ l) k m = replay-append l k m
replay-append (wrote n key v ∷ l) k m = replay-append l k (store n key v m)

pub Agrees-append :
    (l k : List Access) (m : Contents) → Agrees l m → Agrees k (replay l m) → Agrees (l ++ k) m
Agrees-append [] k m h g = g
Agrees-append (read n key r ∷ l) k m h g = (h.0, Agrees-append l k m h.1 g)
Agrees-append (wrote n key v ∷ l) k m h g = Agrees-append l k (store n key v m) h g

-- The accesses are to tables that the test takes.
abbrev pub Within : (Str → Bool) → List Access → Type 0
Within p [] = Unit
Within p (read n k r ∷ l) = (p n ≡ true) × Within p l
Within p (wrote n k v ∷ l) = (p n ≡ true) × Within p l

pub Within-append :
    (p : Str → Bool) (l k : List Access) → Within p l → Within p k → Within p (l ++ k)
Within-append p [] k h g = g
Within-append p (read n key r ∷ l) k h g = (h.0, Within-append p l k h.1 g)
Within-append p (wrote n key v ∷ l) k h g = (h.0, Within-append p l k h.1 g)

pub Within-weaken :
    (p q : Str → Bool) (l : List Access)
    → ((n : Str) → p n ≡ true → q n ≡ true)
    → Within p l
    → Within q l
Within-weaken p q [] f h = tt
Within-weaken p q (read n key r ∷ l) f h = (f n h.0, Within-weaken p q l f h.1)
Within-weaken p q (wrote n key v ∷ l) f h = (f n h.0, Within-weaken p q l f h.1)

-- The other tables stay as they are.
pub replay-outside :
    (p : Str → Bool) (l : List Access) (m : Contents) (n k : Str)
    → Within p l
    → p n ≡ false
    → replay l m n k ≡ m n k
replay-outside p [] m n k h out = refl
replay-outside p (read a key r ∷ l) m n k h out = replay-outside p l m n k h.1 out
replay-outside p (wrote a key v ∷ l) m n k h out =
    replay-outside p l (store a key v m) n k h.1 out ∙ ground (arith, h.0, out, =str_iff a n)

-- What they see of a store is what it holds in these tables.
abbrev pub Same : (Str → Bool) → Contents → Contents → Type 0
Same p m m' = (n k : Str) → p n ≡ true → m n k ≡ m' n k

store-Same :
    (p : Str → Bool) (m m' : Contents) (name key v : Str)
    → Same p m m'
    → Same p (store name key v m) (store name key v m')
store-Same p m m' name key v h n k e = ground (arith, h n k e)

pub replay-Same :
    (p : Str → Bool) (l : List Access) (m m' : Contents)
    → Same p m m'
    → Same p (replay l m) (replay l m')
replay-Same p [] m m' h = h
replay-Same p (read n key r ∷ l) m m' h = replay-Same p l m m' h
replay-Same p (wrote n key v ∷ l) m m' h = replay-Same p l _ _ (store-Same p m m' n key v h)

pub Agrees-Same :
    (p : Str → Bool) (l : List Access) (m m' : Contents)
    → Within p l
    → Same p m m'
    → Agrees l m
    → Agrees l m'
Agrees-Same p [] m m' w h a = tt
Agrees-Same p (read n key r ∷ l) m m' w h a =
    (sym (h n key w.0) ∙ a.0, Agrees-Same p l m m' w.1 h a.1)
Agrees-Same p (wrote n key v ∷ l) m m' w h a =
    Agrees-Same p l _ _ w.1 (store-Same p m m' n key v h) a
