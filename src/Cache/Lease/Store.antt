-- ===== src/Cache/Lease/Store.antt =====
-- The heap of leases: a new one does not disturb the others.
use openlan.Base.{zero, suc, ◌<◌, ◌≡◌, refl, some, List, [], ◌∷◌, ◌++◌, arith, length}
use openlan.Cache.Lease.{Lease, Ref, deref}

pub deref-append :
    (ls more : List Lease) (p : Ref) → p < length ls → deref (ls ++ more) p ≡ deref ls p
unfolding deref
deref-append [] more p h = absurd (omega arith)
deref-append (l ∷ ls) more zero h = refl
deref-append (l ∷ ls) more (suc p) h = deref-append ls more p (omega arith)

pub deref_new : (ls : List Lease) (l : Lease) → deref (ls ++ (l ∷ [])) (length ls) ≡ some l
unfolding deref
deref_new [] l = refl
deref_new (x ∷ ls) l = deref_new ls l

pub deref-lt : (ls : List Lease) (p : Ref) {l : Lease} → deref ls p ≡ some l → p < length ls
unfolding deref
deref-lt [] p h = cc
deref-lt (x ∷ ls) zero h = omega arith
deref-lt (x ∷ ls) (suc p) h = omega (arith, deref-lt ls p h)
