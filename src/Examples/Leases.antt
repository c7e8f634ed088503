-- ===== src/Examples/Leases.antt =====
-- The theorems on leases at concrete caches and histories.
use openlan.Base.{◌≡◌, refl, Option, none, some, List, [], ◌∷◌, String, string_eq, arith}
use openlan.Safe.StrMap
use openlan.Base.Assoc.{lookup, insert, erase, has_key}
use openlan.Cache.Lease
use openlan.Cache.Lease.{
  Cache, Network, new_lease, del_lease, alloc_lease, alloc_loop, address, granted, alloc_between,
  add_lease, del_by_addr, del_by_uuid, deref, get_lease, is_static,
}
use openlan.Cache.Lease.Alloc.{FirstFree, alloc_lease-FirstFree}
use openlan.Cache.Lease.Mirror.{Mirror, address_of}
use openlan.Cache.Lease.Release.{Release, del_lease-Release}
use openlan.Cache.Lease.Grant.{
  Call, step, adds, leases, frees, run, empty, run_distinct, empty-Mirror, run-Mirror,
}
use openlan.Examples.Texts.{ip_text, count}

abbrev office : Network
office = record { name = "office"; ip_start = "::"; ip_end = "::::" }

abbrev history : List (Call ip_text)
history =
    adds office ∷ leases "a" "office" ∷ leases "b" "office" ∷ frees "a" ∷ leases "c" "office" ∷ []

abbrev left : Option Cache
left = run ip_text 9 history (empty 4)

abbrev pub after : Cache
after = elim left [ none ↦ empty 4 | some w ↦ w ]

left-after : left ≡ some after
unfolding run step new_lease Lease.get StrMap.get lookup Lease.add StrMap.set empty StrMap.new
    has_key insert erase granted alloc_lease alloc_between alloc_loop add_lease del_by_addr
    del_by_uuid del_lease deref get_lease is_static StrMap.add StrMap.del StrMap.get_ex
left-after = refl

abbrev client : String
client = "b"

run_distinct_example : client ≡ client
unfolding address_of run step new_lease Lease.get StrMap.get lookup Lease.add StrMap.set empty
    StrMap.new has_key insert erase granted alloc_lease alloc_between alloc_loop add_lease
    del_by_addr del_by_uuid del_lease deref get_lease is_static StrMap.add StrMap.del StrMap.get_ex
run_distinct_example =
    run_distinct ip_text 4 9 history after client client (count 2) left-after refl refl

pub after-Mirror : Mirror after
after-Mirror = run-Mirror ip_text 9 history (empty 4) after (empty-Mirror 4) left-after

del_lease-Release_example : Release "b" after (del_lease "b" after)
del_lease-Release_example = del_lease-Release "b" after after-Mirror

alloc_lease-FirstFree_example :
    FirstFree ip_text after 1 3 (alloc_lease ip_text 9 "::" "::::" after)
alloc_lease-FirstFree_example =
    alloc_lease-FirstFree ip_text 9 1 3 "::" "::::" after refl refl (omega arith) (omega arith)
      (omega arith)
