-- ===== src/Tap.antt =====
-- VirtualTap of pkg/network/tap_virtual.go: two bounded queues between the reader of a tap and its
-- bridge. The kernel side is filled by Send and emptied by Read, the virtual side by Write and Recv.
-- The count of a queue is an int that can fall below 0: it is what came in less what went out. The
-- bits UsUp and UsClose of the flags are two Booleans. Read and Recv are three steps of one goroutine,
-- which others may come between: the test that the tap is up, the receive and the count.
pub mod Session
use openlan.Base.{
  ℕ, ◌+◌, Bool, true, false, not, Option, none, some, List, [], ◌∷◌, ◌++◌, String, if◌then◌else◌,
  ltb, leb, length, take,
}

pub record Queue : Type 0 where
  pub size : ℕ
  pub ins : ℕ
  pub outs : ℕ
  -- the channel; `none` is nil
  pub chan : Option (List (List ℕ))

pub record VirtualTap : Type 0 where
  pub tenant : String
  pub name : String
  pub up : Bool
  pub closed : Bool
  pub kern : Queue
  pub virt : Queue
  pub drop : ℕ
  pub master : Option String

-- NewVirtualTap, for a configuration with a name and the sizes of the two queues.
unfoldable pub new : String → String → ℕ → ℕ → VirtualTap
new tenant name kern_buf vir_buf = record {
  tenant = tenant;
  name = name;
  up = false;
  closed = false;
  kern = record { size = kern_buf; ins = 0; outs = 0; chan = none };
  virt = record { size = vir_buf; ins = 0; outs = 0; chan = none };
  drop = 0;
  master = none;
}

-- How Send and Write end.
pub data Put : Type 0 where
  not_up : Put
  -- 0 bytes and no error; the drop is counted
  dropped : Put
  accepted : ℕ → Put
  -- the channel is full or nil: the goroutine waits, and it holds the lock
  blocks : Put

-- The bytes go into the channel, if it has room.
unfoldable pub enqueue : List ℕ → Queue → Queue × Put
enqueue bytes q = elim q.chan [
  | none ↦ (record q { ins = q.ins + 1 }, blocks)
  | some xs ↦
      if ltb (length xs) q.size
      then (record q { ins = q.ins + 1; chan = some (xs ++ (bytes ∷ [])) }, accepted (length bytes))
      else (record q { ins = q.ins + 1 }, blocks)
]

-- What Send and Write share.
unfoldable pub put : List ℕ → Bool → Queue → Queue × Put
put bytes up q =
    if not up
    then (q, not_up)
    else if leb (q.size + q.outs) q.ins
    then (q, dropped)
    else enqueue bytes q

abbrev pub drops : Put → ℕ
drops dropped = 1
drops not_up = 0
drops (accepted n) = 0
drops blocks = 0

unfoldable pub send : List ℕ → VirtualTap → VirtualTap × Put
send bytes t =
    let r = put bytes t.up t.kern in (record t { kern = r.0; drop = t.drop + drops r.1 }, r.1)

unfoldable pub write : List ℕ → VirtualTap → VirtualTap × Put
write bytes t =
    let r = put bytes t.up t.virt in (record t { virt = r.0; drop = t.drop + drops r.1 }, r.1)

-- The receive of Read and Recv: the oldest bytes; `none` while there are none.
unfoldable pub receive : Queue → Option (List ℕ × Queue)
receive q = elim q.chan [
  | none ↦ none
  | some xs ↦ elim xs [ [] ↦ none | ◌∷◌ x rest ↦ some (x, record q { chan = some rest }) ]
]

-- The count of Read and Recv.
unfoldable pub finish : Queue → Queue
finish q = record q { outs = q.outs + 1 }

-- What Read and Recv copy to a buffer of n bytes.
unfoldable pub copied : ℕ → List ℕ → List ℕ
copied n bytes = take n bytes

abbrev pub opened : ℕ → Queue
opened n = record { size = n; ins = 0; outs = 0; chan = some [] }

unfoldable pub bring_up : VirtualTap → VirtualTap
bring_up t =
    if t.up then t else record t { up = true; kern = opened t.kern.size; virt = opened t.virt.size }

unfoldable pub bring_down : VirtualTap → VirtualTap
bring_down t =
    if t.up
    then record t {
      up = false;
      kern = record t.kern { chan = none };
      virt = record t.virt { chan = none };
    }
    else t

-- Close, and the bridge that is asked to let go of the tap.
unfoldable pub close : VirtualTap → VirtualTap × Option String
close t =
    let t' = bring_down t in
    if t'.closed
    then (t', none)
    else (record t' { closed = true; up = false; master = none }, t'.master)

-- SetMaster keeps the first bridge; it returns the error "already to" in any case.
unfoldable pub set_master : String → VirtualTap → VirtualTap
set_master dev t = elim t.master [ none ↦ record t { master = some dev } | some m ↦ t ]
