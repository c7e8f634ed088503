-- ===== src/App/Request.antt =====
-- pkg/olsw/app/request.go: what a point may ask of the switch, above all for an address. The caches of
-- leases, points and neighbours are those of the switch; JSON is a parameter, and so is what a network
-- has beside its range. The messages that go out, and OffClient, are the list `sent`, in order. `none`
-- is the panic of a dereference of nil, or of an allocation that panics.
pub mod Addresses
use openlan.Base.{
  ℕ, zero, suc, Bool, true, false, not, ◌&&◌, Option, none, some, List, [], ◌∷◌, ◌++◌, String,
  string_eq, if◌then◌else◌, ◌==◌,
}
use Prim.Native.Char.{code}
use openlan.Base.Slices.{◌>>=◌}
use openlan.Base.Text.{codes, bytes_eq}
use openlan.Message.Frame.{FrameMessage, login_req}
use openlan.Cache.Lease
use openlan.Cache.Lease.{Cache, Lease, Network, IpText, Ref, deref}
use openlan.Cache.Points
use openlan.Cache.Points.{Point, PointCache}
use openlan.App.NeighborTable
use openlan.App.NeighborTable.{Neighbor, Table}
use openlan.Point.Routes.{Route}

abbrev pub neighbor_req : List ℕ
neighbor_req = codes "neig= "

abbrev pub ip_addr_req : List ℕ
ip_addr_req = codes "ipad= "

abbrev pub left_req : List ℕ
left_req = codes "left= "

-- The network that a point sends, and the one that it is sent.
pub record Asked : Type 0 where
  pub name : String
  pub tenant : String
  pub if_addr : String
  pub netmask : String

pub record Reply : Type 0 where
  pub name : String
  pub if_addr : String
  pub netmask : String
  pub routes : List Route

pub data Sent : Type 0 where
  pong : List ℕ → Sent
  neighbors : List Neighbor → Sent
  address : Reply → Sent
  off : Points.Client → Sent

pub record Env : Type 0 where
  pub unmarshal : List ℕ → Option Asked
  pub netmask : String → String  -- of a network
  pub routes : String → List Route
  pub rounds : ℕ  -- of the loop of allocLease

pub record Request : Type 0 where
  pub leases : Cache
  pub points : PointCache
  pub table : Table
  pub sent : List Sent

-- strings.SplitN(s, "/", 2)[0]
abbrev pub before_slash : String → String
before_slash String.[] = ""
before_slash (String.◌∷◌ c s) =
    let rest = before_slash s in if code c == 47 then "" else String.◌∷◌ c rest

-- A change of a lease through its pointer.
unfoldable pub change : (Lease → Lease) → Ref → List Lease → List Lease
change f p [] = []
change f zero (l ∷ ls) = f l ∷ ls
change f (suc p) (l ∷ ls) = l ∷ change f p ls

unfoldable pub modify : (Lease → Lease) → Ref → Cache → Cache
modify f p w = record w { heap = change f p w.heap }

unfoldable pub send : Sent → Request → Request
send x r = record r { sent = r.sent ++ (x ∷ []) }

-- The alias that a new lease is given; there may be none.
unfoldable pub aliased : Point → Cache × Option Ref → Option (Cache × Option Ref)
aliased p (w, none) = some (w, none)
aliased p (w, some l) = some (modify (λ x. record x { alias = p.alias }) l w, some l)

-- AddLease by getLease, and the alias; AddLease gives nil for no address.
unfoldable pub lease_added : String → Point → Cache → Option (Cache × Option Ref)
lease_added addr p w =
    let r = Lease.add_lease p.uuid addr w in
    elim r.1 [
      | none ↦ none
      | some l ↦ some (modify (λ x. record x { alias = p.alias }) l r.0, some l)
    ]

-- getLease where an address is asked for.
unfoldable pub lease_at : String → Point → Cache → Option (Cache × Option Ref)
lease_at addr p w = elim (Lease.get_lease_by_alias p.alias w) [
  | none ↦ lease_added addr p w
  | some l ↦
      (deref w.heap l >>= λ x.
      if string_eq.beq x.address addr
      then some (modify (λ y. record y { uuid = p.uuid }) l w, some l)
      else lease_added addr p w)
]

-- The end of getLease: the network and the client of the lease.
unfoldable pub owned : Point → Network → Cache × Option Ref → Cache × Option Ref
owned p n (w, none) = (w, none)
owned p n (w, some l) =
    (modify (λ x. record x { network = n.name; client = p.client.name }) l w, some l)

-- The name that a point asks under.
unfoldable pub name_of : Asked → String
name_of recv =
    let name = if string_eq.beq recv.name "" then recv.tenant else recv.name in
    if string_eq.beq name "" then "default" else name

-- The reply to a point that asked for an address: that of its lease, or one that routes nowhere.
unfoldable pub reply_of : Env → Network → Cache × Option Ref → Option Reply
reply_of env n (w, none) = some (record {
  name = n.name;
  if_addr = "169.254.0.0";
  netmask = if string_eq.beq (env.netmask n.name) "" then "255.255.0.0" else env.netmask n.name;
  routes = env.routes n.name;
})
reply_of env n (w, some l) = deref w.heap l >>= λ x. some (record {
  name = n.name;
  if_addr = x.address;
  netmask = env.netmask n.name;
  routes = env.routes n.name;
})

unfoldable pub on_neighbor : Request → Request
on_neighbor r = send (neighbors (NeighborTable.list r.table)) r

unfoldable pub on_leave : Points.Client → Request → Request
on_leave client r = send (off client) r

module _ (ip : IpText) where
  -- getLease where no address is asked for: the lease of the alias, or a new one.
  unfoldable pub lease_of : ℕ → Point → Network → Cache → Option (Cache × Option Ref)
  lease_of fuel p n w = elim (Lease.get_lease_by_alias p.alias w) [
    | some l ↦ some (modify (λ x. record x { uuid = p.uuid }) l w, some l)
    | none ↦ Lease.new_lease ip fuel p.uuid n.name w >>= aliased p
  ]

  unfoldable pub get_lease :
      ℕ → String → Point → Option Network → Cache → Option (Cache × Option Ref)
  get_lease fuel if_addr p none w = some (w, none)
  get_lease fuel if_addr p (some n) w =
      (if string_eq.beq if_addr ""
        then lease_of fuel p n w
        else lease_at (before_slash if_addr) p w)
      >>= λ r. some (owned p n r)

  unfoldable pub on_ip_addr : Env → Points.Client → List ℕ → Request → Option Request
  on_ip_addr env client data' r = elim (env.unmarshal data') [
    | none ↦ some r
    | some recv ↦ elim (Lease.get (name_of recv) r.leases) [
      | none ↦ some r
      | some n ↦ elim (Points.get client.name r.points) [
        | none ↦ some r
        | some p ↦
            if string_eq.beq recv.if_addr ""
            then (do
              got ← get_lease env.rounds recv.if_addr p (some n) r.leases
              reply ← reply_of env n got
              some (send (address reply) (record r { leases = got.0 })))
            else some (
                send
                  (address (record {
                    name = n.name;
                    if_addr = recv.if_addr;
                    netmask = recv.netmask;
                    routes = env.routes n.name;
                  }))
                  r)
      ]
    ]
  ]

  unfoldable pub on_frame : Env → Points.Client → FrameMessage → Request → Option Request
  on_frame env client m r =
      if not m.control
      then some r
      else if bytes_eq m.action neighbor_req
      then some (on_neighbor r)
      else if bytes_eq m.action ip_addr_req
      then on_ip_addr env client m.params r
      else if bytes_eq m.action left_req
      then some (on_leave client r)
      else if bytes_eq m.action login_req
      then some r
      else some (send (pong m.params) r)
