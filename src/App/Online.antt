-- ===== src/App/Online.antt =====
-- pkg/olsw/app/online.go with pkg/olsw/cache/online.go and pkg/models/line.go: the flows seen last, as
-- many as the configuration allows. The list, the map and the cache share their lines: a hit changes
-- the line in the map and in the cache; of the list only the names are read. How a number and an
-- address are printed is a parameter, as is the clock. `none` is the panic of a slice out of range.
pub mod Agreement
use openlan.Base.{
  ℕ, ◌≡◌, Bool, true, false, Option, none, some, List, [], ◌∷◌, ◌++◌, String, string_eq,
  if◌then◌else◌, ltb, length,
}
use openlan.Base.Slices.{◌>>=◌}
use openlan.Base.Text.{append}
use openlan.Base.Assoc.{lookup, insert, erase, has_key}
use openlan.Protocol.Ether.{eth_ip4}
use openlan.Protocol.Ip4.{Ipv4}
use openlan.Protocol.Tcp.{Tcp}
use openlan.Protocol.Udp.{Udp}
use openlan.Message.Proto
use openlan.Message.Proto.{FrameProto}
use openlan.Message.Frame
use openlan.Message.Frame.{FrameMessage}
use openlan.Safe.StrMap
use openlan.Safe.StrMap.{SafeStrMap}

-- strconv.FormatUint at base 10, and String of net.IP.
pub record Printer : Type 0 where
  pub uint : ℕ → String
  pub ip : List ℕ → String

pub record Line : Type 0 where
  pub eth_type : ℕ
  pub ip_source : List ℕ
  pub ip_dest : List ℕ
  pub ip_protocol : ℕ
  pub port_dest : ℕ
  pub port_source : ℕ
  pub new_time : ℕ
  pub hit_time : ℕ

pub record Online : Type 0 where
  pub max_size : ℕ
  pub line_map : List (String × Line)
  pub line_list : List Line
  pub lines : SafeStrMap Line  -- cache.Online

-- NewLine
unfoldable pub new_line : ℕ → ℕ → Line
new_line now t = record {
  eth_type = t;
  ip_source = [];
  ip_dest = [];
  ip_protocol = 0;
  port_dest = 0;
  port_source = 0;
  new_time = now;
  hit_time = now;
}

-- NewOnline, with the cache as Init leaves it.
unfoldable pub new : ℕ → ℕ → Online
new max_size cache_size = record {
  max_size = max_size;
  line_map = [];
  line_list = [];
  lines = StrMap.new cache_size;
}

module _ (pr : Printer) where
  -- String of Line
  unfoldable pub key_of : Line → String
  key_of l = append (pr.uint l.eth_type) (
      append ":" (
        append (pr.ip l.ip_source) (
          append ":" (
            append (pr.ip l.ip_dest) (
              append ":" (
                append (pr.uint l.ip_protocol) (
                  append ":"
                    (append (pr.uint l.port_source) (append ":" (pr.uint l.port_dest))))))))))

  -- Add of the cache
  unfoldable pub cache_add : Line → SafeStrMap Line → SafeStrMap Line
  cache_add m lines = (StrMap.set (key_of m) (some m) lines).0

  -- Update of the cache: the entry is the line that it is called with, through the same pointer.
  unfoldable pub cache_update : Line → SafeStrMap Line → SafeStrMap Line
  cache_update m lines = elim (StrMap.get (key_of m) lines) [
    | none ↦ lines
    | some l ↦ (StrMap.modify (key_of m) (some (record l { hit_time = m.hit_time })) lines).0
  ]

  -- popLine, once the list is full.
  unfoldable pub drop_front : List Line → Online → Online
  drop_front [] o = o
  drop_front (last ∷ rest) o = record o {
    line_list = rest;
    lines = StrMap.del (key_of last) o.lines;
    line_map = erase (key_of last) o.line_map;
  }

  unfoldable pub pop_line : Online → Online
  pop_line o = if ltb (length o.line_list) o.max_size then o else drop_front o.line_list o

  -- The first branch of AddLine: a line that is new.
  unfoldable pub push_line : Line → Online → Online
  push_line line o = record o {
    line_list = o.line_list ++ (line ∷ []);
    line_map = insert (key_of line) line o.line_map;
    lines = cache_add line o.lines;
  }

  -- The second branch of AddLine: a line that is known.
  unfoldable pub hit_line : ℕ → Line → Line → Online → Online
  hit_line now line find o =
      let hit : Line = record find { hit_time = now } in
      record o { line_map = insert (key_of line) hit o.line_map; lines = cache_update hit o.lines }

  unfoldable pub add_line : ℕ → Line → Online → Online
  add_line now line o = elim (lookup (key_of line) o.line_map) [
    | none ↦ push_line line (pop_line o)
    | some find ↦ hit_line now line find o
  ]

  -- The line of a packet: its ports are those of TCP, else those of UDP.
  unfoldable pub line_of : ℕ → FrameProto → Ipv4 → Line
  line_of now p ip =
      let line = record (new_line now eth_ip4) {
        ip_source = ip.source;
        ip_dest = ip.destination;
        ip_protocol = ip.protocol;
      } in
      elim p.tcp_header [
        | some tcp ↦ record line { port_dest = tcp.destination; port_source = tcp.source }
        | none ↦ elim p.udp_header [
          | some udp ↦ record line { port_dest = udp.destination; port_source = udp.source }
          | none ↦ line
        ]
      ]

  -- OnFrame: the frame with what was parsed, the flows and the error.
  unfoldable pub on_frame :
      ℕ → FrameMessage → Online → Option (FrameMessage × Online × Option Proto.Err)
  on_frame now m o =
      if m.control
      then some (m, o, none)
      else (Frame.proto m >>= λ r. elim r.2 [
        | some err ↦ some (r.0, o, some err)
        | none ↦ elim r.1.ip4_header [
          | none ↦ some (r.0, o, none)
          | some ip ↦ some (r.0, add_line now (line_of now r.1 ip) o, none)
        ]
      ])
