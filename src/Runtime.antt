-- ===== src/Runtime.antt =====
-- The parts of main.go around the components: the ring of log lines, the fan-out to the pages, the
-- search for a running instance, the end after inactivity, the addresses of the machine, and small
-- texts. What the operating system answers is an argument; times are nanoseconds.
pub mod Ring
use lanrunner.Common.{
  ℕ, zero, suc, ◌+◌, ◌-◌, ◌*◌, ◌/◌, ◌%◌, Bool, true, false, List, [], ◌∷◌, ◌++◌, Option, none, some,
  not, ◌&&◌, ◌||◌, leb, ltb, ◌==◌, if◌then◌else◌, Text, codes, same, length, drop,
}
use lanrunner.Guest.Hub.Sessions.{member}

abbrev pub log_ring_size : ℕ
log_ring_size = 500

pub record LogLine : Type 0 where
  pub ts : Text
  pub level : Text
  pub src : Text
  pub text : Text

-- `logf`, its ring.
pub logf : List LogLine → LogLine → List LogLine
logf ring l =
    let ring' = ring ++ l ∷ [] in
    if ltb log_ring_size (length ring') then drop (length ring' - log_ring_size) ring' else ring'

pub vlogf : Bool → List LogLine → LogLine → List LogLine
unfolding logf
vlogf verbose ring l = if verbose then logf ring l else ring

abbrev pub page_queue : ℕ
page_queue = 512

-- The queue of a page, the oldest event first; a full one takes nothing.
pub offer : {E : Type 0} → E → List E → List E
offer e q = if ltb (length q) page_queue then q ++ e ∷ [] else q

-- `emit`, for every page that is open. An event that does not marshal is `none`.
pub emit : {E : Type 0} → Option E → List (List E) → List (List E)
unfolding offer
emit none subs = subs
emit (some e) [] = []
emit (some e) (q ∷ subs) = offer e q ∷ emit (some e) subs

-- What a request to the port gives: the status and the start of the body, in lower case.
pub lanrunner_at : (ℕ → Option (ℕ × Bool)) → ℕ → Bool
lanrunner_at get port =
    if ltb port 1 || ltb 65535 port
    then false
    else elim (get port) [ none ↦ false | some answer ↦ answer.0 == 200 && answer.1 ]

pub seen_port : ℕ → List ℕ → Bool
seen_port p [] = false
seen_port p (q ∷ ports) = p == q || seen_port p ports

-- The first port, each tried once.
pub first_running : (ℕ → Bool) → List ℕ → List ℕ → Option ℕ
first_running running seen [] = none
first_running running seen (p ∷ ports) =
    let skip = first_running running seen ports in
    let rest = first_running running (p ∷ seen) ports in
    if seen_port p seen then skip else if running p then some p else rest

-- `state` is the port of runtime.json, if it can be read.
pub existing_lanrunner : (ℕ → Option (ℕ × Bool)) → Option ℕ → ℕ → Option ℕ
unfolding lanrunner_at first_running
existing_lanrunner get none preferred = first_running (lanrunner_at get) [] (preferred ∷ [])
existing_lanrunner get (some port) preferred =
    first_running (lanrunner_at get) [] (port ∷ preferred ∷ [])

abbrev minute : ℕ
minute = 60 * 1_000_000_000

-- The interval of `idleLoop`; a timeout of 0 disables it.
pub idle_interval : ℕ → ℕ
idle_interval timeout =
    if not (ltb timeout minute)
    then minute
    else if ltb (timeout / 4) 100_000_000
    then 100_000_000
    else timeout / 4

-- The ticks of `idleLoop`, each with the last activity: the first that shuts the program down.
pub idle_loop : ℕ → List (ℕ × ℕ) → Option ℕ
idle_loop timeout [] = none
idle_loop timeout ((now, last) ∷ ticks) =
    let rest = idle_loop timeout ticks in
    if timeout == 0 then none else if leb (last + timeout) now then some now else rest

-- An address of an interface that is an IP network.
pub record Addr : Type 0 where
  pub ip4 : Option Text
  pub loopback : Bool
  pub link_local : Bool

pub ip4s : List Addr → List Text
ip4s [] = []
ip4s (a ∷ addrs) = elim a.ip4 [ none ↦ ip4s addrs | some ip ↦ ip ∷ ip4s addrs ]

pub local_ips : Option (List Addr) → List Text
unfolding ip4s
local_ips none = codes "unknown" ∷ []
local_ips (some addrs) = if length (ip4s addrs) == 0 then codes "none" ∷ [] else ip4s addrs

pub first_routable : Text → List Addr → Text
first_routable link_local [] = if not (same link_local []) then link_local else codes "127.0.0.1"
first_routable link_local (a ∷ addrs) =
    let skip = first_routable link_local addrs in
    if a.loopback then skip else elim a.ip4 [
      | none ↦ skip
      | some ip ↦
          let rest = first_routable (if same link_local [] then ip else link_local) addrs in
          if a.link_local then rest else ip
    ]

pub primary_ip : Option (List Addr) → Text
unfolding first_routable
primary_ip none = codes "unknown"
primary_ip (some addrs) = first_routable [] addrs

pub is_local_ip : Option (List Addr) → Text → Bool
unfolding local_ips
is_local_ip addrs ip = member ip (local_ips addrs) || same ip (codes "127.0.0.1")
