-- ===== src/IpLearning.antt =====
-- client/ip_learning.go: which endpoint each overlay IP is routed to. Overlay IPs, endpoints and
-- peers' keys are map keys. What Learn asks the session table is a parameter (`Sessions`); times are
-- nanoseconds.
pub mod Direct
pub mod Reverse
mod Tests
use apgo.Prelude.{
  ℕ, ◌+◌, ◌*◌, Bool, true, false, not, ◌&&◌, ◌||◌, List, [], ◌∷◌, Option, none, some, ltb, ◌==◌,
  if◌then◌else◌,
}
use apgo.Prelude.Maps.{Key, Assoc, lookup, insert, retain, update_all}

abbrev pub ip_learn_stale_timeout : ℕ
ip_learn_stale_timeout = 300_000_000_000

-- Answers about endpoints: the key of an established session, `RouteIsLive`
-- and `routeClass`; and `peerOverlayIPByPub` of a key.
pub record Sessions : Type 0 where
  pub established : Key → Option Key
  pub is_live : Key → Bool
  pub route_class : Key → ℕ
  pub overlay_ip : Key → Key

pub record Route : Type 0 where
  pub addr : Key
  pub seen : ℕ

abbrev pub Learned : Type 0
Learned = Assoc Route

-- What becomes of the recorded route when a frame comes from another endpoint.
pub data Choice : Type 0 where
  leave : Choice
  refresh : Choice
  replace : Choice

-- Two routes to one device.
unfoldable pub same_device : Sessions → (old new : Key) → Choice
same_device s old new =
    if ltb (s.route_class old) (s.route_class new)
    then replace
    else if s.is_live old || not (s.is_live new)
    then refresh
    else replace

-- The incumbent is a session of `cur`, the candidate none of it.
unfoldable pub other_device : Sessions → Key → (old cur : Key) → (candidate_direct : Bool) → Choice
other_device s ip old cur candidate_direct =
    if s.overlay_ip cur == ip
    then if not candidate_direct && s.is_live old then leave else replace
    else replace

unfoldable pub against : Sessions → Key → (old new cur : Key) → Option Key → Choice
against s ip old new cur none = other_device s ip old cur false
against s ip old new cur (some cand) =
    if cur == cand
    then same_device s old new
    else other_device s ip old cur (s.overlay_ip cand == ip)

unfoldable pub choose : Sessions → Key → (old new : Key) → Option Key → Choice
choose s ip old new none = replace
choose s ip old new (some cur) = against s ip old new cur (s.established new)

unfoldable pub decided : ℕ → Key → Key → Route → Choice → Learned → Learned
decided now ip addr e leave t = t
decided now ip addr e refresh t = insert ip (record e { seen = now }) t
decided now ip addr e replace t = insert ip (record { addr = addr; seen = now }) t

unfoldable pub learn_over : Option Sessions → ℕ → Key → Key → Route → Learned → Learned
learn_over none now ip addr e t = decided now ip addr e replace t
learn_over (some s) now ip addr e t =
    decided now ip addr e (choose s ip e.addr addr (s.established e.addr)) t

-- `Learn`; the sessions are `none` while there is no table of them.
unfoldable pub learn : (Key → Bool) → Option Sessions → ℕ → Key → Key → Learned → Learned
learn is_synthetic s now ip addr t = if is_synthetic addr then t else elim (lookup ip t) [
  | none ↦ insert ip (record { addr = addr; seen = now }) t
  | some e ↦
      if e.addr == addr then insert ip (record e { seen = now }) t else learn_over s now ip addr e t
]

-- One round of `evictLoop`.
unfoldable pub evict_stale : ℕ → Learned → Learned
evict_stale now = retain (λ ip e. not (ltb (e.seen + ip_learn_stale_timeout) now))

unfoldable pub forget_addr : Key → Learned → Learned
forget_addr addr = retain (λ ip e. not (e.addr == addr))

-- Nil endpoints are 0.
unfoldable pub remap_addr : ℕ → (old new : Key) → Learned → Learned
remap_addr now old new t =
    if old == 0 || new == 0
    then t
    else update_all (λ ip e. if e.addr == old then record { addr = new; seen = now } else e) t

-- The loop of `OverlayIPFor` with what it found so far; an overlay IP is not "".
unfoldable pub overlay_ip_from : Key → Option Key → Learned → Option Key
overlay_ip_from addr found [] = found
overlay_ip_from addr found ((ip, e) ∷ t) =
    let skipped = overlay_ip_from addr found t in
    let first = overlay_ip_from addr (some ip) t in
    if e.addr == addr then elim found [ none ↦ first | some other ↦ none ] else skipped

unfoldable pub overlay_ip_for : Key → Learned → Option Key
overlay_ip_for addr t = if addr == 0 then none else overlay_ip_from addr none t

unfoldable pub lookup_route : Key → Learned → Option Key
lookup_route ip t = elim (lookup ip t) [ none ↦ none | some e ↦ some e.addr ]

unfoldable pub entries : Learned → List (Key × Route)
entries [] = []
entries ((ip, e) ∷ t) = (ip, e) ∷ entries t
