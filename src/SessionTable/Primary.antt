-- ===== src/SessionTable/Primary.antt =====
-- client/sessions.go: the lemmas on which endpoint a peer is routed to when `set` adds a session.
use apgo.Prelude.{
  ℕ, ◌+◌, ◌≤◌, true, leb, ◌≢◌, ◌⊎◌, All, sym, subst, Bool, false, not, ◌&&◌, ◌||◌, List, [], ◌∷◌,
  Option, none, some, ◌==◌, if◌then◌else◌, Bool-cases, Option-cases, ◌≡◌, refl, ◌∙◌, inl, inr,
  arith,
}
use apgo.Prelude.Maps.{Key, Assoc, lookup, insert, lookup-update_all}
use apgo.IpLearning.{Route, Learned, lookup_route, remap_addr}
use apgo.SessionTable.{
  AddrTests, Session, Node, is_private_udp_addr, route_live_timeout, has_live_lan_route,
  is_other_route, other_routes, takes_over, remap_all, set_session,
}

-- An endpoint among those of the peer's other established sessions.
unfoldable pub is_route_of : Key → Key → Key → Assoc Session → Bool
is_route_of key peer addr [] = false
is_route_of key peer addr ((k, old) ∷ m) =
    (is_other_route key peer k old && not (old.addr == 0) && (old.addr == addr))
    || is_route_of key peer addr m

has : Key → List Key → Bool
has addr [] = false
has addr (a ∷ l) = (a == addr) || has addr l

has-other_routes :
    (key peer addr : Key) (m : Assoc Session)
    → has addr (other_routes key peer m) ≡ is_route_of key peer addr m
unfolding has other_routes is_route_of
has-other_routes key peer addr [] = refl
has-other_routes key peer addr ((k, old) ∷ m) = ground (arith, has-other_routes key peer addr m)

-- Where an overlay IP is routed when the endpoints that pass a test give way to another.
abbrev pub moved_to : Key → (Key → Bool) → Option Key → Option Key
moved_to addr gives_way none = none
moved_to addr gives_way (some at) = if gives_way at then some addr else some at

remap_addr-lookup_route :
    (now old addr ip : Key) (t : Learned)
    → (old == 0) ≡ false
    → (addr == 0) ≡ false
    → lookup_route ip (remap_addr now old addr t)
      ≡ moved_to addr (λ a. old == a) (lookup_route ip t)
unfolding remap_addr lookup_route
remap_addr-lookup_route now old addr ip t real new =
    let f =
      λ (ip : Key) (e : Route). if e.addr == old then record { addr = addr; seen = now } else e in
    elim (Option-cases (lookup ip t)) [
      | inl missing ↦ ground (arith, real, new, lookup-update_all f ip t, missing)
      | inr (e, there) ↦ ground (arith, real, new, lookup-update_all f ip t, there)
    ]

abbrev AllReal : List Key → Type 0
AllReal [] = Unit {0}
AllReal (a ∷ l) = ((a == 0) ≡ false) × AllReal l

other_routes-AllReal : (key peer : Key) (m : Assoc Session) → AllReal (other_routes key peer m)
unfolding other_routes
other_routes-AllReal key peer [] = tt
other_routes-AllReal key peer ((k, old) ∷ m) = elim (Bool-cases (is_other_route key peer k old)) [
  | inr off ↦ rw off (other_routes-AllReal key peer m)
  | inl on ↦ elim (Bool-cases (old.addr == 0)) [
    | inl nil ↦ rw (on, nil) (other_routes-AllReal key peer m)
    | inr real ↦ rw (on, real) (real, other_routes-AllReal key peer m)
  ]
]

remap_all-lookup_route :
    (now : ℕ) (l : List Key) (addr ip : Key) (t : Learned)
    → AllReal l
    → (addr == 0) ≡ false
    → lookup_route ip (remap_all now l addr t) ≡ moved_to addr (λ a. has a l) (lookup_route ip t)
unfolding remap_all has
remap_all-lookup_route now [] addr ip t real new = at (lookup_route ip t)
  where
    at : (o : Option Key) → o ≡ moved_to addr (λ a. false) o
    at none = refl
    at (some a) = refl
remap_all-lookup_route now (old ∷ l) addr ip t (first, real) new =
    remap_all-lookup_route now l addr ip (remap_addr now old addr t) real new
    ∙ rw (remap_addr-lookup_route now old addr ip t first new) (at (lookup_route ip t))
  where
    at :
        (o : Option Key)
        → moved_to addr (λ a. has a l) (moved_to addr (λ a. old == a) o)
          ≡ moved_to addr (λ a. (old == a) || has a l) o
    at none = refl
    at (some a) = ground arith

set_session-lookup_route :
    (c : AddrTests) (keepalive now : ℕ) (addr ip : Key) (s : Session) (n : Node)
    → (addr == 0) ≡ false
    → (s.peer_static == 0) ≡ false
    → lookup_route ip (set_session c keepalive now addr s n).learned ≡ (
        let m = insert addr (record s { last_seen = now }) n.by_addr in
        if takes_over c keepalive now addr s.peer_static m
        then moved_to addr (λ a. is_route_of addr s.peer_static a m) (lookup_route ip n.learned)
        else lookup_route ip n.learned)
unfolding set_session
set_session-lookup_route c keepalive now addr ip s n real proper =
    let m = insert addr (record s { last_seen = now }) n.by_addr in
    elim (Bool-cases (takes_over c keepalive now addr s.peer_static m)) [
      | inl primary ↦
          simp (proper, primary)
            (remap_all-lookup_route now (other_routes addr s.peer_static m) addr ip n.learned
                (other_routes-AllReal addr s.peer_static m) real
              ∙ (λ i.
                  moved_to addr (λ a. has-other_routes addr s.peer_static a m i)
                    (lookup_route ip n.learned)))
      | inr backup ↦ simp (proper, backup)
    ]

-- Another established session of the peer, beside the one at an endpoint.
abbrev pub IsSibling : (key peer : Key) → Key × Session → Type 0
IsSibling key peer (k, old) = (k ≢ key) × (old.established ≡ true) × (old.peer_static ≡ peer)

-- One that is at an endpoint.
abbrev pub IsSiblingAt : (key peer at : Key) → Key × Session → Type 0
IsSiblingAt key peer at e = IsSibling key peer e × (e.1.addr ≢ 0) × (e.1.addr ≡ at)

-- One that is live over the LAN.
abbrev pub IsLiveLan : AddrTests → (keepalive now : ℕ) → (key peer : Key) → Key × Session → Type 0
IsLiveLan c keepalive now key peer e =
    IsSibling key peer e
    × (is_private_udp_addr c e.1.addr ≡ true)
    × (now ≤ e.1.last_seen + route_live_timeout keepalive)

abbrev pub AnyOf : (Key × Session → Type 0) → Assoc Session → Type 0
AnyOf P [] = ⊥
AnyOf P (e ∷ m) = P e ⊎ AnyOf P m

abbrev pub NoneOf : (Key × Session → Type 0) → Assoc Session → Type 0
NoneOf P = All (λ e. P e → ⊥)

any_step :
    (b rest : Bool) (P Q NoQ : Type 0)
    → (b ≡ true → P)
    → (P → b ≡ true)
    → ((rest ≡ true) × Q) ⊎ ((rest ≡ false) × NoQ)
    → ((b || rest ≡ true) × (P ⊎ Q)) ⊎ ((b || rest ≡ false) × ((P → ⊥) × NoQ))
any_step true rest P Q NoQ to from more = inl (refl, inl (to refl))
any_step false rest P Q NoQ to from (inl q) = inl (q.0, inr q.1)
any_step false rest P Q NoQ to from (inr q) =
    inr (q.0, ((λ p. absurd (ground (arith, from p))), q.1))

is_route_of-cases :
    (key peer at : Key) (m : Assoc Session)
    → ((is_route_of key peer at m ≡ true) × AnyOf (IsSiblingAt key peer at) m)
      ⊎ ((is_route_of key peer at m ≡ false) × NoneOf (IsSiblingAt key peer at) m)
unfolding is_route_of is_other_route
is_route_of-cases key peer at [] = inr (refl, tt)
is_route_of-cases key peer at ((k, old) ∷ m) =
    any_step (is_other_route key peer k old && not (old.addr == 0) && (old.addr == at))
      (is_route_of key peer at m) (IsSiblingAt key peer at (k, old))
      (AnyOf (IsSiblingAt key peer at) m) (NoneOf (IsSiblingAt key peer at) m)
      (λ yes. (
        (λ e. ground (arith, yes, e), ground (arith, yes), ground (arith, yes)),
        (λ e. ground (arith, yes, e)),
        ground (arith, yes),
      ))
      (λ there. ground (arith, there)) (is_route_of-cases key peer at m)

has_live_lan_route-cases :
    (c : AddrTests) (keepalive now : ℕ) (key peer : Key) (m : Assoc Session)
    → ((has_live_lan_route c keepalive now key peer m ≡ true)
        × AnyOf (IsLiveLan c keepalive now key peer) m)
      ⊎ ((has_live_lan_route c keepalive now key peer m ≡ false)
          × NoneOf (IsLiveLan c keepalive now key peer) m)
unfolding has_live_lan_route is_other_route
has_live_lan_route-cases c keepalive now key peer [] = inr (refl, tt)
has_live_lan_route-cases c keepalive now key peer ((k, old) ∷ m) =
    any_step
      (is_other_route key peer k old
        && is_private_udp_addr c old.addr
        && leb now (old.last_seen + route_live_timeout keepalive))
      (has_live_lan_route c keepalive now key peer m) (IsLiveLan c keepalive now key peer (k, old))
      (AnyOf (IsLiveLan c keepalive now key peer) m) (NoneOf (IsLiveLan c keepalive now key peer) m)
      (λ yes. (
        (λ e. ground (arith, yes, e), ground (arith, yes), ground (arith, yes)),
        ground (arith, yes),
        ground (arith, yes),
      ))
      (λ there. ground (arith, there)) (has_live_lan_route-cases c keepalive now key peer m)

-- Where an overlay IP is routed by then: nowhere, over to the new endpoint, or as before.
abbrev pub MovesRoutes :
    AddrTests
    → (keepalive now : ℕ) → (addr peer : Key) → Assoc Session
    → (before after : Option Key) → Type 0
MovesRoutes c keepalive now addr peer m none after = after ≡ none
MovesRoutes c keepalive now addr peer m (some at) after =
    ((after ≡ some addr)
      × AnyOf (IsSiblingAt addr peer at) m
      × ((is_private_udp_addr c addr ≡ true) ⊎ NoneOf (IsLiveLan c keepalive now addr peer) m))
    ⊎ ((after ≡ some at)
        × (NoneOf (IsSiblingAt addr peer at) m
            ⊎ ((is_private_udp_addr c addr ≡ false)
                × AnyOf (IsLiveLan c keepalive now addr peer) m)))

moved-MovesRoutes :
    (c : AddrTests) (keepalive now : ℕ) (addr peer : Key) (m : Assoc Session) (before : Option Key)
    → MovesRoutes c keepalive now addr peer m before (
        if takes_over c keepalive now addr peer m
        then moved_to addr (λ a. is_route_of addr peer a m) before
        else before)
unfolding takes_over
moved-MovesRoutes c keepalive now addr peer m none = ground arith
moved-MovesRoutes c keepalive now addr peer m (some at) =
    elim (Bool-cases (is_private_udp_addr c addr)) [
      | inl lan ↦ elim (is_route_of-cases addr peer at m) [
        | inl (on, any) ↦ inl (ground (arith, lan, on), any, inl lan)
        | inr (off, none_of) ↦ inr (ground (arith, lan, off), inl none_of)
      ]
      | inr far ↦ elim (has_live_lan_route-cases c keepalive now addr peer m) [
        | inl (live, any) ↦ inr (ground (arith, far, live), inr (far, any))
        | inr (dead, no_lan) ↦ elim (is_route_of-cases addr peer at m) [
          | inl (on, any) ↦ inl (ground (arith, far, dead, on), any, inr no_lan)
          | inr (off, none_of) ↦ inr (ground (arith, far, dead, off), inl none_of)
        ]
      ]
    ]

-- A new session takes over a route exactly when it goes to the endpoint of another established
-- session of the same peer, and the new session is on the LAN or no other established session of the
-- peer is live over the LAN; every other route stays. The session has a key, and the endpoint is not
-- nil.
pub lookup_route-set_session :
    (c : AddrTests) (keepalive now : ℕ) (addr ip : Key) (s : Session) (n : Node)
    → (addr == 0) ≡ false
    → (s.peer_static == 0) ≡ false
    → MovesRoutes c keepalive now addr s.peer_static
        (insert addr (record s { last_seen = now }) n.by_addr)
        (lookup_route ip n.learned)
        (lookup_route ip (set_session c keepalive now addr s n).learned)
lookup_route-set_session c keepalive now addr ip s n real proper =
    let m : Assoc Session = insert addr (record s { last_seen = now }) n.by_addr in
    subst (MovesRoutes c keepalive now addr s.peer_static m (lookup_route ip n.learned))
      (sym (set_session-lookup_route c keepalive now addr ip s n real proper))
      (moved-MovesRoutes c keepalive now addr s.peer_static m (lookup_route ip n.learned))
