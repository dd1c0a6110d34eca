-- ===== src/SessionTable/Sweep.antt =====
-- client/sessions.go: the lemmas on what evictStale takes down beside the sessions.
use apgo.Prelude.{
  ℕ, Bool, true, false, not, ◌&&◌, ◌||◌, List, [], ◌∷◌, Option, none, some, ◌==◌, ==_iff,
  if◌then◌else◌, Bool-cases, ◌≡◌, refl, sym, ap, subst, ◌∙◌, inl, inr, arith,
}
use apgo.Prelude.Maps.{
  Key, Assoc, Unique, lookup, retain, lookup-without, lookup-retain, retain-Unique,
}
use apgo.IpLearning.{Route, forget_addr}
use apgo.SessionTable.Steps.{take_down-by_addr}
use apgo.SessionTable.{
  Session, Node, has_route, drop_peer_crypto_if_no_route, is_stale, lost_sessions, notify,
  take_down, take_all_down, evict_stale,
}

-- An established session that the sweep finds stale, at an endpoint or of a key.
unfoldable pub loses_addr : ℕ → ℕ → Key → Assoc Session → Bool
loses_addr keepalive now addr [] = false
loses_addr keepalive now addr ((at, s) ∷ m) =
    (is_stale keepalive now s && s.established && not (s.addr == 0) && (s.addr == addr))
    || loses_addr keepalive now addr m

unfoldable pub loses_key : ℕ → ℕ → Key → Assoc Session → Bool
loses_key keepalive now k [] = false
loses_key keepalive now k ((at, s) ∷ m) =
    (is_stale keepalive now s && s.established && not (s.addr == 0) && (s.peer_static == k))
    || loses_key keepalive now k m

-- The same, read off the list of lost sessions.
has_addr : Key → List (Key × Key) → Bool
has_addr addr [] = false
has_addr addr ((a, k) ∷ l) = (a == addr) || has_addr addr l

has_key : Key → List (Key × Key) → Bool
has_key k [] = false
has_key k ((a, j) ∷ l) = (j == k) || has_key k l

has_addr-lost_sessions :
    (keepalive now : ℕ) (addr : Key) (m : Assoc Session)
    → has_addr addr (lost_sessions keepalive now m) ≡ loses_addr keepalive now addr m
unfolding has_addr lost_sessions loses_addr
has_addr-lost_sessions keepalive now addr [] = refl
has_addr-lost_sessions keepalive now addr ((at, s) ∷ m) =
    ground (arith, has_addr-lost_sessions keepalive now addr m)

has_key-lost_sessions :
    (keepalive now : ℕ) (k : Key) (m : Assoc Session)
    → has_key k (lost_sessions keepalive now m) ≡ loses_key keepalive now k m
unfolding has_key lost_sessions loses_key
has_key-lost_sessions keepalive now k [] = refl
has_key-lost_sessions keepalive now k ((at, s) ∷ m) =
    ground (arith, has_key-lost_sessions keepalive now k m)

drop_peer_crypto-learned :
    (k : Key) (n : Node) → (drop_peer_crypto_if_no_route k n).learned ≡ n.learned
unfolding drop_peer_crypto_if_no_route
drop_peer_crypto-learned k n = ground arith

notify-learned : (a : Key) (n : Node) → (notify a n).learned ≡ n.learned
unfolding notify
notify-learned a n = ground arith

take_down-learned : (a k : Key) (n : Node) → (take_down a k n).learned ≡ forget_addr a n.learned
unfolding take_down
take_down-learned a k n = notify-learned a _ ∙ drop_peer_crypto-learned k _

-- The route of an overlay IP, unless it is to an endpoint that fails a test.
abbrev pub unless : (Key → Bool) → Option Route → Option Route
unless gone none = none
unless gone (some e) = if gone e.addr then none else some e

take_all_down-learned :
    (l : List (Key × Key)) (ip : Key) (n : Node)
    → Unique n.learned
    → lookup ip (take_all_down l n).learned ≡ unless (λ a. has_addr a l) (lookup ip n.learned)
unfolding take_all_down has_addr forget_addr
take_all_down-learned [] ip n u = same (lookup ip n.learned)
  where
    same : (o : Option Route) → o ≡ unless (λ a. false) o
    same none = refl
    same (some e) = refl
take_all_down-learned ((a, k) ∷ l) ip n u =
    let first : lookup ip (take_down a k n).learned ≡ elim (lookup ip n.learned) [
      | none ↦ none
      | some e ↦ if not (e.addr == a) then some e else none
    ] =
      ap (lookup ip) (take_down-learned a k n) ∙ lookup-retain _ ip n.learned u in
    take_all_down-learned l ip (take_down a k n)
      (subst Unique (sym (take_down-learned a k n)) (retain-Unique _ n.learned u))
    ∙ rw first (both (lookup ip n.learned))
  where
    both :
        (o : Option Route)
        → unless
            (λ b. has_addr b l)
            (elim o [ none ↦ none | some e ↦ if not (e.addr == a) then some e else none ])
          ≡ unless (λ b. (a == b) || has_addr b l) o
    both none = refl
    both (some e) = ground arith

-- A sweep forgets the routes to the endpoints whose established session it found stale, and no
-- other route, when no overlay IP is listed twice.
pub lookup-evict_stale_learned :
    (keepalive now : ℕ) (ip : Key) (n : Node)
    → Unique n.learned
    → lookup ip (evict_stale keepalive now n).learned
      ≡ unless (λ a. loses_addr keepalive now a n.by_addr) (lookup ip n.learned)
unfolding evict_stale
lookup-evict_stale_learned keepalive now ip n u =
    take_all_down-learned (lost_sessions keepalive now n.by_addr) ip _ u
    ∙ (λ i. unless (λ a. has_addr-lost_sessions keepalive now a n.by_addr i) (lookup ip n.learned))

-- The post-quantum state of a key, unless it is dropped.
abbrev pub kept {ℓ} : {A : Type ℓ} → Bool → Option A → Option A
kept gone o = if gone then none else o

drop_peer_crypto-pq :
    (j k : Key) (n : Node)
    → lookup k (drop_peer_crypto_if_no_route j n).pq_peers
      ≡ kept ((j == k) && not (k == 0) && not (has_route k n.by_addr)) (lookup k n.pq_peers)
unfolding drop_peer_crypto_if_no_route
drop_peer_crypto-pq j k n = elim (Bool-cases (j == k)) [
  | inl same ↦
      let e : j ≡ k = (==_iff j k).0 same in
      ground (arith, e, lookup-without j k n.pq_peers, ap (λ i. has_route i n.by_addr) e)
  | inr far ↦ ground (arith, far, lookup-without j k n.pq_peers)
]

notify-pq : (a : Key) (n : Node) → (notify a n).pq_peers ≡ n.pq_peers
unfolding notify
notify-pq a n = ground arith

take_down-pq :
    (a j k : Key) (n : Node)
    → lookup k (take_down a j n).pq_peers
      ≡ kept ((j == k) && not (k == 0) && not (has_route k n.by_addr)) (lookup k n.pq_peers)
unfolding take_down
take_down-pq a j k n =
    ap (lookup k) (notify-pq a _)
    ∙ drop_peer_crypto-pq j k (record n { learned = forget_addr a n.learned })

take_all_down-pq :
    (l : List (Key × Key)) (k : Key) (n : Node)
    → lookup k (take_all_down l n).pq_peers
      ≡ kept (has_key k l && not (k == 0) && not (has_route k n.by_addr)) (lookup k n.pq_peers)
unfolding take_all_down has_key
take_all_down-pq [] k n = refl
take_all_down-pq ((a, j) ∷ l) k n =
    take_all_down-pq l k (take_down a j n)
    ∙ rw (take_down-pq a j k n, take_down-by_addr a j n)
        (both (j == k) (has_key k l) (not (k == 0)) (not (has_route k n.by_addr)))
  where
    both :
        (b c d e : Bool)
        → kept (c && d && e) (kept (b && d && e) (lookup k n.pq_peers))
          ≡ kept ((b || c) && d && e) (lookup k n.pq_peers)
    both true true d e = ground arith
    both true false d e = ground arith
    both false c d e = ground arith

-- A sweep forgets the post-quantum state of a peer exactly when it found an established session of
-- the peer stale and no established session of the peer is left: a peer with a second route keeps
-- it. The key is not the zero key.
pub lookup-evict_stale_pq :
    (keepalive now : ℕ) (k : Key) (n : Node)
    → (k == 0) ≡ false
    → lookup k (evict_stale keepalive now n).pq_peers ≡ (
        if loses_key keepalive now k n.by_addr
          && not (has_route k (retain (λ a s. not (is_stale keepalive now s)) n.by_addr))
        then none
        else lookup k n.pq_peers)
unfolding evict_stale
lookup-evict_stale_pq keepalive now k n proper =
    take_all_down-pq (lost_sessions keepalive now n.by_addr) k _
    ∙ rw (has_key-lost_sessions keepalive now k n.by_addr, proper) (ground arith)
