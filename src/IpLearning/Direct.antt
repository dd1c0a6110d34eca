-- ===== src/IpLearning/Direct.antt =====
-- client/ip_learning.go: the lemmas on live direct routes under Learn.
use apgo.Prelude.{
  ℕ, Bool, true, false, List, [], ◌∷◌, some, ◌==◌, ==_refl, All, Bool-cases, Option-cases, ◌≡◌,
  refl, sym, subst, ◌∙◌, inl, inr, arith,
}
use apgo.Prelude.Maps.{Key, lookup, lookup-insert}
use apgo.IpLearning.{
  Sessions, Route, Learned, Choice, leave, refresh, replace, other_device, against, choose, decided,
  learn_over, learn,
}

module _ (s : Sessions) where
  -- A live session of the device that owns the overlay IP.
  abbrev pub IsDirect : Key → Key → Type 0
  IsDirect ip addr =
      (is_live : s.is_live addr ≡ true) × (cur : Key) × (s.established addr ≡ some cur)
      × (s.overlay_ip cur ≡ ip)

  -- The overlay IP has such a route.
  abbrev pub HasDirect : Key → Learned → Type 0
  HasDirect ip t = (e : Route) × (lookup ip t ≡ some e) × IsDirect ip e.addr

  -- An established session that a frame came from is live.
  abbrev pub ComesLive : Key → Type 0
  ComesLive addr = (cur : Key) → s.established addr ≡ some cur → s.is_live addr ≡ true

  -- Only another direct session replaces a live direct route.
  choose-IsDirect :
      (ip old new : Key)
      → IsDirect ip old
      → ComesLive new
      → choose s ip old new (s.established old) ≡ replace
      → IsDirect ip new
  unfolding choose against other_device
  choose-IsDirect ip old new (live, cur, e, owns) comes h =
      elim (Option-cases (s.established new)) [
        | inl none_there ↦ absurd (ground (arith, h, e, none_there, owns, live))
        | inr (cand, there) ↦ elim (Bool-cases (s.overlay_ip cand == ip)) [
          | inl own ↦ (comes cand there, cand, there, ground (arith, own))
          | inr other ↦ absurd (ground (arith, h, e, there, owns, live, other))
        ]
      ]

  decided-HasDirect :
      (now ip addr : Key) (e : Route) (c : Choice) (t : Learned)
      → lookup ip t ≡ some e
      → IsDirect ip e.addr
      → (c ≡ replace → IsDirect ip addr)
      → HasDirect ip (decided now ip addr e c t)
  unfolding decided
  decided-HasDirect now ip addr e leave t h d r = (e, h, d)
  decided-HasDirect now ip addr e refresh t h d r =
      (record e { seen = now }, lookup-insert ip ip _ t ∙ rw (==_refl ip) refl, d)
  decided-HasDirect now ip addr e replace t h d r =
      (record { addr = addr; seen = now }, lookup-insert ip ip _ t ∙ rw (==_refl ip) refl, r refl)

  decided-lookup :
      (now ip j addr : Key) (e : Route) (c : Choice) (t : Learned)
      → (ip == j) ≡ false
      → lookup j (decided now ip addr e c t) ≡ lookup j t
  unfolding decided
  decided-lookup now ip j addr e leave t far = refl
  decided-lookup now ip j addr e refresh t far = lookup-insert ip j _ t ∙ rw far refl
  decided-lookup now ip j addr e replace t far = lookup-insert ip j _ t ∙ rw far refl

  module _ (is_synthetic : Key → Bool) where
    -- A route that is learned for another overlay IP.
    learn-lookup :
        (now ip j addr : Key) (t : Learned)
        → (ip == j) ≡ false
        → lookup j (learn is_synthetic (some s) now ip addr t) ≡ lookup j t
    unfolding learn learn_over
    learn-lookup now ip j addr t far = elim (Bool-cases (is_synthetic addr)) [
      | inl circuit ↦ rw (learn, circuit) refl
      | inr real ↦ elim (Option-cases (lookup ip t)) [
        | inl e ↦ rw (learn, real, e) (lookup-insert ip j _ t ∙ rw far refl)
        | inr (e, h) ↦ elim (Bool-cases (e.addr == addr)) [
          | inl known ↦ rw (learn, real, h, known) (lookup-insert ip j _ t ∙ rw far refl)
          | inr other ↦ rw (learn, real, h, other) (decided-lookup now ip j addr e _ t far)
        ]
      ]
    ]

    learn-HasDirect :
        (now ip addr : Key) (t : Learned)
        → ComesLive addr
        → HasDirect ip t
        → HasDirect ip (learn is_synthetic (some s) now ip addr t)
    unfolding learn learn_over
    learn-HasDirect now ip addr t comes (e, h, d) = elim (Bool-cases (is_synthetic addr)) [
      | inl circuit ↦ rw (learn, circuit) (e, h, d)
      | inr real ↦ elim (Bool-cases (e.addr == addr)) [
        | inl known ↦
            rw (learn, real, h, known)
              (record e { seen = now }, lookup-insert ip ip _ t ∙ rw (==_refl ip) refl, d)
        | inr other ↦
            rw (learn, real, h, other)
              (decided-HasDirect now ip addr e _ t h d (choose-IsDirect ip e.addr addr d comes))
      ]
    ]

    -- A frame of an overlay IP from an endpoint, with its time.
    unfoldable pub learn_all : List (ℕ × Key × Key) → Learned → Learned
    learn_all [] t = t
    learn_all ((now, ip, addr) ∷ frames) t =
        learn_all frames (learn is_synthetic (some s) now ip addr t)

    -- While an overlay IP has a live direct route, no frames, from whatever relays and under whatever
    -- overlay IPs, leave it with a route that is not live or not to the device itself: a frame's
    -- established session counts as live.
    pub learn_all-HasDirect :
        (frames : List (ℕ × Key × Key)) (j : Key) (t : Learned)
        → All (λ f. ComesLive f.2) frames
        → HasDirect j t
        → HasDirect j (learn_all frames t)
    unfolding learn_all
    learn_all-HasDirect [] j t comes d = d
    learn_all-HasDirect ((now, ip, addr) ∷ frames) j t comes d = elim (Bool-cases (ip == j)) [
      | inl same ↦
          let e : ip ≡ j = ground (arith, same) in
          learn_all-HasDirect frames j _ comes.1 (
            subst (λ k. HasDirect k (learn is_synthetic (some s) now ip addr t)) e
              (learn-HasDirect now ip addr t comes.0 (subst (λ k. HasDirect k t) (sym e) d)))
      | inr far ↦
          learn_all-HasDirect frames j _ comes.1 (d.0, learn-lookup now ip j addr t far ∙ d.1, d.2)
    ]
