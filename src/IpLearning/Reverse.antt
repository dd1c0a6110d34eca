-- ===== src/IpLearning/Reverse.antt =====
-- client/ip_learning.go: the lemmas on OverlayIPFor, the reverse of the table.
use apgo.Prelude.{
  List, [], ◌∷◌, Option, none, some, ◌==◌, if◌then◌else◌, Bool-cases, ◌≡◌, refl, ◌∙◌, inl, inr,
}
use apgo.Prelude.Maps.{Key}
use apgo.IpLearning.{Learned, overlay_ip_from, overlay_ip_for}

-- The overlay IPs that route to an endpoint, in the order of the table.
unfoldable pub routed_to : Key → Learned → List Key
routed_to addr [] = []
routed_to addr ((ip, e) ∷ t) =
    let rest = routed_to addr t in if e.addr == addr then ip ∷ rest else rest

-- The one element of a list.
abbrev pub the_only : List Key → Option Key
the_only [] = none
the_only (ip ∷ []) = some ip
the_only (ip ∷ other ∷ ips) = none

abbrev after_first : Key → List Key → Option Key
after_first ip [] = some ip
after_first ip (other ∷ ips) = none

after_first_only : (ip : Key) (ips : List Key) → after_first ip ips ≡ the_only (ip ∷ ips)
after_first_only ip [] = refl
after_first_only ip (other ∷ ips) = refl

overlay_ip_from-some :
    (addr ip : Key) (t : Learned)
    → overlay_ip_from addr (some ip) t ≡ after_first ip (routed_to addr t)
unfolding overlay_ip_from routed_to
overlay_ip_from-some addr ip [] = refl
overlay_ip_from-some addr ip ((j, e) ∷ t) = elim (Bool-cases (e.addr == addr)) [
  | inl here ↦ rw here refl
  | inr other ↦ rw other (overlay_ip_from-some addr ip t)
]

overlay_ip_from-none :
    (addr : Key) (t : Learned) → overlay_ip_from addr none t ≡ the_only (routed_to addr t)
unfolding overlay_ip_from routed_to
overlay_ip_from-none addr [] = refl
overlay_ip_from-none addr ((j, e) ∷ t) = elim (Bool-cases (e.addr == addr)) [
  | inl here ↦ rw here (overlay_ip_from-some addr j t ∙ after_first_only j (routed_to addr t))
  | inr other ↦ rw other (overlay_ip_from-none addr t)
]

-- An endpoint is labelled with an overlay IP exactly when that one, and no other, routes to it.
pub overlay_ip_for_only :
    (addr : Key) (t : Learned)
    → overlay_ip_for addr t ≡ (if addr == 0 then none else the_only (routed_to addr t))
unfolding overlay_ip_for
overlay_ip_for_only addr t = elim (Bool-cases (addr == 0)) [
  | inl nil ↦ rw nil refl
  | inr real ↦ rw real (overlay_ip_from-none addr t)
]
