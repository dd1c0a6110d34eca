-- ===== src/E2e/Once.antt =====
-- client/e2erelay.go: the lemmas on replays at e2eOpener.
use apgo.Prelude.{
  ℕ, ◌*◌, ◌≤◌, true, false, List, [], ◌∷◌, Option, ◌⊎◌, inl, inr, Bool-cases, ◌≡◌, refl, subst,
  arith,
}
use apgo.Prelude.Maps.{lookup}
use apgo.Prelude.Text.{Text, text_eq}
use apgo.E2e.Spent.{IsSpent, change-IsSpent, Holds, NotOlder, open_parsed-Holds}
use apgo.E2e.Opener.{
  second, E2eHeader, E2eCrypto, E2eError, RecvState, Opener, E2eCall, recv_key, is_stale, E2eStep,
  time, open_locked, is_opened, open_at, open_parsed, open_read, open_e2e, parse_e2e, step, run,
}
use apgo.E2e.Table.{IsReceiver, kept}
use apgo.E2e.Bounded.{step-Moves, step-IsReceiver, open_read-Moves, moved-IsReceiver}

-- The steps come in the order of the clock, from `first` to `last`.
abbrev pub InOrder : (first : ℕ) → List E2eStep → (last : ℕ) → Type 0
InOrder first [] last = first ≤ last
InOrder first (s ∷ ss) last = (first ≤ time s) × InOrder (time s) ss last

-- The same sender's key, timestamp and counter, whatever the hop counter and the rest.
pub record SameFrame (h g : E2eHeader) : Type 0 where
  pub key : recv_key g ≡ recv_key h
  pub ts : g.ts ≡ h.ts
  pub ctr : g.ctr ≡ h.ctr

module _ {A : Type 0} (x : E2eCrypto A) where
  -- A frame whose counter is used up is refused.
  open_at-refused :
      (c : E2eCall) (h : E2eHeader) (ct : Text) (o : Opener A) (b : Option (RecvState A))
      → is_stale c.now (h.ts * second) ≡ false
      → IsSpent h.ctr (h.ts * second) c.now b
      → is_opened (open_at x c h ct o b).1 ≡ false
  unfolding IsSpent is_stale open_at open_locked
  open_at-refused c h ct o b s (inr late) = absurd (ground (arith, s))
  open_at-refused c h ct o b s (inl (st, e, w, r, t)) = rw (e, r) refl

  open_parsed-refused :
      (c : E2eCall) (h : E2eHeader) (ct : Text) (o : Opener A)
      → IsSpent h.ctr (h.ts * second) c.now (lookup (recv_key h) o.m)
      → is_opened (open_parsed x c h ct o).1 ≡ false
  unfolding open_parsed
  open_parsed-refused c h ct o s = elim (Bool-cases (text_eq h.sender x.self_pub)) [
    | inl own ↦ rw own refl
    | inr other ↦ elim (Bool-cases (is_stale c.now (h.ts * second))) [
      | inl late ↦ rw (other, late) refl
      | inr timely ↦
          rw (other, timely) (open_at-refused c h ct o (lookup (recv_key h) o.m) timely s)
    ]
  ]

  run-IsSpent :
      (ss : List E2eStep) (o : Opener A) (k n ts first last : ℕ)
      → IsReceiver o
      → InOrder first ss last
      → IsSpent n ts first (lookup k o.m)
      → IsSpent n ts last (lookup k (run x o ss).m)
  unfolding run
  run-IsSpent [] o k n ts first last v l s = change-IsSpent n ts first last _ _ l (kept refl) s
  run-IsSpent (s ∷ ss) o k n ts first last v (l, ls) spent =
      run-IsSpent ss (step x o s) k n ts (time s) last (step-IsReceiver x o s v) ls
        (change-IsSpent n ts first (time s) _ _ l ((step-Moves x o s v).change k) spent)

  -- A frame that was opened is refused ever after: whatever frames arrive and whenever the table is
  -- pruned in between, in the order of the clock, a frame with the same key, timestamp and counter is
  -- not opened again. The table is well formed, and its state for the key, if any, is not older than
  -- the frame.
  pub open_e2e-once :
      (o : Opener A) (c again : E2eCall) (between : List E2eStep) (h g : E2eHeader) (ct ct2 : Text)
      → IsReceiver o
      → NotOlder h o
      → parse_e2e c.body ≡ inr (h, ct)
      → parse_e2e again.body ≡ inr (g, ct2)
      → SameFrame h g
      → InOrder c.now between again.now
      → is_opened (open_e2e x c o).1 ≡ true
      → is_opened (open_e2e x again (run x (open_e2e x c o).0 between)).1 ≡ false
  unfolding open_read Holds
  open_e2e-once o c again between h g ct ct2 v old p q same order done =
      let opened_now : is_opened (open_parsed x c h ct o).1 ≡ true =
        subst (λ (r : E2eError ⊎ (E2eHeader × Text)). is_opened (open_read x c o r).1 ≡ true) p
          done in
      let t = (open_parsed x c h ct o).0 in
      let w : IsReceiver t =
        moved-IsReceiver x c.now o t v (open_read-Moves x c o (inr (h, ct)) v) in
      let spent : IsSpent h.ctr (h.ts * second) c.now (lookup (recv_key h) t.m) =
        change-IsSpent h.ctr (h.ts * second) 0 c.now _ _ (omega arith) (kept refl)
          (open_parsed-Holds x c h ct o v old opened_now) in
      rw (p, q)
        (open_parsed-refused again g ct2 (run x t between) (
          rw (same.key, same.ts, same.ctr)
            (run-IsSpent between t (recv_key h) h.ctr (h.ts * second) c.now again.now w order
              spent)))
