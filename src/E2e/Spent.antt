-- ===== src/E2e/Spent.antt =====
-- client/e2erelay.go: a used-up counter of e2eOpener, and the opening that uses it up.
use mathlib.Core.Option.{some-injective}
use apgo.Prelude.{
  ℕ, ◌+◌, ◌*◌, ◌≤◌, ◌<◌, true, false, Option, none, some, ◌⊎◌, inl, inr, leb, ==_refl, Bool-cases,
  ◌≡◌, refl, sym, subst, ◌∙◌, ap, arith, length,
}
use apgo.Prelude.Maps.{lookup, insert, lookup-insert}
use apgo.Prelude.Text.{Text, text_eq}
use apgo.Window.{mark_refuses, mark_keeps_refusal}
use apgo.E2e.{window_ok, window_mark}
use apgo.E2e.Bitmap.{IsBitmap, mark-IsBitmap, no_window-IsBitmap, e2e_window}
use apgo.E2e.Opener.{
  second, e2e_max_skew, e2e_max_recv_keys, E2eHeader, E2eCrypto, E2eError, RecvState, Opener,
  E2eCall, Opened, opened, refused, recv_key, is_stale, open_locked, derive_key, is_opened,
  make_room, store_new, store, store_opened, fresh_state, open_derived, open_at, open_parsed,
}
use apgo.E2e.Table.{IsReceiver, Change, kept, marked, expired, begun}

module _ {A : Type 0} where
  -- The counter `n` of a key is used up: its window refuses it, or its timestamp is out of date.
  unfoldable pub IsSpent : (n ts now : ℕ) → Option (RecvState A) → Type 0
  IsSpent n ts now b =
      ((st : RecvState A) × (b ≡ some st)
        × IsBitmap st.win
        × (window_ok st.win n ≡ false)
        × (ts ≤ st.ts))
      ⊎ (ts + e2e_max_skew < now)

  pub change-IsSpent :
      (n ts before now : ℕ) (b a : Option (RecvState A))
      → before ≤ now
      → Change now b a
      → IsSpent n ts before b
      → IsSpent n ts now a
  unfolding IsSpent
  change-IsSpent n ts before now b a l c (inr late) = inr (omega arith)
  change-IsSpent n ts before now b a l (kept e) (inl (st, p, w, r, t)) = inl (st, e ∙ p, w, r, t)
  change-IsSpent n ts before now b a l (marked st k e f) (inl (s, p, w, r, t)) =
      let same : st ≡ s = some-injective _ _ (sym e ∙ p) in
      inl (
        record st { win = window_mark st.win k },
        f,
        rw same (mark-IsBitmap s.win k w),
        rw same (mark_keeps_refusal e2e_window s.win k n w r),
        rw same t,
      )
  change-IsSpent n ts before now b a l (expired st e late f) (inl (s, p, w, r, t)) =
      let same : st.ts ≡ s.ts = ap (λ (z : RecvState A). z.ts) (some-injective _ _ (sym e ∙ p)) in
      inr (omega (arith, same))
  change-IsSpent n ts before now b a l (begun st e f v) (inl (s, p, w, r, t)) =
      absurd (ground (arith, sym e ∙ p))

  -- The state of the frame's key holds the frame's counter.
  unfoldable pub Holds : E2eHeader → Opener A → Type 0
  Holds h o = IsSpent h.ctr (h.ts * second) 0 (lookup (recv_key h) o.m)

  -- The states of the frame's key are not older than the frame.
  abbrev pub NotOlder : E2eHeader → Opener A → Type 0
  NotOlder h o = (st : RecvState A) → lookup (recv_key h) o.m ≡ some st → h.ts * second ≤ st.ts

  -- A state written with the frame's counter marked.
  marked-Holds :
      (h : E2eHeader) (o : Opener A) (st : RecvState A)
      → IsBitmap st.win
      → h.ts * second ≤ st.ts
      → Holds h
          (record { m = insert (recv_key h) (record st { win = window_mark st.win h.ctr }) o.m })
  unfolding IsSpent Holds
  marked-Holds h o st w t =
      let new : RecvState A = record st { win = window_mark st.win h.ctr } in
      inl (
        new,
        lookup-insert (recv_key h) (recv_key h) new o.m ∙ rw (==_refl (recv_key h)) refl,
        mark-IsBitmap st.win h.ctr w,
        mark_refuses e2e_window st.win h.ctr w,
        t,
      )

module _ {A : Type 0} (x : E2eCrypto A) where
  open_locked_opened :
      (st : RecvState A) (body ct : Text) (h : E2eHeader)
      → is_opened (open_locked x st body ct h).1 ≡ true
      → (open_locked x st body ct h).0 ≡ record st { win = window_mark st.win h.ctr }
  unfolding open_locked
  open_locked_opened st body ct h p = ground arith

  store_new-Holds :
      (now : ℕ) (h : E2eHeader) (st : RecvState A) (pt : Text) (o : Opener A)
      → IsBitmap st.win
      → h.ts * second ≤ st.ts
      → is_opened (store_new now h (record st { win = window_mark st.win h.ctr }) pt o).1 ≡ true
      → Holds h (store_new now h (record st { win = window_mark st.win h.ctr }) pt o).0
  unfolding store_new
  store_new-Holds now h st pt o w t p =
      elim (Bool-cases (leb e2e_max_recv_keys (length (make_room now o).m))) [
        | inl full ↦ absurd (ground (arith, p, full))
        | inr fits ↦ rw fits (marked-Holds h (make_room now o) st w t)
      ]

  store-Holds :
      (now : ℕ) (h : E2eHeader) (st : RecvState A) (pt : Text) (o : Opener A)
      → IsReceiver o
      → NotOlder h o
      → IsBitmap st.win
      → h.ts * second ≤ st.ts
      → is_opened (store now h (record st { win = window_mark st.win h.ctr }) pt o).1 ≡ true
      → Holds h (store now h (record st { win = window_mark st.win h.ctr }) pt o).0
  unfolding store
  store-Holds now h st pt o v old w t = at (lookup (recv_key h) o.m) refl
    where
      fresh : RecvState A
      fresh = record st { win = window_mark st.win h.ctr }

      at :
          (b : Option (RecvState A))
          → lookup (recv_key h) o.m ≡ b
          → is_opened (store now h fresh pt o).1 ≡ true
          → Holds h (store now h fresh pt o).0
      at none e = rw (store, e) (store_new-Holds now h st pt o w t)
      at (some cur) e = elim (Bool-cases (window_ok cur.win h.ctr)) [
        | inl new ↦
            rw (store, e, new)
              (λ p. marked-Holds h o cur (v.windows (recv_key h) cur e) (old cur e))
        | inr seen ↦ rw (store, e, seen) (λ p. absurd (ground (arith, p)))
      ]

  store_opened-Holds :
      (now : ℕ) (h : E2eHeader) (st : RecvState A) (r : Opened) (o : Opener A)
      → IsReceiver o
      → NotOlder h o
      → IsBitmap st.win
      → h.ts * second ≤ st.ts
      → is_opened (store_opened x now h o (record st { win = window_mark st.win h.ctr }) r).1 ≡ true
      → Holds h (store_opened x now h o (record st { win = window_mark st.win h.ctr }) r).0
  unfolding store_opened
  store_opened-Holds now h st (opened g pt) o v old w t p = store-Holds now h st pt o v old w t p
  store_opened-Holds now h st (refused g e) o v old w t p = absurd (ground (arith, p))

  store_opened_only :
      (now : ℕ) (h : E2eHeader) (st : RecvState A) (r : Opened) (o : Opener A)
      → is_opened (store_opened x now h o st r).1 ≡ true
      → is_opened r ≡ true
  unfolding store_opened
  store_opened_only now h st (opened g pt) o p = refl
  store_opened_only now h st (refused g e) o p = p

  open_derived-Holds :
      (c : E2eCall) (h : E2eHeader) (ct : Text) (o : Opener A) (d : E2eError ⊎ A)
      → IsReceiver o
      → NotOlder h o
      → is_opened (open_derived x c h ct o d).1 ≡ true
      → Holds h (open_derived x c h ct o d).0
  unfolding open_derived
  open_derived-Holds c h ct o (inl e) v old p = absurd (ground (arith, p))
  open_derived-Holds c h ct o (inr aead) v old p =
      let fresh = fresh_state x aead h in
      let r = open_locked x fresh c.body ct h in
      let moved : r.0 ≡ record fresh { win = window_mark fresh.win h.ctr } =
        open_locked_opened fresh c.body ct h (store_opened_only c.now h r.0 r.1 o p) in
      subst
        (λ (s : RecvState A).
          is_opened (store_opened x c.now h o s r.1).1 ≡ true
          → Holds h (store_opened x c.now h o s r.1).0)
        (sym moved) (store_opened-Holds c.now h fresh r.1 o v old no_window-IsBitmap (omega arith))
        p

  open_at-Holds :
      (c : E2eCall) (h : E2eHeader) (ct : Text) (o : Opener A) (b : Option (RecvState A))
      → IsReceiver o
      → NotOlder h o
      → lookup (recv_key h) o.m ≡ b
      → is_opened (open_at x c h ct o b).1 ≡ true
      → Holds h (open_at x c h ct o b).0
  unfolding open_at
  open_at-Holds c h ct o none v old e p = open_derived-Holds c h ct o (derive_key x c h) v old p
  open_at-Holds c h ct o (some st) v old e p =
      rw (open_locked_opened st c.body ct h p)
        (marked-Holds h o st (v.windows (recv_key h) st e) (old st e))

  pub open_parsed-Holds :
      (c : E2eCall) (h : E2eHeader) (ct : Text) (o : Opener A)
      → IsReceiver o
      → NotOlder h o
      → is_opened (open_parsed x c h ct o).1 ≡ true
      → Holds h (open_parsed x c h ct o).0
  unfolding open_parsed
  open_parsed-Holds c h ct o v old = elim (Bool-cases (text_eq h.sender x.self_pub)) [
    | inl own ↦ rw own (λ p. absurd (ground (arith, p)))
    | inr other ↦ elim (Bool-cases (is_stale c.now (h.ts * second))) [
      | inl late ↦ rw (other, late) (λ p. absurd (ground (arith, p)))
      | inr timely ↦
          rw (other, timely) (λ p. open_at-Holds c h ct o (lookup (recv_key h) o.m) v old refl p)
    ]
  ]
