-- ===== src/E2e/Bounded.antt =====
-- client/e2erelay.go: the lemmas on the bounds of e2eOpener's table.
use apgo.Prelude.{
  ℕ, ◌*◌, List, [], ◌∷◌, Option, none, some, ◌⊎◌, inl, inr, Bool-cases, ◌≡◌, refl, ap, arith,
}
use apgo.Prelude.Maps.{lookup}
use apgo.Prelude.Text.{Text, text_eq}
use apgo.E2e.{window_mark}
use apgo.E2e.Bitmap.{IsBitmap, mark-IsBitmap, no_window-IsBitmap}
use apgo.E2e.Opener.{
  second, E2eHeader, E2eCrypto, E2eError, RecvState, Opener, E2eCall, Opened, opened, refused,
  recv_key, is_stale, E2eStep, arrives, prunes, time, open_locked, derive_key, store_opened,
  fresh_state, open_derived, open_at, open_parsed, open_read, parse_e2e, step, run,
}
use apgo.E2e.Table.{
  IsReceiver, kept, marked, Moves, change_window, stays, rewrites, store-Moves, prune-Moves,
}

module _ {A : Type 0} (x : E2eCrypto A) where
  pub moved-IsReceiver : (now : ℕ) (o p : Opener A) → IsReceiver o → Moves now o p → IsReceiver p
  moved-IsReceiver now o p v t = record {
    unique = t.unique;
    bounded = t.bounded;
    windows =
        λ k st e. change_window now (lookup k o.m) (lookup k p.m) (t.change k) (v.windows k) st e;
  }

  -- A state after `openLocked`: as it was, or with the counter marked.
  open_locked-cases :
      (st : RecvState A) (body ct : Text) (h : E2eHeader)
      → ((open_locked x st body ct h).0 ≡ st)
        ⊎ ((open_locked x st body ct h).0 ≡ record st { win = window_mark st.win h.ctr })
  unfolding open_locked
  open_locked-cases st body ct h = ground arith

  open_locked-IsBitmap :
      (st : RecvState A) (body ct : Text) (h : E2eHeader)
      → IsBitmap st.win
      → IsBitmap (open_locked x st body ct h).0.win
  open_locked-IsBitmap st body ct h w = elim (open_locked-cases st body ct h) [
    | inl same ↦ rw same w
    | inr moved ↦ rw moved (mark-IsBitmap st.win h.ctr w)
  ]

  store_opened-Moves :
      (now : ℕ) (h : E2eHeader) (o : Opener A) (st : RecvState A) (r : Opened)
      → IsReceiver o
      → IsBitmap st.win
      → Moves now o (store_opened x now h o st r).0
  unfolding store_opened
  store_opened-Moves now h o st (opened g pt) v w = store-Moves now h st pt o v w
  store_opened-Moves now h o st (refused g e) v w = stays now o v

  open_derived-Moves :
      (c : E2eCall) (h : E2eHeader) (ct : Text) (o : Opener A) (d : E2eError ⊎ A)
      → IsReceiver o
      → Moves c.now o (open_derived x c h ct o d).0
  unfolding open_derived
  open_derived-Moves c h ct o (inl e) v = stays c.now o v
  open_derived-Moves c h ct o (inr aead) v =
      store_opened-Moves c.now h o _ _ v
        (open_locked-IsBitmap (fresh_state x aead h) c.body ct h no_window-IsBitmap)

  open_at-Moves :
      (c : E2eCall) (h : E2eHeader) (ct : Text) (o : Opener A) (b : Option (RecvState A))
      → IsReceiver o
      → lookup (recv_key h) o.m ≡ b
      → Moves c.now o (open_at x c h ct o b).0
  unfolding open_at
  open_at-Moves c h ct o none v e = open_derived-Moves c h ct o (derive_key x c h) v
  open_at-Moves c h ct o (some st) v e =
      rewrites c.now o (recv_key h) st _ v e (elim (open_locked-cases st c.body ct h) [
        | inl same ↦ kept (ap some same)
        | inr moved ↦ marked st h.ctr refl (ap some moved)
      ])

  open_parsed-Moves :
      (c : E2eCall) (h : E2eHeader) (ct : Text) (o : Opener A)
      → IsReceiver o
      → Moves c.now o (open_parsed x c h ct o).0
  unfolding open_parsed
  open_parsed-Moves c h ct o v = elim (Bool-cases (text_eq h.sender x.self_pub)) [
    | inl own ↦ rw own (stays c.now o v)
    | inr other ↦ elim (Bool-cases (is_stale c.now (h.ts * second))) [
      | inl late ↦ rw (other, late) (stays c.now o v)
      | inr timely ↦ rw (other, timely) (open_at-Moves c h ct o (lookup (recv_key h) o.m) v refl)
    ]
  ]

  pub open_read-Moves :
      (c : E2eCall) (o : Opener A) (p : E2eError ⊎ (E2eHeader × Text))
      → IsReceiver o
      → Moves c.now o (open_read x c o p).0
  unfolding open_read
  open_read-Moves c o (inl e) v = stays c.now o v
  open_read-Moves c o (inr (h, ct)) v = open_parsed-Moves c h ct o v

  pub step-Moves : (o : Opener A) (s : E2eStep) → IsReceiver o → Moves (time s) o (step x o s)
  unfolding step
  step-Moves o (arrives c) v = open_read-Moves c o (parse_e2e c.body) v
  step-Moves o (prunes now) v = prune-Moves now o v

  pub step-IsReceiver : (o : Opener A) (s : E2eStep) → IsReceiver o → IsReceiver (step x o s)
  step-IsReceiver o s v = moved-IsReceiver (time s) o (step x o s) v (step-Moves o s v)

  -- Whatever frames arrive and whenever the table is pruned, its keys stay distinct and at most 8192,
  -- and every window well formed.
  pub run-IsReceiver : (ss : List E2eStep) (o : Opener A) → IsReceiver o → IsReceiver (run x o ss)
  unfolding run
  run-IsReceiver [] o v = v
  run-IsReceiver (s ∷ ss) o v = run-IsReceiver ss (step x o s) (step-IsReceiver o s v)
