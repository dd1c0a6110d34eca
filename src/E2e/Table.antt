-- ===== src/E2e/Table.antt =====
-- What one step of e2eOpener does to its table, key by key.
use mathlib.Core.Option.{some-injective}
use apgo.Prelude.{
  ℕ, ◌+◌, ◌≤◌, ◌<◌, Bool, not, Option, none, some, inl, inr, ltb, leb, ltb→lt, ◌==◌, length,
  Bool-cases, ◌≡◌, refl, sym, ◌∙◌, subst, ap, arith,
}
use apgo.Prelude.Maps.{
  Key, lookup, insert, retain, Unique, lookup-insert, lookup-retain, length-insert,
  length-retain-le, insert-Unique, retain-Unique,
}
use apgo.Prelude.Text.{Text}
use apgo.E2e.{window_ok, window_mark}
use apgo.E2e.Bitmap.{IsBitmap, mark-IsBitmap}
use apgo.E2e.Opener.{
  e2e_recv_keep, e2e_max_recv_keys, E2eHeader, RecvState, Opener, recv_key, prune, make_room,
  store_new, store,
}

module _ {A : Type 0} where
  -- Distinct keys, no more than the limit, each with a well-formed window.
  pub record IsReceiver (o : Opener A) : Type 0 where
    pub unique : Unique o.m
    pub bounded : length o.m ≤ e2e_max_recv_keys
    pub windows : (k : Key) (st : RecvState A) → lookup k o.m ≡ some st → IsBitmap st.win

  -- What one call may do to the state of one key.
  pub data Change (now : ℕ) (before after : Option (RecvState A)) : Type 0 where
    kept : after ≡ before → Change now before after
    marked :
        (st : RecvState A) (n : ℕ)
        → before ≡ some st
        → after ≡ some (record st { win = window_mark st.win n })
        → Change now before after
    expired :
        (st : RecvState A)
        → before ≡ some st
        → st.ts + e2e_recv_keep < now
        → after ≡ none
        → Change now before after
    begun :
        (st : RecvState A)
        → before ≡ none
        → after ≡ some st
        → IsBitmap st.win
        → Change now before after

  prune-Change :
      (now : ℕ) (o : Opener A) (k : Key)
      → Unique o.m
      → Change now (lookup k o.m) (lookup k (prune now o).m)
  unfolding prune
  prune-Change now o k u = at (lookup k o.m) refl
    where
      rule : Key → RecvState A → Bool
      rule j v = not (ltb (v.ts + e2e_recv_keep) now)

      at :
          (b : Option (RecvState A))
          → lookup k o.m ≡ b
          → Change now (lookup k o.m) (lookup k (retain rule o.m))
      at none e = kept (lookup-retain rule k o.m u ∙ rw e (sym refl))
      at (some st) e = elim (Bool-cases (ltb (st.ts + e2e_recv_keep) now)) [
        | inl old ↦ expired st e (ltb→lt _ _ old) (lookup-retain rule k o.m u ∙ rw (e, old) refl)
        | inr young ↦ kept (lookup-retain rule k o.m u ∙ rw (e, young) refl)
      ]

  pub change_window :
      (now : ℕ) (b a : Option (RecvState A))
      → Change now b a
      → ((st : RecvState A) → b ≡ some st → IsBitmap st.win)
      → (st : RecvState A) → a ≡ some st
      → IsBitmap st.win
  change_window now b a (kept e) w st h = w st (sym e ∙ h)
  change_window now b a (marked old n e f) w st h =
      subst (λ (s : RecvState A). IsBitmap s.win) (some-injective _ _ (sym f ∙ h))
        (mark-IsBitmap old.win n (w old e))
  change_window now b a (expired old e t f) w st h = absurd (ground (arith, sym f ∙ h))
  change_window now b a (begun new e f v) w st h =
      subst (λ (s : RecvState A). IsBitmap s.win) (some-injective _ _ (sym f ∙ h)) v

  -- A write of one key, seen from any key.
  insert-Change :
      (now : ℕ) (o : Opener A) (at k : Key) (st : RecvState A)
      → Change now (lookup at o.m) (some st)
      → Change now (lookup k o.m) (lookup k (insert at st o.m))
  insert-Change now o at k st c = elim (Bool-cases (at == k)) [
    | inl same ↦
        let e : at ≡ k = ground (arith, same) in
        rw (lookup-insert at k st o.m, same)
          (subst (λ (j : Key). Change now (lookup j o.m) (some st)) e c)
    | inr far ↦ kept (lookup-insert at k st o.m ∙ rw far refl)
  ]

  make_room-Change :
      (now : ℕ) (o : Opener A) (k : Key)
      → Unique o.m
      → Change now (lookup k o.m) (lookup k (make_room now o).m)
  unfolding make_room lookup
  make_room-Change now o k u = elim (Bool-cases (leb e2e_max_recv_keys (length o.m))) [
    | inl full ↦ rw (make_room, full) (prune-Change now o k u)
    | inr room ↦ rw (make_room, room) (kept refl)
  ]

  begin-Change :
      (now : ℕ) (o : Opener A) (at k : Key) (fresh : RecvState A)
      → Unique o.m
      → lookup at o.m ≡ none
      → IsBitmap fresh.win
      → Change now (lookup k o.m) (lookup k (insert at fresh (make_room now o).m))
  begin-Change now o at k fresh u missing w = elim (Bool-cases (at == k)) [
    | inl same ↦
        let e : at ≡ k = ground (arith, same) in
        begun fresh (ap (λ j. lookup j o.m) (sym e) ∙ missing)
          (lookup-insert at k fresh (make_room now o).m ∙ rw same refl) w
    | inr far ↦
        let untouched : lookup k (insert at fresh (make_room now o).m)
            ≡ lookup k (make_room now o).m =
          lookup-insert at k fresh (make_room now o).m ∙ rw far refl in
        rw untouched (make_room-Change now o k u)
  ]

  -- What one call may do to the table.
  pub record Moves (now : ℕ) (o p : Opener A) : Type 0 where
    pub unique : Unique p.m
    pub bounded : length p.m ≤ e2e_max_recv_keys
    pub change : (k : Key) → Change now (lookup k o.m) (lookup k p.m)

  pub stays : (now : ℕ) (o : Opener A) → IsReceiver o → Moves now o o
  stays now o v = record { unique = v.unique; bounded = v.bounded; change = λ k. kept refl }

  pub rewrites :
      (now : ℕ) (o : Opener A) (at : Key) (old new : RecvState A)
      → IsReceiver o
      → lookup at o.m ≡ some old
      → Change now (some old) (some new)
      → Moves now o (record { m = insert at new o.m })
  rewrites now o at old new v e c = record {
    unique = insert-Unique at new o.m v.unique;
    bounded = rw (length-insert at new o.m, e) v.bounded;
    change = λ k. insert-Change now o at k new (subst (λ b. Change now b (some new)) (sym e) c);
  }

  pub prune-Moves : (now : ℕ) (o : Opener A) → IsReceiver o → Moves now o (prune now o)
  unfolding prune
  prune-Moves now o v = record {
    unique = retain-Unique _ o.m v.unique;
    bounded =
        omega
          (arith, v.bounded, length-retain-le (λ j st. not (ltb (st.ts + e2e_recv_keep) now)) o.m);
    change = λ k. prune-Change now o k v.unique;
  }

  make_room-Moves : (now : ℕ) (o : Opener A) → IsReceiver o → Moves now o (make_room now o)
  unfolding make_room
  make_room-Moves now o v = elim (Bool-cases (leb e2e_max_recv_keys (length o.m))) [
    | inl full ↦ rw full (prune-Moves now o v)
    | inr room ↦ rw room (stays now o v)
  ]

  store_new-Moves :
      (now : ℕ) (h : E2eHeader) (fresh : RecvState A) (pt : Text) (o : Opener A)
      → IsReceiver o
      → lookup (recv_key h) o.m ≡ none
      → IsBitmap fresh.win
      → Moves now o (store_new now h fresh pt o).0
  unfolding store_new
  store_new-Moves now h fresh pt o v missing w =
      let room = make_room now o in
      let made = make_room-Moves now o v in
      elim (Bool-cases (leb e2e_max_recv_keys (length room.m))) [
        | inl full ↦ rw full made
        | inr fits ↦ rw fits (record {
          unique = insert-Unique (recv_key h) fresh room.m made.unique;
          bounded = ground (arith, length-insert (recv_key h) fresh room.m, made.bounded, fits);
          change = λ k. begin-Change now o (recv_key h) k fresh v.unique missing w;
        })
      ]

  pub store-Moves :
      (now : ℕ) (h : E2eHeader) (fresh : RecvState A) (pt : Text) (o : Opener A)
      → IsReceiver o
      → IsBitmap fresh.win
      → Moves now o (store now h fresh pt o).0
  unfolding store
  store-Moves now h fresh pt o v w = at (lookup (recv_key h) o.m) refl
    where
      at :
          (b : Option (RecvState A))
          → lookup (recv_key h) o.m ≡ b
          → Moves now o (store now h fresh pt o).0
      at none e = rw (store, e) (store_new-Moves now h fresh pt o v e w)
      at (some cur) e = elim (Bool-cases (window_ok cur.win h.ctr)) [
        | inl new ↦
            rw (store, e, new) (rewrites now o (recv_key h) cur _ v e (marked cur h.ctr refl refl))
        | inr old ↦ rw (store, e, old) (stays now o v)
      ]
