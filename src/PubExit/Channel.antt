-- ===== src/PubExit/Channel.antt =====
-- client/pubexit_proto.go: the lemmas on replays at a channel.
use apgo.Prelude.{
  ℕ, ◌+◌, false, List, [], ◌∷◌, Option, none, some, ◌⊎◌, inl, inr, ltb, length, take, drop, ◌≡◌,
  refl, arith,
}
use apgo.Prelude.Text.{Text}
use apgo.Window.{mark_refuses, mark_keeps_refusal}
use apgo.E2e.{window_ok, window_mark}
use apgo.E2e.Bitmap.{IsBitmap, mark-IsBitmap, e2e_window}
use apgo.PubExit.{
  px_hdr_len, PxChannel, px_opened, px_refused, px_replayed, px_accept, px_read, px_ctr, px_open,
}

module _ (cipher : ℕ → Text → Text → Option Text) where
  unfoldable pub open_all : List Text → PxChannel → PxChannel
  open_all [] c = c
  open_all (d ∷ ds) c = open_all ds (px_open cipher d c).0

  px_read-cases :
      (ctr : ℕ) (pt : Option Text) (c : PxChannel)
      → ((px_read ctr pt c).0 ≡ c)
        ⊎ ((px_read ctr pt c).0 ≡ record c { win = window_mark c.win ctr })
  unfolding px_read px_accept
  px_read-cases ctr none c = inl refl
  px_read-cases ctr (some []) c = inl refl
  px_read-cases ctr (some (kind ∷ body)) c = ground arith

  -- A datagram leaves the channel alone, or marks its counter.
  px_open-cases :
      (d : Text) (c : PxChannel)
      → ((px_open cipher d c).0 ≡ c)
        ⊎ ((px_open cipher d c).0 ≡ record c { win = window_mark c.win (px_ctr d) })
  unfolding px_open
  px_open-cases d c = ground (
    arith,
    px_read-cases (px_ctr d) (cipher (px_ctr d) (take px_hdr_len d) (drop px_hdr_len d)) c,
  )

  px_open-Spent :
      (d : Text) (c : PxChannel) (n : ℕ)
      → IsBitmap c.win
      → window_ok c.win n ≡ false
      → IsBitmap (px_open cipher d c).0.win × (window_ok (px_open cipher d c).0.win n ≡ false)
  px_open-Spent d c n v h = elim (px_open-cases d c) [
    | inl same ↦ rw same (v, h)
    | inr marked ↦
        rw marked
          (mark-IsBitmap c.win (px_ctr d) v, mark_keeps_refusal e2e_window c.win (px_ctr d) n v h)
  ]

  open_all-Spent :
      (ds : List Text) (c : PxChannel) (n : ℕ)
      → IsBitmap c.win
      → window_ok c.win n ≡ false
      → window_ok (open_all ds c).win n ≡ false
  unfolding open_all
  open_all-Spent [] c n v h = h
  open_all-Spent (d ∷ ds) c n v h =
      let (w, k) = px_open-Spent d c n v h in open_all-Spent ds (px_open cipher d c).0 n w k

  px_read_opened :
      (ctr : ℕ) (pt : Option Text) (c : PxChannel) (kind : ℕ) (body : Text)
      → (px_read ctr pt c).1 ≡ px_opened kind body
      → (px_read ctr pt c).0 ≡ record c { win = window_mark c.win ctr }
  unfolding px_read px_accept
  px_read_opened ctr none c kind body h = absurd (ground (arith, h))
  px_read_opened ctr (some []) c kind body h = absurd (ground (arith, h))
  px_read_opened ctr (some (k ∷ b)) c kind body h = ground (arith, h)

  px_open_opened :
      (d : Text) (c : PxChannel) (kind : ℕ) (body : Text)
      → (px_open cipher d c).1 ≡ px_opened kind body
      → (ltb (length d) (px_hdr_len + 1 + 16) ≡ false)
        × ((px_open cipher d c).0 ≡ record c { win = window_mark c.win (px_ctr d) })
  unfolding px_open
  px_open_opened d c kind body h = ground (
    arith,
    h,
    px_read_opened (px_ctr d) (cipher (px_ctr d) (take px_hdr_len d) (drop px_hdr_len d)) c kind
        body,
  )

  refused_again :
      (d : Text) (c : PxChannel)
      → ltb (length d) (px_hdr_len + 1 + 16) ≡ false
      → window_ok c.win (px_ctr d) ≡ false
      → px_open cipher d c ≡ (c, px_refused px_replayed)
  unfolding px_open
  refused_again d c long h = rw (long, h) refl

  -- A datagram that a channel with a well-formed window opened once is refused from then on as a
  -- replay, whatever datagrams arrive in between, and the channel stays as it is.
  pub px_open-px_replayed :
      (c : PxChannel) (d body : Text) (kind : ℕ) (between : List Text)
      → IsBitmap c.win
      → (px_open cipher d c).1 ≡ px_opened kind body
      → px_open cipher d (open_all between (px_open cipher d c).0)
        ≡ (open_all between (px_open cipher d c).0, px_refused px_replayed)
  px_open-px_replayed c d body kind between v h =
      let (long, marked) = px_open_opened d c kind body h in
      refused_again d (open_all between (px_open cipher d c).0) long (
        rw marked (
          open_all-Spent between (record c { win = window_mark c.win (px_ctr d) }) (px_ctr d)
            (mark-IsBitmap c.win (px_ctr d) v) (mark_refuses e2e_window c.win (px_ctr d) v)))
