-- ===== src/E2e/Delivery.antt =====
-- client/e2erelay.go: the lemmas on the way of a frame from e2eSealer to e2eOpener.
use mathlib.Core.List.{append_assoc, append-nil}
use apgo.Prelude.{
  ℕ, ◌*◌, ◌^◌, ◌<◌, ◌≤◌, true, false, [], ◌∷◌, ◌++◌, none, some, ◌⊎◌, inl, inr, leb, set, take,
  length, length-append, take_prefix, ◌≡◌, refl, sym, ap, ◌∙◌, arith,
}
use apgo.Prelude.Maps.{lookup}
use apgo.Prelude.Text.{Text, text_eq, be_value, put_be, be_value-put_be, length-put_be}
use apgo.E2e.{window_ok}
use apgo.E2e.Bitmap.{no_window_takes}
use apgo.E2e.Opener.{
  second, e2e_max_recv_keys, E2eHeader, E2eCrypto, RecvState, Opener, E2eCall, opened, recv_key,
  is_stale, e2e_ad, parse_e2e, open_locked, derive_key, make_room, store_new, store, store_opened,
  open_derived, open_at, open_parsed, open_read, open_e2e,
}
use apgo.E2e.Sealer.{SealCrypto, SealCall, SendState, pqid_of, seal_header, seal_body}
use apgo.E2e.Sealed.{length-wire, parse_e2e-wire}

module _ {A : Type 0} (y : E2eCrypto A) (call : E2eCall) (h : E2eHeader) (aead : A) where
  -- The receiver has the key: in its table with a window that takes the counter, or, with room in the
  -- table, by deriving it.
  abbrev pub HasKey : Opener A → Type 0
  HasKey o =
      ((st : RecvState A) × (lookup (recv_key h) o.m ≡ some st)
        × (st.aead ≡ aead)
        × (window_ok st.win h.ctr ≡ true))
      ⊎ ((lookup (recv_key h) o.m ≡ none)
          × (derive_key y call h ≡ inr aead)
          × (length o.m < e2e_max_recv_keys))

module _ {A : Type 0} (y : E2eCrypto A) (call : E2eCall) (h : E2eHeader) (ct pt : Text)
    (aead : A) where
  open_at_known :
      (o : Opener A) (st : RecvState A)
      → st.aead ≡ aead
      → window_ok st.win h.ctr ≡ true
      → y.open_aead aead h.ctr (e2e_ad call.body) ct ≡ some pt
      → (open_at y call h ct o (some st)).1 ≡ opened h pt
  unfolding open_at open_locked
  open_at_known o st e w p = rw (w, e, p) refl

  open_at_derived :
      (o : Opener A)
      → lookup (recv_key h) o.m ≡ none
      → derive_key y call h ≡ inr aead
      → length o.m < e2e_max_recv_keys
      → y.open_aead aead h.ctr (e2e_ad call.body) ct ≡ some pt
      → (open_at y call h ct o none).1 ≡ opened h pt
  unfolding open_at open_derived open_locked store_opened store store_new make_room
  open_at_derived o e d l p =
      let room : leb e2e_max_recv_keys (length o.m) ≡ false = ground arith in
      rw (d, no_window_takes h.ctr, p, store, e, store_new, make_room, room, room) refl

  pub open_e2e_opened :
      (o : Opener A)
      → parse_e2e call.body ≡ inr (h, ct)
      → text_eq h.sender y.self_pub ≡ false
      → is_stale call.now (h.ts * second) ≡ false
      → HasKey y call h aead o
      → y.open_aead aead h.ctr (e2e_ad call.body) ct ≡ some pt
      → (open_e2e y call o).1 ≡ opened h pt
  unfolding open_read open_parsed
  open_e2e_opened o r s t (inl (st, e, a, w)) p = rw (r, s, t, e) (open_at_known o st a w p)
  open_e2e_opened o r s t (inr (e, d, l)) p = rw (r, s, t, e) (open_at_derived o e d l p)

-- Fields of the widths that the frame has for them.
pub record HasWidths {A : Type 0} (x : SealCrypto A) (st : SendState A) (c : SealCall)
    : Type 0 where
  pub dst : length c.dst ≡ 4
  pub src : length c.src ≡ 4
  pub sender : length x.self_pub ≡ 32
  pub eph : length st.eph ≡ 32
  pub pqid : length (pqid_of c.pq) ≡ 4
  pub ts : st.ts < 2 ^ 32

-- The header of a sealed frame whose hop counter a relay wrote.
abbrev pub sealed_header : {A : Type 0} → SealCrypto A → SendState A → SealCall → ℕ → ℕ → E2eHeader
sealed_header x st c n hop = record {
  hop = hop;
  dst = c.dst;
  src = c.src;
  sender = x.self_pub;
  eph = st.eph;
  ts = st.ts;
  ctr = n;
  pqid = pqid_of c.pq;
}

-- What the cipher promises: it opens what it sealed under the same key, counter and header, and
-- its ciphertexts carry a tag of 16 bytes.
pub record CipherOpens {A : Type 0} (x : SealCrypto A) (y : E2eCrypto A) : Type 0 where
  pub opens : (a : A) (k : ℕ) (ad p : Text) → y.open_aead a k ad (x.seal_aead a k ad p) ≡ some p
  pub tagged : (a : A) (k : ℕ) (ad p : Text) → 16 ≤ length (x.seal_aead a k ad p)

module _ {A : Type 0} (x : SealCrypto A) (st : SendState A) (c : SealCall) (n : ℕ)
    (w : HasWidths x st c) where
  fields : Text
  fields = c.dst ++ c.src ++ x.self_pub ++ st.eph ++ put_be 4 st.ts ++ put_be 8 n ++ pqid_of c.pq

  fields_nested :
      (ct : Text)
      → fields ++ ct
        ≡ c.dst
          ++ (c.src
              ++ (x.self_pub
                  ++ (st.eph ++ (put_be 4 st.ts ++ (put_be 8 n ++ (pqid_of c.pq ++ ct))))))
  unfolding fields
  fields_nested ct = simp append_assoc

  length-fields : length fields ≡ 88
  unfolding fields
  length-fields = omega (
    arith,
    length-append fields [],
    ap length (fields_nested []),
    length-wire 0 c.dst c.src x.self_pub st.eph (put_be 4 st.ts) (put_be 8 n) (pqid_of c.pq) []
        w.dst w.src w.sender w.eph (length-put_be 4 st.ts) (length-put_be 8 n) w.pqid,
  )

  -- The authenticated header is that of the sealer, whatever the hop counter.
  ad_kept :
      (hop : ℕ) (ct : Text) → e2e_ad (1 ∷ hop ∷ (fields ++ ct)) ≡ e2e_ad (seal_header x st c n)
  unfolding e2e_ad seal_header fields
  ad_kept hop ct =
      ap (λ t. 1 ∷ 0 ∷ t)
        (take_prefix 88 fields ct length-fields
          ∙ sym (ap (take 88) (sym (append-nil fields)) ∙ take_prefix 88 fields [] length-fields))

  forwarded_is_read :
      (hop : ℕ) (ct : Text)
      → n < 2 ^ 64
      → 16 ≤ length ct
      → parse_e2e (1 ∷ hop ∷ (fields ++ ct)) ≡ inr (sealed_header x st c n hop, ct)
  forwarded_is_read hop ct l long =
      let ts : be_value (put_be 4 st.ts) 0 ≡ st.ts =
        omega (arith, be_value-put_be 4 st.ts 0, w.ts) in
      let ctr : be_value (put_be 8 n) 0 ≡ n = omega (arith, be_value-put_be 8 n 0, l) in
      ap (λ t. parse_e2e (1 ∷ hop ∷ t)) (fields_nested ct)
      ∙ parse_e2e-wire hop c.dst c.src x.self_pub st.eph (put_be 4 st.ts) (put_be 8 n)
          (pqid_of c.pq) ct w.dst w.src w.sender w.eph (length-put_be 4 st.ts) (length-put_be 8 n)
          w.pqid long
      ∙ rw (ts, ctr) refl

  -- A sealed frame, whatever hop counter the relays wrote in it, gives its payload to the receiver
  -- that has the sealer's key: the frame is not the receiver's own, its timestamp is in the accepted
  -- span, and the key is in the table with a window that takes the counter, or is derived while the
  -- table has room. The fields have the widths of the frame, and the cipher opens what it sealed.
  pub open_e2e-seal_body :
      (y : E2eCrypto A) (call : E2eCall) (hop : ℕ) (o : Opener A)
      → n < 2 ^ 64
      → CipherOpens x y
      → call.body ≡ set (seal_body x st c n) 1 hop
      → text_eq x.self_pub y.self_pub ≡ false
      → is_stale call.now (st.ts * second) ≡ false
      → HasKey y call (sealed_header x st c n hop) st.aead o
      → (open_e2e y call o).1 ≡ opened (sealed_header x st c n hop) c.payload
  unfolding seal_body seal_header fields
  open_e2e-seal_body y call hop o l cipher is_frame other timely key =
      let ct = x.seal_aead st.aead n (e2e_ad (seal_header x st c n)) c.payload in
      open_e2e_opened y call (sealed_header x st c n hop) ct c.payload st.aead o
        (ap parse_e2e is_frame ∙ forwarded_is_read hop ct l (cipher.tagged _ _ _ _)) other timely
        key
        (ap (λ b. y.open_aead st.aead n (e2e_ad b) ct) is_frame
          ∙ ap (λ ad. y.open_aead st.aead n ad ct) (ad_kept hop ct)
          ∙ cipher.opens _ _ _ _)
