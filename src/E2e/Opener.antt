-- ===== src/E2e/Opener.antt =====
-- client/e2erelay.go: e2eOpener, which opens the sealed frames of every sender and keeps one replay
-- window for each key. A key of the table is the number of its 68 bytes; times are nanoseconds, and
-- order is kept by unsigned arithmetic, `now.Sub(t) > d` being `t + d < now`.
-- X25519, the key derivation and the AEAD are parameters (`E2eCrypto`); the answer of the
-- floating-point rate limiter and of the post-quantum lookup are part of a call.
use apgo.Prelude.{
  ℕ, ◌+◌, ◌*◌, Bool, true, false, not, ◌||◌, List, [], ◌∷◌, ◌++◌, Option, none, some, ◌⊎◌, inl, inr,
  ltb, leb, ◌==◌, if◌then◌else◌, get_or, set, take, drop, length, replicate,
}
use apgo.Prelude.Maps.{Assoc, Key, lookup, insert, retain}
use apgo.Prelude.Text.{Text, text_eq, text_key, be_value}
use apgo.E2e.{E2eWindow, window_ok, window_mark, no_window}

-- Nanoseconds.
abbrev pub second : ℕ
second = 1000000000

abbrev pub e2e_header_len : ℕ
e2e_header_len = 90

-- With the sixteen bytes of the tag.
abbrev pub e2e_overhead : ℕ
e2e_overhead = e2e_header_len + 16

abbrev pub e2e_version : ℕ
e2e_version = 1

abbrev pub e2e_rotate : ℕ
e2e_rotate = 120 * second

abbrev pub e2e_max_skew : ℕ
e2e_max_skew = 900 * second

abbrev pub e2e_recv_keep : ℕ
e2e_recv_keep = 2 * e2e_max_skew + e2e_rotate + 300 * second

abbrev pub e2e_max_recv_keys : ℕ
e2e_max_recv_keys = 8192

pub data E2eError : Type 0 where
  short : E2eError
  version : E2eError
  stale : E2eError
  limit : E2eError
  auth : E2eError
  replay : E2eError
  no_pq : E2eError
  derivation : E2eError

pub record E2eHeader : Type 0 where
  pub hop : ℕ
  pub dst : Text
  pub src : Text
  pub sender : Text
  pub eph : Text
  pub ts : ℕ
  pub ctr : ℕ
  pub pqid : Text

abbrev pub zero_header : E2eHeader
zero_header = record {
  hop = 0;
  dst = replicate 4 0;
  src = replicate 4 0;
  sender = replicate 32 0;
  eph = replicate 32 0;
  ts = 0;
  ctr = 0;
  pqid = replicate 4 0;
}

abbrev pub slice : ℕ → ℕ → Text → Text
slice from n body = take n (drop from body)

unfoldable pub parse_e2e : Text → E2eError ⊎ (E2eHeader × Text)
parse_e2e body =
    if ltb (length body) e2e_overhead
    then inl short
    else if not (get_or body 0 0 == e2e_version)
    then inl version
    else inr (
      record {
        hop = get_or body 1 0;
        dst = slice 2 4 body;
        src = slice 6 4 body;
        sender = slice 10 32 body;
        eph = slice 42 32 body;
        ts = be_value (slice 74 4 body) 0;
        ctr = be_value (slice 78 8 body) 0;
        pqid = slice 86 4 body;
      },
      drop e2e_header_len body,
    )

-- `e2eAD`: the header with its hop counter cleared.
unfoldable pub e2e_ad : Text → Text
e2e_ad hdr = set (take e2e_header_len hdr) 1 0

unfoldable pub has_pq : E2eHeader → Bool
has_pq h = not (text_eq h.pqid (replicate 4 0))

unfoldable pub recv_key : E2eHeader → Key
recv_key h = text_key (h.sender ++ h.eph ++ h.pqid)

pub record E2eCrypto (A : Type 0) : Type 0 where
  pub self_pub : Text
  -- X25519 with the own private key; `none` for a key of low order.
  pub dh : Text → Option Text
  -- `e2eDeriveAEAD` on the two secrets, the post-quantum secret, and the sender's three fields.
  pub derive : Text → Text → Option Text → Text → Text → Text → Option A
  -- Open at a counter, with the authenticated header and the ciphertext.
  pub open_aead : A → ℕ → Text → Text → Option Text

pub record RecvState (A : Type 0) : Type 0 where
  pub aead : A
  pub ts : ℕ
  pub win : E2eWindow

pub record Opener (A : Type 0) : Type 0 where
  pub m : Assoc (RecvState A)

abbrev pub new_opener : {A : Type 0} → Opener A
new_opener = record { m = [] }

-- One call of `open`.
pub record E2eCall : Type 0 where
  pub body : Text
  pub now : ℕ
  pub has_budget : Bool
  pub pq_lookup : Text → Text → Option Text

pub data Opened : Type 0 where
  opened : E2eHeader → Text → Opened
  refused : E2eHeader → E2eError → Opened

abbrev pub is_opened : Opened → Bool
is_opened (opened h pt) = true
is_opened (refused h e) = false

-- One step of a receiver: a frame, or the periodic prune.
pub data E2eStep : Type 0 where
  arrives : E2eCall → E2eStep
  prunes : ℕ → E2eStep

abbrev pub time : E2eStep → ℕ
time (arrives c) = c.now
time (prunes now) = now

unfoldable pub is_stale : ℕ → ℕ → Bool
is_stale now ts = ltb (ts + e2e_max_skew) now || ltb (now + e2e_max_skew) ts

-- `prune`, also run by `open` when the table is full.
unfoldable pub prune : {A : Type 0} → ℕ → Opener A → Opener A
prune now o = record { m = retain (λ k v. not (ltb (v.ts + e2e_recv_keep) now)) o.m }

-- The room that `open` makes when the table is full.
unfoldable pub make_room : {A : Type 0} → ℕ → Opener A → Opener A
make_room now o = if leb e2e_max_recv_keys (length o.m) then prune now o else o

-- The second critical section of `open`: the packet authenticated under a fresh state.
unfoldable pub store_new :
    {A : Type 0} → ℕ → E2eHeader → RecvState A → Text → Opener A → Opener A × Opened
store_new now h fresh pt o =
    let room = make_room now o in
    if leb e2e_max_recv_keys (length room.m)
    then (room, refused h limit)
    else (record { m = insert (recv_key h) fresh room.m }, opened h pt)

unfoldable pub store :
    {A : Type 0} → ℕ → E2eHeader → RecvState A → Text → Opener A → Opener A × Opened
store now h fresh pt o = elim (lookup (recv_key h) o.m) [
  | some cur ↦
      if window_ok cur.win h.ctr
      then (
        record { m = insert (recv_key h) (record cur { win = window_mark cur.win h.ctr }) o.m },
        opened h pt,
      )
      else (o, refused h replay)
  | none ↦ store_new now h fresh pt o
]

module _ {A : Type 0} (x : E2eCrypto A) where
  unfoldable pub open_locked : RecvState A → Text → Text → E2eHeader → RecvState A × Opened
  open_locked st body ct h =
      if not (window_ok st.win h.ctr)
      then (st, refused h replay)
      else elim (x.open_aead st.aead h.ctr (e2e_ad body) ct) [
        | none ↦ (st, refused h auth)
        | some pt ↦ (record st { win = window_mark st.win h.ctr }, opened h pt)
      ]

  unfoldable pub derive_dh : E2eHeader → Option Text → E2eError ⊎ A
  derive_dh h pqss = elim (x.dh h.eph) [
    | none ↦ inl auth
    | some dh1 ↦ elim (x.dh h.sender) [
      | none ↦ inl auth
      | some dh2 ↦ elim (x.derive dh1 dh2 pqss h.sender h.eph h.pqid) [
        | none ↦ inl derivation
        | some aead ↦ inr aead
      ]
    ]
  ]

  -- The path from the post-quantum lookup to the derived key.
  unfoldable pub derive_key : E2eCall → E2eHeader → E2eError ⊎ A
  derive_key c h =
      let limited = λ (pqss : Option Text). if c.has_budget then derive_dh h pqss else inl limit in
      if has_pq h
      then elim (c.pq_lookup h.sender h.pqid) [ none ↦ inl no_pq | some ss ↦ limited (some ss) ]
      else limited none

  -- After the packet was tried on a fresh state.
  unfoldable pub store_opened : ℕ → E2eHeader → Opener A → RecvState A → Opened → Opener A × Opened
  store_opened now h o st (opened g pt) = store now h st pt o
  store_opened now h o st (refused g e) = (o, refused h e)

  abbrev pub fresh_state : A → E2eHeader → RecvState A
  fresh_state aead h = record { aead = aead; ts = h.ts * second; win = no_window }

  unfoldable pub open_derived :
      E2eCall → E2eHeader → Text → Opener A → E2eError ⊎ A → Opener A × Opened
  open_derived c h ct o (inl e) = (o, refused h e)
  open_derived c h ct o (inr aead) =
      let r = open_locked (fresh_state aead h) c.body ct h in store_opened c.now h o r.0 r.1

  -- The packet's key is in the table, or not.
  unfoldable pub open_at :
      E2eCall → E2eHeader → Text → Opener A → Option (RecvState A) → Opener A × Opened
  open_at c h ct o none = open_derived c h ct o (derive_key c h)
  open_at c h ct o (some st) =
      let r = open_locked st c.body ct h in (record { m = insert (recv_key h) r.0 o.m }, r.1)

  -- A frame whose header was read.
  unfoldable pub open_parsed : E2eCall → E2eHeader → Text → Opener A → Opener A × Opened
  open_parsed c h ct o =
      if text_eq h.sender x.self_pub
      then (o, refused h auth)
      else if is_stale c.now (h.ts * second)
      then (o, refused h stale)
      else open_at c h ct o (lookup (recv_key h) o.m)

  unfoldable pub open_read : E2eCall → Opener A → E2eError ⊎ (E2eHeader × Text) → Opener A × Opened
  open_read c o (inl e) = (o, refused zero_header e)
  open_read c o (inr (h, ct)) = open_parsed c h ct o

  abbrev pub open_e2e : E2eCall → Opener A → Opener A × Opened
  open_e2e c o = open_read c o (parse_e2e c.body)

  unfoldable pub step : Opener A → E2eStep → Opener A
  step o (arrives c) = (open_e2e c o).0
  step o (prunes now) = prune now o

  unfoldable pub run : Opener A → List E2eStep → Opener A
  run o [] = o
  run o (s ∷ ss) = run (step o s) ss
