-- ===== src/E2e/Sealer.antt =====
-- client/e2erelay.go: e2eSealer, which seals the payloads of one node under short-lived keys.
-- The random source, X25519, the key derivation and the AEAD are parameters.
use apgo.Prelude.{
  ℕ, ◌+◌, ◌%◌, ◌^◌, Bool, ◌&&◌, List, [], ◌∷◌, ◌++◌, Option, none, some, ltb, leb, if◌then◌else◌,
  length, replicate, ◌>>=◌, ◌/◌,
}
use apgo.Prelude.Maps.{Assoc, Key, lookup, insert, retain}
use apgo.Prelude.Text.{Text, text_key, put_be, codes}
use apgo.E2e.Opener.{second, e2e_rotate, e2e_version, e2e_ad}

abbrev pub e2e_max_packets : ℕ
e2e_max_packets = 2 ^ 32

abbrev pub e2e_max_send_keys : ℕ
e2e_max_send_keys = 1024

pub record SendState (A : Type 0) : Type 0 where
  pub eph : Text
  pub ts : ℕ
  pub born : ℕ
  pub aead : A
  pub ctr : ℕ

pub record Sealer (A : Type 0) : Type 0 where
  pub m : Assoc (SendState A)

abbrev pub new_sealer : {A : Type 0} → Sealer A
new_sealer = record { m = [] }

-- The identifier and the value of a post-quantum secret.
pub record E2ePqSecret : Type 0 where
  pub id : Text
  pub ss : Text

pub record SealCrypto (A : Type 0) : Type 0 where
  pub self_pub : Text
  -- The public key of a private key, and X25519 of a private key and a public key.
  pub base : Text → Option Text
  pub dh : Text → Text → Option Text
  -- X25519 with the node's own private key.
  pub self_dh : Text → Option Text
  -- `e2eDeriveAEAD` on the two secrets, the post-quantum secret, the recipient, the ephemeral key
  -- and the identifier of the secret.
  pub derive : Text → Text → Option Text → Text → Text → Text → Option A
  pub seal_aead : A → ℕ → Text → Text → Text

-- One call of `seal`; `drawn` is the ephemeral private key that it would read from the random source.
pub record SealCall : Type 0 where
  pub to : Text
  pub dst : Text
  pub src : Text
  pub pq : Option E2ePqSecret
  pub payload : Text
  pub now : ℕ
  pub drawn : Option Text

unfoldable pub pqid_of : Option E2ePqSecret → Text
pqid_of none = replicate 4 0
pqid_of (some p) = p.id

unfoldable pub pqss_of : Option E2ePqSecret → Option Text
pqss_of none = none
pqss_of (some p) = some p.ss

unfoldable pub send_key : SealCall → Key
send_key c = text_key (c.to ++ pqid_of c.pq)

-- What leaves the node, with the key and the counter it was sealed under.
pub record Sent : Type 0 where
  pub eph : Text
  pub ctr : ℕ
  pub frame : Text

module _ {A : Type 0} where
  -- `st != nil`, young enough and not used up.
  unfoldable pub is_usable : ℕ → SendState A → Bool
  is_usable now st = ltb now (st.born + e2e_rotate) && ltb st.ctr e2e_max_packets

  -- The loop that drops the first entry that it meets.
  unfoldable pub drop_one : Assoc (SendState A) → Assoc (SendState A)
  drop_one [] = []
  drop_one (e ∷ m) = m

  unfoldable pub drop_expired : ℕ → Assoc (SendState A) → Assoc (SendState A)
  drop_expired now m =
      let young = retain (λ k v. ltb now (v.born + e2e_rotate)) m in
      if leb e2e_max_send_keys (length young) then drop_one young else young

  unfoldable pub make_send_room : ℕ → Assoc (SendState A) → Assoc (SendState A)
  make_send_room now m = if leb e2e_max_send_keys (length m) then drop_expired now m else m

module _ {A : Type 0} (x : SealCrypto A) where
  -- The state of a new ephemeral key.
  unfoldable pub new_state : SealCall → Text → Option (SendState A)
  new_state c eph_priv = do
    eph ← x.base eph_priv
    dh1 ← x.dh eph_priv c.to
    dh2 ← x.self_dh c.to
    aead ← x.derive dh1 dh2 (pqss_of c.pq) c.to eph (pqid_of c.pq)
    some (record { eph = eph; ts = c.now / second % 2 ^ 32; born = c.now; aead = aead; ctr = 0 })

  -- `seal` under a state: the header and the ciphertext that follow the frame's type.
  unfoldable pub seal_header : SendState A → SealCall → ℕ → Text
  seal_header st c ctr =
      e2e_version
      ∷ 0
      ∷ (c.dst ++ c.src ++ x.self_pub ++ st.eph ++ put_be 4 st.ts ++ put_be 8 ctr ++ pqid_of c.pq)

  unfoldable pub seal_body : SendState A → SealCall → ℕ → Text
  seal_body st c ctr =
      let hdr = seal_header st c ctr in hdr ++ x.seal_aead st.aead ctr (e2e_ad hdr) c.payload

  -- The counter is taken, and the state it belongs to is stored.
  unfoldable pub seal_with : Sealer A → SealCall → SendState A → Sealer A × Option Sent
  seal_with z c st =
      let ctr = (st.ctr + 1) % 2 ^ 64 in
      (
        record { m = insert (send_key c) (record st { ctr = ctr }) z.m },
        some (record { eph = st.eph; ctr = ctr; frame = codes "OVLYCTL1Z" ++ seal_body st c ctr }),
      )

  unfoldable pub seal_new : Sealer A → SealCall → Sealer A × Option Sent
  seal_new z c = elim (c.drawn >>= new_state c) [
    | none ↦ (z, none)
    | some st ↦ seal_with (record { m = make_send_room c.now z.m }) c st
  ]

  unfoldable pub seal : Sealer A → SealCall → Sealer A × Option Sent
  seal z c = elim (lookup (send_key c) z.m) [
    | none ↦ seal_new z c
    | some st ↦ if is_usable c.now st then seal_with z c st else seal_new z c
  ]

  unfoldable pub with_sent : Option Sent → List Sent → List Sent
  with_sent none sent = sent
  with_sent (some p) sent = p ∷ sent

  -- What a sequence of calls sends.
  unfoldable pub seal_all : Sealer A → List SealCall → List Sent
  seal_all z [] = []
  seal_all z (c ∷ cs) = with_sent (seal z c).1 (seal_all (seal z c).0 cs)
