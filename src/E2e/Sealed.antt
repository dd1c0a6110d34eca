-- ===== src/E2e/Sealed.antt =====
-- client/e2erelay.go: the lemmas on the bytes of a frame, as parseE2E reads them.
use apgo.Prelude.{
  ℕ, ◌+◌, ◌≤◌, false, ◌∷◌, ◌++◌, inr, ltb, drop, length, length-append, take_prefix, drop_past, ◌≡◌,
  refl, arith,
}
use apgo.Prelude.Text.{Text, be_value}
use apgo.E2e.Opener.{e2e_overhead, E2eHeader, parse_e2e}

-- The bytes of a frame with the given fields.
abbrev pub wire : ℕ → (dst src sender eph ts ctr pqid ct : Text) → Text
wire hop dst src sender eph ts ctr pqid ct =
    1 ∷ hop ∷ (dst ++ (src ++ (sender ++ (eph ++ (ts ++ (ctr ++ (pqid ++ ct)))))))

module _ (hop : ℕ) (dst src sender eph ts ctr pqid ct : Text) (d : length dst ≡ 4)
    (s : length src ≡ 4) (k : length sender ≡ 32) (e : length eph ≡ 32) (t : length ts ≡ 4)
    (c : length ctr ≡ 8) (p : length pqid ≡ 4) where
  abbrev pub body : Text
  body = wire hop dst src sender eph ts ctr pqid ct

  pub length-wire : length body ≡ 90 + length ct
  length-wire = omega (
    arith,
    d,
    s,
    k,
    e,
    t,
    c,
    p,
    length-append dst (src ++ (sender ++ (eph ++ (ts ++ (ctr ++ (pqid ++ ct)))))),
    length-append src (sender ++ (eph ++ (ts ++ (ctr ++ (pqid ++ ct))))),
    length-append sender (eph ++ (ts ++ (ctr ++ (pqid ++ ct)))),
    length-append eph (ts ++ (ctr ++ (pqid ++ ct))),
    length-append ts (ctr ++ (pqid ++ ct)),
    length-append ctr (pqid ++ ct),
    length-append pqid ct,
  )

  from_src : drop 6 body ≡ src ++ (sender ++ (eph ++ (ts ++ (ctr ++ (pqid ++ ct)))))
  from_src =
      drop_past 2 4 body dst (src ++ (sender ++ (eph ++ (ts ++ (ctr ++ (pqid ++ ct)))))) d refl

  from_sender : drop 10 body ≡ sender ++ (eph ++ (ts ++ (ctr ++ (pqid ++ ct))))
  from_sender = drop_past 6 4 body src (sender ++ (eph ++ (ts ++ (ctr ++ (pqid ++ ct))))) s from_src

  from_eph : drop 42 body ≡ eph ++ (ts ++ (ctr ++ (pqid ++ ct)))
  from_eph = drop_past 10 32 body sender (eph ++ (ts ++ (ctr ++ (pqid ++ ct)))) k from_sender

  from_ts : drop 74 body ≡ ts ++ (ctr ++ (pqid ++ ct))
  from_ts = drop_past 42 32 body eph (ts ++ (ctr ++ (pqid ++ ct))) e from_eph

  from_ctr : drop 78 body ≡ ctr ++ (pqid ++ ct)
  from_ctr = drop_past 74 4 body ts (ctr ++ (pqid ++ ct)) t from_ts

  from_pqid : drop 86 body ≡ pqid ++ ct
  from_pqid = drop_past 78 8 body ctr (pqid ++ ct) c from_ctr

  from_ct : drop 90 body ≡ ct
  from_ct = drop_past 86 4 body pqid ct p from_pqid

  abbrev pub read_header : E2eHeader
  read_header = record {
    hop = hop;
    dst = dst;
    src = src;
    sender = sender;
    eph = eph;
    ts = be_value ts 0;
    ctr = be_value ctr 0;
    pqid = pqid;
  }

  pub parse_e2e-wire : 16 ≤ length ct → parse_e2e body ≡ inr (read_header, ct)
  unfolding parse_e2e
  parse_e2e-wire long =
      let enough : ltb (length body) e2e_overhead ≡ false = ground (arith, length-wire) in
      rw (enough, from_src, from_sender, from_eph, from_ts, from_ctr, from_pqid, from_ct)
        (rw
          (
            take_prefix 4 dst _ d,
            take_prefix 4 src _ s,
            take_prefix 32 sender _ k,
            take_prefix 32 eph _ e,
            take_prefix 4 ts _ t,
            take_prefix 8 ctr _ c,
            take_prefix 4 pqid _ p,
          )
          refl)
