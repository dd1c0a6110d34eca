-- ===== src/PubExit/Source.antt =====
-- client/pubexit_proto.go: the lemmas on the addresses in a packet that pxRewrite has overwritten.
use apgo.Prelude.{
  ℕ, zero, suc, ◌+◌, ◌≤◌, Bool, true, false, not, [], ◌∷◌, ◌++◌, some, ◌==◌, if◌then◌else◌, length,
  take, drop, length-append, length-take, length-drop, drop_nil, Bool-cases, ◌≡◌, refl, sym, ap,
  subst, ◌∙◌, inl, inr, arith,
}
use apgo.Prelude.Text.{Text, text_eq, text_eq_iff, put_be, length-put_be}
use apgo.PubExit.Packet.{PxIpv4, px_parse, px_framed, px_base, px_transport, px_ihl}
use apgo.PubExit.Checksum.{put_at, px_adjust}
use apgo.PubExit.Rewrite.{
  checksum_at, rewrite_udp, rewrite_icmp, rewrite_transport, rewrite_parsed, px_rewrite, is_zero_at,
}

put_at-cons : (off x : ℕ) (new pkt : Text) → put_at (suc off) new (x ∷ pkt) ≡ x ∷ put_at off new pkt
unfolding put_at
put_at-cons off x new pkt =
    let deeper : suc off + length new ≡ suc (off + length new) = omega arith in
    ap (λ k. x ∷ (take off pkt ++ (new ++ drop k (x ∷ pkt)))) deeper

-- What stands before the bytes that are overwritten.
keep_before :
    (n k off : ℕ) (new pkt : Text)
    → n + k ≤ off
    → n + k ≤ length pkt
    → take k (drop n (put_at off new pkt)) ≡ take k (drop n pkt)
keep_before zero zero off new pkt h l = refl
keep_before n (suc k) off new [] h l = absurd (omega arith)
keep_before (suc n) k off new [] h l = absurd (omega arith)
keep_before zero (suc k) zero new (x ∷ pkt) h l = absurd (omega arith)
keep_before (suc n) k zero new (x ∷ pkt) h l = absurd (omega arith)
keep_before zero (suc k) (suc off) new (x ∷ pkt) h l =
    rw (put_at-cons off x new pkt)
      (ap (λ t. x ∷ t) (keep_before zero k off new pkt (omega arith) (omega arith)))
keep_before (suc n) k (suc off) new (x ∷ pkt) h l =
    rw (put_at-cons off x new pkt) (keep_before n k off new pkt (omega arith) (omega arith))

over_front :
    (n : ℕ) (new pkt : Text) → length new ≤ n → drop n (new ++ drop (length new) pkt) ≡ drop n pkt
over_front n [] pkt h = refl
over_front zero (c ∷ new) pkt h = absurd (omega arith)
over_front (suc n) (c ∷ new) [] h =
    ap (λ t. drop n (new ++ t)) (sym (drop_nil (length new)))
    ∙ over_front n new [] (omega arith)
    ∙ drop_nil n
over_front (suc n) (c ∷ new) (x ∷ pkt) h = over_front n new pkt (omega arith)

-- What stands behind them.
keep_after :
    (n off : ℕ) (new pkt : Text)
    → off + length new ≤ n
    → off ≤ length pkt
    → drop n (put_at off new pkt) ≡ drop n pkt
unfolding put_at
keep_after n zero new pkt h l =
    let front : 0 + length new ≡ length new = omega arith in
    ap (λ k. drop n (new ++ drop k pkt)) front ∙ over_front n new pkt (omega arith)
keep_after n (suc off) new [] h l = absurd (omega arith)
keep_after zero (suc off) new (x ∷ pkt) h l = absurd (omega arith)
keep_after (suc n) (suc off) new (x ∷ pkt) h l =
    ap (drop (suc n)) (put_at-cons off x new pkt)
    ∙ keep_after n off new pkt (omega arith) (omega arith)

read_at :
    (off : ℕ) (new pkt : Text)
    → off ≤ length pkt
    → take (length new) (drop off (put_at off new pkt)) ≡ new
unfolding put_at
read_at zero new pkt l = front new (drop (0 + length new) pkt)
  where
    front : (xs ys : Text) → take (length xs) (xs ++ ys) ≡ xs
    front [] ys = refl
    front (x ∷ xs) ys = ap (λ t. x ∷ t) (front xs ys)
read_at (suc off) new [] l = absurd (omega arith)
read_at (suc off) new (x ∷ pkt) l =
    ap (λ t. take (length new) (drop (suc off) t)) (put_at-cons off x new pkt)
    ∙ read_at off new pkt (omega arith)

length-put_at :
    (off : ℕ) (new pkt : Text) → off ≤ length pkt → length pkt ≤ length (put_at off new pkt)
unfolding put_at
length-put_at off new pkt h = omega (
  arith,
  length-append (take off pkt) (new ++ drop (off + length new) pkt),
  length-append new (drop (off + length new) pkt),
  length-take off pkt,
  length-drop (off + length new) pkt,
)

-- The addresses of a whole IPv4 header.
pub record HasAddrs (src dst pkt : Text) : Type 0 where
  pub src_there : take 4 (drop 12 pkt) ≡ src
  pub dst_there : take 4 (drop 16 pkt) ≡ dst
  pub whole : 20 ≤ length pkt

put_high-HasAddrs :
    (off : ℕ) (new src dst pkt : Text)
    → 20 ≤ off
    → HasAddrs src dst pkt
    → HasAddrs src dst (put_at off new pkt)
unfolding put_at
put_high-HasAddrs off new src dst pkt high v = record {
  src_there = keep_before 12 4 off new pkt (omega arith) (omega (arith, v.whole)) ∙ v.src_there;
  dst_there = keep_before 16 4 off new pkt (omega arith) (omega (arith, v.whole)) ∙ v.dst_there;
  whole = omega (
    arith,
    v.whole,
    high,
    length-append (take off pkt) (new ++ drop (off + length new) pkt),
    length-take off pkt,
  );
}

put_low-HasAddrs :
    (off : ℕ) (new src dst pkt : Text)
    → off + length new ≤ 12
    → HasAddrs src dst pkt
    → HasAddrs src dst (put_at off new pkt)
put_low-HasAddrs off new src dst pkt low v =
    let fits : off ≤ length pkt = omega (arith, v.whole, low) in
    record {
      src_there = ap (take 4) (keep_after 12 off new pkt low fits) ∙ v.src_there;
      dst_there = ap (take 4) (keep_after 16 off new pkt (omega (arith, low)) fits) ∙ v.dst_there;
      whole = omega (arith, v.whole, length-put_at off new pkt fits);
    }

put_src-HasAddrs :
    (new src dst pkt : Text)
    → length new ≡ 4
    → HasAddrs src dst pkt
    → HasAddrs new dst (put_at 12 new pkt)
put_src-HasAddrs new src dst pkt four v = record {
  src_there =
      subst (λ k. take k (drop 12 (put_at 12 new pkt)) ≡ new) four
        (read_at 12 new pkt (omega (arith, v.whole)));
  dst_there =
      ap (take 4) (keep_after 16 12 new pkt (omega (arith, four)) (omega (arith, v.whole)))
      ∙ v.dst_there;
  whole = omega (arith, v.whole, length-put_at 12 new pkt (omega (arith, v.whole)));
}

header_checksum-HasAddrs :
    (len : ℕ) (src dst pkt : Text)
    → HasAddrs src dst pkt
    → HasAddrs src dst (checksum_at 0 10 len pkt)
unfolding checksum_at
header_checksum-HasAddrs len src dst pkt v =
    put_low-HasAddrs 10 (put_be 2 _) src dst _ (omega (arith, length-put_be 2))
      (put_low-HasAddrs 10 (0 ∷ 0 ∷ []) src dst pkt (omega arith) v)

adjust-HasAddrs :
    (off : ℕ) (old new src dst pkt : Text)
    → 20 ≤ off
    → HasAddrs src dst pkt
    → HasAddrs src dst (px_adjust off old new pkt)
unfolding px_adjust
adjust-HasAddrs off old new src dst pkt high v =
    put_high-HasAddrs off (put_be 2 _) src dst pkt high v

udp-HasAddrs :
    (off : ℕ) (old new src dst pkt : Text)
    → 20 ≤ off
    → HasAddrs src dst pkt
    → HasAddrs src dst (rewrite_udp off old new pkt)
unfolding rewrite_udp
udp-HasAddrs off old new src dst pkt high v =
    at (is_zero_at off pkt) (is_zero_at off (px_adjust off old new pkt))
  where
    done : HasAddrs src dst (px_adjust off old new pkt)
    done = adjust-HasAddrs off old new src dst pkt high v

    at :
        (b c : Bool)
        → HasAddrs src dst (
            if b
            then pkt
            else if c
            then put_at off (255 ∷ 255 ∷ []) (px_adjust off old new pkt)
            else px_adjust off old new pkt)
    at true c = v
    at false true = put_high-HasAddrs off (255 ∷ 255 ∷ []) src dst _ high done
    at false false = done

transport-HasAddrs :
    (p : PxIpv4) (old new src dst pkt : Text)
    → 20 ≤ p.ihl
    → HasAddrs src dst pkt
    → HasAddrs src dst (rewrite_transport p true old new pkt)
unfolding rewrite_transport rewrite_icmp
transport-HasAddrs p old new src dst pkt head v = at (p.proto == 6) (p.proto == 17) (p.proto == 1)
  where
    at :
        (b c d : Bool)
        → HasAddrs src dst (
            if b
            then px_adjust (p.ihl + 16) old new pkt
            else if c
            then rewrite_udp (p.ihl + 6) old new pkt
            else if d
            then pkt
            else pkt)
    at true c d = adjust-HasAddrs (p.ihl + 16) old new src dst pkt (omega arith) v
    at false true d = udp-HasAddrs (p.ihl + 6) old new src dst pkt (omega arith) v
    at false false true = v
    at false false false = v

rewrite_parsed-HasAddrs :
    (p : PxIpv4) (new pkt : Text)
    → length new ≡ 4
    → 20 ≤ p.ihl
    → HasAddrs p.src p.dst pkt
    → HasAddrs new p.dst (rewrite_parsed p true new pkt)
unfolding rewrite_parsed
rewrite_parsed-HasAddrs p new pkt four head v = at (text_eq p.src new) p.first_frg refl
  where
    headed : Text
    headed = checksum_at 0 10 p.ihl (put_at 12 new pkt)

    done : HasAddrs new p.dst headed
    done =
        header_checksum-HasAddrs p.ihl new p.dst (put_at 12 new pkt)
          (put_src-HasAddrs new p.src p.dst pkt four v)

    at :
        (b c : Bool)
        → text_eq p.src new ≡ b
        → HasAddrs new p.dst
            (if b then pkt else if not c then headed else rewrite_transport p true p.src new headed)
    at true c same = subst (λ a. HasAddrs a p.dst pkt) ((text_eq_iff p.src new).0 same) v
    at false true other = transport-HasAddrs p p.src new new p.dst headed head done
    at false false other = done

-- What a transport header adds leaves the addresses.
transport_keeps :
    (p q : PxIpv4) (l4 : Text)
    → px_transport p l4 ≡ some q
    → (q.src ≡ p.src) × (q.dst ≡ p.dst) × (q.ihl ≡ p.ihl)
unfolding px_transport
transport_keeps p q l4 h = ground arith

framed_whole : (pkt : Text) → px_framed pkt ≡ true → (20 ≤ px_ihl pkt) × (20 ≤ length pkt)
unfolding px_framed
framed_whole pkt h = ground arith

px_parse-HasAddrs :
    (p : PxIpv4) (pkt : Text) → px_parse pkt ≡ some p → HasAddrs p.src p.dst pkt × (20 ≤ p.ihl)
unfolding px_parse px_base
px_parse-HasAddrs p pkt h = elim (Bool-cases (px_framed pkt)) [
  | inr broken ↦ absurd (ground (arith, h, broken))
  | inl framed ↦
      let whole = framed_whole pkt framed in
      let keeps : (p.src ≡ (px_base pkt).src)
          × (p.dst ≡ (px_base pkt).dst)
          × (p.ihl ≡ (px_base pkt).ihl) =
        elim (Bool-cases (px_base pkt).first_frg) [
          | inl first ↦
              transport_keeps (px_base pkt) p (drop (px_ihl pkt) pkt)
                (ground (arith, h, framed, first))
          | inr later ↦
              let same : px_base pkt ≡ p = ground (arith, h, framed, later) in
              (
                ap (λ (q : PxIpv4). q.src) (sym same),
                ap (λ (q : PxIpv4). q.dst) (sym same),
                ap (λ (q : PxIpv4). q.ihl) (sym same),
              )
        ] in
      (
        record { src_there = sym keeps.0; dst_there = sym keeps.1; whole = whole.1 },
        omega (arith, whole.0, keeps.2),
      )
]

-- The packet that is rewritten for a source leaves with that source, for where it was going.
pub px_rewrite-HasAddrs :
    (p : PxIpv4) (new pkt out : Text)
    → length new ≡ 4
    → px_parse pkt ≡ some p
    → px_rewrite pkt true new ≡ some out
    → HasAddrs new p.dst out
unfolding px_rewrite
px_rewrite-HasAddrs p new pkt out four h r =
    let (there, head) = px_parse-HasAddrs p pkt h in
    let made : rewrite_parsed p true new pkt ≡ out = ground (arith, h, r) in
    subst (HasAddrs new p.dst) made (rewrite_parsed-HasAddrs p new pkt four head there)
